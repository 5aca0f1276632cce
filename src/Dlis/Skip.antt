-- ===== src/Dlis/Skip.antt =====
-- dlis.cc, lrs_skip_unparsed_buff: a component that a segment's end cuts is saved, to be put in
-- front of the next segment's body.
pub mod Border
pub mod Carry
pub mod Saved
use dlis_parser.Base.{ℕ, ◌+◌, Bool, true, false, if◌then◌else◌}
use dlis_parser.Base.Int.{ℤ, pos, pos_part, ◌+ℤ◌, ◌-ℤ◌, ltb_ℤ}
use dlis_parser.Codec.Memory.{bytes}
use dlis_parser.Codec.Value.{Outcome, ok, fault}
use dlis_parser.Dlis.State.{ParseCode, Dlis, lrs_remain}
use dlis_parser.Dlis.Trailing.{address, trailing_len}

abbrev pub unparsed_size : ℕ
unparsed_size = 100000

-- In these states no byte of the component has been taken; in the others its first byte has.
unfoldable pub keeps_first_byte : ParseCode → Bool
keeps_first_byte ParseCode.expecting_eflr_comp_attrib_value = false
keeps_first_byte ParseCode.expecting_iflr_data = false
keeps_first_byte ParseCode.expecting_iflr_header = false
keeps_first_byte _ = true

-- `len` bytes of the segment are left and are passed over; the last `saved` of those up to there
-- are kept. A negative size, a larger one than the array, and a negative index are undefined.
unfoldable pub skip_saving : Dlis → ℤ → ℤ → Outcome Dlis
unfolding ◌+ℤ◌ ◌-ℤ◌
skip_saving d len saved =
    if ltb_ℤ saved (pos 0)
    then fault
    else if ltb_ℤ (pos unparsed_size) saved
    then fault
    else if ltb_ℤ (pos d.byte_idx +ℤ len) (pos 0)
    then fault
    else ok (record d {
      byte_idx = pos_part (pos d.byte_idx +ℤ len);
      state = record (d.state) {
        unparsed_buff =
            bytes d.buffer (address d (pos d.byte_idx +ℤ len -ℤ saved)) (pos_part saved);
        unparsed_buff_len = pos_part saved;
        lrs_byte_cnt = pos_part (pos d.state.lrs_byte_cnt +ℤ len);
        vr_byte_cnt = pos_part (pos d.state.vr_byte_cnt +ℤ len);
      };
    })

unfoldable pub lrs_skip_unparsed_buff : Dlis → Outcome Dlis
unfolding keeps_first_byte skip_saving trailing_len
lrs_skip_unparsed_buff d =
    let (trail, d') = trailing_len d in
    let len = lrs_remain d'.state -ℤ trail in
    skip_saving d' len (if keeps_first_byte d'.state.code then len +ℤ pos 1 else len)
