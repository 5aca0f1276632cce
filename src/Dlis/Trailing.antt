-- ===== src/Dlis/Trailing.antt =====
-- dlis.cc: the length of a segment's trailer, which is found once per segment.
pub mod Cache
use dlis_parser.Base.{ℕ, ◌+◌, Bool, if◌then◌else◌}
use dlis_parser.Base.Int.{ℤ, pos, negsuc, pos_part, ◌+ℤ◌, ◌-ℤ◌, ltb_ℤ, leb_ℤ}
use dlis_parser.Codec.Memory.{Ptr}
use dlis_parser.Dlis.State.{ParseState, Dlis, cell, avail, lrs_remain}
use dlis_parser.Dlis.Flags.{lrs_attr_has_checksum, lrs_attr_has_trailing, lrs_attr_has_padding}

-- &buffer[buffer_idx][i]. In front of the whole array the model has no more addresses than 0.
abbrev pub address : Dlis → ℤ → Ptr
address d i = pos_part (pos (cell d.buffer_idx 0) +ℤ i)

-- The two bytes of the checksum and the two of the trailing length.
abbrev pub fixed_trail : ParseState → ℕ
fixed_trail s =
    (if lrs_attr_has_checksum s then 2 else 0) + (if lrs_attr_has_trailing s then 2 else 0)

-- `negsuc 0` is the -1 of a segment that has not come in whole.
unfoldable pub padding_len : Dlis → ℤ
unfolding ◌+ℤ◌ ◌-ℤ◌
padding_len d =
    if leb_ℤ (lrs_remain d.state) (avail d)
    then pos (
        d.buffer
          (address d (pos d.byte_idx +ℤ lrs_remain d.state -ℤ pos (1 + fixed_trail d.state))))
    else negsuc 0

-- The length without the cache.
unfoldable pub computed_trail : Dlis → ℤ
unfolding padding_len
computed_trail d =
    let padding = if lrs_attr_has_padding d.state then padding_len d else pos 0 in
    if ltb_ℤ padding (pos 0) then negsuc 0 else pos (fixed_trail d.state + pos_part padding)

-- A known length is returned as it is, and a new one is kept unless it is -1.
unfoldable pub trailing_len : Dlis → ℤ × Dlis
unfolding computed_trail
trailing_len d =
    if ltb_ℤ d.state.lrs_trail_len (pos 0)
    then (let n = computed_trail d in
        if ltb_ℤ n (pos 0)
        then (negsuc 0, d)
        else (n, record d { state = record (d.state) { lrs_trail_len = n } }))
    else (d.state.lrs_trail_len, d)
