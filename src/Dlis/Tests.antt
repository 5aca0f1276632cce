-- ===== src/Dlis/Tests.antt =====
-- The theorems on dlis.cc at small states.
mod Run
mod Search
mod Loop
mod Values
mod Chain
mod Curve
mod Reading
mod Components
mod Template
use dlis_parser.Base.{◌++◌, ◌↔◌, arith, ◌+◌, ◌-◌, ◌≡◌, refl, true, some, [], ◌∷◌}
use dlis_parser.Codec.Memory.{bytes}
use dlis_parser.Dlis.State.{here, lrs_remain, Dlis, ParseCode}
use dlis_parser.Dlis.Skip.Border.{restore_unparsed-lrs_skip_unparsed_buff}
use dlis_parser.Dlis.Strings.{obname_cmp}
use dlis_parser.Codec.Value.{NameVal, ok}
use dlis_parser.Dlis.Input.{accept_chunk}
use dlis_parser.Dlis.Input.Chunk.{IsBuffered, Feeds, accept_chunk-Feeds}
use dlis_parser.Dlis.Skip.{lrs_skip_unparsed_buff, keeps_first_byte, skip_saving}
use dlis_parser.Dlis.Trailing.{trailing_len}
use dlis_parser.Base.Int.{◌-ℤ◌, ◌+ℤ◌, pos}
use dlis_parser.Dlis.Skip.Saved.{and_first, attrib, Skipped, lrs_skip_unparsed_buff-Skipped}
use dlis_parser.Dlis.Skip.Carry.{Restored, restore_unparsed-Restored}
use dlis_parser.Dlis.Headers.{LrsHeader, restore_unparsed, parse_vr_header, parse_lrs_header}
use dlis_parser.Dlis.Headers.RoundTrip.{
  parse_vr_header-vr_header_bytes, parse_lrs_header-lrs_header_bytes,
}
use dlis_parser.Dlis.NextState.{go_to, next_state, next_from, after_segment}
use dlis_parser.Dlis.NextState.Guards.{Step}
use dlis_parser.Dlis.NextState.Taken.{next_state-Step}
use dlis_parser.Dlis.Strings.Names.{obname_cmp_iff}
use dlis_parser.Dlis.Samples.{blank_state, unset, loaded}

unset-IsBuffered : IsBuffered unset
unset-IsBuffered = record { ordered = omega arith; inside = omega arith; room = omega arith }

accept_chunk-Feeds_example :
    (d' : Dlis) × (accept_chunk unset (1 ∷ 2 ∷ []) ≡ ok d') × Feeds unset (1 ∷ 2 ∷ []) d'
accept_chunk-Feeds_example = accept_chunk-Feeds unset (1 ∷ 2 ∷ []) unset-IsBuffered (omega arith)

-- An attribute is cut: three bytes of the segment are left, and a trailer of two.
abbrev cut_attribute : Dlis
cut_attribute = record unset {
  byte_idx = 10;
  state = record blank_state {
    code = ParseCode.expecting_eflr_comp_attrib;
    lrs_len = 20;
    lrs_byte_cnt = 15;
    lrs_trail_len = pos 2;
  };
}

cut_attribute-remain : lrs_remain cut_attribute.state ≡ pos 5
unfolding ◌-ℤ◌
cut_attribute-remain = refl

lrs_skip_unparsed_buff-Skipped_example :
    (d' : Dlis) × (lrs_skip_unparsed_buff cut_attribute ≡ ok d') × Skipped cut_attribute 3 4 d'
lrs_skip_unparsed_buff-Skipped_example =
    lrs_skip_unparsed_buff-Skipped cut_attribute 2 3 4 refl cut_attribute-remain (and_first attrib)
      (omega arith) (omega arith)

abbrev two_carried : Dlis
two_carried = record unset {
  byte_idx = 10;
  state = record blank_state { unparsed_buff_len = 2; unparsed_buff = 7 ∷ 8 ∷ [] };
}

abbrev small_header : LrsHeader
small_header = record { lrs_len = 20; lrs_attr = 0x80; lrs_type = 3 }

restore_unparsed-Restored_example :
    (h' : LrsHeader) × (d' : Dlis) × (restore_unparsed small_header two_carried ≡ ok (h', d'))
    × Restored small_header two_carried h' d' 5
restore_unparsed-Restored_example =
    restore_unparsed-Restored small_header two_carried 5 refl (omega arith)

-- A segment has ended, and the visible record has two more bytes.
abbrev at_trailer : Dlis
at_trailer = record unset {
  state = record blank_state {
    code = ParseCode.expecting_lrs_trailing;
    vr_len = 5;
    vr_byte_cnt = 3;
  };
}

at_trailer-next : next_state at_trailer ≡ ok (go_to at_trailer ParseCode.expecting_lrs)
unfolding next_state next_from after_segment
at_trailer-next = refl

next_state-Step_example : Step at_trailer 0 ParseCode.expecting_lrs_trailing ParseCode.expecting_lrs
next_state-Step_example =
    next_state-Step at_trailer 0 refl (go_to at_trailer ParseCode.expecting_lrs) at_trailer-next

parse_vr_header-vr_header_bytes_example :
    parse_vr_header (loaded (0 ∷ 56 ∷ 0xFF ∷ 1 ∷ [])) ≡ ok (some (4, 56, 1))
parse_vr_header-vr_header_bytes_example =
    parse_vr_header-vr_header_bytes (loaded (0 ∷ 56 ∷ 0xFF ∷ 1 ∷ [])) 56 1 refl (omega arith)
      (omega arith) (refl, (refl, (refl, (refl, tt))))

parse_lrs_header-lrs_header_bytes_example :
    parse_lrs_header (loaded (0 ∷ 20 ∷ 0x80 ∷ 3 ∷ []))
    ≡ ok (some (4, small_header), loaded (0 ∷ 20 ∷ 0x80 ∷ 3 ∷ []))
parse_lrs_header-lrs_header_bytes_example =
    parse_lrs_header-lrs_header_bytes (loaded (0 ∷ 20 ∷ 0x80 ∷ 3 ∷ [])) small_header (omega arith)
      refl (omega arith) (refl, (refl, (refl, (refl, tt))))

abbrev channel_name : NameVal
channel_name = record { origin = 1; copy_number = 0; name = 84 ∷ 68 ∷ [] }

obname_cmp_iff_example :
    (obname_cmp channel_name channel_name ≡ true) ↔ (channel_name ≡ channel_name)
obname_cmp_iff_example = obname_cmp_iff channel_name channel_name (omega arith, (omega arith, tt))

abbrev skipped_attribute : Dlis
skipped_attribute = record unset {
  byte_idx = 13;
  state = record blank_state {
    code = ParseCode.expecting_eflr_comp_attrib;
    lrs_len = 20;
    lrs_byte_cnt = 18;
    vr_byte_cnt = 3;
    lrs_trail_len = pos 2;
    unparsed_buff = 0 ∷ 0 ∷ 0 ∷ 0 ∷ [];
    unparsed_buff_len = 4;
  };
}

-- The cut attribute, after it was skipped, and with the next header in another place.
abbrev next_segment : Dlis
next_segment = record unset {
  byte_idx = 8;
  state = record blank_state { unparsed_buff = 0 ∷ 0 ∷ 0 ∷ 0 ∷ []; unparsed_buff_len = 4 };
}

cut_attribute-skips : lrs_skip_unparsed_buff cut_attribute ≡ ok skipped_attribute
unfolding lrs_skip_unparsed_buff skip_saving keeps_first_byte trailing_len ◌-ℤ◌ ◌+ℤ◌
cut_attribute-skips = refl

restore_unparsed-lrs_skip_unparsed_buff_example :
    (h' : LrsHeader) × (e' : Dlis) × (restore_unparsed small_header next_segment ≡ ok (h', e'))
    × (h'.lrs_len ≡ 24)
    × (bytes e'.buffer (here e' 4) (4 + 5)
        ≡ bytes cut_attribute.buffer (here cut_attribute 0 + 3 - 4) 4
          ++ bytes next_segment.buffer (here next_segment 4) 5)
restore_unparsed-lrs_skip_unparsed_buff_example =
    restore_unparsed-lrs_skip_unparsed_buff cut_attribute skipped_attribute next_segment
      small_header 2 3 4 5 refl cut_attribute-remain (and_first attrib) (omega arith) (omega arith)
      cut_attribute-skips (record { bytes_kept = refl; len_kept = refl }) (omega arith)
