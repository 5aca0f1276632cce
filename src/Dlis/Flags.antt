-- ===== src/Dlis/Flags.antt =====
-- dlis.cc: the attribute bits of a segment and the roles of a component.
use dlis_parser.Base.{ℕ, ◌/◌, Bool, not, bit_and, ◌==◌}
use dlis_parser.Dlis.State.{ParseState}

-- b & mask, as a test
abbrev pub flag : ℕ → ℕ → Bool
flag mask b = not (bit_and b mask == 0)

unfoldable pub lrs_attr_is_eflr : ParseState → Bool
lrs_attr_is_eflr s = flag 0x80 s.lrs_attr

unfoldable pub lrs_attr_is_first_lrs : ParseState → Bool
lrs_attr_is_first_lrs s = not (flag 0x40 s.lrs_attr)

unfoldable pub lrs_attr_is_last_lrs : ParseState → Bool
lrs_attr_is_last_lrs s = not (flag 0x20 s.lrs_attr)

unfoldable pub lrs_attr_is_encrypted : ParseState → Bool
lrs_attr_is_encrypted s = flag 0x10 s.lrs_attr

unfoldable pub lrs_attr_has_encryption_packet : ParseState → Bool
lrs_attr_has_encryption_packet s = flag 0x08 s.lrs_attr

unfoldable pub lrs_attr_has_checksum : ParseState → Bool
lrs_attr_has_checksum s = flag 0x04 s.lrs_attr

unfoldable pub lrs_attr_has_trailing : ParseState → Bool
lrs_attr_has_trailing s = flag 0x02 s.lrs_attr

unfoldable pub lrs_attr_has_padding : ParseState → Bool
lrs_attr_has_padding s = flag 0x01 s.lrs_attr

-- The role: the top three bits of the first byte.
abbrev pub role : ParseState → ℕ
role s = s.eflr_comp_first_byte / 32

unfoldable pub eflr_comp_is_set : ParseState → Bool
eflr_comp_is_set s = role s == 7

unfoldable pub eflr_comp_is_rset : ParseState → Bool
eflr_comp_is_rset s = role s == 6

unfoldable pub eflr_comp_is_rdset : ParseState → Bool
eflr_comp_is_rdset s = role s == 5

unfoldable pub eflr_comp_is_absatr : ParseState → Bool
eflr_comp_is_absatr s = role s == 0

unfoldable pub eflr_comp_is_attrib : ParseState → Bool
eflr_comp_is_attrib s = role s == 1

unfoldable pub eflr_comp_is_invatr : ParseState → Bool
eflr_comp_is_invatr s = role s == 2

unfoldable pub eflr_comp_is_object : ParseState → Bool
eflr_comp_is_object s = role s == 3

unfoldable pub eflr_comp_attr_has_label : ParseState → Bool
eflr_comp_attr_has_label s = flag 0x10 s.eflr_comp_first_byte

unfoldable pub eflr_comp_attr_has_count : ParseState → Bool
eflr_comp_attr_has_count s = flag 0x08 s.eflr_comp_first_byte

unfoldable pub eflr_comp_attr_has_repcode : ParseState → Bool
eflr_comp_attr_has_repcode s = flag 0x04 s.eflr_comp_first_byte

unfoldable pub eflr_comp_attr_has_unit : ParseState → Bool
eflr_comp_attr_has_unit s = flag 0x02 s.eflr_comp_first_byte

unfoldable pub eflr_comp_attr_has_value : ParseState → Bool
eflr_comp_attr_has_value s = flag 0x01 s.eflr_comp_first_byte

unfoldable pub eflr_comp_set_has_type : ParseState → Bool
eflr_comp_set_has_type s = flag 0x10 s.eflr_comp_first_byte

unfoldable pub eflr_comp_set_has_name : ParseState → Bool
eflr_comp_set_has_name s = flag 0x08 s.eflr_comp_first_byte

unfoldable pub eflr_comp_object_has_name : ParseState → Bool
eflr_comp_object_has_name s = flag 0x10 s.eflr_comp_first_byte
