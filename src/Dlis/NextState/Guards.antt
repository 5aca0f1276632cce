-- ===== src/Dlis/NextState/Guards.antt =====
-- dlis.cc, next_state: under which condition each transition is taken.
use dlis_parser.Base.{ℕ, ◌+◌, ◌/◌, ◌≤◌, ◌<◌, ◌≡◌, ◌≢◌, ◌⊎◌, some, get_elem?, bit_and}
use dlis_parser.Base.Int.{pos, ◌≤ℤ◌, ◌<ℤ◌}
use dlis_parser.Dlis.State.{
  ParseCode, Dlis, Frame, expecting_sul, expecting_vr, expecting_lrs, expecting_encryption_packet,
  expecting_eflr_comp, expecting_eflr_comp_set, expecting_eflr_comp_rset, expecting_eflr_comp_rdset,
  expecting_eflr_comp_absatr, expecting_eflr_comp_attrib, expecting_eflr_comp_invatr,
  expecting_eflr_comp_object, expecting_lrs_trailing, expecting_eflr_comp_attrib_value,
  expecting_iflr_header, expecting_iflr_data,
}
use dlis_parser.Dlis.NextState.Edges.{IsWhole, IsValued}

-- A bit of a byte, by its mask, is set or not.
abbrev pub Set : ℕ → ℕ → Type 0
Set mask b = bit_and b mask ≢ 0

abbrev pub Unset : ℕ → ℕ → Type 0
Unset mask b = bit_and b mask ≡ 0

-- The state of a component by its role, the top three bits of its first byte.
pub data HasRole : ℕ → ParseCode → Type 0 where
  absatr : HasRole 0 expecting_eflr_comp_absatr
  attrib : HasRole 1 expecting_eflr_comp_attrib
  invatr : HasRole 2 expecting_eflr_comp_invatr
  object : HasRole 3 expecting_eflr_comp_object
  rdset : HasRole 5 expecting_eflr_comp_rdset
  rset : HasRole 6 expecting_eflr_comp_rset
  set : HasRole 7 expecting_eflr_comp_set

-- A segment may end here.
pub data EndsSegment : ParseCode → Type 0 where
  packet : EndsSegment expecting_encryption_packet
  trailing : EndsSegment expecting_lrs_trailing

-- The current frame has a current channel.
abbrev pub InFrame : Dlis → Type 0
InFrame d =
    (i : ℕ) × (f : Frame) × (j : ℕ) × (d.current_frame ≡ some i)
    × (get_elem? d.frame_heap i ≡ some f)
    × (f.current_channel ≡ some j)

-- With a trailer of t bytes, nothing else is left of the segment, or something is.
abbrev pub AtEnd : Dlis → ℕ → Type 0
AtEnd d t = d.state.lrs_len ≤ d.state.lrs_byte_cnt + t

abbrev pub Inside : Dlis → ℕ → Type 0
Inside d t = d.state.lrs_byte_cnt + t < d.state.lrs_len

-- The transitions with their conditions.
pub data Step (d : Dlis) (t : ℕ) : ParseCode → ParseCode → Type 0 where
  label_read : Step d t expecting_sul expecting_vr
  record_opened : Step d t expecting_vr expecting_lrs
  encrypted : Set 0x10 d.state.lrs_attr → Step d t expecting_lrs expecting_encryption_packet
  eflr_starts :
      Unset 0x10 d.state.lrs_attr
      → Set 0x80 d.state.lrs_attr
      → d.state.attrib_value_cnt ≤ℤ pos 0
      → Step d t expecting_lrs expecting_eflr_comp
  values_go_on :
      Unset 0x10 d.state.lrs_attr
      → Set 0x80 d.state.lrs_attr
      → pos 0 <ℤ d.state.attrib_value_cnt
      → Step d t expecting_lrs expecting_eflr_comp_attrib_value
  iflr_starts :
      Unset 0x10 d.state.lrs_attr
      → Unset 0x80 d.state.lrs_attr
      → (¬ InFrame d) ⊎ Unset 0x40 d.state.lrs_attr
      → Step d t expecting_lrs expecting_iflr_header
  data_go_on :
      Unset 0x10 d.state.lrs_attr
      → Unset 0x80 d.state.lrs_attr
      → InFrame d
      → Set 0x40 d.state.lrs_attr
      → Step d t expecting_lrs expecting_iflr_data
  next_segment :
      {c : ParseCode}
      → EndsSegment c
      → d.state.vr_byte_cnt < d.state.vr_len
      → Step d t c expecting_lrs
  next_record :
      {c : ParseCode}
      → EndsSegment c
      → d.state.vr_len ≤ d.state.vr_byte_cnt
      → Step d t c expecting_vr
  component :
      {c : ParseCode}
      → HasRole (d.state.eflr_comp_first_byte / 32) c
      → Step d t expecting_eflr_comp c
  no_component :
      ((c : ParseCode) → ¬ HasRole (d.state.eflr_comp_first_byte / 32) c)
      → Step d t expecting_eflr_comp expecting_eflr_comp
  whole_then_comp : {c : ParseCode} → IsWhole c → Inside d t → Step d t c expecting_eflr_comp
  whole_then_trailer : {c : ParseCode} → IsWhole c → AtEnd d t → Step d t c expecting_lrs_trailing
  valued_then_trailer : {c : ParseCode} → IsValued c → AtEnd d t → Step d t c expecting_lrs_trailing
  valued_then_value :
      {c : ParseCode}
      → IsValued c
      → Inside d t
      → Set 0x01 d.state.eflr_comp_first_byte
      → Step d t c expecting_eflr_comp_attrib_value
  valued_then_comp :
      {c : ParseCode}
      → IsValued c
      → Inside d t
      → Unset 0x01 d.state.eflr_comp_first_byte
      → Step d t c expecting_eflr_comp
  value_then_trailer : AtEnd d t → Step d t expecting_eflr_comp_attrib_value expecting_lrs_trailing
  value_then_comp :
      Inside d t
      → d.state.attrib_value_cnt ≤ℤ pos 0
      → Step d t expecting_eflr_comp_attrib_value expecting_eflr_comp
  value_then_value :
      Inside d t
      → pos 0 <ℤ d.state.attrib_value_cnt
      → Step d t expecting_eflr_comp_attrib_value expecting_eflr_comp_attrib_value
  header_then_trailer :
      0 < d.state.unparsed_buff_len → Step d t expecting_iflr_header expecting_lrs_trailing
  header_then_data :
      d.state.unparsed_buff_len ≡ 0 → Step d t expecting_iflr_header expecting_iflr_data
  data_ends : AtEnd d t → Step d t expecting_iflr_data expecting_lrs_trailing
  data_skipped :
      Inside d t
      → (¬ InFrame d) ⊎ (d.state.parsing_dimension ≤ℤ pos 0)
      → Step d t expecting_iflr_data expecting_lrs_trailing
  data_then_data :
      Inside d t
      → InFrame d
      → pos 0 <ℤ d.state.parsing_dimension
      → Step d t expecting_iflr_data expecting_iflr_data
