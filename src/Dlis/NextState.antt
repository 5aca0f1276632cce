-- ===== src/Dlis/NextState.antt =====
-- dlis.cc, next_state: the transitions of the parser.
pub mod Edges
pub mod Guards
pub mod Conditions
pub mod Taken
use dlis_parser.Base.{
  ◌+◌, ◌-◌, Bool, true, false, not, ◌||◌, none, some, get_elem?, ltb, if◌then◌else◌,
}
use dlis_parser.Base.Int.{ℤ, pos, pos_part, ◌-ℤ◌, leb_ℤ}
use dlis_parser.Codec.Value.{Outcome, ok, ◌>>=◌}
use dlis_parser.Dlis.State.{
  ParseCode, expecting_vr, expecting_lrs, expecting_encryption_packet, expecting_eflr_comp,
  expecting_eflr_comp_set, expecting_eflr_comp_rset, expecting_eflr_comp_rdset,
  expecting_eflr_comp_absatr, expecting_eflr_comp_attrib, expecting_eflr_comp_invatr,
  expecting_eflr_comp_object, expecting_lrs_trailing, expecting_eflr_comp_attrib_value,
  expecting_iflr_header, expecting_iflr_data, ParseState, Dlis, lrs_remain, with_state,
}
use dlis_parser.Dlis.Flags.{
  lrs_attr_is_encrypted, lrs_attr_is_eflr, lrs_attr_is_first_lrs, eflr_comp_is_set,
  eflr_comp_is_rset, eflr_comp_is_rdset, eflr_comp_is_absatr, eflr_comp_is_attrib,
  eflr_comp_is_invatr, eflr_comp_is_object, eflr_comp_attr_has_value,
}
use dlis_parser.Dlis.Trailing.{trailing_len}
use dlis_parser.Dlis.Iflr.{deref}

abbrev pub go_to : Dlis → ParseCode → Dlis
go_to d c = with_state d (record (d.state) { code = c })

-- The current frame exists and has a current channel; false for a frame pointer that is NULL.
unfoldable pub has_channel : Dlis → Bool
has_channel d = elim (d.current_frame) [
  | none ↦ false
  | some i ↦ elim (get_elem? d.frame_heap i) [
    | none ↦ false
    | some f ↦ elim (f.current_channel) [ none ↦ false | some j ↦ true ]
  ]
]

-- After a segment header.
unfoldable pub after_lrs : Dlis → ParseCode
unfolding has_channel
after_lrs d =
    if lrs_attr_is_encrypted d.state
    then expecting_encryption_packet
    else if lrs_attr_is_eflr d.state
    then (if leb_ℤ d.state.attrib_value_cnt (pos 0)
        then expecting_eflr_comp
        else expecting_eflr_comp_attrib_value)
    else (if not (has_channel d) || lrs_attr_is_first_lrs d.state
        then expecting_iflr_header
        else expecting_iflr_data)

-- After a whole segment.
unfoldable pub after_segment : Dlis → ParseCode
after_segment d = if ltb d.state.vr_byte_cnt d.state.vr_len then expecting_lrs else expecting_vr

-- By the role of the component; a role that has no state leaves the state alone.
unfoldable pub after_comp : ParseState → ParseCode
after_comp s =
    if eflr_comp_is_set s
    then expecting_eflr_comp_set
    else if eflr_comp_is_rset s
    then expecting_eflr_comp_rset
    else if eflr_comp_is_rdset s
    then expecting_eflr_comp_rdset
    else if eflr_comp_is_absatr s
    then expecting_eflr_comp_absatr
    else if eflr_comp_is_attrib s
    then expecting_eflr_comp_attrib
    else if eflr_comp_is_invatr s
    then expecting_eflr_comp_invatr
    else if eflr_comp_is_object s
    then expecting_eflr_comp_object
    else s.code

-- Nothing but the trailer is left of the segment.
unfoldable pub at_trailing : ℤ → Dlis → Bool
at_trailing trail d = leb_ℤ (lrs_remain d.state) trail

unfoldable pub after_whole_comp : Dlis → Dlis
unfolding at_trailing
after_whole_comp d =
    let (trail, d') = trailing_len d in
    go_to d' (if at_trailing trail d' then expecting_lrs_trailing else expecting_eflr_comp)

unfoldable pub after_attrib : Dlis → Dlis
unfolding at_trailing
after_attrib d =
    let (trail, d') = trailing_len d in
    go_to d' (
      if at_trailing trail d'
      then expecting_lrs_trailing
      else (if eflr_comp_attr_has_value d'.state
          then expecting_eflr_comp_attrib_value
          else expecting_eflr_comp))

unfoldable pub after_value : Dlis → Dlis
unfolding at_trailing
after_value d =
    let (trail, d') = trailing_len d in
    go_to d' (
      if at_trailing trail d'
      then expecting_lrs_trailing
      else (if leb_ℤ d'.state.attrib_value_cnt (pos 0)
          then expecting_eflr_comp
          else expecting_eflr_comp_attrib_value))

-- What is left of a frame's segment when it has no further channel is passed over, whether or not
-- it has come in.
unfoldable pub skip_rest : ℤ → Dlis → Dlis
unfolding at_trailing ◌-ℤ◌
skip_rest trail d =
    let skipped = pos_part (lrs_remain d.state -ℤ trail) in
    if at_trailing trail d then d else record d {
      byte_idx = d.byte_idx + skipped;
      state = record (d.state) {
        lrs_byte_cnt = d.state.lrs_byte_cnt + skipped;
        vr_byte_cnt = d.state.vr_byte_cnt + skipped;
      };
    }

-- The frame pointer is followed only if data are left.
unfoldable pub after_data : Dlis → Outcome Dlis
unfolding at_trailing skip_rest deref
after_data d =
    let (trail, d') = trailing_len d in
    if at_trailing trail d'
    then ok (go_to d' expecting_lrs_trailing)
    else (deref d'.frame_heap d'.current_frame >>= λ (i, f).
        let done : Bool = elim (f.current_channel) [ none ↦ true | some j ↦ false ] in
        ok (
          if done || leb_ℤ d'.state.parsing_dimension (pos 0)
          then go_to (skip_rest trail d') expecting_lrs_trailing
          else d'))

unfoldable pub next_from : ParseCode → Dlis → Outcome Dlis
unfolding after_lrs after_segment after_comp after_whole_comp after_attrib after_value after_data
next_from ParseCode.expecting_sul d = ok (go_to d expecting_vr)
next_from ParseCode.expecting_vr d = ok (go_to d expecting_lrs)
next_from ParseCode.expecting_lrs d = ok (go_to d (after_lrs d))
next_from ParseCode.expecting_encryption_packet d = ok (go_to d (after_segment d))
next_from ParseCode.expecting_eflr_comp d = ok (go_to d (after_comp d.state))
next_from ParseCode.expecting_eflr_comp_set d = ok (after_whole_comp d)
next_from ParseCode.expecting_eflr_comp_rset d = ok (after_whole_comp d)
next_from ParseCode.expecting_eflr_comp_rdset d = ok (after_whole_comp d)
next_from ParseCode.expecting_eflr_comp_absatr d = ok (after_whole_comp d)
next_from ParseCode.expecting_eflr_comp_object d = ok (after_whole_comp d)
next_from ParseCode.expecting_eflr_comp_invatr d = ok (after_attrib d)
next_from ParseCode.expecting_eflr_comp_attrib d = ok (after_attrib d)
next_from ParseCode.expecting_lrs_trailing d = ok (go_to d (after_segment d))
next_from ParseCode.expecting_eflr_comp_attrib_value d = ok (after_value d)
next_from ParseCode.expecting_iflr_header d = ok (
    go_to d
      (if ltb 0 d.state.unparsed_buff_len then expecting_lrs_trailing else expecting_iflr_data))
next_from ParseCode.expecting_iflr_data d = after_data d

unfoldable pub next_state : Dlis → Outcome Dlis
unfolding next_from
next_state d = next_from d.state.code d
