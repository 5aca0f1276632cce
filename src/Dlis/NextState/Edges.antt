-- ===== src/Dlis/NextState/Edges.antt =====
-- dlis.cc, next_state: the transition diagram of the parser.
use dlis_parser.Base.{
  ℕ, Bool, ◌∙◌, not, ◌||◌, ltb, arith, none, some, ◌≡◌, refl, true, false, if◌then◌else◌,
}
use dlis_parser.Base.Int.{ℤ, pos, leb_ℤ}
use dlis_parser.Dlis.Iflr.{deref}
use dlis_parser.Dlis.Flags.{
  lrs_attr_is_encrypted, lrs_attr_is_eflr, lrs_attr_is_first_lrs, eflr_comp_is_set,
  eflr_comp_is_rset, eflr_comp_is_rdset, eflr_comp_is_absatr, eflr_comp_is_attrib,
  eflr_comp_is_invatr, eflr_comp_is_object, eflr_comp_attr_has_value,
}
use dlis_parser.Dlis.Trailing.{trailing_len}
use dlis_parser.Codec.Value.{Outcome, ok, exit, fault, hang, ◌>>=◌}
use dlis_parser.Dlis.State.{
  ParseCode, expecting_sul, expecting_vr, expecting_lrs, expecting_encryption_packet,
  expecting_eflr_comp, expecting_eflr_comp_set, expecting_eflr_comp_rset, expecting_eflr_comp_rdset,
  expecting_eflr_comp_absatr, expecting_eflr_comp_attrib, expecting_eflr_comp_invatr,
  expecting_eflr_comp_object, expecting_lrs_trailing, expecting_eflr_comp_attrib_value,
  expecting_iflr_header, expecting_iflr_data, ParseState, Dlis, Frame,
}
use dlis_parser.Dlis.NextState.{
  after_lrs, after_segment, go_to, has_channel, at_trailing, skip_rest, after_comp,
  after_whole_comp, after_attrib, after_value, after_data, next_from, next_state,
}

-- The components that the loop takes whole, and those that may carry values.
pub data IsWhole : ParseCode → Type 0 where
  set : IsWhole expecting_eflr_comp_set
  rset : IsWhole expecting_eflr_comp_rset
  rdset : IsWhole expecting_eflr_comp_rdset
  absatr : IsWhole expecting_eflr_comp_absatr
  object : IsWhole expecting_eflr_comp_object

pub data IsValued : ParseCode → Type 0 where
  attrib : IsValued expecting_eflr_comp_attrib
  invatr : IsValued expecting_eflr_comp_invatr

-- The transition diagram.
pub data Edge : ParseCode → ParseCode → Type 0 where
  label_read : Edge expecting_sul expecting_vr
  record_opened : Edge expecting_vr expecting_lrs
  encrypted : Edge expecting_lrs expecting_encryption_packet
  eflr_starts : Edge expecting_lrs expecting_eflr_comp
  values_go_on : Edge expecting_lrs expecting_eflr_comp_attrib_value
  iflr_starts : Edge expecting_lrs expecting_iflr_header
  data_go_on : Edge expecting_lrs expecting_iflr_data
  packet_then_segment : Edge expecting_encryption_packet expecting_lrs
  packet_then_record : Edge expecting_encryption_packet expecting_vr
  trailer_then_segment : Edge expecting_lrs_trailing expecting_lrs
  trailer_then_record : Edge expecting_lrs_trailing expecting_vr
  to_whole : {c : ParseCode} → IsWhole c → Edge expecting_eflr_comp c
  to_valued : {c : ParseCode} → IsValued c → Edge expecting_eflr_comp c
  unknown_role : Edge expecting_eflr_comp expecting_eflr_comp
  whole_then_comp : {c : ParseCode} → IsWhole c → Edge c expecting_eflr_comp
  whole_then_trailer : {c : ParseCode} → IsWhole c → Edge c expecting_lrs_trailing
  valued_then_comp : {c : ParseCode} → IsValued c → Edge c expecting_eflr_comp
  valued_then_trailer : {c : ParseCode} → IsValued c → Edge c expecting_lrs_trailing
  valued_then_value : {c : ParseCode} → IsValued c → Edge c expecting_eflr_comp_attrib_value
  value_then_value : Edge expecting_eflr_comp_attrib_value expecting_eflr_comp_attrib_value
  value_then_comp : Edge expecting_eflr_comp_attrib_value expecting_eflr_comp
  value_then_trailer : Edge expecting_eflr_comp_attrib_value expecting_lrs_trailing
  header_then_data : Edge expecting_iflr_header expecting_iflr_data
  header_then_trailer : Edge expecting_iflr_header expecting_lrs_trailing
  data_then_data : Edge expecting_iflr_data expecting_iflr_data
  data_then_trailer : Edge expecting_iflr_data expecting_lrs_trailing

if-Edge : {c a b : ParseCode} (t : Bool) → Edge c a → Edge c b → Edge c (if t then a else b)
if-Edge true x y = x
if-Edge false x y = y

after_lrs-Edge : (d : Dlis) → Edge expecting_lrs (after_lrs d)
unfolding after_lrs
after_lrs-Edge d = if-Edge (lrs_attr_is_encrypted d.state) encrypted (
    if-Edge (lrs_attr_is_eflr d.state)
      (if-Edge (leb_ℤ d.state.attrib_value_cnt (pos 0)) eflr_starts values_go_on)
      (if-Edge (not (has_channel d) || lrs_attr_is_first_lrs d.state) iflr_starts data_go_on))

after_segment-Edge :
    {c : ParseCode} (d : Dlis)
    → Edge c expecting_lrs
    → Edge c expecting_vr
    → Edge c (after_segment d)
unfolding after_segment
after_segment-Edge d x y = if-Edge (ltb d.state.vr_byte_cnt d.state.vr_len) x y

same_code : (c : ParseCode) → c ≡ expecting_eflr_comp → Edge expecting_eflr_comp c
same_code c e = rw e unknown_role

after_comp-Edge :
    (s : ParseState) → s.code ≡ expecting_eflr_comp → Edge expecting_eflr_comp (after_comp s)
unfolding after_comp
after_comp-Edge s at_comp = if-Edge (eflr_comp_is_set s) (to_whole set) (
    if-Edge (eflr_comp_is_rset s) (to_whole rset) (
      if-Edge (eflr_comp_is_rdset s) (to_whole rdset) (
        if-Edge (eflr_comp_is_absatr s) (to_whole absatr) (
          if-Edge (eflr_comp_is_attrib s) (to_valued attrib) (
            if-Edge (eflr_comp_is_invatr s) (to_valued invatr)
              (if-Edge (eflr_comp_is_object s) (to_whole object) (same_code s.code at_comp)))))))

after_whole_comp-Edge :
    {c : ParseCode} → IsWhole c → (d : Dlis) → Edge c ((after_whole_comp d).state.code)
unfolding after_whole_comp
after_whole_comp-Edge w d =
    if-Edge (at_trailing (trailing_len d).0 (trailing_len d).1) (whole_then_trailer w)
      (whole_then_comp w)

after_attrib-Edge : {c : ParseCode} → IsValued c → (d : Dlis) → Edge c ((after_attrib d).state.code)
unfolding after_attrib
after_attrib-Edge v d =
    if-Edge (at_trailing (trailing_len d).0 (trailing_len d).1) (valued_then_trailer v) (
      if-Edge (eflr_comp_attr_has_value ((trailing_len d).1.state)) (valued_then_value v)
        (valued_then_comp v))

after_value-Edge : (d : Dlis) → Edge expecting_eflr_comp_attrib_value ((after_value d).state.code)
unfolding after_value
after_value-Edge d =
    if-Edge (at_trailing (trailing_len d).0 (trailing_len d).1) value_then_trailer (
      if-Edge (leb_ℤ ((trailing_len d).1.state.attrib_value_cnt) (pos 0)) value_then_comp
        value_then_value)

-- An outcome whose state the diagram allows.
abbrev Goes : ParseCode → Outcome Dlis → Type 0
Goes c (ok d) = Edge c (d.state.code)
Goes c exit = Unit
Goes c fault = Unit
Goes c hang = Unit

pub trailing_len-code : (d : Dlis) → (trailing_len d).1.state.code ≡ d.state.code
unfolding trailing_len
trailing_len-code d = ground arith

bind-Goes :
    {A : Type 0} (c : ParseCode) (r : Outcome A) (k : A → Outcome Dlis)
    → ((a : A) → Goes c (k a))
    → Goes c (r >>= k)
bind-Goes c (ok a) k each = each a
bind-Goes c exit k each = tt
bind-Goes c fault k each = tt
bind-Goes c hang k each = tt

if-Goes :
    (c : ParseCode) (t : Bool) (x y : Outcome Dlis)
    → Goes c x
    → Goes c y
    → Goes c (if t then x else y)
if-Goes c true x y e f = e
if-Goes c false x y e f = f

pick-Edge :
    {c : ParseCode} (t : Bool) (x y : Dlis)
    → Edge c (x.state.code)
    → Edge c (y.state.code)
    → Edge c ((if t then x else y).state.code)
pick-Edge true x y e f = e
pick-Edge false x y e f = f

same_data : (c : ParseCode) → c ≡ expecting_iflr_data → Edge expecting_iflr_data c
same_data c e = rw e data_then_data

-- The two states behind a frame's data that are not at the trailer.
abbrev pub data_goes_on : ℤ → Dlis → ℕ × Frame → Outcome Dlis
data_goes_on trail d (i, f) =
    let done : Bool = elim (f.current_channel) [ none ↦ true | some j ↦ false ] in
    ok (
      if done || leb_ℤ d.state.parsing_dimension (pos 0)
      then go_to (skip_rest trail d) expecting_lrs_trailing
      else d)

data_goes_on-Goes :
    (trail : ℤ) (d : Dlis) (found : ℕ × Frame)
    → d.state.code ≡ expecting_iflr_data
    → Goes expecting_iflr_data (data_goes_on trail d found)
data_goes_on-Goes trail d found at_data =
    pick-Edge
      (elim (found.1.current_channel) [ none ↦ true | some j ↦ false ]
        || leb_ℤ d.state.parsing_dimension (pos 0))
      (go_to (skip_rest trail d) expecting_lrs_trailing) d data_then_trailer
      (same_data d.state.code at_data)

after_data-Goes :
    (d : Dlis) → d.state.code ≡ expecting_iflr_data → Goes expecting_iflr_data (after_data d)
unfolding after_data
after_data-Goes d at_data =
    let d' : Dlis = (trailing_len d).1 in
    let trail : ℤ = (trailing_len d).0 in
    if-Goes expecting_iflr_data (at_trailing trail d') (ok (go_to d' expecting_lrs_trailing))
      (deref d'.frame_heap d'.current_frame >>= data_goes_on trail d') data_then_trailer
      (bind-Goes expecting_iflr_data (deref d'.frame_heap d'.current_frame) (data_goes_on trail d')
        (λ found. data_goes_on-Goes trail d' found (trailing_len-code d ∙ at_data)))

next_from-Goes : (c : ParseCode) (d : Dlis) → d.state.code ≡ c → Goes c (next_from c d)
unfolding next_from
next_from-Goes expecting_sul d e = label_read
next_from-Goes expecting_vr d e = record_opened
next_from-Goes expecting_lrs d e = after_lrs-Edge d
next_from-Goes expecting_encryption_packet d e =
    after_segment-Edge d packet_then_segment packet_then_record
next_from-Goes expecting_eflr_comp d e = after_comp-Edge d.state e
next_from-Goes expecting_eflr_comp_set d e = after_whole_comp-Edge set d
next_from-Goes expecting_eflr_comp_rset d e = after_whole_comp-Edge rset d
next_from-Goes expecting_eflr_comp_rdset d e = after_whole_comp-Edge rdset d
next_from-Goes expecting_eflr_comp_absatr d e = after_whole_comp-Edge absatr d
next_from-Goes expecting_eflr_comp_object d e = after_whole_comp-Edge object d
next_from-Goes expecting_eflr_comp_attrib d e = after_attrib-Edge attrib d
next_from-Goes expecting_eflr_comp_invatr d e = after_attrib-Edge invatr d
next_from-Goes expecting_lrs_trailing d e =
    after_segment-Edge d trailer_then_segment trailer_then_record
next_from-Goes expecting_eflr_comp_attrib_value d e = after_value-Edge d
next_from-Goes expecting_iflr_header d e =
    if-Edge (ltb 0 d.state.unparsed_buff_len) header_then_trailer header_then_data
next_from-Goes expecting_iflr_data d e = after_data-Goes d e

-- If `next_state` returns, it has moved along an edge of the written-out transition diagram.
pub next_state-Edge : (d d' : Dlis) → next_state d ≡ ok d' → Edge (d.state.code) (d'.state.code)
unfolding next_state
next_state-Edge d d' e =
    let g : Goes (d.state.code) (next_state d) = next_from-Goes (d.state.code) d refl in rw e at g
