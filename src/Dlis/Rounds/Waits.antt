-- ===== src/Dlis/Rounds/Waits.antt =====
-- dlis.cc, parse: what a round leaves as it was when it waits for more bytes.
use dlis_parser.Base.{
  ◌≡◌, ◌≢◌, refl, sym, ap, ◌∙◌, Bool, true, false, Option, none, some, if◌then◌else◌,
}
use dlis_parser.Base.Int.{ℤ, pos, negsuc, leb_ℤ, ltb_ℤ, ◌-ℤ◌}
use dlis_parser.Codec.Value.{Outcome, ok, exit, fault, hang, ◌>>=◌, Value, unset, value_invalidate}
use dlis_parser.Dlis.State.{Dlis, ParseCode, avail, lrs_remain, with_state, expecting_iflr_data}
use dlis_parser.Dlis.Trailing.{trailing_len}
use dlis_parser.Dlis.Headers.{
  parse_lrs_encryption_packet, parse_sul, parse_vr_header, parse_lrs_header, parse_lrs_trailing,
}
use dlis_parser.Dlis.Skip.{lrs_skip_unparsed_buff}
use dlis_parser.Dlis.NextState.{next_state}
use dlis_parser.Dlis.Eflr.{
  parse_eflr_component_attrib, parse_eflr_component_attrib_value, parse_eflr_component,
  parse_eflr_component_object, parse_eflr_component_set,
}
use dlis_parser.Dlis.Iflr.{parse_iflr_header}
use dlis_parser.Dlis.Events.{on_eflr_component_object, on_iflr_header}
use dlis_parser.Dlis.Events.Values.{on_eflr_component_attrib_value}
use dlis_parser.Dlis.Rounds.{
  Round, again, end_loop, proceed, cut, round_sul, round_vr, round_lrs, take_len, round_trailing,
}
use dlis_parser.Dlis.Rounds.Components.{
  obname_invalidate, start_attr, round_comp, round_set, round_attrib, round_value, round_object,
}
use dlis_parser.Dlis.Rounds.Data.{round_header}
use dlis_parser.Dlis.Parse.{round_from, parse_round}
use dlis_parser.Dlis.Rounds.Places.{
  place, trailing_len-place, sul-place, lrs-place, attrib-place, value-place, header-place,
  trailing-place,
}
use dlis_parser.Dlis.NextState.Edges.{trailing_len-code}

-- A round that ends the loop has not moved.
abbrev pub Waits : Dlis → Outcome Round → Type 0
Waits d (ok (again d')) = Unit {0}
Waits d (ok (end_loop d')) = place d' ≡ place d
Waits d exit = Unit {0}
Waits d fault = Unit {0}
Waits d hang = Unit {0}

bind-Waits :
    {A : Type 0} (d : Dlis) (r : Outcome A) (k : A → Outcome Round)
    → ((a : A) → r ≡ ok a → Waits d (k a))
    → Waits d (r >>= k)
bind-Waits d (ok a) k each = each a refl
bind-Waits d exit k each = tt
bind-Waits d fault k each = tt
bind-Waits d hang k each = tt

if-Waits :
    (d : Dlis) (b : Bool) (r q : Outcome Round)
    → Waits d r
    → Waits d q
    → Waits d (if b then r else q)
if-Waits d true r q first second = first
if-Waits d false r q first second = second

option-Waits :
    {A : Type 0} (d : Dlis) (o : Option A) (r : Outcome Round) (k : A → Outcome Round)
    → (o ≡ none → Waits d r)
    → ((a : A) → o ≡ some a → Waits d (k a))
    → Waits d (elim o [ none ↦ r | some a ↦ k a ])
option-Waits d none r k first each = first refl
option-Waits d (some a) r k first each = each a refl

proceed-Waits : (d e : Dlis) → Waits d (proceed e)
unfolding proceed
proceed-Waits d e = bind-Waits d (next_state e) (λ d'. ok (again d')) (λ a r. tt)

cut-Waits : (d e : Dlis) → place e ≡ place d → Waits d (cut e)
unfolding cut
cut-Waits d e same =
    if-Waits d
      (leb_ℤ (avail (trailing_len e).1) (lrs_remain (trailing_len e).1.state -ℤ (trailing_len e).0))
      (ok (end_loop (trailing_len e).1)) (lrs_skip_unparsed_buff (trailing_len e).1 >>= proceed)
      (trailing_len-place e ∙ same)
      (bind-Waits d (lrs_skip_unparsed_buff (trailing_len e).1) proceed (λ a r. proceed-Waits d a))

take_len-Waits : (d e : Dlis) (z : ℤ) → place e ≡ place d → Waits d (take_len z e)
unfolding take_len
take_len-Waits d e (negsuc n) same = same
take_len-Waits d e (pos n) same = proceed-Waits d _

module _ (d : Dlis) where
  round_sul-Waits : Waits d (round_sul d)
  unfolding round_sul
  round_sul-Waits = bind-Waits d (parse_sul d) _ (λ (len, d') e.
      option-Waits d len _ _ (λ few. sul-place d d' (e ∙ ap (λ l. ok (l, d')) few))
        (λ n there. proceed-Waits d _))

  round_vr-Waits : Waits d (round_vr d)
  unfolding round_vr
  round_vr-Waits =
      bind-Waits d (parse_vr_header d) _
        (λ found e. option-Waits d found _ _ (λ few. refl) (λ h there. proceed-Waits d _))

  round_lrs-Waits : Waits d (round_lrs d)
  unfolding round_lrs
  round_lrs-Waits = bind-Waits d (parse_lrs_header d) _ (λ (found, d') e.
      option-Waits d found _ _ (λ few. lrs-place d d' (e ∙ ap (λ l. ok (l, d')) few))
        (λ h there. proceed-Waits d _))

  round_trailing-Waits : Waits d (round_trailing d)
  unfolding round_trailing
  round_trailing-Waits =
      take_len-Waits d (parse_lrs_trailing d).1 (parse_lrs_trailing d).0 (trailing-place d)

  round_comp-Waits : Waits d (round_comp d)
  unfolding round_comp
  round_comp-Waits =
      option-Waits d (parse_eflr_component d) _ _ (λ few. refl) (λ b there. proceed-Waits d _)

  round_set-Waits : Waits d (round_set d)
  unfolding round_set
  round_set-Waits =
      bind-Waits d
        (parse_eflr_component_set
          (with_state d (record (d.state) { parsing_obj = obname_invalidate d.state.parsing_obj })))
        _ (λ found e. option-Waits d found _ _ (λ few. refl) (λ s there. proceed-Waits d _))

  round_object-Waits : Waits d (round_object d)
  unfolding round_object
  round_object-Waits = bind-Waits d (parse_eflr_component_object d) _ (λ found e.
      option-Waits d found _ _ (λ few. cut-Waits d d refl)
        (λ o there. bind-Waits d (on_eflr_component_object _ o.1) _ (λ d₂ e'. proceed-Waits d _)))

  round_attrib-Waits : Waits d (round_attrib d)
  unfolding round_attrib
  round_attrib-Waits =
      let d₀ : Dlis = with_state d (record (d.state) { attrib_value_cnt = pos 0 }) in
      bind-Waits d (start_attr d₀) _ (λ a e₀.
        bind-Waits d (parse_eflr_component_attrib d₀ a) _ (λ (a', len, d₁) e.
          option-Waits d len _ _
            (λ few.
              cut-Waits d (with_state d₁ (record (d₁.state) { attrib_label = a'.label }))
                (attrib-place d₀ d₁ a a' (e ∙ ap (λ l. ok (a', l, d₁)) few)))
            (λ n there. proceed-Waits d _)))

  round_value-Waits : Waits d (round_value d)
  unfolding round_value
  round_value-Waits =
      let val : Value = value_invalidate (record { repcode = pos 0; u = unset }) in
      bind-Waits d (parse_eflr_component_attrib_value d val) _ (λ (len, v, d₁) e.
        option-Waits d len _ _
          (λ few. cut-Waits d d₁ (value-place d d₁ val v (e ∙ ap (λ l. ok (l, v, d₁)) few)))
          (λ n there.
            bind-Waits d (on_eflr_component_attrib_value _ _ v) _ (λ d₂ e'. proceed-Waits d d₂)))

  round_header-Waits : Waits d (round_header d)
  unfolding round_header
  round_header-Waits =
      option-Waits d (parse_iflr_header d).0 _ _
        (λ few. cut-Waits d (parse_iflr_header d).1 (header-place d))
        (λ h there.
          bind-Waits d (on_iflr_header (parse_iflr_header d).1 h.1) _ (λ d₂ e. proceed-Waits d _))

place-Waits : (d e : Dlis) (r : Outcome Round) → place e ≡ place d → Waits e r → Waits d r
place-Waits d e (ok (again d')) same waits = tt
place-Waits d e (ok (end_loop d')) same waits = waits ∙ same
place-Waits d e exit same waits = tt
place-Waits d e fault same waits = tt
place-Waits d e hang same waits = tt

round_from-Waits : (c : ParseCode) (d : Dlis) → c ≢ expecting_iflr_data → Waits d (round_from c d)
unfolding round_from
round_from-Waits ParseCode.expecting_sul d other = round_sul-Waits d
round_from-Waits ParseCode.expecting_vr d other = round_vr-Waits d
round_from-Waits ParseCode.expecting_lrs d other = round_lrs-Waits d
round_from-Waits ParseCode.expecting_encryption_packet d other =
    take_len-Waits d d (parse_lrs_encryption_packet d) refl
round_from-Waits ParseCode.expecting_eflr_comp d other = round_comp-Waits d
round_from-Waits ParseCode.expecting_eflr_comp_set d other = round_set-Waits d
round_from-Waits ParseCode.expecting_eflr_comp_rset d other = round_set-Waits d
round_from-Waits ParseCode.expecting_eflr_comp_rdset d other = round_set-Waits d
round_from-Waits ParseCode.expecting_eflr_comp_absatr d other = round_attrib-Waits d
round_from-Waits ParseCode.expecting_eflr_comp_attrib d other = round_attrib-Waits d
round_from-Waits ParseCode.expecting_eflr_comp_invatr d other = round_attrib-Waits d
round_from-Waits ParseCode.expecting_eflr_comp_attrib_value d other = round_value-Waits d
round_from-Waits ParseCode.expecting_eflr_comp_object d other = round_object-Waits d
round_from-Waits ParseCode.expecting_lrs_trailing d other = round_trailing-Waits d
round_from-Waits ParseCode.expecting_iflr_header d other = round_header-Waits d
round_from-Waits ParseCode.expecting_iflr_data d other = absurd (other refl)

-- In every state but that of the data of a frame, a round that ends the loop, to wait for more
-- bytes, has moved nowhere: the buffer, the indices, the counts of the segment and of the visible
-- record and the events are those from before the round.
pub parse_round-Waits :
    (d d' : Dlis)
    → d.state.code ≢ expecting_iflr_data
    → parse_round d ≡ ok (end_loop d')
    → place d' ≡ place d
unfolding parse_round
parse_round-Waits d d' other e =
    let d₁ : Dlis = (trailing_len d).1 in
    let waits : Waits d (parse_round d) =
      if-Waits d (ltb_ℤ (trailing_len d).0 (pos 0)) (ok (end_loop d₁)) (round_from d₁.state.code d₁)
        (trailing_len-place d)
        (place-Waits d d₁ (round_from d₁.state.code d₁) (trailing_len-place d)
          (round_from-Waits d₁.state.code d₁ (λ same. other (sym (trailing_len-code d) ∙ same)))) in
    rw e at waits
