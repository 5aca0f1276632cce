-- ===== src/Dlis/Sound/Components.antt =====
-- dlis.cc: the parsers of components and of values keep a sound state.
use mathlib.Core.Path.{subst}
use dlis_parser.Base.{
  ℕ, zero, suc, ◌+◌, ◌≡◌, sym, ap, Option, none, some, if◌then◌else◌, ◌==◌, not, ◌||◌,
}
use dlis_parser.Base.Int.{ℤ, pos, pos_part, ltb_ℤ, leb_ℤ, ◌-ℤ◌}
use dlis_parser.Codec.Value.{ok, exit, Value, parse_value, value_invalidate, unset}
use dlis_parser.Dlis.State.{Dlis, with_state, here, avail, lrs_remain}
use dlis_parser.Dlis.Flags.{eflr_comp_attr_has_value}
use dlis_parser.Dlis.Trailing.{trailing_len}
use dlis_parser.Dlis.Template.{Attr, eflr_set_template_object_queue}
use dlis_parser.Dlis.Eflr.{
  min_ℤ, set_index_type, is_index_type, template_step, attr_fields, attrib_done,
  parse_eflr_component_attrib, parse_eflr_component_attrib_value,
}
use dlis_parser.Dlis.Iflr.{
  eod, deref, iflr_left, take_value, value_loop, start_channel, no_channel, open_list,
  parse_iflr_data,
}
use dlis_parser.Dlis.Measure.Values.{take_value_same}
use dlis_parser.Dlis.Measure.Parsers.{set_index_type-Keeps, template_step-Keeps}
use dlis_parser.Dlis.Sound.{IsLinked, Carried, IsSound}
use dlis_parser.Dlis.Sound.Each.{Each, Each-ok, bind-Each, then-Each, if-Each, found-Each}
use dlis_parser.Dlis.Sound.Values.{set_index_type-IsLinked, take_value-IsLinked}
use dlis_parser.Dlis.Sound.Input.{kept-IsSound, Keeps-IsSound, trailing_kept}

template_step-IsLinked : (d : Dlis) (a : Attr) → IsLinked d → Each IsLinked (template_step d a)
unfolding template_step
template_step-IsLinked d a l =
    if-Each IsLinked (ltb_ℤ d.state.templt_read_idx (pos 0)) _ _
      (bind-Each IsLinked (eflr_set_template_object_queue d.state a) _ (λ s _. l)) l

attrib_done-IsSound :
    (d : Dlis) (r : Attr × Option ℕ) → IsSound d → Each (λ r. IsSound r.2) (attrib_done d r)
unfolding attrib_done
attrib_done-IsSound d (a, none) s = s
attrib_done-IsSound d (a, some n) s =
    let P : Attr × Option ℕ × Dlis → Type 0 = λ r. IsSound r.2 in
    then-Each IsSound P (if is_index_type d a.label then set_index_type d else ok d) _
      (if-Each IsSound (is_index_type d a.label) (set_index_type d) (ok d)
        (Keeps-IsSound d (set_index_type d) (set_index_type-Keeps d)
          (set_index_type-IsLinked d s.linked) s)
        s)
      (λ marked s₁.
        then-Each IsSound P (template_step marked a) _
          (Keeps-IsSound marked (template_step marked a) (template_step-Keeps marked a)
            (template_step-IsLinked marked a s₁.linked) s₁)
          (λ d' s₂. s₂))

pub parse_eflr_component_attrib-IsSound :
    (d : Dlis) (a : Attr) → IsSound d → Each (λ r. IsSound r.2) (parse_eflr_component_attrib d a)
unfolding parse_eflr_component_attrib
parse_eflr_component_attrib-IsSound d a s = attrib_done-IsSound d (attr_fields d a) s

pub parse_eflr_component_attrib_value-IsSound :
    (d : Dlis) (v : Value)
    → IsSound d
    → Each (λ r. IsSound r.2) (parse_eflr_component_attrib_value d v)
unfolding parse_eflr_component_attrib_value
parse_eflr_component_attrib_value-IsSound d v s =
    let P : Option ℕ × Value × Dlis → Type 0 = λ r. IsSound r.2 in
    let s' : IsSound (trailing_len d).1 = kept-IsSound d (trailing_len d).1 (trailing_kept d) s in
    let d' : Dlis = (trailing_len d).1 in
    let left : ℤ = min_ℤ (lrs_remain d'.state -ℤ (trailing_len d).0) (avail d') in
    if-Each P (not (eflr_comp_attr_has_value d.state)) exit _ tt (
      if-Each P (ltb_ℤ left (pos 1)) (ok (none, v, d')) _ s' (
        bind-Each P (parse_value d'.buffer (here d' 0) (pos_part left) d'.state.attrib_repcode v) _
          (λ r _. s')))

take_value-IsSound : (d d' : Dlis) (v : Value) → take_value d v ≡ ok d' → IsSound d → IsSound d'
take_value-IsSound d d' v e s = record {
  linked = Each-ok IsLinked (take_value d v) d' (take_value-IsLinked d v s.linked) e;
  carried = subst (λ i. Carried i.2 i.5) (sym (ap (λ x. x.0) (take_value_same d d' v e))) s.carried;
}

value_loop-IsSound :
    (rounds : ℕ) (trail : ℤ) (n : ℕ) (d : Dlis)
    → IsSound d
    → Each (λ r. IsSound r.1) (value_loop rounds trail n d)
unfolding value_loop
value_loop-IsSound zero trail n d s = s
value_loop-IsSound (suc rounds) trail n d s =
    let P : ℕ × Dlis → Type 0 = λ r. IsSound r.1 in
    bind-Each P
      (parse_value d.buffer (here d n) (pos_part (iflr_left d trail n)) d.state.parsing_repcode
        (value_invalidate (record { repcode = pos 0; u = unset })))
      _
      (λ (len, val) _. found-Each P len (ok (n, d)) _ s (λ k _. if-Each P (k == 0) (ok (n, d)) _ s (
        bind-Each P (take_value d val) _
          (λ d' e. value_loop-IsSound rounds trail (n + k) d' (take_value-IsSound d d' val e s)))))

abbrev SoundNext : Option Dlis → Type 0
SoundNext none = Unit
SoundNext (some d) = IsSound d

start_channel-IsSound : (d : Dlis) → IsSound d → Each SoundNext (start_channel d)
unfolding start_channel
start_channel-IsSound d s =
    if-Each SoundNext
      (leb_ℤ d.state.parsing_dimension (pos 0)
        || leb_ℤ d.state.parsing_dimension d.state.parsing_value_cnt)
      _ (ok (some d))
      (bind-Each SoundNext (deref d.frame_heap d.current_frame) _ (λ (i, f) _.
        found-Each SoundNext (f.current_channel) (ok none) _ tt (λ j _.
          bind-Each SoundNext (deref d.channel_heap (some j)) _
            (λ (k, c) _. record { linked = s.linked; carried = s.carried }))))
      s

pub parse_iflr_data-IsSound : (d : Dlis) → IsSound d → Each (λ r. IsSound r.1) (parse_iflr_data d)
unfolding parse_iflr_data no_channel open_list
parse_iflr_data-IsSound d s =
    let P : ℕ × Dlis → Type 0 = λ r. IsSound r.1 in
    if-Each P (d.state.lrs_type == eod) (ok (0, d)) _ s (
      then-Each SoundNext P (start_channel d) _ (start_channel-IsSound d s) (elim [
        | none ↦ λ _. record { linked = s.linked; carried = s.carried }
        | some d₁ ↦ λ s₁.
            let d₂ : Dlis = with_state d₁ (open_list d₁.state) in
            let s₂ : IsSound d₂ = record { linked = s₁.linked; carried = s₁.carried } in
            let d₃ : Dlis = (trailing_len d₂).1 in
            value_loop-IsSound (pos_part (d₃.state.parsing_dimension -ℤ d₃.state.parsing_value_cnt))
              (trailing_len d₂).0 0 d₃ (kept-IsSound d₂ (trailing_len d₂).1 (trailing_kept d₂) s₂)
      ]))
