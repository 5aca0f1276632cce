-- ===== src/Dlis/Sound/Eflr.antt =====
-- dlis.cc, parse: the rounds over explicitly formatted records keep a sound state.
use dlis_parser.Base.{ℕ, ◌≡◌, arith}
use dlis_parser.Base.Int.{pos, ◌-ℤ◌}
use dlis_parser.Codec.Memory.{SizedStr}
use dlis_parser.Codec.Value.{ok, unset, value_invalidate}
use dlis_parser.Dlis.State.{Dlis, with_state}
use dlis_parser.Dlis.Template.{Attr}
use dlis_parser.Dlis.Eflr.{
  parse_eflr_component, parse_eflr_component_set, parse_eflr_component_attrib,
  parse_eflr_component_attrib_value, parse_eflr_component_object,
}
use dlis_parser.Dlis.Events.{
  on_eflr_component_set, on_eflr_component_object, on_eflr_component_attrib,
}
use dlis_parser.Dlis.Events.Values.{on_eflr_component_attrib_value}
use dlis_parser.Dlis.Rounds.{end_loop, proceed, advance, cut}
use dlis_parser.Dlis.Rounds.Components.{
  round_comp, obname_invalidate, begin_set, round_set, start_attr, end_attr, round_attrib,
  round_value, round_object,
}
use dlis_parser.Dlis.Measure.Callbacks.{
  on_eflr_component_object-Keeps, on_eflr_component_attrib_value-Keeps,
}
use dlis_parser.Dlis.Sound.{IsSound}
use dlis_parser.Dlis.Sound.Each.{Each, bind-Each, then-Each, found-Each}
use dlis_parser.Dlis.Sound.Callbacks.{
  on_eflr_component_object-IsLinked, on_eflr_component_attrib_value-IsLinked,
}
use dlis_parser.Dlis.Sound.Input.{kept, kept-IsSound, Keeps-IsSound}
use dlis_parser.Dlis.Sound.Components.{
  parse_eflr_component_attrib-IsSound, parse_eflr_component_attrib_value-IsSound,
}
use dlis_parser.Dlis.Sound.Steps.{SoundRound, proceed-Sound, advance-IsSound, cut-Sound}

pub round_comp-Sound : (d : Dlis) → IsSound d → Each SoundRound (round_comp d)
unfolding round_comp advance
round_comp-Sound d s =
    found-Each SoundRound (parse_eflr_component d) (ok (end_loop d)) _ s (λ (n, b) _.
      proceed-Sound (advance n (with_state d (record (d.state) { eflr_comp_first_byte = b })))
        (record { linked = s.linked; carried = s.carried }))

begin_set_kept : (d : Dlis) (type name : SizedStr) → kept (begin_set d type name) ≡ kept d
unfolding begin_set on_eflr_component_set
begin_set_kept d type name = ground arith

pub round_set-Sound : (d : Dlis) → IsSound d → Each SoundRound (round_set d)
unfolding round_set obname_invalidate
round_set-Sound d s =
    let d₀ : Dlis =
      with_state d (record (d.state) { parsing_obj = obname_invalidate d.state.parsing_obj }) in
    let s₀ : IsSound d₀ = record { linked = s.linked; carried = s.carried } in
    bind-Each SoundRound (parse_eflr_component_set d₀) _ (λ found _.
      found-Each SoundRound found (ok (end_loop d₀)) _ s₀ (λ (n, type, name) _.
        proceed-Sound (advance n (begin_set d₀ type name)) (
          advance-IsSound n (begin_set d₀ type name)
            (kept-IsSound d₀ (begin_set d₀ type name) (begin_set_kept d₀ type name) s₀))))

end_attr_kept : (a : Attr) (n : ℕ) (d : Dlis) → kept (end_attr a n d) ≡ kept d
unfolding end_attr advance on_eflr_component_attrib
end_attr_kept a n d = ground arith

pub round_attrib-Sound : (d : Dlis) → IsSound d → Each SoundRound (round_attrib d)
unfolding round_attrib
round_attrib-Sound d s =
    let d₀ : Dlis = with_state d (record (d.state) { attrib_value_cnt = pos 0 }) in
    let s₀ : IsSound d₀ = record { linked = s.linked; carried = s.carried } in
    bind-Each SoundRound (start_attr d₀) _ (λ a _.
      then-Each (λ r. IsSound r.2) SoundRound (parse_eflr_component_attrib d₀ a) _
        (parse_eflr_component_attrib-IsSound d₀ a s₀)
        (λ (a', len, d₁) s₁.
          let d₂ : Dlis = with_state d₁ (record (d₁.state) { attrib_label = a'.label }) in
          let s₂ : IsSound d₂ = record { linked = s₁.linked; carried = s₁.carried } in
          found-Each SoundRound len (cut d₂) _ (cut-Sound d₂ s₂) (λ n _.
            proceed-Sound (end_attr a' n d₂)
              (kept-IsSound d₂ (end_attr a' n d₂) (end_attr_kept a' n d₂) s₂))))

pub round_value-Sound : (d : Dlis) → IsSound d → Each SoundRound (round_value d)
unfolding round_value
round_value-Sound d s =
    then-Each (λ r. IsSound r.2) SoundRound
      (parse_eflr_component_attrib_value d
        (value_invalidate (record { repcode = pos 0; u = unset })))
      _ (parse_eflr_component_attrib_value-IsSound d _ s)
      (λ (len, val, d₁) s₁. found-Each SoundRound len (cut d₁) _ (cut-Sound d₁ s₁) (λ n _.
        let d₂ : Dlis = advance n d₁ in
        let s₂ : IsSound d₂ = advance-IsSound n d₁ s₁ in
        let d₃ : Dlis =
          with_state d₂
            (record (d₂.state) { attrib_value_cnt = d₂.state.attrib_value_cnt -ℤ pos 1 }) in
        let s₃ : IsSound d₃ = record { linked = s₂.linked; carried = s₂.carried } in
        then-Each IsSound SoundRound (on_eflr_component_attrib_value d₃ d₃.state.attrib_label val)
          proceed
          (Keeps-IsSound d₃ _ (on_eflr_component_attrib_value-Keeps d₃ d₃.state.attrib_label val)
            (on_eflr_component_attrib_value-IsLinked d₃ d₃.state.attrib_label val s₃.linked) s₃)
          proceed-Sound))

pub round_object-Sound : (d : Dlis) → IsSound d → Each SoundRound (round_object d)
unfolding round_object
round_object-Sound d s = bind-Each SoundRound (parse_eflr_component_object d) _ (λ found _.
    found-Each SoundRound found (cut d) _ (cut-Sound d s) (λ (n, obname) _.
      let d₁ : Dlis =
        with_state d (record (d.state) { parsing_obj = obname; templt_read_idx = pos 0 }) in
      let s₁ : IsSound d₁ = record { linked = s.linked; carried = s.carried } in
      then-Each IsSound SoundRound (on_eflr_component_object d₁ obname) _
        (Keeps-IsSound d₁ _ (on_eflr_component_object-Keeps d₁ obname)
          (on_eflr_component_object-IsLinked d₁ obname s₁.linked) s₁)
        (λ d₂ s₂. proceed-Sound (advance n d₂) (advance-IsSound n d₂ s₂))))
