-- ===== src/Dlis/Measure/Components.antt =====
-- dlis.cc, parse: the rounds over explicitly formatted records use the measure up.
use dlis_parser.Base.{ℕ, ◌-◌, ◌≤◌, ◌≡◌, refl, ap, ◌∙◌, arith}
use dlis_parser.Base.Int.{pos}
use dlis_parser.Codec.Memory.{SizedStr}
use dlis_parser.Codec.Value.{ok}
use dlis_parser.Dlis.State.{ParseCode, expecting_eflr_comp, Dlis, with_state}
use dlis_parser.Dlis.Skip.{keeps_first_byte}
use dlis_parser.Dlis.Template.{Attr}
use dlis_parser.Dlis.Eflr.{
  parse_eflr_component, parse_eflr_component_set, parse_eflr_component_attrib,
  parse_eflr_component_object,
}
use dlis_parser.Dlis.Events.{on_eflr_component_set, on_eflr_component_object}
use dlis_parser.Dlis.Rounds.{end_loop, proceed, advance, cut}
use dlis_parser.Dlis.Rounds.Components.{
  round_comp, obname_invalidate, begin_set, round_set, start_attr, end_attr, round_attrib,
  round_object,
}
use dlis_parser.Dlis.Measure.{left, rank, measure, input, input_parts}
use dlis_parser.Dlis.Measure.Callbacks.{
  on_eflr_component_attrib-input, on_eflr_component_object-Keeps,
}
use dlis_parser.Dlis.Measure.Steps.{next_rank}
use dlis_parser.Dlis.Measure.Cut.{InBody, first_byte}
use dlis_parser.Dlis.Measure.Parsers.{
  Keeps-ok, parse_eflr_component-left, parse_eflr_component_attrib-input,
}
use dlis_parser.Dlis.Measure.Rounds.{
  Falls, bind-Falls, found-Falls, proceed-Falls, cut-Falls, left-advance,
}

pub round_comp-Falls :
    (d : Dlis) → d.state.code ≡ expecting_eflr_comp → Falls (measure d) (round_comp d)
unfolding round_comp advance
round_comp-Falls d code =
    found-Falls (measure d) (parse_eflr_component d) (ok (end_loop d)) _ (λ _. tt)
      (λ (n, first_byte) found.
        let (one, some_left) = parse_eflr_component-left d n first_byte found in
        proceed-Falls (measure d)
          (advance n (with_state d (record (d.state) { eflr_comp_first_byte = first_byte })))
          (omega (arith, ap next_rank code, ap rank code)))

begin_set-input : (d : Dlis) (type name : SizedStr) → input (begin_set d type name) ≡ input d
unfolding begin_set on_eflr_component_set
begin_set-input d type name = ground arith

-- A component behind its role: the states of the highest rank, with what may follow it.
pub record IsComponent (c : ParseCode) : Type 0 where
  pub highest : rank c ≡ 5
  pub then_less : next_rank c ≡ 3
  pub in_body : InBody c

first_byte-le : (c : ParseCode) → first_byte c ≤ 1
unfolding keeps_first_byte
first_byte-le c = ground arith

-- It may go on after it has taken no byte at all.
component-Falls :
    (d d' : Dlis) (n : ℕ)
    → IsComponent (d.state.code)
    → input d' ≡ input d
    → Falls (measure d) (proceed (advance n d'))
unfolding advance
component-Falls d d' n c same =
    let (same_left, same_code, _) = input_parts d d' same in
    proceed-Falls (measure d) (advance n d')
      (omega (arith, left-advance n d', same_left, ap next_rank same_code, c.highest, c.then_less))

cut_component-Falls :
    (t : ℕ) (d d' : Dlis)
    → d.state.lrs_trail_len ≡ pos t
    → IsComponent (d.state.code)
    → input d' ≡ input d
    → Falls (measure d) (cut d')
cut_component-Falls t d d' known c same =
    let (same_left, same_code, same_trail) = input_parts d d' same in
    cut-Falls (measure d) t d' (same_trail ∙ known) (rw same_code (c.in_body))
      (omega (arith, same_left, c.highest, first_byte-le d'.state.code))

pub round_set-Falls : (d : Dlis) → IsComponent (d.state.code) → Falls (measure d) (round_set d)
unfolding round_set obname_invalidate
round_set-Falls d c =
    let d₀ : Dlis =
      with_state d (record (d.state) { parsing_obj = obname_invalidate d.state.parsing_obj }) in
    bind-Falls (measure d) (parse_eflr_component_set d₀) _ (λ found e.
      found-Falls (measure d) found (ok (end_loop d₀)) _ (λ _. tt)
        (λ (n, type, name) e'.
          component-Falls d (begin_set d₀ type name) n c (begin_set-input d₀ type name)))

end_attr_lem :
    (a : Attr) (n : ℕ) (d : Dlis)
    → (left (end_attr a n d) ≡ left d - n) × ((end_attr a n d).state.code ≡ d.state.code)
unfolding end_attr advance
end_attr_lem a n d = ground (arith, input_parts d _ (on_eflr_component_attrib-input d))

pub round_attrib-Falls :
    (t : ℕ) (d : Dlis)
    → d.state.lrs_trail_len ≡ pos t
    → IsComponent (d.state.code)
    → Falls (measure d) (round_attrib d)
unfolding round_attrib
round_attrib-Falls t d known c =
    let d₀ : Dlis = with_state d (record (d.state) { attrib_value_cnt = pos 0 }) in
    bind-Falls (measure d) (start_attr d₀) _ (λ a e.
      bind-Falls (measure d) (parse_eflr_component_attrib d₀ a) _ (λ (a', len, d₁) e₁.
        let d₂ : Dlis = with_state d₁ (record (d₁.state) { attrib_label = a'.label }) in
        let same : input d₂ ≡ input d = parse_eflr_component_attrib-input d₀ d₁ a a' len e₁ in
        let (same_left, same_code, _) = input_parts d d₂ same in
        found-Falls (measure d) len (cut d₂) _ (λ _. cut_component-Falls t d d₂ known c same)
          (λ n e₂.
            let (fewer, still) = end_attr_lem a' n d₂ in
            proceed-Falls (measure d) (end_attr a' n d₂) (
              omega (arith, same_left, ap next_rank (still ∙ same_code), c.highest, c.then_less)))))

pub round_object-Falls :
    (t : ℕ) (d : Dlis)
    → d.state.lrs_trail_len ≡ pos t
    → IsComponent (d.state.code)
    → Falls (measure d) (round_object d)
unfolding round_object
round_object-Falls t d known c =
    bind-Falls (measure d) (parse_eflr_component_object d) _ (λ found e.
      found-Falls (measure d) found (cut d) _ (λ _. cut_component-Falls t d d known c refl)
        (λ (n, obname) e₁.
          let d₁ : Dlis =
            with_state d (record (d.state) { parsing_obj = obname; templt_read_idx = pos 0 }) in
          bind-Falls (measure d) (on_eflr_component_object d₁ obname) _ (λ d₂ e₂.
            component-Falls d d₂ n c
              (Keeps-ok d₁ d₂ _ (on_eflr_component_object-Keeps d₁ obname) e₂))))
