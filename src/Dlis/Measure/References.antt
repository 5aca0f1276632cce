-- ===== src/Dlis/Measure/References.antt =====
-- dlis.cc, parse: a round over the value of an attribute uses the measure up: it takes a byte, or ends
-- the program at an attribute reference.
use dlis_parser.Base.{
  ℕ, ◌≤◌, ◌≡◌, ◌⊎◌, refl, ap, ◌∙◌, arith, Option, some, inl, inr, Bool-cases, if◌then◌else◌, ◌&&◌,
}
use dlis_parser.Base.Int.{pos, ltb_ℤ, pos_part, ◌-ℤ◌}
use dlis_parser.Codec.Outcome.{bind-ok}
use dlis_parser.Codec.Memory.{SizedStr}
use dlis_parser.Codec.Value.{
  Outcome, ok, exit, fault, hang, ◌>>=◌, Value, unset, value_invalidate, parse_value,
}
use dlis_parser.Codec.Serialize.{Kind, as_obname, kind_of, serialize_list_add, add_kind}
use dlis_parser.Codec.Serialize.Taken.{parse_value_taken}
use dlis_parser.Dlis.State.{
  expecting_eflr_comp_attrib_value, Dlis, with_state, here, lrs_remain, avail,
}
use dlis_parser.Dlis.Flags.{eflr_comp_attr_has_value}
use dlis_parser.Dlis.Skip.{keeps_first_byte}
use dlis_parser.Dlis.Skip.Saved.{known_trail}
use dlis_parser.Dlis.Eflr.{frame_set, min_ℤ, parse_eflr_component_attrib_value}
use dlis_parser.Dlis.Events.{
  in_set, labelled, channel_set, file_header_set, sequence_number_label, channels_label,
}
use dlis_parser.Dlis.Events.Values.{
  on_eflr_component_attrib_value, add_attrib_value, sequence_number, channel_attrib,
}
use dlis_parser.Dlis.Strings.{sized_str_cmp}
use dlis_parser.Dlis.Heap.{frame_channel}
use dlis_parser.Dlis.Rounds.{proceed, advance, cut}
use dlis_parser.Dlis.Rounds.Components.{round_value}
use dlis_parser.Dlis.Measure.{left, rank, measure, input_parts}
use dlis_parser.Dlis.Measure.Callbacks.{on_eflr_component_attrib_value-Keeps}
use dlis_parser.Dlis.Measure.Steps.{next_rank}
use dlis_parser.Dlis.Measure.Cut.{value, first_byte}
use dlis_parser.Dlis.Measure.Parsers.{Keeps-ok}
use dlis_parser.Dlis.Measure.Rounds.{
  Falls, bind-Falls, found-Falls, proceed-Falls, cut-Falls, left-advance,
}

-- The program ends: there is no result.
abbrev Ends : Outcome Dlis → Type 0
Ends (ok d) = 1 ≤ 0
Ends exit = Unit
Ends fault = Unit
Ends hang = Unit

bind-Ends :
    {A : Type 0} (r : Outcome A) (k : A → Outcome Dlis) → ((a : A) → Ends (k a)) → Ends (r >>= k)
bind-Ends (ok a) k each = each a
bind-Ends exit k each = tt
bind-Ends fault k each = tt
bind-Ends hang k each = tt

add_reference :
    (d : Dlis) (label : SizedStr) (v : Value)
    → kind_of v.repcode ≡ Kind.attr_kind
    → Ends (add_attrib_value d label v)
unfolding add_attrib_value serialize_list_add add_kind
add_reference d label v kind = rw kind tt

-- An attribute reference ends the program.
reference-Ends :
    (d : Dlis) (label : SizedStr) (v : Value)
    → kind_of v.repcode ≡ Kind.attr_kind
    → Ends (on_eflr_component_attrib_value d label v)
unfolding on_eflr_component_attrib_value
reference-Ends d label v kind =
    bind-Ends
      (if in_set d file_header_set && sized_str_cmp d.buffer label sequence_number_label
        then sequence_number d v
        else ok d)
      _
      (λ d₁. bind-Ends (if in_set d₁ channel_set then channel_attrib d₁ label v else ok d₁) _ (λ d₂.
        bind-Ends
          (if in_set d₂ frame_set && labelled d₂ label channels_label
            then (as_obname (v.u) >>= frame_channel d₂)
            else ok d₂)
          _ (λ d₃. add_reference d₃ label v kind)))

reference_stops :
    (d d' : Dlis) (label : SizedStr) (v : Value)
    → kind_of v.repcode ≡ Kind.attr_kind
    → on_eflr_component_attrib_value d label v ≡ ok d'
    → 1 ≤ 0
reference_stops d d' label v kind e =
    let ends : Ends (on_eflr_component_attrib_value d label v) = reference-Ends d label v kind in
    rw e at ends

size_left :
    (t : ℕ) (d : Dlis) → 1 ≤ pos_part (min_ℤ (lrs_remain d.state -ℤ pos t) (avail d)) → 1 ≤ left d
unfolding min_ℤ
size_left t d some_byte = ground arith

value_taken :
    (t : ℕ) (d d' : Dlis) (v v' : Value) (len : Option ℕ)
    → d.state.lrs_trail_len ≡ pos t
    → parse_eflr_component_attrib_value d v ≡ ok (len, v', d')
    → (d' ≡ d)
      × ((n : ℕ) → len ≡ some n → (1 ≤ left d) × ((1 ≤ n) ⊎ (kind_of v'.repcode ≡ Kind.attr_kind)))
unfolding parse_eflr_component_attrib_value
value_taken t d d' v v' len known e = elim (Bool-cases (eflr_comp_attr_has_value d.state)) [
  | inr no_value ↦ absurd (ground (arith, rw (no_value, parse_eflr_component_attrib_value) at e))
  | inl has_value ↦
      elim (Bool-cases (ltb_ℤ (min_ℤ (lrs_remain d.state -ℤ pos t) (avail d)) (pos 1))) [
        | inl few ↦
            (let e' = rw (has_value, known_trail d t known, few) at e in
              (ground arith, ground arith))
        | inr enough ↦
            (let size : ℕ = pos_part (min_ℤ (lrs_remain d.state -ℤ pos t) (avail d)) in
              let ((k, w), parsed, rest) =
                bind-ok (parse_value d.buffer (here d 0) size d.state.attrib_repcode v) _
                  (len, v', d') (rw (has_value, known_trail d t known, enough) at e) in
              (
                ground arith,
                λ n found.
                    let taken : parse_value d.buffer (here d 0) size d.state.attrib_repcode v
                        ≡ ok (some n, v') =
                      parsed ∙ ground arith in
                    let (some_byte, how) =
                      parse_value_taken d.buffer (here d 0) size d.state.attrib_repcode v v' n
                        taken in
                    (size_left t d some_byte, how),
              ))
      ]
]

value_first_byte : first_byte expecting_eflr_comp_attrib_value ≡ 0
unfolding keeps_first_byte
value_first_byte = refl

pub round_value-Falls :
    (t : ℕ) (d : Dlis)
    → d.state.lrs_trail_len ≡ pos t
    → d.state.code ≡ expecting_eflr_comp_attrib_value
    → Falls (measure d) (round_value d)
unfolding round_value advance
round_value-Falls t d known code =
    bind-Falls (measure d)
      (parse_eflr_component_attrib_value d
        (value_invalidate (record { repcode = pos 0; u = unset })))
      _
      (λ (len, val, d₁) e.
        let (same, taken) = value_taken t d d₁ _ val len known e in
        let d₁_left : left d₁ ≡ left d = ap left same in
        let d₁_code : d₁.state.code ≡ expecting_eflr_comp_attrib_value =
          ap (λ x. x.state.code) same ∙ code in
        found-Falls (measure d) len (cut d₁) _
          (λ _.
            cut-Falls (measure d) t d₁ (ap (λ x. x.state.lrs_trail_len) same ∙ known)
              (rw d₁_code value)
              (omega (arith, d₁_left, ap rank code, value_first_byte, ap first_byte d₁_code)))
          (λ n found.
            let d₂ : Dlis = advance n d₁ in
            let d₃ : Dlis =
              with_state d₂
                (record (d₂.state) { attrib_value_cnt = d₂.state.attrib_value_cnt -ℤ pos 1 }) in
            let (some_left, how) = taken n found in
            bind-Falls (measure d) (on_eflr_component_attrib_value d₃ d₃.state.attrib_label val)
              proceed
              (λ d₄ e₁.
                let (same_left, same_code, _) = input_parts d₃ d₄ (
                  Keeps-ok d₃ d₄ _
                    (on_eflr_component_attrib_value-Keeps d₃ d₃.state.attrib_label val) e₁) in
                elim how [
                  | inr reference ↦ absurd (omega (arith, reference_stops d₃ d₄ _ val reference e₁))
                  | inl more ↦ proceed-Falls (measure d) d₄ (
                      omega (
                        arith,
                        left-advance n d₁,
                        d₁_left,
                        same_left,
                        ap next_rank (same_code ∙ d₁_code),
                        ap rank code,
                      ))
                ])))
