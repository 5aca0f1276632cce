-- ===== src/Dlis/Rounds/Components.antt =====
-- dlis.cc, parse: the rounds over the components of explicitly formatted records.
use dlis_parser.Base.{ℕ, none, some, if◌then◌else◌}
use dlis_parser.Base.Int.{pos, negsuc, ◌-ℤ◌, leb_ℤ}
use dlis_parser.Codec.Memory.{SizedStr, text}
use dlis_parser.Codec.Text.{Obname}
use dlis_parser.Codec.Value.{Outcome, ok, ◌>>=◌, unset, value_invalidate}
use dlis_parser.Dlis.State.{Dlis, with_state}
use dlis_parser.Dlis.Flags.{eflr_comp_attr_has_value}
use dlis_parser.Dlis.Template.{Attr, eflr_set_template_object_get}
use dlis_parser.Dlis.Eflr.{
  parse_eflr_component, parse_eflr_component_set, parse_eflr_component_attrib,
  parse_eflr_component_attrib_value, parse_eflr_component_object,
}
use dlis_parser.Dlis.Events.{
  on_eflr_component_set, on_eflr_component_object, on_eflr_component_attrib,
}
use dlis_parser.Dlis.Events.Values.{on_eflr_component_attrib_value}
use dlis_parser.Dlis.Rounds.{Round, end_loop, proceed, advance, cut}

unfoldable pub round_comp : Dlis → Outcome Round
unfolding advance
round_comp d = elim (parse_eflr_component d) [
  | none ↦ ok (end_loop d)
  | some (n, first_byte) ↦
      proceed (advance n (with_state d (record (d.state) { eflr_comp_first_byte = first_byte })))
]

-- obname_invalidate
unfoldable pub obname_invalidate : Obname → Obname
obname_invalidate o = record o { name = record (o.name) { len = negsuc 0 } }

unfoldable pub begin_set : Dlis → SizedStr → SizedStr → Dlis
begin_set d type name =
    let d₁ =
      with_state d (record (d.state) { templt_write_idx = pos 0; templt_read_idx = negsuc 0 }) in
    let d₂ = on_eflr_component_set d₁ type name in
    with_state d₂ (record (d₂.state) { parsing_set_type = text d.buffer type })

unfoldable pub round_set : Dlis → Outcome Round
unfolding advance begin_set obname_invalidate
round_set d =
    let d₀ =
      with_state d (record (d.state) { parsing_obj = obname_invalidate d.state.parsing_obj }) in
    parse_eflr_component_set d₀ >>= λ found. elim found [
      | none ↦ ok (end_loop d₀)
      | some (n, type, name) ↦ proceed (advance n (begin_set d₀ type name))
    ]

-- The attribute before its own fields are read: plain, or as the template says. Its label is a
-- field of the state; only its length is reset.
unfoldable pub start_attr : Dlis → Outcome Attr
start_attr d =
    if leb_ℤ (pos 0) d.state.templt_read_idx
    then eflr_set_template_object_get d.state
    else ok (record {
      label = record (d.state.attrib_label) { len = pos 0 };
      count = pos 1;
      repcode = pos 19;
      unit = record { buff = 0; len = pos 0 };
    })

unfoldable pub end_attr : Attr → ℕ → Dlis → Dlis
unfolding advance
end_attr a n d =
    let d' = advance n (on_eflr_component_attrib d) in
    if eflr_comp_attr_has_value d'.state
    then with_state d'
        (record (d'.state) { attrib_value_cnt = a.count; attrib_repcode = a.repcode })
    else d'

unfoldable pub round_attrib : Dlis → Outcome Round
unfolding start_attr end_attr cut
round_attrib d = do
  let d₀ = with_state d (record (d.state) { attrib_value_cnt = pos 0 })
  a ← start_attr d₀
  (a', len, d₁) ← parse_eflr_component_attrib d₀ a
  let d₂ = with_state d₁ (record (d₁.state) { attrib_label = a'.label })
  elim len [ none ↦ cut d₂ | some n ↦ proceed (end_attr a' n d₂) ]

unfoldable pub round_value : Dlis → Outcome Round
unfolding advance cut ◌-ℤ◌
round_value d = do
  (len, val, d₁) ←
      parse_eflr_component_attrib_value d (value_invalidate (record { repcode = pos 0; u = unset }))
  elim len [
    | none ↦ cut d₁
    | some n ↦
        (let d₂ = advance n d₁ in
          let d₃ =
            with_state d₂
              (record (d₂.state) { attrib_value_cnt = d₂.state.attrib_value_cnt -ℤ pos 1 }) in
          on_eflr_component_attrib_value d₃ d₃.state.attrib_label val >>= proceed)
  ]

unfoldable pub round_object : Dlis → Outcome Round
unfolding advance cut
round_object d = parse_eflr_component_object d >>= λ found. elim found [
  | none ↦ cut d
  | some (n, obname) ↦
      (let d₁ = with_state d (record (d.state) { parsing_obj = obname; templt_read_idx = pos 0 }) in
        on_eflr_component_object d₁ obname >>= λ d₂. proceed (advance n d₂))
]
