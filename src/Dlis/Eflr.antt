-- ===== src/Dlis/Eflr.antt =====
-- dlis.cc: parsing of the components of explicitly formatted records.
pub mod Fields
pub mod ReadBack
pub mod RoundTrip
pub mod Sets
pub mod Bounds
use dlis_parser.Base.{
  ℕ, ◌+◌, Bool, true, not, ◌&&◌, Option, none, some, List, [], ◌∷◌, get_elem?, set, if◌then◌else◌,
}
use dlis_parser.Base.Int.{ℤ, pos, pos_part, ◌-ℤ◌, sub_ℕ, ltb_ℤ, leb_ℤ}
use dlis_parser.Codec.Memory.{Ptr, Mem, SizedStr, text}
use dlis_parser.Codec.Number.{parse_ushort, parse_uvari}
use dlis_parser.Codec.Text.{Obname, parse_ident, parse_obname}
use dlis_parser.Codec.Value.{Outcome, ok, exit, fault, ◌>>=◌, Value, parse_value}
use dlis_parser.Dlis.State.{Dlis, here, avail, lrs_remain, with_state}
use dlis_parser.Dlis.Flags.{
  eflr_comp_set_has_type, eflr_comp_set_has_name, eflr_comp_attr_has_label,
  eflr_comp_attr_has_count, eflr_comp_attr_has_repcode, eflr_comp_attr_has_unit,
  eflr_comp_attr_has_value, eflr_comp_object_has_name, eflr_comp_is_absatr,
}
use dlis_parser.Dlis.Trailing.{trailing_len}
use dlis_parser.Dlis.Template.{
  Attr, eflr_set_template_object_queue, eflr_set_template_object_dequeue,
}
use dlis_parser.Dlis.Strings.{strcmp_eq, same_prefix, strncmp_eq}

abbrev pub frame_set : List ℕ
frame_set = b'F' ∷ b'R' ∷ b'A' ∷ b'M' ∷ b'E' ∷ []

abbrev pub index_type_label : List ℕ
index_type_label = b'I' ∷ b'N' ∷ b'D' ∷ b'E' ∷ b'X' ∷ b'-' ∷ b'T' ∷ b'Y' ∷ b'P' ∷ b'E' ∷ []

unfoldable pub min_ℤ : ℤ → ℤ → ℤ
min_ℤ a b = if ltb_ℤ a b then a else b

unfoldable pub parse_eflr_component : Dlis → Option (ℕ × ℕ)
parse_eflr_component d = if ltb_ℤ (avail d) (pos 1) then none else some (1, d.buffer (here d 0))

-- The bytes taken, the type and the name of the set; both are read as far as the buffer goes.
unfoldable pub parse_eflr_component_set : Dlis → Outcome (Option (ℕ × SizedStr × SizedStr))
parse_eflr_component_set d =
    if not (eflr_comp_set_has_type d.state)
    then exit
    else if ltb_ℤ (avail d) (pos 1)
    then ok none
    else elim (parse_ident d.buffer (here d 0) (pos_part (avail d))) [
      | none ↦ ok none
      | some (type_len, type) ↦
          (let left = sub_ℕ d.max_byte_idx (d.byte_idx + type_len) in
            if not (eflr_comp_set_has_name d.state)
            then ok (some (type_len, type, record { buff = 0; len = pos 0 }))
            else (if ltb_ℤ left (pos 1)
                then ok none
                else (elim (parse_ident d.buffer (here d type_len) (pos_part left)) [
                  | none ↦ ok none
                  | some (name_len, name) ↦ ok (some (type_len + name_len, type, name))
                ])))
    ]

-- What is left of the buffer and of the segment behind the n bytes that were read.
unfoldable pub left_behind : Dlis → ℕ → ℤ
unfolding min_ℤ
left_behind d n =
    min_ℤ (sub_ℕ d.state.lrs_len (d.state.lrs_byte_cnt + n)) (sub_ℕ d.max_byte_idx (d.byte_idx + n))

-- One optional field of an attribute: with the attribute as far as it is read goes the number of
-- bytes read, or `none` once a field was cut.
unfoldable pub attr_field :
    {A : Type 0}
    → Dlis
    → Bool
    → (Mem → Ptr → ℕ → Option (ℕ × A))
    → (A → Attr → Attr)
    → Attr × Option ℕ
    → Attr × Option ℕ
unfolding left_behind
attr_field d has parse put (a, none) = (a, none)
attr_field d has parse put (a, some n) =
    if not has
    then (a, some n)
    else if ltb_ℤ (left_behind d n) (pos 1)
    then (a, none)
    else elim (parse d.buffer (here d n) (pos_part (left_behind d n))) [
      | none ↦ (a, none)
      | some (k, x) ↦ (put x a, some (n + k))
    ]

unfoldable pub attr_fields : Dlis → Attr → Attr × Option ℕ
unfolding attr_field
attr_fields d a =
    let s = d.state in
    attr_field d (eflr_comp_attr_has_unit s) parse_ident (λ x a. record a { unit = x })
      (attr_field d (eflr_comp_attr_has_repcode s) (λ m p n. parse_ushort m p)
        (λ x a. record a { repcode = pos x })
        (attr_field d (eflr_comp_attr_has_count s) parse_uvari (λ x a. record a { count = pos x })
          (attr_field d (eflr_comp_attr_has_label s) parse_ident (λ x a. record a { label = x })
            (a, some 0))))

-- dlis->current_frame->index_type = true
unfoldable pub set_index_type : Dlis → Outcome Dlis
set_index_type d = elim (d.current_frame) [
  | none ↦ fault
  | some i ↦ elim (get_elem? d.frame_heap i) [
    | none ↦ fault
    | some f ↦ ok (record d { frame_heap = set d.frame_heap i (record f { index_type = true }) })
  ]
]

-- The label INDEX-TYPE of an object of a FRAME set. The comparison goes as far as the label.
unfoldable pub is_index_type : Dlis → SizedStr → Bool
unfolding strcmp_eq same_prefix
is_index_type d label =
    strcmp_eq d.state.parsing_set_type frame_set
    && (strncmp_eq (text d.buffer label) index_type_label (pos_part label.len)
        && (leb_ℤ (pos 0) d.state.templt_read_idx && not (eflr_comp_is_absatr d.state)))

-- In a template the attribute is queued; in an object the next template object is up.
unfoldable pub template_step : Dlis → Attr → Outcome Dlis
template_step d a =
    if ltb_ℤ d.state.templt_read_idx (pos 0)
    then (eflr_set_template_object_queue d.state a >>= λ s. ok (with_state d s))
    else ok (with_state d (eflr_set_template_object_dequeue d.state))

-- What follows the fields, if none was cut.
unfoldable pub attrib_done : Dlis → Attr × Option ℕ → Outcome (Attr × Option ℕ × Dlis)
unfolding set_index_type is_index_type template_step
attrib_done d (a, none) = ok (a, none, d)
attrib_done d (a, some n) = do
  marked ← if is_index_type d a.label then set_index_type d else ok d
  d' ← template_step marked a
  ok (a, some n, d')

-- The attribute as it was read, the bytes taken or `none`, and the new state.
unfoldable pub parse_eflr_component_attrib : Dlis → Attr → Outcome (Attr × Option ℕ × Dlis)
unfolding attr_fields attrib_done
parse_eflr_component_attrib d a = attrib_done d (attr_fields d a)

unfoldable pub parse_eflr_component_attrib_value : Dlis → Value → Outcome (Option ℕ × Value × Dlis)
unfolding min_ℤ ◌-ℤ◌
parse_eflr_component_attrib_value d val =
    let (trail, d') = trailing_len d in
    let left = min_ℤ (lrs_remain d'.state -ℤ trail) (avail d') in
    if not (eflr_comp_attr_has_value d.state)
    then exit
    else if ltb_ℤ left (pos 1)
    then ok (none, val, d')
    else (parse_value d'.buffer (here d' 0) (pos_part left) d'.state.attrib_repcode val
        >>= λ (n, v). ok (n, v, d'))

unfoldable pub parse_eflr_component_object : Dlis → Outcome (Option (ℕ × Obname))
unfolding min_ℤ
parse_eflr_component_object d =
    if not (eflr_comp_object_has_name d.state)
    then exit
    else ok (parse_obname d.buffer (here d 0) (pos_part (min_ℤ (avail d) (lrs_remain d.state))))
