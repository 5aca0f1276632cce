-- ===== src/Dlis/Eflr/Fields.antt =====
-- dlis.cc, parse_eflr_component_attrib: the optional fields of an attribute as bytes.
use dlis_parser.Base.{
  ℕ, ◌+◌, ◌≤◌, ◌<◌, ◌≡◌, subst, arith, Bool, true, false, Option, none, some, List, [], ◌∷◌, ◌++◌,
  length, ◌^◌,
}
use dlis_parser.Base.Int.{pos}
use dlis_parser.Codec.Memory.{Holds, Holds-append}
use dlis_parser.Codec.Number.RoundTrip.{uvari_bytes}
use dlis_parser.Codec.Text.RoundTrip.{ident_bytes, str_at}
use dlis_parser.Dlis.State.{Dlis, here, ParseState}
use dlis_parser.Dlis.Template.{Attr}
use dlis_parser.Dlis.Flags.{
  eflr_comp_attr_has_label, eflr_comp_attr_has_count, eflr_comp_attr_has_repcode,
  eflr_comp_attr_has_unit,
}

-- What an attribute carries itself; the rest is left to the template.
pub record Fields : Type 0 where
  pub label : Option (List ℕ)
  pub count : Option ℕ
  pub repcode : Option ℕ
  pub unit : Option (List ℕ)

abbrev pub is_some : {A : Type 0} → Option A → Bool
is_some none = false
is_some (some a) = true

abbrev pub field_bytes : {A : Type 0} → (A → List ℕ) → Option A → List ℕ
field_bytes encode none = []
field_bytes encode (some a) = encode a

abbrev pub code_bytes : ℕ → List ℕ
code_bytes c = c ∷ []

-- The fields in the order of the format.
abbrev pub fields_bytes : Fields → List ℕ
fields_bytes f =
    field_bytes ident_bytes f.label
    ++ (field_bytes uvari_bytes f.count
        ++ (field_bytes code_bytes f.repcode ++ field_bytes ident_bytes f.unit))

-- The first byte of the component says which fields follow.
pub record Announces (s : ParseState) (f : Fields) : Type 0 where
  pub label : eflr_comp_attr_has_label s ≡ is_some f.label
  pub count : eflr_comp_attr_has_count s ≡ is_some f.count
  pub repcode : eflr_comp_attr_has_repcode s ≡ is_some f.repcode
  pub unit : eflr_comp_attr_has_unit s ≡ is_some f.unit

-- A field that is there replaces the one of the attribute.
abbrev pub override : {A B : Type 0} → (B → Attr → Attr) → (A → B) → Option A → Attr → Attr
override put value none a = a
override put value (some x) a = put (value x) a

-- Where the second, third and fourth field begin, and the end.
abbrev pub count_at : Fields → ℕ
count_at f = 0 + length (field_bytes ident_bytes f.label)

abbrev pub code_at : Fields → ℕ
code_at f = count_at f + length (field_bytes uvari_bytes f.count)

abbrev pub unit_at : Fields → ℕ
unit_at f = code_at f + length (field_bytes code_bytes f.repcode)

-- The attribute after the fields that lie at the front of the bytes.
abbrev pub with_label : Dlis → Fields → Attr → Attr
with_label d f = override (λ x a. record a { label = x }) (str_at (here d 0 + 1)) f.label

abbrev pub with_count : Fields → Attr → Attr
with_count f = override (λ x a. record a { count = pos x }) (λ (c : ℕ). c) f.count

abbrev pub with_code : Fields → Attr → Attr
with_code f = override (λ x a. record a { repcode = pos x }) (λ (c : ℕ). c) f.repcode

abbrev pub with_unit : Dlis → Fields → Attr → Attr
with_unit d f = override (λ x a. record a { unit = x }) (str_at (here d (unit_at f) + 1)) f.unit

abbrev pub filled : Dlis → Fields → Attr → Attr
filled d f a = with_unit d f (with_code f (with_count f (with_label d f a)))

-- So many bytes behind the first n have come in and lie in the segment.
abbrev pub HasRoom : Dlis → ℕ → ℕ → Type 0
HasRoom d n k =
    (d.byte_idx + n + k ≤ d.max_byte_idx) × (d.state.lrs_byte_cnt + n + k ≤ d.state.lrs_len)

-- The values lie in the ranges of their encodings.
pub record Fits (f : Fields) : Type 0 where
  pub count : (c : ℕ) → f.count ≡ some c → c < 2 ^ 30

-- Where the next field lies.
here-add : (d : Dlis) (n k : ℕ) → here d n + k ≡ here d (n + k)
here-add d n k = omega arith

-- Each field lies in its place.
pub fields-held :
    (d : Dlis) (f : Fields)
    → Holds d.buffer (here d 0) (fields_bytes f)
    → Holds d.buffer (here d 0) (field_bytes ident_bytes f.label)
      × Holds d.buffer (here d (count_at f)) (field_bytes uvari_bytes f.count)
      × Holds d.buffer (here d (code_at f)) (field_bytes code_bytes f.repcode)
      × Holds d.buffer (here d (unit_at f)) (field_bytes ident_bytes f.unit)
fields-held d f held =
    let l = field_bytes ident_bytes f.label in
    let c = field_bytes uvari_bytes f.count in
    let r = field_bytes code_bytes f.repcode in
    let u = field_bytes ident_bytes f.unit in
    let (hl, h₁) = Holds-append d.buffer (here d 0) l (c ++ (r ++ u)) held in
    let (hc, h₂) =
      Holds-append d.buffer (here d (count_at f)) c (r ++ u)
        (subst (λ q. Holds d.buffer q (c ++ (r ++ u))) (here-add d 0 (length l)) h₁) in
    let (hr, hu) =
      Holds-append d.buffer (here d (code_at f)) r u
        (subst (λ q. Holds d.buffer q (r ++ u)) (here-add d (count_at f) (length c)) h₂) in
    (hl, hc, hr, subst (λ q. Holds d.buffer q u) (here-add d (code_at f) (length r)) hu)
