-- ===== src/Dlis/Eflr/ReadBack.antt =====
-- dlis.cc, parse_eflr_component_attrib: the optional fields of an attribute are read back.
use dlis_parser.Base.{
  ℕ, ◌+◌, ◌≤◌, ◌<◌, ◌≡◌, ◌≢◌, refl, ap, arith, Bool, false, Option, none, some, List, ◌++◌, length,
  length-append, ◌^◌,
}
use dlis_parser.Base.Int.{pos, pos_part, ltb_ℤ}
use dlis_parser.Codec.Memory.{null, Ptr, Mem, Holds}
use dlis_parser.Codec.Number.{parse_uvari, parse_ushort}
use dlis_parser.Codec.Number.RoundTrip.{uvari_bytes, parse_uvari-uvari_bytes, length-uvari_bytes}
use dlis_parser.Codec.Text.{parse_ident}
use dlis_parser.Codec.Text.RoundTrip.{ident_bytes, str_at, parse_ident-ident_bytes}
use dlis_parser.Dlis.State.{Dlis, here}
use dlis_parser.Dlis.Template.{Attr}
use dlis_parser.Dlis.Eflr.{left_behind, attr_field, attr_fields, min_ℤ}
use dlis_parser.Dlis.Eflr.Fields.{
  Fields, fields_bytes, field_bytes, code_bytes, is_some, Announces, override, count_at, code_at,
  unit_at, with_label, with_count, with_code, filled, HasRoom, Fits, fields-held,
}

room-left : (d : Dlis) (n k : ℕ) → HasRoom d n k → k ≤ pos_part (left_behind d n)
unfolding left_behind min_ℤ
room-left d n k room = ground arith

room-some : (d : Dlis) (n k : ℕ) → 1 ≤ k → HasRoom d n k → ltb_ℤ (left_behind d n) (pos 1) ≡ false
unfolding left_behind min_ℤ
room-some d n k positive room = ground arith

-- The parser of a field reads back what was encoded at `p`.
abbrev Reads :
    {A B : Type 0}
    → (Mem → Ptr → ℕ → Option (ℕ × B))
    → (A → List ℕ)
    → (A → B)
    → Mem
    → Ptr
    → A
    → Type 0
Reads parse encode value m p x =
    (1 ≤ length (encode x))
    × ((n : ℕ)
        → length (encode x) ≤ n
        → Holds m p (encode x)
        → parse m p n ≡ some (length (encode x), value x))

abbrev ReadsField :
    {A B : Type 0}
    → (Mem → Ptr → ℕ → Option (ℕ × B))
    → (A → List ℕ)
    → (A → B)
    → Mem
    → Ptr
    → Option A
    → Type 0
ReadsField parse encode value m p none = Unit {0}
ReadsField parse encode value m p (some x) = Reads parse encode value m p x

attr_field-field_bytes :
    {A B : Type 0} (d : Dlis) (has : Bool) (parse : Mem → Ptr → ℕ → Option (ℕ × B))
    (put : B → Attr → Attr) (encode : A → List ℕ) (value : A → B) (field : Option A) (a : Attr)
    (n : ℕ)
    → has ≡ is_some field
    → ReadsField parse encode value d.buffer (here d n) field
    → Holds d.buffer (here d n) (field_bytes encode field)
    → HasRoom d n (length (field_bytes encode field))
    → attr_field d has parse put (a, some n)
      ≡ (override put value field a, some (n + length (field_bytes encode field)))
unfolding attr_field
attr_field-field_bytes d has parse put encode value none a n is_there reads held room =
    rw is_there (ap (λ k. (a, some k)) (omega arith))
attr_field-field_bytes d has parse put encode value (some x) a n is_there reads held room =
    let more = room-some d n (length (encode x)) reads.0 room in
    let read = reads.1 (pos_part (left_behind d n)) (room-left d n (length (encode x)) room) held in
    rw (is_there, more, read) refl

module _ (d : Dlis) (n : ℕ) where
  valid : here d n ≢ null
  valid e = omega (arith, e)

  reads_ident :
      (field : Option (List ℕ))
      → ReadsField parse_ident ident_bytes (str_at (here d n + 1)) d.buffer (here d n) field
  reads_ident none = tt
  reads_ident (some s) =
      (omega arith, λ k room held. parse_ident-ident_bytes d.buffer (here d n) k valid s room held)

  reads_count :
      (field : Option ℕ)
      → ((c : ℕ) → field ≡ some c → c < 2 ^ 30)
      → ReadsField parse_uvari uvari_bytes (λ c. c) d.buffer (here d n) field
  reads_count none small = tt
  reads_count (some c) small = (
    omega (arith, length-uvari_bytes c),
    λ k room held. parse_uvari-uvari_bytes d.buffer (here d n) c k valid (small c refl) room held,
  )

  reads_code :
      (field : Option ℕ)
      → ReadsField (λ m p n. parse_ushort m p) code_bytes (λ c. c) d.buffer (here d n) field
  unfolding parse_ushort
  reads_code none = tt
  reads_code (some c) = (omega arith, λ k room held. ground (arith, valid))

room-append : (d : Dlis) (n j k : ℕ) → HasRoom d n (j + k) → HasRoom d n j × HasRoom d (n + j) k
room-append d n j k room = omega (arith, room)

-- If the first byte announces just the given fields, and their encodings lie at the front of the
-- bytes, have come in and lie in the segment, these fields are read, each in its place, the others
-- stay as they were, and just the encoding is taken.
pub attr_fields-fields_bytes :
    (d : Dlis) (f : Fields) (a : Attr)
    → Announces d.state f
    → Fits f
    → Holds d.buffer (here d 0) (fields_bytes f)
    → HasRoom d 0 (length (fields_bytes f))
    → attr_fields d a ≡ (filled d f a, some (length (fields_bytes f)))
unfolding attr_fields
attr_fields-fields_bytes d f a announced fits held room =
    let l = field_bytes ident_bytes f.label in
    let c = field_bytes uvari_bytes f.count in
    let r = field_bytes code_bytes f.repcode in
    let u = field_bytes ident_bytes f.unit in
    let (hl, hc, hr, hu) = fields-held d f held in
    let total : length (fields_bytes f) ≡ length l + (length c + (length r + length u)) =
      omega (arith, length-append l (c ++ (r ++ u)), length-append c (r ++ u), length-append r u) in
    let e₁ =
      attr_field-field_bytes d _ parse_ident (λ x a. record a { label = x }) ident_bytes
        (str_at (here d 0 + 1)) f.label a 0 announced.label (reads_ident d 0 f.label) hl
        (omega (arith, room, total)) in
    let e₂ =
      attr_field-field_bytes d _ parse_uvari (λ x a. record a { count = pos x }) uvari_bytes
        (λ c. c) f.count (with_label d f a) (count_at f) announced.count
        (reads_count d (count_at f) f.count fits.count) hc (omega (arith, room, total)) in
    let e₃ =
      attr_field-field_bytes d _ (λ m p n. parse_ushort m p) (λ x a. record a { repcode = pos x })
        code_bytes (λ c. c) f.repcode (with_count f (with_label d f a)) (code_at f)
        announced.repcode (reads_code d (code_at f) f.repcode) hr (omega (arith, room, total)) in
    let e₄ =
      attr_field-field_bytes d _ parse_ident (λ x a. record a { unit = x }) ident_bytes
        (str_at (here d (unit_at f) + 1)) f.unit (with_code f (with_count f (with_label d f a)))
        (unit_at f) announced.unit (reads_ident d (unit_at f) f.unit) hu
        (omega (arith, room, total)) in
    rw (e₁, e₂, e₃, e₄) (ap (λ k. (filled d f a, some k)) (omega (arith, total)))
