-- ===== src/Dlis/Eflr/Bounds.antt =====
-- dlis.cc: how far the parsers of the components of sets read.
use dlis_parser.Base.{
  ℕ, ◌+◌, ◌≤◌, ◌≡◌, refl, ap, ◌∙◌, arith, Bool, Bool-cases, true, false, not, inl, inr, Option,
  Option-cases, none, some, if◌then◌else◌,
}
use dlis_parser.Base.Int.{ℤ, pos, pos_part, ltb_ℤ, sub_ℕ, ◌-ℤ◌}
use dlis_parser.Codec.Outcome.{bind-ok}
use dlis_parser.Codec.Memory.{Ptr, Mem, IsBytes, SizedStr}
use dlis_parser.Codec.Number.{parse_ushort, parse_uvari}
use dlis_parser.Codec.Number.Decode.{parse_uvari_bounds}
use dlis_parser.Codec.Text.{Obname, parse_ident}
use dlis_parser.Codec.Text.Range.{parse_ident_bounds, parse_obname_bounds}
use dlis_parser.Codec.Value.{Outcome, ok, exit, ◌>>=◌, Value, parse_value}
use dlis_parser.Codec.Value.Range.{parse_value_bounds}
use dlis_parser.Dlis.State.{Dlis, here, avail, lrs_remain}
use dlis_parser.Dlis.Flags.{eflr_comp_attr_has_value}
use dlis_parser.Dlis.Skip.Saved.{known_trail}
use dlis_parser.Dlis.Template.{Attr}
use dlis_parser.Dlis.Eflr.{
  is_index_type, set_index_type, template_step, min_ℤ, left_behind, attr_field, attr_fields,
  attrib_done, parse_eflr_component_attrib, parse_eflr_component_set, parse_eflr_component_object,
  parse_eflr_component_attrib_value,
}

-- The n bytes have come in and lie in the segment.
abbrev pub InFront : Dlis → ℕ → Type 0
InFront d n = (d.byte_idx + n ≤ d.max_byte_idx) × (d.state.lrs_byte_cnt + n ≤ d.state.lrs_len)

abbrev Within : Dlis → Attr × Option ℕ → Type 0
Within d (a, none) = Unit {0}
Within d (a, some n) = InFront d n

-- A parser takes no more than what it is given, if that is a byte at least.
abbrev IsBounded : {A : Type 0} → (Mem → Ptr → ℕ → Option (ℕ × A)) → Mem → Type 0
IsBounded {A} parse m = (p : Ptr) (n k : ℕ) (x : A) → 1 ≤ n → parse m p n ≡ some (k, x) → k ≤ n

left_behind-InFront :
    (d : Dlis) (n k : ℕ)
    → ltb_ℤ (left_behind d n) (pos 1) ≡ false
    → (1 ≤ pos_part (left_behind d n)) × (k ≤ pos_part (left_behind d n) → InFront d (n + k))
unfolding left_behind min_ℤ
left_behind-InFront d n k more = (ground arith, λ fits. ground arith)

attr_field-Within :
    {A : Type 0} (d : Dlis) (has : Bool) (parse : Mem → Ptr → ℕ → Option (ℕ × A))
    (put : A → Attr → Attr) (x : Attr × Option ℕ)
    → IsBounded parse d.buffer
    → Within d x
    → Within d (attr_field d has parse put x)
unfolding attr_field
attr_field-Within d has parse put (a, none) bounded within = tt
attr_field-Within d false parse put (a, some n) bounded within = within
attr_field-Within d true parse put (a, some n) bounded within =
    elim (Bool-cases (ltb_ℤ (left_behind d n) (pos 1))) [
      | inl few ↦ rw (few, attr_field) tt
      | inr more ↦ elim (Option-cases (parse d.buffer (here d n) (pos_part (left_behind d n)))) [
        | inl bad ↦ rw (more, bad, attr_field) tt
        | inr ((k, x), good) ↦
            let (some_byte, inside) = left_behind-InFront d n k more in
            rw (more, good, attr_field)
              (inside (bounded (here d n) (pos_part (left_behind d n)) k x some_byte good))
      ]
    ]

ident-IsBounded : (m : Mem) → IsBounded parse_ident m
ident-IsBounded m p n k x some_byte e = (parse_ident_bounds m p n k x e).1

uvari-IsBounded : (m : Mem) → IsBytes m → IsBounded parse_uvari m
uvari-IsBounded m h p n k x some_byte e = (parse_uvari_bounds m p h n k x e).1

ushort-IsBounded : (m : Mem) → IsBounded (λ m p n. parse_ushort m p) m
unfolding parse_ushort
ushort-IsBounded m p n k x some_byte e = ground arith

attr_fields-Within :
    (d : Dlis) (a : Attr) → IsBytes d.buffer → InFront d 0 → Within d (attr_fields d a)
unfolding attr_fields
attr_fields-Within d a h start =
    attr_field-Within d _ parse_ident (λ x a. record a { unit = x }) _ (ident-IsBounded d.buffer)
      (attr_field-Within d _ (λ m p n. parse_ushort m p) (λ x a. record a { repcode = pos x }) _
        (ushort-IsBounded d.buffer)
        (attr_field-Within d _ parse_uvari (λ x a. record a { count = pos x }) _
          (uvari-IsBounded d.buffer h)
          (attr_field-Within d _ parse_ident (λ x a. record a { label = x }) (a, some 0)
            (ident-IsBounded d.buffer) start)))

-- The bytes taken are those of the fields.
done_len :
    (d d' : Dlis) (x : Attr × Option ℕ) (a' : Attr) (n : ℕ)
    → attrib_done d x ≡ ok (a', some n, d')
    → x.1 ≡ some n
unfolding attrib_done
done_len d d' (a, none) a' n e = cc
done_len d d' (a, some k) a' n e =
    let (marked, e₁, e₂) =
      bind-ok (if is_index_type d a.label then set_index_type d else ok d)
        (λ m. template_step m a >>= λ d''. ok (a, some k, d'')) (a', some n, d') e in
    let (d'', e₃, e₄) =
      bind-ok (template_step marked a) (λ d''. ok (a, some k, d'')) (a', some n, d') e₂ in
    cc

attrib-InFront :
    (d d' : Dlis) (a a' : Attr) (n : ℕ)
    → IsBytes d.buffer
    → InFront d 0
    → parse_eflr_component_attrib d a ≡ ok (a', some n, d')
    → InFront d n
unfolding parse_eflr_component_attrib
attrib-InFront d d' a a' n h start e =
    go (attr_fields d a) (attr_fields-Within d a h start) (done_len d d' (attr_fields d a) a' n e)
  where
    go : (x : Attr × Option ℕ) → Within d x → x.1 ≡ some n → InFront d n
    go (a, none) within same = cc
    go (a, some k) within same = let eq : k ≡ n = cc in rw (← eq) within

set-InBuffer :
    (d : Dlis) (n : ℕ) (type name : SizedStr)
    → parse_eflr_component_set d ≡ ok (some (n, type, name))
    → d.byte_idx + n ≤ d.max_byte_idx
unfolding parse_eflr_component_set
set-InBuffer d n type name e =
    elim (Option-cases (parse_ident d.buffer (here d 0) (pos_part (avail d)))) [
      | inl bad ↦ absurd (ground arith)
      | inr ((k, s), good) ↦
          let fits = parse_ident_bounds d.buffer (here d 0) (pos_part (avail d)) k s good in
          let left : ℤ = sub_ℕ d.max_byte_idx (d.byte_idx + k) in
          elim (Option-cases (parse_ident d.buffer (here d k) (pos_part left))) [
            | inl bad ↦ ground arith
            | inr ((j, u), named) ↦
                ground (arith, parse_ident_bounds d.buffer (here d k) (pos_part left) j u named)
          ]
    ]

object-InFront :
    (d : Dlis) (n : ℕ) (o : Obname)
    → IsBytes d.buffer
    → parse_eflr_component_object d ≡ ok (some (n, o))
    → InFront d n
unfolding parse_eflr_component_object min_ℤ
object-InFront d n o h e =
    let (one, fits) =
      parse_obname_bounds d.buffer (here d 0) (pos_part (min_ℤ (avail d) (lrs_remain d.state))) h n
        o (ground arith) in
    unfold min_ℤ in ground arith

-- What is read of a value, when the length of the trailer is known.
abbrev value_left : Dlis → ℕ → ℤ
value_left d t = min_ℤ (lrs_remain d.state -ℤ pos t) (avail d)

value_left-InFront :
    (d : Dlis) (t n : ℕ)
    → ltb_ℤ (value_left d t) (pos 1) ≡ false
    → n ≤ pos_part (value_left d t)
    → (d.byte_idx + n ≤ d.max_byte_idx) × (d.state.lrs_byte_cnt + n + t ≤ d.state.lrs_len)
unfolding min_ℤ ◌-ℤ◌
value_left-InFront d t n more fits = ground arith

-- The call behind its two guards.
abbrev value_read : Dlis → ℕ → Value → Bool → Bool → Outcome (Option ℕ × Value × Dlis)
value_read d t v no_value few =
    if no_value
    then exit
    else if few
    then ok (none, v, d)
    else (parse_value d.buffer (here d 0) (pos_part (value_left d t)) d.state.attrib_repcode v
        >>= λ (n, v). ok (n, v, d))

value-InFront :
    (d d' : Dlis) (t n : ℕ) (v v' : Value)
    → IsBytes d.buffer
    → d.state.lrs_trail_len ≡ pos t
    → parse_eflr_component_attrib_value d v ≡ ok (some n, v', d')
    → (d.byte_idx + n ≤ d.max_byte_idx) × (d.state.lrs_byte_cnt + n + t ≤ d.state.lrs_len)
unfolding parse_eflr_component_attrib_value
value-InFront d d' t n v v' h known e =
    go (not (eflr_comp_attr_has_value d.state)) (ltb_ℤ (value_left d t) (pos 1)) refl
      (rw (known_trail d t known) at e)
  where
    go :
        (no_value few : Bool)
        → ltb_ℤ (value_left d t) (pos 1) ≡ few
        → value_read d t v no_value few ≡ ok (some n, v', d')
        → (d.byte_idx + n ≤ d.max_byte_idx) × (d.state.lrs_byte_cnt + n + t ≤ d.state.lrs_len)
    go true few same read = cc
    go false true same read = cc
    go false false same read =
        let ((k, w), parsed, given) =
          bind-ok
            (parse_value d.buffer (here d 0) (pos_part (value_left d t)) d.state.attrib_repcode v)
            (λ (n, v). ok (n, v, d)) (some n, v', d') read in
        let one : k ≡ some n = cc in
        value_left-InFront d t n same (
          parse_value_bounds d.buffer (here d 0) (pos_part (value_left d t)) h
            d.state.attrib_repcode v w n (parsed ∙ ap (λ k. ok (k, w)) one))

-- In a memory of bytes, with the indices of the buffer and of the segment in order, what the
-- parsers of objects and attributes take has come in and lies in the segment, what the parser of
-- values takes lies in front of the trailer too, if its length is known, and what the parser of
-- sets takes has come in.
pub components-InFront :
    (d : Dlis)
    → IsBytes d.buffer
    → InFront d 0
    → ((n : ℕ) (type name : SizedStr)
        → parse_eflr_component_set d ≡ ok (some (n, type, name))
        → d.byte_idx + n ≤ d.max_byte_idx)
      × ((n : ℕ) (o : Obname) → parse_eflr_component_object d ≡ ok (some (n, o)) → InFront d n)
      × ((n : ℕ) (a a' : Attr) (d' : Dlis)
          → parse_eflr_component_attrib d a ≡ ok (a', some n, d')
          → InFront d n)
      × ((n t : ℕ) (v v' : Value) (d' : Dlis)
          → d.state.lrs_trail_len ≡ pos t
          → parse_eflr_component_attrib_value d v ≡ ok (some n, v', d')
          → InFront d n × (d.state.lrs_byte_cnt + n + t ≤ d.state.lrs_len))
components-InFront d h start = (
  set-InBuffer d,
  λ n o e. object-InFront d n o h e,
  λ n a a' d' e. attrib-InFront d d' a a' n h start e,
  λ n t v v' d' known e.
      let (buffer, segment) = value-InFront d d' t n v v' h known e in
      ((buffer, omega (arith, segment)), segment),
)
