-- ===== src/Dlis/Eflr/Sets.antt =====
-- dlis.cc: the components of sets and objects as bytes.
use dlis_parser.Base.{
  ℕ, ◌+◌, ◌<◌, ◌≤◌, ◌≡◌, ◌≢◌, refl, ap, subst, arith, true, false, Option, none, some, List, [],
  ◌++◌, length, length-append, ◌^◌,
}
use dlis_parser.Base.Int.{pos, pos_part, ltb_ℤ, sub_ℕ}
use dlis_parser.Codec.Memory.{null, Holds, Holds-append, SizedStr}
use dlis_parser.Codec.Text.RoundTrip.{
  ident_bytes, str_at, parse_ident-ident_bytes, obname_bytes, obname_at, parse_obname-obname_bytes,
}
use dlis_parser.Codec.Value.{ok}
use dlis_parser.Dlis.State.{Dlis, here, avail, lrs_remain}
use dlis_parser.Dlis.Flags.{
  eflr_comp_set_has_type, eflr_comp_set_has_name, eflr_comp_object_has_name,
}
use dlis_parser.Dlis.Eflr.{min_ℤ, parse_eflr_component_set, parse_eflr_component_object}
use dlis_parser.Dlis.Eflr.Fields.{HasRoom, is_some, field_bytes}

-- The type of a set, and its name if it has one.
abbrev pub set_bytes : List ℕ → Option (List ℕ) → List ℕ
set_bytes type name = ident_bytes type ++ field_bytes ident_bytes name

-- The name behind a type of n bytes; without one, the pointer is NULL.
abbrev pub set_name_at : Dlis → ℕ → Option (List ℕ) → SizedStr
set_name_at d n none = record { buff = 0; len = pos 0 }
set_name_at d n (some s) = str_at (here d n + 1) s

left_of :
    (max at k : ℕ)
    → 1 ≤ k
    → at + k ≤ max
    → (ltb_ℤ (sub_ℕ max at) (pos 1) ≡ false) × (k ≤ pos_part (sub_ℕ max at))
left_of max at k some_byte room = ground arith

here-front : (d : Dlis) (n : ℕ) → here d 0 + n ≡ here d n
here-front d n = omega arith

valid_place : (d : Dlis) (n : ℕ) → here d n ≢ null
valid_place d n e = omega (arith, e)

-- If the first byte of a set announces a type, and a name just if there is one, and their
-- encodings lie at the front of the bytes and have come in, both are read back, with NULL for a
-- missing name, and just the encoding is taken, whether or not it lies in the segment.
pub parse_eflr_component_set-set_bytes :
    (d : Dlis) (type : List ℕ) (name : Option (List ℕ))
    → eflr_comp_set_has_type d.state ≡ true
    → eflr_comp_set_has_name d.state ≡ is_some name
    → Holds d.buffer (here d 0) (set_bytes type name)
    → d.byte_idx + length (set_bytes type name) ≤ d.max_byte_idx
    → parse_eflr_component_set d
      ≡ ok (
          some (
            length (set_bytes type name),
            str_at (here d 0 + 1) type,
            set_name_at d (length (ident_bytes type)) name,
          ))
unfolding parse_eflr_component_set
parse_eflr_component_set-set_bytes d type none typed named held room =
    let t = ident_bytes type in
    let sum : length (t ++ []) ≡ length t + 0 = length-append t [] in
    let (ht, hn) = Holds-append d.buffer (here d 0) t [] held in
    let (more, enough) =
      left_of d.max_byte_idx d.byte_idx (length t) (omega arith) (omega (arith, room, sum)) in
    let read =
      parse_ident-ident_bytes d.buffer (here d 0) (pos_part (avail d)) (valid_place d 0) type enough
        ht in
    let all : length t ≡ length (t ++ []) = omega (arith, sum) in
    rw (typed, more, read, named)
      (ap (λ k. ok (some (k, str_at (here d 0 + 1) type, record { buff = 0; len = pos 0 }))) all)
parse_eflr_component_set-set_bytes d type (some name) typed named held room =
    let t = ident_bytes type in
    let n = ident_bytes name in
    let sum : length (t ++ n) ≡ length t + length n = length-append t n in
    let (ht, hn) = Holds-append d.buffer (here d 0) t n held in
    let (more, enough) =
      left_of d.max_byte_idx d.byte_idx (length t) (omega arith) (omega (arith, room, sum)) in
    let (more', enough') =
      left_of d.max_byte_idx (d.byte_idx + length t) (length n) (omega arith)
        (omega (arith, room, sum)) in
    let read =
      parse_ident-ident_bytes d.buffer (here d 0) (pos_part (avail d)) (valid_place d 0) type enough
        ht in
    let read' =
      parse_ident-ident_bytes d.buffer (here d (length t))
        (pos_part (sub_ℕ d.max_byte_idx (d.byte_idx + length t))) (valid_place d (length t)) name
        enough' (subst (λ q. Holds d.buffer q n) (here-front d (length t)) hn) in
    rw (typed, more, read, named, more', read')
      (ap (λ k. ok (some (k, str_at (here d 0 + 1) type, str_at (here d (length t) + 1) name)))
        (omega (arith, sum)))

pub parse_eflr_component_object-obname_bytes :
    (d : Dlis) (origin copy : ℕ) (s : List ℕ)
    → eflr_comp_object_has_name d.state ≡ true
    → origin < 2 ^ 30
    → Holds d.buffer (here d 0) (obname_bytes origin copy s)
    → HasRoom d 0 (length (obname_bytes origin copy s))
    → parse_eflr_component_object d
      ≡ ok (some (length (obname_bytes origin copy s), obname_at (here d 0) origin copy s))
unfolding parse_eflr_component_object min_ℤ
parse_eflr_component_object-obname_bytes d origin copy s named small held room =
    let k : ℕ = length (obname_bytes origin copy s) in
    let enough : k ≤ pos_part (min_ℤ (avail d) (lrs_remain d.state)) =
      unfold min_ℤ in ground arith in
    let read =
      parse_obname-obname_bytes d.buffer (here d 0)
        (pos_part (min_ℤ (avail d) (lrs_remain d.state))) (valid_place d 0) origin copy s small
        enough held in
    rw (named, read) refl
