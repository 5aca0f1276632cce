-- ===== src/Dlis/Strings/Names.antt =====
-- dlis.cc, obname_cmp: the comparison and equality of names.
use dlis_parser.Base.{
  ℕ, zero, suc, ◌≡◌, ◌≢◌, ◌↔◌, refl, sym, ap, ◌∙◌, arith, List, [], ◌∷◌, length, ◌==◌, ==_iff, Bool,
  Bool-cases, true, false, ◌&&◌, inl, inr,
}
use dlis_parser.Base.Lists.{All}
use dlis_parser.Codec.Value.{NameVal}
use dlis_parser.Dlis.State.{Frame}
use dlis_parser.Dlis.Strings.{same_prefix, obname_cmp, c_str, name_cmp, frame_obname_cmp}

pub and_true : (a b : Bool) → (a && b) ≡ true → (a ≡ true) × (b ≡ true)
and_true true b e = (refl, e)
and_true false b e = cc

not_end : (c : ℕ) → c ≢ 0 → c == 0 ≡ false
not_end c ne = ground arith

pub impossible : false ≡ true → ⊥
impossible e = cc

same_prefix_refl : (n : ℕ) (s : List ℕ) → same_prefix n s s ≡ true
unfolding same_prefix
same_prefix_refl zero s = refl
same_prefix_refl (suc n) [] = refl
same_prefix_refl (suc n) (c ∷ cs) = elim (Bool-cases (c == 0)) [
  | inl end ↦ rw ((==_iff c c).1 refl, end)
  | inr more ↦ rw ((==_iff c c).1 refl, more) (same_prefix_refl n cs)
]

-- Texts of one length without NUL that agree up to it are equal.
same_prefix_eq :
    (s t : List ℕ)
    → All (λ c. c ≢ 0) s
    → length s ≡ length t
    → same_prefix (length s) s t ≡ true
    → s ≡ t
unfolding same_prefix
same_prefix_eq [] [] plain same e = refl
same_prefix_eq [] (c ∷ cs) plain same e = absurd (omega (arith, same))
same_prefix_eq (c ∷ cs) [] plain same e = absurd (omega (arith, same))
same_prefix_eq (c ∷ cs) (x ∷ xs) plain same e = elim (Bool-cases (c == x)) [
  | inl eq ↦
      let tail : same_prefix (length cs) cs xs ≡ true =
        rw (eq, same_prefix, not_end c plain.0) at e in
      let front : c ≡ x = (==_iff c x).0 eq in
      rw (front, same_prefix_eq cs xs plain.1 (omega (arith, same)) tail)
  | inr ne ↦ absurd (impossible (rw (ne, same_prefix) at e))
]

obname_cmp_parts :
    (a b : NameVal)
    → obname_cmp a b ≡ true
    → (a.origin ≡ b.origin)
      × (a.copy_number ≡ b.copy_number)
      × (length a.name ≡ length b.name)
      × (same_prefix (length a.name) a.name b.name ≡ true)
unfolding obname_cmp
obname_cmp_parts a b e =
    let (o, rest) = and_true _ _ e in
    let (c, rest') = and_true _ _ rest in
    let (l, s) = and_true _ _ rest' in ((==_iff _ _).0 o, (==_iff _ _).0 c, (==_iff _ _).0 l, s)

obname_cmp_refl : (a : NameVal) → obname_cmp a a ≡ true
unfolding obname_cmp
obname_cmp_refl a = rw (
  (==_iff a.origin a.origin).1 refl,
  (==_iff a.copy_number a.copy_number).1 refl,
  (==_iff (length a.name) (length a.name)).1 refl,
  same_prefix_refl (length a.name) a.name,
)

-- If the text of the first name has no NUL, `obname_cmp` answers true exactly when the names are
-- equal.
pub obname_cmp_iff : (a b : NameVal) → All (λ c. c ≢ 0) a.name → (obname_cmp a b ≡ true) ↔ (a ≡ b)
obname_cmp_iff a b plain = (
  (λ e.
      let p : (a.origin ≡ b.origin)
          × (a.copy_number ≡ b.copy_number)
          × (length a.name ≡ length b.name)
          × (same_prefix (length a.name) a.name b.name ≡ true) =
        obname_cmp_parts a b e in
      let text : a.name ≡ b.name = same_prefix_eq a.name b.name plain p.2 p.3 in
      rw (p.0, p.1, text)),
  (λ same. rw same (obname_cmp_refl b)),
)

c_str-plain : (s : List ℕ) → All (λ c. c ≢ 0) (c_str s)
unfolding c_str
c_str-plain [] = tt
c_str-plain (c ∷ cs) = elim (Bool-cases (c == 0)) [
  | inl end ↦ rw end tt
  | inr more ↦ rw more ((λ e. impossible (sym more ∙ (==_iff c 0).1 e)), c_str-plain cs)
]

-- A name in an array that ends at its NUL, in the logical file.
pub record SameName (current logical first second : ℕ) (array : List ℕ) (obn : NameVal)
    : Type 0 where
  pub seq_num : logical ≡ current
  pub origin : first ≡ obn.origin
  pub copy_number : second ≡ obn.copy_number
  pub name : c_str array ≡ obn.name

name_cmp_iff :
    (seq_num seq origin copy_number : ℕ) (name : List ℕ) (obn : NameVal)
    → (name_cmp seq_num seq origin copy_number name obn ≡ true)
      ↔ SameName seq_num seq origin copy_number name obn
unfolding name_cmp
name_cmp_iff seq_num seq origin copy_number name obn = (
  (λ e.
      let (q, rest) = and_true _ _ e in
      let (o, rest₁) = and_true _ _ rest in
      let (c, rest₂) = and_true _ _ rest₁ in
      let (l, s) = and_true _ _ rest₂ in
      let len : length (c_str name) ≡ length obn.name = (==_iff _ _).0 l in
      record {
        seq_num = (==_iff _ _).0 q;
        origin = (==_iff _ _).0 o;
        copy_number = (==_iff _ _).0 c;
        name =
            same_prefix_eq (c_str name) obn.name (c_str-plain name) len
              (ap (λ k. same_prefix k (c_str name) obn.name) len ∙ s);
      }),
  (λ p.
      rw
        (
          (==_iff seq seq_num).1 p.seq_num,
          (==_iff origin obn.origin).1 p.origin,
          (==_iff copy_number obn.copy_number).1 p.copy_number,
          p.name,
          (==_iff (length obn.name) (length obn.name)).1 refl,
        )
        (same_prefix_refl (length obn.name) obn.name)),
)

pub frame_obname_cmp_iff :
    (seq_num : ℕ) (f : Frame) (obn : NameVal)
    → (frame_obname_cmp seq_num f obn ≡ true)
      ↔ SameName seq_num f.seq_num f.origin f.copy_number f.name obn
unfolding frame_obname_cmp
frame_obname_cmp_iff seq_num f obn =
    name_cmp_iff seq_num f.seq_num f.origin f.copy_number f.name obn
