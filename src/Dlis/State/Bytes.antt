-- ===== src/Dlis/State/Bytes.antt =====
-- The bytes behind a pointer after `memmove`.
use dlis_parser.Base.{
  ℕ, zero, suc, ◌+◌, ◌-◌, ◌≤◌, ◌<◌, ◌≡◌, refl, arith, none, some, List, [], ◌∷◌, ◌++◌, length,
  get_elem?, ltb-false, lt→ltb,
}
use dlis_parser.Codec.Memory.{Ptr, Mem, bytes, bytes-Agree}
use dlis_parser.Dlis.State.{memmove}

pub bytes-append :
    (m : Mem) (p : Ptr) (a b n : ℕ) → n ≡ a + b → bytes m p n ≡ bytes m p a ++ bytes m (p + a) b
bytes-append m p zero b n e =
    let e' : n ≡ b = omega arith in let e'' : p + 0 ≡ p = omega arith in rw (e', e'')
bytes-append m p (suc a) b zero e = absurd (omega arith)
bytes-append m p (suc a) b (suc n) e =
    let e' : p + suc a ≡ p + 1 + a = omega arith in
    rw (bytes-append m (p + 1) a b n (omega arith), e')

-- A range that holds a list entry by entry.
pub bytes-eq-list :
    (m : Mem) (p : Ptr) (bs : List ℕ)
    → ((i b : ℕ) → get_elem? bs i ≡ some b → m (p + i) ≡ b)
    → bytes m p (length bs) ≡ bs
bytes-eq-list m p [] h = refl
bytes-eq-list m p (b ∷ bs) h =
    let e : p + 0 ≡ p = omega arith in
    rw (
      rw e at (h 0 b refl),
      bytes-eq-list m (p + 1) bs
          (λ i c g. let r : p + 1 + i ≡ p + suc i = omega arith in rw r (h (suc i) c g)),
    )

get_elem?-past {ℓ} : {A : Type ℓ} (xs : List A) (i : ℕ) → length xs ≤ i → get_elem? xs i ≡ none
get_elem?-past [] i h = refl
get_elem?-past (x ∷ xs) zero h = absurd (omega arith)
get_elem?-past (x ∷ xs) (suc i) h = get_elem?-past xs i (omega arith)

module _ (m : Mem) (p : Ptr) (bs : List ℕ) where
  memmove_inside : (i b : ℕ) → get_elem? bs i ≡ some b → memmove m p bs (p + i) ≡ b
  unfolding memmove
  memmove_inside i b g =
      let e : p + i - p ≡ i = omega arith in rw (ltb-false (p + i) p (omega arith), memmove, e, g)

  pub memmove_before : (q : Ptr) → q < p → memmove m p bs q ≡ m q
  unfolding memmove
  memmove_before q h = rw (lt→ltb q p h)

  pub memmove_behind : (q : Ptr) → p + length bs ≤ q → memmove m p bs q ≡ m q
  unfolding memmove
  memmove_behind q h =
      rw (ltb-false q p (omega arith), memmove, get_elem?-past bs (q - p) (omega arith))

-- The written bytes, and those in front of them and behind them.
module _ (m : Mem) (p : Ptr) (bs : List ℕ) where
  pub bytes-memmove : bytes (memmove m p bs) p (length bs) ≡ bs
  bytes-memmove = bytes-eq-list (memmove m p bs) p bs (memmove_inside m p bs)

  pub bytes-memmove_before :
      (q : Ptr) (n : ℕ) → q + n ≤ p → bytes (memmove m p bs) q n ≡ bytes m q n
  bytes-memmove_before q n h =
      bytes-Agree (memmove m p bs) m q n (λ i hi. memmove_before m p bs (q + i) (omega arith))

  pub bytes-memmove_behind :
      (q : Ptr) (n : ℕ) → p + length bs ≤ q → bytes (memmove m p bs) q n ≡ bytes m q n
  bytes-memmove_behind q n h =
      bytes-Agree (memmove m p bs) m q n (λ i hi. memmove_behind m p bs (q + i) (omega arith))
