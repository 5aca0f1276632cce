-- ===== src/Codec/Memory.antt =====
-- Memory as the functions of common.cc see it: bytes behind a pointer, and the strings that the
-- parser keeps as a pointer and a length (common.h).
use dlis_parser.Base.{
  ℕ, zero, suc, ◌+◌, ◌-◌, ◌≤◌, ◌<◌, ◌≡◌, refl, ap, arith, List, [], ◌∷◌, ◌++◌, length,
}
use dlis_parser.Base.Int.{ℤ, pos_part}

-- A pointer is an address; 0 is NULL.
abbrev pub Ptr : Type 0
Ptr = ℕ

abbrev pub null : Ptr
null = 0

abbrev pub Mem : Type 0
Mem = Ptr → ℕ

-- Every cell holds an unsigned char.
abbrev pub IsBytes : Mem → Type 0
IsBytes m = (p : Ptr) → m p < 256

-- The n bytes from p on.
abbrev pub bytes : Mem → Ptr → ℕ → List ℕ
bytes m p zero = []
bytes m p (suc n) = m p ∷ bytes m (p + 1) n

pub record SizedStr : Type 0 where
  pub buff : Ptr
  pub len : ℤ

abbrev pub text : Mem → SizedStr → List ℕ
text m s = bytes m s.buff (pos_part s.len)

-- The memory holds the list `bs` from `p` on.
abbrev pub Holds : Mem → Ptr → List ℕ → Type 0
Holds m p [] = Unit
Holds m p (b ∷ bs) = (m p ≡ b) × Holds m (p + 1) bs

-- Two memories agree on the n bytes from p on.
abbrev pub Agree : Mem → Mem → Ptr → ℕ → Type 0
Agree m m' p n = (i : ℕ) → i < n → m (p + i) ≡ m' (p + i)

pub length-bytes : (m : Mem) (p : Ptr) (n : ℕ) → length (bytes m p n) ≡ n
length-bytes m p zero = refl
length-bytes m p (suc n) = ap suc (length-bytes m (p + 1) n)

module _ (m m' : Mem) (p : Ptr) (n : ℕ) (same : Agree m m' p n) where
  -- Any part of the range, at `q` and `k` bytes long.
  pub Agree-sub : (i k : ℕ) (q : Ptr) → q ≡ p + i → k ≤ n - i → Agree m m' q k
  Agree-sub i k q e h j hj =
      let r : q + j ≡ p + (i + j) = omega arith in rw r (same (i + j) (omega arith))

  pub Agree-at : (i : ℕ) → i < n → m (p + i) ≡ m' (p + i)
  Agree-at i h = same i h

  pub Agree-head : 0 < n → m p ≡ m' p
  Agree-head h = let e : p + 0 ≡ p = omega arith in rw e at (same 0 h)

-- The bytes read are those of the range.
pub bytes-Agree : (m m' : Mem) (p : Ptr) (n : ℕ) → Agree m m' p n → bytes m p n ≡ bytes m' p n
bytes-Agree m m' p zero same = refl
bytes-Agree m m' p (suc n) same = rw (
  Agree-head m m' p (suc n) same (omega arith),
  bytes-Agree m m' (p + 1) n (Agree-sub m m' p (suc n) same 1 n (p + 1) refl (omega arith)),
)

pub Holds-bytes : (m : Mem) (p : Ptr) (bs : List ℕ) → Holds m p bs → bytes m p (length bs) ≡ bs
Holds-bytes m p [] h = refl
Holds-bytes m p (b ∷ bs) h = rw (h.0, Holds-bytes m (p + 1) bs h.1)

pub Holds-append :
    (m : Mem) (p : Ptr) (bs cs : List ℕ)
    → Holds m p (bs ++ cs)
    → Holds m p bs × Holds m (p + length bs) cs
Holds-append m p [] cs h = let e : p + 0 ≡ p = omega arith in (tt, rw e h)
Holds-append m p (b ∷ bs) cs h =
    let (l, r) = Holds-append m (p + 1) bs cs h.1 in
    let e : p + suc (length bs) ≡ p + 1 + length bs = omega arith in ((h.0, l), rw e r)
