-- ===== src/Codec/Outcome.antt =====
-- common.cc and dlis.cc: what a call leads to, exit(-1) included.
use dlis_parser.Base.{◌≡◌, refl}

-- What a call leads to: a result, `exit(-1)`, an access that C leaves undefined, or no return at all
-- from a loop over a list that goes round.
pub data Outcome {ℓ} (A : Type ℓ) : Type ℓ where
  ok : A → Outcome A
  exit : Outcome A
  fault : Outcome A
  hang : Outcome A

infixl 5 ◌>>=◌
abbrev pub ◌>>=◌ {ℓ κ} : {A : Type ℓ} {B : Type κ} → Outcome A → (A → Outcome B) → Outcome B
ok a >>= f = f a
exit >>= f = exit
fault >>= f = fault
hang >>= f = hang

-- A chain that has a result has one in its first part.
pub bind-ok :
    {A B : Type 0} (r : Outcome A) (k : A → Outcome B) (b : B)
    → (r >>= k) ≡ ok b
    → (a : A) × (r ≡ ok a) × (k a ≡ ok b)
bind-ok (ok a) k b e = (a, refl, e)
bind-ok exit k b e = cc
bind-ok fault k b e = cc
bind-ok hang k b e = cc
