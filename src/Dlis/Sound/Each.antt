-- ===== src/Dlis/Sound/Each.antt =====
-- Outcomes whose result, where there is one, has a property.
use dlis_parser.Base.{Bool, true, false, if◌then◌else◌, Option, none, some, ◌≡◌, refl}
use dlis_parser.Codec.Value.{Outcome, ok, exit, fault, hang, ◌>>=◌}

abbrev pub Each : {A : Type 0} → (A → Type 0) → Outcome A → Type 0
Each P (ok a) = P a
Each P exit = Unit
Each P fault = Unit
Each P hang = Unit

module _ {B : Type 0} (P : B → Type 0) where
  pub bind-Each :
      {A : Type 0} (r : Outcome A) (k : A → Outcome B)
      → ((a : A) → r ≡ ok a → Each P (k a))
      → Each P (r >>= k)
  bind-Each (ok a) k each = each a refl
  bind-Each exit k each = tt
  bind-Each fault k each = tt
  bind-Each hang k each = tt

  pub if-Each : (t : Bool) (x y : Outcome B) → Each P x → Each P y → Each P (if t then x else y)
  if-Each true x y ex ey = ex
  if-Each false x y ex ey = ey

  -- With the test known to fail on the second branch.
  pub if_not-Each :
      (t : Bool) (x y : Outcome B) → Each P x → (t ≡ false → Each P y) → Each P (if t then x else y)
  if_not-Each true x y ex ey = ex
  if_not-Each false x y ex ey = ey refl

  pub found-Each :
      {A : Type 0} (o : Option A) (x : Outcome B) (k : A → Outcome B)
      → Each P x
      → ((a : A) → o ≡ some a → Each P (k a))
      → Each P (elim o [ none ↦ x | some a ↦ k a ])
  found-Each none x k ex each = ex
  found-Each (some a) x k ex each = each a refl

module _ {A : Type 0} (P : A → Type 0) where
  -- What comes first has P, and what follows turns P into R.
  pub then-Each :
      {B : Type 0} (R : B → Type 0) (r : Outcome A) (k : A → Outcome B)
      → Each P r
      → ((a : A) → P a → Each R (k a))
      → Each R (r >>= k)
  then-Each R (ok a) k first each = each a first
  then-Each R exit k first each = tt
  then-Each R fault k first each = tt
  then-Each R hang k first each = tt

pub Each-ok : {A : Type 0} (P : A → Type 0) (r : Outcome A) (a : A) → Each P r → r ≡ ok a → P a
Each-ok P r a each e = rw e at each
