-- ===== src/Dlis/Heap/Endless.antt =====
-- dlis.cc: the searches along the lists of channels, and their fuel.
use dlis_parser.Base.{
  ℕ, zero, suc, ◌+◌, ◌≡◌, ◌⊎◌, Bool, true, false, ◌==◌, Option, some, List, get_elem?,
  if◌then◌else◌,
}
use dlis_parser.Dlis.State.{Channel}

-- One more is marked.
abbrev mark : ℕ → (ℕ → Bool) → ℕ → Bool
mark i v k = if k == i then true else v k

-- How many numbers below n are not marked.
abbrev unmarked : ℕ → (ℕ → Bool) → ℕ
unmarked zero v = 0
unmarked (suc n) v = (if v n then 0 else 1) + unmarked n v

module _ (next : Channel → Option ℕ) (test : Channel → Bool) (heap : List Channel) where
  -- The search goes on from the channel i to the channel j.
  abbrev GoesOn : ℕ → ℕ → Type 0
  GoesOn i j = (c : Channel) × (get_elem? heap i ≡ some c) × (test c ≡ false) × (next c ≡ some j)

  -- The search does not leave the marked channels.
  record Closed (v : ℕ → Bool) : Type 0 where
    stays : (k : ℕ) → v k ≡ true → (j : ℕ) × GoesOn k j × (v j ≡ true)

  -- The channels that were met before the channel i lead to each other or to it.
  abbrev Before : (ℕ → Bool) → ℕ → Type 0
  Before v i = (k : ℕ) → v k ≡ true → (j : ℕ) × GoesOn k j × ((v j ≡ true) ⊎ (j ≡ i))
