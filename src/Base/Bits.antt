-- ===== src/Base/Bits.antt =====
-- The masks that the decoders apply to one byte, as quotients and remainders. A mask and its
-- arithmetic are compared at each of the 256 bytes.
use Prim.Native.Nat.{ℕ, zero, suc, ◌*◌, ◌/◌, ◌%◌, ◌<◌, bit_and}
use mathlib.Core.Path.{◌≡◌, refl}
use mathlib.Core.Logic.{inl, inr}
use mathlib.Core.Bool.{Bool, true, false}
use native.Mathlib.Omega.{arith}
use dlis_parser.Base.Tests.{Bool-cases, ==_iff, ◌==◌, if◌then◌else◌}

differ : false ≡ true → ⊥
differ e = cc

module _ (mask value : ℕ → ℕ) where
  -- Do both give the same at all bytes under `bound`?
  same_under : ℕ → Bool
  same_under zero = true
  same_under (suc top) = if mask top == value top then same_under top else false

  same_under_lem : (bound : ℕ) → same_under bound ≡ true → (b : ℕ) → b < bound → mask b ≡ value b
  unfolding same_under
  same_under_lem zero table b small = absurd (omega (arith, small))
  same_under_lem (suc top) table b small = elim (Bool-cases (mask top == value top)) [
    | inr apart ↦ absurd (differ (rw (apart, same_under) at table))
    | inl equal ↦ elim (Bool-cases (b == top)) [
      | inl last ↦ rw ((==_iff b top).0 last) ((==_iff (mask top) (value top)).0 equal)
      | inr below ↦ same_under_lem top (rw (equal, same_under) at table) b (ground arith)
    ]
  ]

pub bit_and_0x80 : (b : ℕ) → b < 256 → bit_and b 0x80 ≡ b / 128 * 128
unfolding same_under
bit_and_0x80 = same_under_lem (λ b. bit_and b 0x80) (λ b. b / 128 * 128) 256 refl

pub bit_and_0x40 : (b : ℕ) → b < 256 → bit_and b 0x40 ≡ b / 64 % 2 * 64
unfolding same_under
bit_and_0x40 = same_under_lem (λ b. bit_and b 0x40) (λ b. b / 64 % 2 * 64) 256 refl
