-- ===== src/Base/Nat.antt =====
-- Sums of natural numbers.
use Prim.Native.Nat.{ℕ, suc, ◌+◌}
use mathlib.Core.Path.{◌≡◌}
use native.Mathlib.Omega.{arith}

pub add_zero : (n : ℕ) → n + 0 ≡ n
add_zero n = omega arith

pub suc-add : (m n : ℕ) → suc m + n ≡ suc (m + n)
suc-add m n = omega arith
