-- ===== src/Codec/Number/Signed.antt =====
-- common.cc: the signed codes and two's complement.
use dlis_parser.Base.{ℕ, ◌-◌, ◌*◌, ◌<◌, ◌≡◌, ◌≢◌, arith, ap, some}
use dlis_parser.Base.Int.{ℤ, pos, negsuc, signed}
use dlis_parser.Codec.Memory.{Ptr, null, Mem, Holds}
use dlis_parser.Codec.Number.{parse_snorm, parse_slong}
use dlis_parser.Codec.Number.RoundTrip.{
  unorm_bytes, ulong_bytes, not_null, unorm_value, ulong_value,
}

-- The number below 2 * half that stands for an integer.
abbrev pub twos_complement : ℕ → ℤ → ℕ
twos_complement half (pos n) = n
twos_complement half (negsuc n) = 2 * half - n - 1

-- -half ≤ z < half
abbrev pub InRange : ℕ → ℤ → Type 0
InRange half (pos n) = n < half
InRange half (negsuc n) = n < half

signed-twos_complement :
    (half : ℕ) (z : ℤ) → InRange half z → signed half (twos_complement half z) ≡ z
signed-twos_complement half (pos n) range = ground arith
signed-twos_complement half (negsuc n) range = ground arith

twos_complement_bound : (half : ℕ) (z : ℤ) → InRange half z → twos_complement half z < 2 * half
twos_complement_bound half (pos n) range = omega (arith, range)
twos_complement_bound half (negsuc n) range = omega (arith, range)

module _ (m : Mem) (p : Ptr) (valid : p ≢ null) (z : ℤ) where
  -- An integer of 16 bits, in two bytes of two's complement at a place other than NULL, is read
  -- back by SNORM.
  pub parse_snorm-unorm_bytes :
      InRange 0x8000 z
      → Holds m p (unorm_bytes (twos_complement 0x8000 z))
      → parse_snorm m p ≡ some (2, z)
  unfolding parse_snorm
  parse_snorm-unorm_bytes range here =
      rw
        (
          not_null p valid,
          unorm_value m p (twos_complement 0x8000 z) (twos_complement_bound 0x8000 z range) here,
        )
        (ap (λ w. some (2, w)) (signed-twos_complement 0x8000 z range))

  -- An integer of 32 bits, in four bytes of two's complement at a place other than NULL, is read
  -- back by SLONG.
  pub parse_slong-ulong_bytes :
      InRange 0x8000_0000 z
      → Holds m p (ulong_bytes (twos_complement 0x8000_0000 z))
      → parse_slong m p ≡ some (4, z)
  unfolding parse_slong
  parse_slong-ulong_bytes range here =
      rw
        (
          not_null p valid,
          ulong_value m p (twos_complement 0x8000_0000 z)
              (twos_complement_bound 0x8000_0000 z range) here,
        )
        (ap (λ w. some (4, w)) (signed-twos_complement 0x8000_0000 z range))
