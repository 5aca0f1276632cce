-- ===== src/Codec/Number/RoundTrip.antt =====
-- common.cc: the format's own description of UNORM, ULONG and UVARI, for their parsers.
use dlis_parser.Base.{
  ℕ, ◌+◌, ◌*◌, ◌/◌, ◌%◌, ◌^◌, ◌≤◌, ◌<◌, ◌≡◌, ◌≢◌, some, arith, List, [], ◌∷◌, length, ltb,
  if◌then◌else◌, inl, inr, false, ◌==◌, Bool-cases,
}
use dlis_parser.Base.Bits.{bit_and_0x80, bit_and_0x40}
use dlis_parser.Codec.Memory.{Ptr, null, Mem, Holds}
use dlis_parser.Codec.Number.{load16, load32, htons, htonl, parse_unorm, parse_ulong, parse_uvari}

-- Two and four bytes, the highest first.
abbrev pub unorm_bytes : ℕ → List ℕ
unorm_bytes v = v / 256 ∷ v % 256 ∷ []

abbrev pub ulong_bytes : ℕ → List ℕ
ulong_bytes v = v / 2 ^ 24 ∷ v / 2 ^ 16 % 256 ∷ v / 2 ^ 8 % 256 ∷ v % 256 ∷ []

-- One, two or four bytes; the top bits of the first tell which.
unfoldable pub uvari_bytes : ℕ → List ℕ
uvari_bytes v =
    if ltb v 0x80
    then v ∷ []
    else if ltb v 0x4000
    then unorm_bytes (v + 0x8000)
    else ulong_bytes (v + 0xC000_0000)

module _ (m : Mem) (p : Ptr) where
  load16-Holds : (a b : ℕ) → Holds m p (a ∷ b ∷ []) → load16 m p ≡ a + 256 * b
  unfolding load16
  load16-Holds a b here = omega (arith, here.0, here.1.0)

  load32-Holds :
      (a b c d : ℕ)
      → Holds m p (a ∷ b ∷ c ∷ d ∷ [])
      → load32 m p ≡ a + 256 * b + 65536 * c + 16777216 * d
  unfolding load32
  load32-Holds a b c d here =
      let two : p + 1 + 1 ≡ p + 2 = omega arith in
      let three : p + 1 + 1 + 1 ≡ p + 3 = omega arith in
      let at_two : m (p + 2) ≡ c = rw two at here.1.1.0 in
      let at_three : m (p + 3) ≡ d = rw three at here.1.1.1.0 in omega (arith, here.0, here.1.0)

swap16 : (v : ℕ) → v < 2 ^ 16 → htons (v / 256 + 256 * (v % 256)) ≡ v
unfolding htons
swap16 v small = omega arith

swap32 :
    (v : ℕ)
    → v < 2 ^ 32
    → htonl
        (v / 2 ^ 24 + 256 * (v / 2 ^ 16 % 256) + 65536 * (v / 2 ^ 8 % 256) + 16777216 * (v % 256))
      ≡ v
unfolding htonl
swap32 v small = omega arith

pub not_null : (p : Ptr) → p ≢ null → (p == null) ≡ false
not_null p h = ground arith

pub unorm_value :
    (m : Mem) (p : Ptr) (v : ℕ) → v < 2 ^ 16 → Holds m p (unorm_bytes v) → htons (load16 m p) ≡ v
unorm_value m p v small here = rw (load16-Holds m p _ _ here) (swap16 v small)

pub ulong_value :
    (m : Mem) (p : Ptr) (v : ℕ) → v < 2 ^ 32 → Holds m p (ulong_bytes v) → htonl (load32 m p) ≡ v
ulong_value m p v small here = rw (load32-Holds m p _ _ _ _ here) (swap32 v small)

module _ (m : Mem) (p : Ptr) (valid : p ≢ null) where
  pub parse_unorm-unorm_bytes :
      (v : ℕ) → v < 2 ^ 16 → Holds m p (unorm_bytes v) → parse_unorm m p ≡ some (2, v)
  unfolding parse_unorm
  parse_unorm-unorm_bytes v small here = rw (not_null p valid, unorm_value m p v small here)

  pub parse_ulong-ulong_bytes :
      (v : ℕ) → v < 2 ^ 32 → Holds m p (ulong_bytes v) → parse_ulong m p ≡ some (4, v)
  unfolding parse_ulong
  parse_ulong-ulong_bytes v small here = rw (not_null p valid, ulong_value m p v small here)

  one_byte : (v n : ℕ) → v < 0x80 → 1 ≤ n → m p ≡ v → parse_uvari m p n ≡ some (1, v)
  unfolding parse_uvari
  one_byte v n small room here = ground (arith, bit_and_0x80 (m p))

  two_bytes :
      (v n : ℕ)
      → v < 0x4000
      → 2 ≤ n
      → Holds m p (unorm_bytes (v + 0x8000))
      → parse_uvari m p n ≡ some (2, v)
  unfolding parse_uvari
  two_bytes v n small room here = ground (
    arith,
    bit_and_0x80 (m p),
    bit_and_0x40 (m p),
    unorm_value m p (v + 0x8000) (omega arith) here,
  )

  four_bytes :
      (v n : ℕ)
      → v < 2 ^ 30
      → 4 ≤ n
      → Holds m p (ulong_bytes (v + 0xC000_0000))
      → parse_uvari m p n ≡ some (4, v)
  unfolding parse_uvari
  four_bytes v n small room here = ground (
    arith,
    bit_and_0x80 (m p),
    bit_and_0x40 (m p),
    ulong_value m p (v + 0xC000_0000) (omega arith) here,
  )

-- A number below 2^30, in its one, two or four bytes at a place other than NULL and among the n
-- bytes, is read back with its length, whatever follows it.
pub parse_uvari-uvari_bytes :
    (m : Mem) (p : Ptr) (v n : ℕ)
    → p ≢ null
    → v < 2 ^ 30
    → length (uvari_bytes v) ≤ n
    → Holds m p (uvari_bytes v)
    → parse_uvari m p n ≡ some (length (uvari_bytes v), v)
unfolding uvari_bytes
parse_uvari-uvari_bytes m p v n valid small room here = elim (Bool-cases (ltb v 0x80)) [
  | inl one ↦ rw one (one_byte m p valid v n (ground arith) (ground arith) (ground arith))
  | inr more ↦ elim (Bool-cases (ltb v 0x4000)) [
    | inl two ↦
        rw (more, two)
          (two_bytes m p valid v n (ground arith) (ground arith) (rw (more, two) at here))
    | inr four ↦
        rw (more, four) (four_bytes m p valid v n small (ground arith) (rw (more, four) at here))
  ]
]

pub length-uvari_bytes : (v : ℕ) → (1 ≤ length (uvari_bytes v)) × (length (uvari_bytes v) ≤ 4)
unfolding uvari_bytes
length-uvari_bytes v = ground arith
