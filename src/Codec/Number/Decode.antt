-- ===== src/Codec/Number/Decode.antt =====
-- What the numeric parsers read, in plain arithmetic, and how far they read.
use dlis_parser.Base.{ℕ, ◌+◌, ◌*◌, ◌^◌, ◌≤◌, ◌<◌, ◌≡◌, refl, some, arith}
use dlis_parser.Base.Bits.{bit_and_0x80, bit_and_0x40}
use dlis_parser.Codec.Memory.{Ptr, Mem, IsBytes, Agree, Agree-head, Agree-sub}
use dlis_parser.Codec.Number.{
  load16, load32, htons, htonl, parse_ushort, parse_unorm, parse_ulong, parse_uvari, parse_sshort,
  parse_snorm, parse_slong, parse_fsingl, parse_fdoubl,
}

module _ (m : Mem) (p : Ptr) (h : IsBytes m) where
  pub htons-load16 : htons (load16 m p) ≡ m p * 256 + m (p + 1)
  unfolding htons load16
  htons-load16 = omega (arith, h p, h (p + 1))

  pub htonl-load32 :
      htonl (load32 m p) ≡ m p * 2 ^ 24 + m (p + 1) * 2 ^ 16 + m (p + 2) * 2 ^ 8 + m (p + 3)
  unfolding htonl load32
  htonl-load32 = omega (arith, h p, h (p + 1), h (p + 2), h (p + 3))

  pub parse_uvari_bounds :
      (n k v : ℕ) → parse_uvari m p n ≡ some (k, v) → (1 ≤ k) × (k ≤ n) × (v < 2 ^ 30)
  unfolding parse_uvari
  parse_uvari_bounds n k v e = ground (
    arith,
    h p,
    h (p + 1),
    h (p + 2),
    h (p + 3),
    bit_and_0x80 (m p),
    bit_and_0x40 (m p),
    htons-load16,
    htonl-load32,
  )

-- Reads of numbers depend on their own bytes only.
module _ (m m' : Mem) (p : Ptr) where
  pub load16-Agree : Agree m m' p 2 → load16 m p ≡ load16 m' p
  unfolding load16
  load16-Agree same = ground (arith, Agree-head m m' p 2 same, same 1)

  pub load32-Agree : Agree m m' p 4 → load32 m p ≡ load32 m' p
  unfolding load32
  load32-Agree same = ground (arith, Agree-head m m' p 4 same, same 1, same 2, same 3)

  pub parse_uvari-Agree : (n : ℕ) → Agree m m' p n → parse_uvari m p n ≡ parse_uvari m' p n
  unfolding parse_uvari load16 load32
  parse_uvari-Agree n same = ground (arith, Agree-head m m' p n same, same 1, same 2, same 3)

-- Each numeric parser looks at its own bytes only.
module _ (m m' : Mem) (p : Ptr) (n : ℕ) (same : Agree m m' p n) where
  first : (k : ℕ) → k ≤ n → Agree m m' p k
  first k h i hi = same i (omega arith)

  pub parse_ushort-Agree : 1 ≤ n → parse_ushort m p ≡ parse_ushort m' p
  unfolding parse_ushort
  parse_ushort-Agree h = rw (Agree-head m m' p n same h)

  pub parse_sshort-Agree : 1 ≤ n → parse_sshort m p ≡ parse_sshort m' p
  unfolding parse_sshort
  parse_sshort-Agree h = rw (Agree-head m m' p n same h)

  pub parse_unorm-Agree : 2 ≤ n → parse_unorm m p ≡ parse_unorm m' p
  unfolding parse_unorm
  parse_unorm-Agree h = rw (load16-Agree m m' p (first 2 h))

  pub parse_snorm-Agree : 2 ≤ n → parse_snorm m p ≡ parse_snorm m' p
  unfolding parse_snorm
  parse_snorm-Agree h = rw (load16-Agree m m' p (first 2 h))

  pub parse_ulong-Agree : 4 ≤ n → parse_ulong m p ≡ parse_ulong m' p
  unfolding parse_ulong
  parse_ulong-Agree h = rw (load32-Agree m m' p (first 4 h))

  pub parse_slong-Agree : 4 ≤ n → parse_slong m p ≡ parse_slong m' p
  unfolding parse_slong
  parse_slong-Agree h = rw (load32-Agree m m' p (first 4 h))

  pub parse_fsingl-Agree : 4 ≤ n → parse_fsingl m p ≡ parse_fsingl m' p
  unfolding parse_fsingl
  parse_fsingl-Agree h = rw (load32-Agree m m' p (first 4 h))

  pub parse_fdoubl-Agree : 8 ≤ n → parse_fdoubl m p ≡ parse_fdoubl m' p
  unfolding parse_fdoubl
  parse_fdoubl-Agree h = rw (
    load32-Agree m m' p (first 4 (omega arith)),
    load32-Agree m m' (p + 4) (Agree-sub m m' p n same 4 4 _ refl (omega arith)),
  )
