-- ===== src/Codec/Number.antt =====
-- common.cc: the numeric representation codes. Each parser returns the number of bytes read with
-- the value that it stores, or `none` where the C function returns -1 and stores nothing.
-- The host is little-endian, and `htons` and `htonl` are the C library's byte swaps on such a host.
pub mod Signed
pub mod Decode
pub mod RoundTrip
use dlis_parser.Base.{
  ℕ, ◌+◌, ◌-◌, ◌*◌, ◌/◌, ◌%◌, ◌^◌, bit_and, Option, none, some, ltb, ◌==◌, if◌then◌else◌, ◌>>=◌,
}
use dlis_parser.Base.Int.{ℤ, signed}
use dlis_parser.Codec.Memory.{Ptr, null, Mem}

-- The doubles that the program handles are stored, compared with constants and printed, never
-- computed: each is kept as what it was converted from. The pattern of a float or a double, or the
-- integer.
pub data Double : Type 0 where
  of_float : ℕ → Double
  of_double : ℕ → Double
  of_int : ℤ → Double
  of_uint : ℕ → Double

-- *(uint16_t *)p and *(uint32_t *)p
unfoldable pub load16 : Mem → Ptr → ℕ
load16 m p = m p + 256 * m (p + 1)

unfoldable pub load32 : Mem → Ptr → ℕ
load32 m p = m p + 256 * m (p + 1) + 65536 * m (p + 2) + 16777216 * m (p + 3)

unfoldable pub htons : ℕ → ℕ
htons v = v % 256 * 256 + v / 256 % 256

unfoldable pub htonl : ℕ → ℕ
htonl v = v % 256 * 16777216 + v / 256 % 256 * 65536 + v / 65536 % 256 * 256 + v / 16777216 % 256

unfoldable pub parse_ushort : Mem → Ptr → Option (ℕ × ℕ)
parse_ushort m buff = if buff == null then none else some (1, m buff)

unfoldable pub parse_unorm : Mem → Ptr → Option (ℕ × ℕ)
parse_unorm m buff = if buff == null then none else some (2, htons (load16 m buff))

unfoldable pub parse_ulong : Mem → Ptr → Option (ℕ × ℕ)
parse_ulong m buff = if buff == null then none else some (4, htonl (load32 m buff))

unfoldable pub parse_sshort : Mem → Ptr → Option (ℕ × ℤ)
parse_sshort m buff = if buff == null then none else some (1, signed 0x80 (m buff))

unfoldable pub parse_snorm : Mem → Ptr → Option (ℕ × ℤ)
parse_snorm m buff = if buff == null then none else some (2, signed 0x8000 (htons (load16 m buff)))

unfoldable pub parse_slong : Mem → Ptr → Option (ℕ × ℤ)
parse_slong m buff =
    if buff == null then none else some (4, signed 0x8000_0000 (htonl (load32 m buff)))

unfoldable pub parse_fsingl : Mem → Ptr → Option (ℕ × Double)
parse_fsingl m buff = if buff == null then none else some (4, of_float (htonl (load32 m buff)))

-- (temp << 32) + htonl(*second), on 64 bits
unfoldable pub parse_fdoubl : Mem → Ptr → Option (ℕ × Double)
parse_fdoubl m buff =
    let first = htonl (load32 m buff) in
    let second = htonl (load32 m (buff + 4)) in
    if buff == null then none else some (8, of_double ((first * 2 ^ 32 % 2 ^ 64 + second) % 2 ^ 64))

-- `buff_len` is an int; the guards treat a negative one like 0.
unfoldable pub parse_uvari : Mem → Ptr → ℕ → Option (ℕ × ℕ)
unfolding parse_ushort parse_unorm parse_ulong
parse_uvari m buff buff_len =
    if buff == null
    then none
    else if buff_len == 0
    then none
    else if bit_and (m buff) 0x80 == 0
    then (do (_, v) ← parse_ushort m buff; some (1, v))
    else if bit_and (m buff) 0x40 == 0
    then (if ltb buff_len 2
        then none
        else (do (_, tmp) ← parse_unorm m buff; some (2, (tmp + 2 ^ 32 - 0x8000) % 2 ^ 32)))
    else (if ltb buff_len 4
        then none
        else (do (_, tmp) ← parse_ulong m buff; some (4, (tmp + 2 ^ 32 - 0xC000_0000) % 2 ^ 32)))
