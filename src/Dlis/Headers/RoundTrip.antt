-- ===== src/Dlis/Headers/RoundTrip.antt =====
-- dlis.cc, parse_vr_header and parse_lrs_header: headers as bytes.
use dlis_parser.Base.{
  ◌||◌, ◌/◌, ◌%◌, ltb, ℕ, suc, ◌+◌, ◌<◌, ◌≤◌, ◌≡◌, ◌≢◌, false, some, arith, List, [], ◌∷◌, ◌==◌,
}
use dlis_parser.Base.Int.{pos, pos_part, sub_ℕ, ltb_ℤ}
use dlis_parser.Codec.Memory.{Ptr, Mem, Holds, null}
use dlis_parser.Codec.Number.{parse_unorm, parse_ushort}
use dlis_parser.Codec.Number.RoundTrip.{unorm_bytes, parse_unorm-unorm_bytes}
use dlis_parser.Codec.Value.{
  ok, Value, unset, uint_val, value_invalidate, parse_value, parse_code, parse_member, repcode_size,
  stored,
}
use dlis_parser.Codec.Serialize.{as_uint}
use dlis_parser.Dlis.State.{Dlis, here, avail}
use dlis_parser.Dlis.Headers.{
  LrsHeader, lrs_fields, parse_lrs_header, parse_vr_header, vr_fields, vr_marker, skip_blocks,
  restore_unparsed,
}

-- The length, the attributes and the type of a segment.
abbrev pub lrs_header_bytes : LrsHeader → List ℕ
lrs_header_bytes h = h.lrs_len / 256 ∷ h.lrs_len % 256 ∷ h.lrs_attr ∷ h.lrs_type ∷ []

no_blocks : (d : Dlis) → d.n_type ≡ false → skip_blocks (suc d.max_byte_idx) d 0 ≡ some 0
unfolding skip_blocks
no_blocks d plain = rw plain

module _ (d : Dlis) where
  at_front : here d 0 ≢ null
  at_front e = omega (arith, e)

  second : here d 0 + 1 + 1 ≡ here d 2
  second = omega arith

  third : here d 0 + 1 + 1 + 1 ≡ here d 3
  third = omega arith

  third_valid : here d 3 == null ≡ false
  third_valid = ground arith

  lrs_fields-lrs_header_bytes :
      (h : LrsHeader)
      → h.lrs_len < 65536
      → Holds d.buffer (here d 0) (lrs_header_bytes h)
      → lrs_fields d ≡ h
  unfolding lrs_fields parse_ushort
  lrs_fields-lrs_header_bytes h small held =
      let len : parse_unorm d.buffer (here d 0) ≡ some (2, h.lrs_len) =
        parse_unorm-unorm_bytes d.buffer (here d 0) at_front h.lrs_len small
          (held.0, (held.1.0, tt)) in
      let attr : d.buffer (here d 2) ≡ h.lrs_attr = rw second at (held.1.1.0) in
      let type : d.buffer (here d 3) ≡ h.lrs_type = rw third at (held.1.1.1.0) in
      rw (len, attr, third_valid, type)

  enough_left : d.byte_idx + 4 ≤ d.max_byte_idx → ltb_ℤ (avail d) (pos 4) ≡ false
  enough_left room = ground arith

-- If nothing is carried over, the four bytes of a segment header, once they have come in, give
-- its length, below 65536, its attributes and its type, and the state is left alone.
pub parse_lrs_header-lrs_header_bytes :
    (d : Dlis) (h : LrsHeader)
    → h.lrs_len < 65536
    → d.state.unparsed_buff_len ≡ 0
    → d.byte_idx + 4 ≤ d.max_byte_idx
    → Holds d.buffer (here d 0) (lrs_header_bytes h)
    → parse_lrs_header d ≡ ok (some (4, h), d)
unfolding parse_lrs_header restore_unparsed
parse_lrs_header-lrs_header_bytes d h small empty room held =
    rw (enough_left d room, empty, lrs_fields-lrs_header_bytes d h small held)

-- The length, the marker and the version of a visible record.
abbrev pub vr_header_bytes : ℕ → ℕ → List ℕ
vr_header_bytes vr_len version = vr_len / 256 ∷ vr_len % 256 ∷ 0xFF ∷ version ∷ []

abbrev unorm_val : ℕ → Value
unorm_val x = record { repcode = pos 16; u = uint_val x }

parse_value-unorm_bytes :
    (m : Mem) (p : Ptr) (n : ℕ) (v : Value) (x : ℕ)
    → p ≢ null
    → 2 ≤ n
    → x < 65536
    → Holds m p (unorm_bytes x)
    → parse_value m p n (pos 16) v ≡ ok (some 2, unorm_val x)
unfolding parse_value parse_code repcode_size parse_member stored
parse_value-unorm_bytes m p n v x valid room small held =
    let e : parse_unorm m p ≡ some (2, x) = parse_unorm-unorm_bytes m p valid x small held in
    let enough : (n == 0 || ltb n 2) ≡ false = ground arith in rw (enough, e)

module _ (d : Dlis) (vr_len version : ℕ) (small : vr_len < 65536)
    (room : d.byte_idx + 4 ≤ d.max_byte_idx)
    (held : Holds d.buffer (here d 0) (vr_header_bytes vr_len version)) where
  left_enough : ltb_ℤ (sub_ℕ d.max_byte_idx (d.byte_idx + 0)) (pos 4) ≡ false
  left_enough = ground arith

  left_two : 2 ≤ pos_part (sub_ℕ d.max_byte_idx (d.byte_idx + 0))
  left_two = ground arith

  vr_marker-vr_header_bytes : vr_marker d 0 vr_len (some 2) ≡ some (4, vr_len, version)
  unfolding vr_marker
  vr_marker-vr_header_bytes =
      let marker : d.buffer (here d 2) ≡ 0xFF = rw (second d) at (held.1.1.0) in
      let ver : d.buffer (here d 3) ≡ version = rw (third d) at (held.1.1.1.0) in rw (marker, ver)

  vr_fields-vr_header_bytes : vr_fields d 0 ≡ ok (some (4, vr_len, version))
  unfolding vr_fields as_uint
  vr_fields-vr_header_bytes = rw (
    left_enough,
    parse_value-unorm_bytes d.buffer (here d 0) (pos_part (sub_ℕ d.max_byte_idx (d.byte_idx + 0)))
        (value_invalidate (record { repcode = pos 0; u = unset })) vr_len (at_front d) left_two
        small (held.0, (held.1.0, tt)),
    vr_marker-vr_header_bytes,
  )

-- In a file without blocks of twelve bytes, the four bytes of the header of a visible record,
-- once they have come in, give its length, below 65536, and its version.
pub parse_vr_header-vr_header_bytes :
    (d : Dlis) (vr_len version : ℕ)
    → d.n_type ≡ false
    → vr_len < 65536
    → d.byte_idx + 4 ≤ d.max_byte_idx
    → Holds d.buffer (here d 0) (vr_header_bytes vr_len version)
    → parse_vr_header d ≡ ok (some (4, vr_len, version))
unfolding parse_vr_header
parse_vr_header-vr_header_bytes d vr_len version plain small room held =
    rw (
      no_blocks d plain,
      parse_vr_header,
      vr_fields-vr_header_bytes d vr_len version small room held,
    )
