-- ===== src/Codec/Value/RoundTrip.antt =====
-- common.cc, parse_value: the names and texts of the format.
use dlis_parser.Base.{
  zero, suc, ◌%◌, ◌/◌, ◌++◌, [], take, drop, ap, refl, ◌∙◌, ℕ, ◌+◌, ◌^◌, ◌≤◌, ◌<◌, ◌≡◌, ◌≢◌, some,
  arith, List, ◌∷◌, length, map, length-append,
}
use dlis_parser.Base.Int.{pos}
use dlis_parser.Codec.Memory.{Ptr, null, Mem, Holds, Holds-append, Holds-bytes, bytes}
use dlis_parser.Codec.Number.RoundTrip.{uvari_bytes, length-uvari_bytes}
use dlis_parser.Codec.Text.RoundTrip.{
  ident_bytes, ascii_bytes, obname_bytes, objref_bytes, obname_at, parse_ascii-ascii_bytes,
  parse_obname-obname_bytes, parse_objref-objref_bytes,
}
use dlis_parser.Codec.Value.{
  ok, Value, lstr, RawByte, address, le32, obname_val, objref_val, byte, overlay, name_image,
  pack_lstr, pack_obname, pack_objref, packed, packed_str, parse_member, parse_code, parse_value,
  repcode_size,
}

-- The bytes of the text inside the encoding of a name.
obname_text :
    (m : Mem) (p : Ptr) (origin copy : ℕ) (s : List ℕ)
    → Holds m p (obname_bytes origin copy s)
    → bytes m (p + length (uvari_bytes origin) + 1 + 1) (length s) ≡ s
obname_text m p origin copy s here =
    let (number, rest) = Holds-append m p (uvari_bytes origin) (copy ∷ ident_bytes s) here in
    Holds-bytes m (p + length (uvari_bytes origin) + 1 + 1) s rest.1.1

-- A number in k bytes, the lowest first.
abbrev pub little_endian : ℕ → ℕ → List RawByte
little_endian zero v = []
little_endian (suc k) v = byte (v % 256) ∷ little_endian k (v / 256)

-- The fields of a name as they lie in memory: origin and copy number, four bytes each, eight bytes
-- of an address, and the length of the text in four.
abbrev pub name_fields_bytes : ℕ → ℕ → ℕ → List RawByte
name_fields_bytes origin copy n =
    little_endian 4 origin
    ++ (little_endian 4 copy
        ++ (map address (0 ∷ 1 ∷ 2 ∷ 3 ∷ 4 ∷ 5 ∷ 6 ∷ 7 ∷ []) ++ little_endian 4 n))

-- A text with its beginning replaced, and no longer than it was.
abbrev pub overwritten : List RawByte → List ℕ → List RawByte
overwritten front s = take (length s) front ++ drop (length front) (map byte s)

overlay-take_drop : (hs : List RawByte) (s : List ℕ) → overlay hs (map byte s) ≡ overwritten hs s
unfolding overlay
overlay-take_drop [] [] = refl
overlay-take_drop [] (c ∷ cs) = refl
overlay-take_drop (h ∷ hs) [] = refl
overlay-take_drop (h ∷ hs) (c ∷ cs) = ap (λ bs. h ∷ bs) (overlay-take_drop hs cs)

le32-little_endian : (v : ℕ) → le32 v ≡ little_endian 4 v
unfolding le32
le32-little_endian v =
    let second : v / 65536 % 256 ≡ v / 256 / 256 % 256 = omega arith in
    let third : v / 16777216 % 256 ≡ v / 256 / 256 / 256 % 256 = omega arith in
    rw (second, third) refl

name_image-fields :
    (p : Ptr) (origin copy : ℕ) (s : List ℕ)
    → name_image (obname_at p origin copy s) ≡ name_fields_bytes origin copy (length s)
unfolding name_image
name_image-fields p origin copy s =
    let n : ℕ = length s in
    let address_bytes : List RawByte = map address (0 ∷ 1 ∷ 2 ∷ 3 ∷ 4 ∷ 5 ∷ 6 ∷ 7 ∷ []) in
    ap (λ bs. bs ++ (le32 copy ++ (address_bytes ++ le32 n))) (le32-little_endian origin)
    ∙ ap (λ bs. little_endian 4 origin ++ (bs ++ (address_bytes ++ le32 n)))
        (le32-little_endian copy)
    ∙ ap (λ bs. little_endian 4 origin ++ (little_endian 4 copy ++ (address_bytes ++ bs)))
        (le32-little_endian n)

overlay-overwritten :
    (p : Ptr) (origin copy : ℕ) (s type : List ℕ)
    → overlay (name_image (obname_at p origin copy s)) (map byte type)
      ≡ overwritten (name_fields_bytes origin copy (length s)) type
overlay-overwritten p origin copy s type =
    ap (λ bs. overlay bs (map byte type)) (name_image-fields p origin copy s)
    ∙ overlay-take_drop (name_fields_bytes origin copy (length s)) type

module _ (m : Mem) (p : Ptr) (n : ℕ) (valid : p ≢ null) (v : Value) where
  -- The encoding of an ASCII text (code 20) of at most 4080 bytes, in memory that is not at NULL
  -- and among the n bytes, is taken whole and gives a value of code 19 with the same text.
  pub parse_value-ascii_bytes :
      (s : List ℕ)
      → length s ≤ 4080
      → length (ascii_bytes s) ≤ n
      → Holds m p (ascii_bytes s)
      → parse_value m p n (pos 20) v
        ≡ ok (some (length (ascii_bytes s)), record { repcode = pos 19; u = lstr s })
  unfolding parse_value parse_code repcode_size parse_member packed_str pack_lstr
  parse_value-ascii_bytes s small room here =
      let e = parse_ascii-ascii_bytes m p n valid s (omega arith) room here in
      let (number, rest) = Holds-append m p (uvari_bytes (length s)) s here in
      let t = Holds-bytes m (p + length (uvari_bytes (length s))) s rest in
      ground (arith, length-append (uvari_bytes (length s)) s, length-uvari_bytes (length s))

  -- The encoding of an OBNAME (code 23) with an origin below 2^30 and a text of at most 255
  -- bytes, in memory that is not at NULL and among the n bytes, is taken whole and gives a value
  -- with the same origin, copy number and text.
  pub parse_value-obname_bytes :
      (origin copy : ℕ) (s : List ℕ)
      → origin < 2 ^ 30
      → length s < 256
      → length (obname_bytes origin copy s) ≤ n
      → Holds m p (obname_bytes origin copy s)
      → parse_value m p n (pos 23) v
        ≡ ok (
          some (length (obname_bytes origin copy s)),
          record {
            repcode = pos 23;
            u = obname_val (record { origin = origin; copy_number = copy; name = s });
          },
        )
  unfolding parse_value parse_code repcode_size parse_member packed pack_obname
  parse_value-obname_bytes origin copy s small short room here =
      let e = parse_obname-obname_bytes m p n valid origin copy s small room here in
      let t = obname_text m p origin copy s here in
      let sum = length-append (uvari_bytes origin) (copy ∷ ident_bytes s) in ground arith

  -- The encoding of an OBJREF (code 24) with an origin below 2^30 and texts of at most 255 bytes,
  -- in memory that is not at NULL and among the n bytes, is taken whole. The value has the name,
  -- but its type is the text overwritten from the front, as far as it goes, by the fields of the
  -- name: origin and copy number in four bytes each, the lowest first, eight bytes of an address,
  -- and the length of the text in four.
  pub parse_value-objref_bytes :
      (type : List ℕ) (origin copy : ℕ) (s : List ℕ)
      → origin < 2 ^ 30
      → length type < 256
      → length s < 256
      → length (objref_bytes type origin copy s) ≤ n
      → Holds m p (objref_bytes type origin copy s)
      → parse_value m p n (pos 24) v
        ≡ ok (
          some (length (objref_bytes type origin copy s)),
          record {
            repcode = pos 24;
            u =
                objref_val
                  (overwritten (name_fields_bytes origin copy (length s)) type)
                  (record { origin = origin; copy_number = copy; name = s });
          },
        )
  unfolding parse_value parse_code repcode_size parse_member packed pack_objref
  parse_value-objref_bytes type origin copy s small short_type short room here =
      let e = parse_objref-objref_bytes m p n valid type origin copy s small room here in
      let (front, rest) = Holds-append m p (ident_bytes type) (obname_bytes origin copy s) here in
      let t = obname_text m (p + length (ident_bytes type)) origin copy s rest in
      let u = Holds-bytes m (p + 1) type front.1 in
      let sum = length-append (ident_bytes type) (obname_bytes origin copy s) in
      let image : overlay (name_image (obname_at (p + length (ident_bytes type)) origin copy s))
            (map byte type)
          ≡ overwritten (name_fields_bytes origin copy (length s)) type =
        overlay-overwritten (p + length (ident_bytes type)) origin copy s type in
      ground arith
