-- ===== src/Codec/Text/RoundTrip.antt =====
-- common.cc: the format's own description of IDENT, ASCII, OBNAME and OBJREF, for their parsers.
use dlis_parser.Base.{
  ℕ, ◌+◌, ◌-◌, ◌^◌, ◌≤◌, ◌<◌, ◌≡◌, ◌≢◌, some, arith, List, ◌∷◌, ◌++◌, length, length-append,
}
use dlis_parser.Base.Int.{pos}
use dlis_parser.Codec.Memory.{Ptr, null, Mem, Holds, Holds-append, SizedStr}
use dlis_parser.Codec.Number.RoundTrip.{uvari_bytes, parse_uvari-uvari_bytes, length-uvari_bytes}
use dlis_parser.Codec.Text.{Obname, parse_ident, parse_ascii, parse_obname, parse_objref}

abbrev pub ident_bytes : List ℕ → List ℕ
ident_bytes s = length s ∷ s

abbrev pub ascii_bytes : List ℕ → List ℕ
ascii_bytes s = uvari_bytes (length s) ++ s

abbrev pub obname_bytes : ℕ → ℕ → List ℕ → List ℕ
obname_bytes origin copy s = uvari_bytes origin ++ (copy ∷ ident_bytes s)

abbrev pub objref_bytes : List ℕ → ℕ → ℕ → List ℕ → List ℕ
objref_bytes type origin copy s = ident_bytes type ++ obname_bytes origin copy s

-- The string that lies at `p`.
abbrev pub str_at : Ptr → List ℕ → SizedStr
str_at p s = record { buff = p; len = pos (length s) }

-- The name as it lies behind `p`, with the text at the end.
abbrev pub obname_at : Ptr → ℕ → ℕ → List ℕ → Obname
obname_at p origin copy s = record {
  origin = origin;
  copy_number = copy;
  name = str_at (p + length (uvari_bytes origin) + 1 + 1) s;
}

module _ (m : Mem) (p : Ptr) (n : ℕ) (valid : p ≢ null) where
  pub parse_ident-ident_bytes :
      (s : List ℕ)
      → length (ident_bytes s) ≤ n
      → Holds m p (ident_bytes s)
      → parse_ident m p n ≡ some (length (ident_bytes s), str_at (p + 1) s)
  unfolding parse_ident
  parse_ident-ident_bytes s room here = ground arith

  pub parse_ascii-ascii_bytes :
      (s : List ℕ)
      → length s < 2 ^ 30
      → length (ascii_bytes s) ≤ n
      → Holds m p (ascii_bytes s)
      → parse_ascii m p n
        ≡ some (length (ascii_bytes s), str_at (p + length (uvari_bytes (length s))) s)
  unfolding parse_ascii
  parse_ascii-ascii_bytes s small room here =
      let (number, rest) = Holds-append m p (uvari_bytes (length s)) s here in
      let sum = length-append (uvari_bytes (length s)) s in
      let e = parse_uvari-uvari_bytes m p (length s) n valid small (omega arith) number in
      ground (arith, length-uvari_bytes (length s))

module _ (m : Mem) (p : Ptr) (n : ℕ) (valid : p ≢ null) where
  pub parse_obname-obname_bytes :
      (origin copy : ℕ) (s : List ℕ)
      → origin < 2 ^ 30
      → length (obname_bytes origin copy s) ≤ n
      → Holds m p (obname_bytes origin copy s)
      → parse_obname m p n ≡ some (length (obname_bytes origin copy s), obname_at p origin copy s)
  unfolding parse_obname
  parse_obname-obname_bytes origin copy s small room here =
      let k : ℕ = length (uvari_bytes origin) in
      let (number, rest) = Holds-append m p (uvari_bytes origin) (copy ∷ ident_bytes s) here in
      let sum = length-append (uvari_bytes origin) (copy ∷ ident_bytes s) in
      let e = parse_uvari-uvari_bytes m p origin n valid small (omega arith) number in
      let i =
        parse_ident-ident_bytes m (p + k + 1) (n - k - 1) (λ z. valid (omega arith)) s (omega arith)
          rest.1 in
      ground arith

module _ (m : Mem) (p : Ptr) (n : ℕ) (valid : p ≢ null) where
  pub parse_objref-objref_bytes :
      (type : List ℕ) (origin copy : ℕ) (s : List ℕ)
      → origin < 2 ^ 30
      → length (objref_bytes type origin copy s) ≤ n
      → Holds m p (objref_bytes type origin copy s)
      → parse_objref m p n
        ≡ some (
          length (objref_bytes type origin copy s),
          record {
            type = str_at (p + 1) type;
            name = obname_at (p + length (ident_bytes type)) origin copy s;
          },
        )
  unfolding parse_objref
  parse_objref-objref_bytes type origin copy s small room here =
      let k : ℕ = length (ident_bytes type) in
      let (front, rest) = Holds-append m p (ident_bytes type) (obname_bytes origin copy s) here in
      let sum = length-append (ident_bytes type) (obname_bytes origin copy s) in
      let e = parse_ident-ident_bytes m p n valid type (omega arith) front in
      let i =
        parse_obname-obname_bytes m (p + k) (n - k) (λ z. valid (omega arith)) origin copy s small
          (omega arith) rest in
      rw (e, i) (ground arith)
