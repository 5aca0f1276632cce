-- ===== src/Codec/Text/Range.antt =====
-- common.cc: how many bytes the text parsers take, and which ones they read.
use dlis_parser.Base.{
  ℕ, ◌+◌, ◌-◌, ◌≤◌, ◌<◌, ◌≡◌, refl, some, arith, inl, inr, Bool-cases, false, Option-cases, ltb,
}
use dlis_parser.Base.Int.{pos, pos_part}
use dlis_parser.Codec.Memory.{
  Ptr, Mem, IsBytes, Agree, Agree-head, Agree-sub, SizedStr, bytes, bytes-Agree,
}
use dlis_parser.Codec.Number.{load16, parse_uvari}
use dlis_parser.Codec.Number.Decode.{parse_uvari_bounds, parse_uvari-Agree, load16-Agree}
use dlis_parser.Codec.Text.{
  Obname, Objref, Dtime, parse_ident, parse_ascii, parse_obname, parse_objref, parse_dtime,
}

-- A parsed text is inside the bytes taken, at their end.
abbrev pub EndsAt : Ptr → ℕ → SizedStr → Type 0
EndsAt p k s = (p ≤ s.buff) × (s.buff + pos_part s.len ≡ p + k)

module _ (m : Mem) (p : Ptr) (n : ℕ) where
  pub parse_ident_bounds :
      (k : ℕ) (s : SizedStr)
      → parse_ident m p n ≡ some (k, s)
      → (1 ≤ k) × (k ≤ n) × (s.len ≡ pos (k - 1)) × EndsAt p k s
  unfolding parse_ident
  parse_ident_bounds k s e = ground arith

  pub parse_dtime_bounds : (k : ℕ) (d : Dtime) → parse_dtime m p n ≡ some (k, d) → k ≤ n
  unfolding parse_dtime
  parse_dtime_bounds k d e = ground arith

  pub parse_ascii_bounds :
      IsBytes m
      → (k : ℕ) (s : SizedStr) → parse_ascii m p n ≡ some (k, s)
      → (1 ≤ k) × (k ≤ n) × EndsAt p k s
  unfolding parse_ascii
  parse_ascii_bounds h k s e = elim (Option-cases (parse_uvari m p n)) [
    | inl bad ↦ ground arith
    | inr ((j, v), good) ↦ ground (arith, parse_uvari_bounds m p h n j v good)
  ]

module _ (m : Mem) (p : Ptr) (n : ℕ) where
  pub parse_obname_bounds :
      IsBytes m → (k : ℕ) (o : Obname) → parse_obname m p n ≡ some (k, o) → (1 ≤ k) × (k ≤ n)
  unfolding parse_obname
  parse_obname_bounds h k o e = elim (Option-cases (parse_uvari m p n)) [
    | inl bad ↦ ground arith
    | inr ((j, v), good) ↦ elim (Option-cases (parse_ident m (p + j + 1) (n - j - 1))) [
      | inl bad ↦ ground arith
      | inr ((i, s), named) ↦ ground (
        arith,
        parse_uvari_bounds m p h n j v good,
        parse_ident_bounds m (p + j + 1) (n - j - 1) i s named,
      )
    ]
  ]

  -- The string of a name is at its end.
  pub parse_obname-EndsAt :
      (k : ℕ) (o : Obname) → parse_obname m p n ≡ some (k, o) → EndsAt p k o.name
  unfolding parse_obname
  parse_obname-EndsAt k o e = elim (Option-cases (parse_uvari m p n)) [
    | inl bad ↦ ground arith
    | inr ((j, v), good) ↦ elim (Option-cases (parse_ident m (p + j + 1) (n - j - 1))) [
      | inl bad ↦ ground arith
      | inr ((i, s), named) ↦ ground (arith, parse_ident_bounds m (p + j + 1) (n - j - 1) i s named)
    ]
  ]

module _ (m : Mem) (p : Ptr) (n : ℕ) where
  pub parse_objref_bounds :
      IsBytes m → (k : ℕ) (r : Objref) → parse_objref m p n ≡ some (k, r) → (1 ≤ k) × (k ≤ n)
  unfolding parse_objref
  parse_objref_bounds h k r e = elim (Option-cases (parse_ident m p n)) [
    | inl bad ↦ ground arith
    | inr ((j, s), typed) ↦ elim (Option-cases (parse_obname m (p + j) (n - j))) [
      | inl bad ↦ ground arith
      | inr ((i, o), named) ↦ ground (
        arith,
        parse_ident_bounds m p n j s typed,
        parse_obname_bounds m (p + j) (n - j) h i o named,
      )
    ]
  ]

-- What lies outside the n bytes does not matter.
module _ (m m' : Mem) (p : Ptr) (n : ℕ) where
  pub parse_ident-Agree : Agree m m' p n → parse_ident m p n ≡ parse_ident m' p n
  unfolding parse_ident
  parse_ident-Agree same = ground (arith, Agree-head m m' p n same)

  pub parse_ascii-Agree : Agree m m' p n → parse_ascii m p n ≡ parse_ascii m' p n
  unfolding parse_ascii
  parse_ascii-Agree same = rw (parse_uvari-Agree m m' p n same)

  pub parse_dtime-Agree : Agree m m' p n → parse_dtime m p n ≡ parse_dtime m' p n
  unfolding parse_dtime
  parse_dtime-Agree same = elim (Bool-cases (ltb n 8)) [
    | inl few ↦ rw few
    | inr enough ↦
        let ms : load16 m (p + 6) ≡ load16 m' (p + 6) =
          load16-Agree m m' (p + 6) (Agree-sub m m' p n same 6 2 _ refl (ground arith)) in
        let at = λ (i : ℕ) (h : i < 8). same i (ltb_ge h enough) in
        rw enough (
          cc (
            Agree-head m m' p n same (ltb_ge (omega arith) enough),
            at 1 (omega arith),
            at 2 (omega arith),
            at 3 (omega arith),
            at 4 (omega arith),
            at 5 (omega arith),
            ms,
          ))
  ]
    where
      ltb_ge : {i : ℕ} → i < 8 → ltb n 8 ≡ false → i < n
      ltb_ge h e = ground arith

module _ (m m' : Mem) (p : Ptr) (n : ℕ) where
  pub parse_obname-Agree : Agree m m' p n → parse_obname m p n ≡ parse_obname m' p n
  unfolding parse_obname
  parse_obname-Agree same =
      rw (parse_uvari-Agree m m' p n same) (elim (Option-cases (parse_uvari m' p n)) [
        | inl bad ↦ rw bad
        | inr ((j, v), good) ↦ rw good (
            ground (
              arith,
              same j,
              parse_ident-Agree m m' (p + j + 1) (n - j - 1)
                  (Agree-sub m m' p n same (j + 1) _ _ (omega arith) (omega arith)),
            ))
      ])

module _ (m m' : Mem) (p : Ptr) (n : ℕ) where
  pub parse_objref-Agree : Agree m m' p n → parse_objref m p n ≡ parse_objref m' p n
  unfolding parse_objref
  parse_objref-Agree same =
      rw (parse_ident-Agree m m' p n same) (elim (Option-cases (parse_ident m' p n)) [
        | inl bad ↦ rw bad
        | inr ((j, s), good) ↦ rw (
          good,
          parse_obname-Agree m m' (p + j) (n - j)
              (Agree-sub m m' p n same j _ _ refl (omega arith)),
        )
      ])

-- The text of a string that ends in the range, or its first `len` bytes.
pub bytes-EndsAt :
    (m m' : Mem) (p : Ptr) (n k : ℕ) (s : SizedStr) (len : ℕ)
    → Agree m m' p n
    → EndsAt p k s
    → k ≤ n
    → len ≤ pos_part s.len
    → bytes m s.buff len ≡ bytes m' s.buff len
bytes-EndsAt m m' p n k s len same ends fits short =
    bytes-Agree m m' s.buff len
      (Agree-sub m m' p n same (s.buff - p) len s.buff (omega arith) (omega arith))

module _ (m : Mem) (p : Ptr) (n : ℕ) where
  -- Both texts of a reference lie in the range.
  pub parse_objref-EndsAt :
      IsBytes m
      → (k : ℕ) (r : Objref) → parse_objref m p n ≡ some (k, r)
      → (j : ℕ) × (j ≤ n) × EndsAt p j r.type × EndsAt p k r.name.name
  unfolding parse_objref
  parse_objref-EndsAt h k r e = elim (Option-cases (parse_ident m p n)) [
    | inl bad ↦ absurd (ground arith)
    | inr ((j, s), typed) ↦ elim (Option-cases (parse_obname m (p + j) (n - j))) [
      | inl bad ↦ absurd (ground arith)
      | inr ((i, o), named) ↦
          let (lo, hi, len, ends) = parse_ident_bounds m p n j s typed in
          let ends' = parse_obname-EndsAt m (p + j) (n - j) i o named in
          (j, hi, ground arith, ground arith)
    ]
  ]
