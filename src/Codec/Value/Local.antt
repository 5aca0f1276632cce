-- ===== src/Codec/Value/Local.antt =====
-- common.cc, parse_value: the memory that its result depends on.
use dlis_parser.Base.{
  ℕ, ◌-◌, ◌≤◌, ◌≡◌, refl, Option, none, some, arith, inl, inr, Option-cases, Bool-cases, ltb,
  get_elem?, ◌||◌, ◌==◌,
}
use dlis_parser.Base.Int.{ℤ, pos, negsuc, pos_part, ltb_ℤ}
use dlis_parser.Codec.Memory.{Ptr, Mem, IsBytes, Agree, SizedStr}
use dlis_parser.Codec.Number.Decode.{
  parse_uvari-Agree, parse_ushort-Agree, parse_unorm-Agree, parse_ulong-Agree, parse_sshort-Agree,
  parse_snorm-Agree, parse_slong-Agree, parse_fsingl-Agree, parse_fdoubl-Agree,
}
use dlis_parser.Codec.Text.{Obname, Objref, parse_ident, parse_ascii, parse_obname, parse_objref}
use dlis_parser.Codec.Text.Range.{
  EndsAt, parse_ident_bounds, parse_ascii_bounds, parse_obname_bounds, parse_objref_bounds,
  parse_ident-Agree, parse_ascii-Agree, parse_obname-Agree, parse_objref-Agree, parse_dtime-Agree,
  bytes-EndsAt, parse_obname-EndsAt, parse_objref-EndsAt,
}
use dlis_parser.Codec.Value.{
  Outcome, RepCode, rep_codes, repcode_size, Value, max_value_size, sized_str_size, pack_lstr,
  pack_obname, pack_objref, packed, packed_str, parse_member, parse_code, parse_value,
}
use dlis_parser.Codec.Value.Range.{Fits}

packed-Agree :
    {A : Type 0} (r : Option (ℕ × A)) (pack pack' : A → Value → Outcome Value) (v : Value)
    → ((k : ℕ) (a : A) → r ≡ some (k, a) → pack a v ≡ pack' a v)
    → packed r pack v ≡ packed r pack' v
unfolding packed
packed-Agree none pack pack' v same = refl
packed-Agree (some (k, a)) pack pack' v same = rw (same k a refl)

module _ (m m' : Mem) (p : Ptr) (n : ℕ) (h : IsBytes m') (same : Agree m m' p n) where
  pack_lstr-Agree :
      (k : ℕ) (s : SizedStr) (v : Value) → EndsAt p k s → k ≤ n → pack_lstr m s v ≡ pack_lstr m' s v
  unfolding pack_lstr
  pack_lstr-Agree k s v ends fits =
      elim (Bool-cases (ltb_ℤ (pos (max_value_size - sized_str_size)) s.len)) [
        | inl long ↦ rw (
          long,
          bytes-EndsAt m m' p n k s (max_value_size - sized_str_size) same ends fits (ground arith),
        )
        | inr short ↦
            rw (short, bytes-EndsAt m m' p n k s (pos_part s.len) same ends fits (omega arith))
      ]

  pack_obname-Agree :
      (k : ℕ) (o : Obname) (v : Value)
      → EndsAt p k o.name
      → k ≤ n
      → pack_obname m o v ≡ pack_obname m' o v
  unfolding pack_obname
  pack_obname-Agree k o v ends fits =
      rw (bytes-EndsAt m m' p n k o.name (pos_part o.name.len) same ends fits (omega arith))

  pack_objref-Agree :
      (j k : ℕ) (r : Objref) (v : Value)
      → EndsAt p j r.type
      → j ≤ n
      → EndsAt p k r.name.name
      → k ≤ n
      → pack_objref m r v ≡ pack_objref m' r v
  unfolding pack_objref
  pack_objref-Agree j k r v ends fits ends' fits' = rw (
    bytes-EndsAt m m' p n j r.type (pos_part r.type.len) same ends fits (omega arith),
    bytes-EndsAt m m' p n k r.name.name (pos_part r.name.name.len) same ends' fits' (omega arith),
  )

  packed_str-Agree :
      (r : Option (ℕ × SizedStr)) (v : Value)
      → ((k : ℕ) (s : SizedStr) → r ≡ some (k, s) → EndsAt p k s × (k ≤ n))
      → packed_str m r v ≡ packed_str m' r v
  unfolding packed_str
  packed_str-Agree none v inside = refl
  packed_str-Agree (some (k, s)) v inside =
      let (ends, fits) = inside k s refl in rw (pack_lstr-Agree k s v ends fits)

  parse_ident-packed :
      (v : Value) → packed_str m (parse_ident m p n) v ≡ packed_str m' (parse_ident m' p n) v
  parse_ident-packed v = rw (parse_ident-Agree m m' p n same) (
      packed_str-Agree (parse_ident m' p n) v
        λ k s e. let (lo, hi, len, ends) = parse_ident_bounds m' p n k s e in (ends, hi))

  parse_ascii-packed :
      (v : Value) → packed_str m (parse_ascii m p n) v ≡ packed_str m' (parse_ascii m' p n) v
  parse_ascii-packed v = rw (parse_ascii-Agree m m' p n same) (
      packed_str-Agree (parse_ascii m' p n) v
        λ k s e. let (lo, hi, ends) = parse_ascii_bounds m' p n h k s e in (ends, hi))

  parse_obname-packed :
      (v : Value)
      → packed (parse_obname m p n) (pack_obname m) v
        ≡ packed (parse_obname m' p n) (pack_obname m') v
  parse_obname-packed v = rw (parse_obname-Agree m m' p n same) (
      packed-Agree (parse_obname m' p n) (pack_obname m) (pack_obname m') v λ k o e.
        pack_obname-Agree k o v (parse_obname-EndsAt m' p n k o e)
          (parse_obname_bounds m' p n h k o e).1)

  parse_objref-packed :
      (v : Value)
      → packed (parse_objref m p n) (pack_objref m) v
        ≡ packed (parse_objref m' p n) (pack_objref m') v
  parse_objref-packed v = rw (parse_objref-Agree m m' p n same) (
      packed-Agree (parse_objref m' p n) (pack_objref m) (pack_objref m') v λ k r e.
        let (j, fits, ends, ends') = parse_objref-EndsAt m' p n h k r e in
        pack_objref-Agree j k r v ends fits ends' (parse_objref_bounds m' p n h k r e).1)

  parse_member-Agree :
      (c : RepCode) (v : Value)
      → Fits (repcode_size c) n
      → parse_member m p n c v ≡ parse_member m' p n c v
  unfolding parse_member repcode_size
  parse_member-Agree RepCode.fsingl v fits = rw (parse_fsingl-Agree m m' p n same fits)
  parse_member-Agree RepCode.fdoubl v fits = rw (parse_fdoubl-Agree m m' p n same fits)
  parse_member-Agree RepCode.sshort v fits = rw (parse_sshort-Agree m m' p n same fits)
  parse_member-Agree RepCode.snorm v fits = rw (parse_snorm-Agree m m' p n same fits)
  parse_member-Agree RepCode.slong v fits = rw (parse_slong-Agree m m' p n same fits)
  parse_member-Agree RepCode.ushort v fits = rw (parse_ushort-Agree m m' p n same fits)
  parse_member-Agree RepCode.unorm v fits = rw (parse_unorm-Agree m m' p n same fits)
  parse_member-Agree RepCode.ulong v fits = rw (parse_ulong-Agree m m' p n same fits)
  parse_member-Agree RepCode.status v fits = rw (parse_ushort-Agree m m' p n same fits)
  parse_member-Agree RepCode.uvari v fits = rw (parse_uvari-Agree m m' p n same)
  parse_member-Agree RepCode.origin v fits = rw (parse_uvari-Agree m m' p n same)
  parse_member-Agree RepCode.ident v fits = parse_ident-packed v
  parse_member-Agree RepCode.units v fits = parse_ident-packed v
  parse_member-Agree RepCode.ascii v fits = parse_ascii-packed v
  parse_member-Agree RepCode.obname v fits = parse_obname-packed v
  parse_member-Agree RepCode.objref v fits = parse_objref-packed v
  parse_member-Agree RepCode.dtime v fits = rw (parse_dtime-Agree m m' p n same)
  parse_member-Agree RepCode.not_used v fits = refl
  parse_member-Agree c v fits = refl

  parse_code-Agree : (c : RepCode) (v : Value) → parse_code m p n c v ≡ parse_code m' p n c v
  unfolding parse_code
  parse_code-Agree c v = elim (Option-cases (repcode_size c)) [
    | inl unsized ↦ rw (unsized, parse_code, parse_member-Agree c v (rw unsized tt))
    | inr (s, sized) ↦ elim (Bool-cases (n == 0 || ltb n s)) [
      | inl few ↦ rw (sized, parse_code, few)
      | inr enough ↦
          rw (sized, parse_code, enough) (parse_member-Agree c v (rw sized (ground arith)))
    ]
  ]

  -- In two memories that agree on the n bytes at p, the second one a memory of bytes,
  -- `parse_value` gives the same result, the packed texts included: it depends on no byte behind
  -- them.
  pub parse_value-Agree : (r : ℤ) (v : Value) → parse_value m p n r v ≡ parse_value m' p n r v
  unfolding parse_value
  parse_value-Agree (negsuc r) v = refl
  parse_value-Agree (pos r) v = elim (Option-cases (get_elem? rep_codes r)) [
    | inl bad ↦ rw bad
    | inr (c, good) ↦ rw good (parse_code-Agree c _)
  ]
