-- ===== src/Codec/Serialize/Taken.antt =====
-- common.cc, parse_value: a value takes a byte at least, but for an attribute reference, which takes
-- none and which `serialize_list_add` does not go on with.
use dlis_parser.Base.{
  ℕ, ◌≤◌, ◌≡◌, ◌⊎◌, refl, some, arith, inl, inr, Option-cases, Bool-cases, ltb, get_elem?, ◌||◌,
  ◌==◌,
}
use dlis_parser.Base.Int.{ℤ, pos, negsuc}
use dlis_parser.Codec.Memory.{Ptr, Mem, SizedStr}
use dlis_parser.Codec.Number.{parse_uvari}
use dlis_parser.Codec.Text.{
  Obname, Objref, parse_ident, parse_ascii, parse_obname, parse_objref, parse_dtime,
}
use dlis_parser.Codec.Value.{
  ok, RepCode, rep_codes, repcode_size, Value, parse_member, parse_code, parse_value, stored,
}
use dlis_parser.Codec.Value.Range.{packed_nbytes, packed_str_nbytes, nbytes-some}
use dlis_parser.Codec.Serialize.{Kind, kind, kind_of}

module _ (m : Mem) (p : Ptr) (n : ℕ) where
  uvari_taken : (k v : ℕ) → parse_uvari m p n ≡ some (k, v) → 1 ≤ k
  unfolding parse_uvari
  uvari_taken k v e = ground arith

  ident_taken : (k : ℕ) (s : SizedStr) → parse_ident m p n ≡ some (k, s) → 1 ≤ k
  unfolding parse_ident
  ident_taken k s e = ground arith

module _ (m : Mem) (p : Ptr) (n : ℕ) where
  ascii_taken : (k : ℕ) (s : SizedStr) → parse_ascii m p n ≡ some (k, s) → 1 ≤ k
  unfolding parse_ascii
  ascii_taken k s e = elim (Option-cases (parse_uvari m p n)) [
    | inl bad ↦ ground arith
    | inr ((j, v), good) ↦ ground (arith, uvari_taken m p n j v good)
  ]

  obname_taken : (k : ℕ) (o : Obname) → parse_obname m p n ≡ some (k, o) → 1 ≤ k
  unfolding parse_obname
  obname_taken k o e = ground arith

  objref_taken : (k : ℕ) (r : Objref) → parse_objref m p n ≡ some (k, r) → 1 ≤ k
  unfolding parse_objref
  objref_taken k r e = elim (Option-cases (parse_ident m p n)) [
    | inl bad ↦ ground arith
    | inr ((j, s), typed) ↦ ground (arith, ident_taken m p n j s typed)
  ]

  dtime_taken : (k : ℕ) (d : _) → parse_dtime m p n ≡ some (k, d) → 1 ≤ k
  unfolding parse_dtime
  dtime_taken k d e = ground arith

module _ (m : Mem) (p : Ptr) (n : ℕ) where
  member_taken :
      (c : RepCode) (v v' : Value) (k : ℕ)
      → parse_member m p n c v ≡ ok (some k, v')
      → (1 ≤ k) ⊎ ((c ≡ RepCode.attref) × (v'.repcode ≡ v.repcode))
  unfolding parse_member repcode_size stored
  member_taken RepCode.uvari v v' k e =
      let (a, r) = nbytes-some (parse_uvari m p n) k (ground arith) in inl (uvari_taken m p n k a r)
  member_taken RepCode.origin v v' k e =
      let (a, r) = nbytes-some (parse_uvari m p n) k (ground arith) in inl (uvari_taken m p n k a r)
  member_taken RepCode.ident v v' k e =
      let (s, r) = packed_str_nbytes m _ v v' k e in inl (ident_taken m p n k s r)
  member_taken RepCode.units v v' k e =
      let (s, r) = packed_str_nbytes m _ v v' k e in inl (ident_taken m p n k s r)
  member_taken RepCode.ascii v v' k e =
      let (s, r) = packed_str_nbytes m _ v v' k e in inl (ascii_taken m p n k s r)
  member_taken RepCode.obname v v' k e =
      let (o, r) = packed_nbytes _ _ v v' k e in inl (obname_taken m p n k o r)
  member_taken RepCode.objref v v' k e =
      let (o, r) = packed_nbytes _ _ v v' k e in inl (objref_taken m p n k o r)
  member_taken RepCode.dtime v v' k e =
      let (a, r) = nbytes-some (parse_dtime m p n) k (ground arith) in inl (dtime_taken m p n k a r)
  member_taken RepCode.attref v v' k e = inr (refl, ground arith)
  member_taken RepCode.not_used v v' k e = absurd (ground arith)
  member_taken c v v' k e = inl (ground arith)

  code_taken :
      (c : RepCode) (v v' : Value) (k : ℕ)
      → parse_code m p n c v ≡ ok (some k, v')
      → (1 ≤ n) × ((1 ≤ k) ⊎ ((c ≡ RepCode.attref) × (v'.repcode ≡ v.repcode)))
  unfolding parse_code
  code_taken c v v' k e = elim (Option-cases (repcode_size c)) [
    | inl unsized ↦ elim (Bool-cases (n == 0)) [
      | inl zero ↦ absurd (ground (arith, rw (unsized, parse_code, zero) at e))
      | inr more ↦ (ground arith, member_taken c v v' k (rw (unsized, parse_code, more) at e))
    ]
    | inr (s, sized) ↦ elim (Bool-cases (n == 0 || ltb n s)) [
      | inl few ↦ absurd (ground (arith, rw (sized, parse_code, few) at e))
      | inr enough ↦ (ground arith, member_taken c v v' k (rw (sized, parse_code, enough) at e))
    ]
  ]

  -- A value that is parsed has a byte to start with, and it takes one at least, or it is tagged
  -- as an attribute reference.
  pub parse_value_taken :
      (r : ℤ) (v v' : Value) (k : ℕ)
      → parse_value m p n r v ≡ ok (some k, v')
      → (1 ≤ n) × ((1 ≤ k) ⊎ (kind_of v'.repcode ≡ Kind.attr_kind))
  unfolding parse_value kind_of kind
  parse_value_taken (negsuc r) v v' k e = cc
  parse_value_taken (pos r) v v' k e = elim (Option-cases (get_elem? rep_codes r)) [
    | inl bad ↦ absurd (ground arith)
    | inr (c, good) ↦
        (let (some_byte, takes) =
            code_taken c (record { repcode = pos r; u = v.u }) v' k (rw good at e) in
          (
            some_byte,
            elim takes [
              | inl taken ↦ inl taken
              | inr (reference, same) ↦ inr (rw (same, good, reference) refl)
            ],
          ))
  ]
