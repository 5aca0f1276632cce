-- ===== src/Codec/Value/Range.antt =====
-- common.cc, parse_value: how many bytes it takes.
use dlis_parser.Base.{
  ℕ, ◌≤◌, ◌≡◌, Option, none, some, arith, inl, inr, Option-cases, Bool-cases, ltb, get_elem?, ◌||◌,
  ◌==◌,
}
use dlis_parser.Base.Int.{ℤ, pos, negsuc}
use dlis_parser.Codec.Memory.{Ptr, Mem, IsBytes, SizedStr}
use dlis_parser.Codec.Number.{parse_uvari}
use dlis_parser.Codec.Number.Decode.{parse_uvari_bounds}
use dlis_parser.Codec.Text.{parse_dtime}
use dlis_parser.Codec.Text.Range.{
  parse_ident_bounds, parse_ascii_bounds, parse_obname_bounds, parse_objref_bounds,
  parse_dtime_bounds,
}
use dlis_parser.Codec.Value.{
  Outcome, ok, exit, fault, hang, ◌>>=◌, RepCode, rep_codes, repcode_size, Value, nbytes, packed,
  packed_str, parse_member, parse_code, parse_value,
}

-- The result of a packing parser is that of the parser.
pub packed_nbytes :
    {A : Type 0} (r : Option (ℕ × A)) (pack : A → Value → Outcome Value) (v v' : Value) (k : ℕ)
    → packed r pack v ≡ ok (some k, v')
    → (a : A) × (r ≡ some (k, a))
unfolding packed
packed_nbytes none pack v v' k e = ground arith
packed_nbytes {A} (some (n, a)) pack v v' k e = go (pack a v) e
  where
    go :
        (o : Outcome Value)
        → ◌>>=◌ {B = Option ℕ × Value} o (λ w. ok (some n, w)) ≡ ok (some k, v')
        → (a' : A) × ◌≡◌ {A = Option (ℕ × A)} (some (n, a)) (some (k, a'))
    go (ok w) e = (a, ground arith)
    go exit e = cc
    go fault e = cc
    go hang e = cc

pub packed_str_nbytes :
    (m : Mem) (r : Option (ℕ × SizedStr)) (v v' : Value) (k : ℕ)
    → packed_str m r v ≡ ok (some k, v')
    → (s : SizedStr) × (r ≡ some (k, s))
unfolding packed_str
packed_str_nbytes m none v v' k e = ground arith
packed_str_nbytes m (some (n, s)) v v' k e = (s, ground arith)

pub nbytes-some :
    {A : Type 0} (r : Option (ℕ × A)) (k : ℕ) → nbytes r ≡ some k → (a : A) × (r ≡ some (k, a))
nbytes-some none k e = ground arith
nbytes-some (some (n, a)) k e = (a, ground arith)

-- The fixed part of a code is there.
abbrev pub Fits : Option ℕ → ℕ → Type 0
Fits none n = Unit
Fits (some s) n = s ≤ n

module _ (m : Mem) (p : Ptr) (n : ℕ) (h : IsBytes m) where
  parse_member_bounds :
      (c : RepCode) (v v' : Value) (k : ℕ)
      → Fits (repcode_size c) n
      → parse_member m p n c v ≡ ok (some k, v')
      → k ≤ n
  unfolding parse_member repcode_size
  parse_member_bounds RepCode.uvari v v' k fits e =
      let (a, r) = nbytes-some (parse_uvari m p n) k (ground arith) in
      (parse_uvari_bounds m p h n k a r).1
  parse_member_bounds RepCode.origin v v' k fits e =
      let (a, r) = nbytes-some (parse_uvari m p n) k (ground arith) in
      (parse_uvari_bounds m p h n k a r).1
  parse_member_bounds RepCode.ident v v' k fits e =
      let (s, r) = packed_str_nbytes m _ v v' k e in (parse_ident_bounds m p n k s r).1
  parse_member_bounds RepCode.units v v' k fits e =
      let (s, r) = packed_str_nbytes m _ v v' k e in (parse_ident_bounds m p n k s r).1
  parse_member_bounds RepCode.ascii v v' k fits e =
      let (s, r) = packed_str_nbytes m _ v v' k e in (parse_ascii_bounds m p n h k s r).1
  parse_member_bounds RepCode.obname v v' k fits e =
      let (o, r) = packed_nbytes _ _ v v' k e in (parse_obname_bounds m p n h k o r).1
  parse_member_bounds RepCode.objref v v' k fits e =
      let (o, r) = packed_nbytes _ _ v v' k e in (parse_objref_bounds m p n h k o r).1
  parse_member_bounds RepCode.dtime v v' k fits e =
      let (a, r) = nbytes-some (parse_dtime m p n) k (ground arith) in
      parse_dtime_bounds m p n k a r
  parse_member_bounds RepCode.not_used v v' k fits e = ground arith
  parse_member_bounds c v v' k fits e = ground arith

  parse_code_bounds :
      (c : RepCode) (v v' : Value) (k : ℕ) → parse_code m p n c v ≡ ok (some k, v') → k ≤ n
  unfolding parse_code
  parse_code_bounds c v v' k e = elim (Option-cases (repcode_size c)) [
    | inl unsized ↦
        ground (arith, rw (unsized, parse_code) at e, parse_member_bounds c v v' k (rw unsized tt))
    | inr (s, sized) ↦ elim (Bool-cases (n == 0 || ltb n s)) [
      | inl few ↦ ground (arith, rw (sized, parse_code, few) at e)
      | inr enough ↦
          parse_member_bounds c v v' k (rw sized (ground arith))
            (rw (sized, parse_code, enough) at e)
    ]
  ]

  -- In a memory of bytes, a value that is parsed, whatever its code, takes at most the n bytes
  -- that are there.
  pub parse_value_bounds :
      (r : ℤ) (v v' : Value) (k : ℕ) → parse_value m p n r v ≡ ok (some k, v') → k ≤ n
  unfolding parse_value
  parse_value_bounds (negsuc r) v v' k e = cc
  parse_value_bounds (pos r) v v' k e = elim (Option-cases (get_elem? rep_codes r)) [
    | inl bad ↦ absurd (ground arith)
    | inr (c, good) ↦ parse_code_bounds c _ v' k (rw good at e)
  ]
