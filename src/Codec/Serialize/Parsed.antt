-- ===== src/Codec/Serialize/Parsed.antt =====
-- common.cc: the tags and members that `parse_value` stores and `serialize_list_add` reads.
use dlis_parser.Base.{
  ℕ, if◌then◌else◌, List, ◌-◌, ◌≡◌, ◌≢◌, refl, some, none, Option, arith, Bool, true, false,
  Option-cases, inl, inr, get_elem?, ◌==◌, ◌||◌, ltb, Bool-cases,
}
use dlis_parser.Base.Int.{ℤ, pos, pos_part, ltb_ℤ}
use dlis_parser.Codec.Memory.{SizedStr, Ptr, null, Mem}
use dlis_parser.Codec.Number.{
  parse_ushort, parse_unorm, parse_ulong, parse_sshort, parse_snorm, parse_slong, parse_fsingl,
  parse_fdoubl, parse_uvari, Double,
}
use dlis_parser.Codec.Text.{
  Dtime, Obname, Objref, parse_ident, parse_ascii, parse_obname, parse_objref, parse_dtime,
}
use dlis_parser.Codec.Value.{
  max_value_size, sized_str_size, obname_size, NameVal, RawByte, Union, double_val, int_val,
  uint_val, lstr, dtime_val, obname_val, objref_val, Outcome, ok, exit, fault, hang, RepCode,
  rep_codes, repcode_size, Value, pack_lstr, pack_obname, pack_objref, stored, nbytes, packed,
  packed_str, parse_member, parse_code, parse_value,
}
use dlis_parser.Codec.Serialize.{
  Calls, Call, also, Kind, kind, kind_of, add_kind, ref_fields, as_double, as_int, as_uint, as_str,
  as_dtime, as_obname, serialize_list_add,
}

-- The codes that the switch of `parse_value` decodes and whose member the serializer reads.
abbrev pub is_decoded : RepCode → Bool
is_decoded RepCode.fsingl = true
is_decoded RepCode.fdoubl = true
is_decoded RepCode.sshort = true
is_decoded RepCode.snorm = true
is_decoded RepCode.slong = true
is_decoded RepCode.ushort = true
is_decoded RepCode.unorm = true
is_decoded RepCode.ulong = true
is_decoded RepCode.uvari = true
is_decoded RepCode.status = true
is_decoded RepCode.ident = true
is_decoded RepCode.units = true
is_decoded RepCode.ascii = true
is_decoded RepCode.dtime = true
is_decoded RepCode.obname = true
is_decoded RepCode.objref = true
is_decoded c = false

-- The member of the union that a kind is read from.
pub data HasMember : Kind → Union → Type 0 where
  a_single : {d : Double} → HasMember Kind.single (double_val d)
  a_real : {d : Double} → HasMember Kind.real (double_val d)
  an_int : {z : ℤ} → HasMember Kind.signed_int (int_val z)
  an_uint : {n : ℕ} → HasMember Kind.unsigned_int (uint_val n)
  a_text : {s : List ℕ} → HasMember Kind.text_kind (lstr s)
  a_date : {t : Dtime} → HasMember Kind.date_kind (dtime_val t)
  a_name : {o : NameVal} → HasMember Kind.name_kind (obname_val o)
  a_ref : {t : List RawByte} {o : NameVal} → HasMember Kind.ref_kind (objref_val t o)

add_kind-HasMember :
    {k : Kind} {u : Union} (list : Calls)
    → HasMember k u
    → (c : Call) × (add_kind list k u ≡ ok (also list c))
unfolding add_kind as_double as_int as_uint as_str as_dtime as_obname ref_fields
add_kind-HasMember list a_single = (_, refl)
add_kind-HasMember list a_real = (_, refl)
add_kind-HasMember list an_int = (_, refl)
add_kind-HasMember list an_uint = (_, refl)
add_kind-HasMember list a_text = (_, refl)
add_kind-HasMember list a_date = (_, refl)
add_kind-HasMember list a_name = (_, refl)
add_kind-HasMember list a_ref = (_, refl)

-- A value that is decoded has the member that its tag is read from.
abbrev Tagged : Outcome (Option ℕ × Value) → Type 0
Tagged (ok (some n, v)) = HasMember (kind_of v.repcode) v.u
Tagged (ok (none, v)) = Unit
Tagged exit = Unit
Tagged fault = Unit
Tagged hang = Unit

text_Tagged : (m : Mem) (r : Option (ℕ × SizedStr)) (v : Value) → Tagged (packed_str m r v)
unfolding packed_str pack_lstr kind_of kind
text_Tagged m none v = tt
text_Tagged m (some (n, s)) v = a_text

nbytes-Tagged :
    {A : Type 0} (k : Kind) (r : Option (ℕ × A)) (member : A → Union) (v : Value)
    → kind_of v.repcode ≡ k
    → ((a : A) → HasMember k (member a))
    → Tagged (ok (nbytes r, stored r member v))
unfolding stored
nbytes-Tagged k none member v tag each = tt
nbytes-Tagged k (some (n, a)) member v tag each = rw tag (each a)

stored-Tagged :
    {A : Type 0} (k : Kind) (n : ℕ) (r : Option (ℕ × A)) (member : A → Union) (v : Value)
    → kind_of v.repcode ≡ k
    → ((a : A) → HasMember k (member a))
    → r ≢ none
    → Tagged (ok (some n, stored r member v))
unfolding stored
stored-Tagged k n none member v tag each found = absurd (found refl)
stored-Tagged k n (some (i, a)) member v tag each found = rw tag (each a)

obname_Tagged :
    (m : Mem) (r : Option (ℕ × Obname)) (v : Value)
    → kind_of v.repcode ≡ Kind.name_kind
    → Tagged (packed r (pack_obname m) v)
unfolding packed pack_obname
obname_Tagged m none v tag = tt
obname_Tagged m (some (n, o)) v tag =
    elim (Bool-cases (ltb_ℤ (pos (max_value_size - obname_size)) o.name.len)) [
      | inl long ↦ rw long tt
      | inr short ↦ rw (short, tag) a_name
    ]

objref_Tagged :
    (m : Mem) (r : Option (ℕ × Objref)) (v : Value) → Tagged (packed r (pack_objref m) v)
unfolding packed pack_objref kind_of kind
objref_Tagged m none v = tt
objref_Tagged m (some (n, o)) v =
    elim (Bool-cases (ltb_ℤ (pos (max_value_size - sized_str_size)) o.type.len)) [
      | inl long ↦ rw long tt
      | inr short ↦
          elim (Bool-cases (
            ltb_ℤ (pos (max_value_size - sized_str_size - obname_size - pos_part o.type.len))
              o.name.name.len)) [
                | inl long ↦ rw (short, long) tt
                | inr fits ↦ rw (short, fits) a_ref
              ]
    ]

guarded :
    {A : Type 0} (p : Ptr)
    → p ≢ null
    → (a : A) → ◌≢◌ {A = Option A} (if p == null then none else some a) none
guarded p valid a e = ground arith

module _ (m : Mem) (p : Ptr) (n : ℕ) (valid : p ≢ null) (v : Value) where
  parse_member-Tagged :
      (c : RepCode)
      → is_decoded c ≡ true
      → kind_of v.repcode ≡ kind c
      → Tagged (parse_member m p n c v)
  unfolding parse_member kind parse_fsingl parse_fdoubl parse_sshort parse_snorm parse_slong
      parse_ushort parse_unorm parse_ulong
  parse_member-Tagged RepCode.fsingl decoded tag =
      stored-Tagged Kind.single 4 (parse_fsingl m p) double_val v tag (λ a. a_single)
        (guarded p valid _)
  parse_member-Tagged RepCode.fdoubl decoded tag =
      stored-Tagged Kind.real 8 (parse_fdoubl m p) double_val v tag (λ a. a_real)
        (guarded p valid _)
  parse_member-Tagged RepCode.sshort decoded tag =
      stored-Tagged Kind.signed_int 1 (parse_sshort m p) int_val v tag (λ a. an_int)
        (guarded p valid _)
  parse_member-Tagged RepCode.snorm decoded tag =
      stored-Tagged Kind.signed_int 2 (parse_snorm m p) int_val v tag (λ a. an_int)
        (guarded p valid _)
  parse_member-Tagged RepCode.slong decoded tag =
      stored-Tagged Kind.signed_int 4 (parse_slong m p) int_val v tag (λ a. an_int)
        (guarded p valid _)
  parse_member-Tagged RepCode.ushort decoded tag =
      stored-Tagged Kind.unsigned_int 1 (parse_ushort m p) uint_val v tag (λ a. an_uint)
        (guarded p valid _)
  parse_member-Tagged RepCode.unorm decoded tag =
      stored-Tagged Kind.unsigned_int 2 (parse_unorm m p) uint_val v tag (λ a. an_uint)
        (guarded p valid _)
  parse_member-Tagged RepCode.ulong decoded tag =
      stored-Tagged Kind.unsigned_int 4 (parse_ulong m p) uint_val v tag (λ a. an_uint)
        (guarded p valid _)
  parse_member-Tagged RepCode.status decoded tag =
      stored-Tagged Kind.unsigned_int 1 (parse_ushort m p) uint_val v tag (λ a. an_uint)
        (guarded p valid _)
  parse_member-Tagged RepCode.uvari decoded tag =
      nbytes-Tagged Kind.unsigned_int (parse_uvari m p n) uint_val v tag (λ a. an_uint)
  parse_member-Tagged RepCode.ident decoded tag = text_Tagged m (parse_ident m p n) v
  parse_member-Tagged RepCode.units decoded tag = text_Tagged m (parse_ident m p n) v
  parse_member-Tagged RepCode.ascii decoded tag = text_Tagged m (parse_ascii m p n) v
  parse_member-Tagged RepCode.dtime decoded tag =
      nbytes-Tagged Kind.date_kind (parse_dtime m p n) dtime_val v tag (λ a. a_date)
  parse_member-Tagged RepCode.obname decoded tag = obname_Tagged m (parse_obname m p n) v tag
  parse_member-Tagged RepCode.objref decoded tag = objref_Tagged m (parse_objref m p n) v
  parse_member-Tagged c decoded tag = cc

  parse_code-Tagged :
      (c : RepCode)
      → is_decoded c ≡ true
      → kind_of v.repcode ≡ kind c
      → Tagged (parse_code m p n c v)
  unfolding parse_code
  parse_code-Tagged c decoded tag = elim (Option-cases (repcode_size c)) [
    | inl unsized ↦ elim (Bool-cases (n == 0)) [
      | inl empty ↦ rw (unsized, parse_code, empty) tt
      | inr some_left ↦ rw (unsized, parse_code, some_left) (parse_member-Tagged c decoded tag)
    ]
    | inr (s, sized) ↦ elim (Bool-cases (n == 0 || ltb n s)) [
      | inl few ↦ rw (sized, parse_code, few) tt
      | inr enough ↦ rw (sized, parse_code, enough) (parse_member-Tagged c decoded tag)
    ]
  ]

tag_of : (r : ℕ) (c : RepCode) → get_elem? rep_codes r ≡ some c → kind_of (pos r) ≡ kind c
unfolding kind_of
tag_of r c found = rw found

-- A value that `parse_value` has decoded from memory that is not at NULL, by a code whose member
-- it stores and other than ORIGIN, is added to a list by exactly one call: the union holds the
-- member that its tag selects.
pub serialize_list_add-parse_value :
    (m : Mem) (p : Ptr) (n : ℕ) (v v' : Value) (r k : ℕ) (c : RepCode) (list : Calls)
    → p ≢ null
    → get_elem? rep_codes r ≡ some c
    → is_decoded c ≡ true
    → parse_value m p n (pos r) v ≡ ok (some k, v')
    → (call : Call) × (serialize_list_add list v' ≡ ok (also list call))
unfolding parse_value serialize_list_add
serialize_list_add-parse_value m p n v v' r k c list valid found decoded e =
    let tagged : Tagged (parse_code m p n c (record v { repcode = pos r })) =
      parse_code-Tagged m p n valid (record v { repcode = pos r }) c decoded (tag_of r c found) in
    let e' : parse_code m p n c (record v { repcode = pos r }) ≡ ok (some k, v') = rw found at e in
    add_kind-HasMember list (rw e' at tagged)
