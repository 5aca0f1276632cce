-- ===== src/Codec/Value.antt =====
-- common.cc and common.h: the tagged values, their packing, and `parse_value`.
pub mod Range
pub mod RoundTrip
pub mod Local
use dlis_parser.Base.{
  ℕ, ◌+◌, ◌-◌, ◌/◌, ◌%◌, Bool, ◌||◌, Option, none, some, List, [], ◌∷◌, ◌++◌, map, get_elem?, ltb,
  ◌==◌, if◌then◌else◌,
}
use dlis_parser.Base.Int.{ℤ, pos, negsuc, pos_part, ltb_ℤ}
pub use dlis_parser.Codec.Outcome.{Outcome, ok, exit, fault, hang, ◌>>=◌}
use dlis_parser.Codec.Memory.{Ptr, Mem, bytes, SizedStr, text}
use dlis_parser.Codec.Number.{
  Double, parse_ushort, parse_unorm, parse_ulong, parse_sshort, parse_snorm, parse_slong,
  parse_fsingl, parse_fdoubl, parse_uvari,
}
use dlis_parser.Codec.Text.{
  Obname, Objref, Dtime, parse_ident, parse_ascii, parse_obname, parse_objref, parse_dtime,
}

pub data RepCode : Type 0 where
  not_used fshort fsingl fsing1 fsing2 isingl vsingl fdoubl fdoub1 fdoub2 csingl cdoubl sshort snorm
        slong ushort unorm ulong uvari ident ascii dtime origin obname objref attref status units :
      RepCode

-- The codes 0 to 27 in the order of `rep_code_e`.
abbrev pub rep_codes : List RepCode
rep_codes =
    not_used ∷ fshort ∷ fsingl ∷ fsing1 ∷ fsing2 ∷ isingl ∷ vsingl ∷ fdoubl ∷ fdoub1 ∷ fdoub2
    ∷ csingl ∷ cdoubl ∷ sshort ∷ snorm ∷ slong ∷ ushort ∷ unorm ∷ ulong ∷ uvari ∷ ident ∷ ascii
    ∷ dtime ∷ origin ∷ obname ∷ objref ∷ attref ∷ status ∷ units ∷ []

-- REPCODE_SIZES; `none` is its -1.
unfoldable pub repcode_size : RepCode → Option ℕ
repcode_size not_used = none
repcode_size fshort = some 2
repcode_size fsingl = some 4
repcode_size fsing1 = some 8
repcode_size fsing2 = some 12
repcode_size isingl = some 4
repcode_size vsingl = some 4
repcode_size fdoubl = some 8
repcode_size fdoub1 = some 16
repcode_size fdoub2 = some 24
repcode_size csingl = some 8
repcode_size cdoubl = some 16
repcode_size sshort = some 1
repcode_size snorm = some 2
repcode_size slong = some 4
repcode_size ushort = some 1
repcode_size unorm = some 2
repcode_size ulong = some 4
repcode_size uvari = some 0
repcode_size ident = some 0
repcode_size ascii = some 0
repcode_size dtime = some 8
repcode_size origin = some 0
repcode_size obname = some 0
repcode_size objref = some 0
repcode_size attref = some 0
repcode_size status = some 1
repcode_size units = some 0

-- A byte of the value's memory: known, or the i-th byte of an address.
pub data RawByte : Type 0 where
  byte : ℕ → RawByte
  address : ℕ → RawByte

pub record NameVal : Type 0 where
  pub origin : ℕ
  pub copy_number : ℕ
  pub name : List ℕ

-- The union: its last written member, with the text that the pointers of that member lead to.
-- `unset` is a union that nothing has been written to.
pub data Union : Type 0 where
  unset : Union
  int_val : ℤ → Union
  uint_val : ℕ → Union
  double_val : Double → Union
  lstr : List ℕ → Union
  dtime_val : Dtime → Union
  obname_val : NameVal → Union
  objref_val : List RawByte → NameVal → Union

pub record Value : Type 0 where
  pub repcode : ℤ
  pub u : Union

unfoldable pub value_invalidate : Value → Value
value_invalidate v = record v { repcode = negsuc 0 }

-- MAX_VALUE_SIZE, and the sizes of sized_str_t and obname_t with 8-byte pointers.
abbrev pub max_value_size : ℕ
max_value_size = 4096

abbrev pub sized_str_size : ℕ
sized_str_size = 16

abbrev pub obname_size : ℕ
obname_size = 24

-- A text that is too long is cut.
unfoldable pub pack_lstr : Mem → SizedStr → Value → Value
pack_lstr m s v =
    let len =
      if ltb_ℤ (pos (max_value_size - sized_str_size)) s.len
      then max_value_size - sized_str_size
      else pos_part s.len in
    record v { repcode = pos 19; u = lstr (bytes m s.buff len) }

unfoldable pub pack_obname : Mem → Obname → Value → Outcome Value
pack_obname m o v =
    if ltb_ℤ (pos (max_value_size - obname_size)) o.name.len
    then exit
    else ok (record v {
      u =
          obname_val
            (record { origin = o.origin; copy_number = o.copy_number; name = text m o.name });
    })

-- `hs` written over the front of `ts`; what lies behind the text is not read.
unfoldable pub overlay {ℓ} : {A : Type ℓ} → List A → List A → List A
overlay [] ts = ts
overlay (h ∷ hs) [] = []
overlay (h ∷ hs) (t ∷ ts) = h ∷ overlay hs ts

unfoldable pub le32 : ℕ → List RawByte
le32 v =
    byte (v % 256) ∷ byte (v / 256 % 256) ∷ byte (v / 65536 % 256) ∷ byte (v / 16777216 % 256) ∷ []

abbrev pub address_bytes : List RawByte
address_bytes = map address (0 ∷ 1 ∷ 2 ∷ 3 ∷ 4 ∷ 5 ∷ 6 ∷ 7 ∷ [])

-- The member `name` of the union's objref, as it lies in memory from `raw + 16` on: origin, copy
-- number, the address of the name and its length.
unfoldable pub name_image : Obname → List RawByte
unfolding le32
name_image o =
    le32 o.origin ++ (le32 o.copy_number ++ (address_bytes ++ le32 (pos_part o.name.len)))

-- The text of the type is moved to `raw + 16` first; then the fields of `name` are assigned, which
-- lie in the same place.
unfoldable pub pack_objref : Mem → Objref → Value → Outcome Value
unfolding name_image
pack_objref m r v =
    if ltb_ℤ (pos (max_value_size - sized_str_size)) r.type.len
    then exit
    else if ltb_ℤ (pos (max_value_size - sized_str_size - obname_size - pos_part r.type.len))
        r.name.name.len
    then exit
    else ok (record {
      repcode = pos 24;
      u = objref_val (overlay (name_image r.name) (map byte (text m r.type))) (record {
        origin = r.name.origin;
        copy_number = r.name.copy_number;
        name = text m r.name.name;
      });
    })

-- `parse(buff, &output->u.member)`: the union changes if the parser stores a value.
unfoldable pub stored : {A : Type 0} → Option (ℕ × A) → (A → Union) → Value → Value
stored none member v = v
stored (some (_, a)) member v = record v { u = member a }

abbrev pub nbytes : {A : Type 0} → Option (ℕ × A) → Option ℕ
nbytes none = none
nbytes (some (n, _)) = some n

-- A parsed name or reference is packed behind the value.
unfoldable pub packed :
    {A : Type 0} → Option (ℕ × A) → (A → Value → Outcome Value) → Value → Outcome (Option ℕ × Value)
packed none pack v = ok (none, v)
packed (some (n, a)) pack v = pack a v >>= λ v'. ok (some n, v')

unfoldable pub packed_str : Mem → Option (ℕ × SizedStr) → Value → Outcome (Option ℕ × Value)
packed_str m none v = ok (none, v)
packed_str m (some (n, s)) v = ok (some n, pack_lstr m s v)

-- The switch of `parse_value`.
unfoldable pub parse_member : Mem → Ptr → ℕ → RepCode → Value → Outcome (Option ℕ × Value)
parse_member m buff len fsingl v = ok (some 4, stored (parse_fsingl m buff) double_val v)
parse_member m buff len fdoubl v = ok (some 8, stored (parse_fdoubl m buff) double_val v)
parse_member m buff len sshort v = ok (some 1, stored (parse_sshort m buff) int_val v)
parse_member m buff len snorm v = ok (some 2, stored (parse_snorm m buff) int_val v)
parse_member m buff len slong v = ok (some 4, stored (parse_slong m buff) int_val v)
parse_member m buff len ushort v = ok (some 1, stored (parse_ushort m buff) uint_val v)
parse_member m buff len unorm v = ok (some 2, stored (parse_unorm m buff) uint_val v)
parse_member m buff len ulong v = ok (some 4, stored (parse_ulong m buff) uint_val v)
parse_member m buff len uvari v =
    let r = parse_uvari m buff len in ok (nbytes r, stored r uint_val v)
parse_member m buff len origin v =
    let r = parse_uvari m buff len in ok (nbytes r, stored r uint_val v)
parse_member m buff len ident v = packed_str m (parse_ident m buff len) v
parse_member m buff len units v = packed_str m (parse_ident m buff len) v
parse_member m buff len ascii v = packed_str m (parse_ascii m buff len) v
parse_member m buff len obname v = packed (parse_obname m buff len) (pack_obname m) v
parse_member m buff len dtime v =
    let r = parse_dtime m buff len in ok (nbytes r, stored r dtime_val v)
parse_member m buff len objref v = packed (parse_objref m buff len) (pack_objref m) v
parse_member m buff len status v = ok (some 1, stored (parse_ushort m buff) uint_val v)
parse_member m buff len c v = ok (repcode_size c, v)

-- `none` is -1: too few bytes, or no such code.
unfoldable pub parse_code : Mem → Ptr → ℕ → RepCode → Value → Outcome (Option ℕ × Value)
parse_code m buff len c v = elim (repcode_size c) [
  | none ↦ if len == 0 then ok (none, v) else parse_member m buff len c v
  | some size ↦ if len == 0 || ltb len size then ok (none, v) else parse_member m buff len c v
]

-- Code 28 and above end the program; a negative code reads in front of REPCODE_SIZES.
unfoldable pub parse_value : Mem → Ptr → ℕ → ℤ → Value → Outcome (Option ℕ × Value)
parse_value m buff len (negsuc r) v = fault
parse_value m buff len (pos r) v = elim (get_elem? rep_codes r) [
  | none ↦ exit
  | some c ↦ parse_code m buff len c (record v { repcode = pos r })
]
