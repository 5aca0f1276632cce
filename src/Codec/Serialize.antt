-- ===== src/Codec/Serialize.antt =====
-- common.cc: the serialize_ functions. A binn object or list is what the program does to it: the
-- calls of the binn library, in order. The library itself, which turns them into bytes, is not here.
pub mod Parsed
pub mod Taken
pub mod Keyed
pub mod Origin
use dlis_parser.Base.{
  ℕ, suc, ◌+◌, ◌-◌, ◌/◌, ◌^◌, bit_and, Bool, Option, none, some, List, [], ◌∷◌, map, get_elem?,
}
use dlis_parser.Base.Int.{ℤ, pos, negsuc, signed}
use dlis_parser.Codec.Number.{Double, of_int, of_uint, htons}
use dlis_parser.Codec.Text.{Dtime}
use dlis_parser.Codec.Value.{
  Outcome, ok, exit, fault, ◌>>=◌, RepCode, rep_codes, RawByte, byte, NameVal, Union, int_val,
  uint_val, double_val, lstr, dtime_val, obname_val, objref_val, Value,
}

-- A text handed to binn: an array of bytes that ends in a NUL, or the numbers that `sprintf` puts
-- into "%d-%02d-%02d %02d:%02d:%02d.%d (%d)".
pub data Text : Type 0 where
  str : List RawByte → Text
  date : List ℕ → Text

-- The keys: the constants of the source, and labels of the file.
pub data Key : Type 0 where
  origin copy_number name type seq_num sending_data_type path index_min index_max ended frames : Key
  label : List ℕ → Key

mutual
  -- One call on a binn object or list.
  pub data Call : Type 0 where
    set_int32 : Key → ℤ → Call
    set_str : Key → Text → Call
    set_object : Key → Calls → Call
    set_list : Key → Calls → Call
    set_path : Key → Call
    set_double : Key → Double → Call
    set_uint32 : Key → ℕ → Call
    add_float : Double → Call
    add_double : Double → Call
    add_int32 : ℤ → Call
    add_uint32 : ℕ → Call
    add_str : Text → Call
    add_object : Calls → Call

  -- The calls since `binn_object()` or `binn_list()`, the last one outermost.
  pub data Calls : Type 0 where
    new : Calls
    also : Calls → Call → Calls

-- How many calls were made.
unfoldable pub size : Calls → ℕ
size new = 0
size (also cs c) = suc (size cs)

-- (int)v of an unsigned int
abbrev pub int32 : ℕ → ℤ
int32 v = signed (2 ^ 31) v

unfoldable pub serialize_sized_str : Calls → Key → List RawByte → Calls
serialize_sized_str obj key s = also obj (set_str key (str s))

-- Without a key the three fields go into `obj`, with a key into an object of their own.
unfoldable pub name_fields : Calls → NameVal → Calls
unfolding serialize_sized_str
name_fields obj o =
    serialize_sized_str
      (also (also obj (set_int32 origin (int32 o.origin)))
        (set_int32 copy_number (int32 o.copy_number)))
      name (map byte o.name)

unfoldable pub serialize_obname : Calls → Option Key → NameVal → Calls
unfolding name_fields
serialize_obname obj none o = name_fields obj o
serialize_obname obj (some key) o = also obj (set_object key (name_fields new o))

-- The arguments of the date's `sprintf`.
unfoldable pub date_text : Dtime → Text
unfolding htons
date_text d = date (
    (d.year + 1900)
    ∷ bit_and d.tz_and_month 0x0F
    ∷ d.day
    ∷ d.hour
    ∷ d.minute
    ∷ d.second
    ∷ htons d.ms
    ∷ d.tz_and_month / 16
    ∷ [])

-- A member of the union. Reading another member than the written one is undefined here.
unfoldable pub as_double : Union → Outcome Double
as_double (double_val d) = ok d
as_double _ = fault

unfoldable pub as_int : Union → Outcome ℤ
as_int (int_val z) = ok z
as_int (uint_val v) = ok (int32 v)
as_int _ = fault

unfoldable pub as_uint : Union → Outcome ℕ
as_uint (uint_val v) = ok v
as_uint (int_val (pos v)) = ok v
as_uint (int_val (negsuc v)) = ok (2 ^ 32 - suc v)
as_uint _ = fault

unfoldable pub as_str : Union → Outcome (List ℕ)
as_str (lstr s) = ok s
as_str _ = fault

unfoldable pub as_obname : Union → Outcome NameVal
as_obname (obname_val o) = ok o
as_obname _ = fault

unfoldable pub as_dtime : Union → Outcome Dtime
as_dtime (dtime_val d) = ok d
as_dtime _ = fault

-- The kinds of value that the switches of the serializers and of `get_scalar_value` tell apart.
pub data Kind : Type 0 where
  single real signed_int unsigned_int text_kind date_kind name_kind ref_kind attr_kind other : Kind

unfoldable pub kind : RepCode → Kind
kind RepCode.fsingl = single
kind RepCode.fshort = real
kind RepCode.fsing1 = real
kind RepCode.fsing2 = real
kind RepCode.isingl = real
kind RepCode.vsingl = real
kind RepCode.fdoubl = real
kind RepCode.fdoub1 = real
kind RepCode.fdoub2 = real
kind RepCode.csingl = real
kind RepCode.cdoubl = real
kind RepCode.sshort = signed_int
kind RepCode.snorm = signed_int
kind RepCode.slong = signed_int
kind RepCode.ushort = unsigned_int
kind RepCode.unorm = unsigned_int
kind RepCode.ulong = unsigned_int
kind RepCode.uvari = unsigned_int
kind RepCode.status = unsigned_int
kind RepCode.origin = text_kind
kind RepCode.ident = text_kind
kind RepCode.units = text_kind
kind RepCode.ascii = text_kind
kind RepCode.dtime = date_kind
kind RepCode.obname = name_kind
kind RepCode.objref = ref_kind
kind RepCode.attref = attr_kind
kind RepCode.not_used = other

-- The tag of a value; one that is no code falls through every switch.
unfoldable pub kind_of : ℤ → Kind
unfolding kind
kind_of (negsuc r) = other
kind_of (pos r) = elim (get_elem? rep_codes r) [ none ↦ other | some c ↦ kind c ]

ref_fields : Union → Outcome Calls
unfolding serialize_sized_str serialize_obname
ref_fields (objref_val t o) = ok (serialize_obname (serialize_sized_str new type t) (some name) o)
ref_fields _ = fault

-- The switch of `serialize_list_add`.
unfoldable pub add_kind : Calls → Kind → Union → Outcome Calls
unfolding as_double as_int as_uint as_str as_dtime as_obname date_text serialize_obname ref_fields
add_kind list single u = do d ← as_double u; ok (also list (add_float d))
add_kind list real u = do d ← as_double u; ok (also list (add_double d))
add_kind list signed_int u = do z ← as_int u; ok (also list (add_int32 z))
add_kind list unsigned_int u = do v ← as_uint u; ok (also list (add_uint32 v))
add_kind list text_kind u = do s ← as_str u; ok (also list (add_str (str (map byte s))))
add_kind list date_kind u = do d ← as_dtime u; ok (also list (add_str (date_text d)))
add_kind list name_kind u = do
  o ← as_obname u
  ok (also list (add_object (serialize_obname new none o)))
add_kind list ref_kind u = do r ← ref_fields u; ok (also list (add_object r))
add_kind list attr_kind u = exit
add_kind list other u = ok list

unfoldable pub serialize_list_add : Calls → Value → Outcome Calls
unfolding kind_of add_kind
serialize_list_add list v = add_kind list (kind_of v.repcode) v.u

-- The switch of `serialize_value`.
unfoldable pub set_kind : Calls → Key → Kind → Union → Outcome Calls
unfolding as_double as_int as_uint as_str as_dtime as_obname date_text serialize_sized_str
    serialize_obname ref_fields
set_kind obj key single u = do d ← as_double u; ok (also obj (set_double key d))
set_kind obj key real u = do d ← as_double u; ok (also obj (set_double key d))
set_kind obj key signed_int u = do z ← as_int u; ok (also obj (set_int32 key z))
set_kind obj key unsigned_int u = do v ← as_uint u; ok (also obj (set_uint32 key v))
set_kind obj key text_kind u = do s ← as_str u; ok (serialize_sized_str obj key (map byte s))
set_kind obj key date_kind u = do d ← as_dtime u; ok (also obj (set_str key (date_text d)))
set_kind obj key name_kind u = do o ← as_obname u; ok (serialize_obname obj (some key) o)
set_kind obj key ref_kind u = do r ← ref_fields u; ok (also obj (set_object key r))
set_kind obj key attr_kind u = exit
set_kind obj key other u = ok obj

unfoldable pub serialize_value : Calls → Key → Value → Outcome Calls
unfolding kind_of set_kind
serialize_value obj key v = set_kind obj key (kind_of v.repcode) v.u

-- A value that is no number gives 0.
unfoldable pub scalar_kind : Kind → Union → Outcome Double
unfolding as_double as_int as_uint
scalar_kind single u = as_double u
scalar_kind real u = as_double u
scalar_kind signed_int u = do z ← as_int u; ok (of_int z)
scalar_kind unsigned_int u = do v ← as_uint u; ok (of_uint v)
scalar_kind _ u = ok (of_uint 0)

unfoldable pub get_scalar_value : Value → Outcome Double
unfolding kind_of scalar_kind
get_scalar_value v = scalar_kind (kind_of v.repcode) v.u
