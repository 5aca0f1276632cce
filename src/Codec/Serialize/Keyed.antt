-- ===== src/Codec/Serialize/Keyed.antt =====
-- common.cc: serialize_value puts under a key what serialize_list_add puts into a list.
use dlis_parser.Codec.Value.{Outcome, ok, exit, fault, hang, ◌>>=◌, Union, Value}
use dlis_parser.Codec.Serialize.{
  Key, Call, Calls, also, set_int32, set_str, set_object, set_double, set_uint32, add_float,
  add_double, add_int32, add_uint32, add_str, add_object, Kind, kind_of, add_kind, set_kind,
  serialize_list_add, serialize_value, as_double, as_int, as_uint, as_str, as_dtime, as_obname,
  ref_fields, serialize_sized_str, serialize_obname,
}

-- The call on an object that stands for a call on a list: a float is set as a double.
abbrev pub keyed : Key → Call → Call
keyed key (add_float d) = set_double key d
keyed key (add_double d) = set_double key d
keyed key (add_int32 z) = set_int32 key z
keyed key (add_uint32 v) = set_uint32 key v
keyed key (add_str s) = set_str key s
keyed key (add_object o) = set_object key o
keyed key c = c

-- The outcomes match: the same failure, or no call, or a call and the keyed one.
pub data Matches (list obj : Calls) (key : Key) : Outcome Calls → Outcome Calls → Type 0 where
  no_call : Matches list obj key (ok list) (ok obj)
  one_call : (c : Call) → Matches list obj key (ok (also list c)) (ok (also obj (keyed key c)))
  both_exit : Matches list obj key exit exit
  both_fault : Matches list obj key fault fault
  both_hang : Matches list obj key hang hang

-- A member that is read and handed on.
read_Matches :
    {A : Type 0} (list obj : Calls) (key : Key) (r : Outcome A) (c : A → Call)
    → Matches list obj key
        (r >>= λ a. ok (also list (c a)))
        (r >>= λ a. ok (also obj (keyed key (c a))))
read_Matches list obj key (ok a) c = one_call (c a)
read_Matches list obj key exit c = both_exit
read_Matches list obj key fault c = both_fault
read_Matches list obj key hang c = both_hang

kind_Matches :
    (list obj : Calls) (key : Key) (k : Kind) (u : Union)
    → Matches list obj key (add_kind list k u) (set_kind obj key k u)
unfolding add_kind set_kind serialize_sized_str serialize_obname
kind_Matches list obj key Kind.single u = read_Matches list obj key (as_double u) add_float
kind_Matches list obj key Kind.real u = read_Matches list obj key (as_double u) add_double
kind_Matches list obj key Kind.signed_int u = read_Matches list obj key (as_int u) add_int32
kind_Matches list obj key Kind.unsigned_int u = read_Matches list obj key (as_uint u) add_uint32
kind_Matches list obj key Kind.text_kind u = read_Matches list obj key (as_str u) _
kind_Matches list obj key Kind.date_kind u = read_Matches list obj key (as_dtime u) _
kind_Matches list obj key Kind.name_kind u = read_Matches list obj key (as_obname u) _
kind_Matches list obj key Kind.ref_kind u = read_Matches list obj key (ref_fields u) add_object
kind_Matches list obj key Kind.attr_kind u = both_exit
kind_Matches list obj key Kind.other u = no_call

-- For every value and key, `serialize_value` does to an object what `serialize_list_add` does to
-- a list: both make no call, or one, with the same content under the key, a float as a double, or
-- both exit or both fail.
pub serialize_value-serialize_list_add :
    (list obj : Calls) (key : Key) (v : Value)
    → Matches list obj key (serialize_list_add list v) (serialize_value obj key v)
unfolding serialize_list_add serialize_value
serialize_value-serialize_list_add list obj key v =
    kind_Matches list obj key (kind_of v.repcode) v.u
