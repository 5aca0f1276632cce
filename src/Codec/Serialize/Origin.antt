-- ===== src/Codec/Serialize/Origin.antt =====
-- common.cc: the code ORIGIN in `parse_value` and in `serialize_list_add`.
use dlis_parser.Base.{ℕ, ◌≡◌, refl, some, none, Option, Bool-cases, inl, inr, ◌==◌, ◌||◌, ltb}
use dlis_parser.Base.Int.{pos}
use dlis_parser.Codec.Memory.{Ptr, Mem}
use dlis_parser.Codec.Number.{parse_uvari}
use dlis_parser.Codec.Value.{
  Outcome, ok, exit, fault, hang, repcode_size, Value, uint_val, stored, nbytes, parse_member,
  parse_code, parse_value,
}
use dlis_parser.Codec.Serialize.{Calls, add_kind, as_str, kind, kind_of, serialize_list_add}

-- Whatever value a parser gives cannot be serialized.
abbrev AllFault : Calls → Outcome (Option ℕ × Value) → Type 0
AllFault list (ok (some k, v)) = serialize_list_add list v ≡ fault
AllFault list (ok (none, v)) = Unit
AllFault list exit = Unit
AllFault list fault = Unit
AllFault list hang = Unit

origin_AllFault :
    (list : Calls) (r : Option (ℕ × ℕ)) (v : Value)
    → v.repcode ≡ pos 22
    → AllFault list (ok (nbytes r, stored r uint_val v))
unfolding stored serialize_list_add add_kind kind_of kind as_str
origin_AllFault list none v tag = tt
origin_AllFault list (some (n, a)) v tag = rw tag

-- Every value that is parsed by the code ORIGIN makes `serialize_list_add` read a member of the
-- union that was not written.
pub serialize_list_add-origin :
    (m : Mem) (p : Ptr) (n k : ℕ) (v v' : Value) (list : Calls)
    → parse_value m p n (pos 22) v ≡ ok (some k, v')
    → serialize_list_add list v' ≡ fault
unfolding parse_value parse_code repcode_size parse_member
serialize_list_add-origin m p n k v v' list e =
    let each : AllFault list (parse_value m p n (pos 22) v) =
      elim (Bool-cases (n == 0 || ltb n 0)) [
        | inl few ↦ rw few tt
        | inr enough ↦
            rw enough
              (origin_AllFault list (parse_uvari m p n) (record v { repcode = pos 22 }) refl)
      ] in
    rw e at each
