-- ===== src/Codec/Tests.antt =====
-- The theorems on values at small inputs.
use dlis_parser.Base.{
  ◌≤◌, ◌⊎◌, ltb, if◌then◌else◌, ℕ, ◌-◌, ◌≡◌, refl, none, some, List, [], ◌∷◌, get_elem?, arith,
}
use dlis_parser.Base.Int.{pos, negsuc}
use dlis_parser.Codec.Serialize.{
  Kind, Key, kind_of, serialize_value, Call, new, also, serialize_list_add,
}
use dlis_parser.Codec.Serialize.Taken.{parse_value_taken}
use dlis_parser.Codec.Serialize.Keyed.{Matches, serialize_value-serialize_list_add}
use dlis_parser.Codec.Value.{
  fault, ok, Value, unset, lstr, obname_val, objref_val, uint_val, parse_value, byte, RepCode,
  parse_code, repcode_size, parse_member, stored,
}
use dlis_parser.Codec.Number.{parse_ushort, parse_slong, parse_uvari, parse_unorm, htons, load16}
use dlis_parser.Codec.Serialize.Origin.{serialize_list_add-origin}
use dlis_parser.Codec.Number.Signed.{parse_slong-ulong_bytes}
use dlis_parser.Codec.Memory.{Mem, IsBytes, Agree}
use dlis_parser.Codec.Number.RoundTrip.{uvari_bytes, parse_uvari-uvari_bytes}
use dlis_parser.Codec.Value.Range.{parse_value_bounds}
use dlis_parser.Codec.Value.Local.{parse_value-Agree}
use dlis_parser.Codec.Value.RoundTrip.{
  parse_value-ascii_bytes, parse_value-obname_bytes, parse_value-objref_bytes,
}
use dlis_parser.Codec.Serialize.Parsed.{serialize_list_add-parse_value}

-- A memory that holds a list of bytes from address 1 on.
abbrev holding : List ℕ → Mem
holding bs p = elim (get_elem? bs (p - 1)) [ none ↦ 0 | some b ↦ b ]

abbrev empty_value : Value
empty_value = record { repcode = pos 0; u = unset }

abbrev number : Mem
number = holding (0x81 ∷ 0x2C ∷ 7 ∷ [])

parse_uvari-uvari_bytes_example : parse_uvari number 1 3 ≡ some (2, 300)
unfolding uvari_bytes
parse_uvari-uvari_bytes_example =
    parse_uvari-uvari_bytes number 1 300 3 (omega arith) (omega arith) (omega arith)
      (refl, (refl, tt))

abbrev text_mem : Mem
text_mem = holding (2 ∷ 72 ∷ 73 ∷ [])

parse_value-ascii_bytes_example :
    parse_value text_mem 1 3 (pos 20) empty_value
    ≡ ok (some 3, record { repcode = pos 19; u = lstr (72 ∷ 73 ∷ []) })
unfolding uvari_bytes
parse_value-ascii_bytes_example =
    parse_value-ascii_bytes text_mem 1 3 (omega arith) empty_value (72 ∷ 73 ∷ []) (omega arith)
      (omega arith) (refl, (refl, (refl, tt)))

abbrev name_mem : Mem
name_mem = holding (5 ∷ 1 ∷ 2 ∷ 72 ∷ 73 ∷ [])

parse_value-obname_bytes_example :
    parse_value name_mem 1 5 (pos 23) empty_value
    ≡ ok (
      some 5,
      record {
        repcode = pos 23;
        u = obname_val (record { origin = 5; copy_number = 1; name = 72 ∷ 73 ∷ [] });
      },
    )
unfolding uvari_bytes
parse_value-obname_bytes_example =
    parse_value-obname_bytes name_mem 1 5 (omega arith) empty_value 5 1 (72 ∷ 73 ∷ []) (omega arith)
      (omega arith) (omega arith) (refl, (refl, (refl, (refl, (refl, tt)))))

abbrev ref_mem : Mem
ref_mem = holding (1 ∷ 80 ∷ 5 ∷ 1 ∷ 2 ∷ 72 ∷ 73 ∷ [])

parse_value-objref_bytes_example :
    parse_value ref_mem 1 7 (pos 24) empty_value
    ≡ ok (
      some 7,
      record {
        repcode = pos 24;
        u = objref_val (byte 5 ∷ []) (record { origin = 5; copy_number = 1; name = 72 ∷ 73 ∷ [] });
      },
    )
unfolding uvari_bytes
parse_value-objref_bytes_example =
    parse_value-objref_bytes ref_mem 1 7 (omega arith) empty_value (80 ∷ []) 5 1 (72 ∷ 73 ∷ [])
      (omega arith) (omega arith) (omega arith) (omega arith)
      (refl, (refl, (refl, (refl, (refl, (refl, (refl, tt)))))))

-- Memories that agree up to the third byte, and not behind it.
abbrev near : Mem
near p = if ltb p 4 then 2 else 0

abbrev far : Mem
far p = if ltb p 4 then 2 else 9

near-IsBytes : IsBytes near
near-IsBytes p = ground arith

far-IsBytes : IsBytes far
far-IsBytes p = ground arith

near_agrees : Agree near far 1 2
near_agrees i less = ground arith

abbrev two_bytes : Value
two_bytes = record { repcode = pos 16; u = uint_val 514 }

parse_value-near : parse_value near 1 3 (pos 16) empty_value ≡ ok (some 2, two_bytes)
unfolding parse_value parse_code repcode_size parse_member stored parse_unorm htons load16
parse_value-near = refl

parse_value_bounds_example : 2 ≤ 3
parse_value_bounds_example =
    parse_value_bounds near 1 3 near-IsBytes (pos 16) empty_value two_bytes 2 parse_value-near

parse_value-Agree_example :
    parse_value near 1 2 (pos 16) empty_value ≡ parse_value far 1 2 (pos 16) empty_value
parse_value-Agree_example =
    parse_value-Agree near far 1 2 far-IsBytes near_agrees (pos 16) empty_value

serialize_list_add-parse_value_example :
    (call : Call) × (serialize_list_add new two_bytes ≡ ok (also new call))
serialize_list_add-parse_value_example =
    serialize_list_add-parse_value near 1 3 empty_value two_bytes 16 2 RepCode.unorm new
      (omega arith) refl refl parse_value-near

parse_value_taken_example : (1 ≤ 3) × ((1 ≤ 2) ⊎ (kind_of two_bytes.repcode ≡ Kind.attr_kind))
parse_value_taken_example =
    parse_value_taken near 1 3 (pos 16) empty_value two_bytes 2 parse_value-near

serialize_value-serialize_list_add_example :
    Matches new new Key.name
      (serialize_list_add new two_bytes)
      (serialize_value new Key.name two_bytes)
serialize_value-serialize_list_add_example =
    serialize_value-serialize_list_add new new Key.name two_bytes

parse_slong-ulong_bytes_example :
    parse_slong (holding (0xFF ∷ 0xFF ∷ 0xFF ∷ 0xFE ∷ [])) 1 ≡ some (4, negsuc 1)
parse_slong-ulong_bytes_example =
    parse_slong-ulong_bytes (holding (0xFF ∷ 0xFF ∷ 0xFF ∷ 0xFE ∷ [])) 1 (omega arith) (negsuc 1)
      (omega arith) (refl, (refl, (refl, (refl, tt))))

abbrev origin_value : Value
origin_value = record { repcode = pos 22; u = uint_val 2 }

parse_value-origin : parse_value near 1 3 (pos 22) empty_value ≡ ok (some 1, origin_value)
unfolding parse_value parse_code repcode_size parse_member stored parse_uvari parse_ushort
parse_value-origin = refl

serialize_list_add-origin_example : serialize_list_add new origin_value ≡ fault
serialize_list_add-origin_example =
    serialize_list_add-origin near 1 3 1 empty_value origin_value new parse_value-origin
