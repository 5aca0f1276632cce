-- ===== src/Dlis/Tests/Components.antt =====
-- The theorems on the components of sets at small components.
use dlis_parser.Base.{ℕ, ◌+◌, ◌≤◌, ◌≡◌, refl, arith, none, some, [], ◌∷◌}
use dlis_parser.Base.Int.{ℤ, pos, negsuc}
use dlis_parser.Codec.Memory.{SizedStr}
use dlis_parser.Codec.Text.{Obname}
use dlis_parser.Codec.Text.RoundTrip.{str_at}
use dlis_parser.Codec.Value.{ok, Value, uint_val}
use dlis_parser.Codec.Serialize.{
  new, serialize_list_add, also, add_uint32, kind_of, add_kind, as_uint,
}
use dlis_parser.Dlis.State.{Dlis, ParseState, with_state, here}
use dlis_parser.Dlis.Flags.{
  eflr_comp_attr_has_label, eflr_comp_attr_has_count, eflr_comp_attr_has_repcode,
  eflr_comp_attr_has_unit, eflr_comp_set_has_type, eflr_comp_set_has_name,
}
use dlis_parser.Dlis.Samples.{no_str, blank_state, unset, loaded, holding-IsBytes}
use dlis_parser.Dlis.Strings.{strcmp_eq}
use dlis_parser.Dlis.Template.{Attr, eflr_set_template_object_get}
use dlis_parser.Dlis.Template.Queue.{IsQueue, at_index}
use dlis_parser.Dlis.Eflr.{
  parse_eflr_component_set, parse_eflr_component_attrib, parse_eflr_component_object,
  parse_eflr_component_attrib_value,
}
use dlis_parser.Dlis.Eflr.Fields.{Fields, Announces, Fits, filled}
use dlis_parser.Dlis.Eflr.RoundTrip.{
  with_defaults, parse_eflr_component_attrib-template, parse_eflr_component_attrib-object,
}
use dlis_parser.Dlis.Eflr.Sets.{parse_eflr_component_set-set_bytes}
use dlis_parser.Dlis.Events.{in_set}
use dlis_parser.Dlis.Events.Values.Gathered.{
  IsPlain, values_list, on_values, gathered, on_values-gathered,
}
use dlis_parser.Dlis.Eflr.Bounds.{InFront, components-InFront}

abbrev plain_attr : Attr
plain_attr = record { label = no_str; count = pos 1; repcode = pos 19; unit = no_str }

-- A label and a code.
abbrev two_fields : Fields
two_fields = record { label = some (65 ∷ 66 ∷ []); count = none; repcode = some 20; unit = none }

abbrev attribute : ℤ → Dlis
attribute read_idx = record (loaded (2 ∷ 65 ∷ 66 ∷ 20 ∷ [])) {
  state = record blank_state {
    eflr_comp_first_byte = 0x34;
    lrs_len = 10;
    templt_read_idx = read_idx;
  };
}

two_fields-Announces : (z : ℤ) → Announces (attribute z).state two_fields
unfolding eflr_comp_attr_has_label eflr_comp_attr_has_count eflr_comp_attr_has_repcode
    eflr_comp_attr_has_unit
two_fields-Announces z = record { label = refl; count = refl; repcode = refl; unit = refl }

two_fields-Fits : Fits two_fields
two_fields-Fits = record { count = λ c e. cc }

attribute-IsQueue : IsQueue (attribute (negsuc 0)).state 0
attribute-IsQueue = record { places = refl; index = refl; fits = omega arith }

parse_eflr_component_attrib-template_example :
    (s' : ParseState) × (parse_eflr_component_attrib (attribute (negsuc 0)) plain_attr
      ≡ ok (
        filled (attribute (negsuc 0)) two_fields plain_attr,
        some 4,
        with_state (attribute (negsuc 0)) s',
      ))
    × IsQueue s' 1
    × (eflr_set_template_object_get (at_index s' 0)
        ≡ ok (with_defaults (filled (attribute (negsuc 0)) two_fields plain_attr)))
parse_eflr_component_attrib-template_example =
    parse_eflr_component_attrib-template (attribute (negsuc 0)) two_fields plain_attr
      (two_fields-Announces (negsuc 0)) two_fields-Fits (refl, (refl, (refl, (refl, tt))))
      (omega arith, omega arith) 0 0 refl attribute-IsQueue (omega arith)

parse_eflr_component_attrib-object_example :
    parse_eflr_component_attrib (attribute (pos 0)) plain_attr
    ≡ ok (
      filled (attribute (pos 0)) two_fields plain_attr,
      some 4,
      with_state (attribute (pos 0)) (at_index (attribute (pos 0)).state (0 + 1)),
    )
unfolding strcmp_eq
parse_eflr_component_attrib-object_example =
    parse_eflr_component_attrib-object (attribute (pos 0)) two_fields plain_attr
      (two_fields-Announces (pos 0)) two_fields-Fits (refl, (refl, (refl, (refl, tt))))
      (omega arith, omega arith) 0 refl refl

abbrev named_set : Dlis
named_set = record (loaded (1 ∷ 88 ∷ 1 ∷ 89 ∷ [])) {
  state = record blank_state { eflr_comp_first_byte = 0xF8 };
}

parse_eflr_component_set-set_bytes_example :
    parse_eflr_component_set named_set
    ≡ ok
        (some (4, str_at (here named_set 0 + 1) (88 ∷ []), str_at (here named_set 2 + 1) (89 ∷ [])))
unfolding eflr_comp_set_has_type eflr_comp_set_has_name
parse_eflr_component_set-set_bytes_example =
    parse_eflr_component_set-set_bytes named_set (88 ∷ []) (some (89 ∷ [])) refl refl
      (refl, (refl, (refl, (refl, tt)))) (omega arith)

abbrev read_attribute : Dlis
read_attribute = attribute (pos 0)

components-InFront_example :
    ((n : ℕ) (type name : SizedStr)
      → parse_eflr_component_set read_attribute ≡ ok (some (n, type, name))
      → 0 + n ≤ 4)
    × ((n : ℕ) (o : Obname)
        → parse_eflr_component_object read_attribute ≡ ok (some (n, o))
        → InFront read_attribute n)
    × ((n : ℕ) (a a' : Attr) (d' : Dlis)
        → parse_eflr_component_attrib read_attribute a ≡ ok (a', some n, d')
        → InFront read_attribute n)
    × ((n t : ℕ) (v v' : Value) (d' : Dlis)
        → read_attribute.state.lrs_trail_len ≡ pos t
        → parse_eflr_component_attrib_value read_attribute v ≡ ok (some n, v', d')
        → InFront read_attribute n × (0 + n + t ≤ 10))
components-InFront_example =
    components-InFront read_attribute
      (holding-IsBytes (2 ∷ 65 ∷ 66 ∷ 20 ∷ [])
        (omega arith, (omega arith, (omega arith, (omega arith, tt)))))
      (omega arith, omega arith)

-- The last attribute of an object has two values.
abbrev seven : Value
seven = record { repcode = pos 15; u = uint_val 7 }

abbrev last_attribute : Dlis
last_attribute = record unset {
  state = record blank_state {
    attrib_value_cnt = pos 2;
    parsing_set_type = 84 ∷ [];
    parsing_obj_binn = some new;
  };
}

last_attribute-IsPlain : IsPlain last_attribute
unfolding in_set strcmp_eq
last_attribute-IsPlain = record { no_header = refl; no_channels = refl; no_frames = refl }

two_sevens :
    values_list new (seven ∷ seven ∷ []) ≡ ok (also (also new (add_uint32 7)) (add_uint32 7))
unfolding values_list serialize_list_add kind_of add_kind as_uint
two_sevens = refl

on_values-gathered_example :
    on_values last_attribute no_str (seven ∷ seven ∷ [])
    ≡ ok (gathered last_attribute new no_str (also (also new (add_uint32 7)) (add_uint32 7)))
on_values-gathered_example =
    on_values-gathered last_attribute no_str new new (also (also new (add_uint32 7)) (add_uint32 7))
      seven (seven ∷ []) last_attribute-IsPlain refl refl refl two_sevens
