-- ===== src/Dlis/Tests/Curve.antt =====
-- The theorems on the lines of curve files at short lists.
use dlis_parser.Base.{ℕ, ◌≡◌, refl, List, [], ◌∷◌}
use dlis_parser.Base.Int.{pos, negsuc}
use dlis_parser.Codec.Number.{of_uint}
use dlis_parser.Dlis.Curve.{
  Item, int_item, float_item, index_field, int_field, float_field, null_field, end_line,
  write_to_curve_file, is_null_value, is_null_int, is_null_float, write_items, write_item,
}

abbrev no_atof : List ℕ → ℕ
no_atof s = 0

abbrev three_values : List Item
three_values = int_item (pos 7) ∷ int_item (negsuc 998) ∷ float_item 0x3F80_0000 ∷ []

three_values-line :
    write_to_curve_file no_atof (of_uint 1) three_values
    ≡ index_field (of_uint 1)
      ∷ (int_field (pos 7) ∷ null_field ∷ float_field 0x3F80_0000 ∷ end_line ∷ [])
unfolding write_to_curve_file write_items write_item is_null_value is_null_int is_null_float
three_values-line = refl
