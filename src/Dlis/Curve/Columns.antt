-- ===== src/Dlis/Curve/Columns.antt =====
-- dlis.cc, write_to_curve_file: which value stands in which column of the line.
use dlis_parser.Base.{suc, ◌+◌, ◌*◌, ◌||◌, ◌==◌, Bool, false, ℕ, ◌-◌, ◌^◌, List, if◌then◌else◌}
use dlis_parser.Base.Int.{ℤ, pos, negsuc}
use dlis_parser.Codec.Serialize.{int32}
use dlis_parser.Dlis.Curve.{
  Item, int_item, int64_item, uint_item, uint64_item, float_item, double_item, string_item,
  object_item, other_item, Field, int_field, uint_field, float_field, double_field, string_field,
  null_field,
}
use dlis_parser.Dlis.Strings.{c_str}

-- The items that have a column.
pub data HasColumn : Item → Type 0 where
  an_int : {z : ℤ} → HasColumn (int_item z)
  an_int64 : {z : ℤ} → HasColumn (int64_item z)
  a_uint : {v : ℕ} → HasColumn (uint_item v)
  a_uint64 : {v : ℕ} → HasColumn (uint64_item v)
  a_float : {bits : ℕ} → HasColumn (float_item bits)
  a_double : {bits : ℕ} → HasColumn (double_item bits)
  a_string : {s : List ℕ} → HasColumn (string_item s)

-- The field that stands for an item, by itself.
abbrev pub column : Item → Field
unfolding c_str
column (int_item z) = int_field z
column (int64_item z) = int_field z
column (uint_item v) = int_field (int32 v)
column (uint64_item v) = uint_field v
column (float_item bits) = float_field bits
column (double_item bits) = double_field bits
column (string_item s) = string_field (c_str s)
column object_item = null_field
column other_item = null_field

-- The bits of the float and of the double -n / 4, where 2^e is the greatest power of two up to n.
abbrev pub float_bits : ℕ → ℕ → ℕ
float_bits e n = 2 ^ 31 + (127 + e - 2) * 2 ^ 23 + (n - 2 ^ e) * 2 ^ (23 - e)

abbrev pub double_bits : ℕ → ℕ → ℕ
double_bits e n = 2 ^ 63 + (1023 + e - 2) * 2 ^ 52 + (n - 2 ^ e) * 2 ^ (52 - e)

-- -9999, -999 and -999.25, as quarters.
abbrev pub one_of_three : (ℕ → ℕ → ℕ) → ℕ → Bool
one_of_three bits_of b = b == bits_of 15 39996 || (b == bits_of 11 3996 || b == bits_of 11 3997)

-- -9999 and -999.
abbrev pub one_of_two : ℤ → Bool
one_of_two (pos n) = false
one_of_two (negsuc n) = suc n == 9999 || suc n == 999

abbrev pub null : (List ℕ → ℕ) → Item → Bool
unfolding c_str
null atof (int_item z) = one_of_two z
null atof (int64_item z) = one_of_two z
null atof (float_item bits) = one_of_three float_bits bits
null atof (double_item bits) = one_of_three double_bits bits
null atof (string_item s) = one_of_three double_bits (atof (c_str s))
null atof other = false

abbrev pub value_field : (List ℕ → ℕ) → Item → Field
value_field atof i = if null atof i then null_field else column i
