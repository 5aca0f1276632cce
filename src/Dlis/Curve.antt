-- ===== src/Dlis/Curve.antt =====
-- dlis.cc, write_to_curve_file, and common.cc, is_null_value: a line of a curve file from the items
-- of a binn list. How binn stores an item, and `atof`, are not here: an item is what binn gives back.
pub mod Columns
use dlis_parser.Base.{ℕ, Bool, false, ◌||◌, ◌==◌, List, [], ◌∷◌, ◌++◌, if◌then◌else◌}
use dlis_parser.Base.Int.{ℤ, pos, negsuc}
use dlis_parser.Codec.Number.{Double}
use dlis_parser.Codec.Serialize.{int32}
use dlis_parser.Dlis.Strings.{c_str}

-- An item by its binn type. The types of 8, 16 and 32 bits are treated alike; a float and a double
-- are their bits. `other_item` is of a type that the switches do not name.
pub data Item : Type 0 where
  int_item int64_item : ℤ → Item
  uint_item uint64_item float_item double_item : ℕ → Item
  string_item : List ℕ → Item
  object_item other_item : Item

-- -9999, -999 and -999.25, as integers and in the bits of a float and of a double.
unfoldable pub is_null_int : ℤ → Bool
is_null_int (pos n) = false
is_null_int (negsuc n) = n == 9998 || n == 998

unfoldable pub is_null_float : ℕ → Bool
is_null_float bits = bits == 0xC61C_3C00 || (bits == 0xC479_C000 || bits == 0xC479_D000)

unfoldable pub is_null_double : ℕ → Bool
is_null_double bits =
    bits == 0xC0C3_8780_0000_0000
    || (bits == 0xC08F_3800_0000_0000 || bits == 0xC08F_3A00_0000_0000)

-- A number that is not negative is no null value, and an object counts as 0.
unfoldable pub is_null_value : (List ℕ → ℕ) → Item → Bool
unfolding is_null_int is_null_float is_null_double c_str
is_null_value atof (int_item z) = is_null_int z
is_null_value atof (int64_item z) = is_null_int z
is_null_value atof (uint_item v) = false
is_null_value atof (uint64_item v) = false
is_null_value atof (float_item bits) = is_null_float bits
is_null_value atof (double_item bits) = is_null_double bits
is_null_value atof (string_item s) = is_null_double (atof (c_str s))
is_null_value atof object_item = false
is_null_value atof other_item = false

-- What `fprintf` puts into the line: an index by "%f", a number by "%d" or its relatives, a float or
-- a double by "%.10e", a string in quotes.
pub data Field : Type 0 where
  index_field : Double → Field
  int_field : ℤ → Field
  uint_field float_field double_field : ℕ → Field
  string_field : List ℕ → Field
  null_field end_line : Field

-- An unsigned number of 32 bits goes through "%d". An object and an item of another type put
-- nothing into the line.
unfoldable pub write_item : Item → List Field
unfolding c_str
write_item (int_item z) = int_field z ∷ []
write_item (int64_item z) = int_field z ∷ []
write_item (uint_item v) = int_field (int32 v) ∷ []
write_item (uint64_item v) = uint_field v ∷ []
write_item (float_item bits) = float_field bits ∷ []
write_item (double_item bits) = double_field bits ∷ []
write_item (string_item s) = string_field (c_str s) ∷ []
write_item object_item = []
write_item other_item = []

unfoldable pub write_items : (List ℕ → ℕ) → List Item → List Field
unfolding is_null_value write_item
write_items atof [] = end_line ∷ []
write_items atof (i ∷ is) =
    (if is_null_value atof i then null_field ∷ [] else write_item i) ++ write_items atof is

unfoldable pub write_to_curve_file : (List ℕ → ℕ) → Double → List Item → List Field
unfolding write_items
write_to_curve_file atof index items = index_field index ∷ write_items atof items
