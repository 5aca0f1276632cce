-- ===== src/Codec/Text.antt =====
-- common.cc: the representation codes that hold text and names, `trim` and `is_integer`.
pub mod Range
pub mod RoundTrip
use dlis_parser.Base.{
  ℕ, zero, suc, ◌+◌, ◌-◌, Bool, true, false, ◌&&◌, ◌||◌, Option, none, some, List, [], ◌∷◌, reverse,
  length, ltb, leb, ◌==◌, if◌then◌else◌, ◌>>=◌,
}
use dlis_parser.Base.Int.{pos}
use dlis_parser.Codec.Memory.{Ptr, null, Mem, SizedStr}
use dlis_parser.Codec.Number.{load16, parse_ushort, parse_uvari}

pub record Obname : Type 0 where
  pub origin : ℕ
  pub copy_number : ℕ
  pub name : SizedStr

pub record Objref : Type 0 where
  pub type : SizedStr
  pub name : Obname

-- `ms` keeps the byte order of the file, as in the C struct.
pub record Dtime : Type 0 where
  pub year : ℕ
  pub tz_and_month : ℕ
  pub day : ℕ
  pub hour : ℕ
  pub minute : ℕ
  pub second : ℕ
  pub ms : ℕ

unfoldable pub parse_ident : Mem → Ptr → ℕ → Option (ℕ × SizedStr)
unfolding parse_ushort
parse_ident m buff buff_len = if buff == null || ltb buff_len 1 then none else do
  (_, len) ← parse_ushort m buff
  if ltb (buff_len - 1) len then none else some (len + 1, record { buff = buff + 1; len = pos len })

unfoldable pub parse_ascii : Mem → Ptr → ℕ → Option (ℕ × SizedStr)
parse_ascii m buff buff_len = if buff == null || ltb buff_len 1 then none else do
  (nbytes_read, len) ← parse_uvari m buff buff_len
  if ltb (buff_len - nbytes_read) len
      then none
      else some (len + nbytes_read, record { buff = buff + nbytes_read; len = pos len })

unfoldable pub parse_obname : Mem → Ptr → ℕ → Option (ℕ × Obname)
unfolding parse_ushort
parse_obname m buff buff_len = if buff == null || buff_len == 0 then none else do
  (origin_len, origin) ← parse_uvari m buff buff_len
  if ltb buff_len (origin_len + 1) then none else do
    (_, copy_number) ← parse_ushort m (buff + origin_len)
    (name_len, name) ← parse_ident m (buff + origin_len + 1) (buff_len - origin_len - 1)
    some (
      origin_len + 1 + name_len,
      record { origin = origin; copy_number = copy_number; name = name },
    )

unfoldable pub parse_objref : Mem → Ptr → ℕ → Option (ℕ × Objref)
parse_objref m buff buff_len = if buff == null || buff_len == 0 then none else do
  (type_len, type) ← parse_ident m buff buff_len
  (name_len, name) ← parse_obname m (buff + type_len) (buff_len - type_len)
  some (type_len + name_len, record { type = type; name = name })

unfoldable pub parse_dtime : Mem → Ptr → ℕ → Option (ℕ × Dtime)
unfolding load16
parse_dtime m buff buff_len =
    if ltb buff_len 8
    then none
    else some (
      8,
      record {
        year = m buff;
        tz_and_month = m (buff + 1);
        day = m (buff + 2);
        hour = m (buff + 3);
        minute = m (buff + 4);
        second = m (buff + 5);
        ms = load16 m (buff + 6);
      },
    )

-- isspace in the C locale: tab to carriage return, and the blank.
unfoldable pub is_space : ℕ → Bool
is_space c = (leb 9 c && leb c 13) || c == 32

unfoldable pub is_digit : ℕ → Bool
is_digit c = leb b'0' c && leb c b'9'

unfoldable pub drop_spaces : List ℕ → List ℕ
unfolding is_space
drop_spaces [] = []
drop_spaces (c ∷ cs) = if is_space c then drop_spaces cs else c ∷ cs

-- The bytes before the first NUL, `len` at most: all that `trim` reads of `str`.
unfoldable pub string_at : Mem → Ptr → ℕ → List ℕ
string_at m str zero = []
string_at m str (suc len) =
    let rest = string_at m (str + 1) len in if m str == 0 then [] else m str ∷ rest

-- The text from its first character that is no space: all spaces, or the end is cut.
trim_end : List ℕ → Option (List ℕ) × ℕ
unfolding drop_spaces
trim_end [] = (some [], 1)
trim_end (c ∷ cs) = let out = c ∷ reverse (drop_spaces (reverse cs)) in (some out, length out)

trim_start : List ℕ → Option (List ℕ) × ℕ
unfolding trim_end drop_spaces
trim_start [] = (none, 0)
trim_start (c ∷ cs) = trim_end (drop_spaces (c ∷ cs))

-- What `trim` writes into `out` before the NUL (`none`: it does not write), and its result.
unfoldable pub trim : Mem → ℕ → Ptr → Option (List ℕ) × ℕ
unfolding string_at trim_start
trim m len str = trim_start (string_at m str len)

-- The loop over a string of `len` characters at most, which ends at a NUL.
unfoldable pub is_integer : List ℕ → ℕ → Bool
unfolding is_digit
is_integer [] len = true
is_integer (c ∷ cs) zero = true
is_integer (c ∷ cs) (suc len) =
    let rest = is_integer cs len in if c == 0 then true else if is_digit c then rest else false
