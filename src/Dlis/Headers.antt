-- ===== src/Dlis/Headers.antt =====
-- dlis.cc: the storage unit label, the headers of visible records and segments, the bytes that are
-- skipped, and the bytes that are carried over from one segment to the next.
pub mod Blocks
pub mod RoundTrip
use dlis_parser.Base.{
  ℕ, zero, suc, ◌+◌, ◌-◌, not, ◌||◌, ◌&&◌, Option, none, some, List, [], ◌∷◌, length, take, ltb,
  leb, ◌==◌, if◌then◌else◌,
}
use dlis_parser.Base.Int.{ℤ, pos, negsuc, pos_part, sub_ℕ, ltb_ℤ, leb_ℤ}
use dlis_parser.Codec.Memory.{Ptr, Mem, bytes}
use dlis_parser.Codec.Number.{parse_ushort, parse_unorm}
use dlis_parser.Codec.Text.{trim, is_integer}
use dlis_parser.Codec.Value.{Outcome, ok, exit, fault, ◌>>=◌, unset, parse_value, value_invalidate}
use dlis_parser.Codec.Serialize.{as_uint}
use dlis_parser.Dlis.State.{Dlis, cell, here, avail, lrs_remain, memmove}
use dlis_parser.Dlis.Trailing.{trailing_len}

abbrev pub sul_len : ℕ
sul_len = 80

abbrev pub vr_header_len : ℕ
vr_header_len = 4

abbrev pub lrs_header_len : ℕ
lrs_header_len = 4

unfoldable pub count_zeros : List ℕ → ℕ
count_zeros [] = 0
count_zeros (b ∷ bs) = if b == 0 then suc (count_zeros bs) else count_zeros bs

-- A field that `trim` does not write is read uninitialised.
unfoldable pub written : Option (List ℕ) × ℕ → Outcome (List ℕ)
written (none, _) = fault
written (some s, _) = ok s

-- The test of `on_sul` on the second character of the version. A version of no characters leaves
-- that one uninitialised.
unfoldable pub on_sul : List ℕ → Outcome (Unit {0})
on_sul [] = fault
on_sul (a ∷ []) = exit
on_sul (a ∷ b ∷ cs) = if b == b'1' then ok tt else exit

-- Both number fields are checked, and then the version. The other fields are only printed.
unfoldable pub check_sul : Mem → Ptr → Outcome (Unit {0})
unfolding written on_sul
check_sul m sul = do
  seq ← written (trim m 4 sul)
  max_rec_len ← written (trim m 5 (sul + 15))
  if not (is_integer seq (length seq)) || not (is_integer max_rec_len (length max_rec_len))
      then exit
      else written (trim m 5 (sul + 4)) >>= on_sul

-- Six zeros among the first twelve bytes mean that blocks of twelve bytes stand around the label;
-- `nType` then stays set.
unfoldable pub parse_sul : Dlis → Outcome (Option ℕ × Dlis)
unfolding count_zeros check_sul
parse_sul d =
    let n_type = leb 6 (count_zeros (bytes d.buffer (here d 0) 12)) || d.n_type in
    let checked = check_sul d.buffer (if n_type then here d 12 else here d 0) in
    if ltb_ℤ (avail d) (pos sul_len)
    then ok (none, d)
    else (checked >>= λ _.
        ok (some (if n_type then 12 + sul_len + 12 else sul_len), record d { n_type = n_type }))

-- The loop that skips blocks of twelve bytes: the index from which the header is read, as a
-- distance from `byte_idx`. `none`: more bytes are wanted.
unfoldable pub skip_blocks : ℕ → Dlis → ℕ → Option ℕ
skip_blocks zero d i = none
skip_blocks (suc fuel) d i =
    let rest = skip_blocks fuel d (i + 12) in
    if d.n_type && not (d.buffer (here d (i + 2)) == 0xFF)
    then (if ltb_ℤ (sub_ℕ d.max_byte_idx (d.byte_idx + i)) (pos 12) then none else rest)
    else some i

-- The marker byte and the version behind the length.
unfoldable pub vr_marker : Dlis → ℕ → ℕ → Option ℕ → Option (ℕ × ℕ × ℕ)
vr_marker d i vr_len none = none
vr_marker d i vr_len (some n) =
    if d.buffer (here d (i + n)) == 0xFF
    then some (i + n + 2, vr_len, d.buffer (here d (i + n + 1)))
    else none

-- The header behind the skipped blocks.
unfoldable pub vr_fields : Dlis → ℕ → Outcome (Option (ℕ × ℕ × ℕ))
unfolding vr_marker
vr_fields d i =
    let left = sub_ℕ d.max_byte_idx (d.byte_idx + i) in
    let invalid = value_invalidate (record { repcode = pos 0; u = unset }) in
    if ltb_ℤ left (pos vr_header_len) then ok none else do
      (nbytes, val) ← parse_value d.buffer (here d i) (pos_part left) (pos 16) invalid
      vr_len ← as_uint (val.u)
      ok (vr_marker d i vr_len nbytes)

-- The bytes taken, the length and the version. Each round of the loop passes twelve bytes that are
-- there, so `max_byte_idx` rounds are enough.
unfoldable pub parse_vr_header : Dlis → Outcome (Option (ℕ × ℕ × ℕ))
unfolding skip_blocks vr_fields
parse_vr_header d = elim (skip_blocks (suc d.max_byte_idx) d 0) [
  | none ↦ ok none
  | some i ↦ vr_fields d i
]

pub record LrsHeader : Type 0 where
  pub lrs_len : ℕ
  pub lrs_attr : ℕ
  pub lrs_type : ℕ

-- The carried bytes are put in front of the body, over the header and what precedes it, and both
-- lengths grow by them.
unfoldable pub restored : LrsHeader → Dlis → LrsHeader × Dlis
restored h d =
    let k = d.state.unparsed_buff_len in
    (
      record h { lrs_len = h.lrs_len + k },
      record d {
        buffer =
            memmove d.buffer (cell d.buffer_idx (d.byte_idx + lrs_header_len - k))
              (take k d.state.unparsed_buff);
        byte_idx = d.byte_idx - k;
        state = record (d.state) { vr_len = d.state.vr_len + k; unparsed_buff_len = 0 };
      },
    )

-- Without room for the carried bytes in front of the body the write leaves the buffer, or the index
-- becomes negative.
unfoldable pub restore_unparsed : LrsHeader → Dlis → Outcome (LrsHeader × Dlis)
unfolding restored
restore_unparsed h d =
    if d.state.unparsed_buff_len == 0
    then ok (h, d)
    else if ltb (d.byte_idx + lrs_header_len) d.state.unparsed_buff_len
    then fault
    else if ltb d.byte_idx d.state.unparsed_buff_len
    then fault
    else ok (restored h d)

-- The value that a parser stores; the pointers here are never NULL.
abbrev pub stored_out : Option (ℕ × ℕ) → ℕ
stored_out none = 0
stored_out (some (_, v)) = v

unfoldable pub lrs_fields : Dlis → LrsHeader
lrs_fields d = record {
  lrs_len = stored_out (parse_unorm d.buffer (here d 0));
  lrs_attr = d.buffer (here d 2);
  lrs_type = stored_out (parse_ushort d.buffer (here d 3));
}

unfoldable pub parse_lrs_header : Dlis → Outcome (Option (ℕ × LrsHeader) × Dlis)
unfolding restore_unparsed lrs_fields
parse_lrs_header d =
    if ltb_ℤ (avail d) (pos lrs_header_len)
    then ok (none, d)
    else (restore_unparsed (lrs_fields d) d >>= λ (h, d'). ok (some (lrs_header_len, h), d'))

-- An encrypted segment is passed over whole.
unfoldable pub parse_lrs_encryption_packet : Dlis → ℤ
parse_lrs_encryption_packet d =
    if leb_ℤ (lrs_remain d.state) (avail d) then lrs_remain d.state else negsuc 0

-- A remainder that is not the length of the trailer is only reported.
unfoldable pub parse_lrs_trailing : Dlis → ℤ × Dlis
parse_lrs_trailing d =
    let (_, d') = trailing_len d in
    (if ltb_ℤ (avail d') (lrs_remain d'.state) then negsuc 0 else lrs_remain d'.state, d')
