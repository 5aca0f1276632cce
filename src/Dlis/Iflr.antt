-- ===== src/Dlis/Iflr.antt =====
-- dlis.cc: parsing of implicitly formatted records: the frame header and the values of a channel.
pub mod Whole
use dlis_parser.Base.{
  ℕ, zero, suc, ◌+◌, Bool, ◌&&◌, ◌||◌, Option, none, some, List, get_elem?, set, ◌==◌,
  if◌then◌else◌,
}
use dlis_parser.Base.Int.{ℤ, pos, negsuc, pos_part, ◌+ℤ◌, ◌-ℤ◌, sub_ℕ, leb_ℤ}
use dlis_parser.Codec.Number.{Double, of_float, of_double, of_int, of_uint, parse_uvari}
use dlis_parser.Codec.Text.{Obname, parse_obname}
use dlis_parser.Codec.Value.{Outcome, ok, fault, ◌>>=◌, Value, unset, value_invalidate, parse_value}
use dlis_parser.Codec.Serialize.{Calls, new, serialize_list_add, get_scalar_value}
use dlis_parser.Dlis.State.{ParseState, Dlis, Frame, here, with_state}
use dlis_parser.Dlis.Trailing.{trailing_len}
use dlis_parser.Dlis.Eflr.{min_ℤ}

-- The type of a segment that ends the data of a frame.
abbrev pub eod : ℕ
eod = 127

abbrev pub iflr_left : Dlis → ℤ → ℕ → ℤ
iflr_left d trail n =
    min_ℤ (sub_ℕ d.state.lrs_len (d.state.lrs_byte_cnt + n) -ℤ trail)
      (sub_ℕ d.max_byte_idx (d.byte_idx + n))

-- The bytes taken, the name and the index. At the end of data a byte is taken in place of the
-- index, whether or not it has come in, and no index is stored.
unfoldable pub parse_iflr_header : Dlis → Option (ℕ × Obname × Option ℕ) × Dlis
unfolding min_ℤ ◌-ℤ◌
parse_iflr_header d =
    let (trail, d') = trailing_len d in
    (
      elim (parse_obname d'.buffer (here d' 0) (pos_part (iflr_left d' trail 0))) [
        | none ↦ none
        | some (n, name) ↦
            if d'.state.lrs_type == eod
            then some (n + 1, name, none)
            else elim (parse_uvari d'.buffer (here d' n) (pos_part (iflr_left d' trail n))) [
              | none ↦ none
              | some (k, index) ↦ some (n + k, name, some index)
            ]
      ],
      d',
    )

-- The double is 1, in each of its four forms.
unfoldable pub is_one : Double → Bool
is_one (of_float bits) = bits == 0x3f80_0000
is_one (of_double bits) = bits == 0x3ff0_0000_0000_0000
is_one (of_int z) = leb_ℤ z (pos 1) && leb_ℤ (pos 1) z
is_one (of_uint v) = v == 1

-- The object behind a pointer.
unfoldable pub deref {ℓ} : {A : Type ℓ} → List A → Option ℕ → Outcome (ℕ × A)
deref heap none = fault
deref heap (some i) = elim (get_elem? heap i) [ none ↦ fault | some a ↦ ok (i, a) ]

-- The values of the first channel move the bounds of the frame. With the index type set they are
-- the index; the first of a frame whose index is 1 is its minimum.
unfoldable pub frame_bounds : ParseState → Frame → Double → ParseState × Frame
unfolding is_one
frame_bounds s f idx =
    if f.index_type
    then (
      record s { parsing_frame_index = idx },
      record f {
        index_min = if is_one s.parsing_frame_index then idx else f.index_min;
        index_max = idx;
      },
    )
    else (s, record f { index_max = s.parsing_frame_index })

unfoldable pub move_bounds : Dlis → Value → Outcome Dlis
unfolding deref frame_bounds
move_bounds d val = do
  (i, f) ← deref d.frame_heap d.current_frame
  (j, c) ← deref d.channel_heap f.current_channel
  if c.index == 1
      then (do
        idx ← get_scalar_value val
        let (s, f') = frame_bounds d.state f idx
        ok (record d { state = s; frame_heap = set d.frame_heap i f' }))
      else ok d

unfoldable pub add_value : Option Calls → Value → Outcome (Option Calls)
add_value none val = ok none
add_value (some list) val = serialize_list_add list val >>= λ l. ok (some l)

-- The next value of the channel goes into the list.
unfoldable pub take_value : Dlis → Value → Outcome Dlis
unfolding move_bounds add_value ◌+ℤ◌
take_value d val = do
  d' ← move_bounds d val
  list ← add_value d'.state.parsing_iflr_values val
  ok (
      with_state d' (record (d'.state) {
        parsing_iflr_values = list;
        parsing_value_cnt = d'.state.parsing_value_cnt +ℤ pos 1;
      }))

-- The loop over the values that are missing: the bytes taken. It ends at a value that has not come
-- in whole.
unfoldable pub value_loop : ℕ → ℤ → ℕ → Dlis → Outcome (ℕ × Dlis)
unfolding take_value
value_loop zero trail n d = ok (n, d)
value_loop (suc rounds) trail n d =
    let invalid = value_invalidate (record { repcode = pos 0; u = unset }) in
    parse_value d.buffer (here d n) (pos_part (iflr_left d trail n)) d.state.parsing_repcode invalid
    >>= λ (len, val). elim len [
      | none ↦ ok (n, d)
      | some k ↦
          if k == 0
          then ok (n, d)
          else (take_value d val >>= λ d'. value_loop rounds trail (n + k) d')
    ]

-- Which channel the next values belong to; `none` when the frame has no further channel.
unfoldable pub start_channel : Dlis → Outcome (Option Dlis)
unfolding deref
start_channel d =
    let s = d.state in
    if leb_ℤ s.parsing_dimension (pos 0) || leb_ℤ s.parsing_dimension s.parsing_value_cnt
    then (deref d.frame_heap d.current_frame >>= λ (i, f). elim (f.current_channel) [
      | none ↦ ok none
      | some j ↦ deref d.channel_heap (some j) >>= λ (k, c). ok (
          some (
            with_state d (record s {
              parsing_repcode = c.repcode;
              parsing_dimension = c.dimension;
              parsing_value_cnt = pos 0;
            })))
    ])
    else ok (some d)

unfoldable pub no_channel : Dlis → Dlis
no_channel d = with_state d (record (d.state) {
  parsing_repcode = negsuc 0;
  parsing_dimension = negsuc 0;
  parsing_value_cnt = negsuc 0;
})

unfoldable pub open_list : ParseState → ParseState
open_list s = record s {
  parsing_iflr_values = elim (s.parsing_iflr_values) [ none ↦ some new | some l ↦ some l ];
}

-- The bytes taken.
unfoldable pub parse_iflr_data : Dlis → Outcome (ℕ × Dlis)
unfolding start_channel no_channel open_list value_loop ◌-ℤ◌
parse_iflr_data d =
    if d.state.lrs_type == eod
    then ok (0, d)
    else (start_channel d >>= λ next. elim next [
      | none ↦ ok (0, no_channel d)
      | some d₁ ↦
          let d₂ = with_state d₁ (open_list d₁.state) in
          let (trail, d₃) = trailing_len d₂ in
          value_loop (pos_part (d₃.state.parsing_dimension -ℤ d₃.state.parsing_value_cnt)) trail 0
            d₃
    ])
