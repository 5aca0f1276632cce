-- ===== src/Dlis/Measure/Values.antt =====
-- dlis.cc, parse_iflr_data: the values of a channel take a byte, or there are none to take.
use dlis_parser.Base.{
  ℕ, zero, suc, ◌+◌, ◌≤◌, ◌<◌, ◌≡◌, ◌⊎◌, ap, ◌∙◌, arith, true, false, Bool-cases, Option-cases, inl,
  inr, some, List, ◌==◌, ◌||◌,
}
use dlis_parser.Base.Int.{ℤ, pos, pos_part, leb_ℤ, ◌-ℤ◌}
use dlis_parser.Codec.Outcome.{bind-ok}
use dlis_parser.Codec.Value.{ok, Value, parse_value}
use dlis_parser.Codec.Serialize.Taken.{parse_value_taken}
use dlis_parser.Codec.Serialize.{get_scalar_value}
use dlis_parser.Dlis.State.{Dlis, ParseCode, Frame, with_state, here}
use dlis_parser.Dlis.Trailing.{trailing_len}
use dlis_parser.Dlis.Skip.Saved.{known_trail}
use dlis_parser.Dlis.Iflr.{
  eod, iflr_left, deref, frame_bounds, move_bounds, add_value, take_value, value_loop,
  start_channel, no_channel, open_list, parse_iflr_data,
}
use dlis_parser.Dlis.Eflr.{min_ℤ}
use dlis_parser.Dlis.Measure.{left, input, input_parts}

-- The input with the type of the segment and the size of a value.
abbrev pub data_input : Dlis → (ℕ × ℕ × ℕ × ParseCode × ℤ × List ℕ) × ℕ × ℤ
data_input d = (input d, d.state.lrs_type, d.state.parsing_dimension)

bounds_same :
    (d : Dlis) (f : Frame) (idx : _)
    → data_input (with_state d (frame_bounds d.state f idx).0) ≡ data_input d
unfolding frame_bounds
bounds_same d f idx = ground arith

move_bounds_same :
    (d d' : Dlis) (val : Value) → move_bounds d val ≡ ok d' → data_input d' ≡ data_input d
unfolding move_bounds frame_bounds
move_bounds_same d d' val e =
    let ((i, f), e₁, rest₁) = bind-ok (deref d.frame_heap d.current_frame) _ d' e in
    let ((j, c), e₂, rest₂) = bind-ok (deref d.channel_heap f.current_channel) _ d' rest₁ in
    elim (Bool-cases (c.index == 1)) [
      | inl first ↦
          (let (idx, e₃, rest₃) = bind-ok (get_scalar_value val) _ d' (rw first at rest₂) in
            ground (arith, bounds_same d f idx))
      | inr other ↦ ground (arith, rw other at rest₂)
    ]

pub take_value_same :
    (d d' : Dlis) (val : Value) → take_value d val ≡ ok d' → data_input d' ≡ data_input d
unfolding take_value
take_value_same d d' val e =
    let (d₁, e₁, rest) = bind-ok (move_bounds d val) _ d' e in
    let (list, e₂, done) = bind-ok (add_value d₁.state.parsing_iflr_values val) _ d' rest in
    let same = move_bounds_same d d₁ val e₁ in ground arith

iflr_left-left : (d : Dlis) (trail : ℤ) (n : ℕ) → 1 ≤ pos_part (iflr_left d trail n) → 1 ≤ left d
unfolding min_ℤ
iflr_left-left d trail n le = ground arith

value_loop_lem :
    (rounds : ℕ) (trail : ℤ) (n n' : ℕ) (d d' : Dlis)
    → value_loop rounds trail n d ≡ ok (n', d')
    → (data_input d' ≡ data_input d) × (((n' ≡ n) × (d' ≡ d)) ⊎ ((n < n') × (1 ≤ left d)))
unfolding value_loop
value_loop_lem zero trail n n' d d' e = ground arith
value_loop_lem (suc rounds) trail n n' d d' e =
    let ((len, val), parsed, rest) =
      bind-ok
        (parse_value d.buffer (here d n) (pos_part (iflr_left d trail n)) d.state.parsing_repcode _)
        _ (n', d') e in
    elim (Option-cases len) [
      | inl cut ↦ ground (arith, rw cut at rest)
      | inr (k, whole) ↦ elim (Bool-cases (k == 0)) [
        | inl nothing ↦ ground (arith, rw (whole, nothing) at rest)
        | inr taken ↦
            (let (d₁, e₁, rest₁) =
                bind-ok (take_value d val) _ (n', d') (rw (whole, taken) at rest) in
              let (same, how) = value_loop_lem rounds trail (n + k) n' d₁ d' rest₁ in
              let first = take_value_same d d₁ val e₁ in
              let there =
                iflr_left-left d trail n
                  (parse_value_taken d.buffer (here d n) _ d.state.parsing_repcode _ val k
                    (parsed ∙ ap (λ l. ok (l, val)) whole)).0 in
              (
                same ∙ first,
                inr (
                  elim how [
                    | inl (at, d_same) ↦ ground arith
                    | inr (more, some_left) ↦ omega arith
                  ],
                  there,
                ),
              ))
      ]
    ]

-- If no value is missing, it is because none was to come.
abbrev pub Sized : Dlis → Type 0
Sized d =
    leb_ℤ d.state.parsing_dimension d.state.parsing_value_cnt ≡ true
    → leb_ℤ d.state.parsing_dimension (pos 0) ≡ true

start_channel_lem :
    (d d₁ : Dlis)
    → start_channel d ≡ ok (some d₁)
    → (input d₁ ≡ input d) × (d₁.state.lrs_type ≡ d.state.lrs_type) × Sized d₁
unfolding start_channel
start_channel_lem d d₁ e =
    elim (Bool-cases (
      leb_ℤ d.state.parsing_dimension (pos 0)
      || leb_ℤ d.state.parsing_dimension d.state.parsing_value_cnt)) [
        | inr same ↦ ground (arith, rw same at e)
        | inl next ↦
            (let ((i, f), e₁, rest₁) =
                bind-ok (deref d.frame_heap d.current_frame) _ (some d₁) (rw next at e) in
              elim (Option-cases (f.current_channel)) [
                | inl none_left ↦ absurd (ground (arith, rw none_left at rest₁))
                | inr (j, current) ↦
                    (let ((k, c), e₂, rest₂) =
                        bind-ok (deref d.channel_heap (some j)) _ (some d₁) (rw current at rest₁) in
                      ground arith)
              ])
      ]

-- The bytes that the values take: one at least, or none where the size of a value is no size, or
-- where a value is missing.
pub parse_iflr_data_lem :
    (t n : ℕ) (d d' : Dlis)
    → d.state.lrs_trail_len ≡ pos t
    → parse_iflr_data d ≡ ok (n, d')
    → (d.state.lrs_type == eod) ≡ false
    → (input d' ≡ input d)
      × (d'.state.lrs_type ≡ d.state.lrs_type)
      × (((1 ≤ n) × (1 ≤ left d)) ⊎ ((n ≡ 0) × Sized d'))
unfolding parse_iflr_data no_channel open_list
parse_iflr_data_lem t n d d' known e no_eod =
    let (next, started, rest) = bind-ok (start_channel d) _ (n, d') (rw no_eod at e) in
    elim (Option-cases next) [
      | inl none_left ↦ ground (arith, rw none_left at rest)
      | inr (d₁, going) ↦
          (let (same, same_type, size) = start_channel_lem d d₁ (started ∙ ap (λ x. ok x) going) in
            let d₂ = with_state d₁ (open_list d₁.state) in
            let known₂ : trailing_len d₂ ≡ (pos t, d₂) =
              known_trail d₂ t (ap (λ i. i.4) same ∙ known) in
            let rounds : ℕ = pos_part (d₂.state.parsing_dimension -ℤ d₂.state.parsing_value_cnt) in
            let run : value_loop rounds (pos t) 0 d₂ ≡ ok (n, d') = rw (going, known₂) at rest in
            let (kept, how) = value_loop_lem rounds (pos t) 0 n d₂ d' run in
            (
              ap (λ i. i.0) kept ∙ same,
              ap (λ i. i.1) kept ∙ same_type,
              elim how [
                | inl (nothing, stays) ↦ inr (nothing, rw stays size)
                | inr (more, some_left) ↦ inl (more, omega (arith, input_parts d d₁ same))
              ],
            ))
    ]
