-- ===== src/Dlis/Rounds/Lines.antt =====
-- dlis.cc, parse: the data of a frame as lines of the curve files, one for each channel.
use dlis_parser.Base.{
  ℕ, ◌+◌, ◌*◌, ◌≤◌, ◌<◌, ◌≡◌, refl, ap, ◌∙◌, arith, Bool, true, false, ◌||◌, Option, none, some,
  get_elem?,
}
use dlis_parser.Base.Int.{sub_ℕ, pos, pos_part, leb_ℤ, ◌+ℤ◌, ◌-ℤ◌}
use dlis_parser.Codec.Value.{Outcome, ok, ◌>>=◌}
use dlis_parser.Codec.Serialize.{Calls, new, size}
use dlis_parser.Dlis.State.{Dlis, Frame, Channel, FileKey, curve_line, with_state, send}
use dlis_parser.Dlis.Skip.Saved.{known_trail}
use dlis_parser.Dlis.Iflr.{start_channel, open_list, parse_iflr_data, value_loop}
use dlis_parser.Dlis.Iflr.Whole.{value_loop-after}
use dlis_parser.Dlis.Heap.Chain.{written_self, deref-some}
use dlis_parser.Dlis.Heap.Pass.{next_channel-step}
use dlis_parser.Dlis.NextState.{next_state, at_trailing}
use dlis_parser.Dlis.Parse.Fuel.{after_data-stays}
use dlis_parser.Dlis.Measure.Data.{data_next}
use dlis_parser.Dlis.Measure.Falls.{parse_round-known}
use dlis_parser.Dlis.Parse.{round_from, parse_round}
use dlis_parser.Dlis.Events.{on_iflr_data}
use dlis_parser.Dlis.Rounds.{again, proceed, advance}
use dlis_parser.Dlis.Rounds.Data.{round_data}
use dlis_parser.Dlis.Rounds.Between.{Regular, Between, begun, opened, filled, lined}

sized_new : (n : ℕ) (list : Calls) → size list ≡ size new + n → size list ≡ n
unfolding size
sized_new n list e = omega (arith, e)

positive : (n : ℕ) → 1 ≤ n → leb_ℤ (pos n) (pos 0) ≡ false
positive n some_value = ground arith

left_over : (cnt len t : ℕ) → cnt + t < len → leb_ℤ (sub_ℕ len cnt) (pos t) ≡ false
left_over cnt len t more = ground arith

or-true : (a b : Bool) → b ≡ true → (a || b) ≡ true
or-true a b e = ground arith

no_more_left : (n : ℕ) → pos_part (pos n -ℤ pos 0) ≡ n
unfolding ◌-ℤ◌
no_more_left n = ground arith

all_values : (n : ℕ) → leb_ℤ (pos n) (pos 0 +ℤ pos n) ≡ true
unfolding ◌+ℤ◌
all_values n = ground arith

module _ (d : Dlis) (t i j n s : ℕ) (f : Frame) (c : Channel) (key : FileKey)
    (between : Between d t i f) (regular : Regular c key n s) (current : f.current_channel ≡ some j)
    (there : get_elem? d.channel_heap j ≡ some c) where
  start-begun : start_channel d ≡ ok (some (begun d c))
  unfolding start_channel
  start-begun =
      rw
        (
          between.whole,
          deref-some d.frame_heap d.current_frame i f between.frame between.found,
          current,
          deref-some d.channel_heap (some j) j c refl there,
        )
        refl

  open-opened : with_state (begun d c) (open_list (begun d c).state) ≡ opened d c
  unfolding open_list
  open-opened =
      ap
        (λ (o : Option Calls). with_state (begun d c) (record ((begun d c).state) {
          parsing_iflr_values = elim o [ none ↦ some new | some l ↦ some l ];
        }))
        between.no_values

  parse_iflr_data-filled :
      d.state.lrs_byte_cnt + n * s + t ≤ d.state.lrs_len
      → d.byte_idx + n * s ≤ d.max_byte_idx
      → (list : Calls) × (size list ≡ n) × (parse_iflr_data d ≡ ok (n * s, filled d c n list))
  unfolding parse_iflr_data
  parse_iflr_data-filled segment buffer =
      let rounds : pos_part (c.dimension -ℤ pos 0) ≡ n =
        ap (λ z. pos_part (z -ℤ pos 0)) regular.dimension ∙ no_more_left n in
      let (list, sized, run) =
        value_loop-after regular.number s regular.code regular.found regular.sized regular.decoded
          regular.some_byte (opened d c) n t 0 i j f c new regular.repcode
          (deref-some d.frame_heap d.current_frame i f between.frame between.found)
          (deref-some d.channel_heap f.current_channel j c current there) regular.other refl
          (omega (arith, segment)) (omega (arith, buffer)) in
      (
        list,
        sized_new n list sized,
        rw (between.goes_on, start-begun, open-opened, known_trail (opened d c) t between.trail)
            (ap (λ k. value_loop k (pos t) 0 (opened d c)) rounds
              ∙ run
              ∙ ap (λ k. ok (k, filled d c n list)) (omega arith)),
      )

  -- The state with the values, and the bytes taken.
  abbrev at_end : Calls → Dlis
  unfolding advance
  at_end list = advance (n * s) (filled d c n list)

  on_iflr_data-line :
      (e : Dlis)
      → e.current_frame ≡ some i
      → get_elem? e.frame_heap i ≡ some f
      → get_elem? e.channel_heap j ≡ some c
      → on_iflr_data e
        ≡ ok (
            with_state
              (send e (curve_line key e.state.parsing_frame_index e.state.parsing_iflr_values))
              (record (e.state) { parsing_iflr_values = none }))
  unfolding on_iflr_data
  on_iflr_data-line e frame found channel =
      rw
        (
          deref-some e.frame_heap e.current_frame i f frame found,
          current,
          deref-some e.channel_heap (some j) j c refl channel,
          regular.file,
        )
        refl

  -- One round takes the values of the channel and writes its line, and the next channel is up.
  round_data-lined :
      d.state.lrs_byte_cnt + n * s + t ≤ d.state.lrs_len
      → d.byte_idx + n * s ≤ d.max_byte_idx
      → (list : Calls) × (size list ≡ n) × (round_data d ≡ proceed (lined d i c key n s list))
  unfolding round_data advance
  round_data-lined segment buffer =
      let (list, sized, parsed) = parse_iflr_data-filled segment buffer in
      let complete : leb_ℤ c.dimension (pos 0 +ℤ pos n) ≡ true =
        ap (λ z. leb_ℤ z (pos 0 +ℤ pos n)) regular.dimension ∙ all_values n in
      let written_line : Dlis =
        with_state (send (at_end list) (curve_line key d.state.parsing_frame_index (some list)))
          (record ((at_end list).state) { parsing_iflr_values = none }) in
      (
        list,
        sized,
        rw
            (
              parsed,
              between.goes_on,
              complete,
              on_iflr_data-line (at_end list) between.frame between.found there,
              next_channel-step written_line i j f c between.frame between.found current there,
            )
            refl,
      )

  -- With bytes left and another channel, the state stays at the data.
  lined-stays :
      (list : Calls) (k : ℕ)
      → d.state.lrs_byte_cnt + n * s + t < d.state.lrs_len
      → c.f_next ≡ some k
      → next_state (lined d i c key n s list) ≡ ok (lined d i c key n s list)
  unfolding at_trailing
  lined-stays list k more next =
      let e : Dlis = lined d i c key n s list in
      let g : Frame → Frame = λ f. record f { current_channel = c.f_next } in
      data_next t e between.trail between.code
      ∙ after_data-stays t i k (g f) e between.trail
          (left_over (d.state.lrs_byte_cnt + n * s) d.state.lrs_len t more)
          (deref-some e.frame_heap e.current_frame i (g f) between.frame
            (written_self d.frame_heap i g f between.found))
          next (ap (λ z. leb_ℤ z (pos 0)) regular.dimension ∙ positive n regular.some_value)

  pub lined-Between :
      (list : Calls)
      → Between (lined d i c key n s list) t i (record f { current_channel = c.f_next })
  lined-Between list = record {
    code = between.code;
    trail = between.trail;
    goes_on = between.goes_on;
    frame = between.frame;
    found =
        written_self d.frame_heap i (λ f. record f { current_channel = c.f_next }) f between.found;
    no_values = refl;
    whole =
        or-true (leb_ℤ c.dimension (pos 0)) (leb_ℤ c.dimension (pos 0 +ℤ pos n))
          (ap (λ z. leb_ℤ z (pos 0 +ℤ pos n)) regular.dimension ∙ all_values n);
  }

  pub round-lined :
      (k : ℕ)
      → d.state.lrs_byte_cnt + n * s + t < d.state.lrs_len
      → d.byte_idx + n * s ≤ d.max_byte_idx
      → c.f_next ≡ some k
      → (list : Calls) × (size list ≡ n) × (parse_round d ≡ ok (again (lined d i c key n s list)))
  unfolding proceed round_from
  round-lined k segment buffer next =
      let (list, sized, run) = round_data-lined (omega (arith, segment)) buffer in
      (
        list,
        sized,
        parse_round-known t d between.trail
            ∙ ap (λ c. round_from c d) between.code
            ∙ run
            ∙ ap (λ (r : Outcome Dlis). r >>= λ d'. ok (again d'))
                (lined-stays list k segment next),
      )
