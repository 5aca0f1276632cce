-- ===== src/Dlis/Iflr/Whole.antt =====
-- dlis.cc, parse_iflr_data: the values of a channel that have come in whole.
use native.Mathlib.Nat.{suc-mul}
use dlis_parser.Base.{
  ℕ, zero, suc, ◌+◌, ◌*◌, ◌≤◌, ◌≡◌, refl, sym, ◌∙◌, ap, arith, true, false, get_elem?, Option, some,
  ltb, ◌==◌, ◌||◌,
}
use dlis_parser.Base.Int.{ℤ, pos, pos_part, ◌+ℤ◌, ◌-ℤ◌, +ℤ_parts, eq_of_parts}
use dlis_parser.Codec.Memory.{Ptr, Mem}
use dlis_parser.Codec.Text.{parse_dtime}
use dlis_parser.Codec.Value.{
  Outcome, ok, RepCode, rep_codes, repcode_size, Value, unset, value_invalidate, nbytes,
  parse_member, parse_code, parse_value,
}
use dlis_parser.Codec.Serialize.{Call, Calls, also, size}
use dlis_parser.Codec.Serialize.Parsed.{is_decoded, serialize_list_add-parse_value}
use dlis_parser.Dlis.State.{Dlis, Frame, Channel, here, with_state}
use dlis_parser.Dlis.Eflr.{min_ℤ}
use dlis_parser.Dlis.Iflr.{iflr_left, deref, move_bounds, add_value, take_value, value_loop}

from_size :
    (s : ℕ) (o : Option ℕ) (w : Value)
    → o ≡ some s
    → (w' : Value) × (◌≡◌ {A = Outcome (Option ℕ × Value)} (ok (o, w)) (ok (some s, w')))
from_size s o w sized = (w, ap (λ o. ok (o, w)) sized)

dtime_size : (m : Mem) (p : Ptr) (n : ℕ) → 8 ≤ n → nbytes (parse_dtime m p n) ≡ some 8
unfolding parse_dtime
dtime_size m p n enough = ground arith

module _ (m : Mem) (p : Ptr) (n s : ℕ) (v : Value) (enough : s ≤ n) (some_byte : 1 ≤ s) where
  fixed_member :
      (c : RepCode)
      → repcode_size c ≡ some s
      → is_decoded c ≡ true
      → (w : Value) × (parse_member m p n c v ≡ ok (some s, w))
  unfolding parse_member repcode_size
  fixed_member RepCode.fsingl sized decoded = from_size s (some 4) _ sized
  fixed_member RepCode.fdoubl sized decoded = from_size s (some 8) _ sized
  fixed_member RepCode.sshort sized decoded = from_size s (some 1) _ sized
  fixed_member RepCode.snorm sized decoded = from_size s (some 2) _ sized
  fixed_member RepCode.slong sized decoded = from_size s (some 4) _ sized
  fixed_member RepCode.ushort sized decoded = from_size s (some 1) _ sized
  fixed_member RepCode.unorm sized decoded = from_size s (some 2) _ sized
  fixed_member RepCode.ulong sized decoded = from_size s (some 4) _ sized
  fixed_member RepCode.status sized decoded = from_size s (some 1) _ sized
  fixed_member RepCode.dtime sized decoded =
      from_size s (nbytes (parse_dtime m p n)) _ (dtime_size m p n (ground arith) ∙ sized)
  fixed_member c sized decoded = absurd (ground arith)

  fixed_code :
      (c : RepCode)
      → repcode_size c ≡ some s
      → is_decoded c ≡ true
      → (w : Value) × (parse_code m p n c v ≡ ok (some s, w))
  unfolding parse_code
  fixed_code c sized decoded =
      let (w, e) = fixed_member c sized decoded in
      let there : (n == 0 || ltb n s) ≡ false = ground arith in (w, rw (sized, parse_code, there) e)

-- What one more value does to the state of a channel that is not the first.
abbrev pub taken : Dlis → Calls → Dlis
unfolding ◌+ℤ◌
taken d list = with_state d (record (d.state) {
  parsing_iflr_values = some list;
  parsing_value_cnt = d.state.parsing_value_cnt +ℤ pos 1;
})

plus-zero : (z : ℤ) → z ≡ z +ℤ pos 0
plus-zero z = sym (eq_of_parts (z +ℤ pos 0) z (omega (arith, +ℤ_parts z (pos 0))))

-- The state after the values that are in the list.
abbrev pub after_values : Dlis → Calls → ℤ → Dlis
after_values d list cnt =
    with_state d (record (d.state) { parsing_iflr_values = some list; parsing_value_cnt = cnt })

none_taken :
    (d : Dlis) (list : Calls)
    → d.state.parsing_iflr_values ≡ some list
    → d ≡ after_values d list (d.state.parsing_value_cnt +ℤ pos 0)
none_taken d list values = λ i. with_state d (record (d.state) {
  parsing_iflr_values = values i;
  parsing_value_cnt = plus-zero d.state.parsing_value_cnt i;
})

plus-suc : (z : ℤ) (n : ℕ) → z +ℤ pos 1 +ℤ pos n ≡ z +ℤ pos (suc n)
plus-suc z n =
    eq_of_parts (z +ℤ pos 1 +ℤ pos n) (z +ℤ pos (suc n))
      (omega (arith, +ℤ_parts z (pos 1), +ℤ_parts (z +ℤ pos 1) (pos n), +ℤ_parts z (pos (suc n))))

size-also : (list : Calls) (call : Call) → size (also list call) ≡ suc (size list)
unfolding size
size-also list call = refl

value_loop-suc :
    (d d₁ : Dlis) (rounds n s : ℕ) (trail : ℤ) (w : Value)
    → parse_value d.buffer
        (here d n)
        (pos_part (iflr_left d trail n))
        d.state.parsing_repcode
        (value_invalidate (record { repcode = pos 0; u = unset }))
      ≡ ok (some s, w)
    → take_value d w ≡ ok d₁
    → (s == 0) ≡ false
    → value_loop (suc rounds) trail n d ≡ value_loop rounds trail (n + s) d₁
unfolding value_loop
value_loop-suc d d₁ rounds n s trail w parsed took some_taken = rw (parsed, some_taken, took) refl

room :
    (d : Dlis) (t n s : ℕ)
    → d.state.lrs_byte_cnt + n + s + t ≤ d.state.lrs_len
    → d.byte_idx + n + s ≤ d.max_byte_idx
    → s ≤ pos_part (iflr_left d (pos t) n)
unfolding min_ℤ ◌-ℤ◌
room d t n s segment buffer = ground arith

module _ (r s : ℕ) (c : RepCode) (found : get_elem? rep_codes r ≡ some c)
    (sized : repcode_size c ≡ some s) (decoded : is_decoded c ≡ true) (some_byte : 1 ≤ s) where
  fixed_value :
      (m : Mem) (p : Ptr) (n : ℕ) (v : Value)
      → s ≤ n
      → (w : Value) × (parse_value m p n (pos r) v ≡ ok (some s, w))
  unfolding parse_value
  fixed_value m p n v enough =
      let (w, e) =
        fixed_code m p n s (record v { repcode = pos r }) enough some_byte c sized decoded in
      (w, rw found e)

  take_fixed :
      (d : Dlis) (i j n k : ℕ) (f : Frame) (ch : Channel) (v w : Value) (list : Calls)
      → deref d.frame_heap d.current_frame ≡ ok (i, f)
      → deref d.channel_heap f.current_channel ≡ ok (j, ch)
      → (ch.index == 1) ≡ false
      → d.state.parsing_iflr_values ≡ some list
      → parse_value d.buffer (here d n) k (pos r) v ≡ ok (some s, w)
      → (call : Call) × (take_value d w ≡ ok (taken d (also list call)))
  unfolding take_value move_bounds add_value
  take_fixed d i j n k f ch v w list frame channel other values parsed =
      let (call, added) =
        serialize_list_add-parse_value d.buffer (here d n) k v w r s c list (omega arith) found
          decoded parsed in
      (call, rw (frame, channel, other, values, added) refl)

  -- The loop over the values takes just their bytes, adds one call for each to the list, counts them,
  -- and changes nothing else.
  pub value_loop-after :
      (d : Dlis) (rounds t n i j : ℕ) (f : Frame) (ch : Channel) (list : Calls)
      → d.state.parsing_repcode ≡ pos r
      → deref d.frame_heap d.current_frame ≡ ok (i, f)
      → deref d.channel_heap f.current_channel ≡ ok (j, ch)
      → (ch.index == 1) ≡ false
      → d.state.parsing_iflr_values ≡ some list
      → d.state.lrs_byte_cnt + n + rounds * s + t ≤ d.state.lrs_len
      → d.byte_idx + n + rounds * s ≤ d.max_byte_idx
      → (list' : Calls) × (size list' ≡ size list + rounds)
        × (value_loop rounds (pos t) n d
            ≡ ok (n + rounds * s, after_values d list' (d.state.parsing_value_cnt +ℤ pos rounds)))
  unfolding value_loop
  value_loop-after d zero t n i j f ch list code frame channel other values segment buffer = (
    list,
    omega arith,
    ap (λ k. ok (k, d)) (omega arith) ∙ ap (λ d'. ok (n + 0 * s, d')) (none_taken d list values),
  )
  value_loop-after d (suc rounds) t n i j f ch list code frame channel other values segment buffer =
      let more : suc rounds * s ≡ rounds * s + s = suc-mul rounds s in
      let invalid : Value = value_invalidate (record { repcode = pos 0; u = unset }) in
      let (w, parsed) =
        fixed_value d.buffer (here d n) (pos_part (iflr_left d (pos t) n)) invalid
          (room d t n s (omega (arith, segment, more)) (omega (arith, buffer, more))) in
      let (call, took) =
        take_fixed d i j n (pos_part (iflr_left d (pos t) n)) f ch invalid w list frame channel
          other values parsed in
      let (list', size', run) =
        value_loop-after (taken d (also list call)) rounds t (n + s) i j f ch (also list call) code
          frame channel other refl (omega (arith, segment, more)) (omega (arith, buffer, more)) in
      let some_taken : (s == 0) ≡ false = ground arith in
      let total : n + s + rounds * s ≡ n + suc rounds * s = omega (arith, more) in
      (
        list',
        omega (arith, size', size-also list call),
        value_loop-suc d (taken d (also list call)) rounds n s (pos t) w
              (ap
                  (λ k.
                    parse_value d.buffer (here d n) (pos_part (iflr_left d (pos t) n)) k invalid)
                  code
                ∙ parsed)
              took some_taken
            ∙ run
            ∙ ap
                (λ k.
                  ok (k, after_values d list' (d.state.parsing_value_cnt +ℤ pos 1 +ℤ pos rounds)))
                total
            ∙ ap (λ z. ok (n + suc rounds * s, after_values d list' z))
                (plus-suc d.state.parsing_value_cnt rounds),
      )

  -- For a code of a fixed size of one byte at least that is decoded, and a channel that is not
  -- the first of the current frame: if the bytes of so many values have come in and lie in the
  -- segment in front of the trailer, the loop over the values takes just these bytes, makes one
  -- call on the list for each value, and counts them.
  pub value_loop_whole :
      (d : Dlis) (rounds t n i j : ℕ) (f : Frame) (ch : Channel) (list : Calls)
      → d.state.parsing_repcode ≡ pos r
      → deref d.frame_heap d.current_frame ≡ ok (i, f)
      → deref d.channel_heap f.current_channel ≡ ok (j, ch)
      → (ch.index == 1) ≡ false
      → d.state.parsing_iflr_values ≡ some list
      → d.state.lrs_byte_cnt + n + rounds * s + t ≤ d.state.lrs_len
      → d.byte_idx + n + rounds * s ≤ d.max_byte_idx
      → (d' : Dlis) × (list' : Calls) × (value_loop rounds (pos t) n d ≡ ok (n + rounds * s, d'))
        × (d'.state.parsing_iflr_values ≡ some list')
        × (size list' ≡ size list + rounds)
        × (d'.state.parsing_value_cnt ≡ d.state.parsing_value_cnt +ℤ pos rounds)
  value_loop_whole d rounds t n i j f ch list code frame channel other values segment buffer =
      let (list', sized, run) =
        value_loop-after d rounds t n i j f ch list code frame channel other values segment
          buffer in
      (
        after_values d list' (d.state.parsing_value_cnt +ℤ pos rounds),
        list',
        run,
        refl,
        sized,
        refl,
      )
