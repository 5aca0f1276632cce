-- ===== src/Dlis/Sound/Input.antt =====
-- dlis.cc: what the loop does with the bytes leaves the objects alone, and the bytes that wait are
-- written before they are counted.
use mathlib.Core.Path.{subst}
use dlis_parser.Base.{
  ℕ, ◌+◌, ◌≡◌, refl, sym, ◌∙◌, ap, arith, List, Option, none, true, false, Bool, if◌then◌else◌,
  ◌==◌, ltb, leb, ◌||◌,
}
use dlis_parser.Base.Int.{ℤ, pos, pos_part, ltb_ℤ, ◌-ℤ◌, ◌+ℤ◌}
use dlis_parser.Codec.Memory.{bytes, length-bytes}
use dlis_parser.Codec.Value.{Outcome, ok, exit, fault, hang}
use dlis_parser.Dlis.State.{ParseCode, Dlis, Frame, Channel, here, avail, lrs_remain}
use dlis_parser.Dlis.Trailing.{trailing_len, address}
use dlis_parser.Dlis.Skip.{unparsed_size, keeps_first_byte, skip_saving, lrs_skip_unparsed_buff}
use dlis_parser.Dlis.Iflr.{deref}
use dlis_parser.Dlis.Headers.{
  LrsHeader, parse_sul, parse_lrs_header, restore_unparsed, restored, lrs_fields, lrs_header_len,
  sul_len, count_zeros, check_sul,
}
use dlis_parser.Dlis.NextState.{
  go_to, skip_rest, after_whole_comp, after_attrib, after_value, after_data, next_from, next_state,
}
use dlis_parser.Dlis.Measure.{Keeps}
use dlis_parser.Dlis.Sound.{IsLinked, Carried, IsSound}
use dlis_parser.Dlis.Sound.Each.{Each, bind-Each, then-Each, if-Each, if_not-Each}
use dlis_parser.Dlis.Sound.Callbacks.{objects, objects-IsLinked}

-- What the pointers and the bytes that wait are.
abbrev pub kept : Dlis → (List Frame × List Channel × Option ℕ × Option ℕ × Option ℕ) × ℕ × List ℕ
kept d = (objects d, d.state.unparsed_buff_len, d.state.unparsed_buff)

pub kept-IsSound : (d d' : Dlis) → kept d' ≡ kept d → IsSound d → IsSound d'
kept-IsSound d d' e s = record {
  linked = objects-IsLinked d d' (ap (λ k. k.0) e) s.linked;
  carried = subst (λ k. Carried k.1 k.2) (sym e) s.carried;
}

pub Keeps-IsSound :
    (d : Dlis) (r : Outcome Dlis) → Keeps d r → Each IsLinked r → IsSound d → Each IsSound r
Keeps-IsSound d (ok d') same l s = record {
  linked = l;
  carried = subst (λ i. Carried i.2 i.5) (sym same) s.carried;
}
Keeps-IsSound d exit same l s = tt
Keeps-IsSound d fault same l s = tt
Keeps-IsSound d hang same l s = tt

pub trailing_kept : (d : Dlis) → kept (trailing_len d).1 ≡ kept d
unfolding trailing_len
trailing_kept d = ground arith

skip_rest_kept : (trail : ℤ) (d : Dlis) → kept (skip_rest trail d) ≡ kept d
unfolding skip_rest
skip_rest_kept trail d = ground arith

if-kept :
    (t : Bool) (x y d : Dlis)
    → kept x ≡ kept d
    → kept y ≡ kept d
    → kept (if t then x else y) ≡ kept d
if-kept true x y d ex ey = ex
if-kept false x y d ex ey = ey

after_data_kept : (d : Dlis) → Each (λ d'. kept d' ≡ kept d) (after_data d)
unfolding after_data
after_data_kept d =
    let d₁ : Dlis = (trailing_len d).1 in
    let P : Dlis → Type 0 = λ d'. kept d' ≡ kept d in
    if-Each P _ (ok (go_to d₁ ParseCode.expecting_lrs_trailing)) _ (trailing_kept d) (
      bind-Each P (deref d₁.frame_heap d₁.current_frame) _ (λ (i, f) _.
        if-kept _ (go_to (skip_rest (trailing_len d).0 d₁) ParseCode.expecting_lrs_trailing) d₁ d
          (skip_rest_kept (trailing_len d).0 d₁ ∙ trailing_kept d) (trailing_kept d)))

next_from_kept : (c : ParseCode) (d : Dlis) → Each (λ d'. kept d' ≡ kept d) (next_from c d)
unfolding next_from after_whole_comp after_attrib after_value
next_from_kept ParseCode.expecting_iflr_data d = after_data_kept d
next_from_kept ParseCode.expecting_sul d = refl
next_from_kept c d = ground (arith, trailing_kept d)

pub same-IsSound :
    (d : Dlis) (r : Outcome Dlis) → Each (λ d'. kept d' ≡ kept d) r → IsSound d → Each IsSound r
same-IsSound d (ok d') same s = kept-IsSound d d' same s
same-IsSound d exit same s = tt
same-IsSound d fault same s = tt
same-IsSound d hang same s = tt

pub next_state-IsSound : (d : Dlis) → IsSound d → Each IsSound (next_state d)
unfolding next_state
next_state-IsSound d s = same-IsSound d (next_from d.state.code d) (next_from_kept d.state.code d) s

skip_saving-IsSound :
    (d : Dlis) (len saved : ℤ) → IsSound d → Each IsSound (skip_saving d len saved)
unfolding skip_saving
skip_saving-IsSound d len saved s = if-Each IsSound (ltb_ℤ saved (pos 0)) fault _ tt (
    if_not-Each IsSound (ltb_ℤ (pos unparsed_size) saved) fault _ tt (λ fits.
      if-Each IsSound (ltb_ℤ (pos d.byte_idx +ℤ len) (pos 0)) fault _ tt (record {
        linked = s.linked;
        carried = record {
          fits = ground arith;
          written = omega (
            arith,
            length-bytes d.buffer (address d (pos d.byte_idx +ℤ len -ℤ saved)) (pos_part saved),
          );
        };
      })))

pub lrs_skip_unparsed_buff-IsSound :
    (d : Dlis) → IsSound d → Each IsSound (lrs_skip_unparsed_buff d)
unfolding lrs_skip_unparsed_buff
lrs_skip_unparsed_buff-IsSound d s =
    let d' : Dlis = (trailing_len d).1 in
    let len : ℤ = lrs_remain d'.state -ℤ (trailing_len d).0 in
    skip_saving-IsSound d' len (if keeps_first_byte d'.state.code then len +ℤ pos 1 else len)
      (kept-IsSound d (trailing_len d).1 (trailing_kept d) s)

-- What is put in front of a segment's body no longer waits.
restored-IsSound : (h : LrsHeader) (d : Dlis) → IsSound d → IsSound (restored h d).1
unfolding restored
restored-IsSound h d s = record {
  linked = s.linked;
  carried = record { fits = omega arith; written = omega arith };
}

restore-IsSound :
    (h : LrsHeader) (d : Dlis) → IsSound d → Each (λ r. IsSound r.1) (restore_unparsed h d)
unfolding restore_unparsed
restore-IsSound h d s =
    let P : LrsHeader × Dlis → Type 0 = λ r. IsSound r.1 in
    if-Each P (d.state.unparsed_buff_len == 0) (ok (h, d)) _ s (
      if-Each P (ltb (d.byte_idx + lrs_header_len) d.state.unparsed_buff_len) fault _ tt (
        if-Each P (ltb d.byte_idx d.state.unparsed_buff_len) fault (ok (restored h d)) tt
          (restored-IsSound h d s)))

pub parse_lrs_header-IsSound : (d : Dlis) → IsSound d → Each (λ r. IsSound r.1) (parse_lrs_header d)
unfolding parse_lrs_header
parse_lrs_header-IsSound d s =
    let P : Option (ℕ × LrsHeader) × Dlis → Type 0 = λ r. IsSound r.1 in
    if-Each P _ (ok (none, d)) _ s (
      then-Each (λ r. IsSound r.1) P (restore_unparsed (lrs_fields d) d) _
        (restore-IsSound (lrs_fields d) d s) (λ r s'. s'))

pub parse_sul-IsSound : (d : Dlis) → IsSound d → Each (λ r. IsSound r.1) (parse_sul d)
unfolding parse_sul
parse_sul-IsSound d s =
    let P : Option ℕ × Dlis → Type 0 = λ r. IsSound r.1 in
    let n_type : Bool = leb 6 (count_zeros (bytes d.buffer (here d 0) 12)) || d.n_type in
    if-Each P (ltb_ℤ (avail d) (pos sul_len)) (ok (none, d)) _ s (
      bind-Each P (check_sul d.buffer (if n_type then here d 12 else here d 0)) _
        (λ _ _. record { linked = s.linked; carried = s.carried }))
