-- ===== src/Dlis/Measure/Cut.antt =====
-- dlis.cc, lrs_skip_unparsed_buff: the input behind a component that is cut, and the state that
-- follows.
use dlis_parser.Base.{ℕ, ◌+◌, ◌≤◌, ◌≡◌, refl, sym, ◌∙◌, arith, true, false, Bool, if◌then◌else◌}
use dlis_parser.Base.Int.{
  ℤ, pos, pos_part, neg_part, ltb_ℤ, ◌+ℤ◌, ◌-ℤ◌, sub_ℕ, eq_of_parts, +ℤ_parts, -ℤ_parts,
}
use dlis_parser.Codec.Value.{Outcome, ok, exit, fault, hang}
use dlis_parser.Dlis.State.{
  ParseCode, expecting_lrs_trailing, expecting_iflr_data, expecting_eflr_comp_attrib_value, Dlis,
  lrs_remain,
}
use dlis_parser.Dlis.Skip.{keeps_first_byte, skip_saving, lrs_skip_unparsed_buff}
use dlis_parser.Dlis.Skip.Saved.{known_trail}
use dlis_parser.Dlis.NextState.{
  at_trailing, after_whole_comp, after_attrib, after_value, after_data, next_from, next_state,
}
use dlis_parser.Dlis.NextState.Edges.{IsWhole, IsValued}
use dlis_parser.Dlis.Measure.{left}

-- What a skip leaves: at most `more` bytes more, and nothing in front of the trailer.
pub record Skips (t more : ℕ) (d d' : Dlis) : Type 0 where
  pub bytes_left : left d' ≤ left d + more
  pub same_code : d'.state.code ≡ d.state.code
  pub same_trail : d'.state.lrs_trail_len ≡ pos t
  pub at_end : at_trailing (pos t) d' ≡ true

abbrev SkipsTo : ℕ → ℕ → Dlis → Outcome Dlis → Type 0
SkipsTo t more d (ok d') = Skips t more d d'
SkipsTo t more d exit = Unit
SkipsTo t more d fault = Unit
SkipsTo t more d hang = Unit

-- The fields behind a skip, and the tests that it has passed.
record SkipFacts (d : Dlis) (len saved : ℤ) (d' : Dlis) : Type 0 where
  pub not_negative : ltb_ℤ saved (pos 0) ≡ false
  pub inside : ltb_ℤ (pos d.byte_idx +ℤ len) (pos 0) ≡ false
  pub index : d'.byte_idx ≡ pos_part (pos d.byte_idx +ℤ len)
  pub end : d'.max_byte_idx ≡ d.max_byte_idx
  pub waiting : d'.state.unparsed_buff_len ≡ pos_part saved
  pub code : d'.state.code ≡ d.state.code
  pub trail : d'.state.lrs_trail_len ≡ d.state.lrs_trail_len
  pub seg_len : d'.state.lrs_len ≡ d.state.lrs_len
  pub count : d'.state.lrs_byte_cnt ≡ pos_part (pos d.state.lrs_byte_cnt +ℤ len)

skip_saving_lem :
    (d d' : Dlis) (len saved : ℤ) → skip_saving d len saved ≡ ok d' → SkipFacts d len saved d'
unfolding skip_saving
skip_saving_lem d d' len saved e = record {
  not_negative = ground arith;
  inside = ground arith;
  index = ground arith;
  end = ground arith;
  waiting = ground arith;
  code = ground arith;
  trail = ground arith;
  seg_len = ground arith;
  count = ground arith;
}

neg_part-zero : (z : ℤ) → ltb_ℤ z (pos 0) ≡ false → neg_part z ≡ 0
neg_part-zero z e = ground arith

sub_ℕ_parts : (a b : ℕ) → pos_part (sub_ℕ a b) + b ≡ neg_part (sub_ℕ a b) + a
sub_ℕ_parts a b = ground arith

at_trailing-le :
    (t : ℕ) (d : Dlis) → d.state.lrs_len ≤ t + d.state.lrs_byte_cnt → at_trailing (pos t) d ≡ true
unfolding at_trailing
at_trailing-le t d le = ground (arith, sub_ℕ_parts d.state.lrs_len d.state.lrs_byte_cnt)

module _ (t : ℕ) (d d' : Dlis) (known : d.state.lrs_trail_len ≡ pos t) (more : ℕ)
    (f : SkipFacts d
      (lrs_remain d.state -ℤ pos t)
      (lrs_remain d.state -ℤ pos t +ℤ pos more)
      d') where
  skipped-left : left d' ≤ left d + more
  skipped-left =
      let len : ℤ = lrs_remain d.state -ℤ pos t in
      omega (
        arith,
        f.index,
        f.end,
        f.waiting,
        neg_part-zero (len +ℤ pos more) f.not_negative,
        neg_part-zero (pos d.byte_idx +ℤ len) f.inside,
        +ℤ_parts len (pos more),
        +ℤ_parts (pos d.byte_idx) len,
      )

  skipped-at_end : at_trailing (pos t) d' ≡ true
  skipped-at_end =
      let len : ℤ = lrs_remain d.state -ℤ pos t in
      at_trailing-le t d' (
        omega (
          arith,
          f.seg_len,
          f.count,
          +ℤ_parts (pos d.state.lrs_byte_cnt) len,
          -ℤ_parts (lrs_remain d.state) (pos t),
          sub_ℕ_parts d.state.lrs_len d.state.lrs_byte_cnt,
        ))

  skipped-Skips : Skips t more d d'
  skipped-Skips = record {
    bytes_left = skipped-left;
    same_code = f.code;
    same_trail = f.trail ∙ known;
    at_end = skipped-at_end;
  }

-- Of the bytes of a component that is cut, one more waits than is left if its first byte was taken.
abbrev pub first_byte : ParseCode → ℕ
first_byte c = if keeps_first_byte c then 1 else 0

saved_first_byte :
    (t : Bool) (len : ℤ) → (if t then len +ℤ pos 1 else len) ≡ len +ℤ pos (if t then 1 else 0)
saved_first_byte true len = refl
saved_first_byte false len =
    sym (eq_of_parts (len +ℤ pos 0) len (omega (arith, +ℤ_parts len (pos 0))))

pub lrs_skip_unparsed_buff-Skips :
    (t : ℕ) (d d' : Dlis)
    → d.state.lrs_trail_len ≡ pos t
    → lrs_skip_unparsed_buff d ≡ ok d'
    → Skips t (first_byte d.state.code) d d'
unfolding lrs_skip_unparsed_buff
lrs_skip_unparsed_buff-Skips t d d' known e =
    let len : ℤ = lrs_remain d.state -ℤ pos t in
    let e' : skip_saving d len (len +ℤ pos (first_byte d.state.code)) ≡ ok d' =
      rw (known_trail d t known, saved_first_byte (keeps_first_byte d.state.code) len) at e in
    skipped-Skips t d d' known (first_byte d.state.code)
      (skip_saving_lem d d' len (len +ℤ pos (first_byte d.state.code)) e')

-- The states in which nothing but the trailer can follow once the segment's body is used up.
pub data InBody : ParseCode → Type 0 where
  whole : {c : ParseCode} → IsWhole c → InBody c
  valued : {c : ParseCode} → IsValued c → InBody c
  value : InBody expecting_eflr_comp_attrib_value
  frame_data : InBody expecting_iflr_data

abbrev ToTrailer : Outcome Dlis → Type 0
ToTrailer (ok d') = d'.state.code ≡ expecting_lrs_trailing
ToTrailer exit = Unit
ToTrailer fault = Unit
ToTrailer hang = Unit

module _ (t : ℕ) (d : Dlis) (known : d.state.lrs_trail_len ≡ pos t)
    (at_end : at_trailing (pos t) d ≡ true) where
  whole-ToTrailer : (after_whole_comp d).state.code ≡ expecting_lrs_trailing
  unfolding after_whole_comp
  whole-ToTrailer = rw (known_trail d t known, at_end)

  valued-ToTrailer : (after_attrib d).state.code ≡ expecting_lrs_trailing
  unfolding after_attrib
  valued-ToTrailer = rw (known_trail d t known, at_end)

  value-ToTrailer : (after_value d).state.code ≡ expecting_lrs_trailing
  unfolding after_value
  value-ToTrailer = rw (known_trail d t known, at_end)

  data-ToTrailer : ToTrailer (after_data d)
  unfolding after_data
  data-ToTrailer = rw (known_trail d t known, at_end) refl

next_from-ToTrailer :
    (t : ℕ) (d : Dlis) {c : ParseCode}
    → d.state.lrs_trail_len ≡ pos t
    → at_trailing (pos t) d ≡ true
    → InBody c
    → ToTrailer (next_from c d)
unfolding next_from
next_from-ToTrailer t d known at_end (whole IsWhole.set) = whole-ToTrailer t d known at_end
next_from-ToTrailer t d known at_end (whole IsWhole.rset) = whole-ToTrailer t d known at_end
next_from-ToTrailer t d known at_end (whole IsWhole.rdset) = whole-ToTrailer t d known at_end
next_from-ToTrailer t d known at_end (whole IsWhole.absatr) = whole-ToTrailer t d known at_end
next_from-ToTrailer t d known at_end (whole IsWhole.object) = whole-ToTrailer t d known at_end
next_from-ToTrailer t d known at_end (valued IsValued.attrib) = valued-ToTrailer t d known at_end
next_from-ToTrailer t d known at_end (valued IsValued.invatr) = valued-ToTrailer t d known at_end
next_from-ToTrailer t d known at_end value = value-ToTrailer t d known at_end
next_from-ToTrailer t d known at_end frame_data = data-ToTrailer t d known at_end

-- Once the body of the segment is used up, the next state is the trailer.
pub next_state-trailing :
    (t : ℕ) (d d' : Dlis)
    → d.state.lrs_trail_len ≡ pos t
    → at_trailing (pos t) d ≡ true
    → InBody (d.state.code)
    → next_state d ≡ ok d'
    → d'.state.code ≡ expecting_lrs_trailing
unfolding next_state
next_state-trailing t d d' known at_end body e =
    let goes : ToTrailer (next_state d) = next_from-ToTrailer t d known at_end body in rw e at goes
