-- ===== src/Dlis/Rounds/FrameData.antt =====
-- dlis.cc, parse: the loop over the channels of a frame whose data have come in.
use dlis_parser.Base.{
  suc-add, ℕ, ◌+◌, ◌*◌, ◌≤◌, ◌<◌, ◌≡◌, refl, ap, subst, ◌∙◌, arith, Option, some, List, [], ◌∷◌,
  get_elem?, length,
}
use dlis_parser.Codec.Number.{Double}
use dlis_parser.Codec.Serialize.{Calls, size}
use dlis_parser.Dlis.State.{Dlis, Frame, Channel, FileKey, Event, curve_line}
use dlis_parser.Dlis.Parse.{parse_loop}
use dlis_parser.Dlis.Parse.Loop.{parse_loop-suc, goes_on}
use dlis_parser.Dlis.Rounds.Between.{Regular, Between, lined}
use dlis_parser.Dlis.Rounds.Lines.{lined-Between, round-lined}

-- The channels from a pointer on, with the file and the number of values of each, and how many bytes
-- all of these values are; behind them there is at least one more channel.
pub data Ahead (heap : List Channel) : Option ℕ → List (FileKey × ℕ) → ℕ → Type 0 where
  one_more :
      {j total : ℕ} {c : Channel}
      → get_elem? heap j ≡ some c
      → total ≡ 0
      → Ahead heap (some j) [] total
  channel :
      {j total : ℕ} {key : FileKey} {ps : List (FileKey × ℕ)} (n s rest : ℕ) (c : Channel)
      → get_elem? heap j ≡ some c
      → Regular c key n s
      → Ahead heap c.f_next ps rest
      → total ≡ n * s + rest
      → Ahead heap (some j) ((key, n) ∷ ps) total

-- One line for each channel, with as many values as it has, newest first.
abbrev pub Lines : List (FileKey × ℕ) → Double → List Event → List Event → Type 0
Lines [] index events events' = events' ≡ events
Lines ((key, n) ∷ ps) index events events' =
    (list : Calls) × (size list ≡ n)
    × Lines ps index (curve_line key index (some list) ∷ events) events'

next-some :
    {heap : List Channel} {p : Option ℕ} {ps : List (FileKey × ℕ)} {total : ℕ}
    → Ahead heap p ps total
    → (j : ℕ) × (p ≡ some j)
next-some (one_more {j} found e) = (j, refl)
next-some (channel {j} n s rest c found regular behind e) = (j, refl)

front :
    {heap : List Channel} {p : Option ℕ} {key : FileKey} {m : ℕ} {ps : List (FileKey × ℕ)}
    {total : ℕ}
    → Ahead heap p ((key, m) ∷ ps) total
    → (j s rest : ℕ) × (c : Channel) × (p ≡ some j)
      × (get_elem? heap j ≡ some c)
      × Regular c key m s
      × Ahead heap c.f_next ps rest
      × (total ≡ m * s + rest)
front (channel {j} n s rest c found regular behind e) =
    (j, s, rest, c, refl, found, regular, behind, e)

nothing : {heap : List Channel} {p : Option ℕ} {total : ℕ} → Ahead heap p [] total → total ≡ 0
nothing (one_more found e) = e

-- What the rounds over the channels do to the state.
pub record Passed (ps : List (FileKey × ℕ)) (total : ℕ) (d d' : Dlis) : Type 0 where
  pub lines : Lines ps d.state.parsing_frame_index d.events d'.events
  pub index : d'.byte_idx ≡ d.byte_idx + total
  pub segment_count : d'.state.lrs_byte_cnt ≡ d.state.lrs_byte_cnt + total
  pub record_count : d'.state.vr_byte_cnt ≡ d.state.vr_byte_cnt + total

-- Between two channels of a frame's data, with the trailer known, let the channels from the
-- current one on, with one more behind them, not be the first of the frame, have open files, and
-- hold one value or more of a code that is decoded and has a fixed size of one byte at least. If
-- the bytes of all their values have come in and lie in the segment with a byte left in front of
-- the trailer, the loop spends one round on each channel: it writes one line to its file with as
-- many values as the channel has, in the order of the list, takes just these bytes, and stands at
-- the channel behind them.
pub parse_loop-Passed :
    (d : Dlis) (t i fuel total : ℕ) (f : Frame) (ps : List (FileKey × ℕ))
    → Between d t i f
    → Ahead d.channel_heap f.current_channel ps total
    → d.state.lrs_byte_cnt + total + t < d.state.lrs_len
    → d.byte_idx + total ≤ d.max_byte_idx
    → (d' : Dlis) × (f' : Frame) × (parse_loop (length ps + fuel) d ≡ parse_loop fuel d')
      × Passed ps total d d'
      × Between d' t i f'
      × Ahead d'.channel_heap f'.current_channel [] 0
parse_loop-Passed d t i fuel total f [] between ahead segment buffer =
    let none_left : total ≡ 0 = nothing ahead in
    let same : 0 + fuel ≡ fuel = omega arith in
    (
      d,
      f,
      ap (λ k. parse_loop k d) same,
      record {
        lines = refl;
        index = omega (arith, none_left);
        segment_count = omega (arith, none_left);
        record_count = omega (arith, none_left);
      },
      between,
      subst (Ahead d.channel_heap f.current_channel []) none_left ahead,
    )
parse_loop-Passed d t i fuel total f ((key, m) ∷ ps) between ahead segment buffer =
    let (j, s, rest, c, current, found, regular, behind, sum) = front ahead in
    let (k, next) = next-some behind in
    let (list, sized, round) =
      round-lined d t i j m s f c key between regular current found k (omega (arith, segment, sum))
        (omega (arith, buffer, sum)) next in
    let (d', f', run, passed, between', ahead') =
      parse_loop-Passed (lined d i c key m s list) t i fuel rest
        (record f { current_channel = c.f_next }) ps
        (lined-Between d t i j m s f c key between regular current found list) behind
        (omega (arith, segment, sum)) (omega (arith, buffer, sum)) in
    (
      d',
      f',
      ap (λ k. parse_loop k d) (suc-add (length ps) fuel)
          ∙ parse_loop-suc (length ps + fuel) d
          ∙ ap (goes_on (length ps + fuel)) round
          ∙ run,
      record {
        lines = (list, sized, passed.lines);
        index = omega (arith, passed.index, sum);
        segment_count = omega (arith, passed.segment_count, sum);
        record_count = omega (arith, passed.record_count, sum);
      },
      between',
      ahead',
    )
