-- ===== src/Dlis/Sound/Loop.antt =====
-- dlis.cc, parse and dlis_read: the states that a parser comes to, whatever bytes it is given.
use dlis_parser.Base.{
  ℕ, zero, suc, ◌+◌, ◌≡◌, arith, List, [], ◌∷◌, length, none, true, Bool, ◌==◌, leb,
}
use dlis_parser.Codec.Value.{Outcome, ok, exit, fault, hang}
use dlis_parser.Dlis.State.{Dlis, frame_init, dlis_init, buff_size}
use dlis_parser.Dlis.Rounds.{Round, again, end_loop}
use dlis_parser.Dlis.Parse.{parse_round, parse_loop, parse}
use dlis_parser.Dlis.Parse.Loop.{goes_on, parse_loop-zero, parse_loop-suc}
use dlis_parser.Dlis.Input.{
  switched, switch_buffer, appended, append_chunk, accept_chunk, dlis_read,
}
use dlis_parser.Dlis.Sound.{IsSound}
use dlis_parser.Dlis.Sound.Each.{Each, Each-ok, then-Each, if-Each}
use dlis_parser.Dlis.Sound.Input.{kept, same-IsSound}
use dlis_parser.Dlis.Sound.Steps.{SoundRound}
use dlis_parser.Dlis.Sound.Rounds.{parse_round-Sound}

abbrev SoundEnd : Bool × Dlis → Type 0
SoundEnd (b, d) = IsSound d

goes_on-IsSound :
    (fuel : ℕ) (r : Outcome Round)
    → Each SoundRound r
    → ((d : Dlis) → IsSound d → Each SoundEnd (parse_loop fuel d))
    → Each SoundEnd (goes_on fuel r)
goes_on-IsSound fuel (ok (again d)) s below = below d s
goes_on-IsSound fuel (ok (end_loop d)) s below = s
goes_on-IsSound fuel exit s below = tt
goes_on-IsSound fuel fault s below = tt
goes_on-IsSound fuel hang s below = tt

parse_loop-IsSound : (fuel : ℕ) (d : Dlis) → IsSound d → Each SoundEnd (parse_loop fuel d)
parse_loop-IsSound zero d s = rw (parse_loop-zero d) s
parse_loop-IsSound (suc fuel) d s =
    rw (parse_loop-suc fuel d)
      (goes_on-IsSound fuel (parse_round d) (parse_round-Sound d s) (parse_loop-IsSound fuel))

parse-IsSound : (fuel : ℕ) (d : Dlis) → IsSound d → Each SoundEnd (parse fuel d)
unfolding parse
parse-IsSound fuel d s =
    if-Each SoundEnd (d.byte_idx == d.max_byte_idx) (ok (true, d)) (parse_loop fuel d) s
      (parse_loop-IsSound fuel d s)

append_kept : (d : Dlis) (chunk : List ℕ) → Each (λ d'. kept d' ≡ kept d) (append_chunk d chunk)
unfolding append_chunk appended
append_kept d chunk = ground arith

switch_kept : (d : Dlis) → Each (λ d'. kept d' ≡ kept d) (switch_buffer d)
unfolding switch_buffer switched
switch_kept d = ground arith

pub accept_chunk-IsSound :
    (d : Dlis) (chunk : List ℕ) → IsSound d → Each IsSound (accept_chunk d chunk)
unfolding accept_chunk
accept_chunk-IsSound d chunk s =
    if-Each IsSound (leb buff_size (d.max_byte_idx + length chunk)) _ (append_chunk d chunk)
      (then-Each IsSound IsSound (switch_buffer d) _
        (same-IsSound d (switch_buffer d) (switch_kept d) s)
        (λ d' s'. same-IsSound d' (append_chunk d' chunk) (append_kept d' chunk) s'))
      (same-IsSound d (append_chunk d chunk) (append_kept d chunk) s)

dlis_read-IsSound :
    (fuel : ℕ) (d : Dlis) (chunk : List ℕ) → IsSound d → Each SoundEnd (dlis_read fuel d chunk)
unfolding dlis_read
dlis_read-IsSound fuel d chunk s =
    then-Each IsSound SoundEnd (accept_chunk d chunk) (parse fuel) (accept_chunk-IsSound d chunk s)
      (parse-IsSound fuel)

-- The states after any number of chunks, each parsed to the end of the loop.
pub data Reaches (d : Dlis) : Dlis → Type 0 where
  start : Reaches d d
  read :
      {d' d'' : Dlis} (fuel : ℕ) (chunk : List ℕ)
      → Reaches d d'
      → dlis_read fuel d' chunk ≡ ok (true, d'')
      → Reaches d d''

-- From a sound state the parser comes only to sound states, whatever chunks it reads, each to the
-- end of the loop: every pointer among the frames and channels is NULL or that of an object, the
-- frame that the struct holds is there, and the bytes that wait fit their array and are written.
pub Reaches-IsSound : (d d' : Dlis) → Reaches d d' → IsSound d → IsSound d'
Reaches-IsSound d d' start s = s
Reaches-IsSound d d'' (read {d'} fuel chunk before e) s =
    Each-ok SoundEnd (dlis_read fuel d' chunk) (true, d'')
      (dlis_read-IsSound fuel d' chunk (Reaches-IsSound d d' before s)) e

-- `dlis_init` on a memory with the frame that the struct holds and no channel, where no bytes
-- wait, gives a state in which every pointer is NULL or that of an object and the waiting bytes
-- fit their array and are written.
pub dlis_init-IsSound :
    (d : Dlis)
    → d.frame_heap ≡ frame_init ∷ []
    → d.channel_heap ≡ []
    → d.channels ≡ none
    → d.state.unparsed_buff_len ≡ 0
    → IsSound (dlis_init d)
unfolding dlis_init frame_init
dlis_init-IsSound d frames heap first waiting = record {
  linked =
      rw (frames, heap, first)
        (record {
          some_frame = omega arith;
          frames_point = (record { first = tt; last = tt; behind = tt }, tt);
          channels_point = tt;
          frame_points = tt;
          first_points = tt;
          last_points = tt;
        });
  carried = record { fits = omega (arith, waiting); written = omega (arith, waiting) };
}
