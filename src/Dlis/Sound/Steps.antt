-- ===== src/Dlis/Sound/Steps.antt =====
-- dlis.cc, parse: the ways in which a round goes on keep a sound state.
use dlis_parser.Base.{ℕ}
use dlis_parser.Base.Int.{ℤ, pos, negsuc, leb_ℤ, ◌-ℤ◌}
use dlis_parser.Codec.Value.{ok, ◌>>=◌}
use dlis_parser.Dlis.State.{Dlis, lrs_remain, avail}
use dlis_parser.Dlis.Trailing.{trailing_len}
use dlis_parser.Dlis.Skip.{lrs_skip_unparsed_buff}
use dlis_parser.Dlis.NextState.{next_state}
use dlis_parser.Dlis.Rounds.{Round, again, end_loop, proceed, advance, cut, take_len}
use dlis_parser.Dlis.Sound.{IsSound}
use dlis_parser.Dlis.Sound.Each.{Each, then-Each, if-Each}
use dlis_parser.Dlis.Sound.Input.{
  kept-IsSound, trailing_kept, next_state-IsSound, lrs_skip_unparsed_buff-IsSound,
}

abbrev pub SoundRound : Round → Type 0
SoundRound (again d) = IsSound d
SoundRound (end_loop d) = IsSound d

pub proceed-Sound : (d : Dlis) → IsSound d → Each SoundRound (proceed d)
unfolding proceed
proceed-Sound d s =
    then-Each IsSound SoundRound (next_state d) _ (next_state-IsSound d s) (λ d' s'. s')

pub advance-IsSound : (n : ℕ) (d : Dlis) → IsSound d → IsSound (advance n d)
unfolding advance
advance-IsSound n d s = record { linked = s.linked; carried = s.carried }

pub take_len-Sound : (z : ℤ) (d : Dlis) → IsSound d → Each SoundRound (take_len z d)
unfolding take_len
take_len-Sound (negsuc n) d s = s
take_len-Sound (pos n) d s = proceed-Sound (advance n d) (advance-IsSound n d s)

pub skip-Sound : (d : Dlis) → IsSound d → Each SoundRound (lrs_skip_unparsed_buff d >>= proceed)
skip-Sound d s =
    then-Each IsSound SoundRound (lrs_skip_unparsed_buff d) proceed
      (lrs_skip_unparsed_buff-IsSound d s) proceed-Sound

pub cut-Sound : (d : Dlis) → IsSound d → Each SoundRound (cut d)
unfolding cut
cut-Sound d s =
    let d' : Dlis = (trailing_len d).1 in
    let s' : IsSound d' = kept-IsSound d d' (trailing_kept d) s in
    if-Each SoundRound (leb_ℤ (avail d') (lrs_remain d'.state -ℤ (trailing_len d).0))
      (ok (end_loop d')) _ s' (skip-Sound d' s')
