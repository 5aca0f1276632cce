-- ===== src/Dlis/Parse/Loop.antt =====
-- dlis.cc, parse: the fuel of the loop.
use dlis_parser.Base.{suc-add, ℕ, zero, suc, ◌+◌, ◌≡◌, refl, Bool, true, false}
use dlis_parser.Codec.Value.{Outcome, ok, exit, fault, hang, ◌>>=◌}
use dlis_parser.Dlis.State.{Dlis}
use dlis_parser.Dlis.Rounds.{Round, again, end_loop}
use dlis_parser.Dlis.Parse.{parse_round, parse_loop}

pub parse_loop-zero : (d : Dlis) → parse_loop zero d ≡ ok (false, d)
unfolding parse_loop
parse_loop-zero d = refl

-- The rest of the loop behind a round.
abbrev pub goes_on : ℕ → Outcome Round → Outcome (Bool × Dlis)
goes_on fuel (ok (again d)) = parse_loop fuel d
goes_on fuel (ok (end_loop d)) = ok (true, d)
goes_on fuel exit = exit
goes_on fuel fault = fault
goes_on fuel hang = hang

bind-goes_on :
    (fuel : ℕ) (r : Outcome Round)
    → (r >>= elim [ again d' ↦ parse_loop fuel d' | end_loop d' ↦ ok (true, d') ]) ≡ goes_on fuel r
bind-goes_on fuel (ok (again d)) = refl
bind-goes_on fuel (ok (end_loop d)) = refl
bind-goes_on fuel exit = refl
bind-goes_on fuel fault = refl
bind-goes_on fuel hang = refl

pub parse_loop-suc : (fuel : ℕ) (d : Dlis) → parse_loop (suc fuel) d ≡ goes_on fuel (parse_round d)
unfolding parse_loop
parse_loop-suc fuel d = bind-goes_on fuel (parse_round d)

-- What a run has to do so that one with more fuel ends as it does.
abbrev Ended : ℕ → Outcome (Bool × Dlis) → Outcome (Bool × Dlis) → Type 0
Ended more (ok (true, d)) r = r ≡ ok (true, d)
Ended more (ok (false, d)) r = Unit
Ended more exit r = r ≡ exit
Ended more fault r = r ≡ fault
Ended more hang r = r ≡ hang

goes_on-Ended :
    (fuel more : ℕ)
    → ((d : Dlis) → Ended more (parse_loop fuel d) (parse_loop (fuel + more) d))
    → (r : Outcome Round) → Ended more (goes_on fuel r) (goes_on (fuel + more) r)
goes_on-Ended fuel more below (ok (again d)) = below d
goes_on-Ended fuel more below (ok (end_loop d)) = refl
goes_on-Ended fuel more below exit = refl
goes_on-Ended fuel more below fault = refl
goes_on-Ended fuel more below hang = refl

loop-Ended :
    (fuel more : ℕ) (d : Dlis) → Ended more (parse_loop fuel d) (parse_loop (fuel + more) d)
loop-Ended zero more d = rw (parse_loop-zero d) tt
loop-Ended (suc fuel) more d =
    rw (suc-add fuel more, parse_loop-suc fuel d, parse_loop-suc (fuel + more) d)
      (goes_on-Ended fuel more (loop-Ended fuel more) (parse_round d))

-- A run of the loop that has ended by itself ends in the same state with any more fuel.
pub parse_loop-add :
    (fuel more : ℕ) (d d' : Dlis)
    → parse_loop fuel d ≡ ok (true, d')
    → parse_loop (fuel + more) d ≡ ok (true, d')
parse_loop-add fuel more d d' e =
    let ended : Ended more (parse_loop fuel d) (parse_loop (fuel + more) d) =
      loop-Ended fuel more d in
    rw e at ended
