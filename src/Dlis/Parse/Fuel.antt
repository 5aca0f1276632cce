-- ===== src/Dlis/Parse/Fuel.antt =====
-- dlis.cc, parse: how many rounds the loop takes, and the state in which it does not end.
use dlis_parser.Base.{
  ℕ, zero, suc, ◌+◌, ◌*◌, ◌≤◌, ◌<◌, ◌≡◌, ◌⊎◌, refl, ap, ◌∙◌, arith, inl, inr, true, false, Bool,
  Bool-cases, ◌==◌, some,
}
use dlis_parser.Base.Int.{pos, leb_ℤ}
use dlis_parser.Codec.Value.{Outcome, ok, exit, fault, hang, ◌>>=◌}
use dlis_parser.Dlis.State.{expecting_iflr_data, Dlis, Frame}
use dlis_parser.Dlis.Skip.Saved.{known_trail}
use dlis_parser.Dlis.Iflr.{eod, deref}
use dlis_parser.Dlis.NextState.{at_trailing, after_data}
use dlis_parser.Dlis.Rounds.{Round, again, end_loop, proceed}
use dlis_parser.Dlis.Parse.{round_from, parse_round, parse_loop, parse}
use dlis_parser.Dlis.Parse.Loop.{goes_on, parse_loop-zero, parse_loop-suc}
use dlis_parser.Dlis.Measure.{measure}
use dlis_parser.Dlis.Measure.Data.{data_next, round_data-eod}
use dlis_parser.Dlis.Measure.Falls.{Stuck, Drops, parse_round-Drops, parse_round-known}
use dlis_parser.Dlis.Measure.Steps.{rank-le}

-- A run that the fuel has been enough for.
pub data Finishes : Outcome (Bool × Dlis) → Type 0 where
  ended : (d : Dlis) → Finishes (ok (true, d))
  exited : Finishes exit
  faulted : Finishes fault

-- A run that never ends: it goes round in a state, or a loop over a list does not return.
abbrev pub RunsOn : Outcome (Bool × Dlis) → Type 0
RunsOn r = ((d : Dlis) × (r ≡ ok (false, d)) × Stuck d) ⊎ (r ≡ hang)

Stuck-loop : (fuel : ℕ) (d : Dlis) → Stuck d → parse_loop fuel d ≡ ok (false, d)
Stuck-loop zero d s = parse_loop-zero d
Stuck-loop (suc fuel) d s =
    parse_loop-suc fuel d ∙ ap (goes_on fuel) (s.same_again) ∙ Stuck-loop fuel d s

goes_on-Finishes :
    (n fuel : ℕ) (r : Outcome Round)
    → Drops n r
    → n ≤ fuel
    → ((d : Dlis) → measure d < fuel → Finishes (parse_loop fuel d) ⊎ RunsOn (parse_loop fuel d))
    → Finishes (goes_on fuel r) ⊎ RunsOn (goes_on fuel r)
goes_on-Finishes n fuel (ok (again d)) (inl less) enough below = below d (omega arith)
goes_on-Finishes n fuel (ok (again d)) (inr stuck) enough below =
    inr (inl (d, Stuck-loop fuel d stuck, stuck))
goes_on-Finishes n fuel (ok (end_loop d)) drops enough below = inl (ended d)
goes_on-Finishes n fuel exit drops enough below = inl exited
goes_on-Finishes n fuel fault drops enough below = inl faulted
goes_on-Finishes n fuel hang drops enough below = inr (inr refl)

-- With more fuel than three rounds for each byte that is left and the rank of the state, the loop
-- ends by itself, by `exit` or by an undefined access, or runs on: in a state at the end of data that
-- every further round gives back as it was, or in a loop over a list that goes round.
pub parse_loop-Finishes :
    (fuel : ℕ) (d : Dlis)
    → measure d < fuel
    → Finishes (parse_loop fuel d) ⊎ RunsOn (parse_loop fuel d)
parse_loop-Finishes zero d less = absurd (omega (arith, less))
parse_loop-Finishes (suc fuel) d less = rw (parse_loop-suc fuel d) (
    goes_on-Finishes (measure d) fuel (parse_round d) (parse_round-Drops d) (omega (arith, less))
      (parse_loop-Finishes fuel))

pub measure-le : (d : Dlis) → measure d ≤ 5 + 3 * (d.max_byte_idx + d.state.unparsed_buff_len)
measure-le d = omega (arith, rank-le d.state.code)

pub parse-Finishes :
    (fuel : ℕ) (d : Dlis) → measure d < fuel → Finishes (parse fuel d) ⊎ RunsOn (parse fuel d)
unfolding parse
parse-Finishes fuel d less = elim (Bool-cases (d.byte_idx == d.max_byte_idx)) [
  | inl same ↦ rw (same, parse) (inl (ended d))
  | inr more ↦ rw (more, parse) (parse_loop-Finishes fuel d less)
]

pub after_data-stays :
    (t i j : ℕ) (f : Frame) (d : Dlis)
    → d.state.lrs_trail_len ≡ pos t
    → at_trailing (pos t) d ≡ false
    → deref d.frame_heap d.current_frame ≡ ok (i, f)
    → f.current_channel ≡ some j
    → leb_ℤ d.state.parsing_dimension (pos 0) ≡ false
    → after_data d ≡ ok d
unfolding after_data
after_data-stays t i j f d known more frame channel size =
    rw (known_trail d t known, more, frame, channel, size) refl

stays-Stuck :
    (t : ℕ) (d : Dlis)
    → d.state.lrs_trail_len ≡ pos t
    → d.state.code ≡ expecting_iflr_data
    → (d.state.lrs_type == eod) ≡ true
    → after_data d ≡ ok d
    → Stuck d
unfolding proceed round_from
stays-Stuck t d known code of_eod stays = record {
  at_data = code;
  of_eod = of_eod;
  same_again =
      parse_round-known t d known
      ∙ ap (λ c. round_from c d) code
      ∙ round_data-eod d of_eod
      ∙ ap (λ r. r >>= λ x. ok (again x)) (data_next t d known code ∙ stays);
}

-- In the data of a segment of the type that ends data, with a byte left in front of the known
-- trailer, a current frame with a current channel, and a positive number of values to a channel,
-- the loop does not end with any fuel, and the state stays as it is.
pub parse_loop-eod :
    (t i j : ℕ) (f : Frame) (d : Dlis)
    → d.state.lrs_trail_len ≡ pos t
    → d.state.code ≡ expecting_iflr_data
    → (d.state.lrs_type == eod) ≡ true
    → at_trailing (pos t) d ≡ false
    → deref d.frame_heap d.current_frame ≡ ok (i, f)
    → f.current_channel ≡ some j
    → leb_ℤ d.state.parsing_dimension (pos 0) ≡ false
    → (fuel : ℕ) → parse_loop fuel d ≡ ok (false, d)
parse_loop-eod t i j f d known code of_eod more frame channel size fuel =
    Stuck-loop fuel d
      (stays-Stuck t d known code of_eod (after_data-stays t i j f d known more frame channel size))
