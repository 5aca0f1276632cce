-- ===== src/Dlis/Measure/Rounds.antt =====
-- dlis.cc, parse: what the measure needs of a round, and the ways in which a round goes on.
use dlis_parser.Base.{
  ℕ, ◌+◌, ◌-◌, ◌*◌, ◌<◌, ◌≡◌, refl, ap, ◌∙◌, arith, true, false, Bool, if◌then◌else◌, Option, none,
  some,
}
use dlis_parser.Base.Int.{ℤ, pos, negsuc, leb_ℤ, ◌-ℤ◌}
use dlis_parser.Codec.Value.{Outcome, ok, exit, fault, hang, ◌>>=◌}
use dlis_parser.Dlis.State.{expecting_iflr_header, expecting_lrs_trailing, Dlis, avail, lrs_remain}
use dlis_parser.Dlis.Skip.{keeps_first_byte, lrs_skip_unparsed_buff}
use dlis_parser.Dlis.Skip.Saved.{known_trail}
use dlis_parser.Dlis.NextState.{next_state}
use dlis_parser.Dlis.Rounds.{Round, again, end_loop, proceed, advance, cut, take_len}
use dlis_parser.Dlis.Measure.{left, rank, measure}
use dlis_parser.Dlis.Measure.Steps.{next_rank, next_state-left, next_state-measure}
use dlis_parser.Dlis.Measure.Cut.{
  InBody, first_byte, Skips, lrs_skip_unparsed_buff-Skips, next_state-trailing,
}

-- The loop goes on only with a measure below n.
abbrev pub Falls : ℕ → Outcome Round → Type 0
Falls n (ok (again d')) = measure d' < n
Falls n (ok (end_loop d')) = Unit
Falls n exit = Unit
Falls n fault = Unit
Falls n hang = Unit

pub bind-Falls :
    {A : Type 0} (n : ℕ) (r : Outcome A) (k : A → Outcome Round)
    → ((a : A) → r ≡ ok a → Falls n (k a))
    → Falls n (r >>= k)
bind-Falls n (ok a) k each = each a refl
bind-Falls n exit k each = tt
bind-Falls n fault k each = tt
bind-Falls n hang k each = tt

pub if-Falls :
    (n : ℕ) (t : Bool) (x y : Outcome Round)
    → (t ≡ true → Falls n x)
    → (t ≡ false → Falls n y)
    → Falls n (if t then x else y)
if-Falls n true x y first second = first refl
if-Falls n false x y first second = second refl

-- A parser that finds nothing leaves what follows to `x`.
pub found-Falls :
    {A : Type 0} (n : ℕ) (o : Option A) (x : Outcome Round) (k : A → Outcome Round)
    → (o ≡ none → Falls n x)
    → ((a : A) → o ≡ some a → Falls n (k a))
    → Falls n (elim o [ none ↦ x | some a ↦ k a ])
found-Falls n none x k nothing each = nothing refl
found-Falls n (some a) x k nothing each = each a refl

-- A round goes on from a state with fewer bytes.
pub proceed-Falls :
    (n : ℕ) (d : Dlis) → 3 * left d + next_rank d.state.code < n → Falls n (proceed d)
unfolding proceed
proceed-Falls n d less =
    bind-Falls n (next_state d) (λ d'. ok (again d'))
      (λ d' e. omega (arith, next_state-measure d d' e))

-- From the body of a segment that is used up it goes on to the trailer.
pub proceed_at_end-Falls :
    (n t : ℕ) (d d₀ : Dlis) (more : ℕ)
    → Skips t more d₀ d
    → InBody d₀.state.code
    → 3 * (left d₀ + more) + 1 < n
    → Falls n (proceed d)
unfolding proceed
proceed_at_end-Falls n t d d₀ more s body less =
    bind-Falls n (next_state d) (λ d'. ok (again d'))
      (λ d' e.
        let trailer : d'.state.code ≡ expecting_lrs_trailing =
          next_state-trailing t d d' s.same_trail s.at_end (rw s.same_code body) e in
        omega (arith, next_state-left d d' e, s.bytes_left, ap rank trailer))

pub skip-Falls :
    (n t : ℕ) (d : Dlis)
    → d.state.lrs_trail_len ≡ pos t
    → InBody d.state.code
    → 3 * (left d + first_byte d.state.code) + 1 < n
    → Falls n (lrs_skip_unparsed_buff d >>= proceed)
skip-Falls n t d known body less = bind-Falls n (lrs_skip_unparsed_buff d) proceed (λ d' e.
    proceed_at_end-Falls n t d' d (first_byte d.state.code)
      (lrs_skip_unparsed_buff-Skips t d d' known e) body less)

-- A component that is cut.
pub cut-Falls :
    (n t : ℕ) (d : Dlis)
    → d.state.lrs_trail_len ≡ pos t
    → InBody d.state.code
    → 3 * (left d + first_byte d.state.code) + 1 < n
    → Falls n (cut d)
unfolding cut
cut-Falls n t d known body less = rw (known_trail d t known) (
    if-Falls n (leb_ℤ (avail d) (lrs_remain d.state -ℤ pos t)) (ok (end_loop d))
      (lrs_skip_unparsed_buff d >>= proceed) (λ _. tt) (λ _. skip-Falls n t d known body less))

pub header_first_byte : first_byte expecting_iflr_header ≡ 0
unfolding keeps_first_byte
header_first_byte = refl

-- A frame header that is cut.
pub cut_header-Falls :
    (n t : ℕ) (d : Dlis)
    → d.state.lrs_trail_len ≡ pos t
    → d.state.code ≡ expecting_iflr_header
    → 3 * left d + 2 < n
    → Falls n (cut d)
unfolding cut
cut_header-Falls n t d known header less = rw (known_trail d t known) (
    if-Falls n (leb_ℤ (avail d) (lrs_remain d.state -ℤ pos t)) (ok (end_loop d))
      (lrs_skip_unparsed_buff d >>= proceed) (λ _. tt)
      (λ _. bind-Falls n (lrs_skip_unparsed_buff d) proceed (λ d' e.
        let s : Skips t (first_byte d.state.code) d d' =
          lrs_skip_unparsed_buff-Skips t d d' known e in
        proceed-Falls n d' (
          omega (
            arith,
            s.bytes_left,
            ap next_rank (s.same_code ∙ header),
            ap first_byte header ∙ header_first_byte,
          )))))

pub left-advance : (n : ℕ) (d : Dlis) → left (advance n d) ≡ left d - n
unfolding advance
left-advance n d = ground arith

pub take_len-Falls :
    (n : ℕ) (z : ℤ) (d : Dlis) → 3 * left d + next_rank d.state.code < n → Falls n (take_len z d)
unfolding take_len advance
take_len-Falls n (negsuc k) d less = tt
take_len-Falls n (pos k) d less = proceed-Falls n (advance k d) (omega (arith, left-advance k d))
