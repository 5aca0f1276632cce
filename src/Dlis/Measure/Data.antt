-- ===== src/Dlis/Measure/Data.antt =====
-- dlis.cc, parse: the rounds over frame headers and data use the measure up, but for one state at the
-- end of data that the loop goes round in.
use dlis_parser.Base.{
  ℕ, ◌+◌, ◌*◌, ◌≤◌, ◌<◌, ◌≡◌, ◌⊎◌, refl, sym, ap, ◌∙◌, arith, Option, none, some, inl, inr, true,
  false, Bool-cases, ◌==◌,
}
use dlis_parser.Base.Int.{pos, leb_ℤ}
use dlis_parser.Codec.Outcome.{bind-ok}
use dlis_parser.Codec.Value.{Outcome, ok, exit, fault, hang, ◌>>=◌}
use dlis_parser.Dlis.State.{
  expecting_iflr_header, expecting_iflr_data, expecting_lrs_trailing, Dlis, lrs_remain, avail,
}
use dlis_parser.Dlis.Skip.{keeps_first_byte, lrs_skip_unparsed_buff}
use dlis_parser.Dlis.Skip.Saved.{known_trail}
use dlis_parser.Dlis.Iflr.{eod, deref, parse_iflr_header, parse_iflr_data}
use dlis_parser.Dlis.Events.{on_iflr_header, on_iflr_data}
use dlis_parser.Dlis.NextState.{go_to, at_trailing, after_data, next_from, next_state}
use dlis_parser.Dlis.Rounds.{again, end_loop, proceed, advance, cut}
use dlis_parser.Dlis.Rounds.Data.{set_index, round_header, next_channel, round_data}
use dlis_parser.Dlis.Measure.{left, rank, measure, input, input_parts, Keeps}
use dlis_parser.Dlis.Measure.Callbacks.{on_iflr_header-Keeps, on_iflr_data-Keeps}
use dlis_parser.Dlis.Measure.Steps.{next_rank, next_state-left}
use dlis_parser.Dlis.Measure.Cut.{frame_data, first_byte}
use dlis_parser.Dlis.Measure.Parsers.{Keeps-ok}
use dlis_parser.Dlis.Measure.Values.{Sized, parse_iflr_data_lem}
use dlis_parser.Dlis.Measure.Rounds.{
  Falls, bind-Falls, if-Falls, found-Falls, proceed-Falls, skip-Falls, cut_header-Falls,
  left-advance,
}

header_state : (t : ℕ) (d : Dlis) → d.state.lrs_trail_len ≡ pos t → (parse_iflr_header d).1 ≡ d
unfolding parse_iflr_header
header_state t d known = ap (λ r. r.1) (known_trail d t known)

indexed_input : (index : Option ℕ) (d : Dlis) → input (set_index index d) ≡ input d
unfolding set_index
indexed_input none d = refl
indexed_input (some i) d = refl

pub round_header-Falls :
    (t : ℕ) (d : Dlis)
    → d.state.lrs_trail_len ≡ pos t
    → d.state.code ≡ expecting_iflr_header
    → Falls (measure d) (round_header d)
unfolding round_header advance
round_header-Falls t d known code =
    let d' : Dlis = (parse_iflr_header d).1 in
    let same : d' ≡ d = header_state t d known in
    let d'_code : d'.state.code ≡ expecting_iflr_header = ap (λ x. x.state.code) same ∙ code in
    found-Falls (measure d) (parse_iflr_header d).0 (cut d') _
      (λ _.
        cut_header-Falls (measure d) t d' (ap (λ x. x.state.lrs_trail_len) same ∙ known) d'_code
          (omega (arith, ap left same, ap rank code)))
      (λ (n, name, index) found. bind-Falls (measure d) (on_iflr_header d' name) _ (λ d₂ e.
        let kept = indexed_input index d₂ ∙ Keeps-ok d' d₂ _ (on_iflr_header-Keeps d' name) e in
        let (same_left, same_code, _) = input_parts d' (set_index index d₂) kept in
        proceed-Falls (measure d) (advance n (set_index index d₂)) (
          omega (
            arith,
            left-advance n (set_index index d₂),
            same_left,
            ap left same,
            ap next_rank (same_code ∙ d'_code),
            ap rank code,
          ))))

pub next_channel-Keeps : (d : Dlis) → Keeps d (next_channel d)
unfolding next_channel
next_channel-Keeps d = ground arith

-- A chain of callbacks does not touch the size of a value.
abbrev SameSize : Dlis → Outcome Dlis → Type 0
SameSize d (ok d') = d'.state.parsing_dimension ≡ d.state.parsing_dimension
SameSize d exit = Unit
SameSize d fault = Unit
SameSize d hang = Unit

on_iflr_data-SameSize : (d : Dlis) → SameSize d (on_iflr_data d)
unfolding on_iflr_data
on_iflr_data-SameSize d = ground arith

next_channel-SameSize : (d : Dlis) → SameSize d (next_channel d)
unfolding next_channel
next_channel-SameSize d = ground arith

SameSize-ok :
    (d d' : Dlis) (r : Outcome Dlis)
    → SameSize d r
    → r ≡ ok d'
    → d'.state.parsing_dimension ≡ d.state.parsing_dimension
SameSize-ok d d' r same e = rw e at same

-- At the end of the segment, or with no value to come, the trailer is next; otherwise nothing changes.
pub after_data-cases :
    (t : ℕ) (d d' : Dlis)
    → d.state.lrs_trail_len ≡ pos t
    → after_data d ≡ ok d'
    → (d'.state.code ≡ expecting_lrs_trailing)
      ⊎ ((d' ≡ d) × (leb_ℤ d.state.parsing_dimension (pos 0) ≡ false))
unfolding after_data
after_data-cases t d d' known e = elim (Bool-cases (at_trailing (pos t) d)) [
  | inl at_end ↦
      (let e' : ok (go_to d expecting_lrs_trailing) ≡ ok d' =
          rw (known_trail d t known, at_end) at e in
        inl (ground arith))
  | inr more ↦
      (let ((i, f), e₁, rest) =
          bind-ok (deref d.frame_heap d.current_frame) _ d'
            (rw (known_trail d t known, more) at e) in
        ground arith)
]

data_first_byte : first_byte expecting_iflr_data ≡ 0
unfolding keeps_first_byte
data_first_byte = refl

module _ (t : ℕ) (d : Dlis) (known : d.state.lrs_trail_len ≡ pos t)
    (code : d.state.code ≡ expecting_iflr_data) where
  pub data_next : next_state d ≡ after_data d
  unfolding next_state next_from
  data_next = rw code refl

  -- Without a value to come the round goes on to the trailer.
  no_value-Falls :
      (n : ℕ)
      → leb_ℤ d.state.parsing_dimension (pos 0) ≡ true
      → 3 * left d + 1 < n
      → Falls n (proceed d)
  unfolding proceed
  no_value-Falls n no_size less =
      bind-Falls n (next_state d) (λ d'. ok (again d'))
        (λ d' e. elim (after_data-cases t d d' known (sym data_next ∙ e)) [
          | inl trailer ↦ omega (arith, next_state-left d d' e, ap rank trailer)
          | inr (same, size) ↦ absurd (ground (arith, no_size, size))
        ])

-- The values that have come in, or those that cannot come.
module _ (t n : ℕ) (d d₀ : Dlis) (known : d.state.lrs_trail_len ≡ pos t)
    (code : d.state.code ≡ expecting_iflr_data) (same : input d₀ ≡ input d)
    (how : ((1 ≤ n) × (1 ≤ left d)) ⊎ ((n ≡ 0) × Sized d₀)) where
  whole_values-Falls :
      (d₃ : Dlis)
      → input d₃ ≡ input (advance n d₀)
      → d₃.state.parsing_dimension ≡ d₀.state.parsing_dimension
      → leb_ℤ d₀.state.parsing_dimension d₀.state.parsing_value_cnt ≡ true
      → Falls (measure d) (proceed d₃)
  unfolding advance
  whole_values-Falls d₃ same₃ size all =
      let (same_left, same_code, same_trail) = input_parts d d₀ same in
      let (left₃, code₃, trail₃) = input_parts (advance n d₀) d₃ same₃ in
      elim how [
        | inl (more, some_left) ↦ proceed-Falls (measure d) d₃ (
            omega (
              arith,
              left-advance n d₀,
              same_left,
              left₃,
              ap next_rank (code₃ ∙ same_code ∙ code),
              ap rank code,
            ))
        | inr (none_taken, sized) ↦
            no_value-Falls t d₃ (trail₃ ∙ same_trail ∙ known) (code₃ ∙ same_code ∙ code) (measure d)
              (rw size (sized all))
              (omega (arith, left-advance n d₀, same_left, left₃, ap rank code))
      ]

  cut_values-Falls : Falls (measure d) (lrs_skip_unparsed_buff (advance n d₀) >>= proceed)
  unfolding advance
  cut_values-Falls =
      let (same_left, same_code, same_trail) = input_parts d d₀ same in
      skip-Falls (measure d) t (advance n d₀) (same_trail ∙ known)
        (rw (same_code ∙ code) frame_data)
        (omega (
          arith,
          left-advance n d₀,
          same_left,
          ap first_byte (same_code ∙ code),
          data_first_byte,
          ap rank code,
        ))

pub round_data-Falls :
    (t : ℕ) (d : Dlis)
    → d.state.lrs_trail_len ≡ pos t
    → d.state.code ≡ expecting_iflr_data
    → (d.state.lrs_type == eod) ≡ false
    → Falls (measure d) (round_data d)
unfolding round_data advance
round_data-Falls t d known code no_eod = bind-Falls (measure d) (parse_iflr_data d) _ (λ (n, d₀) e.
    let (same, same_type, how) = parse_iflr_data_lem t n d d₀ known e no_eod in
    let d₁ : Dlis = advance n d₀ in
    if-Falls (measure d) (d₁.state.lrs_type == eod) (proceed d₁) _
      (λ ended. absurd (ground (arith, ended, ap (λ k. k == eod) same_type ∙ no_eod)))
      (λ _.
        if-Falls (measure d) (leb_ℤ d₁.state.parsing_dimension d₁.state.parsing_value_cnt) _ _
          (λ all. bind-Falls (measure d) (on_iflr_data d₁) _ (λ d₂ e₂.
            bind-Falls (measure d) (next_channel d₂) proceed (λ d₃ e₃.
              whole_values-Falls t n d d₀ known code same how d₃
                (Keeps-ok d₂ d₃ _ (next_channel-Keeps d₂) e₃
                  ∙ Keeps-ok d₁ d₂ _ (on_iflr_data-Keeps d₁) e₂)
                (SameSize-ok d₂ d₃ _ (next_channel-SameSize d₂) e₃
                  ∙ SameSize-ok d₁ d₂ _ (on_iflr_data-SameSize d₁) e₂)
                all)))
          (λ _.
            if-Falls (measure d) (leb_ℤ (avail d₁) (lrs_remain d₁.state)) (ok (end_loop d₁)) _
              (λ _. tt) (λ _. cut_values-Falls t n d d₀ known code same how))))

advance-zero : (d : Dlis) → advance 0 d ≡ d
unfolding advance
advance-zero d = ground arith

-- At the end of data a round does nothing but go to the next state.
pub round_data-eod : (d : Dlis) → (d.state.lrs_type == eod) ≡ true → round_data d ≡ proceed d
unfolding round_data parse_iflr_data
round_data-eod d ended = rw (ended, advance-zero d, ended) refl
