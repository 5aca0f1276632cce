-- ===== src/Dlis/Measure/Falls.antt =====
-- dlis.cc, parse: every round uses the measure up, but for one that leaves the state as it is.
use dlis_parser.Base.{
  ℕ, ◌+◌, ◌<◌, ◌≡◌, ◌⊎◌, refl, sym, ap, ◌∙◌, arith, inl, inr, true, Bool-cases, ltb-false, ◌==◌,
}
use dlis_parser.Base.Int.{pos, ltb_ℤ}
use dlis_parser.Codec.Value.{Outcome, ok, exit, fault, hang, ◌>>=◌}
use dlis_parser.Dlis.State.{
  ParseCode, expecting_sul, expecting_vr, expecting_lrs, expecting_encryption_packet,
  expecting_eflr_comp, expecting_eflr_comp_set, expecting_eflr_comp_rset, expecting_eflr_comp_rdset,
  expecting_eflr_comp_absatr, expecting_eflr_comp_attrib, expecting_eflr_comp_invatr,
  expecting_eflr_comp_object, expecting_lrs_trailing, expecting_eflr_comp_attrib_value,
  expecting_iflr_header, expecting_iflr_data, Dlis,
}
use dlis_parser.Dlis.Trailing.{trailing_len}
use dlis_parser.Dlis.Skip.Saved.{known_trail}
use dlis_parser.Dlis.Iflr.{eod}
use dlis_parser.Dlis.NextState.{next_state}
use dlis_parser.Dlis.NextState.Edges.{IsWhole, IsValued}
use dlis_parser.Dlis.Rounds.{Round, again, end_loop, proceed}
use dlis_parser.Dlis.Parse.{round_from, parse_round}
use dlis_parser.Dlis.Rounds.Data.{round_data}
use dlis_parser.Dlis.Measure.{rank, measure}
use dlis_parser.Dlis.Measure.Trail.{trailing_len-measure, trailing_len-known}
use dlis_parser.Dlis.Measure.Steps.{next_state-left}
use dlis_parser.Dlis.Measure.Cut.{whole, valued}
use dlis_parser.Dlis.Measure.Rounds.{Falls}
use dlis_parser.Dlis.Measure.Records.{
  round_sul-Falls, round_vr-Falls, round_lrs-Falls, round_encryption-Falls, round_trailing-Falls,
}
use dlis_parser.Dlis.Measure.Components.{
  IsComponent, round_comp-Falls, round_set-Falls, round_attrib-Falls, round_object-Falls,
}
use dlis_parser.Dlis.Measure.References.{round_value-Falls}
use dlis_parser.Dlis.Measure.Data.{
  after_data-cases, data_next, round_header-Falls, round_data-Falls, round_data-eod,
}

-- The state at the end of data that a round gives back as it was.
pub record Stuck (d : Dlis) : Type 0 where
  pub at_data : d.state.code ≡ expecting_iflr_data
  pub of_eod : (d.state.lrs_type == eod) ≡ true
  pub same_again : parse_round d ≡ ok (again d)

-- The loop goes on with a measure below n, or for ever.
abbrev pub Drops : ℕ → Outcome Round → Type 0
Drops n (ok (again d')) = (measure d' < n) ⊎ Stuck d'
Drops n (ok (end_loop d')) = Unit
Drops n exit = Unit
Drops n fault = Unit
Drops n hang = Unit

Falls-Drops : (n : ℕ) (r : Outcome Round) → Falls n r → Drops n r
Falls-Drops n (ok (again d')) falls = inl falls
Falls-Drops n (ok (end_loop d')) falls = tt
Falls-Drops n exit falls = tt
Falls-Drops n fault falls = tt
Falls-Drops n hang falls = tt

whole-IsComponent : {c : ParseCode} → IsWhole c → IsComponent c
whole-IsComponent IsWhole.set = record {
  highest = refl;
  then_less = refl;
  in_body = whole IsWhole.set;
}
whole-IsComponent IsWhole.rset = record {
  highest = refl;
  then_less = refl;
  in_body = whole IsWhole.rset;
}
whole-IsComponent IsWhole.rdset = record {
  highest = refl;
  then_less = refl;
  in_body = whole IsWhole.rdset;
}
whole-IsComponent IsWhole.absatr = record {
  highest = refl;
  then_less = refl;
  in_body = whole IsWhole.absatr;
}
whole-IsComponent IsWhole.object = record {
  highest = refl;
  then_less = refl;
  in_body = whole IsWhole.object;
}

valued-IsComponent : {c : ParseCode} → IsValued c → IsComponent c
valued-IsComponent IsValued.attrib = record {
  highest = refl;
  then_less = refl;
  in_body = valued IsValued.attrib;
}
valued-IsComponent IsValued.invatr = record {
  highest = refl;
  then_less = refl;
  in_body = valued IsValued.invatr;
}

eod-Drops :
    (t : ℕ) (d : Dlis)
    → d.state.lrs_trail_len ≡ pos t
    → d.state.code ≡ expecting_iflr_data
    → (d.state.lrs_type == eod) ≡ true
    → parse_round d ≡ proceed d
    → Drops (measure d) (proceed d)
unfolding proceed
eod-Drops t d known code ended round = go (next_state d) refl
  where
    go : (r : Outcome Dlis) → next_state d ≡ r → Drops (measure d) (r >>= λ d'. ok (again d'))
    go exit e = tt
    go fault e = tt
    go hang e = tt
    go (ok d') e = elim (after_data-cases t d d' known (sym (data_next t d known code) ∙ e)) [
      | inl trailer ↦ inl (omega (arith, next_state-left d d' e, ap rank trailer, ap rank code))
      | inr (same, size) ↦ inr (
          rw same (record {
            at_data = code;
            of_eod = ended;
            same_again = round ∙ ap (λ r. r >>= λ x. ok (again x)) (e ∙ ap (λ x. ok x) same);
          }))
    ]

module _ (t : ℕ) (d : Dlis) (known : d.state.lrs_trail_len ≡ pos t)
    (known_round : parse_round d ≡ round_from d.state.code d) where
  data-Drops : d.state.code ≡ expecting_iflr_data → Drops (measure d) (round_data d)
  unfolding round_from
  data-Drops code = elim (Bool-cases (d.state.lrs_type == eod)) [
    | inr no_eod ↦ Falls-Drops (measure d) (round_data d) (round_data-Falls t d known code no_eod)
    | inl ended ↦
        (let same : parse_round d ≡ round_data d = known_round ∙ ap (λ c. round_from c d) code in
          rw (round_data-eod d ended)
            (eod-Drops t d known code ended (same ∙ round_data-eod d ended)))
  ]

  from-Drops : (c : ParseCode) → d.state.code ≡ c → Drops (measure d) (round_from c d)
  unfolding round_from
  from-Drops expecting_sul code = Falls-Drops _ _ (round_sul-Falls d code)
  from-Drops expecting_vr code = Falls-Drops _ _ (round_vr-Falls d code)
  from-Drops expecting_lrs code = Falls-Drops _ _ (round_lrs-Falls d code)
  from-Drops expecting_encryption_packet code = Falls-Drops _ _ (round_encryption-Falls d code)
  from-Drops expecting_eflr_comp code = Falls-Drops _ _ (round_comp-Falls d code)
  from-Drops expecting_eflr_comp_set code =
      Falls-Drops _ _ (round_set-Falls d (rw code (whole-IsComponent IsWhole.set)))
  from-Drops expecting_eflr_comp_rset code =
      Falls-Drops _ _ (round_set-Falls d (rw code (whole-IsComponent IsWhole.rset)))
  from-Drops expecting_eflr_comp_rdset code =
      Falls-Drops _ _ (round_set-Falls d (rw code (whole-IsComponent IsWhole.rdset)))
  from-Drops expecting_eflr_comp_absatr code =
      Falls-Drops _ _ (round_attrib-Falls t d known (rw code (whole-IsComponent IsWhole.absatr)))
  from-Drops expecting_eflr_comp_attrib code =
      Falls-Drops _ _ (round_attrib-Falls t d known (rw code (valued-IsComponent IsValued.attrib)))
  from-Drops expecting_eflr_comp_invatr code =
      Falls-Drops _ _ (round_attrib-Falls t d known (rw code (valued-IsComponent IsValued.invatr)))
  from-Drops expecting_eflr_comp_object code =
      Falls-Drops _ _ (round_object-Falls t d known (rw code (whole-IsComponent IsWhole.object)))
  from-Drops expecting_lrs_trailing code = Falls-Drops _ _ (round_trailing-Falls d code)
  from-Drops expecting_eflr_comp_attrib_value code =
      Falls-Drops _ _ (round_value-Falls t d known code)
  from-Drops expecting_iflr_header code = Falls-Drops _ _ (round_header-Falls t d known code)
  from-Drops expecting_iflr_data code = data-Drops code

-- A round from a state whose trailer is known is the round of its code.
pub parse_round-known :
    (t : ℕ) (d : Dlis) → d.state.lrs_trail_len ≡ pos t → parse_round d ≡ round_from d.state.code d
unfolding parse_round
parse_round-known t d known = rw (known_trail d t known, ltb-false (t + 0) 0 (omega arith)) refl

-- A round from any state that lets the loop go on lowers the measure, three times the bytes that
-- are left with the rank of the state; or it leads to a state at the end of data that the next
-- round gives back as it was.
pub parse_round-Drops : (d : Dlis) → Drops (measure d) (parse_round d)
unfolding parse_round
parse_round-Drops d = elim (Bool-cases (ltb_ℤ (trailing_len d).0 (pos 0))) [
  | inl unknown ↦ rw unknown tt
  | inr found ↦
      (let d' : Dlis = (trailing_len d).1 in
        let (t, known) = trailing_len-known d found in
        let drops : Drops (measure d') (round_from d'.state.code d') =
          from-Drops t d' known (parse_round-known t d' known) (d'.state.code) refl in
        rw (found, sym (trailing_len-measure d)) drops)
]
