-- ===== src/Dlis/Measure/Records.antt =====
-- dlis.cc, parse: the rounds over labels, headers and trailers use the measure up.
use dlis_parser.Base.{ℕ, suc, ◌+◌, ◌-◌, ◌≤◌, ◌≡◌, ap, ◌∙◌, arith, some, Option-cases, inl, inr}
use dlis_parser.Codec.Value.{ok}
use dlis_parser.Dlis.State.{
  expecting_sul, expecting_vr, expecting_lrs, expecting_encryption_packet, expecting_lrs_trailing,
  Dlis,
}
use dlis_parser.Dlis.Trailing.{trailing_len}
use dlis_parser.Dlis.Headers.{
  LrsHeader, parse_sul, skip_blocks, parse_vr_header, parse_lrs_header, parse_lrs_encryption_packet,
  parse_lrs_trailing,
}
use dlis_parser.Dlis.Rounds.{
  end_loop, take_len, round_sul, begin_vr, round_vr, begin_lrs, round_lrs, round_trailing,
}
use dlis_parser.Dlis.Measure.{left, rank, measure, input_parts}
use dlis_parser.Dlis.Measure.Steps.{next_rank}
use dlis_parser.Dlis.Measure.Parsers.{parse_sul-input, vr_fields-left, parse_lrs_header-left}
use dlis_parser.Dlis.Measure.Rounds.{Falls, bind-Falls, found-Falls, proceed-Falls, take_len-Falls}

pub round_sul-Falls : (d : Dlis) → d.state.code ≡ expecting_sul → Falls (measure d) (round_sul d)
unfolding round_sul
round_sul-Falls d code = bind-Falls (measure d) (parse_sul d) _ (λ (len, d') e.
    found-Falls (measure d) len (ok (end_loop d')) _ (λ _. tt)
      (λ n found.
        let (same, more, some_left) = parse_sul-input d d' n (e ∙ ap (λ l. ok (l, d')) found) in
        let (same_left, same_code, _) = input_parts d d' same in
        proceed-Falls (measure d) (record d' { byte_idx = d'.byte_idx + n })
          (omega (arith, same_left, ap next_rank (same_code ∙ code), ap rank code))))

parse_vr_header-left :
    (d : Dlis) (n vr_len version : ℕ)
    → parse_vr_header d ≡ ok (some (n, vr_len, version))
    → (1 ≤ n) × (1 ≤ left d)
unfolding parse_vr_header
parse_vr_header-left d n vr_len version e =
    elim (Option-cases (skip_blocks (suc d.max_byte_idx) d 0)) [
      | inl cut ↦ absurd (ground (arith, rw (cut, parse_vr_header) at e))
      | inr (i, found) ↦ vr_fields-left d i n vr_len version (rw (found, parse_vr_header) at e)
    ]

pub round_vr-Falls : (d : Dlis) → d.state.code ≡ expecting_vr → Falls (measure d) (round_vr d)
unfolding round_vr begin_vr
round_vr-Falls d code = bind-Falls (measure d) (parse_vr_header d) _ (λ header e.
    found-Falls (measure d) header (ok (end_loop d)) _ (λ _. tt)
      (λ (n, vr_len, version) found.
        let (more, some_left) =
          parse_vr_header-left d n vr_len version (e ∙ ap (λ h. ok h) found) in
        proceed-Falls (measure d) (begin_vr d n vr_len)
          (omega (arith, ap next_rank code, ap rank code))))

begin_lrs-left :
    (d : Dlis) (n : ℕ) (h : LrsHeader)
    → (left (begin_lrs d n h) ≡ left d - n) × ((begin_lrs d n h).state.code ≡ d.state.code)
unfolding begin_lrs trailing_len
begin_lrs-left d n h = ground arith

pub round_lrs-Falls : (d : Dlis) → d.state.code ≡ expecting_lrs → Falls (measure d) (round_lrs d)
unfolding round_lrs
round_lrs-Falls d code = bind-Falls (measure d) (parse_lrs_header d) _ (λ (header, d') e.
    found-Falls (measure d) header (ok (end_loop d')) _ (λ _. tt)
      (λ (n, h) found.
        let (four, same_left, enough, same_code) =
          parse_lrs_header-left d d' n h (e ∙ ap (λ x. ok (x, d')) found) in
        let (fewer, still) = begin_lrs-left d' n h in
        proceed-Falls (measure d) (begin_lrs d' n h)
          (omega (arith, ap next_rank (still ∙ same_code ∙ code), ap rank code))))

pub round_encryption-Falls :
    (d : Dlis)
    → d.state.code ≡ expecting_encryption_packet
    → Falls (measure d) (take_len (parse_lrs_encryption_packet d) d)
round_encryption-Falls d code =
    take_len-Falls (measure d) (parse_lrs_encryption_packet d) d
      (omega (arith, ap next_rank code, ap rank code))

trailing_code :
    (d : Dlis)
    → (left (parse_lrs_trailing d).1 ≡ left d)
      × ((parse_lrs_trailing d).1.state.code ≡ d.state.code)
unfolding parse_lrs_trailing trailing_len
trailing_code d = ground arith

pub round_trailing-Falls :
    (d : Dlis) → d.state.code ≡ expecting_lrs_trailing → Falls (measure d) (round_trailing d)
unfolding round_trailing
round_trailing-Falls d code =
    let (same_left, same_code) = trailing_code d in
    take_len-Falls (measure d) (parse_lrs_trailing d).0 (parse_lrs_trailing d).1
      (omega (arith, ap next_rank (same_code ∙ code), ap rank code))
