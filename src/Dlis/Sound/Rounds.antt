-- ===== src/Dlis/Sound/Rounds.antt =====
-- dlis.cc, parse: every round keeps a sound state.
use dlis_parser.Base.{ℕ, ◌+◌, ◌≡◌, arith, Option, none, some, ◌==◌}
use dlis_parser.Base.Int.{pos, ltb_ℤ, leb_ℤ}
use dlis_parser.Codec.Value.{ok}
use dlis_parser.Dlis.State.{ParseCode, Dlis, lrs_remain, avail}
use dlis_parser.Dlis.Trailing.{trailing_len}
use dlis_parser.Dlis.Headers.{
  LrsHeader, parse_sul, parse_vr_header, parse_lrs_header, parse_lrs_encryption_packet,
  parse_lrs_trailing,
}
use dlis_parser.Dlis.Iflr.{eod, parse_iflr_header, parse_iflr_data}
use dlis_parser.Dlis.Events.{on_iflr_header, on_iflr_data}
use dlis_parser.Dlis.Rounds.{
  end_loop, proceed, advance, cut, round_sul, begin_vr, round_vr, begin_lrs, round_lrs,
  round_trailing,
}
use dlis_parser.Dlis.Rounds.Data.{set_index, round_header, next_channel, round_data}
use dlis_parser.Dlis.Parse.{round_from, parse_round}
use dlis_parser.Dlis.Measure.Callbacks.{on_iflr_header-Keeps, on_iflr_data-Keeps}
use dlis_parser.Dlis.Measure.Data.{next_channel-Keeps}
use dlis_parser.Dlis.Sound.{IsSound}
use dlis_parser.Dlis.Sound.Each.{Each, bind-Each, then-Each, if-Each, found-Each}
use dlis_parser.Dlis.Sound.Callbacks.{on_iflr_header-IsLinked, on_iflr_data-IsLinked}
use dlis_parser.Dlis.Sound.Values.{next_channel-IsLinked}
use dlis_parser.Dlis.Sound.Input.{
  kept, kept-IsSound, Keeps-IsSound, trailing_kept, parse_lrs_header-IsSound, parse_sul-IsSound,
}
use dlis_parser.Dlis.Sound.Components.{parse_iflr_data-IsSound}
use dlis_parser.Dlis.Sound.Steps.{
  SoundRound, proceed-Sound, advance-IsSound, take_len-Sound, skip-Sound, cut-Sound,
}
use dlis_parser.Dlis.Sound.Eflr.{
  round_comp-Sound, round_set-Sound, round_attrib-Sound, round_value-Sound, round_object-Sound,
}

round_sul-Sound : (d : Dlis) → IsSound d → Each SoundRound (round_sul d)
unfolding round_sul
round_sul-Sound d s =
    then-Each (λ r. IsSound r.1) SoundRound (parse_sul d) _ (parse_sul-IsSound d s)
      (λ (len, d') s'. found-Each SoundRound len (ok (end_loop d')) _ s' (λ n _.
        proceed-Sound (record d' { byte_idx = d'.byte_idx + n })
          (record { linked = s'.linked; carried = s'.carried })))

round_vr-Sound : (d : Dlis) → IsSound d → Each SoundRound (round_vr d)
unfolding round_vr begin_vr
round_vr-Sound d s = bind-Each SoundRound (parse_vr_header d) _ (λ header _.
    found-Each SoundRound header (ok (end_loop d)) _ s (λ (n, vr_len, version) _.
      proceed-Sound (begin_vr d n vr_len) (record { linked = s.linked; carried = s.carried })))

begin_lrs_kept : (d : Dlis) (n : ℕ) (h : LrsHeader) → kept (begin_lrs d n h) ≡ kept d
unfolding begin_lrs trailing_len
begin_lrs_kept d n h = ground arith

round_lrs-Sound : (d : Dlis) → IsSound d → Each SoundRound (round_lrs d)
unfolding round_lrs
round_lrs-Sound d s =
    then-Each (λ r. IsSound r.1) SoundRound (parse_lrs_header d) _ (parse_lrs_header-IsSound d s)
      (λ (header, d') s'. found-Each SoundRound header (ok (end_loop d')) _ s' (λ (n, h) _.
        proceed-Sound (begin_lrs d' n h)
          (kept-IsSound d' (begin_lrs d' n h) (begin_lrs_kept d' n h) s')))

trailing_round_kept : (d : Dlis) → kept (parse_lrs_trailing d).1 ≡ kept d
unfolding parse_lrs_trailing
trailing_round_kept d = trailing_kept d

round_trailing-Sound : (d : Dlis) → IsSound d → Each SoundRound (round_trailing d)
unfolding round_trailing
round_trailing-Sound d s =
    take_len-Sound (parse_lrs_trailing d).0 (parse_lrs_trailing d).1
      (kept-IsSound d (parse_lrs_trailing d).1 (trailing_round_kept d) s)

header_kept : (d : Dlis) → kept (parse_iflr_header d).1 ≡ kept d
unfolding parse_iflr_header
header_kept d = trailing_kept d

set_index-IsSound : (index : Option ℕ) (d : Dlis) → IsSound d → IsSound (set_index index d)
unfolding set_index
set_index-IsSound none d s = s
set_index-IsSound (some i) d s = record { linked = s.linked; carried = s.carried }

round_header-Sound : (d : Dlis) → IsSound d → Each SoundRound (round_header d)
unfolding round_header
round_header-Sound d s =
    let d' : Dlis = (parse_iflr_header d).1 in
    let s' : IsSound d' = kept-IsSound d d' (header_kept d) s in
    found-Each SoundRound (parse_iflr_header d).0 (cut d') _ (cut-Sound d' s')
      (λ (n, name, index) _.
        then-Each IsSound SoundRound (on_iflr_header d' name) _
          (Keeps-IsSound d' _ (on_iflr_header-Keeps d' name)
            (on_iflr_header-IsLinked d' name s'.linked) s')
          (λ d₂ s₂.
            proceed-Sound (advance n (set_index index d₂))
              (advance-IsSound n (set_index index d₂) (set_index-IsSound index d₂ s₂))))

round_data-Sound : (d : Dlis) → IsSound d → Each SoundRound (round_data d)
unfolding round_data
round_data-Sound d s =
    then-Each (λ r. IsSound r.1) SoundRound (parse_iflr_data d) _ (parse_iflr_data-IsSound d s)
      (λ (n, d₀) s₀.
        let d₁ : Dlis = advance n d₀ in
        let s₁ : IsSound d₁ = advance-IsSound n d₀ s₀ in
        if-Each SoundRound (d₁.state.lrs_type == eod) (proceed d₁) _ (proceed-Sound d₁ s₁) (
          if-Each SoundRound (leb_ℤ d₁.state.parsing_dimension d₁.state.parsing_value_cnt) _ _
            (then-Each IsSound SoundRound (on_iflr_data d₁) _
              (Keeps-IsSound d₁ _ (on_iflr_data-Keeps d₁) (on_iflr_data-IsLinked d₁ s₁.linked) s₁)
              (λ d₂ s₂.
                then-Each IsSound SoundRound (next_channel d₂) proceed
                  (Keeps-IsSound d₂ _ (next_channel-Keeps d₂) (next_channel-IsLinked d₂ s₂.linked)
                    s₂)
                  proceed-Sound))
            (if-Each SoundRound (leb_ℤ (avail d₁) (lrs_remain d₁.state)) (ok (end_loop d₁)) _ s₁
              (skip-Sound d₁ s₁))))

round_from-Sound : (c : ParseCode) (d : Dlis) → IsSound d → Each SoundRound (round_from c d)
unfolding round_from
round_from-Sound ParseCode.expecting_sul d s = round_sul-Sound d s
round_from-Sound ParseCode.expecting_vr d s = round_vr-Sound d s
round_from-Sound ParseCode.expecting_lrs d s = round_lrs-Sound d s
round_from-Sound ParseCode.expecting_encryption_packet d s =
    take_len-Sound (parse_lrs_encryption_packet d) d s
round_from-Sound ParseCode.expecting_eflr_comp d s = round_comp-Sound d s
round_from-Sound ParseCode.expecting_eflr_comp_set d s = round_set-Sound d s
round_from-Sound ParseCode.expecting_eflr_comp_rset d s = round_set-Sound d s
round_from-Sound ParseCode.expecting_eflr_comp_rdset d s = round_set-Sound d s
round_from-Sound ParseCode.expecting_eflr_comp_absatr d s = round_attrib-Sound d s
round_from-Sound ParseCode.expecting_eflr_comp_attrib d s = round_attrib-Sound d s
round_from-Sound ParseCode.expecting_eflr_comp_invatr d s = round_attrib-Sound d s
round_from-Sound ParseCode.expecting_eflr_comp_attrib_value d s = round_value-Sound d s
round_from-Sound ParseCode.expecting_eflr_comp_object d s = round_object-Sound d s
round_from-Sound ParseCode.expecting_lrs_trailing d s = round_trailing-Sound d s
round_from-Sound ParseCode.expecting_iflr_header d s = round_header-Sound d s
round_from-Sound ParseCode.expecting_iflr_data d s = round_data-Sound d s

-- A round from a sound state ends in a sound state, whether or not the loop goes on.
pub parse_round-Sound : (d : Dlis) → IsSound d → Each SoundRound (parse_round d)
unfolding parse_round
parse_round-Sound d s =
    let d' : Dlis = (trailing_len d).1 in
    let s' : IsSound d' = kept-IsSound d d' (trailing_kept d) s in
    if-Each SoundRound (ltb_ℤ (trailing_len d).0 (pos 0)) (ok (end_loop d')) _ s'
      (round_from-Sound d'.state.code d' s')
