-- ===== src/Dlis/Parse.antt =====
-- dlis.cc, parse: the loop over the states.
pub mod Loop
pub mod Fuel
use dlis_parser.Base.{ℕ, zero, suc, ◌-◌, Bool, true, false, ◌==◌, if◌then◌else◌}
use dlis_parser.Base.Int.{pos, ltb_ℤ}
use dlis_parser.Codec.Value.{Outcome, ok, ◌>>=◌}
use dlis_parser.Dlis.State.{ParseCode, Dlis}
use dlis_parser.Dlis.Trailing.{trailing_len}
use dlis_parser.Dlis.Headers.{parse_lrs_encryption_packet}
use dlis_parser.Dlis.Rounds.{
  Round, again, end_loop, round_sul, round_vr, round_lrs, take_len, round_trailing,
}
use dlis_parser.Dlis.Rounds.Components.{
  round_comp, round_set, round_attrib, round_value, round_object,
}
use dlis_parser.Dlis.Rounds.Data.{round_header, round_data}

unfoldable pub round_from : ParseCode → Dlis → Outcome Round
unfolding take_len
round_from ParseCode.expecting_sul d = round_sul d
round_from ParseCode.expecting_vr d = round_vr d
round_from ParseCode.expecting_lrs d = round_lrs d
round_from ParseCode.expecting_encryption_packet d = take_len (parse_lrs_encryption_packet d) d
round_from ParseCode.expecting_eflr_comp d = round_comp d
round_from ParseCode.expecting_eflr_comp_set d = round_set d
round_from ParseCode.expecting_eflr_comp_rset d = round_set d
round_from ParseCode.expecting_eflr_comp_rdset d = round_set d
round_from ParseCode.expecting_eflr_comp_absatr d = round_attrib d
round_from ParseCode.expecting_eflr_comp_attrib d = round_attrib d
round_from ParseCode.expecting_eflr_comp_invatr d = round_attrib d
round_from ParseCode.expecting_eflr_comp_attrib_value d = round_value d
round_from ParseCode.expecting_eflr_comp_object d = round_object d
round_from ParseCode.expecting_lrs_trailing d = round_trailing d
round_from ParseCode.expecting_iflr_header d = round_header d
round_from ParseCode.expecting_iflr_data d = round_data d

-- The body of `while (1)`: the segment's trailer must be known.
unfoldable pub parse_round : Dlis → Outcome Round
unfolding round_from
parse_round d =
    let (trail, d') = trailing_len d in
    if ltb_ℤ trail (pos 0) then ok (end_loop d') else round_from d'.state.code d'

-- The loop with fuel: whether it has ended by itself, and the state.
unfoldable pub parse_loop : ℕ → Dlis → Outcome (Bool × Dlis)
unfolding parse_round
parse_loop zero d = ok (false, d)
parse_loop (suc fuel) d =
    parse_round d >>= elim [ again d' ↦ parse_loop fuel d' | end_loop d' ↦ ok (true, d') ]

unfoldable pub parse : ℕ → Dlis → Outcome (Bool × Dlis)
unfolding parse_loop
parse fuel d = if d.byte_idx == d.max_byte_idx then ok (true, d) else parse_loop fuel d
