-- ===== src/Dlis/Rounds.antt =====
-- dlis.cc, parse: what a round of the loop does, and the rounds over labels, headers and trailers.
pub mod Components
pub mod Data
pub mod Between
pub mod Lines
pub mod FrameData
pub mod Places
pub mod Waits
pub mod FirstByte
pub mod Attributes
pub mod Objects
pub mod TemplatePass
use dlis_parser.Base.{ℕ, suc, ◌+◌, ◌-◌, none, some, if◌then◌else◌}
use dlis_parser.Base.Int.{ℤ, pos, negsuc, ◌-ℤ◌, leb_ℤ}
use dlis_parser.Codec.Value.{Outcome, ok, ◌>>=◌}
use dlis_parser.Dlis.State.{Dlis, avail, lrs_remain, with_state}
use dlis_parser.Dlis.Flags.{lrs_attr_is_first_lrs}
use dlis_parser.Dlis.Trailing.{trailing_len}
use dlis_parser.Dlis.Headers.{
  LrsHeader, parse_sul, parse_vr_header, parse_lrs_header, parse_lrs_trailing,
}
use dlis_parser.Dlis.Skip.{lrs_skip_unparsed_buff}
use dlis_parser.Dlis.NextState.{next_state}

-- One round of the loop goes on, or leaves it by `goto end_loop`.
pub data Round : Type 0 where
  again : Dlis → Round
  end_loop : Dlis → Round

-- next_state(dlis); break;
unfoldable pub proceed : Dlis → Outcome Round
proceed d = next_state d >>= λ d'. ok (again d')

-- The bytes are taken from the buffer, the segment and the visible record.
unfoldable pub advance : ℕ → Dlis → Dlis
advance n d = record d {
  byte_idx = d.byte_idx + n;
  state = record (d.state) {
    lrs_byte_cnt = d.state.lrs_byte_cnt + n;
    vr_byte_cnt = d.state.vr_byte_cnt + n;
  };
}

-- A component is cut: by the end of the buffer, and more is awaited, or by the end of the segment.
unfoldable pub cut : Dlis → Outcome Round
unfolding ◌-ℤ◌
cut d =
    let (trail, d') = trailing_len d in
    if leb_ℤ (avail d') (lrs_remain d'.state -ℤ trail)
    then ok (end_loop d')
    else (lrs_skip_unparsed_buff d' >>= proceed)

unfoldable pub round_sul : Dlis → Outcome Round
round_sul d = parse_sul d >>= λ (len, d'). elim len [
  | none ↦ ok (end_loop d')
  | some n ↦ proceed (record d' { byte_idx = d'.byte_idx + n })
]

unfoldable pub begin_vr : Dlis → ℕ → ℕ → Dlis
begin_vr d n vr_len = record d {
  vr_idx = suc d.vr_idx;
  lrs_idx = 0;
  byte_idx = d.byte_idx + n;
  state = record (d.state) { vr_len = vr_len; vr_byte_cnt = n; lrs_len = 0; lrs_byte_cnt = 0 };
}

unfoldable pub round_vr : Dlis → Outcome Round
unfolding begin_vr
round_vr d = parse_vr_header d >>= λ header. elim header [
  | none ↦ ok (end_loop d)
  | some (n, vr_len, version) ↦ proceed (begin_vr d n vr_len)
]

-- The segment's counters start, and the length of its trailer is looked for.
unfoldable pub begin_lrs : Dlis → ℕ → LrsHeader → Dlis
begin_lrs d n h =
    let fresh = record d {
      lr_idx = if lrs_attr_is_first_lrs d.state then suc d.lr_idx else d.lr_idx;
      lrs_idx = suc d.lrs_idx;
      byte_idx = d.byte_idx + n;
      state = record (d.state) {
        lrs_len = h.lrs_len;
        lrs_byte_cnt = n;
        vr_byte_cnt = d.state.vr_byte_cnt + n;
        lrs_attr = h.lrs_attr;
        lrs_type = h.lrs_type;
        lrs_trail_len = negsuc 0;
      };
    } in
    let (trail, d') = trailing_len fresh in
    with_state d' (record (d'.state) { lrs_trail_len = trail })

unfoldable pub round_lrs : Dlis → Outcome Round
unfolding begin_lrs
round_lrs d = parse_lrs_header d >>= λ (header, d'). elim header [
  | none ↦ ok (end_loop d')
  | some (n, h) ↦ proceed (begin_lrs d' n h)
]

-- A length that is -1 or less ends the loop, and another is taken.
unfoldable pub take_len : ℤ → Dlis → Outcome Round
unfolding advance
take_len (negsuc n) d = ok (end_loop d)
take_len (pos n) d = proceed (advance n d)

unfoldable pub round_trailing : Dlis → Outcome Round
unfolding take_len
round_trailing d = let (len, d') = parse_lrs_trailing d in take_len len d'
