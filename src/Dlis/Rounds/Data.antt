-- ===== src/Dlis/Rounds/Data.antt =====
-- dlis.cc, parse: the rounds over the header and the data of a frame.
use dlis_parser.Base.{ℕ, Option, none, some, ◌==◌, if◌then◌else◌}
use dlis_parser.Base.Int.{leb_ℤ}
use dlis_parser.Codec.Number.{of_uint}
use dlis_parser.Codec.Value.{Outcome, ok, ◌>>=◌}
use dlis_parser.Dlis.State.{Dlis, avail, lrs_remain, with_state}
use dlis_parser.Dlis.Skip.{lrs_skip_unparsed_buff}
use dlis_parser.Dlis.Iflr.{parse_iflr_header, parse_iflr_data, deref, eod}
use dlis_parser.Dlis.Heap.{update_frame}
use dlis_parser.Dlis.Events.{on_iflr_header, on_iflr_data}
use dlis_parser.Dlis.Rounds.{Round, end_loop, proceed, advance, cut}

-- At the end of data no index is read: the C variable is stale, and the model leaves the index alone.
unfoldable pub set_index : Option ℕ → Dlis → Dlis
set_index none d = d
set_index (some i) d = with_state d (record (d.state) { parsing_frame_index = of_uint i })

unfoldable pub round_header : Dlis → Outcome Round
unfolding advance cut set_index
round_header d =
    let (found, d') = parse_iflr_header d in
    elim found [
      | none ↦ cut d'
      | some (n, name, index) ↦
          on_iflr_header d' name >>= λ d₂. proceed (advance n (set_index index d₂))
    ]

-- The channel behind the current one is next.
unfoldable pub next_channel : Dlis → Outcome Dlis
unfolding deref
next_channel d = deref d.frame_heap d.current_frame >>= λ (i, f). elim (f.current_channel) [
  | none ↦ ok d
  | some j ↦ deref d.channel_heap (some j) >>= λ (k, c).
      ok (update_frame d i (λ f. record f { current_channel = c.f_next }))
]

-- Here the trailer counts as part of what is left of the segment.
unfoldable pub round_data : Dlis → Outcome Round
unfolding advance next_channel
round_data d = parse_iflr_data d >>= λ (n, d₀).
    let d₁ = advance n d₀ in
    if d₁.state.lrs_type == eod
    then proceed d₁
    else if leb_ℤ d₁.state.parsing_dimension d₁.state.parsing_value_cnt
    then (on_iflr_data d₁ >>= λ d₂. next_channel d₂ >>= proceed)
    else (if leb_ℤ (avail d₁) (lrs_remain d₁.state)
        then ok (end_loop d₁)
        else (lrs_skip_unparsed_buff d₁ >>= proceed))
