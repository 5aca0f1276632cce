-- ===== src/Dlis/Skip/Border.antt =====
-- dlis.cc, lrs_skip_unparsed_buff and parse_lrs_header: a component on both sides of a border.
use dlis_parser.Base.{ℕ, ◌+◌, ◌-◌, ◌≤◌, ◌≡◌, sym, ap, ◌∙◌, List, ◌++◌, length, subst}
use dlis_parser.Codec.Memory.{bytes, length-bytes}
use dlis_parser.Codec.Value.{ok, Outcome}
use dlis_parser.Dlis.State.{Dlis, here, lrs_remain}
use dlis_parser.Dlis.Headers.{LrsHeader, restore_unparsed, lrs_header_len}
use dlis_parser.Dlis.Skip.Carry.{carried, Restored, restore_unparsed-Restored}
use dlis_parser.Base.Int.{pos}
use dlis_parser.Dlis.Skip.{lrs_skip_unparsed_buff, unparsed_size}
use dlis_parser.Dlis.Skip.Saved.{Skipped, Saves, lrs_skip_unparsed_buff-Skipped}

-- Nothing that happens in between touches the bytes that wait.
pub record StillWaits (d' e : Dlis) : Type 0 where
  pub bytes_kept : e.state.unparsed_buff ≡ d'.state.unparsed_buff
  pub len_kept : e.state.unparsed_buff_len ≡ d'.state.unparsed_buff_len

whole_again :
    (h : LrsHeader) (e : Dlis) (h' : LrsHeader) (e' : Dlis) (n k : ℕ) {xs : List ℕ}
    → Restored h e h' e' n
    → length (carried e) ≡ k
    → carried e ≡ xs
    → bytes e'.buffer (here e' lrs_header_len) (k + n)
      ≡ xs ++ bytes e.buffer (here e lrs_header_len) n
whole_again h e h' e' n k restored size same = rw (sym size, sym same) (restored.body)

ok-same : (a b : Dlis) → ◌≡◌ {A = Outcome Dlis} (ok a) (ok b) → a ≡ b
ok-same a b e = cc

-- In `d` a component is cut with `len` bytes of the segment left in front of a known trailer, and
-- `lrs_skip_unparsed_buff` saves bytes of it; `e` is a state in which these still wait, where the
-- header of the next segment has come with room in front of it. Then the bytes behind the header
-- are the last bytes of the old segment up to its trailer, one more than `len` if the first byte
-- of the component had been taken and `len` if not, followed by those of the new segment, and the
-- new segment has grown by them.
pub restore_unparsed-lrs_skip_unparsed_buff :
    (d d' e : Dlis) (h : LrsHeader) (trail len saved n : ℕ)
    → d.state.lrs_trail_len ≡ pos trail
    → lrs_remain d.state ≡ pos (trail + len)
    → Saves d.state.code len saved
    → saved ≤ d.byte_idx + len
    → saved ≤ unparsed_size
    → lrs_skip_unparsed_buff d ≡ ok d'
    → StillWaits d' e
    → saved ≤ e.byte_idx
    → (h' : LrsHeader) × (e' : Dlis) × (restore_unparsed h e ≡ ok (h', e'))
      × (h'.lrs_len ≡ h.lrs_len + saved)
      × (bytes e'.buffer (here e' lrs_header_len) (saved + n)
          ≡ bytes d.buffer (here d 0 + len - saved) saved
            ++ bytes e.buffer (here e lrs_header_len) n)
restore_unparsed-lrs_skip_unparsed_buff d d' e h trail len saved n known remains saves there fits
      skips waits room =
    let (d₁, skips', cut₁) =
      lrs_skip_unparsed_buff-Skipped d trail len saved known remains saves fits there in
    let cut : Skipped d len saved d' =
      subst (Skipped d len saved) (ok-same d₁ d' (sym skips' ∙ skips)) cut₁ in
    let same : carried e ≡ bytes d.buffer (here d 0 + len - saved) saved =
      rw (waits.bytes_kept, waits.len_kept) (cut.kept) in
    let size : length (carried e) ≡ saved =
      ap length same ∙ length-bytes d.buffer (here d 0 + len - saved) saved in
    let count : e.state.unparsed_buff_len ≡ saved = waits.len_kept ∙ cut.waiting in
    let (h', e', done, restored) =
      restore_unparsed-Restored h e n (size ∙ sym count) (rw count room) in
    (
      h',
      e',
      done,
      restored.lrs_len ∙ ap (λ k. h.lrs_len + k) size,
      whole_again h e h' e' n saved restored size same,
    )
