-- ===== src/Dlis/Heap/Pass.antt =====
-- dlis.cc, parse: the data of a frame go through its channels one by one.
use dlis_parser.Base.{
  ℕ, zero, suc, ◌≡◌, refl, List, [], ◌∷◌, ◌++◌, length, get_elem?, Option, none, some,
}
use dlis_parser.Codec.Value.{Outcome, ok, ◌>>=◌}
use dlis_parser.Dlis.State.{Dlis, Frame, Channel}
use dlis_parser.Dlis.Heap.Chain.{
  written, written_self, update_frame_written, deref-some, Chain, only, and_then,
}
use dlis_parser.Dlis.Rounds.Data.{next_channel}

-- The channels from a pointer to the end of the list.
pub data Remaining (heap : List Channel) : Option ℕ → List ℕ → Type 0 where
  no_more : Remaining heap none []
  ahead :
      {j : ℕ} {c : Channel} {js : List ℕ}
      → get_elem? heap j ≡ some c
      → Remaining heap c.f_next js
      → Remaining heap (some j) (j ∷ js)

pub Chain-Remaining :
    {heap : List Channel} {i last : ℕ} {js : List ℕ}
    → Chain heap i last js
    → Remaining heap (some i) js
Chain-Remaining {heap} (only {c = c} found no_next) = ahead found (rw no_next no_more)
Chain-Remaining {heap} (and_then {c = c} found next rest) =
    ahead found (rw next (Chain-Remaining rest))

-- The values of n channels are written, one channel after the other.
unfoldable pub passes : ℕ → Dlis → Outcome Dlis
passes zero d = ok d
passes (suc n) d = next_channel d >>= passes n

pub next_channel-step :
    (d : Dlis) (i j : ℕ) (f : Frame) (c : Channel)
    → d.current_frame ≡ some i
    → get_elem? d.frame_heap i ≡ some f
    → f.current_channel ≡ some j
    → get_elem? d.channel_heap j ≡ some c
    → next_channel d
      ≡ ok (record d {
        frame_heap = written d.frame_heap i (λ f. record f { current_channel = c.f_next });
      })
unfolding next_channel
next_channel-step d i j f c frame found channel there =
    rw
      (
        deref-some d.frame_heap d.current_frame i f frame found,
        channel,
        deref-some d.channel_heap (some j) j c refl there,
        update_frame_written d i (λ f. record f { current_channel = c.f_next }),
      )
      refl

front :
    {heap : List Channel} {p : Option ℕ} {j : ℕ} {js : List ℕ}
    → Remaining heap p (j ∷ js)
    → (c : Channel) × (p ≡ some j) × (get_elem? heap j ≡ some c) × Remaining heap c.f_next js
front (ahead {c = c} there rest) = (c, refl, there, rest)

-- If the current channel of the current frame and those behind it make up the list of `js` and
-- then `ks`, then after as many steps to the next channel as `js` has, every step has been taken,
-- and the channels from the current one on are those of `ks`; none, if `ks` is empty.
pub passes-Remaining :
    (d : Dlis) (i : ℕ) (f : Frame) (js ks : List ℕ)
    → d.current_frame ≡ some i
    → get_elem? d.frame_heap i ≡ some f
    → Remaining d.channel_heap f.current_channel (js ++ ks)
    → (d' : Dlis) × (f' : Frame) × (passes (length js) d ≡ ok d')
      × (get_elem? d'.frame_heap i ≡ some f')
      × Remaining d'.channel_heap f'.current_channel ks
unfolding passes
passes-Remaining d i f [] ks frame found channels = (d, f, refl, found, channels)
passes-Remaining d i f (j ∷ js) ks frame found channels =
    let (c, current, there, rest) = front channels in
    let g : Frame → Frame = λ f. record f { current_channel = c.f_next } in
    let d₁ : Dlis = record d { frame_heap = written d.frame_heap i g } in
    let (d', f', run, found', rest') =
      passes-Remaining d₁ i (g f) js ks frame (written_self d.frame_heap i g f found) rest in
    (d', f', rw (next_channel-step d i j f c frame found current there) run, found', rest')
