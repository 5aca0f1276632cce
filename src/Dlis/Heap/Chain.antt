-- ===== src/Dlis/Heap/Chain.antt =====
-- dlis.cc, on_eflr_component_attrib_value: the channels of a frame, as the list that the pointers
-- from the first to the current one make up.
use dlis_parser.Base.{
  ℕ, zero, suc, ◌+◌, ◌<◌, ◌≡◌, ◌≢◌, refl, sym, ◌∙◌, ap, arith, List, [], ◌∷◌, ◌++◌, All, set,
  length, get_elem?, get_elem?-set_self, get_elem?-set_ne, Option, none, some, Option-cases, inl,
  inr,
}
use dlis_parser.Codec.Value.{ok}
use dlis_parser.Dlis.State.{Dlis, Frame, Channel}
use dlis_parser.Dlis.Iflr.{deref}
use dlis_parser.Dlis.Heap.{update_frame, update_channel, link_channel}

-- The channels from i to `last`, each the `f_next` of the one before; the last one has none.
pub data Chain (heap : List Channel) : ℕ → ℕ → List ℕ → Type 0 where
  only :
      {i : ℕ} {c : Channel} → get_elem? heap i ≡ some c → c.f_next ≡ none → Chain heap i i (i ∷ [])
  and_then :
      {i k last : ℕ} {c : Channel} {js : List ℕ}
      → get_elem? heap i ≡ some c
      → c.f_next ≡ some k
      → Chain heap k last js
      → Chain heap i last (i ∷ js)

-- The channels of a frame, whose current one is the last.
pub data Channels (heap : List Channel) (f : Frame) : List ℕ → Type 0 where
  no_channels : f.channels ≡ none → Channels heap f []
  from_to :
      {i last : ℕ} {js : List ℕ}
      → f.channels ≡ some i
      → f.current_channel ≡ some last
      → Chain heap i last js
      → Channels heap f js

module _ {A : Type 0} where
  -- The object at i, if there is one, after a write.
  abbrev pub written : List A → ℕ → (A → A) → List A
  written xs i g = elim (get_elem? xs i) [ none ↦ xs | some a ↦ set xs i (g a) ]

  inside : (xs : List A) (i : ℕ) (a : A) → get_elem? xs i ≡ some a → i < length xs
  inside [] i a e = cc
  inside (x ∷ xs) zero a e = omega arith
  inside (x ∷ xs) (suc i) a e = omega (arith, inside xs i a e)

  pub written_self :
      (xs : List A) (i : ℕ) (g : A → A) (a : A)
      → get_elem? xs i ≡ some a
      → get_elem? (written xs i g) i ≡ some (g a)
  written_self xs i g a e = rw (e, written) (get_elem?-set_self xs i (g a) (inside xs i a e))

  pub written_other :
      (xs : List A) (i k : ℕ) (g : A → A) → i ≢ k → get_elem? (written xs i g) k ≡ get_elem? xs k
  written_other xs i k g other = elim (Option-cases (get_elem? xs i)) [
    | inl absent ↦ rw (absent, written) refl
    | inr (a, found) ↦ rw (found, written) (get_elem?-set_ne xs (g a) other)
  ]

last_of :
    {heap : List Channel} {i last : ℕ} {js : List ℕ}
    → Chain heap i last js
    → (c : Channel) × (get_elem? heap last ≡ some c) × (c.f_next ≡ none)
last_of (only {c = c} e none_next) = (c, e, none_next)
last_of (and_then e next rest) = last_of rest

last_in :
    {heap : List Channel} {i last : ℕ} {js : List ℕ} (j : ℕ)
    → Chain heap i last js
    → All (λ k. k ≢ j) js
    → last ≢ j
last_in j (only e none_next) (differs, rest) = differs
last_in j (and_then e next chain) (differs, rest) = last_in j chain rest

-- Of two objects with different pointers the places differ.
apart :
    (heap : List Channel) (i k m : ℕ) (c e : Channel)
    → get_elem? heap i ≡ some c
    → c.f_next ≡ some m
    → get_elem? heap k ≡ some e
    → e.f_next ≡ none
    → i ≢ k
apart heap i k m c e hc next he last same =
    let one : ◌≡◌ {A = Option Channel} (some c) (some e) = sym hc ∙ ap (get_elem? heap) same ∙ he in
    let both : c.f_next ≡ e.f_next = ap (λ o. elim o [ none ↦ none | some x ↦ x.f_next ]) one in
    let bad : ◌≡◌ {A = Option ℕ} (some m) none = sym next ∙ both ∙ last in absurd (cc (bad))

-- A new last channel j behind the former one at `at`.
module _ (heap : List Channel) (j at : ℕ) (g h : Channel → Channel) (c a : Channel)
    (new : get_elem? heap j ≡ some c) (new_last : (g c).f_next ≡ none)
    (old : get_elem? heap at ≡ some a) (old_last : a.f_next ≡ none) (at_new : at ≢ j)
    (next : (h a).f_next ≡ some j) where
  abbrev linked : List Channel
  linked = written (written heap j g) at h

  linked-new : get_elem? linked j ≡ some (g c)
  linked-new = written_other (written heap j g) at j h at_new ∙ written_self heap j g c new

  linked-old : get_elem? linked at ≡ some (h a)
  linked-old =
      written_self (written heap j g) at h a (written_other heap j at g (λ e. at_new (sym e)) ∙ old)

  linked-Chain :
      {i : ℕ} {js : List ℕ}
      → Chain heap i at js
      → All (λ k. k ≢ j) js
      → Chain linked i j (js ++ (j ∷ []))
  linked-Chain (only e none_next) differ = and_then linked-old next (only linked-new new_last)
  linked-Chain (and_then {i} {k} {c = b} e to rest) (differs, others) =
      and_then
        (written_other (written heap j g) at i h
            (λ same. apart heap i at k b a e to old old_last (sym same))
          ∙ written_other heap j i g (λ same. differs (sym same))
          ∙ e)
        to (linked-Chain rest others)

pub update_frame_written :
    (d : Dlis) (i : ℕ) (g : Frame → Frame)
    → update_frame d i g ≡ record d { frame_heap = written d.frame_heap i g }
update_frame_written d i g = elim (Option-cases (get_elem? d.frame_heap i)) [
  | inl absent ↦ rw (absent, written, update_frame) refl
  | inr (f, found) ↦ rw (found, written, update_frame) refl
]

pub update_channel_written :
    (d : Dlis) (i : ℕ) (g : Channel → Channel)
    → update_channel d i g ≡ record d { channel_heap = written d.channel_heap i g }
update_channel_written d i g = elim (Option-cases (get_elem? d.channel_heap i)) [
  | inl absent ↦ rw (absent, written, update_channel) refl
  | inr (c, found) ↦ rw (found, written, update_channel) refl
]

pub deref-some :
    {A : Type 0} (heap : List A) (p : Option ℕ) (i : ℕ) (a : A)
    → p ≡ some i
    → get_elem? heap i ≡ some a
    → deref heap p ≡ ok (i, a)
unfolding deref
deref-some heap p i a e found = rw (e, deref, found) refl

-- If the pointers from the first channel of a frame make up a list that ends at its current
-- channel, and a channel that is there, not in the list and without a next one in a frame is
-- linked to it, the list afterwards is the former one with that channel at its end, and it is the
-- current one.
pub link_channel-Channels :
    (d : Dlis) (i : ℕ) (f : Frame) (j : ℕ) (c : Channel) (js : List ℕ)
    → get_elem? d.frame_heap i ≡ some f
    → Channels d.channel_heap f js
    → get_elem? d.channel_heap j ≡ some c
    → c.f_next ≡ none
    → All (λ k. k ≢ j) js
    → (d' : Dlis) × (f' : Frame) × (link_channel d i f j ≡ ok d')
      × (get_elem? d'.frame_heap i ≡ some f')
      × Channels d'.channel_heap f' (js ++ (j ∷ []))
unfolding link_channel
link_channel-Channels d i f j c js found (no_channels empty) new new_last differ =
    let g : Frame → Frame = λ f. record f { channels = some j; current_channel = some j } in
    let one : Channel → Channel = λ c. record c { index = 1 } in
    let d₁ : Dlis = record d { frame_heap = written d.frame_heap i g } in
    let d₂ : Dlis = record d₁ { channel_heap = written d.channel_heap j one } in
    (
      d₂,
      g f,
      rw (empty, link_channel, update_frame_written d i g, update_channel_written d₁ j one) refl,
      written_self d.frame_heap i g f found,
      from_to refl refl (only (written_self d.channel_heap j one c new) new_last),
    )
link_channel-Channels d i f j c js found (from_to {last = at} first current chain) new new_last
      differ =
    let (a, old, old_last) = last_of chain in
    let g : Frame → Frame = λ f. record f { current_channel = some j } in
    let next_index : Channel → Channel = λ c. record c { index = a.index + 1 } in
    let to_new : Channel → Channel = λ c. record c { f_next = some j } in
    let heap' : List Channel = written (written d.channel_heap j next_index) at to_new in
    let d₁ : Dlis = record d { channel_heap = written d.channel_heap j next_index } in
    let d₂ : Dlis = record d { channel_heap = heap' } in
    let d' : Dlis = record d { channel_heap = heap'; frame_heap = written d.frame_heap i g } in
    (
      d',
      g f,
      rw
          (
            first,
            link_channel,
            deref-some d.channel_heap f.current_channel at a current old,
            update_channel_written d j next_index,
            update_channel_written d₁ at to_new,
            update_frame_written d₂ i g,
          )
          refl,
      written_self d.frame_heap i g f found,
      from_to first refl (
          linked-Chain d.channel_heap j at next_index to_new c a new new_last old old_last
            (last_in j chain differ) refl chain differ),
    )
