-- ===== src/Dlis/Heap/Cycle.antt =====
-- dlis.cc, on_eflr_component_object: the list of all channels after a CHANNEL object whose channel is
-- in that list already.
use dlis_parser.Base.{
  ℕ, zero, suc, ◌≡◌, refl, ap, subst, ◌∙◌, arith, Bool-cases, inl, inr, ◌==◌, ==_iff, Bool, false,
  Option, none, some, List, get_elem?, length,
}
use dlis_parser.Codec.Value.{ok, hang, NameVal}
use dlis_parser.Dlis.State.{Dlis, Channel, FileKey}
use dlis_parser.Dlis.Strings.{channel_obname_cmp}
use dlis_parser.Dlis.Heap.{
  find_channel, find_in_frames, new_channel, append_channel, open_file, update_channel, file_key,
}
use dlis_parser.Dlis.Heap.Chain.{written, written_self, written_other, update_channel_written}

-- The pointers `next` lead from the channel i to the channel k.
pub data Leads (heap : List Channel) (k : ℕ) : ℕ → Type 0 where
  stop : Leads heap k k
  via :
      {i j : ℕ} {c : Channel}
      → get_elem? heap i ≡ some c
      → c.next ≡ some j
      → Leads heap k j
      → Leads heap k i

-- The search goes on from this channel to the channel j.
abbrev StepsTo : List Channel → (Channel → Bool) → ℕ → ℕ → Type 0
StepsTo heap test i j =
    (c : Channel) × (get_elem? heap i ≡ some c) × (test c ≡ false) × (c.next ≡ some j)

-- The search does not end among channels that it does not leave.
never_ends :
    (heap : List Channel) (test : Channel → Bool) (In : ℕ → Type 0)
    → ((i : ℕ) → In i → (j : ℕ) × StepsTo heap test i j × In j)
    → (fuel i : ℕ) → In i
    → find_channel (λ c. c.next) test fuel heap (some i) ≡ hang
unfolding find_channel
never_ends heap test In closed zero i inside = refl
never_ends heap test In closed (suc fuel) i inside =
    let (j, (c, found, fails, next), inside') = closed i inside in
    rw (found, find_channel, fails, next) (never_ends heap test In closed fuel j inside')

-- The channel j, open, behind the channel `last`.
module _ (heap : List Channel) (j last : ℕ) (key : FileKey) where
  abbrev joined : List Channel
  joined = written heap last (λ c. record c { next = some j })

  abbrev reopened : List Channel
  reopened = written joined j (λ c. record c { fp = some key })

  -- The channel i has a pointer to the channel k.
  abbrev Next : List Channel → ℕ → ℕ → Type 0
  Next heap i k = (c : Channel) × (get_elem? heap i ≡ some c) × (c.next ≡ some k)

  reopened_self : (k : ℕ) → Next joined j k → Next reopened j k
  reopened_self k (c, found, next) = (
    record c { fp = some key },
    written_self joined j (λ c. record c { fp = some key }) c found,
    next,
  )

  reopened-Next : (i k : ℕ) → Next joined i k → Next reopened i k
  reopened-Next i k (c, found, next) = elim (Bool-cases (j == i)) [
    | inl here ↦
        subst (λ n. Next joined n k → Next reopened n k) ((==_iff j i).0 here) (reopened_self k)
          (c, found, next)
    | inr there ↦ (
      c,
      written_other joined j i (λ c. record c { fp = some key }) (λ same. absurd (ground arith))
          ∙ found,
      next,
    )
  ]

  joined-Next : (c : Channel) → get_elem? heap last ≡ some c → Next joined last j
  joined-Next c there = (
    record c { next = some j },
    written_self heap last (λ c. record c { next = some j }) c there,
    refl,
  )

  -- From every channel of which the pointers lead to the last one, they go round.
  closed :
      (i : ℕ) (c : Channel)
      → get_elem? heap last ≡ some c
      → Leads heap last j
      → Leads heap last i
      → (k : ℕ) × Next reopened i k × Leads heap last k
  closed i c there from_j stop = (j, reopened-Next last j (joined-Next c there), from_j)
  closed i c there from_j (via {j = k} {c = b} found next rest) = elim (Bool-cases (last == i)) [
    | inl here ↦ (
      j,
      subst (λ n. Next reopened n j) ((==_iff last i).0 here)
          (reopened-Next last j (joined-Next c there)),
      from_j,
    )
    | inr there' ↦ (
      k,
      reopened-Next i k (
        b,
        written_other heap last i (λ c. record c { next = some j }) (λ same. absurd (ground arith))
            ∙ found,
        next,
      ),
      rest,
    )
  ]

append_channel-some :
    (d : Dlis) (i j : ℕ)
    → d.current_channel ≡ some i
    → append_channel d j ≡ record d {
      channel_heap = written d.channel_heap i (λ c. record c { next = some j });
      current_channel = some j;
    }
unfolding append_channel
append_channel-some d i j e =
    ap
      (λ (o : Option ℕ). elim o [
        | none ↦ record d { channels = some j; current_channel = some j }
        | some i ↦ record (update_channel d i (λ c. record c { next = some j })) {
          current_channel = some j;
        }
      ])
      e
    ∙ ap (λ (x : Dlis). record x { current_channel = some j })
        (update_channel_written d i (λ c. record c { next = some j }))

-- If the list of all channels leads from a channel j to its last one, and a CHANNEL object comes
-- whose name a frame has given to the channel j, the object is accepted, and from then on a
-- search along the list from j that does not find what it looks for never returns: it meets
-- neither NULL nor a dangling pointer in any number of steps.
pub new_channel-cycle :
    (d : Dlis) (obn : NameVal) (j last : ℕ) (c : Channel)
    → find_in_frames
        (λ c. channel_obname_cmp d.state.seq_num c obn)
        (suc (length d.frame_heap))
        d.frame_heap
        d.channel_heap
        (some 0)
      ≡ ok (some j)
    → d.current_channel ≡ some last
    → get_elem? d.channel_heap last ≡ some c
    → Leads d.channel_heap last j
    → (d' : Dlis) × (new_channel d obn ≡ ok d')
      × ((test : Channel → Bool)
          → ((i : ℕ) (c : Channel) → get_elem? d'.channel_heap i ≡ some c → test c ≡ false)
          → (fuel : ℕ) → find_channel (λ c. c.next) test fuel d'.channel_heap (some j) ≡ hang)
unfolding new_channel open_file
new_channel-cycle d obn j last c named at_last there from_j =
    let key : FileKey = file_key d.state.seq_num obn in
    let heap : List Channel = reopened d.channel_heap j last key in
    (
      record d { channel_heap = heap; current_channel = some j },
      rw named (
          ap (λ x. ok (open_file obn x)) (append_channel-some d last j at_last)
          ∙ ap ok (
              update_channel_written
                (record d {
                  channel_heap = written d.channel_heap last (λ c. record c { next = some j });
                  current_channel = some j;
                })
                j (λ c. record c { fp = some key }))),
      λ test fails fuel.
          never_ends heap test (Leads d.channel_heap last)
            (λ i inside.
              let (k, (c', found, next), inside') =
                closed d.channel_heap j last key i c there from_j inside in
              (k, (c', found, fails i c' found, next), inside'))
            fuel j from_j,
    )
