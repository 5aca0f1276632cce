-- ===== src/Dlis/Template/Queue.antt =====
-- dlis.cc: the template of a set as a queue of a hundred places.
use dlis_parser.Base.{
  true, if◌then◌else◌, Bool-cases, inl, inr, ltb, ltb→lt, ==_iff, ◌==◌, ℕ, ap, sym, ◌∙◌, ◌+◌, ◌<◌,
  ◌≤◌, ◌≡◌, refl, false, ◌||◌, Option, none, some, length, get_elem?, set, arith,
}
use dlis_parser.Base.Lists.{length-set, get_elem?-set_self, get_elem?-set_ne}
use dlis_parser.Base.Int.{pos, ◌+ℤ◌, eq_of_parts, +ℤ_parts, ltb_ℤ, leb_ℤ}
use dlis_parser.Codec.Value.{Outcome, ok, exit, fault}
use dlis_parser.Dlis.State.{ParseState, TemplateObject}
use dlis_parser.Dlis.Template.{
  max_templt_objs, Attr, template_object, eflr_set_template_object_queue,
  eflr_set_template_object_get,
}

-- As many objects are in the template as the write index says.
pub record IsQueue (s : ParseState) (written : ℕ) : Type 0 where
  pub places : length s.templt ≡ max_templt_objs
  pub index : s.templt_write_idx ≡ pos written
  pub fits : written ≤ max_templt_objs

-- The attribute that is read back.
abbrev pub kept : TemplateObject → Attr
kept t = record { label = t.label; count = pos t.count; repcode = pos t.repcode; unit = t.unit }

-- What the queueing leaves behind.
abbrev pub queued : ParseState → Attr → ℕ → ParseState
queued s a n = record s {
  templt = set s.templt n (template_object a);
  templt_write_idx = pos (n + 1);
}

in_range :
    (n : ℕ)
    → n < max_templt_objs
    → (ltb_ℤ (pos n) (pos 0) || leb_ℤ (pos max_templt_objs) (pos n)) ≡ false
in_range n room = ground arith

pub next_index : (n : ℕ) → pos n +ℤ pos 1 ≡ pos (n + 1)
next_index n = eq_of_parts (pos n +ℤ pos 1) (pos (n + 1)) (omega (arith, +ℤ_parts (pos n) (pos 1)))

module _ (s : ParseState) (a : Attr) (n : ℕ) (q : IsQueue s n) where
  pub queue-queued : n < max_templt_objs → eflr_set_template_object_queue s a ≡ ok (queued s a n)
  unfolding eflr_set_template_object_queue
  queue-queued room =
      let w : s.templt_write_idx ≡ pos n = q.index in rw (w, in_range n room, next_index n)

  queue-full : n ≡ max_templt_objs → eflr_set_template_object_queue s a ≡ exit
  unfolding eflr_set_template_object_queue
  queue-full full = let w : s.templt_write_idx ≡ pos n = q.index in rw (w, full)

  pub queued-IsQueue : n < max_templt_objs → IsQueue (queued s a n) (n + 1)
  queued-IsQueue room = record {
    places = length-set s.templt n (template_object a) ∙ q.places;
    index = refl;
    fits = omega (arith, room);
  }

read_in_range :
    (k n : ℕ)
    → k < n
    → n ≤ max_templt_objs
    → ((ltb_ℤ (pos k) (pos 0) || leb_ℤ (pos max_templt_objs) (pos k)) ≡ false)
      × (leb_ℤ (pos n) (pos k) ≡ false)
read_in_range k n less fits = (ground arith, ground arith)

abbrev pub at_index : ParseState → ℕ → ParseState
at_index s k = record s { templt_read_idx = pos k }

abbrev read_kept : Option TemplateObject → Outcome Attr
read_kept found = elim found [ none ↦ fault | some t ↦ ok (kept t) ]

get-in_range :
    (s : ParseState) (n k : ℕ)
    → IsQueue s n
    → k < n
    → eflr_set_template_object_get (at_index s k) ≡ read_kept (get_elem? s.templt k)
unfolding eflr_set_template_object_get
get-in_range s n k q less =
    let w : s.templt_write_idx ≡ pos n = q.index in
    let r : ((ltb_ℤ (pos k) (pos 0) || leb_ℤ (pos max_templt_objs) (pos k)) ≡ false)
        × (leb_ℤ (pos n) (pos k) ≡ false) =
      read_in_range k n less (q.fits) in
    rw (r.0, w, r.1)

module _ (s : ParseState) (a : Attr) (n : ℕ) (q : IsQueue s n) where
  get-queued :
      n < max_templt_objs
      → eflr_set_template_object_get (at_index (queued s a n) n) ≡ ok (kept (template_object a))
  get-queued room =
      get-in_range (queued s a n) (n + 1) n (queued-IsQueue s a n q room) (omega arith)
      ∙ ap read_kept (get_elem?-set_self s.templt n (template_object a) (rw (q.places) room))

  get-queued_ne :
      n < max_templt_objs
      → (k : ℕ) → k < n
      → eflr_set_template_object_get (at_index (queued s a n) k)
        ≡ eflr_set_template_object_get (at_index s k)
  get-queued_ne room k less =
      get-in_range (queued s a n) (n + 1) k (queued-IsQueue s a n q room) (omega (arith, less))
      ∙ ap read_kept (
          get_elem?-set_ne s.templt {i = n} {j = k} (template_object a)
            (λ e. omega (arith, e, less)))
      ∙ sym (get-in_range s n k q less)

past_end :
    (s : ParseState) (n k : ℕ)
    → IsQueue s n
    → n ≤ k
    → eflr_set_template_object_get (at_index s k) ≡ exit
unfolding eflr_set_template_object_get
past_end s n k q behind =
    let w : s.templt_write_idx ≡ pos n = q.index in
    let last : leb_ℤ (pos n) (pos k) ≡ true = ground arith in
    elim (Bool-cases (ltb_ℤ (pos k) (pos 0) || leb_ℤ (pos max_templt_objs) (pos k))) [
      | inl out ↦ rw out
      | inr inside ↦ rw (inside, w, last)
    ]

-- If the template is well-formed and has room, an attribute is queued and the template stays
-- well-formed. Read at any place, it then gives that attribute at the place it was put, with the
-- defaults for a missing code and count, and what it gave before everywhere else.
pub template_round_trip :
    (s : ParseState) (a : Attr) (n k : ℕ)
    → IsQueue s n
    → n < max_templt_objs
    → (s' : ParseState) × (eflr_set_template_object_queue s a ≡ ok s')
      × IsQueue s' (n + 1)
      × (eflr_set_template_object_get (at_index s' k) ≡ (
          if k == n
          then ok (kept (template_object a))
          else eflr_set_template_object_get (at_index s k)))
template_round_trip s a n k q room = (
  queued s a n,
  queue-queued s a n q room,
  queued-IsQueue s a n q room,
  elim (Bool-cases (k == n)) [
    | inl here ↦ let same : k ≡ n = (==_iff k n).0 here in rw (here, same) (get-queued s a n q room)
    | inr there ↦ rw there (elim (Bool-cases (ltb k n)) [
      | inl less ↦ get-queued_ne s a n q room k (ltb→lt k n less)
      | inr more ↦
          past_end (queued s a n) (n + 1) k (queued-IsQueue s a n q room) (ground arith)
          ∙ sym (past_end s n k q (ground arith))
    ])
  ],
)
