-- ===== src/Dlis/Measure/Parsers.antt =====
-- dlis.cc: what the parsers of the loop take, and what they leave alone.
use dlis_parser.Codec.Outcome.{bind-ok}
use dlis_parser.Base.{
  ℕ, ◌≤◌, ◌≡◌, refl, sym, ap, ◌∙◌, arith, false, Bool-cases, inl, inr, if◌then◌else◌, Option, none,
  some,
}
use dlis_parser.Base.Int.{pos, ltb_ℤ}
use dlis_parser.Codec.Value.{Outcome, ok, exit, fault, hang, ◌>>=◌}
use dlis_parser.Dlis.State.{ParseState, with_state, Dlis, avail}
use dlis_parser.Dlis.Template.{
  Attr, eflr_set_template_object_queue, eflr_set_template_object_dequeue,
}
use dlis_parser.Dlis.Headers.{
  LrsHeader, parse_sul, vr_fields, vr_marker, parse_lrs_header, restore_unparsed,
}
use dlis_parser.Dlis.Eflr.{
  is_index_type, parse_eflr_component, set_index_type, template_step, attrib_done, attr_fields,
  parse_eflr_component_attrib,
}
use dlis_parser.Dlis.Measure.{left, Keeps, input}
use dlis_parser.Dlis.Measure.Callbacks.{if-Keeps}

avail_bound : (d : Dlis) (n : ℕ) → ltb_ℤ (avail d) (pos n) ≡ false → n ≤ left d
avail_bound d n e = ground arith

pub parse_sul-input :
    (d d' : Dlis) (n : ℕ)
    → parse_sul d ≡ ok (some n, d')
    → (input d' ≡ input d) × (1 ≤ n) × (1 ≤ left d)
unfolding parse_sul
parse_sul-input d d' n e = ground arith

pub parse_eflr_component-left :
    (d : Dlis) (n b : ℕ) → parse_eflr_component d ≡ some (n, b) → (n ≡ 1) × (1 ≤ left d)
unfolding parse_eflr_component
parse_eflr_component-left d n b e = ground arith

pub vr_fields-left :
    (d : Dlis) (i n vr_len version : ℕ)
    → vr_fields d i ≡ ok (some (n, vr_len, version))
    → (1 ≤ n) × (1 ≤ left d)
unfolding vr_fields vr_marker
vr_fields-left d i n vr_len version e = ground arith

pub parse_lrs_header-left :
    (d d' : Dlis) (n : ℕ) (h : LrsHeader)
    → parse_lrs_header d ≡ ok (some (n, h), d')
    → (n ≡ 4) × (left d' ≡ left d) × (4 ≤ left d) × (d'.state.code ≡ d.state.code)
unfolding parse_lrs_header restore_unparsed
parse_lrs_header-left d d' n h e = ground arith

pub set_index_type-Keeps : (d : Dlis) → Keeps d (set_index_type d)
unfolding set_index_type
set_index_type-Keeps d = ground arith

queued-Keeps :
    (d : Dlis) (r : Outcome ParseState)
    → ((s : ParseState)
        → r ≡ ok s
        → (s.code ≡ d.state.code)
          × (s.unparsed_buff_len ≡ d.state.unparsed_buff_len)
          × (s.lrs_trail_len ≡ d.state.lrs_trail_len)
          × (s.unparsed_buff ≡ d.state.unparsed_buff))
    → Keeps d (r >>= λ s. ok (with_state d s))
queued-Keeps d (ok s) same = let (a, b, c, e) = same s refl in ground arith
queued-Keeps d exit same = tt
queued-Keeps d fault same = tt
queued-Keeps d hang same = tt

queue_same :
    (d : Dlis) (a : Attr) (s : ParseState)
    → eflr_set_template_object_queue d.state a ≡ ok s
    → (s.code ≡ d.state.code)
      × (s.unparsed_buff_len ≡ d.state.unparsed_buff_len)
      × (s.lrs_trail_len ≡ d.state.lrs_trail_len)
      × (s.unparsed_buff ≡ d.state.unparsed_buff)
unfolding eflr_set_template_object_queue
queue_same d a s e = ground arith

dequeue-input :
    (d : Dlis) → input (with_state d (eflr_set_template_object_dequeue d.state)) ≡ input d
unfolding eflr_set_template_object_dequeue
dequeue-input d = ground arith

pub template_step-Keeps : (d : Dlis) (a : Attr) → Keeps d (template_step d a)
unfolding template_step
template_step-Keeps d a = elim (Bool-cases (ltb_ℤ d.state.templt_read_idx (pos 0))) [
  | inl e ↦ rw e (queued-Keeps d (eflr_set_template_object_queue d.state a) (queue_same d a))
  | inr e ↦ rw e (dequeue-input d)
]

pub Keeps-ok : (d d' : Dlis) (r : Outcome Dlis) → Keeps d r → r ≡ ok d' → input d' ≡ input d
Keeps-ok d d' r keeps e = rw e at keeps

attrib_done-input :
    (d d' : Dlis) (a : Attr × Option ℕ) (a' : Attr) (len : Option ℕ)
    → attrib_done d a ≡ ok (a', len, d')
    → input d' ≡ input d
unfolding attrib_done
attrib_done-input d d' (a, none) a' len e = ground arith
attrib_done-input d d' (a, some n) a' len e =
    let (marked, e₁, rest) =
      bind-ok (if is_index_type d a.label then set_index_type d else ok d) _ _ e in
    let (d₂, e₂, done) = bind-ok (template_step marked a) _ _ rest in
    let same : d₂ ≡ d' = ground arith in
    let first =
      Keeps-ok d marked _ (if-Keeps d (is_index_type d a.label) _ (set_index_type-Keeps d)) e₁ in
    let second = Keeps-ok marked d₂ _ (template_step-Keeps marked a) e₂ in
    ap input (sym same) ∙ second ∙ first

pub parse_eflr_component_attrib-input :
    (d d' : Dlis) (a a' : Attr) (len : Option ℕ)
    → parse_eflr_component_attrib d a ≡ ok (a', len, d')
    → input d' ≡ input d
unfolding parse_eflr_component_attrib
parse_eflr_component_attrib-input d d' a a' len e =
    attrib_done-input d d' (attr_fields d a) a' len e
