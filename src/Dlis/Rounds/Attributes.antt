-- ===== src/Dlis/Rounds/Attributes.antt =====
-- dlis.cc, parse: the attributes of a template, two rounds of the loop for each.
use dlis_parser.Base.{ℕ, ◌+◌, ◌<◌, ◌≡◌, refl, ap, subst, ◌∙◌, arith, false, some, length}
use dlis_parser.Base.Int.{pos, negsuc, sub_ℕ, ltb_ℤ, leb_ℤ}
use dlis_parser.Codec.Memory.{Holds}
use dlis_parser.Codec.Value.{ok, ◌>>=◌}
use dlis_parser.Dlis.State.{
  Dlis, ParseState, here, with_state, expecting_eflr_comp, expecting_eflr_comp_attrib,
}
use dlis_parser.Dlis.Flags.{eflr_comp_attr_has_value}
use dlis_parser.Dlis.Skip.Saved.{known_trail}
use dlis_parser.Dlis.Template.{max_templt_objs, Attr, eflr_set_template_is_last_attr}
use dlis_parser.Dlis.Template.Queue.{IsQueue, queued}
use dlis_parser.Dlis.Eflr.{parse_eflr_component, parse_eflr_component_attrib}
use dlis_parser.Dlis.Eflr.Fields.{Fields, fields_bytes, Fits, HasRoom, filled}
use dlis_parser.Dlis.Eflr.RoundTrip.{parse_eflr_component_attrib-queued}
use dlis_parser.Dlis.NextState.{next_from, next_state, go_to, after_comp, after_attrib, at_trailing}
use dlis_parser.Dlis.Measure.Falls.{parse_round-known}
use dlis_parser.Dlis.Parse.{round_from, parse_round}
use dlis_parser.Dlis.Events.{on_eflr_component_attrib}
use dlis_parser.Dlis.Rounds.{again, proceed, advance}
use dlis_parser.Dlis.Rounds.Components.{round_comp, start_attr, end_attr, round_attrib}
use dlis_parser.Dlis.Rounds.FirstByte.{attrib_byte, byte-IsAttribute}

-- In a template with w attributes, at a component.
pub record InTemplate (d : Dlis) (t w : ℕ) : Type 0 where
  pub code : d.state.code ≡ expecting_eflr_comp
  pub trail : d.state.lrs_trail_len ≡ pos t
  pub no_object : d.state.templt_read_idx ≡ negsuc 0
  pub queue : IsQueue d.state w

-- Behind the first byte of an attribute.
abbrev pub taken : Dlis → ℕ → Dlis
taken d b = record d {
  byte_idx = d.byte_idx + 1;
  state = record (d.state) {
    eflr_comp_first_byte = b;
    lrs_byte_cnt = d.state.lrs_byte_cnt + 1;
    vr_byte_cnt = d.state.vr_byte_cnt + 1;
    code = expecting_eflr_comp_attrib;
  };
}

-- Without values to come.
abbrev pub commenced : Dlis → ℕ → Dlis
commenced d b = with_state (taken d b) (record ((taken d b).state) { attrib_value_cnt = pos 0 })

-- What an attribute of a template is before its own fields are read.
abbrev pub plain : Dlis → Attr
plain d = record {
  label = record (d.state.attrib_label) { len = pos 0 };
  count = pos 1;
  repcode = pos 19;
  unit = record { buff = 0; len = pos 0 };
}

abbrev pub own : Dlis → Fields → Attr
own d f = filled (commenced d (attrib_byte f)) f (plain d)

-- Behind the attribute, with it in the template.
abbrev pub stored : Dlis → Fields → ℕ → Dlis
stored d f w =
    let n : ℕ = length (fields_bytes f) in
    record d {
      byte_idx = d.byte_idx + 1 + n;
      state = record (queued d.state (own d f) w) {
        eflr_comp_first_byte = attrib_byte f;
        attrib_value_cnt = pos 0;
        attrib_label = (own d f).label;
        lrs_byte_cnt = d.state.lrs_byte_cnt + 1 + n;
        vr_byte_cnt = d.state.vr_byte_cnt + 1 + n;
        code = expecting_eflr_comp;
      };
    }

pub one_further : (d : Dlis) → here d 1 ≡ here (record d { byte_idx = d.byte_idx + 1 }) 0
one_further d = omega arith

some_left : (max at : ℕ) → at < max → ltb_ℤ (sub_ℕ max at) (pos 1) ≡ false
some_left max at less = ground arith

left_over : (len cnt t : ℕ) → cnt + t < len → leb_ℤ (sub_ℕ len cnt) (pos t) ≡ false
left_over len cnt t more = ground arith

-- Behind an attribute without values, with bytes left in front of the trailer.
module _ (e : Dlis) (no_value : eflr_comp_attr_has_value e.state ≡ false) where
  end_attr-advance :
      (a : Attr) (n : ℕ)
      → eflr_set_template_is_last_attr e.state ≡ false
      → end_attr a n e ≡ advance n e
  unfolding end_attr on_eflr_component_attrib advance
  end_attr-advance a n goes_on =
      let same : eflr_comp_attr_has_value (advance n e).state ≡ false =
        unfold eflr_comp_attr_has_value in no_value in
      rw (no_value, goes_on, same) refl

  after_attrib-comp :
      (t : ℕ)
      → e.state.lrs_trail_len ≡ pos t
      → e.state.lrs_byte_cnt + t < e.state.lrs_len
      → after_attrib e ≡ go_to e expecting_eflr_comp
  unfolding after_attrib at_trailing
  after_attrib-comp t trail more =
      rw (known_trail e t trail, left_over e.state.lrs_len e.state.lrs_byte_cnt t more, no_value)
        refl

  next_state-comp :
      (t : ℕ)
      → e.state.code ≡ expecting_eflr_comp_attrib
      → e.state.lrs_trail_len ≡ pos t
      → e.state.lrs_byte_cnt + t < e.state.lrs_len
      → next_state e ≡ ok (go_to e expecting_eflr_comp)
  unfolding next_state next_from
  next_state-comp t code trail more =
      ap (λ c. next_from c e) code ∙ ap (λ d'. ok d') (after_attrib-comp t trail more)

not_last :
    (s : ParseState) (n : ℕ)
    → s.templt_write_idx ≡ pos n
    → s.templt_read_idx ≡ negsuc 0
    → eflr_set_template_is_last_attr s ≡ false
unfolding eflr_set_template_is_last_attr
not_last s n write read = rw (write, read) (ground arith)

module _ (d : Dlis) (t w : ℕ) (f : Fields) (inside : InTemplate d t w)
    (first : d.buffer (here d 0) ≡ attrib_byte f) (come : d.byte_idx < d.max_byte_idx) where
  component-first : parse_eflr_component d ≡ some (1, attrib_byte f)
  unfolding parse_eflr_component
  component-first = rw (some_left d.max_byte_idx d.byte_idx come, first) refl

  comp_taken : round_comp d ≡ ok (again (taken d (attrib_byte f)))
  unfolding round_comp proceed advance next_state
  comp_taken =
      let e : Dlis =
        advance 1 (with_state d (record (d.state) { eflr_comp_first_byte = attrib_byte f })) in
      let goes : after_comp e.state ≡ expecting_eflr_comp_attrib =
        (byte-IsAttribute e.state f refl).goes_to in
      rw (round_comp, component-first)
        (ap (λ c. next_from c e >>= λ d'. ok (again d')) inside.code
          ∙ unfold next_from in ap (λ c. ok (again (go_to e c))) goes)

  pub comp_round : parse_round d ≡ ok (again (taken d (attrib_byte f)))
  unfolding round_from
  comp_round =
      parse_round-known t d inside.trail ∙ ap (λ c. round_from c d) inside.code ∙ comp_taken

  start-plain : start_attr (commenced d (attrib_byte f)) ≡ ok (plain d)
  unfolding start_attr
  start-plain = rw (inside.no_object) refl

  module _ (fits : Fits f) (held : Holds d.buffer (here d 1) (fields_bytes f))
      (room : HasRoom d 1 (length (fields_bytes f))) (free : w < max_templt_objs)
      (more : d.state.lrs_byte_cnt + 1 + length (fields_bytes f) + t < d.state.lrs_len) where
    read_own :
        parse_eflr_component_attrib (commenced d (attrib_byte f)) (plain d)
        ≡ ok (
          own d f,
          some (length (fields_bytes f)),
          with_state
              (commenced d (attrib_byte f))
              (queued (commenced d (attrib_byte f)).state (own d f) w),
        )
    read_own =
        parse_eflr_component_attrib-queued (commenced d (attrib_byte f)) f (plain d)
          (byte-IsAttribute (commenced d (attrib_byte f)).state f refl).announced fits
          (subst (λ q. Holds d.buffer q (fields_bytes f)) (one_further d) held)
          (omega (arith, room)) w (ap (λ z. ltb_ℤ z (pos 0)) inside.no_object)
          (record {
            places = inside.queue.places;
            index = inside.queue.index;
            fits = inside.queue.fits;
          })
          free

    attrib_stored : round_attrib (taken d (attrib_byte f)) ≡ ok (again (stored d f w))
    unfolding round_attrib proceed advance
    attrib_stored =
        let e : Dlis =
          with_state (commenced d (attrib_byte f))
            (record (queued (commenced d (attrib_byte f)).state (own d f) w) {
              attrib_label = (own d f).label;
            }) in
        let no_value = (byte-IsAttribute e.state f refl).no_value in
        let n : ℕ = length (fields_bytes f) in
        let ended =
          end_attr-advance e no_value (own d f) n
            (not_last e.state (w + 1) refl inside.no_object) in
        let goes =
          next_state-comp (advance n e) (byte-IsAttribute (advance n e).state f refl).no_value t
            refl inside.trail more in
        rw (start-plain, read_own, ended, goes) refl

    pub attrib_round : parse_round (taken d (attrib_byte f)) ≡ ok (again (stored d f w))
    unfolding round_from
    attrib_round = parse_round-known t (taken d (attrib_byte f)) inside.trail ∙ attrib_stored
