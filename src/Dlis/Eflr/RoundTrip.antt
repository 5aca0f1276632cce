-- ===== src/Dlis/Eflr/RoundTrip.antt =====
-- dlis.cc: attributes as bytes, in a template and in an object.
use dlis_parser.Base.{
  ◌∙◌, ℕ, ◌+◌, ◌<◌, ◌≡◌, refl, ap, arith, true, false, ◌==◌, some, length, if◌then◌else◌,
}
use dlis_parser.Base.Int.{ℤ, negsuc, leb_ℤ, pos_part, pos, ltb_ℤ}
use dlis_parser.Codec.Memory.{Holds, SizedStr}
use dlis_parser.Codec.Value.{ok, ◌>>=◌}
use dlis_parser.Dlis.State.{Dlis, ParseState, here, with_state}
use dlis_parser.Dlis.Strings.{strcmp_eq}
use dlis_parser.Dlis.Template.{
  max_templt_objs, Attr, template_object, eflr_set_template_object_get,
  eflr_set_template_object_dequeue,
}
use dlis_parser.Dlis.Template.Queue.{
  IsQueue, kept, at_index, template_round_trip, next_index, queued, queue-queued,
}
use dlis_parser.Dlis.Eflr.{
  frame_set, is_index_type, template_step, attrib_done, parse_eflr_component_attrib,
}
use dlis_parser.Dlis.Eflr.Fields.{Fields, fields_bytes, Announces, Fits, HasRoom, filled}
use dlis_parser.Dlis.Eflr.ReadBack.{attr_fields-fields_bytes}

no_index_type :
    (d : Dlis) (label : SizedStr)
    → ltb_ℤ d.state.templt_read_idx (pos 0) ≡ true
    → is_index_type d label ≡ false
unfolding is_index_type
no_index_type d label before = ground arith

other_set :
    (d : Dlis) (label : SizedStr)
    → strcmp_eq d.state.parsing_set_type frame_set ≡ false
    → is_index_type d label ≡ false
unfolding is_index_type
other_set d label other = rw other refl

attrib_done-plain :
    (d : Dlis) (a : Attr) (n : ℕ)
    → is_index_type d a.label ≡ false
    → attrib_done d (a, some n) ≡ (template_step d a >>= λ d'. ok (a, some n, d'))
unfolding attrib_done
attrib_done-plain d a n plain = rw plain refl

in_object : (k : ℕ) → ltb_ℤ (pos k) (pos 0) ≡ false
in_object k = ground arith

template_step-object :
    (d : Dlis) (a : Attr) (k : ℕ)
    → d.state.templt_read_idx ≡ pos k
    → template_step d a ≡ ok (with_state d (at_index d.state (k + 1)))
unfolding template_step eflr_set_template_object_dequeue
template_step-object d a k index = rw (index, in_object k, next_index k) refl

-- IDENT (19) for a code, and 1 for a count, that is not given.
abbrev pub with_defaults : Attr → Attr
with_defaults a = record {
  label = a.label;
  count = if leb_ℤ (pos 0) a.count then a.count else pos 1;
  repcode = if leb_ℤ (pos 0) a.repcode then a.repcode else pos 19;
  unit = a.unit;
}

or_default :
    (z : ℤ) (n : ℕ)
    → pos (if ltb_ℤ z (pos 0) then n else pos_part z) ≡ (if leb_ℤ (pos 0) z then z else pos n)
or_default (pos k) n = ground arith
or_default (negsuc k) n = ground arith

kept-with_defaults : (a : Attr) → kept (template_object a) ≡ with_defaults a
unfolding template_object
kept-with_defaults a = rw (or_default a.count 1, or_default a.repcode 19) refl

module _ (d : Dlis) (f : Fields) (a : Attr) (announced : Announces d.state f) (fits : Fits f)
    (held : Holds d.buffer (here d 0) (fields_bytes f))
    (room : HasRoom d 0 (length (fields_bytes f))) where
  -- In a template that has room, the attribute that was read is queued.
  pub parse_eflr_component_attrib-queued :
      (w : ℕ)
      → ltb_ℤ d.state.templt_read_idx (pos 0) ≡ true
      → IsQueue d.state w
      → w < max_templt_objs
      → parse_eflr_component_attrib d a
        ≡ ok (
          filled d f a,
          some (length (fields_bytes f)),
          with_state d (queued d.state (filled d f a) w),
        )
  unfolding parse_eflr_component_attrib template_step
  parse_eflr_component_attrib-queued w before queue free =
      rw
        (
          attr_fields-fields_bytes d f a announced fits held room,
          attrib_done-plain d (filled d f a) (length (fields_bytes f))
              (no_index_type d (filled d f a).label before),
          before,
          queue-queued d.state (filled d f a) w queue free,
        )
        refl

  -- In a template that is well-formed and has room: if the first byte of an attribute announces
  -- just the given fields, with a count below 2^30, and their encodings lie at the front of the
  -- bytes, have come in and lie in the segment, they are taken whole and the attribute, with the
  -- other fields as they were, is queued. Read at any place, the template then gives that
  -- attribute at the place it was put, with its label and unit, and 19 and 1 for a code and a
  -- count below 0, and what it gave before everywhere else.
  pub parse_eflr_component_attrib-template :
      (w k : ℕ)
      → ltb_ℤ d.state.templt_read_idx (pos 0) ≡ true
      → IsQueue d.state w
      → w < max_templt_objs
      → (s' : ParseState) × (parse_eflr_component_attrib d a
          ≡ ok (filled d f a, some (length (fields_bytes f)), with_state d s'))
        × IsQueue s' (w + 1)
        × (eflr_set_template_object_get (at_index s' k) ≡ (
            if k == w
            then ok (with_defaults (filled d f a))
            else eflr_set_template_object_get (at_index d.state k)))
  parse_eflr_component_attrib-template w k before queue free =
      let (s', put, queue', got) = template_round_trip d.state (filled d f a) w k queue free in
      let put' = queue-queued d.state (filled d f a) w queue free in
      let same : queued d.state (filled d f a) w ≡ s' = cc in
      (
        s',
        parse_eflr_component_attrib-queued w before queue free
            ∙ ap (λ s. ok (filled d f a, some (length (fields_bytes f)), with_state d s)) same,
        queue',
        got
            ∙ ap (λ x. if k == w then ok x else eflr_set_template_object_get (at_index d.state k))
                (kept-with_defaults (filled d f a)),
      )

  -- In an object of a set other than FRAME: if the first byte of an attribute announces just the
  -- given fields, with a count below 2^30, and their encodings lie at the front of the bytes,
  -- have come in and lie in the segment, they are taken whole and override those of the template,
  -- the other fields stay as they were, and of the state only the place in the template changes,
  -- to the next one.
  pub parse_eflr_component_attrib-object :
      (k : ℕ)
      → d.state.templt_read_idx ≡ pos k
      → strcmp_eq d.state.parsing_set_type frame_set ≡ false
      → parse_eflr_component_attrib d a
        ≡ ok (filled d f a, some (length (fields_bytes f)), with_state d (at_index d.state (k + 1)))
  unfolding parse_eflr_component_attrib
  parse_eflr_component_attrib-object k index other =
      rw
        (
          attr_fields-fields_bytes d f a announced fits held room,
          attrib_done-plain d (filled d f a) (length (fields_bytes f))
              (other_set d (filled d f a).label other),
          template_step-object d (filled d f a) k index,
        )
        refl
