-- ===== src/Dlis/NextState/Taken.antt =====
-- dlis.cc, next_state: every transition is taken under its condition.
use dlis_parser.Base.{
  ℕ, ◌/◌, ◌≡◌, refl, sym, ap, ◌∙◌, arith, true, false, Bool-cases, Option-cases, inl, inr, ◌==◌,
  ==_iff, ltb, ltb→lt, ltb→le, some, get_elem?, if◌then◌else◌, subst,
}
use dlis_parser.Base.Int.{ℤ, pos, leb_ℤ}
use dlis_parser.Codec.Outcome.{bind-ok}
use dlis_parser.Codec.Value.{ok, ◌>>=◌}
use dlis_parser.Dlis.State.{
  ParseCode, Dlis, Frame, expecting_sul, expecting_vr, expecting_lrs, expecting_encryption_packet,
  expecting_eflr_comp, expecting_eflr_comp_set, expecting_eflr_comp_rset, expecting_eflr_comp_rdset,
  expecting_eflr_comp_absatr, expecting_eflr_comp_attrib, expecting_eflr_comp_invatr,
  expecting_eflr_comp_object, expecting_lrs_trailing, expecting_eflr_comp_attrib_value,
  expecting_iflr_header, expecting_iflr_data,
}
use dlis_parser.Dlis.Flags.{
  lrs_attr_is_encrypted, lrs_attr_is_eflr, lrs_attr_is_first_lrs, eflr_comp_is_set,
  eflr_comp_is_rset, eflr_comp_is_rdset, eflr_comp_is_absatr, eflr_comp_is_attrib,
  eflr_comp_is_invatr, eflr_comp_is_object, eflr_comp_attr_has_value,
}
use dlis_parser.Dlis.Iflr.{deref}
use dlis_parser.Dlis.Skip.Saved.{known_trail}
use dlis_parser.Dlis.NextState.{
  after_lrs, after_segment, go_to, at_trailing, skip_rest, after_comp, after_whole_comp,
  after_attrib, after_value, after_data, next_from, next_state,
}
use dlis_parser.Dlis.NextState.Edges.{IsWhole, IsValued, data_goes_on}
use dlis_parser.Dlis.NextState.Guards.{
  HasRole, EndsSegment, packet, trailing, Inside, Step, label_read, record_opened, encrypted,
  eflr_starts, values_go_on, iflr_starts, data_go_on, next_segment, next_record, component,
  no_component, whole_then_comp, whole_then_trailer, valued_then_trailer, valued_then_value,
  valued_then_comp, value_then_trailer, value_then_comp, value_then_value, header_then_trailer,
  header_then_data, data_ends, data_skipped, data_then_data,
}
use dlis_parser.Dlis.NextState.Conditions.{
  if-case, if_false, set_true, set_false, le_zero, positive, at_end, inside, new_header, more_data,
  no_role, deref_found, same_code, no_current,
}

module _ (d : Dlis) (t : ℕ) (known : d.state.lrs_trail_len ≡ pos t) where
  after_lrs-Step : Step d t expecting_lrs (after_lrs d)
  unfolding after_lrs lrs_attr_is_encrypted lrs_attr_is_eflr lrs_attr_is_first_lrs
  after_lrs-Step =
      if-case (Step d t expecting_lrs) _ _ _ (λ e. encrypted (set_true 0x10 _ e))
        (λ e.
          if-case (Step d t expecting_lrs) _ _ _
            (λ e₁.
              if-case (Step d t expecting_lrs) _ _ _
                (λ e₂. eflr_starts (set_false 0x10 _ e) (set_true 0x80 _ e₁) (le_zero _ e₂))
                (λ e₂. values_go_on (set_false 0x10 _ e) (set_true 0x80 _ e₁) (positive _ e₂)))
            (λ e₁.
              if-case (Step d t expecting_lrs) _ _ _
                (λ e₂. iflr_starts (set_false 0x10 _ e) (set_false 0x80 _ e₁) (new_header d e₂))
                (λ e₂.
                  data_go_on (set_false 0x10 _ e) (set_false 0x80 _ e₁) (more_data d e₂).0
                    (more_data d e₂).1)))

  after_segment-Step : {c : ParseCode} → EndsSegment c → Step d t c (after_segment d)
  unfolding after_segment
  after_segment-Step {c} ends =
      if-case (Step d t c) _ _ _ (λ e. next_segment ends (ltb→lt _ _ e))
        (λ e. next_record ends (ltb→le _ _ e))

  after_whole-Step : {c : ParseCode} → IsWhole c → Step d t c ((after_whole_comp d).state.code)
  unfolding after_whole_comp
  after_whole-Step {c} w = rw (known_trail d t known) (
      if-case (Step d t c) _ _ _ (λ e. whole_then_trailer w (at_end d t e))
        (λ e. whole_then_comp w (inside d t e)))

  after_attrib-Step : {c : ParseCode} → IsValued c → Step d t c ((after_attrib d).state.code)
  unfolding after_attrib eflr_comp_attr_has_value
  after_attrib-Step {c} v = rw (known_trail d t known) (
      if-case (Step d t c) _ _ _ (λ e. valued_then_trailer v (at_end d t e))
        (λ e.
          if-case (Step d t c) _ _ _ (λ e₁. valued_then_value v (inside d t e) (set_true 0x01 _ e₁))
            (λ e₁. valued_then_comp v (inside d t e) (set_false 0x01 _ e₁))))

  after_value-Step : Step d t expecting_eflr_comp_attrib_value ((after_value d).state.code)
  unfolding after_value
  after_value-Step = rw (known_trail d t known) (
      if-case (Step d t expecting_eflr_comp_attrib_value) _ _ _
        (λ e. value_then_trailer (at_end d t e))
        (λ e.
          if-case (Step d t expecting_eflr_comp_attrib_value) _ _ _
            (λ e₁. value_then_comp (inside d t e) (le_zero _ e₁))
            (λ e₁. value_then_value (inside d t e) (positive _ e₁))))

  with_role :
      (n : ℕ) (c : ParseCode)
      → HasRole n c
      → d.state.eflr_comp_first_byte / 32 == n ≡ true
      → Step d t expecting_eflr_comp c
  with_role n c role e =
      component
        (subst (λ k. HasRole k c) (sym ((==_iff (d.state.eflr_comp_first_byte / 32) n).0 e)) role)

  after_comp-Step :
      d.state.code ≡ expecting_eflr_comp → Step d t expecting_eflr_comp (after_comp d.state)
  unfolding after_comp eflr_comp_is_set eflr_comp_is_rset eflr_comp_is_rdset eflr_comp_is_absatr
      eflr_comp_is_attrib eflr_comp_is_invatr eflr_comp_is_object
  after_comp-Step at_comp =
      let r : ℕ = d.state.eflr_comp_first_byte / 32 in
      if-case (Step d t expecting_eflr_comp) _ _ _ (with_role 7 _ HasRole.set) (λ e₇.
        if-case (Step d t expecting_eflr_comp) _ _ _ (with_role 6 _ HasRole.rset) (λ e₆.
          if-case (Step d t expecting_eflr_comp) _ _ _ (with_role 5 _ HasRole.rdset) (λ e₅.
            if-case (Step d t expecting_eflr_comp) _ _ _ (with_role 0 _ HasRole.absatr) (λ e₀.
              if-case (Step d t expecting_eflr_comp) _ _ _ (with_role 1 _ HasRole.attrib) (λ e₁.
                if-case (Step d t expecting_eflr_comp) _ _ _ (with_role 2 _ HasRole.invatr) (λ e₂.
                  if-case (Step d t expecting_eflr_comp) _ _ _ (with_role 3 _ HasRole.object) (λ e₃.
                    subst (λ c. Step d t expecting_eflr_comp c) (sym at_comp)
                      (no_component (λ c role. no_role r c role e₀ e₁ e₂ e₃ e₅ e₆ e₇)))))))))

  header-Step :
      Step d t expecting_iflr_header
        (if ltb 0 d.state.unparsed_buff_len then expecting_lrs_trailing else expecting_iflr_data)
  header-Step =
      if-case (Step d t expecting_iflr_header) _ _ _ (λ e. header_then_trailer (ltb→lt _ _ e))
        (λ e. header_then_data (omega (arith, ltb→le _ _ e)))

  -- Behind a frame's data that are not at the end of the segment.
  data_goes_on-Step :
      (i : ℕ) (f : Frame) (d' : Dlis)
      → d.state.code ≡ expecting_iflr_data
      → d.current_frame ≡ some i
      → get_elem? d.frame_heap i ≡ some f
      → Inside d t
      → data_goes_on (pos t) d (i, f) ≡ ok d'
      → Step d t expecting_iflr_data (d'.state.code)
  data_goes_on-Step i f d' code frame found more e = elim (Option-cases f.current_channel) [
    | inl ended ↦
        (let skips : ok (go_to (skip_rest (pos t) d) expecting_lrs_trailing) ≡ ok d' =
            rw ended at e in
          subst (λ c. Step d t expecting_iflr_data c) (same_code _ d' skips)
            (data_skipped more (inl (no_current d i f frame found ended))))
    | inr (j, current) ↦ elim (Bool-cases (leb_ℤ d.state.parsing_dimension (pos 0))) [
      | inl few ↦
          (let skips : ok (go_to (skip_rest (pos t) d) expecting_lrs_trailing) ≡ ok d' =
              rw (current, few) at e in
            subst (λ c. Step d t expecting_iflr_data c) (same_code _ d' skips)
              (data_skipped more (inr (le_zero _ few))))
      | inr many ↦
          (let stays : ok d ≡ ok d' = rw (current, many) at e in
            subst (λ c. Step d t expecting_iflr_data c) (sym code ∙ same_code d d' stays)
              (data_then_data more (i, f, j, frame, found, current) (positive _ many)))
    ]
  ]

  after_data-open :
      at_trailing (pos t) d ≡ false
      → after_data d ≡ (deref d.frame_heap d.current_frame >>= data_goes_on (pos t) d)
  unfolding after_data
  after_data-open more =
      ap
        (λ (r : ℤ × Dlis).
          if at_trailing r.0 r.1
          then ok (go_to r.1 expecting_lrs_trailing)
          else (deref r.1.frame_heap r.1.current_frame >>= data_goes_on r.0 r.1))
        (known_trail d t known)
      ∙ if_false (at_trailing (pos t) d) _ _ more

  after_data-Step :
      (d' : Dlis)
      → d.state.code ≡ expecting_iflr_data
      → after_data d ≡ ok d'
      → Step d t expecting_iflr_data (d'.state.code)
  unfolding after_data
  after_data-Step d' code e = elim (Bool-cases (at_trailing (pos t) d)) [
    | inl ended ↦
        (let same : ok (go_to d expecting_lrs_trailing) ≡ ok d' =
            rw (known_trail d t known, ended) at e in
          subst (λ c. Step d t expecting_iflr_data c) (same_code _ d' same)
            (data_ends (at_end d t ended)))
    | inr more ↦
        (let onward : (deref d.frame_heap d.current_frame >>= data_goes_on (pos t) d) ≡ ok d' =
            sym (after_data-open more) ∙ e in
          let ((i, f), there, goes) =
            bind-ok (deref d.frame_heap d.current_frame) (data_goes_on (pos t) d) d' onward in
          let (frame, found) = deref_found d.frame_heap d.current_frame i f there in
          data_goes_on-Step i f d' code frame found (inside d t more) goes)
  ]

  to :
      {c : ParseCode} (x d' : Dlis)
      → ok x ≡ ok d'
      → Step d t c (x.state.code)
      → Step d t c (d'.state.code)
  to {c} x d' e step = subst (λ k. Step d t c k) (same_code x d' e) step

  from-Step :
      (c : ParseCode) (d' : Dlis)
      → d.state.code ≡ c
      → next_from c d ≡ ok d'
      → Step d t c (d'.state.code)
  unfolding next_from
  from-Step expecting_sul d' code e = to _ d' e label_read
  from-Step expecting_vr d' code e = to _ d' e record_opened
  from-Step expecting_lrs d' code e = to _ d' e after_lrs-Step
  from-Step expecting_encryption_packet d' code e = to _ d' e (after_segment-Step packet)
  from-Step expecting_eflr_comp d' code e = to _ d' e (after_comp-Step code)
  from-Step expecting_eflr_comp_set d' code e = to _ d' e (after_whole-Step IsWhole.set)
  from-Step expecting_eflr_comp_rset d' code e = to _ d' e (after_whole-Step IsWhole.rset)
  from-Step expecting_eflr_comp_rdset d' code e = to _ d' e (after_whole-Step IsWhole.rdset)
  from-Step expecting_eflr_comp_absatr d' code e = to _ d' e (after_whole-Step IsWhole.absatr)
  from-Step expecting_eflr_comp_object d' code e = to _ d' e (after_whole-Step IsWhole.object)
  from-Step expecting_eflr_comp_attrib d' code e = to _ d' e (after_attrib-Step IsValued.attrib)
  from-Step expecting_eflr_comp_invatr d' code e = to _ d' e (after_attrib-Step IsValued.invatr)
  from-Step expecting_lrs_trailing d' code e = to _ d' e (after_segment-Step trailing)
  from-Step expecting_eflr_comp_attrib_value d' code e = to _ d' e after_value-Step
  from-Step expecting_iflr_header d' code e = to _ d' e header-Step
  from-Step expecting_iflr_data d' code e = after_data-Step d' code e

  -- With the length of the trailer known, `next_state`, if it returns, has gone from one state to
  -- another by a transition of the written-out diagram whose condition holds: the bits of the
  -- header of the segment and of the first byte of a component, its role, the bytes left in the
  -- segment and in the visible record, the values to come, the waiting bytes, and the current
  -- channel and its dimension.
  pub next_state-Step : (d' : Dlis) → next_state d ≡ ok d' → Step d t (d.state.code) (d'.state.code)
  unfolding next_state
  next_state-Step d' e = from-Step d.state.code d' refl e
