-- ===== src/Dlis/Events/Values/Gathered.antt =====
-- dlis.cc, on_eflr_component_attrib_value: the values of an attribute, one call after the other.
use dlis_parser.Base.{
  ℕ, suc, ◌≡◌, refl, ap, ◌∙◌, arith, false, Option, none, some, List, [], ◌∷◌, length,
  if◌then◌else◌,
}
use dlis_parser.Base.Int.{pos, ◌-ℤ◌, leb_ℤ}
use dlis_parser.Codec.Outcome.{bind-ok}
use dlis_parser.Codec.Memory.{SizedStr, text}
use dlis_parser.Codec.Value.{Outcome, ok, ◌>>=◌, Value}
use dlis_parser.Codec.Serialize.{Calls, new, also, set_object, serialize_list_add, Key}
use dlis_parser.Dlis.State.{Dlis, Event, message, with_state}
use dlis_parser.Dlis.Template.{eflr_set_template_is_last_attr}
use dlis_parser.Dlis.Eflr.{frame_set}
use dlis_parser.Dlis.Events.{channel_set, file_header_set, in_set, send_object}
use dlis_parser.Dlis.Events.Values.{add_attrib_value, on_eflr_component_attrib_value}

-- A value has been read: the counter goes down.
abbrev pub counted : Dlis → Dlis
counted d = with_state d (record (d.state) { attrib_value_cnt = d.state.attrib_value_cnt -ℤ pos 1 })

-- The calls for the values of one attribute, as the loop in `parse` makes them.
unfoldable pub on_values : Dlis → SizedStr → List Value → Outcome Dlis
on_values d label [] = ok d
on_values d label (v ∷ vs) =
    on_eflr_component_attrib_value (counted d) label v >>= λ d'. on_values d' label vs

-- The values as one list.
unfoldable pub values_list : Calls → List Value → Outcome Calls
values_list list [] = ok list
values_list list (v ∷ vs) = serialize_list_add list v >>= λ list'. values_list list' vs

-- A set that the program takes no values from.
pub record IsPlain (d : Dlis) : Type 0 where
  pub no_header : in_set d file_header_set ≡ false
  pub no_channels : in_set d channel_set ≡ false
  pub no_frames : in_set d frame_set ≡ false

abbrev current_list : Option Calls → Calls
current_list o = elim o [ none ↦ new | some l ↦ l ]

-- The object with the list under its label: when the place in the template is behind the last
-- attribute it is sent and gone, and otherwise it is kept.
abbrev pub gathered : Dlis → Calls → SizedStr → Calls → Dlis
gathered d o label list =
    let whole : Calls = also o (set_object (Key.label (text d.buffer label)) list) in
    let left = λ (object : Option Calls) (events : List Event). record d {
      state = record (d.state) {
        attrib_value_cnt = pos 0;
        parsing_obj_binn = object;
        parsing_obj_values = none;
      };
      events = events;
    } in
    if leb_ℤ d.state.templt_write_idx d.state.templt_read_idx
    then left none (message (some whole) ∷ d.events)
    else left (some whole) d.events

callback-plain :
    (d : Dlis) (label : SizedStr) (v : Value)
    → IsPlain d
    → on_eflr_component_attrib_value d label v ≡ add_attrib_value d label v
unfolding on_eflr_component_attrib_value
callback-plain d label v plain = rw (plain.no_header, plain.no_channels, plain.no_frames) refl

positive : (n : ℕ) → leb_ℤ (pos (suc n)) (pos 0) ≡ false
positive n = ground arith

one_less : (n : ℕ) → pos (suc n) -ℤ pos 1 ≡ pos n
unfolding ◌-ℤ◌
one_less n = ground arith

module _ (label : SizedStr) (v : Value) (o acc acc' : Calls) (d : Dlis)
    (object : d.state.parsing_obj_binn ≡ some o)
    (before : current_list d.state.parsing_obj_values ≡ acc)
    (added : serialize_list_add acc v ≡ ok acc') where
  -- Behind a value that is not the last.
  abbrev kept : Dlis
  kept = with_state d (record (d.state) { parsing_obj_values = some acc' })

  add-kept : (n : ℕ) → d.state.attrib_value_cnt ≡ pos (suc n) → add_attrib_value d label v ≡ ok kept
  unfolding add_attrib_value
  add-kept n more =
      let open_list : leb_ℤ d.state.attrib_value_cnt (pos 0) ≡ false =
        ap (λ z. leb_ℤ z (pos 0)) more ∙ positive n in
      rw (before, added, open_list) refl

  add-gathered :
      d.state.attrib_value_cnt ≡ pos 0 → add_attrib_value d label v ≡ ok (gathered d o label acc')
  unfolding add_attrib_value eflr_set_template_is_last_attr send_object
  add-gathered last = rw (before, added, last, object) refl

counted-IsPlain : (d : Dlis) → IsPlain d → IsPlain (counted d)
unfolding in_set
counted-IsPlain d plain = record {
  no_header = plain.no_header;
  no_channels = plain.no_channels;
  no_frames = plain.no_frames;
}

values-IsPlain :
    (d : Dlis) (values : Option Calls)
    → IsPlain d
    → IsPlain (with_state d (record (d.state) { parsing_obj_values = values }))
unfolding in_set
values-IsPlain d values plain = record {
  no_header = plain.no_header;
  no_channels = plain.no_channels;
  no_frames = plain.no_frames;
}

-- In a set other than FILE-HEADER, CHANNEL and FRAME, with as many values to come as there are in
-- the list, and an object begun: if all values can be serialized behind those in the attribute's
-- list, the calls for one value after the other put the whole list under the attribute's label
-- into the object, leave no values to come and no list, and send the object, which is then gone,
-- if the place in the template is behind its last attribute; else the object is kept and nothing
-- is sent.
pub on_values-gathered :
    (d : Dlis) (label : SizedStr) (o acc list : Calls) (v : Value) (vs : List Value)
    → IsPlain d
    → d.state.attrib_value_cnt ≡ pos (length (v ∷ vs))
    → d.state.parsing_obj_binn ≡ some o
    → current_list d.state.parsing_obj_values ≡ acc
    → values_list acc (v ∷ vs) ≡ ok list
    → on_values d label (v ∷ vs) ≡ ok (gathered d o label list)
unfolding on_values values_list
on_values-gathered d label o acc list v [] plain cnt object before added =
    let (list', one, done) = bind-ok (serialize_list_add acc v) (λ l. ok l) list added in
    let last : d.state.attrib_value_cnt -ℤ pos 1 ≡ pos 0 = ap (λ z. z -ℤ pos 1) cnt ∙ one_less 0 in
    let same : ◌≡◌ {A = Calls} list' list = cc in
    rw
      (
        callback-plain (counted d) label v (counted-IsPlain d plain),
        add-gathered label v o acc list' (counted d) object before one last,
      )
      (ap (λ l. ok (gathered d o label l)) same)
on_values-gathered d label o acc list v (w ∷ vs) plain cnt object before added =
    let (acc', one, rest) =
      bind-ok (serialize_list_add acc v) (λ l. values_list l (w ∷ vs)) list added in
    let more : d.state.attrib_value_cnt -ℤ pos 1 ≡ pos (suc (length vs)) =
      ap (λ z. z -ℤ pos 1) cnt ∙ one_less (suc (length vs)) in
    rw
      (
        callback-plain (counted d) label v (counted-IsPlain d plain),
        add-kept label v o acc acc' (counted d) object before one (length vs) more,
      )
      (on_values-gathered (kept label v o acc acc' (counted d) object before one) label o acc' list
        w vs (values-IsPlain (counted d) (some acc') (counted-IsPlain d plain)) more object refl
        rest)
