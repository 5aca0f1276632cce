-- ===== src/Dlis/Sound/Callbacks.antt =====
-- dlis.cc: the callbacks leave every pointer on an object.
use dlis_parser.Base.{
  ℕ, suc, ◌<◌, ◌≡◌, refl, sym, arith, List, length, Option, none, some, if◌then◌else◌, Bool, ◌==◌,
  ◌&&◌, ltb, take,
}
use mathlib.Core.Path.{subst}
use dlis_parser.Codec.Memory.{SizedStr}
use dlis_parser.Codec.Text.{Obname}
use dlis_parser.Codec.Value.{Outcome, ok, exit, fault, hang, ◌>>=◌, Value}
use dlis_parser.Codec.Serialize.{as_str, as_uint, as_obname}
use dlis_parser.Dlis.State.{Frame, Channel, Dlis, with_state}
use dlis_parser.Dlis.Strings.{c_str, sized_str_cmp, frame_obname_cmp}
use dlis_parser.Dlis.Iflr.{eod, deref}
use dlis_parser.Dlis.Eflr.{frame_set}
use dlis_parser.Dlis.Heap.{
  update_channel, find_frame, last_frame, new_frame, new_channel, frame_channel,
}
use dlis_parser.Dlis.Events.{
  name_val, in_set, labelled, file_header_set, channel_set, sequence_number_label, dimension_label,
  representation_code_label, channels_label, flush_object, on_eflr_component_object,
  on_eflr_component_attrib, on_iflr_header, on_iflr_data,
}
use dlis_parser.Dlis.Events.Values.{
  atoi, sequence_number, channel_attrib, add_attrib_value, on_eflr_component_attrib_value,
}
use dlis_parser.Dlis.Sound.{Points, Linked, IsLinked}
use dlis_parser.Dlis.Sound.Each.{Each, bind-Each, then-Each, if-Each}
use dlis_parser.Dlis.Sound.Search.{find_frame-Points, last_frame-Points}
use dlis_parser.Dlis.Sound.Heap.{update_frame-IsLinked, update_channel-IsLinked}
use dlis_parser.Dlis.Sound.Objects.{
  new_frame-IsLinked, new_channel-IsLinked, frame_channel-IsLinked,
}

-- The objects and the pointers to them.
abbrev pub objects : Dlis → List Frame × List Channel × Option ℕ × Option ℕ × Option ℕ
objects d = (d.frame_heap, d.channel_heap, d.current_frame, d.channels, d.current_channel)

pub objects-IsLinked : (d d' : Dlis) → objects d' ≡ objects d → IsLinked d → IsLinked d'
objects-IsLinked d d' e l = subst (λ o. Linked o.0 o.1 o.2 o.3 o.4) (sym e) l

flush_objects : (d : Dlis) → objects (flush_object d) ≡ objects d
unfolding flush_object
flush_objects d = ground arith

pub attrib_objects : (d : Dlis) → objects (on_eflr_component_attrib d) ≡ objects d
unfolding on_eflr_component_attrib
attrib_objects d = ground arith

-- A frame's new current one, and a search that finds one.
current-IsLinked :
    (d : Dlis) (p : Option ℕ)
    → Points (length d.frame_heap) p
    → IsLinked d
    → IsLinked (record d { current_frame = p })
current-IsLinked d p inside l = record {
  some_frame = l.some_frame;
  frames_point = l.frames_point;
  channels_point = l.channels_point;
  frame_points = inside;
  first_points = l.first_points;
  last_points = l.last_points;
}

pub sequence_number-IsLinked :
    (d : Dlis) (v : Value) → IsLinked d → Each IsLinked (sequence_number d v)
unfolding sequence_number
sequence_number-IsLinked d v l = bind-Each IsLinked (as_str (v.u)) _ (λ s _.
    if-Each IsLinked (ltb (length s) 10 && (length (c_str s) == length s)) fault _ tt (
      if-Each IsLinked (ltb 1 (atoi (c_str (take 10 s)))) _ _
        (then-Each (λ j. j < length d.frame_heap) IsLinked
          (last_frame (suc (length d.frame_heap)) d.frame_heap 0) _
          (last_frame-Points (suc (length d.frame_heap)) d.frame_heap 0)
          (λ i inside.
            current-IsLinked
              (with_state d (record (d.state) { seq_num = atoi (c_str (take 10 s)) })) (some i)
              inside l))
        l))

channel_field :
    (d : Dlis) (i : ℕ) (g : Channel → Channel)
    → IsLinked d
    → ((c : Channel) → ((g c).next ≡ c.next) × ((g c).f_next ≡ c.f_next))
    → IsLinked (update_channel d i g)
channel_field d i g l same = update_channel-IsLinked d i g l (λ c p.
    let (next, f_next) = same c in
    record { behind = rw next p.behind; in_frame = rw f_next p.in_frame })

pub channel_attrib-IsLinked :
    (d : Dlis) (label : SizedStr) (v : Value)
    → IsLinked d
    → Each IsLinked (channel_attrib d label v)
unfolding channel_attrib
channel_attrib-IsLinked d label v l =
    if-Each IsLinked (labelled d label dimension_label) _ _
      (bind-Each IsLinked (deref d.channel_heap d.current_channel) _ (λ (i, c) _.
        bind-Each IsLinked (as_uint (v.u)) _ (λ n _. channel_field d i _ l (λ c. (refl, refl)))))
      (if-Each IsLinked (labelled d label representation_code_label) _ _
        (bind-Each IsLinked (deref d.channel_heap d.current_channel) _ (λ (i, c) _.
          bind-Each IsLinked (as_uint (v.u)) _ (λ n _. channel_field d i _ l (λ c. (refl, refl)))))
        l)

add_objects :
    (d : Dlis) (label : SizedStr) (v : Value)
    → Each (λ d'. objects d' ≡ objects d) (add_attrib_value d label v)
unfolding add_attrib_value
add_objects d label v = ground arith

pub same-IsLinked :
    (d : Dlis) (r : Outcome Dlis)
    → Each (λ d'. objects d' ≡ objects d) r
    → IsLinked d
    → Each IsLinked r
same-IsLinked d (ok d') same l = objects-IsLinked d d' same l
same-IsLinked d exit same l = tt
same-IsLinked d fault same l = tt
same-IsLinked d hang same l = tt

when-IsLinked :
    (d : Dlis) (t : Bool) (r : Outcome Dlis)
    → Each IsLinked r
    → IsLinked d
    → Each IsLinked (if t then r else ok d)
when-IsLinked d t r each l = if-Each IsLinked t r (ok d) each l

pub on_eflr_component_object-IsLinked :
    (d : Dlis) (o : Obname) → IsLinked d → Each IsLinked (on_eflr_component_object d o)
unfolding on_eflr_component_object
on_eflr_component_object-IsLinked d o l =
    then-Each IsLinked IsLinked (if in_set d frame_set then new_frame d (name_val d o) else ok d) _
      (when-IsLinked d (in_set d frame_set) _ (new_frame-IsLinked d l (name_val d o)) l)
      (λ d₁ l₁.
        then-Each IsLinked IsLinked
          (if in_set d₁ channel_set then new_channel d₁ (name_val d₁ o) else ok d₁) _
          (when-IsLinked d₁ (in_set d₁ channel_set) _ (new_channel-IsLinked d₁ l₁ (name_val d₁ o))
            l₁)
          (λ d₂ l₂. objects-IsLinked d₂ (flush_object d₂) (flush_objects d₂) l₂))

pub on_eflr_component_attrib_value-IsLinked :
    (d : Dlis) (label : SizedStr) (v : Value)
    → IsLinked d
    → Each IsLinked (on_eflr_component_attrib_value d label v)
unfolding on_eflr_component_attrib_value
on_eflr_component_attrib_value-IsLinked d label v l =
    then-Each IsLinked IsLinked
      (if in_set d file_header_set && sized_str_cmp d.buffer label sequence_number_label
        then sequence_number d v
        else ok d)
      _ (when-IsLinked d _ (sequence_number d v) (sequence_number-IsLinked d v l) l)
      (λ d₁ l₁.
        then-Each IsLinked IsLinked
          (if in_set d₁ channel_set then channel_attrib d₁ label v else ok d₁) _
          (when-IsLinked d₁ _ (channel_attrib d₁ label v) (channel_attrib-IsLinked d₁ label v l₁)
            l₁)
          (λ d₂ l₂.
            then-Each IsLinked IsLinked
              (if in_set d₂ frame_set && labelled d₂ label channels_label
                then (as_obname (v.u) >>= frame_channel d₂)
                else ok d₂)
              _
              (when-IsLinked d₂ _ _
                (bind-Each IsLinked (as_obname (v.u)) (frame_channel d₂)
                  (λ o _. frame_channel-IsLinked d₂ l₂ o))
                l₂)
              (λ d₃ l₃. same-IsLinked d₃ _ (add_objects d₃ label v) l₃)))

pub on_iflr_header-IsLinked :
    (d : Dlis) (o : Obname) → IsLinked d → Each IsLinked (on_iflr_header d o)
unfolding on_iflr_header
on_iflr_header-IsLinked d o l =
    if-Each IsLinked (d.state.lrs_type == eod) _ _ (current-IsLinked d none tt l) (
      then-Each (Points (length d.frame_heap)) IsLinked
        (find_frame
          (λ f. (f.seq_num == d.state.seq_num) && frame_obname_cmp d.state.seq_num f (name_val d o))
          (suc (length d.frame_heap)) d.frame_heap (some 0))
        _
        (find_frame-Points
          (λ f. (f.seq_num == d.state.seq_num) && frame_obname_cmp d.state.seq_num f (name_val d o))
          (suc (length d.frame_heap)) d.frame_heap (some 0))
        (elim [
          | none ↦ λ _. tt
          | some i ↦ λ inside.
              update_frame-IsLinked (record d { current_frame = some i }) i
                (λ f. record f { current_channel = f.channels })
                (current-IsLinked d (some i) inside l)
                (λ f p. record { first = p.first; last = p.first; behind = p.behind })
        ]))

data_objects : (d : Dlis) → Each (λ d'. objects d' ≡ objects d) (on_iflr_data d)
unfolding on_iflr_data
data_objects d = ground arith

pub on_iflr_data-IsLinked : (d : Dlis) → IsLinked d → Each IsLinked (on_iflr_data d)
on_iflr_data-IsLinked d l = same-IsLinked d (on_iflr_data d) (data_objects d) l
