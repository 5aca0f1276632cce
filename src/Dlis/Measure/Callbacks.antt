-- ===== src/Dlis/Measure/Callbacks.antt =====
-- dlis.cc: the callbacks do not touch the input.
use dlis_parser.Base.{Bool, true, false, ◌&&◌, if◌then◌else◌, ℕ, ◌≡◌, refl, arith, ◌∙◌, length}
use dlis_parser.Codec.Memory.{SizedStr}
use dlis_parser.Codec.Text.{Obname}
use dlis_parser.Codec.Value.{Outcome, ok, exit, fault, hang, ◌>>=◌, NameVal, Value}
use dlis_parser.Codec.Serialize.{as_obname}
use dlis_parser.Dlis.State.{Dlis, Frame}
use dlis_parser.Dlis.Strings.{sized_str_cmp}
use dlis_parser.Dlis.Heap.{
  new_frame, new_channel, append_channel, alloc_channel, open_file, link_channel, frame_channel,
}
use dlis_parser.Dlis.Events.{
  name_val, file_header_set, channel_set, sequence_number_label, channels_label, in_set, labelled,
  flush_object, on_eflr_component_object, on_eflr_component_attrib, on_iflr_header, on_iflr_data,
}
use dlis_parser.Dlis.Events.Values.{
  sequence_number, channel_attrib, add_attrib_value, on_eflr_component_attrib_value,
}
use dlis_parser.Dlis.Eflr.{frame_set}
use dlis_parser.Dlis.Measure.{Keeps, input}

-- What is done first decides nothing if what follows keeps the input.
pub Keeps-bind :
    {A : Type 0} (d : Dlis) (r : Outcome A) (k : A → Outcome Dlis)
    → ((a : A) → Keeps d (k a))
    → Keeps d (r >>= k)
Keeps-bind d (ok a) k each = each a
Keeps-bind d exit k each = tt
Keeps-bind d fault k each = tt
Keeps-bind d hang k each = tt

pub Keeps-then :
    (d : Dlis) (r : Outcome Dlis) (k : Dlis → Outcome Dlis)
    → Keeps d r
    → ((d' : Dlis) → Keeps d' (k d'))
    → Keeps d (r >>= k)
Keeps-then d (ok d') k first each = Keeps-trans d d' (k d') first (each d')
  where
    Keeps-trans : (d d' : Dlis) (r : Outcome Dlis) → input d' ≡ input d → Keeps d' r → Keeps d r
    Keeps-trans d d' (ok e) first rest = rest ∙ first
    Keeps-trans d d' exit first rest = tt
    Keeps-trans d d' fault first rest = tt
    Keeps-trans d d' hang first rest = tt
Keeps-then d exit k first each = tt
Keeps-then d fault k first each = tt
Keeps-then d hang k first each = tt

pub if-Keeps :
    (d : Dlis) (t : Bool) (r : Outcome Dlis) → Keeps d r → Keeps d (if t then r else ok d)
if-Keeps d true r first = first
if-Keeps d false r first = refl

new_frame-Keeps : (d : Dlis) (o : NameVal) → Keeps d (new_frame d o)
unfolding new_frame
new_frame-Keeps d o = ground arith

append_channel-input : (d : Dlis) (j : ℕ) → input (append_channel d j) ≡ input d
unfolding append_channel
append_channel-input d j = ground arith

open_file-input : (o : NameVal) (d : Dlis) → input (open_file o d) ≡ input d
unfolding open_file
open_file-input o d = ground arith

alloc_channel-input : (d : Dlis) (o : NameVal) → input (alloc_channel d o) ≡ input d
unfolding alloc_channel
alloc_channel-input d o = refl

opened-input : (o : NameVal) (d : Dlis) (j : ℕ) → input (open_file o (append_channel d j)) ≡ input d
opened-input o d j = open_file-input o (append_channel d j) ∙ append_channel-input d j

new_channel-Keeps : (d : Dlis) (o : NameVal) → Keeps d (new_channel d o)
unfolding new_channel
new_channel-Keeps d o = ground (
  arith,
  opened-input o d (length d.channel_heap),
  opened-input o (alloc_channel d o) (length d.channel_heap),
  alloc_channel-input d o,
)

link_channel-Keeps : (d : Dlis) (i : ℕ) (f : Frame) (j : ℕ) → Keeps d (link_channel d i f j)
unfolding link_channel
link_channel-Keeps d i f j = ground arith

frame_channel-Keeps : (d : Dlis) (o : NameVal) → Keeps d (frame_channel d o)
unfolding frame_channel link_channel
frame_channel-Keeps d o = ground arith

flush_object-input : (d : Dlis) → input (flush_object d) ≡ input d
unfolding flush_object
flush_object-input d = ground arith

pub on_eflr_component_attrib-input : (d : Dlis) → input (on_eflr_component_attrib d) ≡ input d
unfolding on_eflr_component_attrib
on_eflr_component_attrib-input d = ground arith

sequence_number-Keeps : (d : Dlis) (v : Value) → Keeps d (sequence_number d v)
unfolding sequence_number
sequence_number-Keeps d v = ground arith

channel_attrib-Keeps : (d : Dlis) (l : SizedStr) (v : Value) → Keeps d (channel_attrib d l v)
unfolding channel_attrib
channel_attrib-Keeps d l v = ground arith

add_attrib_value-Keeps : (d : Dlis) (l : SizedStr) (v : Value) → Keeps d (add_attrib_value d l v)
unfolding add_attrib_value
add_attrib_value-Keeps d l v = ground arith

pub on_eflr_component_object-Keeps :
    (d : Dlis) (o : Obname) → Keeps d (on_eflr_component_object d o)
unfolding on_eflr_component_object
on_eflr_component_object-Keeps d o =
    Keeps-then d (if in_set d frame_set then new_frame d (name_val d o) else ok d) _
      (if-Keeps d (in_set d frame_set) (new_frame d (name_val d o)) (new_frame-Keeps d _))
      (λ d₁.
        Keeps-then d₁ (if in_set d₁ channel_set then new_channel d₁ (name_val d₁ o) else ok d₁) _
          (if-Keeps d₁ (in_set d₁ channel_set) (new_channel d₁ (name_val d₁ o))
            (new_channel-Keeps d₁ _))
          (λ d₂. flush_object-input d₂))

pub on_eflr_component_attrib_value-Keeps :
    (d : Dlis) (l : SizedStr) (v : Value) → Keeps d (on_eflr_component_attrib_value d l v)
unfolding on_eflr_component_attrib_value
on_eflr_component_attrib_value-Keeps d l v =
    Keeps-then d _ _
      (if-Keeps d (in_set d file_header_set && sized_str_cmp d.buffer l sequence_number_label)
        (sequence_number d v) (sequence_number-Keeps d v))
      (λ d₁.
        Keeps-then d₁ _ _
          (if-Keeps d₁ (in_set d₁ channel_set) (channel_attrib d₁ l v)
            (channel_attrib-Keeps d₁ l v))
          (λ d₂.
            Keeps-then d₂ _ _
              (if-Keeps d₂ (in_set d₂ frame_set && labelled d₂ l channels_label)
                (as_obname (v.u) >>= frame_channel d₂)
                (Keeps-bind d₂ (as_obname (v.u)) (frame_channel d₂) (frame_channel-Keeps d₂)))
              (λ d₃. add_attrib_value-Keeps d₃ l v)))

pub on_iflr_header-Keeps : (d : Dlis) (o : Obname) → Keeps d (on_iflr_header d o)
unfolding on_iflr_header
on_iflr_header-Keeps d o = ground arith

pub on_iflr_data-Keeps : (d : Dlis) → Keeps d (on_iflr_data d)
unfolding on_iflr_data
on_iflr_data-Keeps d = ground arith
