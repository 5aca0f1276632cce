-- ===== src/Dlis/Events.antt =====
-- dlis.cc: the callbacks that `dlis_init` installs. What they send and write is added to the events,
-- newest first. The callbacks that only print have no counterpart.
pub mod Values
use dlis_parser.Base.{
  ℕ, suc, ◌-◌, Bool, not, ◌&&◌, none, some, List, [], ◌∷◌, map, length, ◌==◌, if◌then◌else◌,
}
use dlis_parser.Base.Int.{pos}
use dlis_parser.Codec.Memory.{bytes, SizedStr, text}
use dlis_parser.Codec.Text.{Obname}
use dlis_parser.Codec.Value.{Outcome, ok, exit, fault, ◌>>=◌, byte, NameVal}
use dlis_parser.Codec.Serialize.{
  Calls, new, also, set_int32, set_path, int32, serialize_sized_str, Key,
}
use dlis_parser.Dlis.State.{Dlis, message, curve_line, send, with_state}
use dlis_parser.Dlis.Flags.{eflr_comp_attr_has_value}
use dlis_parser.Dlis.Template.{eflr_set_template_is_last_attr}
use dlis_parser.Dlis.Strings.{same_prefix, strcmp_eq, strncmp_eq, c_str, frame_obname_cmp}
use dlis_parser.Dlis.Eflr.{frame_set}
use dlis_parser.Dlis.Iflr.{deref, eod}
use dlis_parser.Dlis.Heap.{update_frame, find_frame, new_frame, new_channel}

abbrev pub channel_set : List ℕ
channel_set = b'C' ∷ b'H' ∷ b'A' ∷ b'N' ∷ b'N' ∷ b'E' ∷ b'L' ∷ []

abbrev pub file_header_set : List ℕ
file_header_set = b'F' ∷ b'I' ∷ b'L' ∷ b'E' ∷ b'-' ∷ b'H' ∷ b'E' ∷ b'A' ∷ b'D' ∷ b'E' ∷ b'R' ∷ []

abbrev pub sequence_number_label : List ℕ
sequence_number_label =
    b'S' ∷ b'E' ∷ b'Q' ∷ b'U' ∷ b'E' ∷ b'N' ∷ b'C' ∷ b'E' ∷ b'-' ∷ b'N' ∷ b'U' ∷ b'M' ∷ b'B' ∷ b'E'
    ∷ b'R' ∷ []

abbrev pub dimension_label : List ℕ
dimension_label = b'D' ∷ b'I' ∷ b'M' ∷ b'E' ∷ b'N' ∷ b'S' ∷ b'I' ∷ b'O' ∷ b'N' ∷ []

abbrev pub representation_code_label : List ℕ
representation_code_label =
    b'R' ∷ b'E' ∷ b'P' ∷ b'R' ∷ b'E' ∷ b'S' ∷ b'E' ∷ b'N' ∷ b'T' ∷ b'A' ∷ b'T' ∷ b'I' ∷ b'O' ∷ b'N'
    ∷ b'-' ∷ b'C' ∷ b'O' ∷ b'D' ∷ b'E' ∷ []

abbrev pub channels_label : List ℕ
channels_label = b'C' ∷ b'H' ∷ b'A' ∷ b'N' ∷ b'N' ∷ b'E' ∷ b'L' ∷ b'S' ∷ []

-- The test of the current set against a set name.
unfoldable pub in_set : Dlis → List ℕ → Bool
unfolding strcmp_eq
in_set d name = strcmp_eq d.state.parsing_set_type name

-- The label compared as far as the constant goes, even past the label's own end.
unfoldable pub labelled : Dlis → SizedStr → List ℕ → Bool
unfolding same_prefix
labelled d label name = strncmp_eq (bytes d.buffer label.buff (length name)) name (length name)

abbrev pub name_val : Dlis → Obname → NameVal
name_val d o = record {
  origin = o.origin;
  copy_number = o.copy_number;
  name = text d.buffer o.name;
}

unfoldable pub on_eflr_component_set : Dlis → SizedStr → SizedStr → Dlis
unfolding serialize_sized_str
on_eflr_component_set d type name =
    let str = λ (s : SizedStr). map byte (text d.buffer s) in
    send d (
      message (
        some (
          also
            (serialize_sized_str (serialize_sized_str new Key.type (str type)) Key.name (str name))
            (set_int32 Key.sending_data_type (pos 0)))))

-- The object that has not been sent goes out.
unfoldable pub flush_object : Dlis → Dlis
flush_object d = elim (d.state.parsing_obj_binn) [
  | none ↦ d
  | some o ↦ with_state (send d (message (some o))) (record (d.state) { parsing_obj_binn = none })
]

-- The new object: its place in the file and its name, and the path of its curve if the name of the
-- set is a beginning of CHANNEL.
unfoldable pub object_calls : Dlis → NameVal → Calls
unfolding serialize_sized_str c_str same_prefix
object_calls d o =
    let set_type = c_str d.state.parsing_set_type in
    let named =
      serialize_sized_str
        (also
          (also
            (also (also new (set_int32 Key.sending_data_type (pos 1)))
              (set_int32 Key.seq_num (int32 d.state.seq_num)))
            (set_int32 Key.origin (int32 o.origin)))
          (set_int32 Key.copy_number (int32 o.copy_number)))
        Key.name (map byte o.name) in
    if strncmp_eq set_type channel_set (length set_type)
    then also named (set_path Key.path)
    else named

unfoldable pub on_eflr_component_object : Dlis → Obname → Outcome Dlis
unfolding in_set flush_object object_calls
on_eflr_component_object d obname = do
  d₁ ← if in_set d frame_set then new_frame d (name_val d obname) else ok d
  d₂ ← if in_set d₁ channel_set then new_channel d₁ (name_val d₁ obname) else ok d₁
  let d₃ = flush_object d₂
  ok (
      with_state d₃
        (record (d₃.state) { parsing_obj_binn = some (object_calls d₃ (name_val d₃ obname)) }))

-- The object goes out, also as NULL, and is freed.
unfoldable pub send_object : Dlis → Dlis
send_object d =
    with_state (send d (message d.state.parsing_obj_binn))
      (record (d.state) { parsing_obj_binn = none })

unfoldable pub on_eflr_component_attrib : Dlis → Dlis
unfolding send_object
on_eflr_component_attrib d =
    if not (eflr_comp_attr_has_value d.state) && eflr_set_template_is_last_attr d.state
    then send_object d
    else d

-- The frame of that name becomes the current one and starts at its first channel; there must be one.
unfoldable pub on_iflr_header : Dlis → Obname → Outcome Dlis
unfolding find_frame
on_iflr_header d obname =
    if d.state.lrs_type == eod
    then ok (record d { current_frame = none })
    else (find_frame
          (λ f.
            (f.seq_num == d.state.seq_num)
            && frame_obname_cmp d.state.seq_num f (name_val d obname))
          (suc (length d.frame_heap)) d.frame_heap (some 0)
        >>= λ found. elim found [
          | none ↦ exit
          | some i ↦ ok (
              update_frame (record d { current_frame = some i }) i
                (λ f. record f { current_channel = f.channels }))
        ])

-- A line of the channel's file; a channel whose file is not open has no FILE pointer.
unfoldable pub on_iflr_data : Dlis → Outcome Dlis
unfolding deref
on_iflr_data d = do
  (i, f) ← deref d.frame_heap d.current_frame
  (j, c) ← deref d.channel_heap f.current_channel
  elim (c.fp) [
    | none ↦ fault
    | some key ↦ ok (
        with_state (send d (curve_line key d.state.parsing_frame_index d.state.parsing_iflr_values))
          (record (d.state) { parsing_iflr_values = none }))
  ]
