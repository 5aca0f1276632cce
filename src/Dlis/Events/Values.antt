-- ===== src/Dlis/Events/Values.antt =====
-- dlis.cc: the callback on the values of an attribute.
pub mod Gathered
use dlis_parser.Base.{
  ℕ, suc, ◌+◌, ◌-◌, ◌*◌, ◌%◌, ◌^◌, ◌&&◌, none, some, List, [], ◌∷◌, take, length, ltb, ◌==◌,
  if◌then◌else◌,
}
use dlis_parser.Base.Int.{ℤ, pos, negsuc, leb_ℤ}
use dlis_parser.Codec.Memory.{SizedStr, text}
use dlis_parser.Codec.Text.{drop_spaces, is_digit}
use dlis_parser.Codec.Value.{Outcome, ok, fault, ◌>>=◌, Value}
use dlis_parser.Codec.Serialize.{
  new, also, set_object, int32, serialize_list_add, as_uint, as_str, as_obname, Key,
}
use dlis_parser.Dlis.State.{Dlis, with_state}
use dlis_parser.Dlis.Template.{eflr_set_template_is_last_attr}
use dlis_parser.Dlis.Strings.{c_str, sized_str_cmp}
use dlis_parser.Dlis.Eflr.{frame_set}
use dlis_parser.Dlis.Iflr.{deref}
use dlis_parser.Dlis.Heap.{update_channel, last_frame, frame_channel}
use dlis_parser.Dlis.Events.{
  channel_set, file_header_set, sequence_number_label, dimension_label, representation_code_label,
  channels_label, in_set, labelled, send_object,
}

-- atoi: spaces, a sign and digits.
unfoldable pub digits_value : ℕ → List ℕ → ℕ
unfolding is_digit
digits_value acc [] = acc
digits_value acc (c ∷ cs) =
    let rest = digits_value (acc * 10 + (c - b'0')) cs in if is_digit c then rest else acc

-- The result as an unsigned int.
unfoldable pub signed_value : List ℕ → ℕ
unfolding digits_value
signed_value [] = 0
signed_value (c ∷ cs) =
    if c == b'-'
    then (2 ^ 32 - digits_value 0 cs % 2 ^ 32) % 2 ^ 32
    else if c == b'+'
    then digits_value 0 cs % 2 ^ 32
    else digits_value 0 (c ∷ cs) % 2 ^ 32

unfoldable pub atoi : List ℕ → ℕ
unfolding signed_value drop_spaces
atoi s = signed_value (drop_spaces s)

-- Ten characters of the text are read, or those in front of a NUL, whatever its length: what lies
-- behind a shorter text without NUL is not known.
unfoldable pub sequence_number : Dlis → Value → Outcome Dlis
unfolding as_str atoi c_str last_frame
sequence_number d val = do
  s ← as_str (val.u)
  if ltb (length s) 10 && (length (c_str s) == length s)
      then fault
      else (let n = atoi (c_str (take 10 s)) in
          let d' = with_state d (record (d.state) { seq_num = n }) in
          if ltb 1 n
          then (last_frame (suc (length d.frame_heap)) d.frame_heap 0 >>= λ i.
              ok (record d' { current_frame = some i }))
          else ok d')

-- (unsigned)z of an int
abbrev pub unsigned : ℤ → ℕ
unsigned (pos n) = n
unsigned (negsuc n) = 2 ^ 32 - suc n

-- The dimension is multiplied as an unsigned int, and the code converted from one.
unfoldable pub channel_attrib : Dlis → SizedStr → Value → Outcome Dlis
unfolding labelled deref as_uint
channel_attrib d label val =
    if labelled d label dimension_label
    then (do
      (i, c) ← deref d.channel_heap d.current_channel
      v ← as_uint (val.u)
      ok (
          update_channel d i
            (λ c. record c { dimension = int32 (unsigned c.dimension * v % 2 ^ 32) })))
    else (if labelled d label representation_code_label
        then (do
          (i, c) ← deref d.channel_heap d.current_channel
          v ← as_uint (val.u)
          ok (update_channel d i (λ c. record c { repcode = int32 v })))
        else ok d)

-- The value joins the list of the attribute; with the last value the list joins the object, and
-- with the last attribute the object goes out.
unfoldable pub add_attrib_value : Dlis → SizedStr → Value → Outcome Dlis
unfolding send_object
add_attrib_value d label val =
    serialize_list_add (elim (d.state.parsing_obj_values) [ none ↦ new | some l ↦ l ]) val
    >>= λ list. ok (
        if leb_ℤ d.state.attrib_value_cnt (pos 0)
        then (let d' = with_state d (record (d.state) {
          parsing_obj_binn = elim (d.state.parsing_obj_binn) [
            | none ↦ none
            | some o ↦ some (also o (set_object (Key.label (text d.buffer label)) list))
          ];
          parsing_obj_values = none;
        }) in
            if eflr_set_template_is_last_attr d.state then send_object d' else d')
        else with_state d (record (d.state) { parsing_obj_values = some list }))

unfoldable pub on_eflr_component_attrib_value : Dlis → SizedStr → Value → Outcome Dlis
unfolding in_set labelled sequence_number channel_attrib add_attrib_value as_obname sized_str_cmp
on_eflr_component_attrib_value d label val = do
  d₁ ←
      if in_set d file_header_set && sized_str_cmp d.buffer label sequence_number_label
      then sequence_number d val
      else ok d
  d₂ ← if in_set d₁ channel_set then channel_attrib d₁ label val else ok d₁
  d₃ ←
      if in_set d₂ frame_set && labelled d₂ label channels_label
      then (as_obname (val.u) >>= frame_channel d₂)
      else ok d₂
  add_attrib_value d₃ label val
