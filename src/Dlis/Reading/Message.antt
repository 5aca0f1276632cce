-- ===== src/Dlis/Reading/Message.antt =====
-- dlis.cc, do_parse: what is closed and sent at the end of the file.
use dlis_parser.Base.{
  ℕ, zero, suc, ◌≤◌, ◌≡◌, refl, arith, true, Option, none, some, List, [], ◌∷◌, length, get_elem?,
  map,
}
use dlis_parser.Codec.Value.{ok, byte}
use dlis_parser.Base.Int.{pos}
use dlis_parser.Dlis.Strings.{c_str}
use dlis_parser.Codec.Serialize.{
  Calls, Call, Key, str, new, also, add_object, set_uint32, set_str, set_double, set_int32,
  set_list,
}
use dlis_parser.Dlis.State.{Dlis, Frame, Channel, FileKey, message, send, dlis_init}
use dlis_parser.Dlis.Heap.Search.{Frames, at_end, and_then}
use dlis_parser.Dlis.Reading.{
  read_loop, close_files, frame_calls, list_frames, ended_message, finish, do_parse,
}

-- The open files of the channels that are reached from a pointer.
pub data Files (heap : List Channel) : Option ℕ → List FileKey → Type 0 where
  no_more : Files heap none []
  open_one :
      {i : ℕ} {c : Channel} {key : FileKey} {keys : List FileKey}
      → get_elem? heap i ≡ some c
      → c.fp ≡ some key
      → Files heap c.next keys
      → Files heap (some i) (key ∷ keys)

close_files-Files :
    (heap : List Channel) (fuel : ℕ) {p : Option ℕ} {keys : List FileKey}
    → Files heap p keys
    → length keys ≤ fuel
    → close_files fuel heap p ≡ ok keys
unfolding close_files
close_files-Files heap zero no_more enough = refl
close_files-Files heap (suc fuel) no_more enough = refl
close_files-Files heap zero (open_one found file rest) enough = absurd (omega (arith, enough))
close_files-Files heap (suc fuel) (open_one found file rest) enough =
    rw (found, close_files, file, close_files-Files heap fuel rest (omega (arith, enough))) refl

-- The calls of a list, in its order.
unfoldable pub calls : Calls → List Call → Calls
calls list [] = list
calls list (c ∷ cs) = calls (also list c) cs

-- A frame as it is sent: its name with the logical file, and the bounds of its index.
abbrev pub frame_object : ℕ × Frame → Call
frame_object (i, f) = add_object (
    calls new (
      set_uint32 Key.seq_num f.seq_num
      ∷ set_uint32 Key.origin f.origin
      ∷ set_uint32 Key.copy_number f.copy_number
      ∷ set_str Key.name (str (map byte (c_str f.name)))
      ∷ set_double Key.index_min f.index_min
      ∷ set_double Key.index_max f.index_max
      ∷ []))

-- The last message: the sign of the end, and the frames in order.
abbrev pub last_message : List (ℕ × Frame) → Calls
last_message fs =
    calls new
      (set_int32 Key.ended (pos 1) ∷ set_list Key.frames (calls new (map frame_object fs)) ∷ [])

list_frames-Frames :
    (heap : List Frame) (fuel : ℕ) (list : Calls) {p : Option ℕ} {fs : List (ℕ × Frame)}
    → Frames heap p fs
    → length fs ≤ fuel
    → list_frames fuel heap p list ≡ ok (calls list (map frame_object fs))
unfolding list_frames frame_calls calls
list_frames-Frames heap zero list at_end enough = refl
list_frames-Frames heap (suc fuel) list at_end enough = refl
list_frames-Frames heap zero list (and_then found rest) enough = absurd (omega (arith, enough))
list_frames-Frames heap (suc fuel) list (and_then {i = i} {f = f} found rest) enough =
    rw (found, list_frames)
      (list_frames-Frames heap fuel (also list (frame_object (i, f))) rest (omega (arith, enough)))

-- If the loop over the file ends at the end of the file, the channels make up a list that ends,
-- all with open files, and the frames a list that ends, neither longer than its heap, then
-- `do_parse` closes the files in the order of the list and sends as its last message an object
-- with `ended`, 1, and the list `frames`, which has one object for each frame, in the order of
-- the list: its logical file, origin, copy number, name up to the NUL, and the least and greatest
-- index.
pub do_parse-frames :
    (d d' : Dlis) (file : List ℕ) (keys : List FileKey) (fs : List (ℕ × Frame))
    → read_loop (suc (length file)) (dlis_init d) file ≡ ok (true, d')
    → Files d'.channel_heap d'.channels keys
    → length keys ≤ length d'.channel_heap
    → Frames d'.frame_heap (some 0) fs
    → length fs ≤ length d'.frame_heap
    → do_parse d (some file) ≡ ok (true, keys, send d' (message (some (last_message fs))))
unfolding do_parse finish ended_message calls
do_parse-frames d d' file keys fs parsed files few_files frames few_frames =
    rw
      (
        parsed,
        close_files-Files d'.channel_heap (suc (length d'.channel_heap)) files
            (omega (arith, few_files)),
        list_frames-Frames d'.frame_heap (suc (length d'.frame_heap)) new frames
            (omega (arith, few_frames)),
      )
      refl
