-- ===== src/Dlis/Reading.antt =====
-- dlis.cc, do_parse: the file is read in pieces of 4000 bytes; at its end the curve files are closed
-- and the frames are sent. The file is the list of its bytes: `fread` gives the next ones, and fewer
-- than asked for only at the end. The socket is not modelled; `jscall` adds to the events.
pub mod Ends
pub mod Message
use dlis_parser.Base.{
  ℕ, zero, suc, Bool, true, false, Option, none, some, List, [], ◌∷◌, map, get_elem?, take, drop,
  length, ltb,
}
use dlis_parser.Base.Int.{pos}
use dlis_parser.Codec.Value.{Outcome, ok, exit, fault, hang, ◌>>=◌, byte}
use dlis_parser.Codec.Serialize.{
  Calls, new, also, set_int32, set_uint32, set_double, set_str, set_list, add_object, str, Key,
}
use dlis_parser.Dlis.State.{Dlis, Frame, Channel, FileKey, message, send, dlis_init}
use dlis_parser.Dlis.Strings.{c_str}
use dlis_parser.Dlis.Input.{dlis_read}
use dlis_parser.Dlis.Input.Ends.{read_fuel}

abbrev pub read_size : ℕ
read_size = 4000

-- `while (!feof(f))`: a read that gives fewer bytes than asked for has come to the end of the file.
-- `false` stands for a run that has not come to its end.
unfoldable pub read_loop : ℕ → Dlis → List ℕ → Outcome (Bool × Dlis)
unfolding dlis_read
read_loop zero d file = ok (false, d)
read_loop (suc reads) d file = dlis_read read_fuel d (take read_size file) >>= λ (parsed, d').
    elim parsed [
      | false ↦ ok (false, d')
      | true ↦ elim (ltb (length (take read_size file)) read_size) [
        | true ↦ ok (true, d')
        | false ↦ read_loop reads d' (drop read_size file)
      ]
    ]

-- The files of the list of all channels, in the order in which they are closed. A channel whose
-- file is not open has no FILE pointer.
unfoldable pub close_files : ℕ → List Channel → Option ℕ → Outcome (List FileKey)
close_files fuel heap none = ok []
close_files zero heap (some i) = hang
close_files (suc fuel) heap (some i) =
    let rest = λ (c : Channel). close_files fuel heap c.next in
    elim (get_elem? heap i) [
      | none ↦ fault
      | some c ↦ elim (c.fp) [ none ↦ fault | some key ↦ rest c >>= λ keys. ok (key ∷ keys) ]
    ]

-- What is sent of a frame.
unfoldable pub frame_calls : Frame → Calls
unfolding c_str
frame_calls f =
    also
      (also
        (also
          (also
            (also (also new (set_uint32 Key.seq_num f.seq_num)) (set_uint32 Key.origin f.origin))
            (set_uint32 Key.copy_number f.copy_number))
          (set_str Key.name (str (map byte (c_str f.name)))))
        (set_double Key.index_min f.index_min))
      (set_double Key.index_max f.index_max)

-- The loop over the frames.
unfoldable pub list_frames : ℕ → List Frame → Option ℕ → Calls → Outcome Calls
unfolding frame_calls
list_frames fuel heap none list = ok list
list_frames zero heap (some i) list = hang
list_frames (suc fuel) heap (some i) list =
    let rest =
      λ (f : Frame). list_frames fuel heap f.next (also list (add_object (frame_calls f))) in
    elim (get_elem? heap i) [ none ↦ fault | some f ↦ rest f ]

unfoldable pub ended_message : Calls → Calls
ended_message frames = also (also new (set_int32 Key.ended (pos 1))) (set_list Key.frames frames)

-- What follows the loop: the files that were closed, and the state after the last message.
unfoldable pub finish : Dlis → Outcome (List FileKey × Dlis)
unfolding close_files list_frames ended_message
finish d = do
  keys ← close_files (suc (length d.channel_heap)) d.channel_heap d.channels
  frames ← list_frames (suc (length d.frame_heap)) d.frame_heap (some 0) new
  ok (keys, send d (message (some (ended_message frames))))

-- `none` is a file that cannot be opened. Each read takes a byte at least or is the last.
unfoldable pub do_parse : Dlis → Option (List ℕ) → Outcome (Bool × List FileKey × Dlis)
unfolding dlis_init read_loop finish
do_parse d none = exit
do_parse d (some file) = read_loop (suc (length file)) (dlis_init d) file >>= λ (ended, d').
    elim ended [
      | false ↦ ok (false, [], d')
      | true ↦ finish d' >>= λ (keys, d''). ok (true, keys, d'')
    ]
