-- ===== src/Dlis/Heap.antt =====
-- dlis.cc: the frames and channels as linked objects. A pointer is a position in a heap; allocation
-- puts the new object at its end.
pub mod Search
pub mod Chain
pub mod Pass
pub mod Cycle
pub mod Endless
use dlis_parser.Base.{
  ℕ, zero, suc, ◌+◌, Bool, Option, none, some, List, [], ◌∷◌, ◌++◌, get_elem?, set, length, ltb,
  ◌==◌, ◌&&◌, if◌then◌else◌,
}
use dlis_parser.Codec.Value.{Outcome, ok, fault, hang, ◌>>=◌, NameVal}
use dlis_parser.Dlis.State.{Channel, Frame, Dlis, FileKey, frame_init, channel_init}
use dlis_parser.Dlis.Strings.{channel_obname_cmp}
use dlis_parser.Dlis.Iflr.{deref}

-- A name goes into a `char name[100]` and must leave room for a NUL, which the comparisons look for.
abbrev pub name_fits : List ℕ → Bool
name_fits s = ltb (length s) 100

abbrev pub update_frame : Dlis → ℕ → (Frame → Frame) → Dlis
update_frame d i f = elim (get_elem? d.frame_heap i) [
  | none ↦ d
  | some a ↦ record d { frame_heap = set d.frame_heap i (f a) }
]

abbrev pub update_channel : Dlis → ℕ → (Channel → Channel) → Dlis
update_channel d i f = elim (get_elem? d.channel_heap i) [
  | none ↦ d
  | some a ↦ record d { channel_heap = set d.channel_heap i (f a) }
]

-- `while (p != NULL) { if (test) break; p = p->next; }` over the channels: the pointer at the end.
-- A list that runs longer than the heap is a cycle, on which the program does not return: `hang`.
unfoldable pub find_channel :
    (Channel → Option ℕ) → (Channel → Bool) → ℕ → List Channel → Option ℕ → Outcome (Option ℕ)
find_channel next test fuel heap none = ok none
find_channel next test zero heap (some i) = hang
find_channel next test (suc fuel) heap (some i) =
    let rest = λ (c : Channel). find_channel next test fuel heap (next c) in
    elim (get_elem? heap i) [ none ↦ fault | some c ↦ if test c then ok (some i) else rest c ]

unfoldable pub find_frame : (Frame → Bool) → ℕ → List Frame → Option ℕ → Outcome (Option ℕ)
find_frame test fuel heap none = ok none
find_frame test zero heap (some i) = hang
find_frame test (suc fuel) heap (some i) =
    let rest = λ (f : Frame). find_frame test fuel heap f.next in
    elim (get_elem? heap i) [ none ↦ fault | some f ↦ if test f then ok (some i) else rest f ]

-- The last frame of the list that starts at `i`.
unfoldable pub last_frame : ℕ → List Frame → ℕ → Outcome ℕ
last_frame zero heap i = hang
last_frame (suc fuel) heap i =
    let rest = λ (j : ℕ). last_frame fuel heap j in
    elim (get_elem? heap i) [
      | none ↦ fault
      | some f ↦ elim (f.next) [ none ↦ ok i | some j ↦ rest j ]
    ]

-- The channel of that name in the lists of the frames, from `frame` on.
unfoldable pub find_in_frames :
    (Channel → Bool) → ℕ → List Frame → List Channel → Option ℕ → Outcome (Option ℕ)
unfolding find_channel
find_in_frames test fuel frames heap none = ok none
find_in_frames test zero frames heap (some i) = hang
find_in_frames test (suc fuel) frames heap (some i) =
    let rest = λ (f : Frame). find_in_frames test fuel frames heap f.next in
    elim (get_elem? frames i) [
      | none ↦ fault
      | some f ↦ find_channel (λ c. c.f_next) test (suc (length heap)) heap f.channels >>= λ found.
          elim found [ some j ↦ ok (some j) | none ↦ rest f ]
    ]

-- A FRAME object: the frame that the struct holds if there is no current frame, and otherwise a new
-- one behind the current frame.
unfoldable pub new_frame : Dlis → NameVal → Outcome Dlis
unfolding frame_init
new_frame d obn =
    let frame = record frame_init {
      seq_num = d.state.seq_num;
      origin = obn.origin;
      copy_number = obn.copy_number;
      name = obn.name;
    } in
    if name_fits obn.name
    then (elim (d.current_frame) [
      | none ↦ ok (record d { current_frame = some 0; frame_heap = set d.frame_heap 0 frame })
      | some i ↦
          (let at = length d.frame_heap in
            let linked = update_frame d i (λ f. record f { next = some at }) in
            ok (record linked {
              current_frame = some at;
              frame_heap = linked.frame_heap ++ (frame ∷ []);
            }))
    ])
    else fault

-- The channel j becomes the last of the list of all channels.
unfoldable pub append_channel : Dlis → ℕ → Dlis
append_channel d j = elim (d.current_channel) [
  | none ↦ record d { channels = some j; current_channel = some j }
  | some i ↦ record (update_channel d i (λ c. record c { next = some j })) {
    current_channel = some j;
  }
]

unfoldable pub named_channel : ℕ → NameVal → Channel
unfolding channel_init
named_channel seq_num obn = record channel_init {
  seq_num = seq_num;
  origin = obn.origin;
  copy_number = obn.copy_number;
  name = obn.name;
}

abbrev pub file_key : ℕ → NameVal → FileKey
file_key seq_num obn = record {
  seq_num = seq_num;
  origin = obn.origin;
  copy_number = obn.copy_number;
  name = obn.name;
}

-- The file of the last channel is opened for writing; that `fopen` succeeds is taken for granted.
unfoldable pub open_file : NameVal → Dlis → Dlis
open_file obn d = elim (d.current_channel) [
  | none ↦ d
  | some i ↦ update_channel d i (λ c. record c { fp = some (file_key d.state.seq_num obn) })
]

unfoldable pub alloc_channel : Dlis → NameVal → Dlis
unfolding named_channel
alloc_channel d obn = record d {
  channel_heap = d.channel_heap ++ (named_channel d.state.seq_num obn ∷ []);
}

-- A CHANNEL object: the channel that a frame has named already, or a new one. Its file is opened.
unfoldable pub new_channel : Dlis → NameVal → Outcome Dlis
unfolding append_channel alloc_channel open_file
new_channel d obn =
    find_in_frames (λ c. channel_obname_cmp d.state.seq_num c obn) (suc (length d.frame_heap))
      d.frame_heap d.channel_heap (some 0)
    >>= λ found. elim found [
      | some j ↦ ok (open_file obn (append_channel d j))
      | none ↦
          if name_fits obn.name
          then ok (open_file obn (append_channel (alloc_channel d obn) (length d.channel_heap)))
          else fault
    ]

-- The channel j becomes the last of the frame i, whose last one was `at`.
unfoldable pub link_channel : Dlis → ℕ → Frame → ℕ → Outcome Dlis
unfolding deref
link_channel d i f j = elim (f.channels) [
  | none ↦ ok (
      update_channel
        (update_frame d i (λ f. record f { channels = some j; current_channel = some j })) j
        (λ c. record c { index = 1 }))
  | some _ ↦ deref d.channel_heap f.current_channel >>= λ (at, last). ok (
      update_frame
        (update_channel (update_channel d j (λ c. record c { index = last.index + 1 })) at
          (λ c. record c { f_next = some j }))
        i (λ f. record f { current_channel = some j }))
]

-- One value of a frame's CHANNELS: a known channel of this logical file, or a new one.
unfoldable pub frame_channel : Dlis → NameVal → Outcome Dlis
unfolding link_channel alloc_channel
frame_channel d obn = do
  (i, f) ← deref d.frame_heap d.current_frame
  found ←
      find_channel (λ c. c.next)
        (λ c. (c.seq_num == d.state.seq_num) && channel_obname_cmp d.state.seq_num c obn)
        (suc (length d.channel_heap)) d.channel_heap d.channels
  elim found [
    | some j ↦ link_channel d i f j
    | none ↦
        if name_fits obn.name
        then link_channel
            (record d { channel_heap = d.channel_heap ++ (named_channel d.state.seq_num obn ∷ []) })
            i f (length d.channel_heap)
        else fault
  ]
