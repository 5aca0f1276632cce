-- ===== src/Dlis/Heap/Search.antt =====
-- dlis.cc, on_iflr_header: the search for a frame, and the list that the pointers make up.
use dlis_parser.Base.{
  ℕ, zero, suc, ◌≤◌, ◌≡◌, refl, arith, Bool, Bool-cases, false, ◌&&◌, ◌==◌, inl, inr, Option, none,
  some, List, [], ◌∷◌, length, get_elem?, if◌then◌else◌, sym, ◌∙◌, true, ◌↔◌, ==_iff, ap,
}
use dlis_parser.Codec.Text.{Obname}
use dlis_parser.Codec.Value.{Outcome, ok, exit, NameVal}
use dlis_parser.Dlis.State.{Dlis, Frame}
use dlis_parser.Dlis.Iflr.{eod}
use dlis_parser.Dlis.Strings.{frame_obname_cmp, c_str}
use dlis_parser.Dlis.Strings.Names.{impossible, frame_obname_cmp_iff, and_true}
use dlis_parser.Codec.Memory.{text}
use dlis_parser.Dlis.Heap.Chain.{written, update_frame_written}
use dlis_parser.Dlis.Heap.{find_frame, update_frame}
use dlis_parser.Dlis.Events.{name_val, on_iflr_header}

-- The frames that are reached from a pointer, with their places.
pub data Frames (heap : List Frame) : Option ℕ → List (ℕ × Frame) → Type 0 where
  at_end : Frames heap none []
  and_then :
      {i : ℕ} {f : Frame} {fs : List (ℕ × Frame)}
      → get_elem? heap i ≡ some f
      → Frames heap f.next fs
      → Frames heap (some i) ((i, f) ∷ fs)

-- The place of the first frame that passes a test.
unfoldable pub first_of : (Frame → Bool) → List (ℕ × Frame) → Option ℕ
first_of test [] = none
first_of test ((i, f) ∷ fs) = if test f then some i else first_of test fs

-- In a list of frames that ends, with as many rounds as it has frames or more, the search over
-- the pointers gives the first frame that passes the test, or none.
pub find_frame-first_of :
    (test : Frame → Bool) (heap : List Frame) (fuel : ℕ) {p : Option ℕ} {fs : List (ℕ × Frame)}
    → Frames heap p fs
    → length fs ≤ fuel
    → find_frame test fuel heap p ≡ ok (first_of test fs)
unfolding find_frame first_of
find_frame-first_of test heap fuel at_end enough = refl
find_frame-first_of test heap zero (and_then here rest) enough = absurd (omega (arith, enough))
find_frame-first_of test heap (suc fuel) (and_then {f = f} here rest) enough =
    elim (Bool-cases (test f)) [
      | inl passes ↦ rw (here, find_frame, passes)
      | inr fails ↦
          rw (here, find_frame, fails)
            (find_frame-first_of test heap fuel rest (omega (arith, enough)))
    ]

-- A frame of the current logical file with the name that was read: its array up to the NUL is the
-- text.
pub record IsNamed (d : Dlis) (obname : Obname) (f : Frame) : Type 0 where
  pub seq_num : f.seq_num ≡ d.state.seq_num
  pub origin : f.origin ≡ obname.origin
  pub copy_number : f.copy_number ≡ obname.copy_number
  pub name : c_str f.name ≡ text d.buffer obname.name

-- The place of the first frame with a property, if there is one.
pub data Earliest (P : Frame → Type 0) : List (ℕ × Frame) → Option ℕ → Type 0 where
  nobody : Earliest P [] none
  this : {i : ℕ} {f : Frame} {fs : List (ℕ × Frame)} → P f → Earliest P ((i, f) ∷ fs) (some i)
  later :
      {i : ℕ} {f : Frame} {fs : List (ℕ × Frame)} {found : Option ℕ}
      → ¬ P f
      → Earliest P fs found
      → Earliest P ((i, f) ∷ fs) found

first_of-Earliest :
    (P : Frame → Type 0) (test : Frame → Bool)
    → ((f : Frame) → (test f ≡ true) ↔ P f)
    → (fs : List (ℕ × Frame)) → Earliest P fs (first_of test fs)
unfolding first_of
first_of-Earliest P test decides [] = nobody
first_of-Earliest P test decides ((i, f) ∷ fs) = elim (Bool-cases (test f)) [
  | inl passes ↦ rw passes (this ((decides f).0 passes))
  | inr fails ↦
      rw fails (
        later (λ p. impossible (sym fails ∙ (decides f).1 p)) (first_of-Earliest P test decides fs))
]

abbrev is_named : Dlis → Obname → Frame → Bool
is_named d obname f =
    (f.seq_num == d.state.seq_num) && frame_obname_cmp d.state.seq_num f (name_val d obname)

is_named_iff :
    (d : Dlis) (obname : Obname) (f : Frame) → (is_named d obname f ≡ true) ↔ IsNamed d obname f
is_named_iff d obname f =
    let same : (f.seq_num == d.state.seq_num ≡ true) ↔ (f.seq_num ≡ d.state.seq_num) =
      ==_iff f.seq_num d.state.seq_num in
    let obn : NameVal = name_val d obname in
    (
      (λ e.
          let (s, rest) = and_true _ _ e in
          let n = (frame_obname_cmp_iff d.state.seq_num f obn).0 rest in
          record {
            seq_num = same.0 s;
            origin = n.origin;
            copy_number = n.copy_number;
            name = n.name;
          }),
      (λ p. rw (same.1 p.seq_num) (
          (frame_obname_cmp_iff d.state.seq_num f obn).1 (record {
            seq_num = p.seq_num;
            origin = p.origin;
            copy_number = p.copy_number;
            name = p.name;
          }))),
    )

-- The frame at that place is current, and stands at its first channel.
abbrev pub started : Dlis → Option ℕ → Outcome Dlis
started d none = exit
started d (some i) = ok (record d {
  current_frame = some i;
  frame_heap = written d.frame_heap i (λ f. record f { current_channel = f.channels });
})

updated_started :
    (d : Dlis) (found : Option ℕ)
    → (elim found [
      | none ↦ exit
      | some i ↦ ok (
          update_frame
            (record d { current_frame = some i })
            i
            (λ f. record f { current_channel = f.channels }))
    ])
      ≡ started d found
updated_started d none = refl
updated_started d (some i) = ap ok (
    update_frame_written (record d { current_frame = some i }) i
      (λ f. record f { current_channel = f.channels }))

-- If the record is no end of data and the frames are linked in a list that ends and is no longer
-- than the heap, one more allowed, the header of frame data makes the first frame of the current
-- logical file with that origin, copy number and name, its array up to the NUL, the current one
-- and puts it at its first channel; without such a frame the program ends.
pub on_iflr_header-first_of :
    (d : Dlis) (obname : Obname) (fs : List (ℕ × Frame))
    → d.state.lrs_type == eod ≡ false
    → Frames d.frame_heap (some 0) fs
    → length fs ≤ suc (length d.frame_heap)
    → (found : Option ℕ) × Earliest (IsNamed d obname) fs found
      × (on_iflr_header d obname ≡ started d found)
unfolding on_iflr_header
on_iflr_header-first_of d obname fs goes_on linked enough = (
  first_of (is_named d obname) fs,
  first_of-Earliest (IsNamed d obname) (is_named d obname) (is_named_iff d obname) fs,
  rw
      (
        goes_on,
        find_frame-first_of (is_named d obname) d.frame_heap (suc (length d.frame_heap)) linked
            enough,
      )
      (updated_started d (first_of (is_named d obname) fs)),
)
