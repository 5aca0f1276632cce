-- ===== src/Dlis/Sound/Heap.antt =====
-- dlis.cc: writes to the objects behind the pointers.
use dlis_parser.Base.{
  ℕ, zero, suc, ◌≤◌, ◌≡◌, refl, arith, List, [], ◌∷◌, ◌++◌, length, All, set, length-set, get_elem?,
  Option, none, some, Option-cases, inl, inr,
}
use dlis_parser.Dlis.State.{Frame, Channel, Dlis}
use dlis_parser.Dlis.Heap.{update_frame, update_channel}
use dlis_parser.Dlis.Sound.{Points, FramePoints, ChannelPoints, IsLinked}

module _ {A : Type 0} where
  pub All-set : (P : A → Type 0) (xs : List A) (i : ℕ) (v : A) → All P xs → P v → All P (set xs i v)
  All-set P [] i v all has = tt
  All-set P (x ∷ xs) zero v (first, rest) has = (has, rest)
  All-set P (x ∷ xs) (suc i) v (first, rest) has = (first, All-set P xs i v rest has)

  pub All-get :
      (P : A → Type 0) (xs : List A) (i : ℕ) (a : A) → All P xs → get_elem? xs i ≡ some a → P a
  All-get P [] i a all e = cc
  All-get P (x ∷ xs) zero a (first, rest) e = let same : x ≡ a = ground arith in rw same at first
  All-get P (x ∷ xs) (suc i) a (first, rest) e = All-get P xs i a rest e

  pub All-snoc : (P : A → Type 0) (xs : List A) (v : A) → All P xs → P v → All P (xs ++ (v ∷ []))
  All-snoc P [] v all has = (has, tt)
  All-snoc P (x ∷ xs) v (first, rest) has = (first, All-snoc P xs v rest has)

  pub All-map : (P Q : A → Type 0) (xs : List A) → ((a : A) → P a → Q a) → All P xs → All Q xs
  All-map P Q [] each all = tt
  All-map P Q (x ∷ xs) each (first, rest) = (each x first, All-map P Q xs each rest)

  -- The object at i, if there is one, after a write.
  abbrev pub updated : List A → ℕ → (A → A) → List A
  updated xs i g = elim (get_elem? xs i) [ none ↦ xs | some a ↦ set xs i (g a) ]

  pub All-updated :
      (P : A → Type 0) (xs : List A) (i : ℕ) (g : A → A)
      → ((a : A) → P a → P (g a))
      → All P xs
      → All P (updated xs i g)
  All-updated P xs i g each all = elim (Option-cases (get_elem? xs i)) [
    | inl absent ↦ rw (absent, updated) all
    | inr (a, found) ↦
        rw (found, updated) (All-set P xs i (g a) all (each a (All-get P xs i a all found)))
  ]

  pub length-updated : (xs : List A) (i : ℕ) (g : A → A) → length (updated xs i g) ≡ length xs
  length-updated xs i g = elim (Option-cases (get_elem? xs i)) [
    | inl absent ↦ rw (absent, updated) refl
    | inr (a, found) ↦ rw (found, updated) (length-set xs i (g a))
  ]

pub update_frame_lem :
    (d : Dlis) (i : ℕ) (g : Frame → Frame)
    → update_frame d i g ≡ record d { frame_heap = updated d.frame_heap i g }
update_frame_lem d i g = elim (Option-cases (get_elem? d.frame_heap i)) [
  | inl absent ↦ rw (absent, updated, update_frame) refl
  | inr (a, found) ↦ rw (found, updated, update_frame) refl
]

pub update_channel_lem :
    (d : Dlis) (i : ℕ) (g : Channel → Channel)
    → update_channel d i g ≡ record d { channel_heap = updated d.channel_heap i g }
update_channel_lem d i g = elim (Option-cases (get_elem? d.channel_heap i)) [
  | inl absent ↦ rw (absent, updated, update_channel) refl
  | inr (a, found) ↦ rw (found, updated, update_channel) refl
]

pub Points-le : (n n' : ℕ) (p : Option ℕ) → n ≤ n' → Points n p → Points n' p
Points-le n n' none le inside = tt
Points-le n n' (some i) le inside = omega arith

pub FramePoints-le :
    (n n' k k' : ℕ) → n ≤ n' → k ≤ k' → (f : Frame) → FramePoints n k f → FramePoints n' k' f
FramePoints-le n n' k k' le le' f p = record {
  first = Points-le k k' _ le' p.first;
  last = Points-le k k' _ le' p.last;
  behind = Points-le n n' _ le p.behind;
}

pub ChannelPoints-le : (k k' : ℕ) → k ≤ k' → (c : Channel) → ChannelPoints k c → ChannelPoints k' c
ChannelPoints-le k k' le c p = record {
  behind = Points-le k k' _ le p.behind;
  in_frame = Points-le k k' _ le p.in_frame;
}

-- A write that leaves an object's pointers on objects.
pub update_frame-IsLinked :
    (d : Dlis) (i : ℕ) (g : Frame → Frame)
    → IsLinked d
    → ((f : Frame)
        → FramePoints (length d.frame_heap) (length d.channel_heap) f
        → FramePoints (length d.frame_heap) (length d.channel_heap) (g f))
    → IsLinked (update_frame d i g)
update_frame-IsLinked d i g l each = rw (update_frame_lem d i g) (
    let same : length (updated d.frame_heap i g) ≡ length d.frame_heap =
      length-updated d.frame_heap i g in
    record {
      some_frame = rw same l.some_frame;
      frames_point = rw same (All-updated _ d.frame_heap i g each l.frames_point);
      channels_point = l.channels_point;
      frame_points = rw same l.frame_points;
      first_points = l.first_points;
      last_points = l.last_points;
    })

pub update_channel-IsLinked :
    (d : Dlis) (i : ℕ) (g : Channel → Channel)
    → IsLinked d
    → ((c : Channel)
        → ChannelPoints (length d.channel_heap) c
        → ChannelPoints (length d.channel_heap) (g c))
    → IsLinked (update_channel d i g)
update_channel-IsLinked d i g l each = rw (update_channel_lem d i g) (
    let same : length (updated d.channel_heap i g) ≡ length d.channel_heap =
      length-updated d.channel_heap i g in
    record {
      some_frame = l.some_frame;
      frames_point = rw same l.frames_point;
      channels_point = rw same (All-updated _ d.channel_heap i g each l.channels_point);
      frame_points = l.frame_points;
      first_points = rw same l.first_points;
      last_points = rw same l.last_points;
    })
