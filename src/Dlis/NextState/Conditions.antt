-- ===== src/Dlis/NextState/Conditions.antt =====
-- dlis.cc, next_state: what the tests of the transitions say.
use dlis_parser.Base.{
  ℕ, ◌≡◌, ◌⊎◌, refl, arith, Bool, true, false, not, ◌||◌, Bool-cases, Option-cases, inl, inr, ◌==◌,
  Option, none, some, List, get_elem?, if◌then◌else◌,
}
use dlis_parser.Base.Int.{ℤ, pos, ◌≤ℤ◌, ◌<ℤ◌, leb_ℤ}
use dlis_parser.Codec.Value.{Outcome, ok}
use dlis_parser.Dlis.State.{ParseCode, Dlis, Frame}
use dlis_parser.Dlis.Flags.{flag}
use dlis_parser.Dlis.Iflr.{deref}
use dlis_parser.Dlis.NextState.{has_channel, at_trailing}
use dlis_parser.Dlis.NextState.Guards.{Set, Unset, HasRole, InFrame, AtEnd, Inside}

-- A branch, with what its test says.
pub if-case :
    {A : Type 0} (P : A → Type 0) (b : Bool) (x y : A)
    → (b ≡ true → P x)
    → (b ≡ false → P y)
    → P (if b then x else y)
if-case P true x y first second = first refl
if-case P false x y first second = second refl

pub if_false : {A : Type 0} (b : Bool) (x y : A) → b ≡ false → (if b then x else y) ≡ y
if_false b x y e = rw e refl

pub set_true : (mask b : ℕ) → flag mask b ≡ true → Set mask b
set_true mask b e = ground arith

pub set_false : (mask b : ℕ) → flag mask b ≡ false → Unset mask b
set_false mask b e = ground arith

pub le_zero : (z : ℤ) → leb_ℤ z (pos 0) ≡ true → z ≤ℤ pos 0
le_zero z e = ground arith

pub positive : (z : ℤ) → leb_ℤ z (pos 0) ≡ false → pos 0 <ℤ z
positive z e = ground arith

pub at_end : (d : Dlis) (t : ℕ) → at_trailing (pos t) d ≡ true → AtEnd d t
unfolding at_trailing
at_end d t e = ground arith

pub inside : (d : Dlis) (t : ℕ) → at_trailing (pos t) d ≡ false → Inside d t
unfolding at_trailing
inside d t e = ground arith

pub no_channel : (d : Dlis) → has_channel d ≡ false → ¬ InFrame d
unfolding has_channel
no_channel d e (i, f, j, frame, found, current) = ground arith

pub some_channel : (d : Dlis) → has_channel d ≡ true → InFrame d
unfolding has_channel
some_channel d e = elim (Option-cases d.current_frame) [
  | inl no_frame ↦ absurd (ground arith)
  | inr (i, frame) ↦ elim (Option-cases (get_elem? d.frame_heap i)) [
    | inl no_place ↦ absurd (ground arith)
    | inr (f, found) ↦ elim (Option-cases f.current_channel) [
      | inl ended ↦ absurd (ground arith)
      | inr (j, current) ↦ (i, f, j, frame, found, current)
    ]
  ]
]

-- A segment of frame data begins with a header, or goes on with data.
pub new_header :
    (d : Dlis)
    → (not (has_channel d) || not (flag 0x40 d.state.lrs_attr)) ≡ true
    → (¬ InFrame d) ⊎ Unset 0x40 d.state.lrs_attr
new_header d e = elim (Bool-cases (has_channel d)) [
  | inl some_left ↦ inr (let bit = rw some_left at e in ground arith)
  | inr none_left ↦ inl (no_channel d none_left)
]

pub more_data :
    (d : Dlis)
    → (not (has_channel d) || not (flag 0x40 d.state.lrs_attr)) ≡ false
    → InFrame d × Set 0x40 d.state.lrs_attr
more_data d e = elim (Bool-cases (has_channel d)) [
  | inl some_left ↦ (some_channel d some_left, (let bit = rw some_left at e in ground arith))
  | inr none_left ↦ absurd (ground arith)
]

pub no_role :
    (r : ℕ) (c : ParseCode)
    → HasRole r c
    → r == 0 ≡ false
    → r == 1 ≡ false
    → r == 2 ≡ false
    → r == 3 ≡ false
    → r == 5 ≡ false
    → r == 6 ≡ false
    → r == 7 ≡ false
    → ⊥
no_role r c HasRole.absatr e₀ e₁ e₂ e₃ e₅ e₆ e₇ = cc
no_role r c HasRole.attrib e₀ e₁ e₂ e₃ e₅ e₆ e₇ = cc
no_role r c HasRole.invatr e₀ e₁ e₂ e₃ e₅ e₆ e₇ = cc
no_role r c HasRole.object e₀ e₁ e₂ e₃ e₅ e₆ e₇ = cc
no_role r c HasRole.rdset e₀ e₁ e₂ e₃ e₅ e₆ e₇ = cc
no_role r c HasRole.rset e₀ e₁ e₂ e₃ e₅ e₆ e₇ = cc
no_role r c HasRole.set e₀ e₁ e₂ e₃ e₅ e₆ e₇ = cc

pub deref_found :
    (heap : List Frame) (p : Option ℕ) (i : ℕ) (f : Frame)
    → deref heap p ≡ ok (i, f)
    → (p ≡ some i) × (get_elem? heap i ≡ some f)
unfolding deref
deref_found heap none i f e = cc
deref_found heap (some k) i f e = elim (Option-cases (get_elem? heap k)) [
  | inl no_place ↦ absurd (ground arith)
  | inr (g, found) ↦ (let same : ok (k, g) ≡ ok (i, f) = rw (found, deref) at e in (cc, cc))
]

pub same_code : (d d' : Dlis) → ◌≡◌ {A = Outcome Dlis} (ok d) (ok d') → d.state.code ≡ d'.state.code
same_code d d' e = cc

pub no_current :
    (d : Dlis) (i : ℕ) (f : Frame)
    → d.current_frame ≡ some i
    → get_elem? d.frame_heap i ≡ some f
    → f.current_channel ≡ none
    → ¬ InFrame d
no_current d i f frame found ended (k, g, j, frame', found', current) = cc
