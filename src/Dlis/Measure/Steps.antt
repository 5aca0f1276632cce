-- ===== src/Dlis/Measure/Steps.antt =====
-- dlis.cc, next_state: the measure of the next state.
use dlis_parser.Base.{ℕ, ◌+◌, ◌*◌, ◌≤◌, ◌≡◌, refl, arith, true, false, Bool, if◌then◌else◌}
use dlis_parser.Base.Int.{ℤ}
use dlis_parser.Codec.Value.{Outcome, ok, exit, fault, hang, ◌>>=◌}
use dlis_parser.Dlis.State.{
  ParseCode, expecting_sul, expecting_lrs_trailing, expecting_iflr_data, Dlis, Frame,
}
use dlis_parser.Dlis.Trailing.{trailing_len}
use dlis_parser.Dlis.Iflr.{deref}
use dlis_parser.Dlis.NextState.{
  go_to, skip_rest, at_trailing, after_whole_comp, after_attrib, after_value, after_data, next_from,
  next_state,
}
use dlis_parser.Dlis.NextState.Edges.{IsWhole, data_goes_on, IsValued, Edge, next_state-Edge}
use dlis_parser.Dlis.Measure.{left, rank, measure}
use dlis_parser.Dlis.Measure.Trail.{trailing_len-left}

-- The highest rank that follows a state.
abbrev pub next_rank : ParseCode → ℕ
next_rank ParseCode.expecting_sul = 0
next_rank ParseCode.expecting_vr = 0
next_rank ParseCode.expecting_encryption_packet = 0
next_rank ParseCode.expecting_lrs_trailing = 0
next_rank ParseCode.expecting_iflr_header = 2
next_rank ParseCode.expecting_iflr_data = 2
next_rank ParseCode.expecting_eflr_comp = 5
next_rank _ = 3

whole-rank : {c : ParseCode} → IsWhole c → next_rank c ≡ 3
whole-rank IsWhole.set = refl
whole-rank IsWhole.rset = refl
whole-rank IsWhole.rdset = refl
whole-rank IsWhole.absatr = refl
whole-rank IsWhole.object = refl

valued-rank : {c : ParseCode} → IsValued c → next_rank c ≡ 3
valued-rank IsValued.attrib = refl
valued-rank IsValued.invatr = refl

pub rank-le : (c : ParseCode) → rank c ≤ 5
rank-le c = ground arith

rank-Edge : {c c' : ParseCode} → Edge c c' → rank c' ≤ next_rank c
rank-Edge (Edge.to_whole {c} w) = rank-le c
rank-Edge (Edge.to_valued {c} v) = rank-le c
rank-Edge (Edge.whole_then_comp w) = omega (arith, whole-rank w)
rank-Edge (Edge.whole_then_trailer w) = omega (arith, whole-rank w)
rank-Edge (Edge.valued_then_comp v) = omega (arith, valued-rank v)
rank-Edge (Edge.valued_then_trailer v) = omega (arith, valued-rank v)
rank-Edge (Edge.valued_then_value v) = omega (arith, valued-rank v)
rank-Edge e = omega arith

-- An outcome with no more bytes left than n.
abbrev Shrinks : ℕ → Outcome Dlis → Type 0
Shrinks n (ok d') = left d' ≤ n
Shrinks n exit = Unit
Shrinks n fault = Unit
Shrinks n hang = Unit

skip_rest-left : (trail : ℤ) (d : Dlis) → left (skip_rest trail d) ≤ left d
unfolding skip_rest
skip_rest-left trail d = ground arith

if-left : (t : Bool) (x y : Dlis) (n : ℕ) → left x ≤ n → left y ≤ n → left (if t then x else y) ≤ n
if-left true x y n lx ly = lx
if-left false x y n lx ly = ly

if-Shrinks :
    (t : Bool) (n : ℕ) (x y : Outcome Dlis)
    → Shrinks n x
    → Shrinks n y
    → Shrinks n (if t then x else y)
if-Shrinks true n x y sx sy = sx
if-Shrinks false n x y sx sy = sy

bind-Shrinks :
    {A : Type 0} (r : Outcome A) (n : ℕ) (k : A → Outcome Dlis)
    → ((a : A) → Shrinks n (k a))
    → Shrinks n (r >>= k)
bind-Shrinks (ok a) n k each = each a
bind-Shrinks exit n k each = tt
bind-Shrinks fault n k each = tt
bind-Shrinks hang n k each = tt

data_goes_on-Shrinks :
    (trail : ℤ) (d : Dlis) (n : ℕ) (found : ℕ × Frame)
    → left d ≤ n
    → Shrinks n (data_goes_on trail d found)
data_goes_on-Shrinks trail d n found le =
    if-left _ (go_to (skip_rest trail d) expecting_lrs_trailing) d n
      (omega (arith, skip_rest-left trail d)) le

after_data-Shrinks : (d : Dlis) → Shrinks (left d) (after_data d)
unfolding after_data
after_data-Shrinks d =
    let d' : Dlis = (trailing_len d).1 in
    let same : left d' ≤ left d = omega (arith, trailing_len-left d) in
    if-Shrinks (at_trailing (trailing_len d).0 d') (left d) (ok (go_to d' expecting_lrs_trailing))
      (deref d'.frame_heap d'.current_frame >>= data_goes_on (trailing_len d).0 d') same
      (bind-Shrinks (deref d'.frame_heap d'.current_frame) (left d)
        (data_goes_on (trailing_len d).0 d')
        (λ found. data_goes_on-Shrinks (trailing_len d).0 d' (left d) found same))

next_from-Shrinks : (c : ParseCode) (d : Dlis) → Shrinks (left d) (next_from c d)
unfolding next_from after_whole_comp after_attrib after_value
next_from-Shrinks expecting_sul d = omega arith
next_from-Shrinks expecting_iflr_data d = after_data-Shrinks d
next_from-Shrinks c d = omega (arith, trailing_len-left d)

pub next_state-left : (d d' : Dlis) → next_state d ≡ ok d' → left d' ≤ left d
unfolding next_state
next_state-left d d' e =
    let s : Shrinks (left d) (next_state d) = next_from-Shrinks (d.state.code) d in rw e at s

pub next_state-measure :
    (d d' : Dlis) → next_state d ≡ ok d' → measure d' ≤ 3 * left d + next_rank d.state.code
next_state-measure d d' e =
    omega (arith, next_state-left d d' e, rank-Edge (next_state-Edge d d' e))
