-- ===== src/Dlis/Measure/Trail.antt =====
-- dlis.cc, trailing_len: the input of a state whose trailer is known.
use dlis_parser.Base.{◌∙◌, ℕ, ◌≡◌, refl, arith, false}
use dlis_parser.Base.Int.{ℤ, pos, negsuc, ltb_ℤ}
use dlis_parser.Dlis.State.{Dlis}
use dlis_parser.Dlis.Trailing.{trailing_len}
use dlis_parser.Dlis.Measure.{left, measure}

pub trailing_len-left : (d : Dlis) → left (trailing_len d).1 ≡ left d
unfolding trailing_len
trailing_len-left d = ground arith

pub trailing_len-measure : (d : Dlis) → measure (trailing_len d).1 ≡ measure d
unfolding trailing_len
trailing_len-measure d = ground arith

nonneg-pos : (z : ℤ) → ltb_ℤ z (pos 0) ≡ false → (t : ℕ) × (z ≡ pos t)
nonneg-pos (pos t) e = (t, refl)
nonneg-pos (negsuc t) e = absurd (ground arith)

trailing_len-cached :
    (d : Dlis)
    → ltb_ℤ (trailing_len d).0 (pos 0) ≡ false
    → (trailing_len d).1.state.lrs_trail_len ≡ (trailing_len d).0
unfolding trailing_len
trailing_len-cached d known = ground arith

-- A length that is not -1 is kept.
pub trailing_len-known :
    (d : Dlis)
    → ltb_ℤ (trailing_len d).0 (pos 0) ≡ false
    → (t : ℕ) × ((trailing_len d).1.state.lrs_trail_len ≡ pos t)
trailing_len-known d known =
    let (t, e) = nonneg-pos (trailing_len d).0 known in (t, trailing_len-cached d known ∙ e)
