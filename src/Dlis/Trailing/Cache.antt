-- ===== src/Dlis/Trailing/Cache.antt =====
-- dlis.cc, trailing_len: the cached length.
use dlis_parser.Base.{◌≡◌, Bool-cases, inl, inr}
use dlis_parser.Base.Int.{pos, ltb_ℤ}
use dlis_parser.Dlis.State.{Dlis}
use dlis_parser.Dlis.Trailing.{computed_trail, trailing_len}

-- Asking for the length of the trailer again gives the same length and changes nothing more.
pub trailing_len-trailing_len : (d : Dlis) → trailing_len (trailing_len d).1 ≡ trailing_len d
unfolding trailing_len
trailing_len-trailing_len d = elim (Bool-cases (ltb_ℤ d.state.lrs_trail_len (pos 0))) [
  | inl unknown ↦ elim (Bool-cases (ltb_ℤ (computed_trail d) (pos 0))) [
    | inl short ↦ rw (unknown, short, unknown, short)
    | inr n ↦ rw (unknown, n, n)
  ]
  | inr known ↦ rw (known, known)
]
