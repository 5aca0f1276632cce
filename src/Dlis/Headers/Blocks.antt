-- ===== src/Dlis/Headers/Blocks.antt =====
-- dlis.cc, parse_vr_header: the loop that skips blocks of twelve bytes.
use dlis_parser.Base.{
  suc-add, sym, ℕ, zero, suc, ◌+◌, ◌-◌, ◌*◌, ◌<◌, ◌≤◌, ◌≡◌, Bool, false, not, ◌&&◌, Bool-cases,
  Option, none, some, arith, inl, inr, ◌==◌,
}
use dlis_parser.Base.Int.{pos, sub_ℕ, ltb_ℤ}
use dlis_parser.Dlis.State.{Dlis, here}
use dlis_parser.Dlis.Headers.{skip_blocks}

-- The next block starts with another byte than the marker.
abbrev pub block_follows : Dlis → ℕ → Bool
block_follows d i = d.n_type && not (d.buffer (here d (i + 2)) == 0xFF)

abbrev few_left : Dlis → ℕ → Bool
few_left d i = ltb_ℤ (sub_ℕ d.max_byte_idx (d.byte_idx + i)) (pos 12)

some_inj : {a b : ℕ} → ◌≡◌ {A = Option ℕ} (some a) (some b) → a ≡ b
some_inj e = cc

impossible : {b : ℕ} → ◌≡◌ {A = Option ℕ} none (some b) → ⊥
impossible e = cc

few_left_bound : (d : Dlis) (i : ℕ) → few_left d i ≡ false → d.byte_idx + i + 12 ≤ d.max_byte_idx
few_left_bound d i e = ground arith

-- If the fuel exceeds the bytes that are left, the loop that skips blocks gives the same result
-- with any more fuel.
pub skip_blocks-add :
    (fuel more : ℕ) (d : Dlis) (i : ℕ)
    → d.max_byte_idx - (d.byte_idx + i) < fuel
    → skip_blocks (fuel + more) d i ≡ skip_blocks fuel d i
unfolding skip_blocks
skip_blocks-add zero more d i enough = absurd (omega (arith, enough))
skip_blocks-add (suc fuel) more d i enough = elim (Bool-cases (block_follows d i)) [
  | inl next ↦ elim (Bool-cases (few_left d i)) [
    | inl few ↦ rw (suc-add fuel more, skip_blocks, next, few)
    | inr many ↦
        rw (suc-add fuel more, skip_blocks, next, many)
          (skip_blocks-add fuel more d (i + 12) (omega (arith, few_left_bound d i many, enough)))
  ]
  | inr stop ↦ rw (suc-add fuel more, skip_blocks, stop)
]

-- If the loop that skips blocks stops, it stops a multiple of twelve bytes further on, where no
-- further block follows: the marker is there, or the file has no blocks.
pub skip_blocks_lem :
    (fuel : ℕ) (d : Dlis) (i j : ℕ)
    → skip_blocks fuel d i ≡ some j
    → (k : ℕ) × (j ≡ i + 12 * k) × (block_follows d j ≡ false)
unfolding skip_blocks
skip_blocks_lem zero d i j e = cc
skip_blocks_lem (suc fuel) d i j e = elim (Bool-cases (block_follows d i)) [
  | inl more ↦ elim (Bool-cases (few_left d i)) [
    | inl few ↦ absurd (impossible (rw (skip_blocks, more, few) at e))
    | inr many ↦
        let (k, at_k, stop) =
          skip_blocks_lem fuel d (i + 12) j (rw (skip_blocks, more, many) at e) in
        (k + 1, omega (arith, at_k), stop)
  ]
  | inr stop ↦
      let same : i ≡ j = some_inj (rw (skip_blocks, stop) at e) in
      (0, omega (arith, same), rw (sym same) stop)
]
