-- ===== src/Dlis/Skip/Saved.antt =====
-- dlis.cc, lrs_skip_unparsed_buff: what is saved of a component that a segment's end cuts.
use dlis_parser.Base.{
  add_zero, ℕ, zero, suc, ◌+◌, ◌-◌, ◌≤◌, ◌≡◌, refl, ap, ◌∙◌, arith, ◌∷◌, take, ltb, Bool, true,
  false, ltb-false, if◌then◌else◌,
}
use dlis_parser.Base.Int.{pos, ◌+ℤ◌, ◌-ℤ◌, eq_of_parts, +ℤ_parts, -ℤ_parts}
use dlis_parser.Codec.Memory.{Ptr, Mem, bytes}
use dlis_parser.Codec.Value.{ok}
use dlis_parser.Dlis.State.{
  ParseCode, expecting_eflr_comp_set, expecting_eflr_comp_rset, expecting_eflr_comp_rdset,
  expecting_eflr_comp_absatr, expecting_eflr_comp_attrib, expecting_eflr_comp_invatr,
  expecting_eflr_comp_object, expecting_eflr_comp_attrib_value, expecting_iflr_header,
  expecting_iflr_data, Dlis, cell, here, lrs_remain,
}
use dlis_parser.Dlis.Trailing.{address, trailing_len}
use dlis_parser.Dlis.Skip.{keeps_first_byte, skip_saving, lrs_skip_unparsed_buff, unparsed_size}
use dlis_parser.Dlis.Skip.Carry.{carried}

-- The state behind the skipped bytes: `len` of them, of which the last `saved` wait.
pub record Skipped (d : Dlis) (len saved : ℕ) (d' : Dlis) : Type 0 where
  pub kept : carried d' ≡ bytes d.buffer (here d 0 + len - saved) saved
  pub waiting : d'.state.unparsed_buff_len ≡ saved
  pub index : d'.byte_idx ≡ d.byte_idx + len
  pub segment_count : d'.state.lrs_byte_cnt ≡ d.state.lrs_byte_cnt + len
  pub record_count : d'.state.vr_byte_cnt ≡ d.state.vr_byte_cnt + len

+ℤ-pos : (a b : ℕ) → pos a +ℤ pos b ≡ pos (a + b)
+ℤ-pos a b = eq_of_parts (pos a +ℤ pos b) (pos (a + b)) (omega (arith, +ℤ_parts (pos a) (pos b)))

-ℤ-pos : (a b : ℕ) → b ≤ a → pos a -ℤ pos b ≡ pos (a - b)
-ℤ-pos a b le =
    eq_of_parts (pos a -ℤ pos b) (pos (a - b)) (omega (arith, -ℤ_parts (pos a) (pos b), le))

take-bytes : (m : Mem) (p : Ptr) (n : ℕ) → take n (bytes m p n) ≡ bytes m p n
take-bytes m p zero = refl
take-bytes m p (suc n) = ap (λ bs. m p ∷ bs) (take-bytes m (p + 1) n)

-- The state that the skipping leaves, in numbers.
abbrev skipped : Dlis → ℕ → ℕ → Dlis
skipped d len saved = record d {
  byte_idx = d.byte_idx + len;
  state = record (d.state) {
    unparsed_buff = bytes d.buffer (here d 0 + len - saved) saved;
    unparsed_buff_len = saved;
    lrs_byte_cnt = d.state.lrs_byte_cnt + len;
    vr_byte_cnt = d.state.vr_byte_cnt + len;
  };
}

module _ (d : Dlis) (len saved : ℕ) (fits : saved ≤ unparsed_size)
    (there : saved ≤ d.byte_idx + len) where
  saved_address : address d (pos (d.byte_idx + len - saved)) ≡ here d 0 + len - saved
  saved_address =
      rw (+ℤ-pos (cell d.buffer_idx 0) (d.byte_idx + len - saved)) (omega (arith, there))

  skip_saving-skipped : skip_saving d (pos len) (pos saved) ≡ ok (skipped d len saved)
  unfolding skip_saving
  skip_saving-skipped =
      let few : ltb unparsed_size saved ≡ false = ltb-false unparsed_size saved fits in
      rw (
        ltb-false (saved + 0) 0 (omega arith),
        add_zero saved,
        few,
        +ℤ-pos d.byte_idx len,
        ltb-false (d.byte_idx + len + 0) 0 (omega arith),
        +ℤ-pos d.state.lrs_byte_cnt len,
        +ℤ-pos d.state.vr_byte_cnt len,
        -ℤ-pos (d.byte_idx + len) saved there,
        saved_address,
      )

  skipped-Skipped : Skipped d len saved (skipped d len saved)
  skipped-Skipped = record {
    kept = take-bytes d.buffer (here d 0 + len - saved) saved;
    waiting = refl;
    index = refl;
    segment_count = refl;
    record_count = refl;
  }

-- In the first states the first byte of a component has been taken; the others wait at the first byte
-- of a value, of a header of frame data, or of data.
pub data FirstTaken : ParseCode → Type 0 where
  set : FirstTaken expecting_eflr_comp_set
  rset : FirstTaken expecting_eflr_comp_rset
  rdset : FirstTaken expecting_eflr_comp_rdset
  absatr : FirstTaken expecting_eflr_comp_absatr
  attrib : FirstTaken expecting_eflr_comp_attrib
  invatr : FirstTaken expecting_eflr_comp_invatr
  object : FirstTaken expecting_eflr_comp_object

pub data NoneTaken : ParseCode → Type 0 where
  value : NoneTaken expecting_eflr_comp_attrib_value
  header : NoneTaken expecting_iflr_header
  data_wait : NoneTaken expecting_iflr_data

-- How much is saved of `len` bytes that are left: a first byte that has been taken is saved again.
pub data Saves : ParseCode → ℕ → ℕ → Type 0 where
  and_first : {c : ParseCode} {len : ℕ} → FirstTaken c → Saves c len (len + 1)
  just_left : {c : ParseCode} {len : ℕ} → NoneTaken c → Saves c len len

first-keeps : {c : ParseCode} → FirstTaken c → keeps_first_byte c ≡ true
unfolding keeps_first_byte
first-keeps set = refl
first-keeps rset = refl
first-keeps rdset = refl
first-keeps absatr = refl
first-keeps attrib = refl
first-keeps invatr = refl
first-keeps object = refl

none-keeps : {c : ParseCode} → NoneTaken c → keeps_first_byte c ≡ false
unfolding keeps_first_byte
none-keeps value = refl
none-keeps header = refl
none-keeps data_wait = refl

Saves-len :
    {c : ParseCode} {len saved : ℕ}
    → Saves c len saved
    → (if keeps_first_byte c then len + 1 else len) ≡ saved
Saves-len (and_first taken) = rw (first-keeps taken) refl
Saves-len (just_left none) = rw (none-keeps none) refl

saved_len_lem :
    (t : Bool) (len : ℕ)
    → (if t then pos len +ℤ pos 1 else pos len) ≡ pos (if t then len + 1 else len)
saved_len_lem true len = +ℤ-pos len 1
saved_len_lem false len = refl

pub known_trail :
    (d : Dlis) (trail : ℕ) → d.state.lrs_trail_len ≡ pos trail → trailing_len d ≡ (pos trail, d)
unfolding trailing_len
known_trail d trail known = rw (known, ltb-false (trail + 0) 0 (omega arith))

-- If the length of the trailer is known, `len` bytes of the segment lie in front of it, and the
-- bytes to be saved fit their array and lie in the buffer, exactly `len` bytes are passed over
-- and counted in both lengths. The bytes that then wait are the last ones up to the trailer:
-- these, if a value, a header of frame data or data is awaited, and one more in front if it is a
-- set, an object or an attribute, whose first byte has been taken.
pub lrs_skip_unparsed_buff-Skipped :
    (d : Dlis) (trail len saved : ℕ)
    → d.state.lrs_trail_len ≡ pos trail
    → lrs_remain d.state ≡ pos (trail + len)
    → Saves d.state.code len saved
    → saved ≤ unparsed_size
    → saved ≤ d.byte_idx + len
    → (d' : Dlis) × (lrs_skip_unparsed_buff d ≡ ok d') × Skipped d len saved d'
unfolding lrs_skip_unparsed_buff
lrs_skip_unparsed_buff-Skipped d trail len saved known remains saves fits there =
    let left : pos (trail + len) -ℤ pos trail ≡ pos len =
      -ℤ-pos (trail + len) trail (omega arith) ∙ ap pos (omega arith) in
    (
      skipped d len saved,
      rw (
        known_trail d trail known,
        remains,
        left,
        saved_len_lem (keeps_first_byte d.state.code) len,
        Saves-len saves,
        skip_saving-skipped d len saved fits there,
      ),
      skipped-Skipped d len saved fits there,
    )
