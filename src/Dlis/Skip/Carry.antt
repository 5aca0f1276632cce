-- ===== src/Dlis/Skip/Carry.antt =====
-- dlis.cc, parse_lrs_header: the carried bytes behind the header of the next segment.
use dlis_parser.Base.{
  add_zero, ℕ, ◌+◌, ◌-◌, ◌≤◌, ◌≡◌, refl, arith, List, [], ◌++◌, length, take, ◌==◌, inl, inr,
  Bool-cases, true, ltb-false, ==_iff,
}
use dlis_parser.Codec.Memory.{Ptr, bytes}
use dlis_parser.Codec.Value.{ok}
use dlis_parser.Dlis.State.{Dlis, cell, here, memmove}
use dlis_parser.Dlis.State.Bytes.{bytes-append, bytes-memmove, bytes-memmove_behind}
use dlis_parser.Dlis.Headers.{LrsHeader, lrs_header_len, restored, restore_unparsed}

-- The bytes that wait for the next segment.
abbrev pub carried : Dlis → List ℕ
carried d = take d.state.unparsed_buff_len d.state.unparsed_buff

-- What the restored state has to offer to the next component: n bytes of the new body behind the
-- carried ones, and both lengths grown by these.
pub record Restored (h : LrsHeader) (d : Dlis) (h' : LrsHeader) (d' : Dlis) (n : ℕ) : Type 0 where
  pub body :
      bytes d'.buffer (here d' lrs_header_len) (length (carried d) + n)
      ≡ carried d ++ bytes d.buffer (here d lrs_header_len) n
  pub lrs_len : h'.lrs_len ≡ h.lrs_len + length (carried d)
  pub vr_len : d'.state.vr_len ≡ d.state.vr_len + length (carried d)
  pub moved : d'.byte_idx + length (carried d) ≡ d.byte_idx
  pub emptied : d'.state.unparsed_buff_len ≡ 0

zero_len : (n : ℕ) → n == 0 ≡ true → n ≡ 0
zero_len n e = (==_iff n 0).0 e

zero_add : (n : ℕ) → length {A = ℕ} [] + n ≡ n
zero_add n = omega arith

module _ (h : LrsHeader) (d : Dlis) (n : ℕ) (whole : length (carried d) ≡ d.state.unparsed_buff_len)
    (room : d.state.unparsed_buff_len ≤ d.byte_idx) where
  restored-Restored : Restored h d (restored h d).0 (restored h d).1 n
  unfolding restored
  restored-Restored =
      let k : ℕ = d.state.unparsed_buff_len in
      let p : Ptr = cell d.buffer_idx (d.byte_idx + lrs_header_len - k) in
      let start : d.byte_idx - k + lrs_header_len ≡ d.byte_idx + lrs_header_len - k =
        omega (arith, room) in
      let next : p + length (carried d) ≡ here d lrs_header_len = omega (arith, room, whole) in
      record {
        body = rw (
          start,
          bytes-append (memmove d.buffer p (carried d)) p (length (carried d)) n
              (length (carried d) + n) refl,
          bytes-memmove d.buffer p (carried d),
          next,
          bytes-memmove_behind d.buffer p (carried d) (here d lrs_header_len) n
              (omega (arith, next)),
        );
        lrs_len = omega (arith, whole);
        vr_len = omega (arith, whole);
        moved = omega (arith, whole, room);
        emptied = refl;
      }

  carried-empty : d.state.unparsed_buff_len == 0 ≡ true → carried d ≡ []
  carried-empty empty = rw (zero_len d.state.unparsed_buff_len empty)

  empty-Restored : d.state.unparsed_buff_len == 0 ≡ true → Restored h d h d n
  empty-Restored empty = record {
    body = rw (carried-empty empty, zero_add n);
    lrs_len = rw (carried-empty empty, add_zero h.lrs_len);
    vr_len = rw (carried-empty empty, add_zero d.state.vr_len);
    moved = rw (carried-empty empty, add_zero d.byte_idx);
    emptied = zero_len d.state.unparsed_buff_len empty;
  }

  -- If the carried bytes have room in front of the header, they are put in front of the new body:
  -- behind the header then come the carried bytes and any n bytes of the new body, both lengths
  -- have grown by the carried bytes, the index has moved back by them, and none wait any more.
  pub restore_unparsed-Restored :
      (h' : LrsHeader) × (d' : Dlis) × (restore_unparsed h d ≡ ok (h', d')) × Restored h d h' d' n
  unfolding restore_unparsed
  restore_unparsed-Restored = elim (Bool-cases (d.state.unparsed_buff_len == 0)) [
    | inl empty ↦ (h, d, rw empty, empty-Restored empty)
    | inr some_left ↦ (
      (restored h d).0,
      (restored h d).1,
      rw (
        some_left,
        ltb-false (d.byte_idx + lrs_header_len) d.state.unparsed_buff_len (omega arith),
        ltb-false d.byte_idx d.state.unparsed_buff_len room,
      ),
      restored-Restored,
    )
  ]
