-- ===== src/Dlis/Input/Chunk.antt =====
-- dlis.cc, dlis_read: the arrival of a chunk, for a parser that sees a queue of bytes.
use dlis_parser.Base.{
  ℕ, ◌+◌, ◌-◌, ◌≤◌, ◌≡◌, refl, arith, ◌∙◌, List, [], ◌++◌, length, leb, inl, inr, Bool-cases,
  append-nil, append_assoc, ltb-false, ◌%◌, false,
}
use dlis_parser.Codec.Memory.{Ptr, Mem, bytes, length-bytes}
use dlis_parser.Codec.Value.{ok}
use dlis_parser.Dlis.State.{Dlis, cell, here, window, memmove, buff_size, buff_num}
use dlis_parser.Dlis.State.Bytes.{bytes-append, bytes-memmove, bytes-memmove_before}
use dlis_parser.Dlis.Input.{switched, appended, switch_buffer, append_chunk, accept_chunk}

-- The indices of the buffer are in order, and in front of the unparsed bytes there is room for those
-- that are carried over.
pub record IsBuffered (d : Dlis) : Type 0 where
  pub ordered : d.byte_idx ≤ d.max_byte_idx
  pub inside : d.max_byte_idx ≤ buff_size
  pub room : d.state.unparsed_buff_len ≤ d.byte_idx

-- What an operation that only moves bytes does for the parser: the queue grows by `more`, and the
-- state of the parser stays.
pub record Feeds (d : Dlis) (more : List ℕ) (d' : Dlis) : Type 0 where
  pub queue : window d' ≡ window d ++ more
  pub state : d'.state ≡ d.state
  pub events : d'.events ≡ d.events
  pub buffered : IsBuffered d'

appended-Feeds :
    (d : Dlis) (chunk : List ℕ)
    → IsBuffered d
    → d.max_byte_idx + length chunk ≤ buff_size
    → Feeds d chunk (appended d chunk)
unfolding appended
appended-Feeds d chunk v fits =
    let k : ℕ = d.max_byte_idx - d.byte_idx in
    let n : ℕ = d.max_byte_idx + length chunk - d.byte_idx in
    let start : here d 0 + k ≡ cell d.buffer_idx d.max_byte_idx = omega (arith, v.ordered) in
    let m : Mem = memmove d.buffer (cell d.buffer_idx d.max_byte_idx) chunk in
    record {
      queue = rw (
        bytes-append m (here d 0) k (length chunk) n (omega (arith, v.ordered)),
        bytes-memmove_before d.buffer (cell d.buffer_idx d.max_byte_idx) chunk (here d 0) k
            (omega (arith, v.ordered)),
        start,
        bytes-memmove d.buffer (cell d.buffer_idx d.max_byte_idx) chunk,
      );
      state = refl;
      events = refl;
      buffered = record { ordered = omega (arith, v.ordered); inside = fits; room = v.room };
    }

switched-Feeds :
    (d : Dlis)
    → IsBuffered d
    → d.state.unparsed_buff_len + (d.max_byte_idx - d.byte_idx) ≤ buff_size
    → Feeds d [] (switched d)
unfolding switched
switched-Feeds d v fits =
    let len : ℕ = d.max_byte_idx - d.byte_idx in
    let front : ℕ = d.state.unparsed_buff_len in
    let p : Ptr = cell ((d.buffer_idx + 1) % buff_num) front in
    let old : List ℕ = bytes d.buffer (here d 0) len in
    let start : front + 0 ≡ front = omega arith in
    let count : len + front - front ≡ length old =
      omega (arith, length-bytes d.buffer (here d 0) len) in
    record {
      queue = rw (start, count, append-nil) (bytes-memmove d.buffer p old);
      state = refl;
      events = refl;
      buffered = record { ordered = omega arith; inside = omega arith; room = omega arith };
    }

Feeds-trans :
    {d d' d'' : Dlis} {xs ys : List ℕ} → Feeds d xs d' → Feeds d' ys d'' → Feeds d (xs ++ ys) d''
Feeds-trans {d} {d'} {d''} {xs} {ys} f g = record {
  queue = g.queue ∙ rw (f.queue, append_assoc);
  state = g.state ∙ f.state;
  events = g.events ∙ f.events;
  buffered = g.buffered;
}

-- If the buffer indices are in order and the chunk fits into a buffer together with the unparsed
-- bytes and the room for the carried ones, the chunk is accepted, and the four buffers act as one
-- queue of bytes: the unparsed bytes afterwards are the former ones followed by the chunk, the
-- state of the parser and its events are the same, and the indices are in order again.
pub accept_chunk-Feeds :
    (d : Dlis) (chunk : List ℕ)
    → IsBuffered d
    → d.state.unparsed_buff_len + (d.max_byte_idx - d.byte_idx) + length chunk ≤ buff_size
    → (d' : Dlis) × (accept_chunk d chunk ≡ ok d') × Feeds d chunk d'
unfolding accept_chunk switch_buffer append_chunk
accept_chunk-Feeds d chunk v fits =
    elim (Bool-cases (leb buff_size (d.max_byte_idx + length chunk))) [
      | inr behind ↦ (
        appended d chunk,
        rw (behind, ltb-false buff_size (d.max_byte_idx + length chunk) (below behind)),
        appended-Feeds d chunk v (below behind),
      )
      | inl full ↦
          let s = switched-Feeds d v (omega arith) in
          let len : (switched d).max_byte_idx + length chunk ≤ buff_size =
            unfold switched in omega arith in
          (
            appended (switched d) chunk,
            rw (
              full,
              ltb-false d.max_byte_idx d.byte_idx v.ordered,
              ltb-false buff_size (d.state.unparsed_buff_len + (d.max_byte_idx - d.byte_idx))
                  (omega arith),
              ltb-false buff_size ((switched d).max_byte_idx + length chunk) len,
            ),
            Feeds-trans s (appended-Feeds (switched d) chunk s.buffered len),
          )
    ]
  where
    below :
        leb buff_size (d.max_byte_idx + length chunk) ≡ false
        → d.max_byte_idx + length chunk ≤ buff_size
    below h = ground arith
