-- ===== src/Dlis/Input.antt =====
-- dlis.cc, dlis_read: the arrival of a chunk in the buffers, before it is parsed.
pub mod Chunk
pub mod Ends
use dlis_parser.Base.{ℕ, ◌+◌, ◌-◌, ◌%◌, Bool, List, length, leb, ltb, if◌then◌else◌}
use dlis_parser.Codec.Memory.{bytes}
use dlis_parser.Codec.Value.{Outcome, ok, fault, ◌>>=◌}
use dlis_parser.Dlis.State.{Dlis, cell, here, memmove, buff_size, buff_num}
use dlis_parser.Dlis.Parse.{parse}

-- The next buffer takes what is not parsed, behind the room for the carried bytes.
unfoldable pub switched : Dlis → Dlis
switched d =
    let unparsed_len = d.state.unparsed_buff_len in
    let next = (d.buffer_idx + 1) % buff_num in
    let len = d.max_byte_idx - d.byte_idx in
    record d {
      buffer_idx = next;
      byte_idx = unparsed_len;
      max_byte_idx = len + unparsed_len;
      buffer = memmove d.buffer (cell next unparsed_len) (bytes d.buffer (here d 0) len);
    }

-- A negative length, and one that does not fit the buffer, are undefined.
unfoldable pub switch_buffer : Dlis → Outcome Dlis
unfolding switched
switch_buffer d =
    if ltb d.max_byte_idx d.byte_idx
    then fault
    else if ltb buff_size (d.state.unparsed_buff_len + (d.max_byte_idx - d.byte_idx))
    then fault
    else ok (switched d)

-- A chunk goes behind the bytes that are there.
unfoldable pub appended : Dlis → List ℕ → Dlis
appended d chunk = record d {
  buffer = memmove d.buffer (cell d.buffer_idx d.max_byte_idx) chunk;
  max_byte_idx = d.max_byte_idx + length chunk;
}

unfoldable pub append_chunk : Dlis → List ℕ → Outcome Dlis
unfolding appended
append_chunk d chunk =
    if ltb buff_size (d.max_byte_idx + length chunk) then fault else ok (appended d chunk)

-- What `dlis_read` does before it parses.
unfoldable pub accept_chunk : Dlis → List ℕ → Outcome Dlis
unfolding switch_buffer append_chunk
accept_chunk d chunk =
    if leb buff_size (d.max_byte_idx + length chunk)
    then (switch_buffer d >>= λ d'. append_chunk d' chunk)
    else append_chunk d chunk

unfoldable pub dlis_read : ℕ → Dlis → List ℕ → Outcome (Bool × Dlis)
unfolding accept_chunk parse
dlis_read fuel d chunk = accept_chunk d chunk >>= parse fuel
