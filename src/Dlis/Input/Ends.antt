-- ===== src/Dlis/Input/Ends.antt =====
-- dlis.cc, dlis_read: one number of rounds that is enough for every chunk.
use dlis_parser.Base.{ℕ, ◌+◌, ◌*◌, ◌≤◌, ◌⊎◌, arith, List, length, inl, inr, refl, leb}
use dlis_parser.Codec.Value.{Outcome, ok, exit, fault, hang, ◌>>=◌}
use dlis_parser.Dlis.State.{Dlis, buff_size}
use dlis_parser.Dlis.Skip.{unparsed_size}
use dlis_parser.Dlis.Parse.{parse}
use dlis_parser.Dlis.Parse.Fuel.{Finishes, faulted, exited, RunsOn, parse-Finishes, measure-le}
use dlis_parser.Dlis.Input.{switch_buffer, append_chunk, appended, accept_chunk, dlis_read}
use dlis_parser.Dlis.Sound.{IsSound}
use dlis_parser.Dlis.Sound.Each.{Each, bind-Each, if-Each}
use dlis_parser.Dlis.Sound.Loop.{accept_chunk-IsSound}

-- What a buffer and the array of waiting bytes hold at most: three rounds for each byte.
abbrev pub read_fuel : ℕ
read_fuel = 6 + 3 * (buff_size + unparsed_size)

append_fits :
    (d : Dlis) (chunk : List ℕ) → Each (λ d'. d'.max_byte_idx ≤ buff_size) (append_chunk d chunk)
unfolding append_chunk appended
append_fits d chunk = ground arith

accept_fits :
    (d : Dlis) (chunk : List ℕ) → Each (λ d'. d'.max_byte_idx ≤ buff_size) (accept_chunk d chunk)
unfolding accept_chunk
accept_fits d chunk =
    if-Each (λ d'. d'.max_byte_idx ≤ buff_size) (leb buff_size (d.max_byte_idx + length chunk)) _ _
      (bind-Each (λ d'. d'.max_byte_idx ≤ buff_size) (switch_buffer d) _
        (λ d' _. append_fits d' chunk))
      (append_fits d chunk)

-- From a state whose pointers lead to objects and whose waiting bytes fit their array, every call
-- of `dlis_read`, whatever the chunk, goes through at most 496614 rounds of the loop: it ends by
-- itself, by `exit` or by an undefined access, or it runs on for one of two reasons: it has come
-- to a state at the end of data that every further round gives back as it was, or a loop over a
-- list of frames or channels that goes round does not return.
pub dlis_read-Finishes :
    (d : Dlis) (chunk : List ℕ)
    → IsSound d
    → Finishes (dlis_read read_fuel d chunk) ⊎ RunsOn (dlis_read read_fuel d chunk)
unfolding dlis_read
dlis_read-Finishes d chunk s =
    go (accept_chunk d chunk) (accept_fits d chunk) (accept_chunk-IsSound d chunk s)
  where
    go :
        (r : Outcome Dlis)
        → Each (λ d'. d'.max_byte_idx ≤ buff_size) r
        → Each IsSound r
        → Finishes (r >>= parse read_fuel) ⊎ RunsOn (r >>= parse read_fuel)
    go (ok d') fits s' =
        parse-Finishes read_fuel d' (omega (arith, measure-le d', fits, s'.carried.fits))
    go exit fits s' = inl exited
    go fault fits s' = inl faulted
    go hang fits s' = inr (inr refl)
