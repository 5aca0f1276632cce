-- ===== src/Dlis/Tests/Reading.antt =====
-- The theorems on do_parse at a file of one byte.
use dlis_parser.Base.{◌≡◌, refl, arith, true, some, [], ◌∷◌}
use dlis_parser.Codec.Value.{ok}
use dlis_parser.Dlis.State.{Dlis, frame_init, dlis_init, message, send}
use dlis_parser.Dlis.Samples.{unset}
use dlis_parser.Dlis.Trailing.{trailing_len}
use dlis_parser.Dlis.Headers.{parse_sul}
use dlis_parser.Dlis.Input.{accept_chunk, append_chunk, appended, dlis_read}
use dlis_parser.Dlis.Rounds.{round_sul}
use dlis_parser.Dlis.Parse.{round_from, parse_round, parse_loop, parse}
use dlis_parser.Dlis.Heap.Search.{at_end, and_then}
use dlis_parser.Dlis.Reading.{read_loop, do_parse}
use dlis_parser.Dlis.Reading.Ends.{Fed, read_loop-Fed}
use dlis_parser.Dlis.Reading.Message.{no_more, last_message, do_parse-frames}

abbrev empty_memory : Dlis
unfolding frame_init
empty_memory = record unset { frame_heap = frame_init ∷ [] }

-- The byte has come in, and more is awaited.
abbrev after_byte : Dlis
unfolding frame_init appended dlis_init
after_byte = appended (dlis_init empty_memory) (32 ∷ [])

one_byte-read : read_loop 2 (dlis_init empty_memory) (32 ∷ []) ≡ ok (true, after_byte)
unfolding read_loop dlis_read accept_chunk append_chunk appended parse parse_loop parse_round
    trailing_len round_from round_sul parse_sul frame_init dlis_init
one_byte-read = refl

read_loop-Fed_example : Fed (dlis_init empty_memory) (32 ∷ []) after_byte
read_loop-Fed_example = read_loop-Fed 2 (dlis_init empty_memory) after_byte (32 ∷ []) one_byte-read

do_parse-frames_example :
    do_parse empty_memory (some (32 ∷ []))
    ≡ ok (true, [], send after_byte (message (some (last_message ((0, frame_init) ∷ [])))))
unfolding frame_init appended dlis_init
do_parse-frames_example =
    do_parse-frames empty_memory after_byte (32 ∷ []) [] ((0, frame_init) ∷ []) one_byte-read
      no_more (omega arith) (and_then refl at_end) (omega arith)
