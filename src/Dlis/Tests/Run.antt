-- ===== src/Dlis/Tests/Run.antt =====
-- A run of the parser of dlis.cc on a small file.
use dlis_parser.Base.{ℕ, Bool, Option, none, some, List, [], ◌∷◌}
use dlis_parser.Dlis.State.{Dlis, Event, ParseCode}
use dlis_parser.Codec.Value.{Outcome, ok}
use dlis_parser.Dlis.Input.{dlis_read}
use dlis_parser.Dlis.Samples.{blank}

abbrev file_header : List ℕ
file_header =
    32 ∷ 32 ∷ 32 ∷ 49 ∷ 86 ∷ 49 ∷ 46 ∷ 48 ∷ 48 ∷ 82 ∷ 69 ∷ 67 ∷ 79 ∷ 82 ∷ 68 ∷ 32 ∷ 56 ∷ 49 ∷ 57
    ∷ 50 ∷ 68 ∷ 101 ∷ 102 ∷ 97 ∷ 117 ∷ 108 ∷ 116 ∷ 32 ∷ 83 ∷ 116 ∷ 111 ∷ 114 ∷ 97 ∷ 103 ∷ 101 ∷ 32
    ∷ 83 ∷ 101 ∷ 116 ∷ 32 ∷ 32 ∷ 32 ∷ 32 ∷ 32 ∷ 32 ∷ 32 ∷ 32 ∷ 32 ∷ 32 ∷ 32 ∷ 32 ∷ 32 ∷ 32 ∷ 32 ∷ 32
    ∷ 32 ∷ 32 ∷ 32 ∷ 32 ∷ 32 ∷ 32 ∷ 32 ∷ 32 ∷ 32 ∷ 32 ∷ 32 ∷ 32 ∷ 32 ∷ 32 ∷ 32 ∷ 32 ∷ 32 ∷ 32 ∷ 32
    ∷ 32 ∷ 32 ∷ 32 ∷ 32 ∷ 32 ∷ 32 ∷ 0 ∷ 56 ∷ 255 ∷ 1 ∷ 0 ∷ 52 ∷ 128 ∷ 0 ∷ 240 ∷ 11 ∷ 70 ∷ 73 ∷ 76
    ∷ 69 ∷ 45 ∷ 72 ∷ 69 ∷ 65 ∷ 68 ∷ 69 ∷ 82 ∷ 52 ∷ 15 ∷ 83 ∷ 69 ∷ 81 ∷ 85 ∷ 69 ∷ 78 ∷ 67 ∷ 69 ∷ 45
    ∷ 78 ∷ 85 ∷ 77 ∷ 66 ∷ 69 ∷ 82 ∷ 20 ∷ 112 ∷ 1 ∷ 0 ∷ 1 ∷ 65 ∷ 33 ∷ 10 ∷ 32 ∷ 32 ∷ 32 ∷ 32 ∷ 32
    ∷ 32 ∷ 32 ∷ 32 ∷ 32 ∷ 49 ∷ []

abbrev run_state : Outcome (Bool × Dlis) → Option (Bool × ℕ × ℕ × ℕ × ParseCode × List Event)
run_state (ok (b, d)) =
    some (b, d.byte_idx, d.max_byte_idx, d.state.seq_num, d.state.code, d.events)
run_state _ = none

abbrev run : Option (Bool × ℕ × ℕ × ℕ × ParseCode × List Event)
run = run_state (dlis_read 100 blank file_header)
