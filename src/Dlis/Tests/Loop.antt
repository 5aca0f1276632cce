-- ===== src/Dlis/Tests/Loop.antt =====
-- The theorems on the loop of dlis.cc at small states: rounds, fuel and reached states.
use dlis_parser.Base.{◌≡◌, ◌⊎◌, refl, arith, true, false, some, [], ◌∷◌}
use dlis_parser.Base.Int.{pos}
use dlis_parser.Codec.Value.{ok}
use dlis_parser.Dlis.State.{Dlis, ParseCode, Frame, frame_init, channel_init}
use dlis_parser.Dlis.Samples.{blank_state, unset, holding}
use dlis_parser.Dlis.Iflr.{deref}
use dlis_parser.Dlis.NextState.{at_trailing, next_state, next_from, after_lrs, has_channel}
use dlis_parser.Dlis.Flags.{
  lrs_attr_is_encrypted, lrs_attr_is_eflr, lrs_attr_is_first_lrs, lrs_attr_has_padding,
  lrs_attr_has_checksum, lrs_attr_has_trailing,
}
use dlis_parser.Codec.Number.{parse_unorm, parse_ushort, htons, load16}
use dlis_parser.Dlis.Headers.{parse_sul, parse_lrs_header, lrs_fields, restore_unparsed}
use dlis_parser.Dlis.Trailing.{trailing_len, computed_trail, padding_len}
use dlis_parser.Dlis.Input.{accept_chunk, append_chunk, appended, dlis_read}
use dlis_parser.Dlis.Input.Ends.{read_fuel, dlis_read-Finishes}
use dlis_parser.Dlis.Eflr.{parse_eflr_component}
use dlis_parser.Dlis.Rounds.Components.{round_comp}
use dlis_parser.Dlis.Rounds.Places.{place}
use dlis_parser.Dlis.Rounds.Waits.{parse_round-Waits}
use dlis_parser.Dlis.Rounds.{again, end_loop, round_sul, round_lrs, begin_lrs, proceed}
use dlis_parser.Dlis.Parse.{round_from, parse_round, parse_loop, parse}
use dlis_parser.Dlis.Parse.Fuel.{Finishes, RunsOn, parse_loop-eod}
use dlis_parser.Dlis.Measure.{measure}
use dlis_parser.Dlis.Measure.Falls.{Drops, parse_round-Drops}
use dlis_parser.Dlis.Sound.{IsSound}
use dlis_parser.Dlis.Sound.Loop.{Reaches, start, read, Reaches-IsSound}

-- A frame with one channel, whose values are awaited.
abbrev waiting_frame : Frame
unfolding frame_init
waiting_frame = record frame_init { channels = some 0; current_channel = some 0 }

abbrev framed : Dlis
unfolding frame_init channel_init
framed = record unset {
  frame_heap = waiting_frame ∷ [];
  channel_heap = channel_init ∷ [];
  current_frame = some 0;
}

framed-IsSound : IsSound framed
unfolding framed waiting_frame frame_init channel_init
framed-IsSound = record {
  linked = record {
    some_frame = omega arith;
    frames_point = (record { first = omega arith; last = omega arith; behind = tt }, tt);
    channels_point = (record { behind = tt; in_frame = tt }, tt);
    frame_points = omega arith;
    first_points = tt;
    last_points = tt;
  };
  carried = record { fits = omega arith; written = omega arith };
}

-- One byte has come in: more is awaited.
abbrev one_byte : Dlis
unfolding frame_init channel_init appended
one_byte = appended framed (32 ∷ [])

one_byte-read : dlis_read 5 framed (32 ∷ []) ≡ ok (true, one_byte)
unfolding dlis_read accept_chunk append_chunk appended parse parse_loop parse_round trailing_len
    round_from round_sul parse_sul frame_init channel_init
one_byte-read = refl

one_byte-Reaches : Reaches framed one_byte
one_byte-Reaches = read 5 (32 ∷ []) start one_byte-read

Reaches-IsSound_example : IsSound one_byte
Reaches-IsSound_example = Reaches-IsSound framed one_byte one_byte-Reaches framed-IsSound

dlis_read-Finishes_example :
    Finishes (dlis_read read_fuel framed (32 ∷ [])) ⊎ RunsOn (dlis_read read_fuel framed (32 ∷ []))
dlis_read-Finishes_example = dlis_read-Finishes framed (32 ∷ []) framed-IsSound

-- A segment of the type that ends data, which is not the first of its record, with some values of
-- the channel read.
abbrev data_end : Dlis
unfolding frame_init channel_init
data_end = record framed {
  buffer = holding (0 ∷ 20 ∷ 0x40 ∷ 127 ∷ 1 ∷ 1 ∷ []);
  max_byte_idx = 6;
  state = record blank_state { code = ParseCode.expecting_lrs; parsing_dimension = pos 2 };
}

-- The state that its header leads to.
abbrev stuck : Dlis
unfolding frame_init channel_init
stuck = record data_end {
  byte_idx = 4;
  lr_idx = 1;
  lrs_idx = 1;
  state = record (data_end.state) {
    code = ParseCode.expecting_iflr_data;
    lrs_len = 20;
    lrs_byte_cnt = 4;
    vr_byte_cnt = 4;
    lrs_attr = 0x40;
    lrs_type = 127;
  };
}

data_end-stuck : parse_round data_end ≡ ok (again stuck)
unfolding parse_round trailing_len computed_trail padding_len round_from round_lrs parse_lrs_header
    lrs_fields restore_unparsed begin_lrs proceed next_state next_from after_lrs has_channel
    lrs_attr_is_encrypted lrs_attr_is_eflr lrs_attr_is_first_lrs lrs_attr_has_padding
    lrs_attr_has_checksum lrs_attr_has_trailing parse_unorm parse_ushort htons load16 data_end stuck
data_end-stuck = refl

parse_round-Drops_example : Drops (measure data_end) (parse_round data_end)
parse_round-Drops_example = parse_round-Drops data_end

parse_loop-eod_example : parse_loop 1000 stuck ≡ ok (false, stuck)
unfolding frame_init channel_init at_trailing deref
parse_loop-eod_example =
    parse_loop-eod 0 0 0 waiting_frame stuck refl refl refl refl refl refl refl 1000

-- The byte of a component has not come in.
abbrev no_byte : Dlis
no_byte = record unset { state = record blank_state { code = ParseCode.expecting_eflr_comp } }

no_byte-waits : parse_round no_byte ≡ ok (end_loop no_byte)
unfolding parse_round trailing_len round_from round_comp parse_eflr_component
no_byte-waits = refl

parse_round-Waits_example : place no_byte ≡ place no_byte
parse_round-Waits_example = parse_round-Waits no_byte no_byte (λ e. cc) no_byte-waits
