-- ===== src/Dlis/Tests/Values.antt =====
-- The theorem on the data of a frame at a channel of two numbers of 16 bits, with one more behind it.
use dlis_parser.Base.{◌+◌, ◌≡◌, refl, arith, [], ◌∷◌, some}
use dlis_parser.Base.Int.{pos}
use dlis_parser.Codec.Value.{RepCode, repcode_size}
use dlis_parser.Dlis.State.{Dlis, Frame, Channel, FileKey, ParseCode, frame_init, channel_init}
use dlis_parser.Dlis.Samples.{blank_state, loaded}
use dlis_parser.Dlis.Parse.{parse_loop}
use dlis_parser.Dlis.Rounds.Between.{Regular, Between}
use dlis_parser.Dlis.Rounds.FrameData.{Ahead, channel, one_more, Passed, parse_loop-Passed}

abbrev its_file : FileKey
its_file = record { seq_num = 1; origin = 1; copy_number = 0; name = 84 ∷ 68 ∷ [] }

abbrev second_channel : Channel
unfolding channel_init
second_channel = record channel_init {
  index = 2;
  dimension = pos 2;
  repcode = pos 16;
  fp = some its_file;
  f_next = some 1;
}

abbrev its_frame : Frame
unfolding frame_init
its_frame = record frame_init { channels = some 0; current_channel = some 0 }

-- Six bytes of a segment of twenty are left, with no trailer.
abbrev three_numbers : Dlis
unfolding frame_init channel_init
three_numbers = record (loaded (0 ∷ 7 ∷ 1 ∷ 2 ∷ 3 ∷ 4 ∷ [])) {
  frame_heap = its_frame ∷ [];
  channel_heap = second_channel ∷ channel_init ∷ [];
  current_frame = some 0;
  state = record blank_state {
    code = ParseCode.expecting_iflr_data;
    lrs_len = 20;
    lrs_byte_cnt = 14;
  };
}

second_channel-Regular : Regular second_channel its_file 2 2
unfolding channel_init repcode_size
second_channel-Regular = record {
  number = 16;
  code = RepCode.unorm;
  repcode = refl;
  found = refl;
  sized = refl;
  decoded = refl;
  some_byte = omega arith;
  some_value = omega arith;
  dimension = refl;
  file = refl;
  other = refl;
}

three_numbers-Between : Between three_numbers 0 0 its_frame
unfolding frame_init channel_init
three_numbers-Between = record {
  code = refl;
  trail = refl;
  goes_on = refl;
  frame = refl;
  found = refl;
  no_values = refl;
  whole = refl;
}

its_channels : Ahead three_numbers.channel_heap its_frame.current_channel ((its_file, 2) ∷ []) 4
unfolding frame_init channel_init
its_channels = channel 2 2 0 second_channel refl second_channel-Regular (one_more refl refl) refl

parse_loop-Passed_example :
    (d' : Dlis) × (f' : Frame) × (parse_loop (1 + 3) three_numbers ≡ parse_loop 3 d')
    × Passed ((its_file, 2) ∷ []) 4 three_numbers d'
    × Between d' 0 0 f'
    × Ahead d'.channel_heap f'.current_channel [] 0
unfolding frame_init channel_init
parse_loop-Passed_example =
    parse_loop-Passed three_numbers 0 0 3 4 its_frame ((its_file, 2) ∷ []) three_numbers-Between
      its_channels (omega arith) (omega arith)
