-- ===== src/Dlis/Samples.antt =====
-- Small states of the parser, for the tests.
use dlis_parser.Base.{
  zero, suc, ◌<◌, All, arith, get_elem?, ℕ, ◌-◌, false, none, some, List, [], ◌∷◌, replicate,
  length,
}
use dlis_parser.Codec.Memory.{Mem, IsBytes, SizedStr}
use dlis_parser.Base.Int.{pos}
use dlis_parser.Codec.Number.{of_uint}
use dlis_parser.Dlis.State.{Dlis, ParseState, frame_init, dlis_init, ParseCode}

abbrev pub no_str : SizedStr
no_str = record { buff = 0; len = pos 0 }

-- What `dlis_init` leaves alone, at zero.
abbrev pub blank_state : ParseState
blank_state = record {
  code = ParseCode.expecting_sul;
  vr_len = 0;
  vr_byte_cnt = 0;
  lrs_len = 0;
  lrs_byte_cnt = 0;
  lrs_attr = 0;
  lrs_type = 0;
  lrs_trail_len = pos 0;
  eflr_comp_first_byte = 0;
  templt = replicate 100 (record { label = no_str; repcode = 0; count = 0; unit = no_str });
  templt_write_idx = pos 0;
  templt_read_idx = pos 0;
  attrib_value_cnt = pos 0;
  attrib_repcode = pos 0;
  attrib_label = no_str;
  parsing_set_type = [];
  parsing_obj = record { origin = 0; copy_number = 0; name = no_str };
  parsing_obj_binn = none;
  parsing_obj_values = none;
  parsing_repcode = pos 0;
  parsing_dimension = pos 0;
  parsing_value_cnt = pos 0;
  parsing_iflr_values = none;
  parsing_frame_index = of_uint 0;
  unparsed_buff_len = 0;
  seq_num = 0;
  unparsed_buff = [];
}

abbrev pub unset : Dlis
unset = record {
  buffer_idx = 0;
  byte_idx = 0;
  max_byte_idx = 0;
  vr_idx = 0;
  lr_idx = 0;
  lrs_idx = 0;
  state = blank_state;
  buffer = λ p. 0;
  frame_heap = [];
  channel_heap = [];
  current_frame = none;
  channels = none;
  current_channel = none;
  n_type = false;
  events = [];
}

abbrev pub blank : Dlis
unfolding frame_init dlis_init
blank = dlis_init (record unset { frame_heap = frame_init ∷ [] })

-- A file whose first bytes have come in, and nothing is parsed.
abbrev pub holding : List ℕ → Mem
holding bs p = elim (get_elem? bs (p - 1)) [ none ↦ 0 | some b ↦ b ]

small_at :
    (bs : List ℕ) (i : ℕ)
    → All (λ b. b < 256) bs
    → elim (get_elem? bs i) [ none ↦ 0 | some b ↦ b ] < 256
small_at [] i small = omega arith
small_at (b ∷ bs) zero small = small.0
small_at (b ∷ bs) (suc i) small = small_at bs i small.1

pub holding-IsBytes : (bs : List ℕ) → All (λ b. b < 256) bs → IsBytes (holding bs)
holding-IsBytes bs small p = small_at bs (p - 1) small

abbrev pub loaded : List ℕ → Dlis
loaded bs = record unset { buffer = holding bs; max_byte_idx = length bs }
