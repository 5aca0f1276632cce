-- ===== src/Dlis/Rounds/Between.antt =====
-- dlis.cc, parse: between the data of two channels of a frame.
use dlis_parser.Base.{ℕ, ◌+◌, ◌*◌, ◌≤◌, ◌≡◌, true, false, ◌||◌, ◌==◌, none, some, ◌∷◌, get_elem?}
use dlis_parser.Base.Int.{pos, leb_ℤ, ◌+ℤ◌}
use dlis_parser.Codec.Value.{RepCode, rep_codes, repcode_size}
use dlis_parser.Codec.Serialize.{Calls, new}
use dlis_parser.Codec.Serialize.Parsed.{is_decoded}
use dlis_parser.Dlis.State.{
  Dlis, Frame, Channel, FileKey, curve_line, with_state, expecting_iflr_data,
}
use dlis_parser.Dlis.Iflr.{eod}
use dlis_parser.Dlis.Iflr.Whole.{after_values}
use dlis_parser.Dlis.Heap.Chain.{written}

-- A channel that is not the first of its frame, with n values of s bytes each and an open file.
pub record Regular (c : Channel) (key : FileKey) (n s : ℕ) : Type 0 where
  pub number : ℕ
  pub code : RepCode
  pub repcode : c.repcode ≡ pos number
  pub found : get_elem? rep_codes number ≡ some code
  pub sized : repcode_size code ≡ some s
  pub decoded : is_decoded code ≡ true
  pub some_byte : 1 ≤ s
  pub some_value : 1 ≤ n
  pub dimension : c.dimension ≡ pos n
  pub file : c.fp ≡ some key
  pub other : (c.index == 1) ≡ false

-- In the data of the frame f, between two channels.
pub record Between (d : Dlis) (t i : ℕ) (f : Frame) : Type 0 where
  pub code : d.state.code ≡ expecting_iflr_data
  pub trail : d.state.lrs_trail_len ≡ pos t
  pub goes_on : (d.state.lrs_type == eod) ≡ false
  pub frame : d.current_frame ≡ some i
  pub found : get_elem? d.frame_heap i ≡ some f
  pub no_values : d.state.parsing_iflr_values ≡ none
  pub whole :
      (leb_ℤ d.state.parsing_dimension (pos 0)
        || leb_ℤ d.state.parsing_dimension d.state.parsing_value_cnt)
      ≡ true

-- At the first value of the channel c.
abbrev pub begun : Dlis → Channel → Dlis
begun d c = with_state d (record (d.state) {
  parsing_repcode = c.repcode;
  parsing_dimension = c.dimension;
  parsing_value_cnt = pos 0;
})

-- The list of its values is opened.
abbrev pub opened : Dlis → Channel → Dlis
opened d c = with_state (begun d c) (record ((begun d c).state) { parsing_iflr_values = some new })

-- With all of its values in the list.
abbrev pub filled : Dlis → Channel → ℕ → Calls → Dlis
filled d c n list = after_values (opened d c) list (pos 0 +ℤ pos n)

-- Behind the line of the channel, at the next one.
abbrev pub lined : Dlis → ℕ → Channel → FileKey → ℕ → ℕ → Calls → Dlis
lined d i c key n s list = record d {
  byte_idx = d.byte_idx + n * s;
  state = record (d.state) {
    lrs_byte_cnt = d.state.lrs_byte_cnt + n * s;
    vr_byte_cnt = d.state.vr_byte_cnt + n * s;
    parsing_repcode = c.repcode;
    parsing_dimension = c.dimension;
    parsing_value_cnt = pos 0 +ℤ pos n;
    parsing_iflr_values = none;
  };
  frame_heap = written d.frame_heap i (λ f. record f { current_channel = c.f_next });
  events = curve_line key d.state.parsing_frame_index (some list) ∷ d.events;
}
