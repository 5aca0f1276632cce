-- ===== src/Dlis/State.antt =====
-- dlis.h: the state of the parser. Counters that the code keeps at 0 or above are numbers; the
-- others are integers.
pub mod Bytes
use dlis_parser.Base.{
  ℕ, ◌+◌, ◌-◌, ◌*◌, Bool, false, Option, none, some, List, [], ◌∷◌, get_elem?, ltb, if◌then◌else◌,
}
use dlis_parser.Base.Int.{ℤ, pos, sub_ℕ}
use dlis_parser.Codec.Memory.{Ptr, Mem, bytes, SizedStr}
use dlis_parser.Codec.Number.{Double, of_uint}
use dlis_parser.Codec.Text.{Obname}
use dlis_parser.Codec.Serialize.{Calls}

pub data ParseCode : Type 0 where
  expecting_sul expecting_vr expecting_lrs expecting_encryption_packet expecting_eflr_comp
        expecting_eflr_comp_set expecting_eflr_comp_rset expecting_eflr_comp_rdset
        expecting_eflr_comp_absatr expecting_eflr_comp_attrib expecting_eflr_comp_invatr
        expecting_eflr_comp_object expecting_lrs_trailing expecting_eflr_comp_attrib_value
        expecting_iflr_header expecting_iflr_data :
      ParseCode

pub record TemplateObject : Type 0 where
  pub label : SizedStr
  pub repcode : ℕ
  pub count : ℕ
  pub unit : SizedStr

-- The curve file of a channel: what its path is hashed from.
pub record FileKey : Type 0 where
  pub seq_num : ℕ
  pub origin : ℕ
  pub copy_number : ℕ
  pub name : List ℕ

-- `next` and `f_next` are pointers to channels: positions in the heap of all channels. `fp` is
-- `none` until a file is opened: `channel_init` does not set it.
pub record Channel : Type 0 where
  pub index : ℕ
  pub seq_num : ℕ
  pub origin : ℕ
  pub copy_number : ℕ
  pub name : List ℕ
  pub dimension : ℤ
  pub repcode : ℤ
  pub fp : Option FileKey
  pub next : Option ℕ
  pub f_next : Option ℕ

pub record Frame : Type 0 where
  pub seq_num : ℕ
  pub origin : ℕ
  pub copy_number : ℕ
  pub index_type : Bool
  pub name : List ℕ
  pub index_min : Double
  pub index_max : Double
  pub channels : Option ℕ
  pub current_channel : Option ℕ
  pub next : Option ℕ

-- What the parser sends out: a message to the JavaScript side (`none` for a NULL object), and a
-- line of a curve file with the list of values it is printed from.
pub data Event : Type 0 where
  message : Option Calls → Event
  curve_line : FileKey → Double → Option Calls → Event

pub record ParseState : Type 0 where
  pub code : ParseCode
  pub vr_len : ℕ
  pub vr_byte_cnt : ℕ
  pub lrs_len : ℕ
  pub lrs_byte_cnt : ℕ
  pub lrs_attr : ℕ
  pub lrs_type : ℕ
  pub lrs_trail_len : ℤ
  pub eflr_comp_first_byte : ℕ
  pub templt : List TemplateObject
  pub templt_write_idx : ℤ
  pub templt_read_idx : ℤ
  pub attrib_value_cnt : ℤ
  pub attrib_repcode : ℤ
  pub attrib_label : SizedStr
  pub parsing_set_type : List ℕ
  pub parsing_obj : Obname
  pub parsing_obj_binn : Option Calls
  pub parsing_obj_values : Option Calls
  pub parsing_repcode : ℤ
  pub parsing_dimension : ℤ
  pub parsing_value_cnt : ℤ
  pub parsing_iflr_values : Option Calls
  pub parsing_frame_index : Double
  pub unparsed_buff_len : ℕ
  pub seq_num : ℕ
  pub unparsed_buff : List ℕ

-- `buffer` is the array of four buffers in one address space. `frame_heap` starts with the frame
-- that the C struct holds itself; `channel_heap` and the rest are the allocated objects.
pub record Dlis : Type 0 where
  pub buffer_idx : ℕ
  pub byte_idx : ℕ
  pub max_byte_idx : ℕ
  pub vr_idx : ℕ
  pub lr_idx : ℕ
  pub lrs_idx : ℕ
  pub state : ParseState
  pub buffer : Mem
  pub frame_heap : List Frame
  pub channel_heap : List Channel
  pub current_frame : Option ℕ
  pub channels : Option ℕ
  pub current_channel : Option ℕ
  pub n_type : Bool
  pub events : List Event

abbrev pub buff_size : ℕ
buff_size = 65536

abbrev pub buff_num : ℕ
buff_num = 4

-- &buffer[b][i]. Address 0 is NULL, and the array begins at 1.
abbrev pub cell : ℕ → ℕ → Ptr
cell b i = 1 + b * buff_size + i

-- &buffer[buffer_idx][byte_idx + i]
abbrev pub here : Dlis → ℕ → Ptr
here d i = cell d.buffer_idx (d.byte_idx + i)

-- max_byte_idx - byte_idx, and lrs_len - lrs_byte_cnt
abbrev pub avail : Dlis → ℤ
avail d = sub_ℕ d.max_byte_idx d.byte_idx

abbrev pub lrs_remain : ParseState → ℤ
lrs_remain s = sub_ℕ s.lrs_len s.lrs_byte_cnt

-- The bytes that have come in and are not parsed.
abbrev pub window : Dlis → List ℕ
window d = bytes d.buffer (here d 0) (d.max_byte_idx - d.byte_idx)

-- The new state under the rest of the parser.
abbrev pub with_state : Dlis → ParseState → Dlis
with_state d s = record d { state = s }

abbrev pub send : Dlis → Event → Dlis
send d e = record d { events = e ∷ d.events }

-- What lies in the bytes `bs` written over the memory from `p` on.
unfoldable pub memmove : Mem → Ptr → List ℕ → Mem
memmove m p bs q = if ltb q p then m q else elim (get_elem? bs (q - p)) [ none ↦ m q | some b ↦ b ]

-- `dlis_init` on a dlis_t that holds anything: the fields that it does not name keep their value.
unfoldable pub dlis_init : Dlis → Dlis
dlis_init d = record d {
  buffer_idx = 0;
  byte_idx = 0;
  max_byte_idx = 0;
  vr_idx = 0;
  lr_idx = 0;
  lrs_idx = 0;
  n_type = false;
  state = record (d.state) { code = expecting_sul; seq_num = 0 };
  current_frame = none;
  current_channel = none;
}

unfoldable pub frame_init : Frame
frame_init = record {
  seq_num = 0;
  origin = 0;
  copy_number = 0;
  index_type = false;
  name = [];
  index_min = of_uint 1;
  index_max = of_uint 1;
  channels = none;
  current_channel = none;
  next = none;
}

unfoldable pub channel_init : Channel
channel_init = record {
  index = 0;
  seq_num = 0;
  origin = 0;
  copy_number = 0;
  name = [];
  dimension = pos 1;
  repcode = pos 19;
  fp = none;
  next = none;
  f_next = none;
}
