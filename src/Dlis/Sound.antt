-- ===== src/Dlis/Sound.antt =====
-- dlis.h and dlis.cc: the pointers that the parser keeps, and the bytes that it carries over.
pub mod Each
pub mod Search
pub mod Heap
pub mod Objects
pub mod Callbacks
pub mod Values
pub mod Input
pub mod Components
pub mod Steps
pub mod Eflr
pub mod Rounds
pub mod Loop
use dlis_parser.Base.{ℕ, ◌≤◌, ◌<◌, List, length, All, Option, none, some}
use dlis_parser.Dlis.State.{Frame, Channel, Dlis}
use dlis_parser.Dlis.Skip.{unparsed_size}

-- NULL, or the position of one of n objects.
abbrev pub Points : ℕ → Option ℕ → Type 0
Points n none = Unit
Points n (some i) = i < n

pub record FramePoints (frames channels_len : ℕ) (f : Frame) : Type 0 where
  pub first : Points channels_len f.channels
  pub last : Points channels_len f.current_channel
  pub behind : Points frames f.next

pub record ChannelPoints (channels_len : ℕ) (c : Channel) : Type 0 where
  pub behind : Points channels_len c.next
  pub in_frame : Points channels_len c.f_next

-- Every pointer is NULL or that of an object; the frame that the struct holds is there.
pub record Linked (frames : List Frame) (heap : List Channel) (frame first last : Option ℕ)
    : Type 0 where
  pub some_frame : 1 ≤ length frames
  pub frames_point : All (FramePoints (length frames) (length heap)) frames
  pub channels_point : All (ChannelPoints (length heap)) heap
  pub frame_points : Points (length frames) frame
  pub first_points : Points (length heap) first
  pub last_points : Points (length heap) last

abbrev pub IsLinked : Dlis → Type 0
IsLinked d = Linked d.frame_heap d.channel_heap d.current_frame d.channels d.current_channel

-- The bytes that wait fit their array, and all of them have been written.
pub record Carried (len : ℕ) (buff : List ℕ) : Type 0 where
  pub fits : len ≤ unparsed_size
  pub written : len ≤ length buff

abbrev pub IsCarried : Dlis → Type 0
IsCarried d = Carried d.state.unparsed_buff_len d.state.unparsed_buff

pub record IsSound (d : Dlis) : Type 0 where
  pub linked : IsLinked d
  pub carried : IsCarried d
