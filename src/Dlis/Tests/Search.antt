-- ===== src/Dlis/Tests/Search.antt =====
-- The theorems on the search for a frame at one frame.
use dlis_parser.Base.{ℕ, Option, arith, ◌≡◌, refl, false, none, some, [], ◌∷◌}
use dlis_parser.Codec.Text.{Obname}
use dlis_parser.Dlis.State.{Frame, Dlis}
use dlis_parser.Dlis.Heap.Search.{
  Frames, at_end, and_then, Earliest, IsNamed, started, on_iflr_header-first_of,
}
use dlis_parser.Dlis.Events.{on_iflr_header}
use dlis_parser.Base.Int.{pos}
use dlis_parser.Codec.Number.{of_uint}
use dlis_parser.Dlis.Samples.{loaded}

-- One frame, which the struct holds.
abbrev named_frame : Frame
named_frame = record {
  seq_num = 0;
  origin = 1;
  copy_number = 0;
  index_type = false;
  name = 65 ∷ 0 ∷ [];
  index_min = of_uint 1;
  index_max = of_uint 1;
  channels = none;
  current_channel = none;
  next = none;
}

abbrev one_frame : Dlis
one_frame = record (loaded (65 ∷ [])) { frame_heap = named_frame ∷ [] }

abbrev frame_name : Obname
frame_name = record { origin = 1; copy_number = 0; name = record { buff = 1; len = pos 1 } }

one_frame-Frames : Frames one_frame.frame_heap (some 0) ((0, named_frame) ∷ [])
one_frame-Frames = and_then refl at_end

on_iflr_header-first_of_example :
    (found : Option ℕ) × Earliest (IsNamed one_frame frame_name) ((0, named_frame) ∷ []) found
    × (on_iflr_header one_frame frame_name ≡ started one_frame found)
on_iflr_header-first_of_example =
    on_iflr_header-first_of one_frame frame_name ((0, named_frame) ∷ []) refl one_frame-Frames
      (omega arith)
