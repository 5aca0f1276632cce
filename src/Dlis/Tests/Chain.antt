-- ===== src/Dlis/Tests/Chain.antt =====
-- The theorems on the lists of channels at one and two channels.
use dlis_parser.Base.{List, [], ◌∷◌, ◌≡◌, refl, arith, get_elem?, some, ℕ, Bool, false}
use dlis_parser.Codec.Value.{ok, hang, NameVal}
use dlis_parser.Dlis.State.{Dlis, Frame, Channel, frame_init, channel_init}
use dlis_parser.Dlis.Samples.{unset}
use dlis_parser.Dlis.Heap.{link_channel, new_channel, find_channel, find_in_frames}
use dlis_parser.Dlis.Strings.{channel_obname_cmp}
use dlis_parser.Dlis.Heap.Cycle.{stop, new_channel-cycle}
use dlis_parser.Dlis.Heap.Chain.{only, Channels, from_to, link_channel-Channels}

abbrev one_channel : Frame
unfolding frame_init
one_channel = record frame_init { channels = some 0; current_channel = some 0 }

-- A second channel is allocated, which no frame has yet.
abbrev two_channels : Dlis
unfolding frame_init channel_init
two_channels = record unset {
  frame_heap = one_channel ∷ [];
  channel_heap = channel_init ∷ channel_init ∷ [];
  current_frame = some 0;
}

one_channel-Channels : Channels two_channels.channel_heap one_channel (0 ∷ [])
unfolding frame_init channel_init
one_channel-Channels = from_to refl refl (only refl refl)

link_channel-Channels_example :
    (d' : Dlis) × (f' : Frame) × (link_channel two_channels 0 one_channel 1 ≡ ok d')
    × (get_elem? d'.frame_heap 0 ≡ some f')
    × Channels d'.channel_heap f' (0 ∷ 1 ∷ [])
unfolding channel_init two_channels
link_channel-Channels_example =
    link_channel-Channels two_channels 0 one_channel 1 channel_init (0 ∷ []) refl
      one_channel-Channels refl refl ((λ e. absurd (omega (arith, e))), tt)

-- A channel that a frame has named, and that is in the list of all channels.
abbrev named_channel : Channel
unfolding channel_init
named_channel = record channel_init { origin = 1; name = 65 ∷ [] }

abbrev one_named : Dlis
unfolding frame_init channel_init
one_named = record unset {
  frame_heap = one_channel ∷ [];
  channel_heap = named_channel ∷ [];
  current_frame = some 0;
  channels = some 0;
  current_channel = some 0;
}

abbrev its_name : NameVal
its_name = record { origin = 1; copy_number = 0; name = 65 ∷ [] }

new_channel-cycle_example :
    (d' : Dlis) × (new_channel one_named its_name ≡ ok d')
    × ((test : Channel → Bool)
        → ((i : ℕ) (c : Channel) → get_elem? d'.channel_heap i ≡ some c → test c ≡ false)
        → (fuel : ℕ) → find_channel (λ c. c.next) test fuel d'.channel_heap (some 0) ≡ hang)
unfolding frame_init channel_init find_in_frames find_channel channel_obname_cmp
new_channel-cycle_example =
    new_channel-cycle one_named its_name 0 0 named_channel refl refl refl stop

-- One channel that is the next of itself.
abbrev round_heap : List Channel
round_heap = record named_channel { next = some 0 } ∷ []
