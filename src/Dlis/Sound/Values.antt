-- ===== src/Dlis/Sound/Values.antt =====
-- dlis.cc: the values of a frame's channels leave every pointer on an object.
use dlis_parser.Base.{
  ℕ, ◌≡◌, arith, List, length, length-set, set, get_elem?, Option, some, Bool-cases, inl, inr, ◌==◌,
}
use dlis_parser.Codec.Number.{Double}
use dlis_parser.Codec.Value.{ok, fault, Value}
use dlis_parser.Codec.Serialize.{get_scalar_value}
use dlis_parser.Dlis.State.{Frame, Dlis, ParseState}
use dlis_parser.Dlis.Iflr.{deref, frame_bounds, move_bounds, add_value, take_value}
use dlis_parser.Dlis.Eflr.{set_index_type}
use dlis_parser.Dlis.Rounds.Data.{next_channel}
use dlis_parser.Dlis.Sound.{FramePoints, ChannelPoints, IsLinked}
use dlis_parser.Dlis.Sound.Each.{Each, bind-Each, then-Each, if-Each, found-Each}
use dlis_parser.Dlis.Sound.Heap.{All-get, All-set, update_frame-IsLinked}

deref_found :
    {A : Type 0} (heap : List A) (p : Option ℕ) (i : ℕ) (a : A)
    → deref heap p ≡ ok (i, a)
    → get_elem? heap i ≡ some a
unfolding deref
deref_found heap p i a e = ground arith

pub next_channel-IsLinked : (d : Dlis) → IsLinked d → Each IsLinked (next_channel d)
unfolding next_channel
next_channel-IsLinked d l = bind-Each IsLinked (deref d.frame_heap d.current_frame) _ (λ (i, f) _.
    found-Each IsLinked (f.current_channel) _ _ l (λ j _.
      bind-Each IsLinked (deref d.channel_heap (some j)) _ (λ (k, c) e.
        let p : ChannelPoints (length d.channel_heap) c =
          All-get _ d.channel_heap k c l.channels_point
            (deref_found d.channel_heap (some j) k c e) in
        update_frame-IsLinked d i (λ f. record f { current_channel = c.f_next }) l
          (λ f q. record { first = q.first; last = p.in_frame; behind = q.behind }))))

-- A frame that is replaced by one with the same pointers.
put_frame-IsLinked :
    (d : Dlis) (i : ℕ) (f : Frame) (s : ParseState)
    → IsLinked d
    → FramePoints (length d.frame_heap) (length d.channel_heap) f
    → IsLinked (record d { state = s; frame_heap = set d.frame_heap i f })
put_frame-IsLinked d i f s l p =
    let same : length (set d.frame_heap i f) ≡ length d.frame_heap = length-set d.frame_heap i f in
    record {
      some_frame = rw same l.some_frame;
      frames_point = rw same (All-set _ d.frame_heap i f l.frames_point p);
      channels_point = l.channels_point;
      frame_points = rw same l.frame_points;
      first_points = l.first_points;
      last_points = l.last_points;
    }

pub set_index_type-IsLinked : (d : Dlis) → IsLinked d → Each IsLinked (set_index_type d)
unfolding set_index_type
set_index_type-IsLinked d l = found-Each IsLinked (d.current_frame) fault _ tt (λ i _.
    found-Each IsLinked (get_elem? d.frame_heap i) fault _ tt (λ f found.
      let p : FramePoints (length d.frame_heap) (length d.channel_heap) f =
        All-get _ d.frame_heap i f l.frames_point found in
      put_frame-IsLinked d i _ d.state l
        (record { first = p.first; last = p.last; behind = p.behind })))

bounds-Points :
    (n k : ℕ) (s : ParseState) (f : Frame) (idx : Double)
    → FramePoints n k f
    → FramePoints n k (frame_bounds s f idx).1
unfolding frame_bounds
bounds-Points n k s f idx p = elim (Bool-cases (f.index_type)) [
  | inl e ↦ rw (e, frame_bounds) (record { first = p.first; last = p.last; behind = p.behind })
  | inr e ↦ rw (e, frame_bounds) (record { first = p.first; last = p.last; behind = p.behind })
]

move_bounds-IsLinked : (d : Dlis) (v : Value) → IsLinked d → Each IsLinked (move_bounds d v)
unfolding move_bounds
move_bounds-IsLinked d v l = bind-Each IsLinked (deref d.frame_heap d.current_frame) _ (λ (i, f) e.
    bind-Each IsLinked (deref d.channel_heap f.current_channel) _ (λ (j, c) _.
      if-Each IsLinked (c.index == 1) _ (ok d)
        (bind-Each IsLinked (get_scalar_value v) _ (λ idx _.
          put_frame-IsLinked d i (frame_bounds d.state f idx).1 (frame_bounds d.state f idx).0 l (
            bounds-Points _ _ d.state f idx (
              All-get _ d.frame_heap i f l.frames_point
                (deref_found d.frame_heap d.current_frame i f e)))))
        l))

pub take_value-IsLinked : (d : Dlis) (v : Value) → IsLinked d → Each IsLinked (take_value d v)
unfolding take_value
take_value-IsLinked d v l =
    then-Each IsLinked IsLinked (move_bounds d v) _ (move_bounds-IsLinked d v l)
      (λ d' l'. bind-Each IsLinked (add_value d'.state.parsing_iflr_values v) _ (λ list _. l'))
