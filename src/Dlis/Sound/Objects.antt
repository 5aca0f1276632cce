-- ===== src/Dlis/Sound/Objects.antt =====
-- dlis.cc: new frames and channels, and their links.
use dlis_parser.Base.{
  ℕ, suc, ◌<◌, ◌≡◌, ◌∙◌, arith, List, [], ◌∷◌, ◌++◌, length, length-append, All, set, length-set,
  none, some, Option-cases, inl, inr, ◌+◌, ap, ◌==◌, ◌&&◌,
}
use dlis_parser.Codec.Value.{fault, NameVal}
use dlis_parser.Dlis.State.{Frame, Channel, Dlis, frame_init, channel_init}
use dlis_parser.Dlis.Strings.{channel_obname_cmp}
use dlis_parser.Dlis.Iflr.{deref}
use dlis_parser.Dlis.Heap.{
  update_frame, update_channel, name_fits, new_frame, append_channel, named_channel, open_file,
  alloc_channel, new_channel, link_channel, frame_channel, find_in_frames, find_channel,
}
use dlis_parser.Dlis.Sound.{Points, FramePoints, ChannelPoints, IsLinked}
use dlis_parser.Dlis.Sound.Each.{Each, bind-Each, then-Each, if-Each, found-Each}
use dlis_parser.Dlis.Sound.Search.{deref-Points, find_channel-Points, find_in_frames-Points}
use dlis_parser.Dlis.Sound.Heap.{
  updated, All-updated, length-updated, All-set, All-snoc, All-map, Points-le, FramePoints-le,
  ChannelPoints-le, update_frame_lem, update_channel_lem, update_frame-IsLinked,
  update_channel-IsLinked,
}

length-snoc : {A : Type 0} (xs : List A) (a : A) → length (xs ++ (a ∷ [])) ≡ suc (length xs)
length-snoc xs a = omega (arith, length-append xs (a ∷ []))

pub update_frame_channels :
    (d : Dlis) (i : ℕ) (g : Frame → Frame) → (update_frame d i g).channel_heap ≡ d.channel_heap
update_frame_channels d i g = ap (λ x. x.channel_heap) (update_frame_lem d i g)

pub length-update_channel :
    (d : Dlis) (i : ℕ) (g : Channel → Channel)
    → length (update_channel d i g).channel_heap ≡ length d.channel_heap
length-update_channel d i g = rw (update_channel_lem d i g) (length-updated d.channel_heap i g)

module _ (d : Dlis) (l : IsLinked d) where
  first_frame-IsLinked :
      (f : Frame)
      → FramePoints (length d.frame_heap) (length d.channel_heap) f
      → IsLinked (record d { current_frame = some 0; frame_heap = set d.frame_heap 0 f })
  first_frame-IsLinked f p =
      let same : length (set d.frame_heap 0 f) ≡ length d.frame_heap =
        length-set d.frame_heap 0 f in
      record {
        some_frame = rw same l.some_frame;
        frames_point = rw same (All-set _ d.frame_heap 0 f l.frames_point p);
        channels_point = l.channels_point;
        frame_points = rw same (l.some_frame);
        first_points = l.first_points;
        last_points = l.last_points;
      }

  -- A frame at the end of the heap, to which the current one leads.
  next_frame-IsLinked :
      (i : ℕ) (f : Frame)
      → FramePoints (suc (length d.frame_heap)) (length d.channel_heap) f
      → IsLinked (record d {
        current_frame = some (length d.frame_heap);
        frame_heap =
            updated d.frame_heap i (λ g. record g { next = some (length d.frame_heap) })
            ++ (f ∷ []);
      })
  next_frame-IsLinked i f p =
      let n : ℕ = length d.frame_heap in
      let k : ℕ = length d.channel_heap in
      let heap : List Frame = updated d.frame_heap i (λ g. record g { next = some n }) in
      let grown : length (heap ++ (f ∷ [])) ≡ suc n =
        length-snoc heap f
        ∙ ap suc (length-updated d.frame_heap i (λ g. record g { next = some n })) in
      let all : All (FramePoints (suc n) k) heap =
        All-updated (FramePoints (suc n) k) d.frame_heap i (λ g. record g { next = some n })
          (λ g q. record { first = q.first; last = q.last; behind = omega arith })
          (All-map _ (FramePoints (suc n) k) d.frame_heap
            (FramePoints-le n (suc n) k k (omega arith) (omega arith)) l.frames_point) in
      record {
        some_frame = rw grown (omega arith);
        frames_point = rw grown (All-snoc (FramePoints (suc n) k) heap f all p);
        channels_point = l.channels_point;
        frame_points = rw grown (omega arith);
        first_points = l.first_points;
        last_points = l.last_points;
      }

  pub new_frame-IsLinked : (o : NameVal) → Each IsLinked (new_frame d o)
  unfolding new_frame frame_init
  new_frame-IsLinked o =
      if-Each IsLinked (name_fits o.name) _ fault
        (found-Each IsLinked (d.current_frame) _ _
          (first_frame-IsLinked _ (record { first = tt; last = tt; behind = tt }))
          (λ i current.
            rw (update_frame_lem d i (λ g. record g { next = some (length d.frame_heap) }))
              (next_frame-IsLinked i _ (record { first = tt; last = tt; behind = tt }))))
        tt

  pub alloc_channel-IsLinked : (o : NameVal) → IsLinked (alloc_channel d o)
  unfolding alloc_channel named_channel channel_init
  alloc_channel-IsLinked o =
      let k : ℕ = length d.channel_heap in
      let c : Channel = named_channel d.state.seq_num o in
      let grown : length (d.channel_heap ++ (c ∷ [])) ≡ suc k = length-snoc d.channel_heap c in
      record {
        some_frame = l.some_frame;
        frames_point = rw grown (
            All-map _ _ d.frame_heap (FramePoints-le _ _ k (suc k) (omega arith) (omega arith))
              l.frames_point);
        channels_point = rw grown (
            All-snoc (ChannelPoints (suc k)) d.channel_heap c
              (All-map _ _ d.channel_heap (ChannelPoints-le k (suc k) (omega arith))
                l.channels_point)
              (record { behind = tt; in_frame = tt }));
        frame_points = l.frame_points;
        first_points = rw grown (Points-le k (suc k) d.channels (omega arith) l.first_points);
        last_points = rw grown (Points-le k (suc k) d.current_channel (omega arith) l.last_points);
      }

  pub alloc_channel-new :
      (o : NameVal) → length d.channel_heap < length (alloc_channel d o).channel_heap
  unfolding alloc_channel
  alloc_channel-new o = omega (arith, length-snoc d.channel_heap (named_channel d.state.seq_num o))

  pub append_channel-IsLinked : (j : ℕ) → j < length d.channel_heap → IsLinked (append_channel d j)
  unfolding append_channel
  append_channel-IsLinked j inside = elim (Option-cases (d.current_channel)) [
    | inl first ↦
        rw (first, append_channel)
          (record {
            some_frame = l.some_frame;
            frames_point = l.frames_point;
            channels_point = l.channels_point;
            frame_points = l.frame_points;
            first_points = inside;
            last_points = inside;
          })
    | inr (i, last) ↦
        (let u : IsLinked (update_channel d i (λ c. record c { next = some j })) =
            update_channel-IsLinked d i (λ c. record c { next = some j }) l
              (λ c p. record { behind = inside; in_frame = p.in_frame }) in
          rw (last, append_channel)
            (record {
              some_frame = u.some_frame;
              frames_point = u.frames_point;
              channels_point = u.channels_point;
              frame_points = u.frame_points;
              first_points = u.first_points;
              last_points = rw (length-update_channel d i (λ c. record c { next = some j })) inside;
            }))
  ]

  pub open_file-IsLinked : (o : NameVal) → IsLinked (open_file o d)
  unfolding open_file
  open_file-IsLinked o = elim (Option-cases (d.current_channel)) [
    | inl absent ↦ rw (absent, open_file) l
    | inr (i, last) ↦
        rw (last, open_file)
          (update_channel-IsLinked d i _ l
            (λ c p. record { behind = p.behind; in_frame = p.in_frame }))
  ]

module _ (d : Dlis) (l : IsLinked d) where
  pub new_channel-IsLinked : (o : NameVal) → Each IsLinked (new_channel d o)
  unfolding new_channel
  new_channel-IsLinked o =
      then-Each (Points (length d.channel_heap)) IsLinked
        (find_in_frames (λ c. channel_obname_cmp d.state.seq_num c o) (suc (length d.frame_heap))
          d.frame_heap d.channel_heap (some 0))
        _ (find_in_frames-Points _ _ d.frame_heap d.channel_heap (some 0))
        (elim [
          | some j ↦ λ inside.
              open_file-IsLinked (append_channel d j) (append_channel-IsLinked d l j inside) o
          | none ↦ λ _.
              if-Each IsLinked (name_fits o.name) _ fault
                (open_file-IsLinked (append_channel (alloc_channel d o) (length d.channel_heap))
                  (append_channel-IsLinked (alloc_channel d o) (alloc_channel-IsLinked d l o)
                    (length d.channel_heap) (alloc_channel-new d l o))
                  o)
                tt
        ])

  pub link_channel-IsLinked :
      (i : ℕ) (f : Frame) (j : ℕ) → j < length d.channel_heap → Each IsLinked (link_channel d i f j)
  unfolding link_channel
  link_channel-IsLinked i f j inside =
      found-Each IsLinked (f.channels) _ _
        (update_channel-IsLinked (update_frame d i _) j _
          (update_frame-IsLinked d i _ l
            (λ g p. record { first = inside; last = inside; behind = p.behind }))
          (λ c p. record { behind = p.behind; in_frame = p.in_frame }))
        (λ _ _.
          then-Each (λ (at, c). at < length d.channel_heap) IsLinked
            (deref d.channel_heap f.current_channel) _
            (deref-Points d.channel_heap f.current_channel)
            (λ (at, last) here.
              let d₁ : Dlis = update_channel d j (λ c. record c { index = last.index + 1 }) in
              let d₂ : Dlis = update_channel d₁ at (λ c. record c { f_next = some j }) in
              let same₁ : length d₁.channel_heap ≡ length d.channel_heap =
                length-update_channel d j (λ c. record c { index = last.index + 1 }) in
              let same₂ : length d₂.channel_heap ≡ length d₁.channel_heap =
                length-update_channel d₁ at (λ c. record c { f_next = some j }) in
              let l₁ : IsLinked d₁ =
                update_channel-IsLinked d j _ l
                  (λ c p. record { behind = p.behind; in_frame = p.in_frame }) in
              let l₂ : IsLinked d₂ =
                update_channel-IsLinked d₁ at _ l₁
                  (λ c p. record { behind = p.behind; in_frame = omega (arith, inside, same₁) }) in
              update_frame-IsLinked d₂ i (λ f. record f { current_channel = some j }) l₂
                (λ g p. record {
                  first = p.first;
                  last = omega (arith, inside, same₁, same₂);
                  behind = p.behind;
                })))

module _ (d : Dlis) (l : IsLinked d) where
  pub frame_channel-IsLinked : (o : NameVal) → Each IsLinked (frame_channel d o)
  unfolding frame_channel alloc_channel
  frame_channel-IsLinked o = bind-Each IsLinked (deref d.frame_heap d.current_frame) _ (λ (i, f) _.
      then-Each (Points (length d.channel_heap)) IsLinked
        (find_channel (λ c. c.next)
          (λ c. (c.seq_num == d.state.seq_num) && channel_obname_cmp d.state.seq_num c o)
          (suc (length d.channel_heap)) d.channel_heap d.channels)
        _ (find_channel-Points _ _ _ d.channel_heap d.channels)
        (elim [
          | some j ↦ λ inside. link_channel-IsLinked d l i f j inside
          | none ↦ λ _.
              if-Each IsLinked (name_fits o.name) _ fault
                (link_channel-IsLinked (alloc_channel d o) (alloc_channel-IsLinked d l o) i f
                  (length d.channel_heap) (alloc_channel-new d l o))
                tt
        ]))
