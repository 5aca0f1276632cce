-- ===== src/Dlis/Sound/Search.antt =====
-- dlis.cc: the searches through frames and channels find objects that are there.
use dlis_parser.Base.{
  ℕ, zero, suc, ◌<◌, ◌≡◌, arith, List, [], ◌∷◌, length, get_elem?, Option, none, some, Bool,
}
use dlis_parser.Codec.Value.{ok, fault}
use dlis_parser.Dlis.State.{Frame, Channel}
use dlis_parser.Dlis.Iflr.{deref}
use dlis_parser.Dlis.Heap.{find_channel, find_frame, last_frame, find_in_frames}
use dlis_parser.Dlis.Sound.{Points}
use dlis_parser.Dlis.Sound.Each.{Each, then-Each, if-Each, found-Each}

module _ {A : Type 0} where
  pub get_elem?-lt : (xs : List A) (i : ℕ) (a : A) → get_elem? xs i ≡ some a → i < length xs
  get_elem?-lt [] i a e = cc
  get_elem?-lt (x ∷ xs) zero a e = omega arith
  get_elem?-lt (x ∷ xs) (suc i) a e = omega (arith, get_elem?-lt xs i a e)

  pub deref-Points :
      (heap : List A) (p : Option ℕ) → Each (λ (i, a). i < length heap) (deref heap p)
  unfolding deref
  deref-Points heap none = tt
  deref-Points heap (some i) =
      found-Each (λ (i, a). i < length heap) (get_elem? heap i) fault (λ a. ok (i, a)) tt
        (λ a found. get_elem?-lt heap i a found)

pub find_channel-Points :
    (next : Channel → Option ℕ) (test : Channel → Bool) (fuel : ℕ) (heap : List Channel)
    (p : Option ℕ)
    → Each (Points (length heap)) (find_channel next test fuel heap p)
unfolding find_channel
find_channel-Points next test fuel heap none = tt
find_channel-Points next test zero heap (some i) = tt
find_channel-Points next test (suc fuel) heap (some i) =
    found-Each (Points (length heap)) (get_elem? heap i) fault _ tt (λ c found.
      if-Each (Points (length heap)) (test c) (ok (some i)) _ (get_elem?-lt heap i c found)
        (find_channel-Points next test fuel heap (next c)))

pub find_frame-Points :
    (test : Frame → Bool) (fuel : ℕ) (heap : List Frame) (p : Option ℕ)
    → Each (Points (length heap)) (find_frame test fuel heap p)
unfolding find_frame
find_frame-Points test fuel heap none = tt
find_frame-Points test zero heap (some i) = tt
find_frame-Points test (suc fuel) heap (some i) =
    found-Each (Points (length heap)) (get_elem? heap i) fault _ tt (λ f found.
      if-Each (Points (length heap)) (test f) (ok (some i)) _ (get_elem?-lt heap i f found)
        (find_frame-Points test fuel heap f.next))

pub last_frame-Points :
    (fuel : ℕ) (heap : List Frame) (i : ℕ) → Each (λ j. j < length heap) (last_frame fuel heap i)
unfolding last_frame
last_frame-Points zero heap i = tt
last_frame-Points (suc fuel) heap i =
    found-Each (λ j. j < length heap) (get_elem? heap i) fault _ tt
      (λ f found.
        found-Each (λ j. j < length heap) (f.next) (ok i) _ (get_elem?-lt heap i f found)
          (λ j behind. last_frame-Points fuel heap j))

pub find_in_frames-Points :
    (test : Channel → Bool) (fuel : ℕ) (frames : List Frame) (heap : List Channel) (p : Option ℕ)
    → Each (Points (length heap)) (find_in_frames test fuel frames heap p)
unfolding find_in_frames
find_in_frames-Points test fuel frames heap none = tt
find_in_frames-Points test zero frames heap (some i) = tt
find_in_frames-Points test (suc fuel) frames heap (some i) =
    found-Each (Points (length heap)) (get_elem? frames i) fault _ tt (λ f here.
      then-Each (Points (length heap)) (Points (length heap))
        (find_channel (λ c. c.f_next) test (suc (length heap)) heap f.channels) _
        (find_channel-Points (λ c. c.f_next) test (suc (length heap)) heap f.channels)
        (elim [
          | none ↦ λ _. find_in_frames-Points test fuel frames heap f.next
          | some j ↦ λ inside. inside
        ]))
