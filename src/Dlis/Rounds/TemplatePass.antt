-- ===== src/Dlis/Rounds/TemplatePass.antt =====
-- dlis.cc, parse: the template of a set, taken attribute by attribute.
use dlis_parser.Base.{
  ℕ, suc, ◌+◌, ◌*◌, ◌≤◌, ◌<◌, ◌≡◌, refl, ap, subst, ◌∙◌, arith, some, List, [], ◌∷◌, ◌++◌, length,
  length-append, get_elem?, All, get_elem?-set_self, get_elem?-set_ne,
}
use dlis_parser.Codec.Memory.{Mem, Holds, Holds-append}
use dlis_parser.Dlis.State.{Dlis, TemplateObject, here}
use dlis_parser.Dlis.Template.{max_templt_objs, template_object}
use dlis_parser.Dlis.Template.Queue.{queued-IsQueue}
use dlis_parser.Dlis.Eflr.Fields.{Fields, fields_bytes, Fits}
use dlis_parser.Dlis.Parse.{parse_loop}
use dlis_parser.Dlis.Parse.Loop.{parse_loop-suc, goes_on}
use dlis_parser.Dlis.Rounds.FirstByte.{attrib_byte}
use dlis_parser.Dlis.Rounds.Attributes.{
  one_further, InTemplate, own, stored, comp_round, attrib_round, taken,
}
use dlis_parser.Dlis.Rounds.Objects.{Stands, own-Stands}

-- The components of a template: for each attribute its first byte and its fields.
abbrev pub template_bytes : List Fields → List ℕ
template_bytes [] = []
template_bytes (f ∷ fs) = attrib_byte f ∷ (fields_bytes f ++ template_bytes fs)

-- From place w on the objects say what the attributes say.
abbrev pub Describes : Mem → ℕ → List Fields → List TemplateObject → Type 0
Describes m w [] ts = Unit {0}
Describes m w (f ∷ fs) ts =
    ((o : TemplateObject) × (get_elem? ts w ≡ some o) × Stands m f o) × Describes m (w + 1) fs ts

-- The attributes are in the template from place w on, n bytes are taken, and nothing is sent.
pub record Read (fs : List Fields) (w n : ℕ) (d d' : Dlis) : Type 0 where
  pub objects : Describes d.buffer w fs d'.state.templt
  pub earlier : (k : ℕ) → k < w → get_elem? d'.state.templt k ≡ get_elem? d.state.templt k
  pub index : d'.byte_idx ≡ d.byte_idx + n
  pub segment_count : d'.state.lrs_byte_cnt ≡ d.state.lrs_byte_cnt + n
  pub record_count : d'.state.vr_byte_cnt ≡ d.state.vr_byte_cnt + n
  pub same : (d'.buffer ≡ d.buffer) × (d'.events ≡ d.events)

two_rounds : (n fuel : ℕ) → 2 * suc n + fuel ≡ suc (suc (2 * n + fuel))
two_rounds n fuel = omega arith

-- Where the fields and what follows them lie.
behind :
    (d : Dlis) (f : Fields) (w : ℕ) → here d 1 + length (fields_bytes f) ≡ here (stored d f w) 0
behind d f w = omega arith

stored-InTemplate :
    (d : Dlis) (t w : ℕ) (f : Fields)
    → InTemplate d t w
    → w < max_templt_objs
    → InTemplate (stored d f w) t (w + 1)
stored-InTemplate d t w f inside free =
    let q = queued-IsQueue d.state (own d f) w inside.queue free in
    record {
      code = refl;
      trail = inside.trail;
      no_object = inside.no_object;
      queue = record { places = q.places; index = q.index; fits = q.fits };
    }

-- The object that was stored is found in a template that is the same at its place.
kept_object :
    (ts : List TemplateObject) (d : Dlis) (t w : ℕ) (f : Fields)
    → InTemplate d t w
    → w < max_templt_objs
    → Holds d.buffer (here d 1) (fields_bytes f)
    → get_elem? ts w ≡ get_elem? (stored d f w).state.templt w
    → (o : TemplateObject) × (get_elem? ts w ≡ some o) × Stands d.buffer f o
kept_object ts d t w f inside free held same = (
  template_object (own d f),
  same
      ∙ get_elem?-set_self d.state.templt w (template_object (own d f))
          (rw (inside.queue.places) free),
  own-Stands d f (subst (λ q. Holds d.buffer q (fields_bytes f)) (one_further d) held),
)

-- In a well-formed template of w attributes, before any object, at a component and with the
-- trailer known, let the encodings of some attributes without values lie one after the other at
-- the front of the bytes: for each the first byte that announces just its fields, and the fields,
-- a count being below 2^30. If all have come in, lie in the segment with a byte left in front of
-- the trailer, and have room in the template, the loop spends two rounds on each, takes just
-- these bytes, sends nothing, and is again at a component of a well-formed template. From place w
-- on this holds an object for each, in order, whose label, count, code and unit are those of the
-- attribute, with an empty text, 1 and IDENT (19) for what it does not give; the objects before
-- them stay.
pub parse_loop-template_bytes :
    (d : Dlis) (t w fuel : ℕ) (fs : List Fields)
    → InTemplate d t w
    → All Fits fs
    → Holds d.buffer (here d 0) (template_bytes fs)
    → d.byte_idx + length (template_bytes fs) ≤ d.max_byte_idx
    → d.state.lrs_byte_cnt + length (template_bytes fs) + t < d.state.lrs_len
    → w + length fs ≤ max_templt_objs
    → (d' : Dlis) × (parse_loop (2 * length fs + fuel) d ≡ parse_loop fuel d')
      × InTemplate d' t (w + length fs)
      × Read fs w (length (template_bytes fs)) d d'
parse_loop-template_bytes d t w fuel [] inside fits held buffer segment free = (
  d,
  let none : 0 + fuel ≡ fuel = omega arith in ap (λ k. parse_loop k d) none,
  let none : w ≡ w + 0 = omega arith in subst (InTemplate d t) none inside,
  record {
    objects = tt;
    earlier = λ k less. refl;
    index = omega arith;
    segment_count = omega arith;
    record_count = omega arith;
    same = (refl, refl);
  },
)
parse_loop-template_bytes d t w fuel (f ∷ fs) inside fits held buffer segment free =
    let n : ℕ = length (fields_bytes f) in
    let sum : length (fields_bytes f ++ template_bytes fs) ≡ n + length (template_bytes fs) =
      length-append (fields_bytes f) (template_bytes fs) in
    let further : here d 0 + 1 ≡ here d 1 = omega arith in
    let (own_held, rest) =
      Holds-append d.buffer (here d 1) (fields_bytes f) (template_bytes fs)
        (subst (λ q. Holds d.buffer q (fields_bytes f ++ template_bytes fs)) further held.1) in
    let next : w < max_templt_objs = omega (arith, free) in
    let come : d.byte_idx < d.max_byte_idx = omega (arith, buffer) in
    let first = comp_round d t w f inside held.0 come in
    let second =
      attrib_round d t w f inside held.0 come fits.0 own_held (omega (arith, buffer, segment, sum))
        next (omega (arith, segment, sum)) in
    let e : Dlis = stored d f w in
    let (d', run, inside', read) =
      parse_loop-template_bytes e t (w + 1) fuel fs (stored-InTemplate d t w f inside next) fits.1
        (subst (λ q. Holds d.buffer q (template_bytes fs)) (behind d f w) rest)
        (omega (arith, buffer, sum)) (omega (arith, segment, sum)) (omega (arith, free)) in
    let all : w + 1 + length fs ≡ w + suc (length fs) = omega arith in
    (
      d',
      ap (λ k. parse_loop k d) (two_rounds (length fs) fuel)
          ∙ parse_loop-suc (suc (2 * length fs + fuel)) d
          ∙ ap (goes_on (suc (2 * length fs + fuel))) first
          ∙ parse_loop-suc (2 * length fs + fuel) (taken d (attrib_byte f))
          ∙ ap (goes_on (2 * length fs + fuel)) second
          ∙ run,
      subst (InTemplate d' t) all inside',
      record {
        objects = (
          kept_object d'.state.templt d t w f inside next own_held (read.earlier w (omega arith)),
          read.objects,
        );
        earlier = λ k less.
            read.earlier k (omega (arith, less))
            ∙ get_elem?-set_ne d.state.templt {i = w} {j = k} (template_object (own d f))
                (λ same. omega (arith, same, less));
        index = omega (arith, read.index, sum);
        segment_count = omega (arith, read.segment_count, sum);
        record_count = omega (arith, read.record_count, sum);
        same = read.same;
      },
    )
