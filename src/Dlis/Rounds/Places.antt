-- ===== src/Dlis/Rounds/Places.antt =====
-- dlis.cc, parse: where the parser stands, and what leaves it there.
use dlis_parser.Base.{
  ℕ, ◌≡◌, sym, ap, ◌∙◌, arith, Bool, true, false, Option, none, some, List, if◌then◌else◌,
}
use dlis_parser.Codec.Outcome.{bind-ok}
use dlis_parser.Codec.Memory.{Mem}
use dlis_parser.Codec.Value.{Outcome, ok, exit, fault, hang, ◌>>=◌, Value}
use dlis_parser.Dlis.State.{Dlis, Event}
use dlis_parser.Dlis.Trailing.{trailing_len}
use dlis_parser.Dlis.Headers.{parse_sul, parse_lrs_header, parse_lrs_trailing}
use dlis_parser.Dlis.Template.{Attr}
use dlis_parser.Dlis.Eflr.{
  attrib_done, attr_fields, parse_eflr_component_attrib, parse_eflr_component_attrib_value,
  is_index_type, set_index_type, template_step,
}
use dlis_parser.Dlis.Iflr.{parse_iflr_header}

-- What has come in and where the parser stands in it, and what it has sent.
abbrev pub place : Dlis → ℕ × ℕ × ℕ × Mem × ℕ × ℕ × List Event
place d = (
  d.buffer_idx, d.byte_idx, d.max_byte_idx, d.buffer, d.state.lrs_byte_cnt, d.state.vr_byte_cnt,
  d.events,
)

pub trailing_len-place : (d : Dlis) → place (trailing_len d).1 ≡ place d
unfolding trailing_len
trailing_len-place d = ground arith

pub sul-place : (d d' : Dlis) → parse_sul d ≡ ok (none, d') → place d' ≡ place d
unfolding parse_sul
sul-place d d' e = ground arith

pub lrs-place : (d d' : Dlis) → parse_lrs_header d ≡ ok (none, d') → place d' ≡ place d
unfolding parse_lrs_header
lrs-place d d' e = ground arith

pub done-place :
    (d d' : Dlis) (x : Attr × Option ℕ) (a' : Attr)
    → attrib_done d x ≡ ok (a', none, d')
    → place d' ≡ place d
unfolding attrib_done
done-place d d' (a, none) a' e = let same : d ≡ d' = cc in ap place (sym same)
done-place d d' (a, some k) a' e =
    let (marked, e₁, e₂) =
      bind-ok (if is_index_type d a.label then set_index_type d else ok d)
        (λ m. template_step m a >>= λ d''. ok (a, some k, d'')) (a', none, d') e in
    let (d'', e₃, e₄) =
      bind-ok (template_step marked a) (λ d''. ok (a, some k, d'')) (a', none, d') e₂ in
    cc

pub attrib-place :
    (d d' : Dlis) (a a' : Attr)
    → parse_eflr_component_attrib d a ≡ ok (a', none, d')
    → place d' ≡ place d
unfolding parse_eflr_component_attrib
attrib-place d d' a a' e = done-place d d' (attr_fields d a) a' e

-- The shape of the call on a value: two guards, and the state passed on.
abbrev guarded :
    Dlis → Value → Bool → Bool → Outcome (Option ℕ × Value) → Outcome (Option ℕ × Value × Dlis)
guarded d v no_value few r =
    if no_value then exit else if few then ok (none, v, d) else (r >>= λ (n, v). ok (n, v, d))

guarded-same :
    (d d' : Dlis) (v v' : Value) (n : Option ℕ) (no_value few : Bool)
    (r : Outcome (Option ℕ × Value))
    → guarded d v no_value few r ≡ ok (n, v', d')
    → d ≡ d'
guarded-same d d' v v' n true few r e = cc
guarded-same d d' v v' n false true r e = cc
guarded-same d d' v v' n false false (ok (k, w)) e = cc
guarded-same d d' v v' n false false exit e = cc
guarded-same d d' v v' n false false fault e = cc
guarded-same d d' v v' n false false hang e = cc

pub value-place :
    (d d' : Dlis) (v v' : Value)
    → parse_eflr_component_attrib_value d v ≡ ok (none, v', d')
    → place d' ≡ place d
unfolding parse_eflr_component_attrib_value
value-place d d' v v' e =
    ap place (sym (guarded-same (trailing_len d).1 d' v v' none _ _ _ e)) ∙ trailing_len-place d

pub header-place : (d : Dlis) → place (parse_iflr_header d).1 ≡ place d
unfolding parse_iflr_header
header-place d = trailing_len-place d

pub trailing-place : (d : Dlis) → place (parse_lrs_trailing d).1 ≡ place d
unfolding parse_lrs_trailing
trailing-place d = trailing_len-place d
