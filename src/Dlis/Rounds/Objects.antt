-- ===== src/Dlis/Rounds/Objects.antt =====
-- dlis.cc: the template object that an attribute of a template leaves.
use dlis_parser.Base.{ℕ, ◌+◌, ◌≡◌, refl, ap, ◌∙◌, arith, Option, none, some, List, []}
use mathlib.Core.Option.{get_or}
use dlis_parser.Base.Int.{pos}
use dlis_parser.Codec.Memory.{Mem, Holds, Holds-bytes, text, SizedStr, Ptr}
use dlis_parser.Codec.Text.RoundTrip.{ident_bytes, str_at}
use dlis_parser.Dlis.State.{Dlis, TemplateObject, here}
use dlis_parser.Dlis.Template.{Attr, template_object}
use dlis_parser.Dlis.Eflr.Fields.{
  Fields, fields_bytes, field_bytes, filled, override, unit_at, fields-held, with_label, with_count,
  with_code,
}
use dlis_parser.Dlis.Rounds.FirstByte.{attrib_byte}
use dlis_parser.Dlis.Rounds.Attributes.{plain, own, commenced}

-- The object says what the attribute says: its texts, its count and its code, with an empty text,
-- 1 and IDENT (19) where there is none.
pub record Stands (m : Mem) (f : Fields) (o : TemplateObject) : Type 0 where
  pub label : text m o.label ≡ get_or f.label []
  pub count : o.count ≡ get_or f.count 1
  pub repcode : o.repcode ≡ get_or f.repcode 19
  pub unit : text m o.unit ≡ get_or f.unit []

-- A field keeps what another one replaces nothing of.
override_other :
    {A B X : Type 0} (get : Attr → X) (put : B → Attr → Attr) (value : A → B) (o : Option A)
    (a : Attr)
    → ((x : B) → get (put x a) ≡ get a)
    → get (override put value o a) ≡ get a
override_other get put value none a other = refl
override_other get put value (some x) a other = other (value x)

label_text :
    (m : Mem) (p : Ptr) (o : Option (List ℕ)) (a : Attr)
    → a.label.len ≡ pos 0
    → Holds m p (field_bytes ident_bytes o)
    → text m (override (λ x a. record a { label = x }) (str_at (p + 1)) o a).label ≡ get_or o []
label_text m p none a empty held = rw empty refl
label_text m p (some s) a empty held = Holds-bytes m (p + 1) s held.1

unit_text :
    (m : Mem) (p : Ptr) (o : Option (List ℕ)) (a : Attr)
    → a.unit.len ≡ pos 0
    → Holds m p (field_bytes ident_bytes o)
    → text m (override (λ x a. record a { unit = x }) (str_at (p + 1)) o a).unit ≡ get_or o []
unit_text m p none a empty held = rw empty refl
unit_text m p (some s) a empty held = Holds-bytes m (p + 1) s held.1

stored_count :
    (f : Fields) (a : Attr)
    → a.count ≡ pos 1
    → (template_object (with_count f a)).count ≡ get_or f.count 1
unfolding template_object
stored_count f a one = ground arith

stored_code :
    (f : Fields) (a : Attr)
    → a.repcode ≡ pos 19
    → (template_object (with_code f a)).repcode ≡ get_or f.repcode 19
unfolding template_object
stored_code f a ident = ground arith

-- The attribute after its first one, two and three fields.
module _ (d : Dlis) (f : Fields) (a : Attr) where
  abbrev labelled : Attr
  labelled = with_label d f a

  abbrev counted : Attr
  counted = with_count f labelled

  abbrev coded : Attr
  coded = with_code f counted

-- What is read of the attribute is left alone by the fields behind it.
module _ {X : Type 0} (d : Dlis) (f : Fields) (a : Attr) (get : Attr → X) where
  behind_unit :
      ((x : SizedStr) → get (record (coded d f a) { unit = x }) ≡ get (coded d f a))
      → get (filled d f a) ≡ get (coded d f a)
  behind_unit other =
      override_other get (λ x a. record a { unit = x }) (str_at (here d (unit_at f) + 1)) f.unit
        (coded d f a) other

  behind_code :
      ((x : ℕ) → get (record (counted d f a) { repcode = pos x }) ≡ get (counted d f a))
      → get (coded d f a) ≡ get (counted d f a)
  behind_code other =
      override_other get (λ x a. record a { repcode = pos x }) (λ c. c) f.repcode (counted d f a)
        other

  behind_count :
      ((x : ℕ) → get (record (labelled d f a) { count = pos x }) ≡ get (labelled d f a))
      → get (counted d f a) ≡ get (labelled d f a)
  behind_count other =
      override_other get (λ x a. record a { count = pos x }) (λ c. c) f.count (labelled d f a) other

  behind_label :
      ((x : SizedStr) → get (record a { label = x }) ≡ get a) → get (labelled d f a) ≡ get a
  behind_label other =
      override_other get (λ x a. record a { label = x }) (str_at (here d 0 + 1)) f.label a other

pub own-Stands :
    (d : Dlis) (f : Fields)
    → Holds d.buffer (here (commenced d (attrib_byte f)) 0) (fields_bytes f)
    → Stands d.buffer f (template_object (own d f))
unfolding template_object
own-Stands d f held =
    let e : Dlis = commenced d (attrib_byte f) in
    let (hl, hc, hr, hu) = fields-held e f held in
    let m : Mem = d.buffer in
    let lab : Attr → List ℕ = λ a. text m a.label in
    let cnt : Attr → ℕ = λ a. (template_object a).count in
    let cod : Attr → ℕ = λ a. (template_object a).repcode in
    record {
      label =
          behind_unit e f (plain d) lab (λ x. refl)
          ∙ behind_code e f (plain d) lab (λ x. refl)
          ∙ behind_count e f (plain d) lab (λ x. refl)
          ∙ label_text m (here e 0) f.label (plain d) refl hl;
      count =
          behind_unit e f (plain d) cnt (λ x. refl)
          ∙ behind_code e f (plain d) cnt (λ x. refl)
          ∙ stored_count f (labelled e f (plain d))
              (behind_label e f (plain d) (λ a. a.count) (λ x. refl));
      repcode =
          behind_unit e f (plain d) cod (λ x. refl)
          ∙ stored_code f (counted e f (plain d)) (
              behind_count e f (plain d) (λ a. a.repcode) (λ x. refl)
              ∙ behind_label e f (plain d) (λ a. a.repcode) (λ x. refl));
      unit =
          unit_text m (here e (unit_at f)) f.unit (coded e f (plain d))
            (ap (λ (s : SizedStr). s.len)
              (behind_code e f (plain d) (λ a. a.unit) (λ x. refl)
                ∙ behind_count e f (plain d) (λ a. a.unit) (λ x. refl)
                ∙ behind_label e f (plain d) (λ a. a.unit) (λ x. refl)))
            hu;
    }
