-- ===== src/Dlis/Template.antt =====
-- dlis.cc: the template objects of a set, filled while the template is read and read back by index
-- for each object.
pub mod Queue
use dlis_parser.Base.{ℕ, ◌+◌, Bool, ◌||◌, none, some, get_elem?, set, if◌then◌else◌}
use dlis_parser.Base.Int.{ℤ, pos, pos_part, ◌+ℤ◌, ltb_ℤ, leb_ℤ}
use dlis_parser.Codec.Memory.{SizedStr}
use dlis_parser.Codec.Value.{Outcome, ok, exit, fault}
use dlis_parser.Dlis.State.{ParseState, TemplateObject}

abbrev pub max_templt_objs : ℕ
max_templt_objs = 100

-- The label, count, code and unit of an attribute, as `parse` passes them around.
pub record Attr : Type 0 where
  pub label : SizedStr
  pub count : ℤ
  pub repcode : ℤ
  pub unit : SizedStr

-- What is stored for an attribute: a negative code stands for IDENT, a negative count for 1.
unfoldable pub template_object : Attr → TemplateObject
template_object a = record {
  label = a.label;
  repcode = if ltb_ℤ a.repcode (pos 0) then 19 else pos_part a.repcode;
  count = if ltb_ℤ a.count (pos 0) then 1 else pos_part a.count;
  unit = a.unit;
}

unfoldable pub eflr_set_template_object_queue : ParseState → Attr → Outcome ParseState
unfolding template_object ◌+ℤ◌
eflr_set_template_object_queue s a =
    if ltb_ℤ s.templt_write_idx (pos 0) || leb_ℤ (pos max_templt_objs) s.templt_write_idx
    then exit
    else ok (record s {
      templt = set s.templt (pos_part s.templt_write_idx) (template_object a);
      templt_write_idx = s.templt_write_idx +ℤ pos 1;
    })

unfoldable pub eflr_set_template_object_get : ParseState → Outcome Attr
eflr_set_template_object_get s =
    if ltb_ℤ s.templt_read_idx (pos 0) || leb_ℤ (pos max_templt_objs) s.templt_read_idx
    then exit
    else if leb_ℤ s.templt_write_idx s.templt_read_idx
    then exit
    else elim (get_elem? s.templt (pos_part s.templt_read_idx)) [
      | none ↦ fault
      | some t ↦
          ok (record {
            label = t.label;
            count = pos t.count;
            repcode = pos t.repcode;
            unit = t.unit;
          })
    ]

unfoldable pub eflr_set_template_object_dequeue : ParseState → ParseState
unfolding ◌+ℤ◌
eflr_set_template_object_dequeue s = record s { templt_read_idx = s.templt_read_idx +ℤ pos 1 }

unfoldable pub eflr_set_template_is_last_attr : ParseState → Bool
eflr_set_template_is_last_attr s = leb_ℤ s.templt_write_idx s.templt_read_idx
