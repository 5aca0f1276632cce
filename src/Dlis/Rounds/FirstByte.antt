-- ===== src/Dlis/Rounds/FirstByte.antt =====
-- dlis.cc: the first byte of an attribute, and what the tests say of it.
use dlis_parser.Base.{ℕ, ◌+◌, ◌≡◌, arith, Bool, true, false}
use dlis_parser.Dlis.State.{ParseState, expecting_eflr_comp_attrib}
use dlis_parser.Dlis.Flags.{
  eflr_comp_is_set, eflr_comp_is_rset, eflr_comp_is_rdset, eflr_comp_is_absatr, eflr_comp_is_attrib,
  eflr_comp_attr_has_label, eflr_comp_attr_has_count, eflr_comp_attr_has_repcode,
  eflr_comp_attr_has_unit, eflr_comp_attr_has_value,
}
use dlis_parser.Dlis.Eflr.Fields.{Fields, Announces, is_some}
use dlis_parser.Dlis.NextState.{after_comp}

-- The first byte of an attribute without values: its role, and a bit for each field.
abbrev pub bit : Bool → ℕ → ℕ
bit true n = n
bit false n = 0

abbrev pub attrib_byte : Fields → ℕ
attrib_byte f =
    32
    + bit (is_some f.label) 16
    + bit (is_some f.count) 8
    + bit (is_some f.repcode) 4
    + bit (is_some f.unit) 2

-- What the tests say of such a byte.
pub record IsAttribute (s : ParseState) (f : Fields) : Type 0 where
  pub announced : Announces s f
  pub no_value : eflr_comp_attr_has_value s ≡ false
  pub goes_to : after_comp s ≡ expecting_eflr_comp_attrib

pub byte-IsAttribute :
    (s : ParseState) (f : Fields) → s.eflr_comp_first_byte ≡ attrib_byte f → IsAttribute s f
unfolding eflr_comp_is_set eflr_comp_is_rset eflr_comp_is_rdset eflr_comp_is_absatr
    eflr_comp_is_attrib eflr_comp_attr_has_label eflr_comp_attr_has_count eflr_comp_attr_has_repcode
    eflr_comp_attr_has_unit eflr_comp_attr_has_value after_comp
byte-IsAttribute s f e = record {
  announced = record {
    label = ground (arith, e);
    count = ground (arith, e);
    repcode = ground (arith, e);
    unit = ground (arith, e);
  };
  no_value = ground (arith, e);
  goes_to = ground (arith, e);
}
