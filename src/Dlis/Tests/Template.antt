-- ===== src/Dlis/Tests/Template.antt =====
-- The pass over a template at two attributes: one with a label and a code, one with a count.
use dlis_parser.Base.{◌≡◌, refl, arith, none, some, List, [], ◌∷◌, All}
use dlis_parser.Base.Int.{negsuc}
use dlis_parser.Codec.Number.RoundTrip.{uvari_bytes}
use dlis_parser.Dlis.State.{Dlis, expecting_eflr_comp}
use dlis_parser.Dlis.Samples.{blank_state, loaded}
use dlis_parser.Dlis.Eflr.Fields.{Fields, Fits}
use dlis_parser.Dlis.Parse.{parse_loop}
use dlis_parser.Dlis.Rounds.Attributes.{InTemplate}
use dlis_parser.Dlis.Rounds.TemplatePass.{Read, parse_loop-template_bytes}

abbrev two_attributes : List Fields
two_attributes =
    record { label = some (65 ∷ 66 ∷ []); count = none; repcode = some 20; unit = none }
    ∷ record { label = none; count = some 3; repcode = none; unit = none }
    ∷ []

two_attributes-Fits : All Fits two_attributes
two_attributes-Fits =
    (record { count = λ c e. cc }, (record { count = λ c e. ground (arith, e) }, tt))

abbrev in_template : Dlis
in_template = record (loaded (52 ∷ 2 ∷ 65 ∷ 66 ∷ 20 ∷ 40 ∷ 3 ∷ [])) {
  state = record blank_state {
    code = expecting_eflr_comp;
    lrs_len = 10;
    templt_read_idx = negsuc 0;
  };
}

in_template-InTemplate : InTemplate in_template 0 0
in_template-InTemplate = record {
  code = refl;
  trail = refl;
  no_object = refl;
  queue = record { places = refl; index = refl; fits = omega arith };
}

parse_loop-template_bytes_example :
    (d' : Dlis) × (parse_loop 9 in_template ≡ parse_loop 5 d')
    × InTemplate d' 0 2
    × Read two_attributes 0 7 in_template d'
unfolding uvari_bytes
parse_loop-template_bytes_example =
    parse_loop-template_bytes in_template 0 0 5 two_attributes in_template-InTemplate
      two_attributes-Fits (refl, (refl, (refl, (refl, (refl, (refl, (refl, tt))))))) (omega arith)
      (omega arith) (omega arith)
