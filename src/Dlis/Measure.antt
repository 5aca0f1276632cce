-- ===== src/Dlis/Measure.antt =====
-- dlis.cc, parse: a number that the rounds of the loop use up, from the bytes that are left and the
-- state of the parser.
pub mod Callbacks
pub mod Trail
pub mod Steps
pub mod Cut
pub mod Parsers
pub mod Values
pub mod Rounds
pub mod Records
pub mod Components
pub mod References
pub mod Data
pub mod Falls
use dlis_parser.Base.{ℕ, ◌+◌, ◌-◌, ◌*◌, ◌≡◌, ap, List}
use dlis_parser.Base.Int.{ℤ}
use dlis_parser.Codec.Value.{Outcome, ok, exit, fault, hang}
use dlis_parser.Dlis.State.{ParseCode, Dlis}

-- The bytes that have come in and are not parsed, with those that wait to be put in front.
abbrev pub left : Dlis → ℕ
left d = d.max_byte_idx + d.state.unparsed_buff_len - d.byte_idx

-- A component is worth more than what it is followed by, and less than a byte more than its role.
abbrev pub rank : ParseCode → ℕ
rank ParseCode.expecting_sul = 0
rank ParseCode.expecting_vr = 0
rank ParseCode.expecting_lrs = 0
rank ParseCode.expecting_encryption_packet = 1
rank ParseCode.expecting_lrs_trailing = 1
rank ParseCode.expecting_eflr_comp_attrib_value = 2
rank ParseCode.expecting_iflr_data = 2
rank ParseCode.expecting_eflr_comp = 3
rank ParseCode.expecting_iflr_header = 3
rank _ = 5

abbrev pub measure : Dlis → ℕ
measure d = 3 * left d + rank d.state.code

-- What the measure is made of, the length of the trailer once it is known, and the bytes that wait.
abbrev pub input : Dlis → ℕ × ℕ × ℕ × ParseCode × ℤ × List ℕ
input d = (
  d.byte_idx, d.max_byte_idx, d.state.unparsed_buff_len, d.state.code, d.state.lrs_trail_len,
  d.state.unparsed_buff,
)

-- The callbacks and parsers that leave that alone.
abbrev pub Keeps : Dlis → Outcome Dlis → Type 0
Keeps d (ok d') = input d' ≡ input d
Keeps d exit = Unit
Keeps d fault = Unit
Keeps d hang = Unit

pub input_parts :
    (d d' : Dlis)
    → input d' ≡ input d
    → (left d' ≡ left d)
      × (d'.state.code ≡ d.state.code)
      × (d'.state.lrs_trail_len ≡ d.state.lrs_trail_len)
input_parts d d' e = (ap (λ i. i.1 + i.2 - i.0) e, ap (λ i. i.3) e, ap (λ i. i.4) e)
