-- ===== src/X86/Parser.antt =====
-- lib/x86/parser.cpp: tokens into instructions with their operands, names not yet looked up.
pub mod Progress
pub mod Printing
pub mod RoundTrip
use Prim.Native.Nat.{zero, suc}
use sivra.Prelude.{
  ℕ, ◌+◌, ◌*◌, ◌-◌, ◌^◌, ◌≡◌, Bool, true, false, ◌&&◌, ◌||◌, not, if◌then◌else◌, ltb, leb, List, [],
  ◌∷◌, Option, none, some, length, map, is_empty, push_back, Text, ◌==◌, nat_eq,
}
use sivra.Prelude.Int.{ℤ, pos, negsuc}
use sivra.Core.Result.{Result, ok, err, fail}
use sivra.X86.Tokenizer.{
  TokenKind, identifier, integer, comma, plus, minus, left_bracket, right_bracket, newline,
  SourcePosition, SourceSpan, Token, between, is_digit,
}

-- `unresolved_operand`: a register's name, an immediate value, a memory address.
pub data UnresolvedOperand : Type 0 where
  register : Text → SourceSpan → UnresolvedOperand
  immediate : ℕ → SourceSpan → UnresolvedOperand
  memory : Text → ℤ → SourceSpan → UnresolvedOperand

pub record UnresolvedInstruction : Type 0 where
  pub mnemonic : Text
  pub operands : List UnresolvedOperand
  pub source : SourceSpan

-- `std::tolower` in the "C" locale.
abbrev pub to_lower : ℕ → ℕ
to_lower c = if between 65 90 c then c + 32 else c

abbrev pub lower : Text → Text
lower value = map to_lower value

-- The value of a digit in any base.
unfoldable pub digit_value : ℕ → Option ℕ
digit_value c =
    if is_digit c
    then some (c - 48)
    else if between 97 122 c
    then some (c - 87)
    else if between 65 90 c
    then some (c - 55)
    else none

abbrev pub below_base : ℕ → Option ℕ → Option ℕ
below_base base none = none
below_base base (some d) = if ltb d base then some d else none

-- What `std::from_chars` makes of a text that it reads to the end, before its test of the range.
abbrev pub from_digits : ℕ → ℕ → Text → Option ℕ
from_digits base value [] = some value
from_digits base value (c ∷ cs) = elim (below_base base (digit_value c)) [
  | none ↦ none
  | some d ↦ from_digits base (value * base + d) cs
]

abbrev pub base_of : Text → ℕ × Text
base_of (z ∷ x ∷ cs) = if z == 48 && (x == 120 || x == 88) then (16, cs) else (10, z ∷ x ∷ cs)
base_of cs = (10, cs)

abbrev pub in_range : Option ℕ → Option ℕ
in_range none = none
in_range (some value) = if ltb value (2 ^ 64) then some value else none

abbrev pub integer_of : ℕ × Text → Option ℕ
integer_of (base, digits) = if is_empty digits then none else in_range (from_digits base 0 digits)

unfoldable pub parse_integer : Text → Option ℕ
parse_integer text = integer_of (base_of text)

-- An operand, the place where it ends and the tokens behind it.
pub record ParsedOperand : Type 0 where
  pub operand : UnresolvedOperand
  pub end : SourcePosition
  pub rest : List Token

abbrev pub immediate_of : Option ℕ → Token → List Token → Result ParsedOperand
immediate_of none t rest = fail "x86.parser.invalid_integer"
immediate_of (some value) t rest =
    ok (record { operand = immediate value t.source; end = t.source.end; rest = rest })

-- The part from the right bracket on; `begin` is the place of the left one.
abbrev pub memory_end : Text → SourceSpan → ℤ → List Token → Result ParsedOperand
memory_end base begin displacement [] = fail "x86.parser.expected_memory_end"
memory_end base begin displacement (t ∷ ts) = elim t.kind [
  | right_bracket ↦ ok (record {
    operand = memory base displacement (record begin { end = t.source.end });
    end = t.source.end;
    rest = ts;
  })
  | _ ↦ fail "x86.parser.expected_memory_end"
]

abbrev pub signed_displacement : Bool → ℕ → ℤ
signed_displacement true (suc n) = negsuc n
signed_displacement negate n = pos n

abbrev pub displacement_of : Text → SourceSpan → Bool → Option ℕ → List Token → Result ParsedOperand
displacement_of base begin negate none ts = fail "x86.parser.invalid_integer"
displacement_of base begin negate (some value) ts =
    if ltb (2 ^ 63 - 1) value
    then fail "x86.parser.invalid_integer"
    else memory_end base begin (signed_displacement negate value) ts

-- Behind the sign.
abbrev pub memory_displacement : Text → SourceSpan → Bool → List Token → Result ParsedOperand
memory_displacement base begin negate [] = fail "x86.parser.expected_displacement"
memory_displacement base begin negate (t ∷ ts) = elim t.kind [
  | integer ↦ displacement_of base begin negate (parse_integer t.text) ts
  | _ ↦ fail "x86.parser.expected_displacement"
]

-- Behind the base register.
abbrev pub memory_sign : Text → SourceSpan → List Token → Result ParsedOperand
memory_sign base begin [] = memory_end base begin (pos 0) []
memory_sign base begin (t ∷ ts) = elim t.kind [
  | plus ↦ memory_displacement base begin false ts
  | minus ↦ memory_displacement base begin true ts
  | _ ↦ memory_end base begin (pos 0) (t ∷ ts)
]

-- Behind the left bracket.
abbrev pub memory_operand : SourceSpan → List Token → Result ParsedOperand
memory_operand begin [] = fail "x86.parser.expected_memory_base"
memory_operand begin (t ∷ ts) = elim t.kind [
  | identifier ↦ memory_sign (lower t.text) begin ts
  | _ ↦ fail "x86.parser.expected_memory_base"
]

-- The three kinds of operand, by the first token.
unfoldable pub parse_operand : Token → List Token → Result ParsedOperand
unfolding parse_integer
parse_operand t ts = elim t.kind [
  | identifier ↦
      ok (record { operand = register (lower t.text) t.source; end = t.source.end; rest = ts })
  | integer ↦ immediate_of (parse_integer t.text) t ts
  | left_bracket ↦ memory_operand t.source ts
  | _ ↦ fail "x86.parser.invalid_operand"
]

-- The state of the loop over the operands: the instruction so far, `expect_operand`, the tokens left.
pub record OperandLoop : Type 0 where
  pub instruction : UnresolvedInstruction
  pub expect_operand : Bool
  pub rest : List Token

abbrev pub with_operand : UnresolvedInstruction → ParsedOperand → OperandLoop
with_operand i p = record {
  instruction = record {
    mnemonic = i.mnemonic;
    operands = push_back i.operands p.operand;
    source = record i.source { end = p.end };
  };
  expect_operand = false;
  rest = p.rest;
}

abbrev pub pushed : UnresolvedInstruction → Result ParsedOperand → Result OperandLoop
pushed i (err e) = err e
pushed i (ok p) = ok (with_operand i p)

-- One round on the token `t`, which is no newline.
abbrev pub operand_round : UnresolvedInstruction → Bool → Token → List Token → Result OperandLoop
operand_round i true t ts = pushed i (parse_operand t ts)
operand_round i false t ts = elim t.kind [
  | comma ↦ ok (record { instruction = i; expect_operand = true; rest = ts })
  | _ ↦ fail "x86.parser.expected_comma"
]

abbrev pub is_newline : Token → Bool
is_newline t = elim t.kind [ newline ↦ true | _ ↦ false ]

abbrev pub after_operand :
    (OperandLoop → Option (Result OperandLoop)) → Result OperandLoop → Option (Result OperandLoop)
after_operand go_on (err e) = some (err e)
after_operand go_on (ok s) = go_on s

-- The loop, with fuel for so many rounds; `none` is the end of the fuel.
unfoldable pub parse_operands : ℕ → OperandLoop → Option (Result OperandLoop)
parse_operands zero s = none
parse_operands (suc fuel) s = elim s.rest [
  | [] ↦ some (ok s)
  | t ∷ ts ↦
      if is_newline t
      then some (ok s)
      else after_operand (parse_operands fuel) (operand_round s.instruction s.expect_operand t ts)
]

-- What begins at the mnemonic `t`.
abbrev pub started : Token → List Token → OperandLoop
started t ts = record {
  instruction = record { mnemonic = lower t.text; operands = []; source = t.source };
  expect_operand = true;
  rest = ts;
}

abbrev pub prepend :
    UnresolvedInstruction
    → Option (Result (List UnresolvedInstruction))
    → Option (Result (List UnresolvedInstruction))
prepend i none = none
prepend i (some (err e)) = some (err e)
prepend i (some (ok is)) = some (ok (i ∷ is))

-- Behind the operands of an instruction.
abbrev pub after_instruction :
    (List Token → Option (Result (List UnresolvedInstruction)))
    → Option (Result OperandLoop)
    → Option (Result (List UnresolvedInstruction))
after_instruction go_on none = none
after_instruction go_on (some (err e)) = some (err e)
after_instruction go_on (some (ok s)) =
    if s.expect_operand && not (is_empty s.instruction.operands)
    then some (fail "x86.parser.trailing_comma")
    else prepend s.instruction (go_on s.rest)

-- The loop over the newlines in front of an instruction.
unfoldable pub skip_newlines : List Token → List Token
skip_newlines [] = []
skip_newlines (t ∷ ts) = let rest = skip_newlines ts in if is_newline t then rest else t ∷ ts

abbrev pub is_identifier : Token → Bool
is_identifier t = elim t.kind [ identifier ↦ true | _ ↦ false ]

-- A round at tokens without a newline in front.
abbrev pub instruction_round :
    (List Token → Option (Result (List UnresolvedInstruction)))
    → List Token
    → Option (Result (List UnresolvedInstruction))
instruction_round go_on [] = some (ok [])
instruction_round go_on (t ∷ ts) =
    if is_identifier t
    then after_instruction go_on (parse_operands (suc (length ts)) (started t ts))
    else some (fail "x86.parser.expected_mnemonic")

unfoldable pub parse_from : ℕ → List Token → Option (Result (List UnresolvedInstruction))
parse_from zero ts = none
parse_from (suc fuel) ts = instruction_round (parse_from fuel) (skip_newlines ts)

-- A round takes a token at least, so the number of the tokens is fuel enough.
unfoldable pub parse : List Token → Option (Result (List UnresolvedInstruction))
parse ts = parse_from (suc (length ts)) ts
