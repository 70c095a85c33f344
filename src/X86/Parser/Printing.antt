-- ===== src/X86/Parser/Printing.antt =====
-- Instructions written as tokens for lib/x86/parser.cpp, and the integers in them read back.
use Prim.Native.Nat.{zero, suc}
use sivra.Prelude.{
  ℕ, ◌+◌, ◌*◌, ◌-◌, ◌^◌, ◌<◌, ◌≡◌, refl, ap, sym, ◌∙◌, false, List, [], ◌∷◌, some, is_empty, map,
  All, Text, codes, arith,
}
use sivra.Prelude.Int.{ℤ, pos, negsuc}
use sivra.Prelude.Decimal.{
  to_chars, digits_value, value-to_chars, to_chars_zero, to_chars-IsDigit, IsDigit,
}
use sivra.X86.Tokenizer.{
  TokenKind, identifier, integer, comma, plus, minus, left_bracket, right_bracket, newline,
  SourceSpan, Token,
}
use sivra.X86.Parser.{
  UnresolvedOperand, register, immediate, memory, UnresolvedInstruction, lower, digit_value,
  from_digits, base_of, integer_of, parse_integer,
}

abbrev pub token_of : SourceSpan → TokenKind → Text → Token
token_of s kind text = record { kind = kind; text = text; source = s }

abbrev pub print_displacement : SourceSpan → ℤ → List Token → List Token
print_displacement s (pos zero) rest = rest
print_displacement s (pos (suc n)) rest =
    token_of s plus (codes "+") ∷ token_of s integer (to_chars (suc n)) ∷ rest
print_displacement s (negsuc n) rest =
    token_of s minus (codes "-") ∷ token_of s integer (to_chars (suc n)) ∷ rest

-- The tokens of an operand in front of `rest`, all at the place `s`.
abbrev pub print_operand : SourceSpan → UnresolvedOperand → List Token → List Token
print_operand s (register name _) rest = token_of s identifier name ∷ rest
print_operand s (immediate value _) rest = token_of s integer (to_chars value) ∷ rest
print_operand s (memory base displacement _) rest =
    token_of s left_bracket (codes "[")
    ∷ token_of s identifier base
    ∷ print_displacement s displacement (token_of s right_bracket (codes "]") ∷ rest)

-- Operands behind the first.
abbrev pub print_others : SourceSpan → List UnresolvedOperand → List Token → List Token
print_others s [] rest = rest
print_others s (o ∷ os) rest =
    token_of s comma (codes ",") ∷ print_operand s o (print_others s os rest)

abbrev pub print_operands : SourceSpan → List UnresolvedOperand → List Token → List Token
print_operands s [] rest = rest
print_operands s (o ∷ os) rest = print_operand s o (print_others s os rest)

-- One instruction on a line.
abbrev pub print : SourceSpan → List UnresolvedInstruction → List Token
print s [] = []
print s (i ∷ is) =
    token_of s identifier i.mnemonic
    ∷ print_operands s i.operands (token_of s newline (codes "\n") ∷ print s is)

-- The same with all places at `s`.
abbrev pub operand_at : SourceSpan → UnresolvedOperand → UnresolvedOperand
operand_at s (register name _) = register name s
operand_at s (immediate value _) = immediate value s
operand_at s (memory base displacement _) = memory base displacement s

abbrev pub instruction_at : SourceSpan → UnresolvedInstruction → UnresolvedInstruction
instruction_at s i = record {
  mnemonic = i.mnemonic;
  operands = map (operand_at s) i.operands;
  source = s;
}

-- A displacement whose negation has 64 bits too.
abbrev pub IsDisplacement : ℤ → Type 0
IsDisplacement (pos n) = n < 2 ^ 63
IsDisplacement (negsuc n) = n + 1 < 2 ^ 63

-- Names in lower case and numbers that can be written.
abbrev pub OperandIsPrintable : UnresolvedOperand → Type 0
OperandIsPrintable (register name _) = lower name ≡ name
OperandIsPrintable (immediate value _) = value < 2 ^ 64
OperandIsPrintable (memory base displacement _) = (lower base ≡ base) × IsDisplacement displacement

abbrev pub IsPrintable : UnresolvedInstruction → Type 0
IsPrintable i = (lower i.mnemonic ≡ i.mnemonic) × All OperandIsPrintable i.operands

from_digits-value :
    (value : ℕ) (ds : Text)
    → All IsDigit ds
    → from_digits 10 value ds ≡ some (digits_value value ds)
unfolding digit_value
from_digits-value value [] h = refl
from_digits-value value (d ∷ ds) (h, hs) =
    ground (arith, from_digits-value (value * 10 + (d - 48)) ds hs)

base_of-digits : (ds : Text) → All IsDigit ds → base_of ds ≡ (10, ds)
base_of-digits [] h = refl
base_of-digits (d ∷ []) h = refl
base_of-digits (d ∷ e ∷ ds) (h, (h', hs)) = ground arith

integer_of-digits :
    (ds : Text) (value : ℕ)
    → is_empty ds ≡ false
    → from_digits 10 0 ds ≡ some value
    → value < 2 ^ 64
    → integer_of (10, ds) ≡ some value
integer_of-digits ds value filled read small = ground arith

to_chars-filled : (n : ℕ) (ds : Text) → to_chars n ≡ ds → is_empty ds ≡ false
to_chars-filled n (d ∷ ds) e = refl
to_chars-filled n [] e =
    let value : 0 ≡ n = ap (digits_value 0) (sym e) ∙ value-to_chars n in
    ground (arith, ap to_chars value, to_chars_zero)

-- `parse_integer` reads what `std::to_chars` writes.
pub parse_integer-to_chars : (n : ℕ) → n < 2 ^ 64 → parse_integer (to_chars n) ≡ some n
unfolding parse_integer
parse_integer-to_chars n h =
    let digits = to_chars-IsDigit n in
    ap integer_of (base_of-digits (to_chars n) digits)
    ∙ integer_of-digits (to_chars n) n (to_chars-filled n (to_chars n) refl)
        (from_digits-value 0 (to_chars n) digits ∙ ap some (value-to_chars n)) h
