-- ===== src/X86/Parser/Progress.antt =====
-- The loops of lib/x86/parser.cpp end: each round takes a token.
use Prim.Native.Nat.{zero, suc}
use sivra.Prelude.{
  ℕ, ◌<◌, ◌≤◌, ◌≡◌, refl, Bool, Bool-cases, true, false, ◌&&◌, not, is_empty, List, [], ◌∷◌, Option,
  none, some, length, Text, arith,
}
use sivra.Prelude.Int.{ℤ, pos}
use sivra.Core.Result.{Result, ok, err, fail, Result-cases}
use mathlib.Core.Logic.{inl, inr}
use sivra.X86.Tokenizer.{SourceSpan, Token}
use sivra.X86.Parser.{
  ParsedOperand, UnresolvedInstruction, signed_displacement, lower, memory_end, displacement_of,
  memory_displacement, memory_sign, memory_operand, parse_operand, parse_integer, OperandLoop,
  operand_round, is_newline, is_identifier, parse_operands, started, prepend, after_instruction,
  skip_newlines, instruction_round, parse_from, parse,
}

memory_end-shorter :
    (base : Text) (begin : SourceSpan) (d : ℤ) (ts : List Token) (p : ParsedOperand)
    → memory_end base begin d ts ≡ ok p
    → length p.rest ≤ length ts
memory_end-shorter base begin d [] p h = absurd (ground arith)
memory_end-shorter base begin d (t ∷ ts) p h = ground arith

displacement_of-shorter :
    (base : Text) (begin : SourceSpan) (negate : Bool) (v : Option ℕ) (ts : List Token)
    (p : ParsedOperand)
    → displacement_of base begin negate v ts ≡ ok p
    → length p.rest ≤ length ts
displacement_of-shorter base begin negate none ts p h = absurd (ground arith)
displacement_of-shorter base begin negate (some v) ts p h =
    ground (arith, memory_end-shorter base begin (signed_displacement negate v) ts p)

memory_displacement-shorter :
    (base : Text) (begin : SourceSpan) (negate : Bool) (ts : List Token) (p : ParsedOperand)
    → memory_displacement base begin negate ts ≡ ok p
    → length p.rest ≤ length ts
memory_displacement-shorter base begin negate [] p h = absurd (ground arith)
memory_displacement-shorter base begin negate (t ∷ ts) p h =
    ground (arith, displacement_of-shorter base begin negate (parse_integer t.text) ts p)

memory_sign-shorter :
    (base : Text) (begin : SourceSpan) (ts : List Token) (p : ParsedOperand)
    → memory_sign base begin ts ≡ ok p
    → length p.rest ≤ length ts
memory_sign-shorter base begin [] p h = absurd (ground arith)
memory_sign-shorter base begin (t ∷ ts) p h = ground (
  arith,
  memory_displacement-shorter base begin false ts p,
  memory_displacement-shorter base begin true ts p,
  memory_end-shorter base begin (pos 0) (t ∷ ts) p,
)

memory_operand-shorter :
    (begin : SourceSpan) (ts : List Token) (p : ParsedOperand)
    → memory_operand begin ts ≡ ok p
    → length p.rest ≤ length ts
memory_operand-shorter begin [] p h = absurd (ground arith)
memory_operand-shorter begin (t ∷ ts) p h =
    ground (arith, memory_sign-shorter (lower t.text) begin ts p)

parse_operand-shorter :
    (t : Token) (ts : List Token) (p : ParsedOperand)
    → parse_operand t ts ≡ ok p
    → length p.rest ≤ length ts
unfolding parse_operand
parse_operand-shorter t ts p h = ground (arith, memory_operand-shorter t.source ts p)

operand_round-shorter :
    (i : UnresolvedInstruction) (expect : Bool) (t : Token) (ts : List Token) (s : OperandLoop)
    → operand_round i expect t ts ≡ ok s
    → length s.rest ≤ length ts
operand_round-shorter i false t ts s h = ground arith
operand_round-shorter i true t ts s h = elim (Result-cases (parse_operand t ts)) [
  | inl (p, e) ↦ ground (arith, parse_operand-shorter t ts p e)
  | inr (_, e) ↦ ground arith
]

-- A loop over the operands that returns, and leaves no more tokens than it was given.
abbrev LoopReturns : ℕ → OperandLoop → Type 0
LoopReturns fuel s =
    (r : Result OperandLoop) × (parse_operands fuel s ≡ some r)
    × ((s' : OperandLoop) → r ≡ ok s' → length s'.rest ≤ length s.rest)

parse_operands-shorter :
    (fuel : ℕ) (i : UnresolvedInstruction) (expect : Bool) (ts : List Token)
    → length ts < fuel
    → LoopReturns fuel (record { instruction = i; expect_operand = expect; rest = ts })
unfolding parse_operands
parse_operands-shorter zero i expect ts h = absurd (omega arith)
parse_operands-shorter (suc fuel) i expect [] h = (_, refl, λ s' e. ground arith)
parse_operands-shorter (suc fuel) i expect (t ∷ ts) h = elim (Bool-cases (is_newline t)) [
  | inl new ↦ (
    ok (record { instruction = i; expect_operand = expect; rest = t ∷ ts }),
    ground arith,
    λ s' e. ground arith,
  )
  | inr other ↦ elim (Result-cases (operand_round i expect t ts)) [
    | inr (e, failed) ↦ (err e, ground arith, λ s' same. ground arith)
    | inl (s, went) ↦
        let less = operand_round-shorter i expect t ts s went in
        let (r, returned, shorter) =
          parse_operands-shorter fuel s.instruction s.expect_operand s.rest (omega (arith, less)) in
        (r, ground arith, λ s' same. let fewer = shorter s' same in omega (arith, fewer, less))
  ]
]

skip_newlines-shorter : (ts : List Token) → length (skip_newlines ts) ≤ length ts
unfolding skip_newlines
skip_newlines-shorter [] = ground arith
skip_newlines-shorter (t ∷ ts) = ground (arith, skip_newlines-shorter ts)

-- A rest of the loop that returns for every list as long as `n` at most.
abbrev Ends : ℕ → (List Token → Option (Result (List UnresolvedInstruction))) → Type 0
Ends n go_on =
    (ts : List Token)
    → length ts ≤ n
    → (r : Result (List UnresolvedInstruction)) × (go_on ts ≡ some r)

prepend-returns :
    (i : UnresolvedInstruction) (o : Option (Result (List UnresolvedInstruction)))
    → ((r : Result (List UnresolvedInstruction)) × (o ≡ some r))
    → (r : Result (List UnresolvedInstruction)) × (prepend i o ≡ some r)
prepend-returns i o (ok is, e) = (ok (i ∷ is), ground arith)
prepend-returns i o (err d, e) = (err d, ground arith)

after_instruction-returns :
    (go_on : List Token → Option (Result (List UnresolvedInstruction))) (n : ℕ)
    (r : Result OperandLoop)
    → Ends n go_on
    → ((s : OperandLoop) → r ≡ ok s → length s.rest ≤ n)
    → (q : Result (List UnresolvedInstruction)) × (after_instruction go_on (some r) ≡ some q)
after_instruction-returns go_on n (err e) next short = (err e, refl)
after_instruction-returns go_on n (ok s) next short =
    elim (Bool-cases (s.expect_operand && not (is_empty s.instruction.operands))) [
      | inl trailing ↦ (fail "x86.parser.trailing_comma", ground arith)
      | inr done ↦
          let (q, e) = prepend-returns s.instruction (go_on s.rest) (next s.rest (short s refl)) in
          (q, rw done e)
    ]

instruction_round-returns :
    (go_on : List Token → Option (Result (List UnresolvedInstruction))) (n : ℕ) (ts : List Token)
    → Ends n go_on
    → length ts ≤ suc n
    → (r : Result (List UnresolvedInstruction)) × (instruction_round go_on ts ≡ some r)
instruction_round-returns go_on n [] next h = (ok [], refl)
instruction_round-returns go_on n (t ∷ ts) next h =
    let (r, e, short) =
      parse_operands-shorter (suc (length ts)) (started t ts).instruction true ts (omega arith) in
    let (q, returned) =
      after_instruction-returns go_on n r next
        (λ s same. let less = short s same in omega (arith, less, h)) in
    elim (Bool-cases (is_identifier t)) [
      | inl named ↦ (q, rw (named, e) returned)
      | inr other ↦ (fail "x86.parser.expected_mnemonic", rw other refl)
    ]

parse_from-returns : (fuel : ℕ) → Ends fuel (parse_from (suc fuel))
unfolding parse_from skip_newlines
parse_from-returns zero [] h = (ok [], refl)
parse_from-returns zero (t ∷ ts) h = absurd (omega arith)
parse_from-returns (suc fuel) ts h =
    let less = skip_newlines-shorter ts in
    instruction_round-returns (parse_from (suc fuel)) fuel (skip_newlines ts)
      (parse_from-returns fuel) (omega (arith, less, h))

-- The parser returns for every list of tokens: the fuel is enough.
pub parse-returns :
    (ts : List Token) → (r : Result (List UnresolvedInstruction)) × (parse ts ≡ some r)
unfolding parse
parse-returns ts = parse_from-returns (length ts) ts (omega arith)
