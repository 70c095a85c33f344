-- ===== src/X86/Parser/RoundTrip.antt =====
-- What lib/x86/parser.cpp reads from instructions written as tokens.
use Prim.Native.Nat.{zero, suc}
use sivra.Prelude.{
  ℕ, ◌+◌, ◌*◌, ◌-◌, ◌^◌, ◌<◌, ◌≤◌, ◌≡◌, refl, ap, sym, ◌∙◌, Bool, ltb, true, false, List, [], ◌∷◌,
  ◌++◌, Option, some, length, is_empty, push_back, map, All, Text, codes, arith,
}
use mathlib.Core.List.{append_assoc, append-nil}
use sivra.Prelude.Int.{ℤ, pos, negsuc}
use sivra.Prelude.Decimal.{to_chars}
use sivra.Core.Result.{Result, ok}
use sivra.X86.Tokenizer.{
  SourceSpan, Token, newline, identifier, integer, left_bracket, right_bracket,
}
use sivra.X86.Parser.{
  UnresolvedOperand, register, immediate, memory, UnresolvedInstruction, signed_displacement,
  ParsedOperand, immediate_of, displacement_of, memory_displacement, memory_sign, is_newline,
  with_operand, pushed, after_operand, prepend, after_instruction, parse_operand, OperandLoop,
  parse_operands, skip_newlines, parse_from, parse,
}
use sivra.X86.Parser.Printing.{
  token_of, print_displacement, print_operand, print_others, print_operands, print, operand_at,
  instruction_at, IsDisplacement, OperandIsPrintable, IsPrintable, parse_integer-to_chars,
}

-- The loop at the place `s`, with these operands so far.
abbrev state : SourceSpan → Text → List UnresolvedOperand → Bool → List Token → OperandLoop
state s m os expect rest = record {
  instruction = record { mnemonic = m; operands = os; source = s };
  expect_operand = expect;
  rest = rest;
}

abbrev MemoryReadAs : SourceSpan → Text → ℤ → List Token → Type 0
MemoryReadAs s base d rest =
    memory_sign base s (print_displacement s d (token_of s right_bracket (codes "]") ∷ rest))
    ≡ ok (record { operand = memory base d s; end = s.end; rest = rest })

signed_read :
    (s : SourceSpan) (base : Text) (negate : Bool) (n : ℕ) (rest : List Token)
    → suc n < 2 ^ 63
    → memory_displacement base s negate
        (token_of s integer (to_chars (suc n)) ∷ token_of s right_bracket (codes "]") ∷ rest)
      ≡ ok (record {
        operand = memory base (signed_displacement negate (suc n)) s;
        end = s.end;
        rest = rest;
      })
signed_read s base negate n rest h =
    let small : ltb (2 ^ 63 - 1) (suc n) ≡ false = ground arith in
    ap (λ v. displacement_of base s negate v (token_of s right_bracket (codes "]") ∷ rest))
      (parse_integer-to_chars (suc n) (omega arith))
    ∙ rw small refl

memory_read :
    (s : SourceSpan) (base : Text) (d : ℤ) (rest : List Token)
    → IsDisplacement d
    → MemoryReadAs s base d rest
memory_read s base (pos zero) rest h = refl
memory_read s base (pos (suc n)) rest h = signed_read s base false n rest h
memory_read s base (negsuc n) rest h = signed_read s base true n rest (omega arith)

-- One round of the loop that reads an operand.
round_read :
    (fuel : ℕ) (i : UnresolvedInstruction) (t : Token) (ts : List Token) (p : ParsedOperand)
    → is_newline t ≡ false
    → parse_operand t ts ≡ ok p
    → parse_operands (suc fuel) (record { instruction = i; expect_operand = true; rest = t ∷ ts })
      ≡ parse_operands fuel (with_operand i p)
unfolding parse_operands
round_read fuel i t ts p other e =
    rw other (ap (λ r. after_operand (parse_operands fuel) (pushed i r)) e)

module _ (s : SourceSpan) (m : Text) where
  -- One round reads one operand.
  operand_read :
      (fuel : ℕ) (done : List UnresolvedOperand) (o : UnresolvedOperand) (rest : List Token)
      → OperandIsPrintable o
      → parse_operands (suc fuel) (state s m done true (print_operand s o rest))
        ≡ parse_operands fuel (state s m (push_back done (operand_at s o)) false rest)
  unfolding parse_operand
  operand_read fuel done (register name _) rest p =
      round_read fuel _ (token_of s identifier name) rest _ refl
        (ap (λ n. ok (record { operand = register n s; end = s.end; rest = rest })) p)
  operand_read fuel done (immediate value _) rest p =
      round_read fuel _ (token_of s integer (to_chars value)) rest _ refl (
        ap (λ v. immediate_of v (token_of s integer (to_chars value)) rest)
          (parse_integer-to_chars value p))
  operand_read fuel done (memory base d _) rest p =
      let inside = print_displacement s d (token_of s right_bracket (codes "]") ∷ rest) in
      round_read fuel _ (token_of s left_bracket (codes "[")) (token_of s identifier base ∷ inside)
        _ refl (ap (λ b. memory_sign b s inside) p.0 ∙ memory_read s base d rest p.1)

  others_read :
      (fuel : ℕ) (done os : List UnresolvedOperand) (rest : List Token)
      → All OperandIsPrintable os
      → 2 * length os < fuel
      → parse_operands fuel
          (state s m done false (print_others s os (token_of s newline (codes "\n") ∷ rest)))
        ≡ some (
            ok (
              state s m
                (done ++ map (operand_at s) os)
                false
                (token_of s newline (codes "\n") ∷ rest)))
  unfolding parse_operands
  others_read zero done os rest ps h = absurd (omega arith)
  others_read (suc fuel) done [] rest ps h =
      ap (λ os. some (ok (state s m os false (token_of s newline (codes "\n") ∷ rest))))
        (sym (append-nil done))
  others_read (suc zero) done (o ∷ os) rest ps h = absurd (omega arith)
  others_read (suc (suc fuel)) done (o ∷ os) rest (p, ps) h =
      operand_read fuel done o _ p
      ∙ others_read fuel (push_back done (operand_at s o)) os rest ps (omega arith)
      ∙ ap (λ ds. some (ok (state s m ds false (token_of s newline (codes "\n") ∷ rest))))
          (append_assoc done (operand_at s o ∷ []) (map (operand_at s) os))

  operands_read :
      (fuel : ℕ) (os : List UnresolvedOperand) (rest : List Token)
      → All OperandIsPrintable os
      → 2 * length os < suc fuel
      → parse_operands
          (suc fuel)
          (state s m [] true (print_operands s os (token_of s newline (codes "\n") ∷ rest)))
        ≡ some (
            ok (
              state s m
                (map (operand_at s) os)
                (is_empty os)
                (token_of s newline (codes "\n") ∷ rest)))
  unfolding parse_operands
  operands_read fuel [] rest ps h = refl
  operands_read fuel (o ∷ os) rest (p, ps) h =
      operand_read fuel [] o (print_others s os (token_of s newline (codes "\n") ∷ rest)) p
      ∙ others_read fuel (operand_at s o ∷ []) os rest ps (omega arith)

module _ (s : SourceSpan) where
  length-print_operand :
      (o : UnresolvedOperand) (rest : List Token)
      → suc (length rest) ≤ length (print_operand s o rest)
  length-print_operand (register name _) rest = omega arith
  length-print_operand (immediate value _) rest = omega arith
  length-print_operand (memory base (pos zero) _) rest = omega arith
  length-print_operand (memory base (pos (suc n)) _) rest = omega arith
  length-print_operand (memory base (negsuc n) _) rest = omega arith

  length-print_others :
      (os : List UnresolvedOperand) (rest : List Token)
      → 2 * length os + length rest ≤ length (print_others s os rest)
  length-print_others [] rest = omega arith
  length-print_others (o ∷ os) rest =
      omega (arith, length-print_operand o (print_others s os rest), length-print_others os rest)

  length-print_operands :
      (os : List UnresolvedOperand) (rest : List Token)
      → 2 * length os + length rest ≤ suc (length (print_operands s os rest))
  length-print_operands [] rest = omega arith
  length-print_operands (o ∷ os) rest =
      omega (arith, length-print_operand o (print_others s os rest), length-print_others os rest)

  length-print : (is : List UnresolvedInstruction) → length is ≤ length (print s is)
  length-print [] = omega arith
  length-print (i ∷ is) = omega (
    arith,
    length-print_operands i.operands (token_of s newline (codes "\n") ∷ print s is),
    length-print is,
  )

  after_newline :
      (fuel : ℕ) (ts : List Token)
      → parse_from (suc fuel) (token_of s newline (codes "\n") ∷ ts) ≡ parse_from (suc fuel) ts
  unfolding parse_from skip_newlines
  after_newline fuel ts = refl

  -- What the parser does behind the operands.
  instruction_done :
      (go_on : List Token → Option (Result (List UnresolvedInstruction))) (m : Text)
      (os : List UnresolvedOperand) (ts : List Token)
      → after_instruction go_on (some (ok (state s m (map (operand_at s) os) (is_empty os) ts)))
        ≡ prepend (record { mnemonic = m; operands = map (operand_at s) os; source = s }) (go_on ts)
  instruction_done go_on m [] ts = refl
  instruction_done go_on m (o ∷ os) ts = refl

  instructions_read :
      (fuel : ℕ) (is : List UnresolvedInstruction)
      → All IsPrintable is
      → length is < fuel
      → parse_from fuel (print s is) ≡ some (ok (map (instruction_at s) is))
  unfolding parse_from skip_newlines
  instructions_read zero is ps h = absurd (omega arith)
  instructions_read (suc fuel) [] ps h = refl
  instructions_read (suc zero) (i ∷ is) ps h = absurd (omega arith)
  instructions_read (suc (suc fuel)) (i ∷ is) ((named, p), ps) h =
      let line = token_of s newline (codes "\n") ∷ print s is in
      let enough = length-print_operands i.operands line in
      ap
        (λ m. after_instruction (parse_from (suc fuel)) (
          parse_operands (suc (length (print_operands s i.operands line)))
            (state s m [] true (print_operands s i.operands line))))
        named
      ∙ ap (after_instruction (parse_from (suc fuel))) (
          operands_read s i.mnemonic (length (print_operands s i.operands line)) i.operands
            (print s is) p (omega (arith, enough)))
      ∙ instruction_done (parse_from (suc fuel)) i.mnemonic i.operands line
      ∙ ap (prepend (instruction_at s i))
          (after_newline fuel (print s is) ∙ instructions_read (suc fuel) is ps (omega arith))

  -- The parser reads instructions back from the tokens that they are written as, all places at `s`:
  -- names in lower case, immediate values of 64 bits, and displacements of 64 bits whose negation
  -- is one too.
  pub parse-print :
      (is : List UnresolvedInstruction)
      → All IsPrintable is
      → parse (print s is) ≡ some (ok (map (instruction_at s) is))
  unfolding parse
  parse-print is ps =
      instructions_read (suc (length (print s is))) is ps (omega (arith, length-print is))
