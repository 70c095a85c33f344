-- ===== src/Tests/Parser.antt =====
-- lib/x86/parser.cpp on two instructions.
use sivra.Prelude.{◌≡◌, refl, codes, List, [], ◌∷◌, some, arith}
use sivra.Prelude.Int.{pos, negsuc}
use sivra.Core.Result.{Result, ok}
use sivra.X86.Tokenizer.{SourceSpan, comma}
use sivra.X86.Parser.{register, immediate, memory, UnresolvedInstruction, parse}
use sivra.X86.Parser.Printing.{token_of, print}
use sivra.X86.Parser.RoundTrip.{parse-print}
use sivra.X86.Parser.Progress.{parse-returns}

abbrev place : SourceSpan
place = record {
  source = 1;
  begin = record { byte_offset = 4; line = 0; column = 4 };
  end = record { byte_offset = 7; line = 0; column = 7 };
}

abbrev instructions : List UnresolvedInstruction
instructions =
    record {
      mnemonic = codes "mov";
      operands = register (codes "eax") place ∷ memory (codes "rsp") (negsuc 15) place ∷ [];
      source = place;
    }
    ∷ record {
      mnemonic = codes "add";
      operands =
          memory (codes "rax") (pos 8) place
          ∷ register (codes "ebx") place
          ∷ immediate 31 place
          ∷ [];
      source = place;
    }
    ∷ record { mnemonic = codes "ret"; operands = []; source = place }
    ∷ []

parse-print_example : parse (print place instructions) ≡ some (ok instructions)
parse-print_example = parse-print place instructions (
  (refl, (refl, ((refl, omega arith), tt))),
  ((refl, ((refl, omega arith), (refl, (omega arith, tt)))), ((refl, tt), tt)),
)

parse-returns_example :
    (r : Result (List UnresolvedInstruction)) × (parse (token_of place comma (codes ",") ∷ [])
      ≡ some r)
parse-returns_example = parse-returns (token_of place comma (codes ",") ∷ [])
