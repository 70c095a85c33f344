-- ===== src/Tests/Tokens.antt =====
-- lib/x86/tokenizer.cpp on one line of assembly.
use sivra.Prelude.{All, ℕ, ◌≡◌, refl, codes, List, [], ◌∷◌, some, all, Text}
use sivra.Core.Result.{Result, ok}
use sivra.X86.Tokenizer.{
  TokenKind, Token, newline, span_while, integer_span, single_kind, word_lexeme, lexeme,
  tokenize_from, tokenize, token_at, SourcePosition,
}
use sivra.X86.Tokenizer.Lexemes.{is_supported}
use sivra.X86.Tokenizer.Spans.{Located, tokenize-Located}
use sivra.X86.Tokenizer.Coverage.{succeeds, visible, texts, tokenize-returns, tokenize-texts}

-- The text `mov [r_1 +0x1F],` and the end of the line.
abbrev line_of_code : Text
line_of_code = codes "mov [r_1 +0x1F],\n"

abbrev at_column : ℕ → SourcePosition
at_column column = record { byte_offset = column; line = 0; column = column }

abbrev tokens : List Token
tokens =
    token_at 1 (at_column 0) TokenKind.identifier (codes "mov")
    ∷ token_at 1 (at_column 4) TokenKind.left_bracket (codes "[")
    ∷ token_at 1 (at_column 5) TokenKind.identifier (codes "r_1")
    ∷ token_at 1 (at_column 9) TokenKind.plus (codes "+")
    ∷ token_at 1 (at_column 10) TokenKind.integer (codes "0x1F")
    ∷ token_at 1 (at_column 14) TokenKind.right_bracket (codes "]")
    ∷ token_at 1 (at_column 15) TokenKind.comma (codes ",")
    ∷ token_at 1 (at_column 16) newline (codes "\n")
    ∷ []

tokenized : tokenize 1 line_of_code ≡ some (ok tokens)
unfolding tokenize tokenize_from lexeme word_lexeme single_kind integer_span span_while
tokenized = refl

tokenize-returns_example :
    (r : Result (List Token)) × (tokenize 1 line_of_code ≡ some r)
    × (succeeds r ≡ all is_supported line_of_code)
tokenize-returns_example = tokenize-returns 1 line_of_code

tokenize-texts_example : texts tokens ≡ visible line_of_code
tokenize-texts_example = tokenize-texts 1 line_of_code tokens tokenized

tokenize-Located_example : All (Located line_of_code) tokens
tokenize-Located_example = tokenize-Located 1 line_of_code tokens tokenized
