-- ===== src/X86/Tokenizer.antt =====
-- lib/x86/tokenizer.cpp: assembly text into tokens with their places in the source.
pub mod Lexemes
pub mod Coverage
pub mod Spans
use Prim.Native.Nat.{zero, suc}
use sivra.Prelude.{
  ℕ, ◌+◌, ◌%◌, ◌^◌, ◌≡◌, Bool, true, false, ◌&&◌, ◌||◌, not, if◌then◌else◌, leb, List, [], ◌∷◌,
  Option, none, some, length, Text, ◌==◌, nat_eq,
}
use sivra.Core.Result.{Result, ok, err, fail}

-- `token_kind`.
pub data TokenKind : Type 0 where
  identifier integer comma plus minus left_bracket right_bracket newline : TokenKind

-- `source_position` and `source_span`, in core/source_location.hpp.
pub record SourcePosition : Type 0 where
  pub byte_offset : ℕ
  pub line : ℕ
  pub column : ℕ

pub record SourceSpan : Type 0 where
  pub source : ℕ
  pub begin : SourcePosition
  pub end : SourcePosition

pub record Token : Type 0 where
  pub kind : TokenKind
  pub text : Text
  pub source : SourceSpan

-- The tests of <cctype> in the "C" locale.
abbrev pub between : ℕ → ℕ → ℕ → Bool
between low high c = leb low c && leb c high

abbrev pub is_space : ℕ → Bool
is_space c = c == 32 || between 9 13 c

abbrev pub is_digit : ℕ → Bool
is_digit c = between 48 57 c

abbrev pub is_xdigit : ℕ → Bool
is_xdigit c = is_digit c || between 65 70 c || between 97 102 c

abbrev pub is_alpha : ℕ → Bool
is_alpha c = between 65 90 c || between 97 122 c

-- A character that an identifier goes on with.
abbrev pub is_word : ℕ → Bool
is_word c = is_alpha c || is_digit c || c == 95

-- The characters from the front that pass the test, and the rest.
unfoldable pub span_while : (ℕ → Bool) → Text → Text × Text
span_while p [] = ([], [])
span_while p (c ∷ cs) =
    let (taken, rest) = span_while p cs in if p c then (c ∷ taken, rest) else ([], c ∷ cs)

abbrev pub cons_front : ℕ → Text × Text → Text × Text
cons_front c (taken, rest) = (c ∷ taken, rest)

-- Behind the first digit `c`: an `x` after a zero starts a hexadecimal number.
unfoldable pub integer_span : ℕ → Text → Text × Text
unfolding span_while
integer_span c [] = (c ∷ [], [])
integer_span c (d ∷ cs) =
    if c == 48 && (d == 120 || d == 88)
    then cons_front c (cons_front d (span_while is_xdigit cs))
    else cons_front c (span_while is_digit (d ∷ cs))

-- The `switch`.
unfoldable pub single_kind : ℕ → Option TokenKind
single_kind c =
    if c == 44
    then some comma
    else if c == 43
    then some plus
    else if c == 45
    then some minus
    else if c == 91
    then some left_bracket
    else if c == 93
    then some right_bracket
    else none

-- One round of the loop: a space, a token with the text behind it, or a failure.
pub data Lexeme : Type 0 where
  blank : Lexeme
  unsupported : Lexeme
  token : TokenKind → Text → Text → Lexeme

abbrev pub token_of : TokenKind → Text × Text → Lexeme
token_of kind (taken, rest) = token kind taken rest

unfoldable pub word_lexeme : ℕ → Text → Lexeme
unfolding integer_span span_while
word_lexeme c cs =
    if is_digit c
    then token_of integer (integer_span c cs)
    else if is_alpha c || c == 95
    then token_of identifier (cons_front c (span_while is_word cs))
    else unsupported

unfoldable pub lexeme : ℕ → Text → Lexeme
unfolding word_lexeme single_kind
lexeme c cs =
    if is_space c
    then if c == 10 then token newline (10 ∷ []) cs else blank
    else elim (single_kind c) [ none ↦ word_lexeme c cs | some kind ↦ token kind (c ∷ []) cs ]

-- Line and column are numbers of 32 bits.
abbrev pub advance : SourcePosition → ℕ → SourcePosition
advance p count = record p {
  byte_offset = p.byte_offset + count;
  column = (p.column + count) % 2 ^ 32;
}

abbrev pub next_line : SourcePosition → SourcePosition
next_line p = record { byte_offset = p.byte_offset + 1; line = (p.line + 1) % 2 ^ 32; column = 0 }

abbrev pub behind : TokenKind → Text → SourcePosition → SourcePosition
behind newline t p = next_line p
behind kind t p = advance p (length t)

abbrev pub prepend : Token → Option (Result (List Token)) → Option (Result (List Token))
prepend t none = none
prepend t (some (err e)) = some (err e)
prepend t (some (ok ts)) = some (ok (t ∷ ts))

-- The token of a lexeme that starts at `p`.
abbrev pub token_at : ℕ → SourcePosition → TokenKind → Text → Token
token_at source p kind t = record {
  kind = kind;
  text = t;
  source = record { source = source; begin = p; end = behind kind t p };
}

-- What a round does with its lexeme, `go_on` being the rounds behind it.
abbrev pub after_round :
    (SourcePosition → Text → Option (Result (List Token)))
    → ℕ
    → SourcePosition
    → Text
    → Lexeme
    → Option (Result (List Token))
after_round go_on source p cs blank = go_on (advance p 1) cs
after_round go_on source p cs unsupported = some (fail "x86.tokenizer.invalid_character")
after_round go_on source p cs (token kind t rest) =
    prepend (token_at source p kind t) (go_on (behind kind t p) rest)

-- The loop, with fuel for so many rounds; `none` is the end of the fuel.
unfoldable pub tokenize_from : ℕ → ℕ → SourcePosition → Text → Option (Result (List Token))
unfolding lexeme
tokenize_from fuel source p [] = some (ok [])
tokenize_from zero source p (c ∷ cs) = none
tokenize_from (suc fuel) source p (c ∷ cs) =
    after_round (tokenize_from fuel source) source p cs (lexeme c cs)

-- A round takes a character at least, so the length of the text is fuel enough.
unfoldable pub tokenize : ℕ → Text → Option (Result (List Token))
tokenize source text =
    tokenize_from (length text) source (record { byte_offset = 0; line = 0; column = 0 }) text
