-- ===== src/X86/Tokenizer/Lexemes.antt =====
-- What one round of lib/x86/tokenizer.cpp takes from the text.
use sivra.Prelude.{
  ℕ, ◌<◌, ◌≡◌, refl, ap, ◌⊎◌, Bool, true, false, ◌&&◌, ◌||◌, not, Bool-cases, Option-cases, inl,
  inr, [], ◌∷◌, ◌++◌, none, has_value, length, All, Text, ◌==◌, nat_eq, arith,
}
use sivra.X86.Tokenizer.{
  TokenKind, Lexeme, blank, unsupported, token, token_of, cons_front, is_space, is_digit, is_xdigit,
  is_alpha, is_word, span_while, integer_span, single_kind, word_lexeme, lexeme,
}

-- White space that makes no token.
abbrev pub is_blank : ℕ → Bool
is_blank c = is_space c && not (c == 10)

-- The characters that the tokenizer knows.
unfoldable pub is_supported : ℕ → Bool
unfolding single_kind
is_supported c = is_space c || is_word c || has_value (single_kind c)

-- A character of a token.
abbrev pub Solid : ℕ → Type 0
Solid c = (is_blank c ≡ false) × (is_supported c ≡ true)

abbrev pub Taken : Text → Text × Text → Type 0
Taken cs s = (cs ≡ s.0 ++ s.1) × All Solid s.0

word-Solid : (c : ℕ) → is_word c ≡ true → Solid c
unfolding is_supported
word-Solid c h = ground arith

span_while-Taken :
    (p : ℕ → Bool) (solid : (c : ℕ) → p c ≡ true → Solid c) (cs : Text) → Taken cs (span_while p cs)
unfolding span_while
span_while-Taken p solid [] = (refl, tt)
span_while-Taken p solid (c ∷ cs) = elim (Bool-cases (p c)) [
  | inl more ↦
      let (whole, all) = span_while-Taken p solid cs in
      rw more (ap (λ l. c ∷ l) whole, (solid c more, all))
  | inr end ↦ rw end (refl, tt)
]

cons_front-Taken :
    (c : ℕ) (cs : Text) (s : Text × Text) → Solid c → Taken cs s → Taken (c ∷ cs) (cons_front c s)
cons_front-Taken c cs s solid t = (ap (λ l. c ∷ l) t.0, (solid, t.1))

integer_span-Taken : (c : ℕ) (cs : Text) → is_digit c ≡ true → Taken (c ∷ cs) (integer_span c cs)
unfolding integer_span
integer_span-Taken c [] h = (refl, (word-Solid c (ground arith), tt))
integer_span-Taken c (d ∷ cs) h = elim (Bool-cases (c == 48 && (d == 120 || d == 88))) [
  | inl hex ↦ rw hex (
      cons_front-Taken c (d ∷ cs) (cons_front d (span_while is_xdigit cs))
        (word-Solid c (ground arith))
        (cons_front-Taken d cs (span_while is_xdigit cs) (word-Solid d (ground arith))
          (span_while-Taken is_xdigit (λ x e. word-Solid x (ground arith)) cs)))
  | inr decimal ↦ rw decimal (
      cons_front-Taken c (d ∷ cs) (span_while is_digit (d ∷ cs)) (word-Solid c (ground arith))
        (span_while-Taken is_digit (λ x e. word-Solid x (ground arith)) (d ∷ cs)))
]

-- What a round finds at `c`, with `cs` behind it.
abbrev pub Found : ℕ → Text → Lexeme → Type 0
Found c cs blank = (is_blank c ≡ true) × (is_supported c ≡ true)
Found c cs unsupported = is_supported c ≡ false
Found c cs (token kind t rest) = (c ∷ cs ≡ t ++ rest) × (0 < length t) × All Solid t

Taken-Found :
    (c : ℕ) (cs : Text) (kind : TokenKind) (s : Text × Text)
    → Taken (c ∷ cs) s
    → 0 < length s.0
    → Found c cs (token_of kind s)
Taken-Found c cs kind s t h = (t.0, h, t.1)

integer_span-nonempty : (c : ℕ) (cs : Text) → 0 < length (integer_span c cs).0
unfolding integer_span
integer_span-nonempty c [] = omega arith
integer_span-nonempty c (d ∷ cs) = elim (Bool-cases (c == 48 && (d == 120 || d == 88))) [
  | inl hex ↦ rw hex (omega arith)
  | inr decimal ↦ rw decimal (omega arith)
]

word_lexeme-Found :
    (c : ℕ) (cs : Text) → is_space c ≡ false → single_kind c ≡ none → Found c cs (word_lexeme c cs)
unfolding word_lexeme is_supported
word_lexeme-Found c cs solid other = elim (Bool-cases (is_digit c)) [
  | inl digit ↦ rw digit (
      Taken-Found c cs TokenKind.integer (integer_span c cs) (integer_span-Taken c cs digit)
        (integer_span-nonempty c cs))
  | inr nondigit ↦ elim (Bool-cases (is_alpha c || c == 95)) [
    | inl start ↦
        rw (nondigit, start)
          (Taken-Found c cs TokenKind.identifier (cons_front c (span_while is_word cs))
            (cons_front-Taken c cs (span_while is_word cs) (word-Solid c (ground arith))
              (span_while-Taken is_word word-Solid cs))
            (omega arith))
    | inr unknown ↦ rw (nondigit, unknown) (ground arith)
  ]
]

-- Every round finds what it says: a space, an unknown character, or a token that begins the text, is
-- not empty, and has no white space in it but the end of a line.
pub lexeme-Found : (c : ℕ) (cs : Text) → Found c cs (lexeme c cs)
unfolding lexeme is_supported
lexeme-Found c cs = elim (Bool-cases (is_space c)) [
  | inl space ↦ elim (Bool-cases (c == 10)) [
    | inl end ↦
        let ten : c ≡ 10 = ground arith in
        rw (space, end) (ap (λ d. d ∷ cs) ten, omega arith, ((refl, refl), tt))
    | inr inside ↦ rw (space, inside) (ground arith, ground arith)
  ]
  | inr solid ↦ elim (Option-cases (single_kind c)) [
    | inl other ↦ rw (solid, other) (word_lexeme-Found c cs solid other)
    | inr (kind, single) ↦
        rw (solid, single) (refl, omega arith, ((ground arith, ground arith), tt))
  ]
]

pub Lexeme-cases :
    (x : Lexeme)
    → (x ≡ blank)
      ⊎ (x ≡ unsupported)
      ⊎ ((kind : TokenKind) × (t : Text) × (rest : Text) × (x ≡ token kind t rest))
Lexeme-cases blank = inl refl
Lexeme-cases unsupported = inr (inl refl)
Lexeme-cases (token kind t rest) = inr (inr (kind, t, rest, refl))
