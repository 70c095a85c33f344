-- ===== src/X86/Tokenizer/Spans.antt =====
-- The places that lib/x86/tokenizer.cpp gives to its tokens.
use Prim.Native.Nat.{zero, suc}
use sivra.Prelude.{
  ℕ, ◌+◌, ◌≡◌, refl, sym, ◌∙◌, ap, subst, ◌||◌, Bool-cases, Option-cases, inl, inr, List, [], ◌∷◌,
  ◌++◌, some, length, length-append, All, Text, ◌==◌, nat_eq, arith,
}
use mathlib.Core.List.{append_assoc}
use sivra.Core.Result.{ok}
use sivra.X86.Tokenizer.{
  TokenKind, newline, SourcePosition, Token, Lexeme, token, is_space, is_digit, is_alpha,
  single_kind, word_lexeme, lexeme, advance, behind, token_at, tokenize_from, tokenize,
}
use sivra.X86.Tokenizer.Lexemes.{Lexeme-cases}
use sivra.X86.Tokenizer.Coverage.{found, round, prepend-ok}

-- A line end makes a token of one character.
abbrev OneLine : Lexeme → Type 0
OneLine (token newline t rest) = length t ≡ 1
OneLine _ = Unit {0}

single-OneLine : (kind : TokenKind) (c : ℕ) (cs : Text) → OneLine (token kind (c ∷ []) cs)
single-OneLine newline c cs = refl
single-OneLine kind c cs = tt

word-OneLine : (c : ℕ) (cs : Text) → OneLine (word_lexeme c cs)
unfolding word_lexeme
word-OneLine c cs = elim (Bool-cases (is_digit c)) [
  | inl digit ↦ rw digit tt
  | inr nondigit ↦ elim (Bool-cases (is_alpha c || c == 95)) [
    | inl start ↦ rw (nondigit, start) tt
    | inr unknown ↦ rw (nondigit, unknown) tt
  ]
]

lexeme-OneLine : (c : ℕ) (cs : Text) → OneLine (lexeme c cs)
unfolding lexeme
lexeme-OneLine c cs = elim (Bool-cases (is_space c)) [
  | inl space ↦ elim (Bool-cases (c == 10)) [
    | inl end ↦ rw (space, end) refl
    | inr inside ↦ rw (space, inside) tt
  ]
  | inr solid ↦ elim (Option-cases (single_kind c)) [
    | inl other ↦ rw (solid, other) (word-OneLine c cs)
    | inr (kind, single) ↦ rw (solid, single) (single-OneLine kind c cs)
  ]
]

behind-offset :
    (c : ℕ) (cs : Text) (kind : TokenKind) (t rest : Text) (p : SourcePosition)
    → lexeme c cs ≡ token kind t rest
    → (behind kind t p).byte_offset ≡ p.byte_offset + length t
behind-offset c cs newline t rest p e =
    let one : length t ≡ 1 = subst OneLine e (lexeme-OneLine c cs) in omega arith
behind-offset c cs kind t rest p e = refl

-- The span of the token is where its text stands in `full`.
abbrev pub Located : Text → Token → Type 0
Located full t =
    (before : Text) × (after : Text) × (full ≡ before ++ (t.text ++ after))
    × (t.source.begin.byte_offset ≡ length before)
    × (t.source.end.byte_offset ≡ length before + length t.text)

-- The rounds behind the text `before`, `text` being what is left of `full`.
tokenize_from-Located :
    (full before : Text) (fuel source : ℕ) (p : SourcePosition) (text : Text) (ts : List Token)
    → full ≡ before ++ text
    → p.byte_offset ≡ length before
    → tokenize_from fuel source p text ≡ some (ok ts)
    → All (Located full) ts
tokenize_from-Located full before fuel source p [] ts whole place h =
    let none_left : ts ≡ [] = unfold tokenize_from in ground arith in rw none_left tt
tokenize_from-Located full before zero source p (c ∷ cs) ts whole place h =
    unfold tokenize_from in cc
tokenize_from-Located full before (suc fuel) source p (c ∷ cs) ts whole place h =
    elim (Lexeme-cases (lexeme c cs)) [
      | inl space ↦
          tokenize_from-Located full (before ++ (c ∷ [])) fuel source (advance p 1) cs ts
            (whole ∙ sym (append_assoc before (c ∷ []) cs))
            (omega (arith, place, length-append before (c ∷ [])))
            (sym (round fuel source p c cs space) ∙ h)
      | inr (inl bad) ↦ let failed = sym (round fuel source p c cs bad) ∙ h in ground arith
      | inr (inr (kind, t, rest, made)) ↦
          let (front, _, solid) = found c cs made in
          let (us, e, split) =
            prepend-ok (token_at source p kind t) _ ts (sym (round fuel source p c cs made) ∙ h) in
          let here : full ≡ before ++ (t ++ rest) = whole ∙ ap (λ l. before ++ l) front in
          let end = behind-offset c cs kind t rest p made in
          rw split (
            (before, rest, here, place, omega (arith, end, place)),
            tokenize_from-Located full (before ++ t) fuel source (behind kind t p) rest us
                (here ∙ sym (append_assoc before t rest))
                (omega (arith, end, place, length-append before t)) e,
          )
    ]

-- When the tokenizer succeeds, the byte offsets of every token's span enclose just the token's text in
-- the source text.
pub tokenize-Located :
    (source : ℕ) (text : Text) (ts : List Token)
    → tokenize source text ≡ some (ok ts)
    → All (Located text) ts
unfolding tokenize
tokenize-Located source text ts h =
    tokenize_from-Located text [] (length text) source _ text ts refl refl h
