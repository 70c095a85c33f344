-- ===== src/X86/Tokenizer/Coverage.antt =====
-- The whole loop of lib/x86/tokenizer.cpp: its end, and the texts of its tokens.
use Prim.Native.Nat.{zero, suc}
use sivra.Prelude.{
  ℕ, ◌<◌, ◌≤◌, ◌≡◌, refl, sym, ◌∙◌, ap, subst, Bool, true, false, inl, inr, if◌then◌else◌, List, [],
  ◌∷◌, ◌++◌, Option, none, some, length, length-append, all, All, Text, nat_eq, arith,
}
use sivra.Core.Result.{Result, ok, err}
use sivra.X86.Tokenizer.{
  SourcePosition, Token, Lexeme, lexeme, advance, behind, prepend, token_at, after_round,
  tokenize_from, tokenize,
}
use sivra.X86.Tokenizer.Lexemes.{is_blank, is_supported, Solid, Found, lexeme-Found, Lexeme-cases}

-- A result is a success.
abbrev pub succeeds : Result (List Token) → Bool
succeeds (ok ts) = true
succeeds (err e) = false

-- The text without the white space that makes no token.
abbrev pub visible : Text → Text
visible [] = []
visible (c ∷ cs) = if is_blank c then visible cs else c ∷ visible cs

-- The texts of the tokens, one behind the other.
abbrev pub texts : List Token → Text
texts [] = []
texts (t ∷ ts) = t.text ++ texts ts

visible-append : (t rest : Text) → All Solid t → visible (t ++ rest) ≡ t ++ visible rest
visible-append [] rest a = refl
visible-append (c ∷ t) rest a = rw a.0.0 (ap (λ l. c ∷ l) (visible-append t rest a.1))

all-append : (t rest : Text) → All Solid t → all is_supported (t ++ rest) ≡ all is_supported rest
all-append [] rest a = refl
all-append (c ∷ t) rest a = rw a.0.1 (all-append t rest a.1)

pub found : (c : ℕ) (cs : Text) {x : Lexeme} → lexeme c cs ≡ x → Found c cs x
found c cs e = subst (Found c cs) e (lexeme-Found c cs)

shorter :
    (c : ℕ) (cs t rest : Text) (fuel : ℕ)
    → c ∷ cs ≡ t ++ rest
    → 0 < length t
    → suc (length cs) ≤ suc fuel
    → length rest ≤ fuel
shorter c cs t rest fuel e h enough = omega (arith, ap length e, length-append t rest)

prepend-succeeds :
    (t : Token) (o : Option (Result (List Token))) (r : Result (List Token)) (b : Bool)
    → o ≡ some r
    → succeeds r ≡ b
    → (r' : Result (List Token)) × (prepend t o ≡ some r') × (succeeds r' ≡ b)
prepend-succeeds t o (ok ts) b e h = (ok (t ∷ ts), rw e refl, h)
prepend-succeeds t o (err ds) b e h = (err ds, rw e refl, h)

module _ (fuel source : ℕ) (p : SourcePosition) (c : ℕ) (cs : Text) where
  pub round :
      {x : Lexeme}
      → lexeme c cs ≡ x
      → tokenize_from (suc fuel) source p (c ∷ cs)
        ≡ after_round (tokenize_from fuel source) source p cs x
  unfolding tokenize_from
  round e = ap (after_round (tokenize_from fuel source) source p cs) e

-- With fuel for the text's length the loop returns, and succeeds exactly if it knows every character.
tokenize_from-returns :
    (fuel source : ℕ) (p : SourcePosition) (text : Text)
    → length text ≤ fuel
    → (r : Result (List Token)) × (tokenize_from fuel source p text ≡ some r)
      × (succeeds r ≡ all is_supported text)
tokenize_from-returns fuel source p [] h = (ok [], unfold tokenize_from in refl, refl)
tokenize_from-returns zero source p (c ∷ cs) h = absurd (omega arith)
tokenize_from-returns (suc fuel) source p (c ∷ cs) h = elim (Lexeme-cases (lexeme c cs)) [
  | inl space ↦
      let (_, known) = found c cs space in
      let (r, e, s) = tokenize_from-returns fuel source (advance p 1) cs (omega arith) in
      (r, round fuel source p c cs space ∙ e, rw known s)
  | inr (inl bad) ↦
      let unknown : is_supported c ≡ false = found c cs bad in
      (err _, round fuel source p c cs bad, rw unknown refl)
  | inr (inr (kind, t, rest, made)) ↦
      let (whole, nonempty, solid) = found c cs made in
      let (r, e, s) =
        tokenize_from-returns fuel source (behind kind t p) rest
          (shorter c cs t rest fuel whole nonempty h) in
      let (r', e', s') = prepend-succeeds (token_at source p kind t) _ r _ e s in
      (
        r',
        round fuel source p c cs made ∙ e',
        s' ∙ sym (ap (all is_supported) whole ∙ all-append t rest solid),
      )
]

-- The tokenizer always returns, and it succeeds exactly on the texts that hold only characters it knows.
pub tokenize-returns :
    (source : ℕ) (text : Text)
    → (r : Result (List Token)) × (tokenize source text ≡ some r)
      × (succeeds r ≡ all is_supported text)
unfolding tokenize
tokenize-returns source text = tokenize_from-returns (length text) source _ text (omega arith)

pub prepend-ok :
    (t : Token) (o : Option (Result (List Token))) (ts : List Token)
    → prepend t o ≡ some (ok ts)
    → (us : List Token) × (o ≡ some (ok us)) × (ts ≡ t ∷ us)
prepend-ok t none ts h = cc
prepend-ok t (some (err e)) ts h = ground arith
prepend-ok t (some (ok us)) ts h = (us, refl, ground arith)

tokenize_from-texts :
    (fuel source : ℕ) (p : SourcePosition) (text : Text) (ts : List Token)
    → tokenize_from fuel source p text ≡ some (ok ts)
    → texts ts ≡ visible text
tokenize_from-texts fuel source p [] ts h =
    let none_left : ts ≡ [] = unfold tokenize_from in ground arith in ap texts none_left
tokenize_from-texts zero source p (c ∷ cs) ts h = unfold tokenize_from in cc
tokenize_from-texts (suc fuel) source p (c ∷ cs) ts h = elim (Lexeme-cases (lexeme c cs)) [
  | inl space ↦
      let (skipped, _) = found c cs space in
      rw skipped (
        tokenize_from-texts fuel source (advance p 1) cs ts
          (sym (round fuel source p c cs space) ∙ h))
  | inr (inl bad) ↦ let failed = sym (round fuel source p c cs bad) ∙ h in ground arith
  | inr (inr (kind, t, rest, made)) ↦
      let (whole, _, solid) = found c cs made in
      let (us, e, split) =
        prepend-ok (token_at source p kind t) _ ts (sym (round fuel source p c cs made) ∙ h) in
      ap texts split
      ∙ ap (λ l. t ++ l) (tokenize_from-texts fuel source (behind kind t p) rest us e)
      ∙ sym (ap visible whole ∙ visible-append t rest solid)
]

-- When the tokenizer succeeds, the texts of its tokens one behind the other are the text without its
-- white space other than line ends.
pub tokenize-texts :
    (source : ℕ) (text : Text) (ts : List Token)
    → tokenize source text ≡ some (ok ts)
    → texts ts ≡ visible text
unfolding tokenize
tokenize-texts source text ts h = tokenize_from-texts (length text) source _ text ts h
