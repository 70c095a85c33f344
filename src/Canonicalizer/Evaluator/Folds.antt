-- ===== src/Canonicalizer/Evaluator/Folds.antt =====
-- The integer loop of lib/canonicalizer/evaluator_catalogue.cpp on operands in different orders.
use sivra.Prelude.{
  ℕ, ◌≡◌, refl, sym, ◌∙◌, ap, true, List, [], ◌∷◌, All, is_empty, if◌then◌else◌, subst,
}
use mathlib.Core.List.{Permᴰ, Perm}
use mathlib.Core.Logic.{∥∥₁_elim}
use native.Mathlib.Nat.{ℕ_set}
use sivra.Canonicalizer.Evaluator.Arithmetic.{
  BuiltinEvaluation, square, copy, is_commutative, fold_bits, i32_step, evaluate_i32,
}
use sivra.Canonicalizer.Evaluator.Steps.{IsWord, i32_step_comm, i32_step_assoc, i32_step-IsWord}

-- The value on a list of words, the first operand included; no operation has no operands.
abbrev pub interpret : BuiltinEvaluation → List ℕ → ℕ
interpret ev [] = 0
interpret ev (x ∷ xs) = evaluate_i32 ev x xs

evaluate_i32-fold :
    (ev : BuiltinEvaluation) (x : ℕ) (xs : List ℕ)
    → is_commutative ev ≡ true
    → evaluate_i32 ev x xs ≡ fold_bits (i32_step ev) x xs
unfolding evaluate_i32 is_commutative
evaluate_i32-fold copy x xs h = cc
evaluate_i32-fold square x xs h = cc
evaluate_i32-fold ev x xs h = refl

module _ (ev : BuiltinEvaluation) (commutes : is_commutative ev ≡ true) where
  fold-IsWord :
      (x : ℕ) (xs : List ℕ) → IsWord x → All IsWord xs → IsWord (fold_bits (i32_step ev) x xs)
  fold-IsWord x [] p q = p
  fold-IsWord x (y ∷ ys) p q =
      fold-IsWord (i32_step ev x y) ys (i32_step-IsWord ev x y commutes p q.0) q.1

  -- The first operand may as well be combined last.
  fold-step :
      (x y : ℕ) (ys : List ℕ)
      → IsWord x
      → IsWord y
      → All IsWord ys
      → fold_bits (i32_step ev) (i32_step ev x y) ys ≡ i32_step ev x (fold_bits (i32_step ev) y ys)
  fold-step x y [] p q r = refl
  fold-step x y (z ∷ zs) p q r =
      rw (i32_step_assoc ev x y z commutes p q r.0)
        (fold-step x (i32_step ev y z) zs p (i32_step-IsWord ev y z commutes q r.0) r.1)

  interpret-cons :
      (x y : ℕ) (ys : List ℕ)
      → IsWord x
      → IsWord y
      → All IsWord ys
      → interpret ev (x ∷ y ∷ ys) ≡ i32_step ev x (interpret ev (y ∷ ys))
  interpret-cons x y ys p q r =
      evaluate_i32-fold ev x (y ∷ ys) commutes
      ∙ fold-step x y ys p q r
      ∙ ap (i32_step ev x) (sym (evaluate_i32-fold ev y ys commutes))

  interpret-IsWord :
      (y : ℕ) (ys : List ℕ) → IsWord y → All IsWord ys → IsWord (interpret ev (y ∷ ys))
  interpret-IsWord y ys p q = rw (evaluate_i32-fold ev y ys commutes) (fold-IsWord y ys p q)

  perm-AllWords : {xs ys : List ℕ} → Permᴰ xs ys → All IsWord xs → All IsWord ys
  perm-AllWords Permᴰ.nil q = tt
  perm-AllWords (Permᴰ.cons e d) q = (subst IsWord e q.0, perm-AllWords d q.1)
  perm-AllWords (Permᴰ.swap e f) q = (subst IsWord f q.1.0, (subst IsWord e q.0, q.1.1))
  perm-AllWords (Permᴰ.trans d d') q = perm-AllWords d' (perm-AllWords d q)

  perm-is_empty : {xs ys : List ℕ} → Permᴰ xs ys → is_empty xs ≡ is_empty ys
  perm-is_empty Permᴰ.nil = refl
  perm-is_empty (Permᴰ.cons e d) = refl
  perm-is_empty (Permᴰ.swap e f) = refl
  perm-is_empty (Permᴰ.trans d d') = perm-is_empty d ∙ perm-is_empty d'

  -- The first operand is combined with the value of the others, if there are any.
  combine : ℕ → List ℕ → ℕ
  combine x l = if is_empty l then x else i32_step ev x (interpret ev l)

  interpret-combine :
      (x : ℕ) (l : List ℕ) → IsWord x → All IsWord l → interpret ev (x ∷ l) ≡ combine x l
  unfolding combine
  interpret-combine x [] p q = evaluate_i32-fold ev x [] commutes
  interpret-combine x (y ∷ ys) p q = interpret-cons x y ys p q.0 q.1

  interpret-swap :
      (x y : ℕ) (l : List ℕ)
      → IsWord x
      → IsWord y
      → interpret ev (x ∷ y ∷ l) ≡ interpret ev (y ∷ x ∷ l)
  interpret-swap x y l p q =
      evaluate_i32-fold ev x (y ∷ l) commutes
      ∙ ap (λ t. fold_bits (i32_step ev) t l) (i32_step_comm ev x y commutes p q)
      ∙ sym (evaluate_i32-fold ev y (x ∷ l) commutes)

  pub interpret-permᴰ :
      {xs ys : List ℕ} → Permᴰ xs ys → All IsWord xs → interpret ev xs ≡ interpret ev ys
  unfolding combine
  interpret-permᴰ Permᴰ.nil q = refl
  interpret-permᴰ (Permᴰ.cons {a} {b} {l₁} {l₂} e d) q =
      interpret-combine a l₁ q.0 q.1
      ∙ rw (e, perm-is_empty d, interpret-permᴰ d q.1) refl
      ∙ sym (interpret-combine b l₂ (subst IsWord e q.0) (perm-AllWords d q.1))
  interpret-permᴰ (Permᴰ.swap {a} {b} {a'} {b'} {l} e f) q =
      interpret-swap a b l q.0 q.1.0 ∙ rw (e, f)
  interpret-permᴰ (Permᴰ.trans d d') q =
      interpret-permᴰ d q ∙ interpret-permᴰ d' (perm-AllWords d q)

-- The value of a commutative operation on words of 32 bits does not depend on their order.
pub interpret-perm :
    (ev : BuiltinEvaluation) (xs ys : List ℕ)
    → is_commutative ev ≡ true
    → All IsWord xs
    → Perm xs ys
    → interpret ev xs ≡ interpret ev ys
interpret-perm ev xs ys commutes q d = ∥∥₁_elim d (ℕ_set _ _) (λ p. interpret-permᴰ ev commutes p q)
