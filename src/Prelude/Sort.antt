-- ===== src/Prelude/Sort.antt =====
-- `std::ranges::stable_sort` under a strict order given as a test.
use mathlib.Core.Path.{◌≡◌, refl, ap, ◌∙◌}
use mathlib.Core.Logic.{inl, inr}
use mathlib.Core.List.{List, [], ◌∷◌, map}
use mathlib.Core.List.{Permᴰ}
use mathlib.Core.List.Permᴰ
use mathlib.Core.Bool.{Bool}
use Prim.Native.Nat.{suc}
use sivra.Prelude.Lists.{length}
use sivra.Prelude.Tests.{if◌then◌else◌, Bool-cases}

module _ {ℓ} {A : Type ℓ} (less : A → A → Bool) where
  -- An element goes in front of the first one that it does not follow.
  unfoldable pub insert : A → List A → List A
  insert x [] = x ∷ []
  insert x (y ∷ ys) = if less y x then y ∷ insert x ys else x ∷ y ∷ ys

  unfoldable pub stable_sort : List A → List A
  unfolding insert
  stable_sort [] = []
  stable_sort (x ∷ xs) = insert x (stable_sort xs)

  insert-perm : (x : A) (ys : List A) → Permᴰ (insert x ys) (x ∷ ys)
  unfolding insert
  insert-perm x [] = Permᴰ.refl (x ∷ [])
  insert-perm x (y ∷ ys) = elim (Bool-cases (less y x)) [
    | inl before ↦
        rw before
          (Permᴰ.trans (Permᴰ.cons refl (insert-perm x ys)) (Permᴰ.swap {a = y} {b = x} refl refl))
    | inr after ↦ rw after (Permᴰ.refl (x ∷ y ∷ ys))
  ]

  -- Sorting loses and adds nothing.
  pub stable_sort-perm : (xs : List A) → Permᴰ (stable_sort xs) xs
  unfolding stable_sort
  stable_sort-perm [] = Permᴰ.nil
  stable_sort-perm (x ∷ xs) =
      Permᴰ.trans (insert-perm x (stable_sort xs)) (Permᴰ.cons refl (stable_sort-perm xs))

module _ {ℓ κ} {A : Type ℓ} {B : Type κ} (less : B → B → Bool) (f : A → B) where
  insert-map :
      (x : A) (ys : List A)
      → insert less (f x) (map f ys) ≡ map f (insert (λ a b. less (f a) (f b)) x ys)
  unfolding insert
  insert-map x [] = refl
  insert-map x (y ∷ ys) = elim (Bool-cases (less (f y) (f x))) [
    | inl before ↦ rw before (ap (λ t. f y ∷ t) (insert-map x ys))
    | inr after ↦ rw after refl
  ]

  -- Sorting images is sorting by the images.
  pub stable_sort-map :
      (xs : List A) → stable_sort less (map f xs) ≡ map f (stable_sort (λ a b. less (f a) (f b)) xs)
  unfolding stable_sort
  stable_sort-map [] = refl
  stable_sort-map (x ∷ xs) =
      ap (insert less (f x)) (stable_sort-map xs)
      ∙ insert-map x (stable_sort (λ a b. less (f a) (f b)) xs)

pub length-perm {ℓ} : {A : Type ℓ} {xs ys : List A} → Permᴰ xs ys → length xs ≡ length ys
length-perm Permᴰ.nil = refl
length-perm (Permᴰ.cons e d) = ap suc (length-perm d)
length-perm (Permᴰ.swap e f) = refl
length-perm (Permᴰ.trans d d') = length-perm d ∙ length-perm d'
