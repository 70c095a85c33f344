-- ===== src/Ir/Catalogue/Keys.antt =====
-- `key_index_value` of lib/ir/operation_catalogue.cpp, the text under which a key is indexed.
use sivra.Prelude.{ℕ, ◌≡◌, refl, sym, ◌∙◌, [], ◌∷◌, ◌++◌, length, All, Text, codes, arith}
use mathlib.Core.List.{append_assoc}
use sivra.Prelude.Decimal.{to_chars, to_chars-injective, to_chars-IsDigit, IsDigit}
use sivra.Ir.Operation.{OperationKey}
use sivra.Ir.Catalogue.{key_index_value}

-- Up to the first `;` two texts of digits can be read off.
split_digits :
    (xs ys us vs : Text)
    → All IsDigit xs
    → All IsDigit ys
    → xs ++ (59 ∷ us) ≡ ys ++ (59 ∷ vs)
    → (xs ≡ ys) × (us ≡ vs)
split_digits [] [] us vs p q e = ground arith
split_digits [] (y ∷ ys) us vs p q e = ground arith
split_digits (x ∷ xs) [] us vs p q e = ground arith
split_digits (x ∷ xs) (y ∷ ys) us vs p q e = ground (arith, split_digits xs ys us vs p.1 q.1)

-- Texts of one length can be read off too.
split_length :
    (xs ys us vs : Text) → length xs ≡ length ys → xs ++ us ≡ ys ++ vs → (xs ≡ ys) × (us ≡ vs)
split_length [] [] us vs n e = ground arith
split_length [] (y ∷ ys) us vs n e = ground arith
split_length (x ∷ xs) [] us vs n e = ground arith
split_length (x ∷ xs) (y ∷ ys) us vs n e = ground (arith, split_length xs ys us vs)

-- The integer that stands in front.
split_integer :
    (m n : ℕ) (us vs : Text)
    → to_chars m ++ (59 ∷ us) ≡ to_chars n ++ (59 ∷ vs)
    → (m ≡ n) × (us ≡ vs)
split_integer m n us vs e =
    let (a, b) =
      split_digits (to_chars m) (to_chars n) us vs (to_chars-IsDigit m) (to_chars-IsDigit n) e in
    (to_chars-injective m n a, b)

-- The text of a key, bracketed to the right behind its prefix.
key_tail : OperationKey → Text
key_tail k =
    to_chars (length k.value) ++ (59 ∷ (k.value ++ (59 ∷ (to_chars k.version ++ (59 ∷ [])))))

key_index_value-key_tail :
    (k : OperationKey) → key_index_value k ≡ codes "sivra.ir.catalogue.v2;" ++ key_tail k
unfolding key_index_value key_tail
key_index_value-key_tail k = simp append_assoc

-- Two keys have the same index text only if they are the same key, whatever characters they hold.
pub key_index_value-injective : (a b : OperationKey) → key_index_value a ≡ key_index_value b → a ≡ b
unfolding key_tail
key_index_value-injective a b e =
    let whole = (sym (key_index_value-key_tail a)) ∙ e ∙ (key_index_value-key_tail b) in
    let (n, rest) =
      split_integer (length a.value) (length b.value) _ _
        (split_length (codes "sivra.ir.catalogue.v2;") (codes "sivra.ir.catalogue.v2;") _ _ refl
          whole).1 in
    let (v, end) = split_length a.value b.value _ _ n rest in
    let last : to_chars a.version ++ (59 ∷ []) ≡ to_chars b.version ++ (59 ∷ []) =
      ground (arith, end) in
    let (w, _) = split_integer a.version b.version [] [] last in ground arith
