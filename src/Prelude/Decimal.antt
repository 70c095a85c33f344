-- ===== src/Prelude/Decimal.antt =====
-- `std::to_chars` of an unsigned number in base ten.
use Prim.Native.Nat.{ℕ, zero, suc, ◌+◌, ◌*◌, ◌-◌, ◌/◌, ◌%◌, ◌≤◌, ◌<◌}
use mathlib.Core.Path.{◌≡◌, refl, ap, sym, ◌∙◌}
use mathlib.Core.Logic.{inl, inr}
use mathlib.Core.List.{[], ◌∷◌, ◌++◌}
use native.Mathlib.Nat.{le_refl}
use native.Mathlib.Omega.{arith}
use sivra.Prelude.Tests.{ltb, if◌then◌else◌, Bool-cases}
use sivra.Prelude.Lists.{All, All-append}
use sivra.Prelude.Texts.{Text}

-- The digits of `n`, most significant first, on fuel; `n` is enough fuel for `n`.
unfoldable pub decimal_digits : ℕ → ℕ → Text
decimal_digits zero n = (48 + n % 10) ∷ []
decimal_digits (suc f) n =
    let rest = decimal_digits f (n / 10) in
    if ltb n 10 then (48 + n) ∷ [] else rest ++ (48 + n % 10) ∷ []

unfoldable pub to_chars : ℕ → Text
unfolding decimal_digits
to_chars n = decimal_digits n n

-- The number that a string of digits stands for, read from the left.
abbrev pub digits_value : ℕ → Text → ℕ
digits_value acc [] = acc
digits_value acc (c ∷ cs) = digits_value (acc * 10 + (c - 48)) cs

digits_value-append :
    (acc : ℕ) (xs : Text) (c : ℕ)
    → digits_value acc (xs ++ c ∷ []) ≡ digits_value acc xs * 10 + (c - 48)
digits_value-append acc [] c = refl
digits_value-append acc (x ∷ xs) c = digits_value-append (acc * 10 + (x - 48)) xs c

value-decimal_digits : (f n : ℕ) → n ≤ f → digits_value 0 (decimal_digits f n) ≡ n
unfolding decimal_digits
value-decimal_digits zero n h = omega arith
value-decimal_digits (suc f) n h = elim (Bool-cases (ltb n 10)) [
  | inl small ↦ rw small (omega arith)
  | inr large ↦ rw large (
      digits_value-append 0 (decimal_digits f (n / 10)) (48 + n % 10)
      ∙ ground (arith, value-decimal_digits f (n / 10)))
]

pub value-to_chars : (n : ℕ) → digits_value 0 (to_chars n) ≡ n
unfolding to_chars
value-to_chars n = value-decimal_digits n n (le_refl n)

pub to_chars-injective : (m n : ℕ) → to_chars m ≡ to_chars n → m ≡ n
to_chars-injective m n e = sym (value-to_chars m) ∙ ap (digits_value 0) e ∙ value-to_chars n

-- A digit is no `;`.
abbrev pub IsDigit : ℕ → Type 0
IsDigit c = (48 ≤ c) × (c < 58)

decimal_digits-IsDigit : (f n : ℕ) → All IsDigit (decimal_digits f n)
unfolding decimal_digits
decimal_digits-IsDigit zero n = omega arith
decimal_digits-IsDigit (suc f) n = elim (Bool-cases (ltb n 10)) [
  | inl small ↦ rw small ((omega arith, ground arith), tt)
  | inr large ↦
      rw large (All-append IsDigit _ _ (decimal_digits-IsDigit f (n / 10)) (omega arith, tt))
]

pub to_chars-IsDigit : (n : ℕ) → All IsDigit (to_chars n)
unfolding to_chars
to_chars-IsDigit n = decimal_digits-IsDigit n n

pub to_chars_zero : to_chars 0 ≡ 48 ∷ []
unfolding to_chars decimal_digits
to_chars_zero = refl
