-- ===== src/Prelude/Words/Laws.antt =====
-- The laws of the bit operations, by induction on the binary digits.
use Prim.Native.Nat.{
  ℕ, zero, suc, ◌+◌, ◌-◌, ◌*◌, ◌/◌, ◌%◌, ◌^◌, ◌≤◌, ◌<◌, min, max, bit_and, bit_or, bit_xor,
  bit_and-bitwise,
}
use mathlib.Core.Path.{◌≡◌, refl, ◌∙◌, sym, ap}
use native.Mathlib.Nat.{le_refl, pow-suc, one-le-pow}
use native.Mathlib.Omega.{arith}
use sivra.Prelude.Words.Step.{and_step, or_step, xor_step}

-- `op` applies `digit` to each pair of binary digits.
pub record IsBitwise (op digit : ℕ → ℕ → ℕ) : Type 0 where
  pub step : (a b : ℕ) → op a b ≡ op (a / 2) (b / 2) * 2 + digit (a % 2) (b % 2)
  pub zeros : op 0 0 ≡ 0
  pub binary : (a b : ℕ) → digit (a % 2) (b % 2) ≤ 1

eq_of_halves : (x y : ℕ) → x / 2 ≡ y / 2 → x % 2 ≡ y % 2 → x ≡ y
eq_of_halves x y p q = omega arith

module _ {op digit : ℕ → ℕ → ℕ} (w : IsBitwise op digit) where
  half-op : (a b : ℕ) → op a b / 2 ≡ op (a / 2) (b / 2)
  half-op a b = omega (arith, w.step a b, w.binary a b)

  low-op : (a b : ℕ) → op a b % 2 ≡ digit (a % 2) (b % 2)
  low-op a b = omega (arith, w.step a b, w.binary a b)

  module _ (law : (a b : ℕ) → digit (a % 2) (b % 2) ≡ digit (b % 2) (a % 2)) where
    comm_below : (n a b : ℕ) → a ≤ n → b ≤ n → op a b ≡ op b a
    comm_below zero a b p q =
        let x : a ≡ 0 = omega arith in let y : b ≡ 0 = omega arith in rw (x, y)
    comm_below (suc n) a b p q = omega (
      arith,
      w.step a b,
      w.step b a,
      law a b,
      comm_below n (a / 2) (b / 2) (omega arith) (omega arith),
    )

    op_comm : (a b : ℕ) → op a b ≡ op b a
    op_comm a b = comm_below (a + b) a b (omega arith) (omega arith)

  module _
      (law : (a b c : ℕ)
        → digit (digit (a % 2) (b % 2)) (c % 2) ≡ digit (a % 2) (digit (b % 2) (c % 2))) where
    assoc_below : (n a b c : ℕ) → a ≤ n → b ≤ n → c ≤ n → op (op a b) c ≡ op a (op b c)
    assoc_below zero a b c p q r =
        let x : a ≡ 0 = omega arith in
        let y : b ≡ 0 = omega arith in let z : c ≡ 0 = omega arith in rw (x, y, z, w.zeros)
    assoc_below (suc n) a b c p q r =
        eq_of_halves _ _
          (half-op (op a b) c
            ∙ ap (λ t. op t (c / 2)) (half-op a b)
            ∙ assoc_below n (a / 2) (b / 2) (c / 2) (omega arith) (omega arith) (omega arith)
            ∙ sym (half-op a (op b c) ∙ ap (op (a / 2)) (half-op b c)))
          (low-op (op a b) c
            ∙ ap (λ t. digit t (c % 2)) (low-op a b)
            ∙ law a b c
            ∙ sym (low-op a (op b c) ∙ ap (digit (a % 2)) (low-op b c)))

    op_assoc : (a b c : ℕ) → op (op a b) c ≡ op a (op b c)
    op_assoc a b c = assoc_below (a + b + c) a b c (omega arith) (omega arith) (omega arith)

  -- No more digits than both numbers have.
  op-lt : (k a b : ℕ) → a < 2 ^ k → b < 2 ^ k → op a b < 2 ^ k
  op-lt zero a b p q =
      let x : a ≡ 0 = omega arith in let y : b ≡ 0 = omega arith in rw (x, y, w.zeros) (omega arith)
  op-lt (suc k) a b p q = omega (
    arith,
    w.step a b,
    w.binary a b,
    pow-suc 2 k,
    op-lt k (a / 2) (b / 2) (omega (arith, pow-suc 2 k)) (omega (arith, pow-suc 2 k)),
  )

  module _ (law : (a : ℕ) → digit (a % 2) 0 ≡ a % 2) where
    zero_below : (n a : ℕ) → a ≤ n → op a 0 ≡ a
    zero_below zero a p = let x : a ≡ 0 = omega arith in rw (x, w.zeros)
    zero_below (suc n) a p = omega (arith, w.step a 0, law a, zero_below n (a / 2) (omega arith))

  module _ (law : (a : ℕ) → digit (a % 2) (a % 2) ≡ a % 2) where
    self_below : (n a : ℕ) → a ≤ n → op a a ≡ a
    self_below zero a p = let x : a ≡ 0 = omega arith in rw (x, w.zeros)
    self_below (suc n) a p = omega (arith, w.step a a, law a, self_below n (a / 2) (omega arith))

and-IsBitwise : IsBitwise bit_and min
and-IsBitwise = record { step = and_step; zeros = refl; binary = λ a b. omega arith }

or-IsBitwise : IsBitwise bit_or max
or-IsBitwise = record { step = or_step; zeros = refl; binary = λ a b. omega arith }

xor-IsBitwise : IsBitwise bit_xor (λ a b. (a + b) % 2)
xor-IsBitwise = record { step = xor_step; zeros = refl; binary = λ a b. omega arith }

pub and_comm : (a b : ℕ) → bit_and a b ≡ bit_and b a
and_comm = op_comm and-IsBitwise (λ a b. omega arith)

pub or_comm : (a b : ℕ) → bit_or a b ≡ bit_or b a
or_comm = op_comm or-IsBitwise (λ a b. omega arith)

pub xor_comm : (a b : ℕ) → bit_xor a b ≡ bit_xor b a
xor_comm = op_comm xor-IsBitwise (λ a b. omega arith)

pub and_assoc : (a b c : ℕ) → bit_and (bit_and a b) c ≡ bit_and a (bit_and b c)
and_assoc = op_assoc and-IsBitwise (λ a b c. omega arith)

pub or_assoc : (a b c : ℕ) → bit_or (bit_or a b) c ≡ bit_or a (bit_or b c)
or_assoc = op_assoc or-IsBitwise (λ a b c. omega arith)

pub xor_assoc : (a b c : ℕ) → bit_xor (bit_xor a b) c ≡ bit_xor a (bit_xor b c)
xor_assoc = op_assoc xor-IsBitwise (λ a b c. omega arith)

pub and-lt : (k a b : ℕ) → a < 2 ^ k → b < 2 ^ k → bit_and a b < 2 ^ k
and-lt = op-lt and-IsBitwise

pub or-lt : (k a b : ℕ) → a < 2 ^ k → b < 2 ^ k → bit_or a b < 2 ^ k
or-lt = op-lt or-IsBitwise

pub xor-lt : (k a b : ℕ) → a < 2 ^ k → b < 2 ^ k → bit_xor a b < 2 ^ k
xor-lt = op-lt xor-IsBitwise

pub or-zero : (a : ℕ) → bit_or a 0 ≡ a
or-zero a = zero_below or-IsBitwise (λ b. omega arith) a a (le_refl a)

pub xor-zero : (a : ℕ) → bit_xor a 0 ≡ a
xor-zero a = zero_below xor-IsBitwise (λ b. omega arith) a a (le_refl a)

pub and_self : (a : ℕ) → bit_and a a ≡ a
and_self a = self_below and-IsBitwise (λ b. omega arith) a a (le_refl a)

pub or_self : (a : ℕ) → bit_or a a ≡ a
or_self a = self_below or-IsBitwise (λ b. omega arith) a a (le_refl a)

zero_and : (b : ℕ) → bit_and 0 b ≡ 0
zero_and b = bit_and-bitwise 0 b

pub and-zero : (a : ℕ) → bit_and a 0 ≡ 0
and-zero a = and_comm a 0 ∙ zero_and a

xor_self_below : (n a : ℕ) → a ≤ n → bit_xor a a ≡ 0
xor_self_below zero a p = let x : a ≡ 0 = omega arith in rw x
xor_self_below (suc n) a p = omega (arith, xor_step a a, xor_self_below n (a / 2) (omega arith))

pub xor_self : (a : ℕ) → bit_xor a a ≡ 0
xor_self a = xor_self_below a a (le_refl a)

half_ones : (k : ℕ) → (2 ^ suc k - 1) / 2 ≡ 2 ^ k - 1
half_ones k = omega (arith, pow-suc 2 k, one-le-pow k 2)

-- A mask of `k` ones.
pub and-ones : (k a : ℕ) → a < 2 ^ k → bit_and a (2 ^ k - 1) ≡ a
and-ones zero a p = let x : a ≡ 0 = omega arith in rw x refl
and-ones (suc k) a p = omega (
  arith,
  and_step a (2 ^ suc k - 1),
  ap (bit_and (a / 2)) (half_ones k),
  half_ones k,
  pow-suc 2 k,
  one-le-pow k 2,
  and-ones k (a / 2) (omega (arith, pow-suc 2 k)),
)

pub or-ones : (k a : ℕ) → a < 2 ^ k → bit_or a (2 ^ k - 1) ≡ 2 ^ k - 1
or-ones zero a p = let x : a ≡ 0 = omega arith in rw x refl
or-ones (suc k) a p = omega (
  arith,
  or_step a (2 ^ suc k - 1),
  ap (bit_or (a / 2)) (half_ones k),
  half_ones k,
  pow-suc 2 k,
  one-le-pow k 2,
  or-ones k (a / 2) (omega (arith, pow-suc 2 k)),
)
