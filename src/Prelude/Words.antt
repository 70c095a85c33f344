-- ===== src/Prelude/Words.antt =====
-- `uint32_t`: arithmetic that wraps, and the bit operations, on numbers below 2^32.
pub mod Step
pub mod Laws
use Prim.Native.Nat.{ℕ, ◌+◌, ◌-◌, ◌*◌, ◌%◌, ◌^◌, bit_and, bit_or, bit_xor}
use mathlib.Core.Bool.{Bool}
use sivra.Prelude.Tests.{ltb, if◌then◌else◌}
use sivra.Prelude.Int.{ℤ, pos, negsuc, leb_ℤ}

abbrev pub u32_mod : ℕ
u32_mod = 2 ^ 32

unfoldable pub add_u32 : ℕ → ℕ → ℕ
add_u32 a b = (a + b) % u32_mod

unfoldable pub mul_u32 : ℕ → ℕ → ℕ
mul_u32 a b = a * b % u32_mod

unfoldable pub sub_u32 : ℕ → ℕ → ℕ
sub_u32 a b = (a + u32_mod - b) % u32_mod

-- `~a`.
unfoldable pub not_u32 : ℕ → ℕ
not_u32 a = u32_mod - 1 - a

-- `std::bit_cast<std::int32_t>`.
unfoldable pub signed_u32 : ℕ → ℤ
signed_u32 a = if ltb a (2 ^ 31) then pos a else negsuc (u32_mod - 1 - a)

-- `std::bit_cast<std::uint32_t>` of a value of `int32_t`.
unfoldable pub bits_of_int : ℤ → ℕ
bits_of_int (pos n) = n
bits_of_int (negsuc n) = u32_mod - 1 - n
