-- ===== src/Ir/Trait.antt =====
-- include/sivra/ir/operation.hpp, `operation_trait`: a set of traits is the number with their bits.
use Prim.Native.Nat.{bit_and, bit_or}
use sivra.Prelude.{ℕ, Bool, ◌==◌, nat_eq}

abbrev pub OperationTrait : Type 0
OperationTrait = ℕ

abbrev pub no_trait : OperationTrait
no_trait = 0

abbrev pub associative : OperationTrait
associative = 1

abbrev pub commutative : OperationTrait
commutative = 2

abbrev pub idempotent : OperationTrait
idempotent = 4

abbrev pub pure : OperationTrait
pure = 8

abbrev pub comparison : OperationTrait
comparison = 16

abbrev pub conversion : OperationTrait
conversion = 32

abbrev pub lane_operation : OperationTrait
lane_operation = 64

infixl 65 ◌|||◌
abbrev pub ◌|||◌ : OperationTrait → OperationTrait → OperationTrait
a ||| b = bit_or a b

-- `(traits & required) == required`.
unfoldable pub has_trait : OperationTrait → OperationTrait → Bool
has_trait traits required = bit_and traits required == required
