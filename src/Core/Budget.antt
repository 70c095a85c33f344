-- ===== src/Core/Budget.antt =====
-- lib/core/budget.cpp: a counter that is spent up to a limit.
use sivra.Prelude.{
  ℕ, ◌+◌, ◌-◌, ◌≤◌, ◌≡◌, Bool, true, false, min, ltb, if◌then◌else◌, arith, ◌↔◌, List, [], ◌∷◌,
}

pub record BudgetCounter : Type 0 where
  pub limit : ℕ
  pub consumed : ℕ

unfoldable pub budget_counter : ℕ → BudgetCounter
budget_counter limit = record { limit = limit; consumed = 0 }

unfoldable pub remaining : BudgetCounter → ℕ
remaining c = c.limit - min c.limit c.consumed

unfoldable pub try_consume : BudgetCounter → ℕ → BudgetCounter × Bool
unfolding remaining
try_consume c amount =
    if ltb (remaining c) amount
    then (c, false)
    else (record c { consumed = c.consumed + amount }, true)

-- A run of requests, each kept or refused in turn; the sum of those that were granted.
unfoldable pub consume_all : BudgetCounter → List ℕ → BudgetCounter × ℕ
consume_all c [] = (c, 0)
consume_all c (a ∷ as') =
    let (c', granted) = try_consume c a in
    let (c'', total) = consume_all c' as' in (c'', (if granted then a else 0) + total)

-- With a counter within its limit, a request is granted exactly when it fits in the limit; what is
-- left then shrinks by just that and otherwise stays, and the counter is again within its limit.
pub try_consume_lem :
    (c : BudgetCounter) (amount : ℕ)
    → c.consumed ≤ c.limit
    → (((try_consume c amount).1 ≡ true) ↔ (c.consumed + amount ≤ c.limit))
      × (remaining (try_consume c amount).0
          ≡ (if (try_consume c amount).1 then remaining c - amount else remaining c))
      × ((try_consume c amount).0.consumed ≤ (try_consume c amount).0.limit)
unfolding try_consume
try_consume_lem c amount h = ground arith

-- With a counter within its limit, whatever is asked in a row, the counter grows by the sum of what was
-- granted, this stays within the limit, and the limit stays the same.
pub consume_all_bounded :
    (c : BudgetCounter) (amounts : List ℕ)
    → c.consumed ≤ c.limit
    → ((consume_all c amounts).0.consumed ≡ c.consumed + (consume_all c amounts).1)
      × (c.consumed + (consume_all c amounts).1 ≤ c.limit)
      × ((consume_all c amounts).0.limit ≡ c.limit)
unfolding consume_all try_consume
consume_all_bounded c [] h = omega arith
consume_all_bounded c (a ∷ as') h = ground (arith, consume_all_bounded (try_consume c a).0 as')
