-- ===== src/Tests/Core.antt =====
-- lib/core/budget.cpp on a counter of ten units.
use sivra.Prelude.{
  ℕ, ◌+◌, ◌-◌, ◌≤◌, ◌≡◌, ◌↔◌, refl, true, false, List, [], ◌∷◌, if◌then◌else◌, arith,
}
use sivra.Core.Budget.{
  BudgetCounter, remaining, try_consume, consume_all, try_consume_lem, consume_all_bounded,
}

abbrev counter : BudgetCounter
counter = record { limit = 10; consumed = 7 }

abbrev requests : List ℕ
requests = 2 ∷ 5 ∷ 1 ∷ 1 ∷ []

refused : (try_consume counter 4).1 ≡ false
unfolding try_consume remaining
refused = refl

granted : (consume_all counter requests).1 ≡ 3
unfolding consume_all try_consume remaining
granted = refl

consumed_three :
    (((try_consume counter 3).1 ≡ true) ↔ (7 + 3 ≤ 10))
    × (remaining (try_consume counter 3).0
        ≡ (if (try_consume counter 3).1 then remaining counter - 3 else remaining counter))
    × ((try_consume counter 3).0.consumed ≤ (try_consume counter 3).0.limit)
consumed_three = try_consume_lem counter 3 (omega arith)

consume_all_bounded_example :
    ((consume_all counter requests).0.consumed ≡ 7 + (consume_all counter requests).1)
    × (7 + (consume_all counter requests).1 ≤ 10)
    × ((consume_all counter requests).0.limit ≡ 10)
consume_all_bounded_example = consume_all_bounded counter requests (omega arith)
