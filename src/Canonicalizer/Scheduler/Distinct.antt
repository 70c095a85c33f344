-- ===== src/Canonicalizer/Scheduler/Distinct.antt =====
-- The ids of the rules of lib/canonicalizer/rule_catalogue.cpp.
use sivra.Prelude.{
  ◌≡◌, sym, true, false, Bool-cases, inl, inr, List, [], ◌∷◌, any, All, Text, ◌==◌, nat_eq, list_eq,
  ==-refl, ==-cases, ==→≢, arith, subst,
}
use sivra.Prelude.Sort.{insert, stable_sort}
use sivra.Core.Result.{ok}
use sivra.Canonicalizer.Rule.{RewriteRule, rule_less, is_known_phase, check_rules, create_rules}

pub other-sym : (a b : Text) → (a == b) ≡ false → (b == a) ≡ false
other-sym a b h = elim (==-cases b a) [
  | inl (same, test) ↦ absurd (==→≢ a b h (sym same))
  | inr (differ, test) ↦ test
]

module _ {Apply : Type 0} where
  -- Another id than this.
  abbrev pub Other : Text → RewriteRule Apply → Type 0
  Other id r = (r.id == id) ≡ false

  -- No two rules with one id.
  abbrev pub Distinct : List (RewriteRule Apply) → Type 0
  Distinct [] = Unit {0}
  Distinct (r ∷ rs) = All (Other r.id) rs × Distinct rs

  All-insert :
      (P : RewriteRule Apply → Type 0) (r : RewriteRule Apply) (rs : List (RewriteRule Apply))
      → P r
      → All P rs
      → All P (insert rule_less r rs)
  unfolding insert
  All-insert P r [] p q = (p, tt)
  All-insert P r (x ∷ rs) p q = elim (Bool-cases (rule_less x r)) [
    | inl before ↦ rw before (q.0, All-insert P r rs p q.1)
    | inr after ↦ rw after (p, q)
  ]

  Distinct-insert :
      (r : RewriteRule Apply) (rs : List (RewriteRule Apply))
      → All (Other r.id) rs
      → Distinct rs
      → Distinct (insert rule_less r rs)
  unfolding insert
  Distinct-insert r [] o d = (tt, tt)
  Distinct-insert r (x ∷ rs) o d = elim (Bool-cases (rule_less x r)) [
    | inl before ↦
        rw before
          (All-insert (Other x.id) r rs (other-sym x.id r.id o.0) d.0, Distinct-insert r rs o.1 d.1)
    | inr after ↦ rw after (o, d)
  ]

  All-stable_sort :
      (P : RewriteRule Apply → Type 0) (rs : List (RewriteRule Apply))
      → All P rs
      → All P (stable_sort rule_less rs)
  unfolding stable_sort
  All-stable_sort P [] q = tt
  All-stable_sort P (r ∷ rs) q =
      All-insert P r (stable_sort rule_less rs) q.0 (All-stable_sort P rs q.1)

  Distinct-stable_sort :
      (rs : List (RewriteRule Apply)) → Distinct rs → Distinct (stable_sort rule_less rs)
  unfolding stable_sort
  Distinct-stable_sort [] d = tt
  Distinct-stable_sort (r ∷ rs) d =
      Distinct-insert r (stable_sort rule_less rs) (All-stable_sort (Other r.id) rs d.0)
        (Distinct-stable_sort rs d.1)

  -- Rules that pass the loop have ids that were not seen before it.
  check_rules-Other :
      (id : Text) (seen : List Text) (rs : List (RewriteRule Apply))
      → any (λ k. k == id) seen ≡ true
      → check_rules seen rs ≡ ok tt
      → All (Other id) rs
  unfolding check_rules
  check_rules-Other id seen [] known h = tt
  check_rules-Other id seen (r ∷ rs) known h = (
    elim (==-cases r.id id) [
      | inl (same, test) ↦
          let clash : any (λ k. k == r.id) seen ≡ true =
            subst (λ t. any (λ k. k == t) seen ≡ true) (sym same) known in
          ground arith
      | inr (differ, test) ↦ test
    ],
    check_rules-Other id (r.id ∷ seen) rs (ground arith) (ground arith),
  )

  check_rules-Distinct :
      (seen : List Text) (rs : List (RewriteRule Apply)) → check_rules seen rs ≡ ok tt → Distinct rs
  unfolding check_rules
  check_rules-Distinct seen [] h = tt
  check_rules-Distinct seen (r ∷ rs) h = (
    check_rules-Other r.id (r.id ∷ seen) rs (ground (arith, ==-refl r.id)) (ground arith),
    check_rules-Distinct (r.id ∷ seen) rs (ground arith),
  )

  pub create_rules-Distinct :
      (rs created : List (RewriteRule Apply)) → create_rules rs ≡ ok created → Distinct created
  unfolding create_rules
  create_rules-Distinct rs created h =
      let sorted : stable_sort rule_less rs ≡ created = ground arith in
      rw (← sorted) (Distinct-stable_sort rs (check_rules-Distinct [] rs (ground arith)))

  check_rules-known :
      (seen : List Text) (rs : List (RewriteRule Apply))
      → check_rules seen rs ≡ ok tt
      → All (λ (r : RewriteRule Apply). is_known_phase r.phase ≡ true) rs
  unfolding check_rules
  check_rules-known seen [] h = tt
  check_rules-known seen (r ∷ rs) h =
      (ground arith, check_rules-known (r.id ∷ seen) rs (ground arith))

  -- The phase of a rule of a created catalogue has a name.
  pub create_rules-known :
      (rs created : List (RewriteRule Apply))
      → create_rules rs ≡ ok created
      → All (λ (r : RewriteRule Apply). is_known_phase r.phase ≡ true) created
  unfolding create_rules
  create_rules-known rs created h =
      let sorted : stable_sort rule_less rs ≡ created = ground arith in
      rw (← sorted) (
        All-stable_sort (λ (r : RewriteRule Apply). is_known_phase r.phase ≡ true) rs
          (check_rules-known [] rs (ground arith)))
