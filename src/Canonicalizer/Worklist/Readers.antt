-- ===== src/Canonicalizer/Worklist/Readers.antt =====
-- Rules of lib/canonicalizer/rules that only read, as lib/canonicalizer/worklist.cpp calls them.
use sivra.Prelude.{◌≡◌, sym, subst, Option-cases, inl, inr, Option, none, some, arith}
use sivra.Ir.Ids.{NodeId}
use sivra.Ir.Catalogue.{OperationCatalogue}
use sivra.Ir.Structural.Meaning.{Meaning}
use sivra.Ir.Builder.Extension.{Extends, Extends-refl, IsMeant}
use sivra.Canonicalizer.Rewrite.{RewriteContext, RewriteSubject, RewriteResult}
use sivra.Canonicalizer.Rules.Meaning.{HasValue, ResultHasValue}
use sivra.Canonicalizer.Worklist.{ApplyRule}
use sivra.Canonicalizer.Worklist.Turns.{RuleAdds, RuleKeeps}

-- A rule whose context is the same behind it.
abbrev pub reading_rule : (RewriteContext → RewriteSubject → Option RewriteResult) → ApplyRule
reading_rule f c s = elim (f c s) [ none ↦ none | some r ↦ some (c, r) ]

parts :
    (f : RewriteContext → RewriteSubject → Option RewriteResult) (c c' : RewriteContext)
    (s : RewriteSubject) (r : RewriteResult)
    → reading_rule f c s ≡ some (c', r)
    → (c ≡ c') × (f c s ≡ some r)
parts f c c' s r h = elim (Option-cases (f c s)) [
  | inl thrown ↦ absurd (ground arith)
  | inr (r', made) ↦ (ground arith, ground arith)
]

pub reading_rule-RuleAdds :
    (f : RewriteContext → RewriteSubject → Option RewriteResult) → RuleAdds (reading_rule f)
reading_rule-RuleAdds f c c' s r h =
    let (same, _) = parts f c c' s r h in
    subst (λ (k : RewriteContext). Extends c.graph k.graph) same (Extends-refl c.graph)

-- Such a rule keeps values if its results have the value of the subject.
pub reading_rule-RuleKeeps :
    {D : Type 0} (m : Meaning D) (cat : OperationCatalogue)
    (f : RewriteContext → RewriteSubject → Option RewriteResult)
    → ((c : RewriteContext) (s : RewriteSubject) (r : RewriteResult) (values : NodeId → D) (v : D)
        → f c s ≡ some r
        → c.graph.catalogue ≡ cat
        → IsMeant m c.graph values
        → HasValue m values c s.operation s.operands s.attributes s.result_type v
        → ResultHasValue m values c v r)
    → RuleKeeps m cat (reading_rule f)
reading_rule-RuleKeeps m cat f same c c' s r values v h known model given =
    let (unchanged, made) = parts f c c' s r h in
    subst (λ (k : RewriteContext). ResultHasValue m values k v r) unchanged
      (same c s r values v made known
        (subst (λ (k : RewriteContext). IsMeant m k.graph values) (sym unchanged) model) given)
