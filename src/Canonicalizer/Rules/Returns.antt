-- ===== src/Canonicalizer/Rules/Returns.antt =====
-- The rules of lib/canonicalizer/rules/structural.cpp meet no exception.
use sivra.Prelude.{◌≡◌, true, Option, some}
use sivra.Ir.Ids.{NodeId}
use sivra.Ir.Graph.{ExpressionGraph, contains}
use sivra.Canonicalizer.Rewrite.{RewriteResult}

abbrev Contained : ExpressionGraph → NodeId → Type 0
Contained g o = contains g o ≡ true

abbrev Yields : Option RewriteResult → Type 0
Yields o = (r : RewriteResult) × (o ≡ some r)
