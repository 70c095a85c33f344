-- ===== src/Canonicalizer/Worklist/Renewals.antt =====
-- A round of the queue in lib/canonicalizer/worklist.cpp: what a new node costs, and its value.
use sivra.Prelude.{
  ℕ, ◌≡◌, refl, ap, subst, ◌∙◌, not, ◌&&◌, Bool-cases, Option-cases, ◌⊎◌, inl, inr, List, Option,
  none, some, ==-cases, arith,
}
use sivra.Core.Result.{ok}
use sivra.Ir.Validation.{validate_graph}
use sivra.Ir.Ids.{NodeId, node_id_eq}
use sivra.Ir.Graph.{ExpressionGraph, size}
use sivra.Ir.Structural.Meaning.{Meaning}
use sivra.Ir.Builder.Extension.{IsMeant, IsMeant-Extends, length-Extends}
use sivra.Ir.Builder.Values.{HonoursDefaults}
use sivra.Canonicalizer.Rewrite.{RewriteSubject}
use sivra.Canonicalizer.Rule.{RewriteRule}
use sivra.Canonicalizer.Termination.{CanonicalizationLimits}
use sivra.Canonicalizer.Worklist.{ApplyRule, WorklistEngine, WorklistState, source_id}
use sivra.Canonicalizer.Worklist.Attempt.{Attempt, leave, start_attempt}
use sivra.Canonicalizer.Worklist.Rounds.{
  Round, skipped, stopped, renewed, is_complete, final_of, finish, settle,
}
use sivra.Canonicalizer.Worklist.Frame.{Frame, Frame-trans}
use sivra.Canonicalizer.Worklist.Copies.{IsRead, CopiesMeant, set-CopiesMeant}
use sivra.Canonicalizer.Worklist.Turns.{RulesKeep, Rewritten, SubjectMeant, FinalMeant, Facts}
use sivra.Canonicalizer.Worklist.Finals.{Enlarged, Taken, keep_or_rebuild-Taken}

-- What a new node costs: a rewrite, or a node of the output.
abbrev pub Spent : {Digest : Type 0} → WorklistState Digest → WorklistState Digest → Type 0
Spent s s' = Rewritten s s' ⊎ Enlarged s s'

then_Enlarged :
    {Digest : Type 0} (r s t : WorklistState Digest) → Frame r s → Enlarged s t → Enlarged r t
unfolding size
then_Enlarged r s t f e =
    let more = length-Extends f.extends in
    let within = e.within in
    let larger = e.larger in
    let limit : s.termination.limits.maximum_output_nodes
        ≡ r.termination.limits.maximum_output_nodes =
      ap (λ (l : CanonicalizationLimits). l.maximum_output_nodes) f.tracked.limits in
    record { within = omega arith; larger = omega arith }

module _ {D : Type 0} (m : Meaning D) {Digest : Type 0} (engine : WorklistEngine Digest)
    (source : ExpressionGraph) (src : NodeId → D) where
  -- What the values rest on: the rules and defaults keep them, and the source has them.
  pub record Sound : Type 0 where
    pub keep : RulesKeep m source.catalogue engine
    pub honours : HonoursDefaults m source.catalogue
    pub read : IsRead m source src
    pub valid : validate_graph source ≡ ok tt

module _ {D : Type 0} (m : Meaning D) {Digest : Type 0} (engine : WorklistEngine Digest)
    (source : ExpressionGraph) (src : NodeId → D) (i : ℕ) where
  -- What holds of the final node of a round for `subject`.
  record Chosen (s : WorklistState Digest) (old : NodeId) (subject : RewriteSubject)
      (b : WorklistState Digest × Option NodeId) : Type 0 where
    frame : Frame s b.0
    same_copied : b.0.copied ≡ s.copied
    progress : (n : NodeId) → b.1 ≡ some n → (n ≡ old) ⊎ Spent s b.0
    meant :
        (values : NodeId → D) (v : D) (n : NodeId)
        → Sound m engine source src
        → s.output.catalogue ≡ source.catalogue
        → IsMeant m b.0.output values
        → SubjectMeant m source.catalogue values v subject
        → b.1 ≡ some n
        → values n ≡ v

  absent-Chosen :
      (s t : WorklistState Digest) (old : NodeId) (subject : RewriteSubject) (a : Attempt)
      (b : WorklistState Digest × Option NodeId)
      → Facts m engine source i s (start_attempt subject) (t, a, leave)
      → Taken m engine source old a.subject t b
      → Chosen s old subject b
  absent-Chosen s t old subject a b p q = record {
    frame = Frame-trans p.frame q.frame;
    same_copied = q.same_copied ∙ p.same_copied;
    progress = λ n h. elim (q.progress n h) [
      | inl same ↦ inl same
      | inr enlarged ↦ inr (inr (then_Enlarged s t b.0 p.frame enlarged))
    ];
    meant = λ values v n sound cat model meant h.
        q.meant values v n sound.honours (p.frame.extends.catalogue ∙ cat) model
          (p.meant values v sound.keep cat (IsMeant-Extends m values q.frame.extends model)
            (meant, tt)).0
          h;
  }

  given-Chosen :
      (s t : WorklistState Digest) (old new : NodeId) (subject : RewriteSubject) (a : Attempt)
      → Facts m engine source i s (start_attempt subject) (t, a, leave)
      → a.final_node ≡ some new
      → Chosen s old subject (t, some new)
  given-Chosen s t old new subject a p found = record {
    frame = p.frame;
    same_copied = p.same_copied;
    progress =
        λ n h. elim p.final [ inl same ↦ absurd (ground arith) | inr spent ↦ inr (inl spent) ];
    meant = λ values v n sound cat model meant h.
        let same : new ≡ n = ground arith in
        let whole = (p.meant values v sound.keep cat model (meant, tt)).1 in
        let value = subst (λ o. FinalMeant m source.catalogue values v o) found whole in
        subst (λ k. values k ≡ v) same value;
  }

  final_of-Chosen :
      (s t : WorklistState Digest) (old : NodeId) (subject : RewriteSubject) (a : Attempt)
      → Facts m engine source i s (start_attempt subject) (t, a, leave)
      → Chosen s old subject (final_of engine source old a t)
  unfolding final_of
  final_of-Chosen s t old subject a p = elim (Option-cases a.final_node) [
    | inl absent ↦ rw absent (
        absent-Chosen s t old subject a _ p (keep_or_rebuild-Taken m engine source old a.subject t))
    | inr (new, found) ↦ rw found (given-Chosen s t old new subject a p found)
  ]

  -- What holds of a round.
  pub record RoundFacts (s : WorklistState Digest) (e : WorklistState Digest × Round) : Type 0 where
    pub frame : Frame s e.0
    pub spent : e.1 ≡ renewed → Spent s e.0
    pub copies :
        (values : NodeId → D)
        → Sound m engine source src
        → s.output.catalogue ≡ source.catalogue
        → IsMeant m e.0.output values
        → CopiesMeant m source src values s.copied
        → CopiesMeant m source src values e.0.copied

  pub idle :
      (s s' : WorklistState Digest) (r : Round)
      → Frame s s'
      → s'.copied ≡ s.copied
      → (r ≡ renewed → Spent s s')
      → RoundFacts s (s', r)
  idle s s' r frame same spent = record {
    frame = frame;
    spent = spent;
    copies = λ values sound cat model meant. rw same meant;
  }

  -- The subject of the round has the value of the node of the source.
  abbrev pub StartMeant : WorklistState Digest → RewriteSubject → Type 0
  StartMeant s subject =
      (values : NodeId → D)
      → Sound m engine source src
      → CopiesMeant m source src values s.copied
      → SubjectMeant m source.catalogue values (src (source_id source i)) subject

  finish-RoundFacts :
      (s : WorklistState Digest) (old : NodeId) (subject : RewriteSubject)
      (rules : List (RewriteRule ApplyRule)) (b : WorklistState Digest × Option NodeId)
      → StartMeant s subject
      → Chosen s old subject b
      → RoundFacts s (finish engine source i old rules b)
  unfolding finish
  finish-RoundFacts s old subject rules (s', none) start c =
      idle s s' stopped c.frame c.same_copied (λ h. cc)
  finish-RoundFacts s old subject rules (s', some new) start c = elim (==-cases new old) [
    | inl (same, test) ↦ rw test (idle s s' skipped c.frame c.same_copied (λ h. cc))
    | inr (differ, test) ↦ rw test (record {
      frame = record { extends = c.frame.extends; tracked = c.frame.tracked };
      spent = λ h. elim (c.progress new refl) [
        | inl same ↦ absurd (differ same)
        | inr (inl w) ↦ inl (record { within = w.within; counted = w.counted })
        | inr (inr e) ↦ inr (record { within = e.within; larger = e.larger })
      ];
      copies = λ values sound cat model meant.
          set-CopiesMeant m source src values s'.copied (rw c.same_copied meant) i new (
            c.meant values (src (source_id source i)) new sound cat model (start values sound meant)
              refl);
    })
  ]

  pub settle-RoundFacts :
      (s t : WorklistState Digest) (old : NodeId) (subject : RewriteSubject) (a : Attempt)
      → StartMeant s subject
      → Facts m engine source i s (start_attempt subject) (t, a, leave)
      → RoundFacts s (settle engine source i old (t, a))
  unfolding settle
  settle-RoundFacts s t old subject a start p =
      elim (Bool-cases (not t.rewriting_enabled && not (is_complete t.status))) [
        | inl over ↦ rw over (idle s t stopped p.frame p.same_copied (λ h. cc))
        | inr on ↦ rw on (
            finish-RoundFacts s old subject a.applied_rules (final_of engine source old a t) start
              (final_of-Chosen s t old subject a p))
      ]
