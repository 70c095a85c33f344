-- ===== src/Canonicalizer/Worklist/Loop.antt =====
-- The loop over the queue of lib/canonicalizer/worklist.cpp: its fuel is enough, and it keeps values.
use sivra.Prelude.{
  ℕ, zero, suc, ◌+◌, ◌*◌, ◌≤◌, ◌≡◌, ◌≢◌, refl, subst, Bool, false, Bool-cases, inl, inr, List, [],
  ◌∷◌, Text, length, set, arith,
}
use native.Mathlib.Nat.{mul-le-mul_left}
use sivra.Ir.Graph.{ExpressionGraph}
use sivra.Ir.Ids.{NodeId}
use sivra.Ir.Structural.Meaning.{Meaning}
use sivra.Canonicalizer.Worklist.{returns, out_of_fuel, WorklistEngine, WorklistState}
use sivra.Canonicalizer.Worklist.Reach.{users}
use sivra.Canonicalizer.Worklist.Rounds.{
  Queue, Round, skipped, stopped, renewed, process, queue_after, rewrite_queue,
}
use sivra.Canonicalizer.Worklist.Frame.{Frame-refl}
use sivra.Canonicalizer.Worklist.Imports.{Kept, Kept-of_Frame, Kept-trans}
use sivra.Canonicalizer.Worklist.Turns.{RulesAdd}
use sivra.Canonicalizer.Worklist.Renewals.{Sound, RoundFacts}
use sivra.Canonicalizer.Worklist.Processing.{Outcome-cases, process-RoundFacts, process-Ends}
use sivra.Canonicalizer.Worklist.Queues.{
  IsQueue, length-IsQueue, enqueue_all-IsQueue, pop-IsQueue, left, left-Frame, left-Spent, room,
}

module _ {D : Type 0} (m : Meaning D) {Digest : Type 0} (engine : WorklistEngine Digest)
    (source : ExpressionGraph) (src : NodeId → D) (adds : RulesAdd engine) where
  -- The queue behind a round is one, and there is fuel for it.
  next-Fits :
      (reachable : List Bool) (i fuel : ℕ) (q : Queue) (s s' : WorklistState Digest) (r : Round)
      → RoundFacts m engine source src i s (s', r)
      → IsQueue (length reachable) q
      → length reachable * left s + suc (length q.queue) ≤ suc fuel
      → IsQueue (length reachable) (queue_after engine source reachable i q r)
        × (length reachable * left s' + length (queue_after engine source reachable i q r).queue
            ≤ fuel)
  unfolding queue_after
  next-Fits reachable i fuel q s s' renewed facts w enough =
      let w' = enqueue_all-IsQueue reachable (users source reachable i) q w in
      let fits = length-IsQueue w' in
      let less =
        room (length reachable) (left s') (left s)
          (left-Spent s s' facts.frame (facts.spent refl)) in
      (w', omega arith)
  next-Fits reachable i fuel q s s' skipped facts w enough =
      let less = mul-le-mul_left (length reachable) (left-Frame s s' facts.frame) in
      (w, omega arith)
  next-Fits reachable i fuel q s s' stopped facts w enough =
      let less = mul-le-mul_left (length reachable) (left-Frame s s' facts.frame) in
      (w, omega arith)

  pub rewrite_queue-Ends :
      (fuel : ℕ) (rules : List Text) (reachable : List Bool) (queue : List ℕ) (queued : List Bool)
      (s : WorklistState Digest)
      → IsQueue (length reachable) (record { queue = queue; queued = queued })
      → length reachable * left s + length queue ≤ fuel
      → rewrite_queue engine source fuel rules reachable queue queued s ≢ out_of_fuel
  unfolding rewrite_queue
  rewrite_queue-Ends fuel rules reachable [] queued s w enough h = ground arith
  rewrite_queue-Ends zero rules reachable (i ∷ rest) queued s w enough h = omega arith
  rewrite_queue-Ends (suc fuel) rules reachable (i ∷ rest) queued s w enough h =
      elim (Bool-cases s.rewriting_enabled) [
        | inr off ↦ ground arith
        | inl on ↦ elim (Outcome-cases (process engine source rules i s)) [
          | inr (inl thrown) ↦ ground arith
          | inr (inr out) ↦ process-Ends m engine source src i adds rules s out
          | inl ((s', stopped), went) ↦ ground arith
          | inl ((s', skipped), went) ↦
              let q = after skipped in
              let (w', enough') = fits s' skipped went in
              rewrite_queue-Ends fuel rules reachable q.queue q.queued s' w' enough' (ground arith)
          | inl ((s', renewed), went) ↦
              let q = after renewed in
              let (w', enough') = fits s' renewed went in
              rewrite_queue-Ends fuel rules reachable q.queue q.queued s' w' enough' (ground arith)
        ]
      ]
    where
      popped : Queue
      popped = record { queue = rest; queued = set queued i false }

      after : Round → Queue
      after r = queue_after engine source reachable i popped r

      fits :
          (s' : WorklistState Digest) (r : Round)
          → process engine source rules i s ≡ returns (s', r)
          → IsQueue (length reachable) (after r)
            × (length reachable * left s' + length (after r).queue ≤ fuel)
      fits s' r went =
          next-Fits reachable i fuel popped s s' r
            (process-RoundFacts m engine source src i adds rules s (s', r) went)
            (pop-IsQueue reachable i rest queued w) enough

  stays :
      (s s' : WorklistState Digest) → s ≡ s' → Kept m source src (Sound m engine source src) s s'
  stays s s' same =
      subst (Kept m source src (Sound m engine source src) s) same
        (Kept-of_Frame m source src (Sound m engine source src) (Frame-refl s) refl)

  -- The queue keeps the values of the copies.
  pub rewrite_queue-Kept :
      (fuel : ℕ) (rules : List Text) (reachable : List Bool) (queue : List ℕ) (queued : List Bool)
      (s s' : WorklistState Digest)
      → rewrite_queue engine source fuel rules reachable queue queued s ≡ returns s'
      → Kept m source src (Sound m engine source src) s s'
  unfolding rewrite_queue
  rewrite_queue-Kept fuel rules reachable [] queued s s' h = stays s s' (ground arith)
  rewrite_queue-Kept zero rules reachable (i ∷ rest) queued s s' h = absurd (ground arith)
  rewrite_queue-Kept (suc fuel) rules reachable (i ∷ rest) queued s s' h =
      elim (Bool-cases s.rewriting_enabled) [
        | inr off ↦ stays s s' (ground arith)
        | inl on ↦ elim (Outcome-cases (process engine source rules i s)) [
          | inr (inl thrown) ↦ absurd (ground arith)
          | inr (inr out) ↦ absurd (ground arith)
          | inl ((t, stopped), went) ↦
              let same : t ≡ s' = ground arith in
              subst (Kept m source src (Sound m engine source src) s) same (step t stopped went)
          | inl ((t, skipped), went) ↦
              Kept-trans m source src (Sound m engine source src) (step t skipped went) (
                rewrite_queue-Kept fuel rules reachable rest (set queued i false) t s'
                  (unfold queue_after in ground arith))
          | inl ((t, renewed), went) ↦
              let q =
                queue_after engine source reachable i
                  (record { queue = rest; queued = set queued i false }) renewed in
              Kept-trans m source src (Sound m engine source src) (step t renewed went)
                (rewrite_queue-Kept fuel rules reachable q.queue q.queued t s' (ground arith))
        ]
      ]
    where
      step :
          (t : WorklistState Digest) (r : Round)
          → process engine source rules i s ≡ returns (t, r)
          → Kept m source src (Sound m engine source src) s t
      step t r went =
          let facts = process-RoundFacts m engine source src i adds rules s (t, r) went in
          record { frame = facts.frame; copies = facts.copies }
