-- ===== src/Canonicalizer/Termination/Bounds.antt =====
-- The budgets of lib/canonicalizer/termination.cpp over histories of calls.
use sivra.Prelude.{
  ℕ, ◌+◌, ◌≤◌, ◌<◌, ◌≡◌, refl, ◌∙◌, true, ◌||◌, Bool-cases, inl, inr, leb, List, [], ◌∷◌, has_value,
  All, ◌==◌, nat_eq, ==-refl, arith,
}
use sivra.Prelude.Map.{map_find, emplace}
use sivra.Ir.Ids.{NodeId, node_id_eq}
use sivra.Canonicalizer.Termination.{
  CanonicalizationLimits, TerminationTracker, TrackerCall, import_call, step_call, rewrite_call,
  phase_call, output_call, termination_tracker, consume_import, consume_worklist_step,
  consume_rewrite, begin_phase_iteration, observe_output_nodes, increment, count_of, call, run,
}

-- The rewrites of all nodes together.
abbrev pub total : List (NodeId × ℕ) → ℕ
total [] = 0
total ((n, count) ∷ entries) = count + total entries

-- No entry above `limit`.
abbrev pub Below : ℕ → List (NodeId × ℕ) → Type 0
Below limit = All (λ (e : NodeId × ℕ). e.1 ≤ limit)

emplace-total : (n : NodeId) (m : List (NodeId × ℕ)) → total (emplace n 0 m) ≡ total m
unfolding emplace
emplace-total n m = ground arith

emplace-Below :
    (n : NodeId) (limit : ℕ) (m : List (NodeId × ℕ)) → Below limit m → Below limit (emplace n 0 m)
unfolding emplace
emplace-Below n limit m b = elim (Bool-cases (has_value (map_find n m))) [
  | inl there ↦ rw there b
  | inr absent ↦ rw absent (omega arith, b)
]

emplace-found : (n : NodeId) (m : List (NodeId × ℕ)) → has_value (map_find n (emplace n 0 m)) ≡ true
unfolding emplace map_find
emplace-found n m = ground (arith, ==-refl n)

increment-total :
    (n : NodeId) (m : List (NodeId × ℕ))
    → has_value (map_find n m) ≡ true
    → total (increment n m) ≡ total m + 1
unfolding increment map_find
increment-total n [] h = cc
increment-total n ((k, count) ∷ m) h = ground (arith, increment-total n m)

increment-Below :
    (n : NodeId) (limit : ℕ) (m : List (NodeId × ℕ))
    → count_of (map_find n m) < limit
    → Below limit m
    → Below limit (increment n m)
unfolding increment map_find
increment-Below n limit [] h b = tt
increment-Below n limit ((k, count) ∷ m) h b = elim (Bool-cases (k == n)) [
  | inl same ↦ rw same (ground arith, b.1)
  | inr other ↦ rw other (b.0, increment-Below n limit m (ground arith) b.1)
]

-- Every counter within its limit, and the rewrites of the single nodes sum up to all rewrites.
pub record IsBounded (t : TerminationTracker) : Type 0 where
  pub imports : t.statistics.imported_nodes ≤ t.limits.maximum_imported_nodes
  pub steps : t.statistics.worklist_steps ≤ t.limits.maximum_worklist_steps
  pub rewrites : t.statistics.rewrites_applied ≤ t.limits.maximum_rewrites
  pub phases : t.statistics.phase_iterations ≤ t.limits.maximum_phase_iterations
  pub each_node : Below t.limits.maximum_rewrites_per_node t.node_rewrites
  pub all_nodes : total t.node_rewrites ≡ t.statistics.rewrites_applied

consume_rewrite-IsBounded :
    (t : TerminationTracker) (n : NodeId) → IsBounded t → IsBounded (consume_rewrite t n).0
unfolding consume_rewrite
consume_rewrite-IsBounded t n b =
    let entries = emplace n 0 t.node_rewrites in
    let below = emplace-Below n t.limits.maximum_rewrites_per_node t.node_rewrites b.each_node in
    let same = emplace-total n t.node_rewrites in
    elim (Bool-cases (leb t.limits.maximum_rewrites t.statistics.rewrites_applied)) [
      | inl out ↦ rw out (record {
        imports = b.imports;
        steps = b.steps;
        rewrites = b.rewrites;
        phases = b.phases;
        each_node = b.each_node;
        all_nodes = b.all_nodes;
      })
      | inr within ↦
          rw within
            (elim (Bool-cases
              (leb t.limits.maximum_rewrites_per_node (count_of (map_find n entries)))) [
                | inl out ↦ rw out (record {
                  imports = b.imports;
                  steps = b.steps;
                  rewrites = b.rewrites;
                  phases = b.phases;
                  each_node = below;
                  all_nodes = same ∙ b.all_nodes;
                })
                | inr free ↦ rw free (record {
                  imports = b.imports;
                  steps = b.steps;
                  rewrites = ground arith;
                  phases = b.phases;
                  each_node =
                      increment-Below n t.limits.maximum_rewrites_per_node entries (ground arith)
                        below;
                  all_nodes = ground (
                    arith,
                    b.all_nodes,
                    same,
                    increment-total n entries (emplace-found n t.node_rewrites),
                  );
                })
              ])
    ]

-- The other calls leave the entries of the nodes alone.
abbrev Counted : TerminationTracker → Type 0
Counted t =
    (t.statistics.imported_nodes ≤ t.limits.maximum_imported_nodes)
    × (t.statistics.worklist_steps ≤ t.limits.maximum_worklist_steps)
    × (t.statistics.phase_iterations ≤ t.limits.maximum_phase_iterations)

frame :
    (t t' : TerminationTracker)
    → IsBounded t
    → Counted t'
    → t'.limits ≡ t.limits
    → t'.node_rewrites ≡ t.node_rewrites
    → t'.statistics.rewrites_applied ≡ t.statistics.rewrites_applied
    → IsBounded t'
frame t t' b counted limits nodes rewrites = record {
  imports = counted.0;
  steps = counted.1;
  rewrites = rw (rewrites, limits) b.rewrites;
  phases = counted.2;
  each_node = rw (nodes, limits) b.each_node;
  all_nodes = rw (nodes, rewrites) b.all_nodes;
}

call-IsBounded : (t : TerminationTracker) (c : TrackerCall) → IsBounded t → IsBounded (call t c).0
unfolding consume_import consume_worklist_step begin_phase_iteration observe_output_nodes
call-IsBounded t (rewrite_call n) b = consume_rewrite-IsBounded t n b
call-IsBounded t import_call b =
    frame t _ b (ground (arith, b.imports, b.steps, b.phases)) (ground arith) (ground arith)
      (ground arith)
call-IsBounded t step_call b =
    frame t _ b (ground (arith, b.imports, b.steps, b.phases)) (ground arith) (ground arith)
      (ground arith)
call-IsBounded t phase_call b =
    frame t _ b (ground (arith, b.imports, b.steps, b.phases)) (ground arith) (ground arith)
      (ground arith)
call-IsBounded t (output_call nodes baseline) b =
    frame t _ b (ground (arith, b.imports, b.steps, b.phases)) (ground arith) (ground arith)
      (ground arith)

IsBounded-run :
    (t : TerminationTracker) (cs : List TrackerCall) → IsBounded t → IsBounded (run t cs).0
unfolding run
IsBounded-run t [] b = b
IsBounded-run t (c ∷ cs) b = IsBounded-run (call t c).0 cs (call-IsBounded t c b)

-- Whatever calls a new tracker gets, the imported nodes, the worklist steps, the rewrites, the phase
-- iterations and the rewrites of each node stay within their limits, and the rewrites of the nodes sum
-- up to the rewrites counted.
pub run-IsBounded :
    (limits : CanonicalizationLimits) (cs : List TrackerCall)
    → IsBounded (run (termination_tracker limits) cs).0
unfolding termination_tracker
run-IsBounded limits cs = IsBounded-run (termination_tracker limits) cs (record {
  imports = omega arith;
  steps = omega arith;
  rewrites = omega arith;
  phases = omega arith;
  each_node = tt;
  all_nodes = refl;
})

call-flag :
    (t : TerminationTracker) (c : TrackerCall)
    → (call t c).0.statistics.exhausted_budget
      ≡ (t.statistics.exhausted_budget || has_value (call t c).1)
unfolding consume_import consume_worklist_step begin_phase_iteration observe_output_nodes
    consume_rewrite
call-flag t import_call = ground arith
call-flag t step_call = ground arith
call-flag t (rewrite_call n) = ground arith
call-flag t phase_call = ground arith
call-flag t (output_call nodes baseline) = ground arith

run-flag :
    (t : TerminationTracker) (cs : List TrackerCall)
    → (run t cs).0.statistics.exhausted_budget ≡ (t.statistics.exhausted_budget || (run t cs).1)
unfolding run
run-flag t [] = ground arith
run-flag t (c ∷ cs) = ground (arith, call-flag t c, run-flag (call t c).0 cs)

-- The flag `exhausted_budget` of a new tracker is set by a history of calls exactly if one of the calls
-- was refused with a diagnostic.
pub run_exhausted :
    (limits : CanonicalizationLimits) (cs : List TrackerCall)
    → (run (termination_tracker limits) cs).0.statistics.exhausted_budget
      ≡ (run (termination_tracker limits) cs).1
unfolding termination_tracker
run_exhausted limits cs = run-flag (termination_tracker limits) cs
