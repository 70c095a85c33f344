-- ===== src/Canonicalizer/Worklist/Queues.antt =====
-- The queue of lib/canonicalizer/worklist.cpp holds each node once at most, and runs empty.
use sivra.Prelude.{
  ℕ, zero, suc, ◌+◌, ◌-◌, ◌*◌, ◌≤◌, ◌<◌, ◌≡◌, refl, sym, ap, ◌∙◌, Bool, true, false, Bool-cases,
  inl, inr, List, [], ◌∷◌, length, length-append, length-set, set, arith,
}
use native.Mathlib.Nat.{mul-le-mul_left, mul-suc}
use sivra.Ir.Graph.{size}
use sivra.Ir.Builder.Extension.{length-Extends}
use sivra.Canonicalizer.Worklist.{WorklistState, flag}
use sivra.Canonicalizer.Worklist.Rounds.{Queue, enqueue, enqueue_all}
use sivra.Canonicalizer.Worklist.Frame.{Frame}
use sivra.Canonicalizer.Worklist.Renewals.{Spent}

abbrev count : List Bool → ℕ
count [] = 0
count (true ∷ bs) = suc (count bs)
count (false ∷ bs) = count bs

length-count : (bs : List Bool) → count bs ≤ length bs
length-count [] = omega arith
length-count (true ∷ bs) = omega (arith, length-count bs)
length-count (false ∷ bs) = omega (arith, length-count bs)

count-set-true :
    (bs : List Bool) (i : ℕ)
    → i < length bs
    → flag bs i ≡ false
    → count (set bs i true) ≡ suc (count bs)
count-set-true [] i h e = absurd (omega arith)
count-set-true (true ∷ bs) zero h e = cc
count-set-true (false ∷ bs) zero h e = refl
count-set-true (true ∷ bs) (suc i) h e = ap suc (count-set-true bs i (omega arith) e)
count-set-true (false ∷ bs) (suc i) h e = count-set-true bs i (omega arith) e

count-set-false : (bs : List Bool) (i : ℕ) → count bs ≤ suc (count (set bs i false))
count-set-false [] i = omega arith
count-set-false (true ∷ bs) zero = omega arith
count-set-false (false ∷ bs) zero = omega arith
count-set-false (true ∷ bs) (suc i) = omega (arith, count-set-false bs i)
count-set-false (false ∷ bs) (suc i) = count-set-false bs i

flag-inside : (bs : List Bool) (i : ℕ) → flag bs i ≡ true → i < length bs
flag-inside [] i h = cc
flag-inside (b ∷ bs) zero h = omega arith
flag-inside (b ∷ bs) (suc i) h = omega (arith, flag-inside bs i h)

-- A queue over `n` nodes has no more entries than flags that are set.
pub record IsQueue (n : ℕ) (q : Queue) : Type 0 where
  pub flags : length q.queued ≡ n
  pub flagged : length q.queue ≤ count q.queued

pub length-IsQueue : {n : ℕ} {q : Queue} → IsQueue n q → length q.queue ≤ n
length-IsQueue {n} {q} w =
    let flags = w.flags in let flagged = w.flagged in omega (arith, length-count q.queued)

module _ (reachable : List Bool) where
  enqueue-IsQueue :
      (q : Queue) (i : ℕ)
      → IsQueue (length reachable) q
      → IsQueue (length reachable) (enqueue reachable q i)
  unfolding enqueue
  enqueue-IsQueue q i w = elim (Bool-cases (flag reachable i)) [
    | inr unreached ↦ rw unreached w
    | inl reached ↦ elim (Bool-cases (flag q.queued i)) [
      | inl there ↦ rw (reached, there) w
      | inr fresh ↦
          let flags = w.flags in
          let flagged = w.flagged in
          let inside = flag-inside reachable i reached in
          let counted = count-set-true q.queued i (omega arith) fresh in
          rw (reached, fresh)
            (record {
              flags = length-set q.queued i true ∙ w.flags;
              flagged = rw counted (omega (arith, length-append q.queue (i ∷ [])));
            })
    ]
  ]

  pub enqueue_all-IsQueue :
      (is : List ℕ) (q : Queue)
      → IsQueue (length reachable) q
      → IsQueue (length reachable) (enqueue_all reachable q is)
  unfolding enqueue_all
  enqueue_all-IsQueue [] q w = w
  enqueue_all-IsQueue (i ∷ is) q w =
      enqueue_all-IsQueue is (enqueue reachable q i) (enqueue-IsQueue q i w)

  pub pop-IsQueue :
      (i : ℕ) (rest : List ℕ) (queued : List Bool)
      → IsQueue (length reachable) (record { queue = i ∷ rest; queued = queued })
      → IsQueue (length reachable) (record { queue = rest; queued = set queued i false })
  pop-IsQueue i rest queued w =
      let flagged = w.flagged in
      record {
        flags = length-set queued i false ∙ w.flags;
        flagged = omega (arith, count-set-false queued i);
      }

-- The rewrites and the nodes of the output that are left.
abbrev pub left : {Digest : Type 0} → WorklistState Digest → ℕ
left s =
    (s.termination.limits.maximum_rewrites - s.termination.statistics.rewrites_applied)
    + (s.termination.limits.maximum_output_nodes - size s.output)

module _ {Digest : Type 0} (s s' : WorklistState Digest) (f : Frame s s') where
  pub left-Frame : left s' ≤ left s
  unfolding size
  left-Frame =
      let more = length-Extends f.extends in
      let rewrites = f.tracked.rewrites in rw f.tracked.limits (omega arith)

  pub left-Spent : Spent s s' → left s' < left s
  unfolding size
  left-Spent (inl w) =
      let more = length-Extends f.extends in
      let within = w.within in let counted = w.counted in rw f.tracked.limits (omega arith)
  left-Spent (inr e) =
      let rewrites = f.tracked.rewrites in
      let within = e.within in let larger = e.larger in rw f.tracked.limits (omega arith)

-- One unit less makes room for all nodes.
pub room : (n a b : ℕ) → a < b → n * a + n ≤ n * b
room n a b h = let more = mul-le-mul_left n h in rw (sym (mul-suc n a)) more
