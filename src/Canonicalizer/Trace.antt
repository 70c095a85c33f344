-- ===== src/Canonicalizer/Trace.antt =====
-- lib/canonicalizer/trace.cpp: the events of a run, which a phase that comes to nothing takes back.
use sivra.Prelude.{
  ℕ, zero, suc, ◌+◌, ◌≡◌, refl, sym, ◌∙◌, ap, Bool-cases, inl, inr, Bool, true, if◌then◌else◌, ltb,
  List, [], ◌∷◌, ◌++◌, Option, length, length-append, push_back, Text, arith,
}
use mathlib.Core.List.{append_assoc, append-nil}
use sivra.Canonicalizer.Rule.{PassPhase}

-- `rewrite_trace_event`; the digests are those of structural.cpp, the reason is text for people.
pub record RewriteTraceEvent (Digest : Type 0) : Type 0 where
  pub sequence : ℕ
  pub rule : Text
  pub phase : PassPhase
  pub old_root : Option Digest
  pub new_root : Option Digest

pub record TraceCollector (Digest : Type 0) : Type 0 where
  pub enabled : Bool
  pub next_sequence : ℕ
  pub events : List (RewriteTraceEvent Digest)

pub record Checkpoint : Type 0 where
  pub event_count : ℕ
  pub next_sequence : ℕ

-- The arguments of a call of `record`.
pub record Rewrite (Digest : Type 0) : Type 0 where
  pub rule : Text
  pub phase : PassPhase
  pub old_root : Option Digest
  pub new_root : Option Digest

module _ {Digest : Type 0} where
  abbrev pub take : ℕ → List (RewriteTraceEvent Digest) → List (RewriteTraceEvent Digest)
  take zero xs = []
  take (suc n) [] = []
  take (suc n) (x ∷ xs) = x ∷ take n xs

  -- The event that is recorded next.
  abbrev pub event_of : TraceCollector Digest → Rewrite Digest → RewriteTraceEvent Digest
  event_of t r = record {
    sequence = t.next_sequence;
    rule = r.rule;
    phase = r.phase;
    old_root = r.old_root;
    new_root = r.new_root;
  }

  unfoldable pub record_event : TraceCollector Digest → Rewrite Digest → TraceCollector Digest
  record_event t r =
      if t.enabled
      then record t {
        next_sequence = t.next_sequence + 1;
        events = push_back t.events (event_of t r);
      }
      else t

  unfoldable pub mark : TraceCollector Digest → Checkpoint
  mark t = record { event_count = length t.events; next_sequence = t.next_sequence }

  unfoldable pub rollback : TraceCollector Digest → Checkpoint → TraceCollector Digest
  rollback t saved = record t {
    next_sequence = saved.next_sequence;
    events =
        if ltb saved.event_count (length t.events)
        then take saved.event_count t.events
        else t.events;
  }

  unfoldable pub record_events :
      TraceCollector Digest → List (Rewrite Digest) → TraceCollector Digest
  record_events t [] = t
  record_events t (r ∷ rs) = record_events (record_event t r) rs

  take-append : (xs ys : List (RewriteTraceEvent Digest)) → take (length xs) (xs ++ ys) ≡ xs
  take-append [] ys = refl
  take-append (x ∷ xs) ys = ap (λ l. x ∷ l) (take-append xs ys)

  record_event-extends :
      (t : TraceCollector Digest) (r : Rewrite Digest)
      → (more : List (RewriteTraceEvent Digest)) × ((record_event t r).events ≡ t.events ++ more)
        × ((record_event t r).enabled ≡ t.enabled)
  unfolding record_event
  record_event-extends t r = elim (Bool-cases t.enabled) [
    | inl on ↦ (event_of t r ∷ [], ground arith, ground arith)
    | inr off ↦ ([], ground (arith, append-nil t.events), ground arith)
  ]

  -- Events are only added behind the others, and the switch stays.
  record_events-extends :
      (t : TraceCollector Digest) (rs : List (Rewrite Digest))
      → (more : List (RewriteTraceEvent Digest)) × ((record_events t rs).events ≡ t.events ++ more)
        × ((record_events t rs).enabled ≡ t.enabled)
  unfolding record_events
  record_events-extends t [] = ([], sym (append-nil t.events), refl)
  record_events-extends t (r ∷ rs) =
      let (first, e, on) = record_event-extends t r in
      let (more, events, enabled) = record_events-extends (record_event t r) rs in
      (
        first ++ more,
        events ∙ ap (λ l. l ++ more) e ∙ append_assoc t.events first more,
        enabled ∙ on,
      )

  take-mark :
      (xs ys zs : List (RewriteTraceEvent Digest))
      → ys ≡ xs ++ zs
      → (if ltb (length xs) (length ys) then take (length xs) ys else ys) ≡ xs
  take-mark xs ys [] e = ground (arith, append-nil xs, take-append xs [])
  take-mark xs ys (z ∷ zs) e =
      let longer : length ys ≡ length xs + suc (length zs) =
        ap length e ∙ length-append xs (z ∷ zs) in
      let before : ltb (length xs) (length ys) ≡ true = ground arith in
      rw (before, e) (take-append xs (z ∷ zs))

  -- A rollback to a mark undoes whatever was recorded since the mark was set: the collector is again
  -- the one that was marked, with its events and the next sequence number.
  pub rollback-mark :
      (t : TraceCollector Digest) (rs : List (Rewrite Digest))
      → rollback (record_events t rs) (mark t) ≡ t
  unfolding rollback mark
  rollback-mark t rs =
      let (more, events, enabled) = record_events-extends t rs in
      rw (take-mark t.events (record_events t rs).events more events, enabled) refl
