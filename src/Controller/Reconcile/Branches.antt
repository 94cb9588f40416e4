-- ===== src/Controller/Reconcile/Branches.antt =====
-- How ReconcileWorkload can end: one lemma for each of its pieces, and what they give together.
use mathlib.Core.List.{cons-ne-nil}
use cascader.Common.{
  ℕ, ℤ, ◌≡◌, refl, ap, ◌∙◌, ◌≢◌, ◌⊎◌, inl, inr, ⊎_elim, Text, true, false, Option, none, some, List,
  [], ◌∷◌, arith, length,
}
use cascader.Errors.{Error, Result, ok, err, cycle}
use cascader.Client.{Client, Resource}
use cascader.Workloads.{Workload, Verdict, panics, verdict, workload_id}
use cascader.Workloads.Stability.{Says}
use cascader.Targets.{Target}
use cascader.Metrics.{
  Labels, Calls, CycleState, EventType, Note, cycle_none, set_dependency_cycle_detected,
  set_workload_targets, record_event,
}
use cascader.Controller.{BaseReconciler}
use cascader.Controller.Extract.{extract_targets, requeue_duration_for}
use cascader.Controller.Cycles.{Check, no_cycle, refused, undecided, check_cycle}
use cascader.Controller.Reconcile.{
  World, Reply, Outcome, returned, finished, failing, mark_observed, clear_observed, reload_all,
  report_refusal, on_verdict, on_check, on_targets, on_marked, reconcile_workload,
}
use cascader.Controller.Reconcile.Reloads.{
  count_restarts, count_restarts-append, state_after, trigger_reloads_lem,
}

-- The calls that set a gauge or record an event count no restart.
set_cycle-Quiet :
    (labels : Labels) (state : CycleState) (calls : Calls)
    → count_restarts (set_dependency_cycle_detected labels state calls) ≡ count_restarts calls
unfolding set_dependency_cycle_detected count_restarts
set_cycle-Quiet labels state calls = omega (arith, count_restarts-append calls (_ ∷ []))

set_targets-Quiet :
    (labels : Labels) (n : ℕ) (calls : Calls)
    → count_restarts (set_workload_targets labels n calls) ≡ count_restarts calls
unfolding set_workload_targets count_restarts
set_targets-Quiet labels n calls = omega (arith, count_restarts-append calls (_ ∷ []))

record_event-Quiet :
    (id : Text) (type : EventType) (reason action : Text) (note : Note) (calls : Calls)
    → count_restarts (record_event id type reason action note calls) ≡ count_restarts calls
unfolding record_event count_restarts
record_event-Quiet id type reason action note calls =
    omega (arith, count_restarts-append calls (_ ∷ []))

report_refusal-Quiet :
    (id : Text) (labels : Labels) (e : Error) (calls : Calls)
    → count_restarts (report_refusal id labels e calls) ≡ count_restarts calls
unfolding report_refusal
report_refusal-Quiet id labels (cycle e) calls = simp (record_event-Quiet, set_cycle-Quiet)
report_refusal-Quiet id labels _ calls = refl

-- Since `world` nothing was changed in the cluster, and no restart was counted.
abbrev pub Quiet : {S : Type 0} → World S → World S → Type 0
Quiet world final =
    (final.state ≡ world.state) × (count_restarts final.calls ≡ count_restarts world.calls)

module _ (parse_duration : Text → Option ℤ) (b : BaseReconciler) (c : Client) {O : Type 0}
    (resource : Resource c.State O) (w : Workload O) where
  -- The answer for a workload that is not stable.
  abbrev pub requeued : O → Reply
  requeued object = record {
    requeue_after = (requeue_duration_for parse_duration b (w.annotated.get_annotations object)).0;
    error = none;
  }

  -- The workload is stable, and each target was tried after the annotation was cleared.
  abbrev pub Reloaded : List Target → World c.State → O → World c.State → Reply → Type 0
  Reloaded targets world object final reply =
      (reply ≡ finished)
      × (final.state ≡ state_after c (clear_observed b c resource w world object).0.state targets)

  returned_inj :
      {world final : World c.State} {answer reply : Reply}
      → ◌≡◌ {A = Outcome c.State} (returned world answer) (returned final reply)
      → (final ≡ world) × (reply ≡ answer)
  returned_inj h = (cc, cc)

  on_verdict_cases :
      (v : Verdict) (targets : List Target) (world : World c.State) (object : O)
      (final : World c.State) (reply : Reply)
      → on_verdict parse_duration b c resource w v targets world object ≡ returned final reply
      → (Says false v × (reply ≡ requeued object) × Quiet world final)
        ⊎ (Says true v × Reloaded targets world object final reply)
  unfolding on_verdict reload_all
  on_verdict_cases panics targets world object final reply h = absurd (cc)
  on_verdict_cases (verdict false r) targets world object final reply h =
      let (same, answer) = returned_inj h in
      inl (refl, answer, (ap (λ x. x.state) same, ap (λ x. count_restarts x.calls) same))
  on_verdict_cases (verdict true r) targets world object final reply h =
      let (same, answer) = returned_inj h in
      inr (
        refl,
        (
          answer,
          ap (λ x. x.state) same
              ∙ ap (λ x. x.0.state)
                  (trigger_reloads_lem c
                    (workload_id w (clear_observed b c resource w world object).1) targets
                    (clear_observed b c resource w world object).0 0 0),
        ),
      )

  -- What the cycle check and the stability check can lead to.
  abbrev Decided : ℕ → Text → List Target → World c.State → O → World c.State → Reply → Type 0
  Decided fuel id targets world object final reply =
      ((reply ≡ finished) × Quiet world final)
      ⊎ ((check_cycle b c world.state fuel id targets ≡ no_cycle)
          × ((Says false (w.stable object) × (reply ≡ requeued object) × Quiet world final)
              ⊎ (Says true (w.stable object) × Reloaded targets world object final reply)))

  on_check_cases :
      (fuel : ℕ) (k : Check) (id : Text) (labels : Labels) (targets : List Target)
      (world : World c.State) (calls : Calls) (object : O) (final : World c.State) (reply : Reply)
      → count_restarts calls ≡ count_restarts world.calls
      → check_cycle b c world.state fuel id targets ≡ k
      → on_check parse_duration b c resource w k labels targets
          (record world { calls = calls })
          object
        ≡ returned final reply
      → Decided fuel id targets world object final reply
  unfolding on_check clear_observed
  on_check_cases fuel undecided id labels targets world calls object final reply q e h = absurd (cc)
  on_check_cases fuel (refused x) id labels targets world calls object final reply q e h =
      let (same, answer) = returned_inj h in
      inl (
        answer,
        (
          ap (λ y. y.state) same,
          ap (λ y. count_restarts y.calls) same
              ∙ report_refusal-Quiet (workload_id w object) labels x calls
              ∙ q,
        ),
      )
  on_check_cases fuel no_cycle id labels targets world calls object final reply q e h =
      let calls' = set_dependency_cycle_detected labels cycle_none calls in
      inr (
        e,
        ⊎_elim
            (λ (unstable, answer, (same, count)).
              inl (unstable, answer, (same, count ∙ set_cycle-Quiet labels cycle_none calls ∙ q)))
            inr
            (on_verdict_cases (w.stable object) targets (record world { calls = calls' }) object
              final reply h),
      )

  -- How a call ends after the marking left `world` and `object`.
  abbrev pub Ends : ℕ → Text → World c.State → O → World c.State → Reply → Type 0
  Ends fuel id world object final reply =
      (Quiet world final × ((reply ≡ finished) ⊎ ((e : Error) × (reply ≡ failing e))))
      ⊎ ((targets : List Target) × (targets ≢ [])
          × (extract_targets b (w.get_meta object).namespace (w.annotated.get_annotations object)
              ≡ ok targets)
          × (check_cycle b c world.state fuel id targets ≡ no_cycle)
          × ((Says false (w.stable object) × (reply ≡ requeued object) × Quiet world final)
              ⊎ (Says true (w.stable object) × Reloaded targets world object final reply)))

  on_targets_cases :
      (fuel : ℕ) (extracted : Result (List Target)) (id : Text) (labels : Labels)
      (world : World c.State) (object : O) (final : World c.State) (reply : Reply)
      → extract_targets b (w.get_meta object).namespace (w.annotated.get_annotations object)
        ≡ extracted
      → on_targets parse_duration b c resource w fuel extracted id labels world object
        ≡ returned final reply
      → Ends fuel id world object final reply
  unfolding on_targets
  on_targets_cases fuel (err e) id labels world object final reply x h =
      let (same, answer) = returned_inj h in
      inl ((ap (λ y. y.state) same, ap (λ y. count_restarts y.calls) same), inr (_, answer))
  on_targets_cases fuel (ok []) id labels world object final reply x h =
      let (same, answer) = returned_inj h in
      inl (
        (
          ap (λ y. y.state) same,
          ap (λ y. count_restarts y.calls) same ∙ set_targets-Quiet labels 0 world.calls,
        ),
        inl answer,
      )
  on_targets_cases fuel (ok (t ∷ ts)) id labels world object final reply x h =
      elim (on_check_cases fuel _ id labels (t ∷ ts) world
        (set_workload_targets labels (length (t ∷ ts)) world.calls) object final reply
        (set_targets-Quiet labels _ world.calls) refl h) [
          | inl (answer, quiet) ↦ inl (quiet, inl answer)
          | inr (accepted, rest) ↦ inr (t ∷ ts, cons-ne-nil t ts, x, accepted, rest)
        ]

  -- How a call ends: the marking failed, or what follows it.
  abbrev pub Endings : ℕ → World c.State → O → World c.State → Reply → Type 0
  Endings fuel world object final reply =
      let (world', object', failure) = mark_observed b c resource w world object in
      (Quiet world' final × ((e : Error) × (reply ≡ failing e)))
      ⊎ ((failure ≡ none) × Ends fuel (workload_id w object) world' object' final reply)

  on_marked_cases :
      (fuel : ℕ) (world : World c.State) (object : O) (failure : Option Error) (id : Text)
      (labels : Labels) (final : World c.State) (reply : Reply)
      → on_marked parse_duration b c resource w fuel (world, object, failure) id labels
        ≡ returned final reply
      → (Quiet world final × ((e : Error) × (reply ≡ failing e)))
        ⊎ ((failure ≡ none) × Ends fuel id world object final reply)
  unfolding on_marked
  on_marked_cases fuel world object (some e) id labels final reply h =
      let (same, answer) = returned_inj h in
      inl ((ap (λ y. y.state) same, ap (λ y. count_restarts y.calls) same), (_, answer))
  on_marked_cases fuel world object none id labels final reply h =
      inr (refl, on_targets_cases fuel _ id labels world object final reply refl h)

  pub reconcile_workload-Endings :
      (fuel : ℕ) (world : World c.State) (object : O) (final : World c.State) (reply : Reply)
      → reconcile_workload parse_duration b c resource w fuel world object ≡ returned final reply
      → Endings fuel world object final reply
  unfolding reconcile_workload
  reconcile_workload-Endings fuel world object final reply h =
      let (world', object', failure) = mark_observed b c resource w world object in
      on_marked_cases fuel world' object' failure (workload_id w object) _ final reply h
