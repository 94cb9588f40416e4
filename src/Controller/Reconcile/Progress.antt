-- ===== src/Controller/Reconcile/Progress.antt =====
-- internal/controller/base_reconciler.go: that ReconcileWorkload returns, and reloads.
use cascader.Common.{
  ℕ, ℤ, ◌<◌, ◌≡◌, refl, ap, ◌∙◌, ◌≢◌, Text, Option, none, some, List, [], ◌∷◌, ◌++◌, length, true,
  false,
}
use cascader.Errors.{Error, Result, ok, err}
use cascader.Client.{Client, Resource}
use cascader.Workloads.{Workload, Verdict, panics, verdict, workload_id}
use cascader.Workloads.Stability.{Says}
use cascader.Targets.{Target}
use cascader.Metrics.{Labels, cycle_none, set_dependency_cycle_detected, set_workload_targets}
use cascader.Controller.{BaseReconciler}
use cascader.Controller.Extract.{extract_targets, requeue_duration_for}
use cascader.Controller.Cycles.{Check, no_cycle, refused, undecided, check_cycle}
use cascader.Controller.Cycles.Termination.{Covers, check_cycle_decides}
use cascader.Controller.Cycles.Decides.{IsAcyclic, check_cycle_iff}
use cascader.Controller.Reconcile.{
  World, Reply, Outcome, returned, finished, mark_observed, clear_observed, reload_all, on_verdict,
  on_check, on_targets, on_marked, reconcile_workload, workload_labels,
}
use cascader.Controller.Reconcile.Reloads.{attempts, state_after, reports, trigger_reloads_lem}

module _ (parse_duration : Text → Option ℤ) (b : BaseReconciler) (c : Client) {O : Type 0}
    (resource : Resource c.State O) (w : Workload O) where
  -- It returns.
  abbrev pub Returns : Outcome c.State → Type 0
  Returns outcome = (final : World c.State) × (reply : Reply) × (outcome ≡ returned final reply)

  on_verdict-Returns :
      (v : Verdict) (targets : List Target) (world : World c.State) (object : O)
      → v ≢ panics
      → Returns (on_verdict parse_duration b c resource w v targets world object)
  unfolding on_verdict reload_all
  on_verdict-Returns panics targets world object h = absurd (h refl)
  on_verdict-Returns (verdict false r) targets world object h = (_, _, refl)
  on_verdict-Returns (verdict true r) targets world object h = (_, _, refl)

  on_check-Returns :
      (k : Check) (labels : Labels) (targets : List Target) (world : World c.State) (object : O)
      → k ≢ undecided
      → w.stable object ≢ panics
      → Returns (on_check parse_duration b c resource w k labels targets world object)
  unfolding on_check
  on_check-Returns undecided labels targets world object h _ = absurd (h refl)
  on_check-Returns (refused e) labels targets world object h _ = (_, _, refl)
  on_check-Returns no_cycle labels targets world object h settled =
      on_verdict-Returns (w.stable object) targets _ object settled

  on_targets-Returns :
      (fuel : ℕ) (extracted : Result (List Target)) (objects : List Text) (id : Text)
      (labels : Labels) (world : World c.State) (object : O)
      → Covers b c world.state objects
      → length objects < fuel
      → w.stable object ≢ panics
      → Returns (on_targets parse_duration b c resource w fuel extracted id labels world object)
  unfolding on_targets
  on_targets-Returns fuel (err e) objects id labels world object _ _ _ = (_, _, refl)
  on_targets-Returns fuel (ok []) objects id labels world object _ _ _ = (_, _, refl)
  on_targets-Returns fuel (ok (t ∷ ts)) objects id labels world object covers enough settled =
      on_check-Returns _ labels (t ∷ ts) _ object
        (check_cycle_decides b c world.state id objects covers fuel (t ∷ ts) enough) settled

  on_marked-Returns :
      (fuel : ℕ) (failure : Option Error) (objects : List Text) (id : Text) (labels : Labels)
      (world : World c.State) (object : O)
      → Covers b c world.state objects
      → length objects < fuel
      → w.stable object ≢ panics
      → Returns (on_marked parse_duration b c resource w fuel (world, object, failure) id labels)
  unfolding on_marked
  on_marked-Returns fuel (some e) objects id labels world object _ _ _ = (_, _, refl)
  on_marked-Returns fuel none objects id labels world object covers enough settled =
      on_targets-Returns fuel _ objects id labels world object covers enough settled

  -- If, as the marking of the restart left them, the cluster has fewer objects to fetch than there
  -- is fuel, and the stability check of the workload does not panic, ReconcileWorkload returns.
  pub reconcile_workload-Returns :
      (fuel : ℕ) (world : World c.State) (object : O) (objects : List Text)
      → Covers b c (mark_observed b c resource w world object).0.state objects
      → length objects < fuel
      → w.stable (mark_observed b c resource w world object).1 ≢ panics
      → Returns (reconcile_workload parse_duration b c resource w fuel world object)
  unfolding reconcile_workload
  reconcile_workload-Returns fuel world object objects covers enough settled =
      let (world', object', failure) = mark_observed b c resource w world object in
      on_marked-Returns fuel failure objects _ _ world' object' covers enough settled

  on_verdict_reloads :
      (v : Verdict) (targets : List Target) (world : World c.State) (object : O)
      → Says true v
      → let (cleared, object') = clear_observed b c resource w world object in
        on_verdict parse_duration b c resource w v targets world object
        ≡ returned
            (record {
              state = state_after c cleared.state targets;
              calls =
                  cleared.calls
                  ++ reports (workload_id w object') (attempts c cleared.state targets);
            })
            finished
  unfolding on_verdict reload_all
  on_verdict_reloads panics targets world object h = absurd h
  on_verdict_reloads (verdict true r) targets world object h =
      ap (λ x. returned x.0 finished)
        (trigger_reloads_lem c (workload_id w (clear_observed b c resource w world object).1)
          targets (clear_observed b c resource w world object).0 0 0)
  on_verdict_reloads (verdict false r) targets world object h = absurd (cc)

  -- If the marking of the restart succeeded, and as it left them the workload has targets, nothing
  -- reachable from them repeats or cannot be read, the workload is stable, and the cluster has fewer
  -- objects to fetch than there is fuel, then ReconcileWorkload clears the annotation, tries to
  -- reload every target in order, reports the number of targets, that there is no cycle, and each
  -- attempt, and replies with neither an error nor a requeue.
  pub reconcile_reloads :
      (fuel : ℕ) (world world' : World c.State) (object object' : O) (objects : List Text)
      (t : Target) (ts : List Target)
      → mark_observed b c resource w world object ≡ (world', object', none)
      → extract_targets b (w.get_meta object').namespace (w.annotated.get_annotations object')
        ≡ ok (t ∷ ts)
      → IsAcyclic b c world'.state (workload_id w object) (t ∷ ts)
      → Says true (w.stable object')
      → Covers b c world'.state objects
      → length objects < fuel
      → let (cleared, cleared_object) = clear_observed b c resource w world' object' in
        let labels = workload_labels parse_duration b c resource w object in
        reconcile_workload parse_duration b c resource w fuel world object
        ≡ returned
            (record {
              state = state_after c cleared.state (t ∷ ts);
              calls =
                  set_dependency_cycle_detected labels cycle_none
                    (set_workload_targets labels (length (t ∷ ts)) world'.calls)
                  ++ reports (workload_id w cleared_object) (attempts c cleared.state (t ∷ ts));
            })
            finished
  unfolding reconcile_workload on_marked on_targets on_check clear_observed
  reconcile_reloads fuel world world' object object' objects t ts m x acyclic stable covers enough =
      let accepted =
        (check_cycle_iff b c world'.state (workload_id w object) objects covers fuel (t ∷ ts)
            enough).1
          acyclic in
      let id = workload_id w object in
      let labels = workload_labels parse_duration b c resource w object in
      let counted : World c.State = record world' {
        calls = set_workload_targets labels (length (t ∷ ts)) world'.calls;
      } in
      ap (λ k. on_marked parse_duration b c resource w fuel k id labels) m
      ∙ ap (λ r. on_targets parse_duration b c resource w fuel r id labels world' object') x
      ∙ ap (λ k. on_check parse_duration b c resource w k labels (t ∷ ts) counted object') accepted
      ∙ on_verdict_reloads (w.stable object') (t ∷ ts) _ object' stable

  -- What ReconcileWorkload returns for a workload that is put off.
  abbrev pub put_off : World c.State → List Target → O → O → Outcome c.State
  put_off world' targets object object' =
      let labels = workload_labels parse_duration b c resource w object in
      returned
        (record world' {
          calls =
              set_dependency_cycle_detected labels cycle_none
                (set_workload_targets labels (length targets) world'.calls);
        })
        (record {
          requeue_after =
              (requeue_duration_for parse_duration b (w.annotated.get_annotations object')).0;
          error = none;
        })

  on_verdict_put_off :
      (v : Verdict) (targets : List Target) (world : World c.State) (object : O)
      → Says false v
      → on_verdict parse_duration b c resource w v targets world object
        ≡ returned world (record {
          requeue_after =
              (requeue_duration_for parse_duration b (w.annotated.get_annotations object)).0;
          error = none;
        })
  unfolding on_verdict
  on_verdict_put_off panics targets world object h = absurd h
  on_verdict_put_off (verdict false r) targets world object h = refl
  on_verdict_put_off (verdict true r) targets world object h = absurd (cc)

  -- If the marking of the restart succeeded, the workload has targets, the check accepts these, and
  -- the workload is not stable, ReconcileWorkload changes nothing further in the cluster and asks for
  -- a requeue.
  pub reconcile_workload-put_off :
      (fuel : ℕ) (world world' : World c.State) (object object' : O) (t : Target) (ts : List Target)
      → mark_observed b c resource w world object ≡ (world', object', none)
      → extract_targets b (w.get_meta object').namespace (w.annotated.get_annotations object')
        ≡ ok (t ∷ ts)
      → check_cycle b c world'.state fuel (workload_id w object) (t ∷ ts) ≡ no_cycle
      → Says false (w.stable object')
      → reconcile_workload parse_duration b c resource w fuel world object
        ≡ put_off world' (t ∷ ts) object object'
  unfolding reconcile_workload on_marked on_targets on_check
  reconcile_workload-put_off fuel world world' object object' t ts m x accepted unstable =
      let id = workload_id w object in
      let labels = workload_labels parse_duration b c resource w object in
      let counted : World c.State = record world' {
        calls = set_workload_targets labels (length (t ∷ ts)) world'.calls;
      } in
      ap (λ k. on_marked parse_duration b c resource w fuel k id labels) m
      ∙ ap (λ r. on_targets parse_duration b c resource w fuel r id labels world' object') x
      ∙ ap (λ k. on_check parse_duration b c resource w k labels (t ∷ ts) counted object') accepted
      ∙ on_verdict_put_off (w.stable object') (t ∷ ts) _ object' unstable
