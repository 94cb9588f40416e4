-- ===== src/Controller/Reconcile.antt =====
-- internal/controller/base_reconciler.go: ReconcileWorkload and triggerReloads. The function is
-- cut at its early returns: each piece below ends in the returns of its part and calls the next.
-- Log lines are not modelled.
pub mod Reloads
pub mod Branches
pub mod Safety
pub mod Gauges
pub mod Progress
pub mod Marks
use cascader.Common.{
  ℕ, ◌+◌, ℤ, pos, Text, Bool, true, false, Option, none, some, List, [], ◌∷◌, codes, length,
  if◌then◌else◌,
}
use cascader.Errors.{Error, Result, ok, err, cycle, patch_restart_failed, create_targets_failed}
use cascader.Client.{Client, Resource}
use cascader.Utils.Patches.{patch_workload_annotation, delete_workload_annotation}
use cascader.Workloads.{Workload, workload_id, Verdict, panics, verdict}
use cascader.Targets.{Target, target_kind, target_namespace, target_name, trigger}
use cascader.Metrics.{
  Labels, Calls, normal, warning, cycle_none, cycle_detected, cycle_note, failed_note,
  triggered_note, set_dependency_cycle_detected, set_workload_targets, inc_restarts_performed,
  record_event,
}
use cascader.Controller.{BaseReconciler, has_annotation}
use cascader.Controller.Extract.{extract_targets, requeue_duration_for}
use cascader.Controller.Cycles.{Check, no_cycle, refused, undecided, check_cycle}

-- The cluster, and the calls to the metrics and the event recorder so far.
pub record World (S : Type 0) : Type 0 where
  pub state : S
  pub calls : Calls

-- ctrl.Result and the error. The empty result requeues after 0, that is not at all.
pub record Reply : Type 0 where
  pub requeue_after : ℤ
  pub error : Option Error

abbrev pub finished : Reply
finished = record { requeue_after = pos 0; error = none }

abbrev pub failing : Error → Reply
failing e = record { requeue_after = pos 0; error = some e }

-- How a call ends: it returns, it panics in Stable, or its cycle check ran out of fuel.
pub data Outcome (S : Type 0) : Type 0 where
  returned : World S → Reply → Outcome S
  panicked : World S → Outcome S
  out_of_fuel : World S → Outcome S

module _ (c : Client) where
  -- The body of the loop in triggerReloads: the world after it, and whether the reload was made.
  unfoldable pub reload_target : Text → Target → World c.State → World c.State × Bool
  reload_target id t w =
      let (s, failure) = trigger c t w.state in
      elim failure [
        | some e ↦ (
          record {
            state = s;
            calls =
                record_event id warning (codes "ReloadFailed") (codes "TriggerReload")
                  (failed_note id e) w.calls;
          },
          false,
        )
        | none ↦ (
          record {
            state = s;
            calls =
                record_event id normal (codes "ReloadSucceeded") (codes "TriggerReload")
                  (triggered_note id)
                  (inc_restarts_performed (target_namespace t, target_name t, target_kind t)
                    w.calls);
          },
          true,
        )
      ]

  -- The loop of triggerReloads, with its two counters.
  unfoldable pub trigger_reloads :
      Text → List Target → World c.State → ℕ → ℕ → World c.State × ℕ × ℕ
  trigger_reloads id [] w succeeded failed = (w, succeeded, failed)
  trigger_reloads id (t ∷ ts) w succeeded failed =
      let (w', done) = reload_target id t w in
      trigger_reloads id ts w' (if done then succeeded + 1 else succeeded)
        (if done then failed else failed + 1)

module _ (b : BaseReconciler) (c : Client) {O : Type 0} (resource : Resource c.State O)
    (w : Workload O) where
  -- setLastObservedRestartAnnotation, if the annotation is not there yet
  unfoldable pub mark_observed : World c.State → O → World c.State × O × Option Error
  mark_observed world object =
      if has_annotation (w.annotated.get_annotations object) b.last_observed_restart_annotation
      then (world, object, none)
      else let (s, object', failure) =
          patch_workload_annotation resource w.annotated world.state object
            b.last_observed_restart_annotation (c.now world.state) in
        (record world { state = s }, object', failure)

  -- clearLastObservedRestartAnnotation; its error is only logged
  unfoldable pub clear_observed : World c.State → O → World c.State × O
  clear_observed world object =
      let (s, object', _) =
        delete_workload_annotation resource w.annotated world.state object
          b.last_observed_restart_annotation in
      (record world { state = s }, object')

  -- The last part: the workload is stable. The events name the object as the patches left it, and
  -- a failed reload is not returned as an error.
  unfoldable pub reload_all : List Target → World c.State → O → Outcome c.State
  reload_all targets world object =
      let (cleared, object') = clear_observed world object in
      returned (trigger_reloads c (workload_id w object') targets cleared 0 0).0 finished

-- The metric and the event for a cycle, and nothing for another error.
unfoldable pub report_refusal : Text → Labels → Error → Calls → Calls
unfolding set_dependency_cycle_detected record_event
report_refusal id labels (cycle e) calls =
    record_event id warning (codes "CycleDetected") (codes "CheckDependencyCycle")
      (cycle_note e.path) (set_dependency_cycle_detected labels cycle_detected calls)
report_refusal id labels _ calls = calls

module _ (parse_duration : Text → Option ℤ) (b : BaseReconciler) (c : Client) {O : Type 0}
    (resource : Resource c.State O) (w : Workload O) where
  -- After the stability check.
  unfoldable pub on_verdict : Verdict → List Target → World c.State → O → Outcome c.State
  unfolding reload_all
  on_verdict panics targets world object = panicked world
  on_verdict (verdict false _) targets world object =
      let (dur, _) = requeue_duration_for parse_duration b (w.annotated.get_annotations object) in
      returned world (record { requeue_after = dur; error = none })
  on_verdict (verdict true _) targets world object = reload_all b c resource w targets world object

  -- After the cycle check.
  unfoldable pub on_check : Check → Labels → List Target → World c.State → O → Outcome c.State
  unfolding set_dependency_cycle_detected
  on_check undecided labels targets world object = out_of_fuel world
  on_check (refused e) labels targets world object =
      returned (record world { calls = report_refusal (workload_id w object) labels e world.calls })
        finished
  on_check no_cycle labels targets world object =
      on_verdict (w.stable object) targets
        (record world { calls = set_dependency_cycle_detected labels cycle_none world.calls })
        object

  -- After the extraction of the targets.
  unfoldable pub on_targets :
      ℕ → Result (List Target) → Text → Labels → World c.State → O → Outcome c.State
  unfolding set_workload_targets
  on_targets fuel (err e) id labels world object =
      returned world (failing (create_targets_failed e))
  on_targets fuel (ok []) id labels world object =
      returned (record world { calls = set_workload_targets labels 0 world.calls }) finished
  on_targets fuel (ok (t ∷ ts)) id labels world object =
      on_check (check_cycle b c world.state fuel id (t ∷ ts)) labels (t ∷ ts)
        (record world { calls = set_workload_targets labels (length (t ∷ ts)) world.calls }) object

  -- After the marking of the observed restart.
  unfoldable pub on_marked : ℕ → World c.State × O × Option Error → Text → Labels → Outcome c.State
  on_marked fuel (world, object, some e) id labels =
      returned world (failing (patch_restart_failed e))
  on_marked fuel (world, object, none) id labels =
      on_targets fuel
        (extract_targets b (w.get_meta object).namespace (w.annotated.get_annotations object)) id
        labels world object

  -- namespace, name and kind of the workload, as the metrics label it
  abbrev pub workload_labels : O → Labels
  workload_labels object = ((w.get_meta object).namespace, (w.get_meta object).name, w.kind)

  -- ReconcileWorkload
  unfoldable pub reconcile_workload : ℕ → World c.State → O → Outcome c.State
  reconcile_workload fuel world object =
      on_marked fuel (mark_observed b c resource w world object) (workload_id w object)
        (workload_labels object)
