-- ===== src/Stepwise/Requests.antt =====
-- internal/controller/base_reconciler.go and the three reconcilers: ReconcileWorkload and
-- Reconcile, one access at a time. The function is cut where Controller/Reconcile cuts it.
use cascader.Common.{
  ℕ, ℤ, Text, true, false, Option, none, some, List, [], ◌∷◌, codes, length, if◌then◌else◌,
}
use cascader.Errors.{
  Error, Result, ok, err, api_not_found, cycle, fetch_workload_failed, create_targets_failed,
  patch_restart_failed,
}
use cascader.Client.{Client, Resource}
use cascader.Utils.Patches.{patch_workload_annotation, delete_workload_annotation}
use cascader.Workloads.{
  Workload, workload_id, Verdict, panics, verdict, deployment_workload, stateful_set_workload,
  daemon_set_workload,
}
use cascader.Targets.{Target}
use cascader.Metrics.{
  Labels, warning, cycle_none, cycle_detected, cycle_note, set_dependency_cycle_detected,
  set_workload_targets, record_event,
}
use cascader.Processes.{done, ◌>>=◌, ◌>>◌}
use cascader.Controller.{BaseReconciler, has_annotation}
use cascader.Controller.Extract.{extract_targets, requeue_duration_for}
use cascader.Controller.Cycles.{Check, no_cycle, refused, undecided}
use cascader.Controller.Reconcile.{finished, failing}
use cascader.Stepwise.{Program, Ending, replied, crashed, unfinished, calling, asking, telling}
use cascader.Stepwise.Cycles.{check_cycle_program}
use cascader.Stepwise.Reloads.{trigger_reloads_program}

-- The metric and the event for a cycle, and nothing for another error.
unfoldable pub report_cycle : (c : Client) → Text → Labels → Error → Program c (Unit {0})
report_cycle c id labels (cycle e) = do
  telling c (set_dependency_cycle_detected labels cycle_detected)
  telling c (
      record_event id warning (codes "CycleDetected") (codes "CheckDependencyCycle")
        (cycle_note e.path))
report_cycle c id labels _ = done tt

module _ (b : BaseReconciler) (c : Client) {O : Type 0} (resource : Resource c.State O)
    (w : Workload O) where
  -- The annotation is set at the time that was read before.
  unfoldable pub mark_at : Text → O → c.State → c.State × (O × Option Error)
  mark_at now object s =
      let (s', object', failure) =
        patch_workload_annotation resource w.annotated s object b.last_observed_restart_annotation
          now in
      (s', (object', failure))

  unfoldable pub mark_program : O → Program c (O × Option Error)
  unfolding mark_at
  mark_program object =
      if has_annotation (w.annotated.get_annotations object) b.last_observed_restart_annotation
      then done (object, none)
      else do now ← asking c c.now; calling c (mark_at now object)

  unfoldable pub clear_at : O → c.State → c.State × O
  clear_at object s =
      let (s', object', _) =
        delete_workload_annotation resource w.annotated s object
          b.last_observed_restart_annotation in
      (s', object')

  unfoldable pub reload_program : List Target → O → Program c Ending
  unfolding clear_at trigger_reloads_program
  reload_program targets object = do
    object' ← calling c (clear_at object)
    counts ← trigger_reloads_program c (workload_id w object') targets 0 0
    done (replied finished)

module _ (parse_duration : Text → Option ℤ) (b : BaseReconciler) (c : Client) {O : Type 0}
    (resource : Resource c.State O) (w : Workload O) where
  -- After the stability check.
  unfoldable pub verdict_program : Verdict → List Target → O → Program c Ending
  unfolding reload_program
  verdict_program panics targets object = done crashed
  verdict_program (verdict false _) targets object =
      let (dur, _) = requeue_duration_for parse_duration b (w.annotated.get_annotations object) in
      done (replied (record { requeue_after = dur; error = none }))
  verdict_program (verdict true _) targets object = reload_program b c resource w targets object

  -- After the cycle check.
  unfoldable pub check_program : Check → Labels → List Target → O → Program c Ending
  unfolding report_cycle verdict_program
  check_program undecided labels targets object = done unfinished
  check_program (refused e) labels targets object = do
    report_cycle c (workload_id w object) labels e
    done (replied finished)
  check_program no_cycle labels targets object = do
    telling c (set_dependency_cycle_detected labels cycle_none)
    verdict_program (w.stable object) targets object

  -- After the extraction of the targets.
  unfoldable pub targets_program : ℕ → Result (List Target) → Text → Labels → O → Program c Ending
  unfolding check_program check_cycle_program
  targets_program fuel (err e) id labels object = done (replied (failing (create_targets_failed e)))
  targets_program fuel (ok []) id labels object = do
    telling c (set_workload_targets labels 0)
    done (replied finished)
  targets_program fuel (ok (t ∷ ts)) id labels object = do
    telling c (set_workload_targets labels (length (t ∷ ts)))
    answer ← check_cycle_program b c fuel id (t ∷ ts)
    check_program answer labels (t ∷ ts) object

  -- After the marking of the observed restart.
  unfoldable pub marked_program : ℕ → O × Option Error → Text → Labels → Program c Ending
  unfolding targets_program
  marked_program fuel (object, some e) id labels = done (replied (failing (patch_restart_failed e)))
  marked_program fuel (object, none) id labels =
      targets_program fuel
        (extract_targets b (w.get_meta object).namespace (w.annotated.get_annotations object)) id
        labels object

  -- ReconcileWorkload
  unfoldable pub workload_program : ℕ → O → Program c Ending
  unfolding mark_program marked_program
  workload_program fuel object = do
    marked ← mark_program b c resource w object
    marked_program fuel marked (workload_id w object)
        ((w.get_meta object).namespace, (w.get_meta object).name, w.kind)

  -- After the fetch of the workload: an object that is gone is no error.
  unfoldable pub fetched_program : ℕ → Result O → Program c Ending
  unfolding workload_program
  fetched_program fuel (err api_not_found) = done (replied finished)
  fetched_program fuel (err _) = done (replied (failing (fetch_workload_failed w.kind)))
  fetched_program fuel (ok object) = workload_program fuel object

-- A request names a Deployment, a StatefulSet or a DaemonSet.
pub data Request : Type 0 where
  deployment_request : Text → Text → Request
  stateful_set_request : Text → Text → Request
  daemon_set_request : Text → Text → Request

module _ (parse_duration : Text → Option ℤ) (b : BaseReconciler) (c : Client) (fuel : ℕ) where
  unfoldable pub request_program :
      {O : Type 0} → Resource c.State O → Workload O → Text → Text → Program c Ending
  unfolding fetched_program
  request_program resource w namespace name = do
    fetched ← asking c (λ s. resource.get s namespace name)
    fetched_program parse_duration b c resource w fuel fetched

  -- Reconcile of the reconciler for the kind.
  unfoldable pub reconcile_program : Request → Program c Ending
  unfolding request_program
  reconcile_program (deployment_request namespace name) =
      request_program c.deployments deployment_workload namespace name
  reconcile_program (stateful_set_request namespace name) =
      request_program c.stateful_sets stateful_set_workload namespace name
  reconcile_program (daemon_set_request namespace name) =
      request_program c.daemon_sets daemon_set_workload namespace name
