-- ===== src/Controller/Reconcile/Safety.antt =====
-- internal/controller/base_reconciler.go: when ReconcileWorkload reloads and what it replies.
use cascader.Common.{ℕ, ℤ, ◌≡◌, ◌≢◌, ◌⊎◌, inl, inr, Text, true, false, Option, List, []}
use cascader.Errors.{Error, ok}
use cascader.Client.{Client, Resource}
use cascader.Workloads.{Workload, workload_id}
use cascader.Workloads.Stability.{Says}
use cascader.Targets.{Target}
use cascader.Controller.{BaseReconciler}
use cascader.Controller.Extract.{extract_targets}
use cascader.Controller.Cycles.{no_cycle, check_cycle}
use cascader.Controller.Cycles.Complete.{check_cycle-Distinct, check_cycle-resolves}
use cascader.Controller.Cycles.Decides.{IsAcyclic}
use cascader.Controller.Reconcile.{
  World, Reply, returned, finished, failing, mark_observed, reconcile_workload,
}
use cascader.Controller.Reconcile.Branches.{Quiet, requeued, Reloaded, reconcile_workload-Endings}

module _ (parse_duration : Text → Option ℤ) (b : BaseReconciler) (c : Client) {O : Type 0}
    (resource : Resource c.State O) (w : Workload O) where
  -- The targets were extracted from the object as the marking left it, there is one, nothing
  -- reachable from them repeats, and the workload is stable.
  abbrev pub MayReload : World c.State → O → Text → List Target → Type 0
  MayReload world object id targets =
      (targets ≢ [])
      × (extract_targets b (w.get_meta object).namespace (w.annotated.get_annotations object)
          ≡ ok targets)
      × IsAcyclic b c world.state id targets
      × Says true (w.stable object)

  -- Whenever ReconcileWorkload returns, then either after the marking of the restart it has changed
  -- nothing in the cluster and counted no restart, or it has tried to reload the targets, and then
  -- the workload as the marking left it is stable, has targets, and on every walk from one of them
  -- along the dependencies of the cluster the identifiers of the workload and the targets met are
  -- distinct and every object met can be read; and the reply has neither an error nor a requeue.
  pub reconcile_reloads_only_if :
      (fuel : ℕ) (world : World c.State) (object : O) (final : World c.State) (reply : Reply)
      → reconcile_workload parse_duration b c resource w fuel world object ≡ returned final reply
      → let (world', object', _) = mark_observed b c resource w world object in
        Quiet world' final
        ⊎ ((targets : List Target) × MayReload world' object' (workload_id w object) targets
            × Reloaded parse_duration b c resource w targets world' object' final reply)
  reconcile_reloads_only_if fuel world object final reply h =
      elim (reconcile_workload-Endings parse_duration b c resource w fuel world object final reply
        h) [
          | inl (quiet, _) ↦ inl quiet
          | inr (_, inl (quiet, _)) ↦ inl quiet
          | inr (_, inr (targets, _, _, _, inl (_, _, quiet))) ↦ inl quiet
          | inr (_, inr (targets, ne, x, accepted, inr (stable, reloaded))) ↦
              inr (targets, (ne, x, acyclic targets accepted, stable), reloaded)
        ]
    where
      acyclic :
          (targets : List Target)
          → check_cycle b c
              (mark_observed b c resource w world object).0.state
              fuel
              (workload_id w object)
              targets
            ≡ no_cycle
          → IsAcyclic b c
              (mark_observed b c resource w world object).0.state
              (workload_id w object)
              targets
      acyclic targets e t us m walk = (
        check_cycle-Distinct b c _ fuel _ targets e t us m walk,
        check_cycle-resolves b c _ fuel _ targets e t us m walk,
      )

  -- Whenever ReconcileWorkload returns, its reply is one of three: neither error nor requeue; an
  -- error without a requeue, and then nothing was changed after the marking of the restart and no
  -- restart was counted; or, without an error, a requeue after the workload's interval, and then
  -- the same holds and the workload has targets and is not stable.
  pub reconcile_replies :
      (fuel : ℕ) (world : World c.State) (object : O) (final : World c.State) (reply : Reply)
      → reconcile_workload parse_duration b c resource w fuel world object ≡ returned final reply
      → let (world', object', _) = mark_observed b c resource w world object in
        (reply ≡ finished)
        ⊎ ((((e : Error) × (reply ≡ failing e)) × Quiet world' final)
            ⊎ ((reply ≡ requeued parse_duration b c resource w object')
                × Quiet world' final
                × Says false (w.stable object')
                × ((targets : List Target) × (targets ≢ [])
                    × (extract_targets b
                          (w.get_meta object').namespace
                          (w.annotated.get_annotations object')
                        ≡ ok targets))))
  reconcile_replies fuel world object final reply h =
      elim (reconcile_workload-Endings parse_duration b c resource w fuel world object final reply
        h) [
          | inl (quiet, failure) ↦ inr (inl (failure, quiet))
          | inr (_, inl (quiet, inl answer)) ↦ inl answer
          | inr (_, inl (quiet, inr failure)) ↦ inr (inl (failure, quiet))
          | inr (_, inr (targets, ne, x, _, inl (unstable, answer, quiet))) ↦
              inr (inr (answer, quiet, unstable, (targets, ne, x)))
          | inr (_, inr (_, _, _, _, inr (_, (answer, _)))) ↦ inl answer
        ]
