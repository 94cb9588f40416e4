-- ===== src/Controller/Reconcilers.antt =====
-- internal/controller/deployment_reconciler.go, statefulset_reconciler.go and
-- daemonset_reconciler.go: Reconcile of the three kinds. A request is a namespace and a name.
pub mod Answers
use cascader.Common.{ℕ, ℤ, Text, Option}
use cascader.Errors.{Result, ok, err, api_not_found, fetch_workload_failed}
use cascader.Client.{Client, Resource}
use cascader.Workloads.{Workload, deployment_workload, stateful_set_workload, daemon_set_workload}
use cascader.Controller.{BaseReconciler}
use cascader.Controller.Reconcile.{World, Outcome, returned, finished, failing, reconcile_workload}

module _ (parse_duration : Text → Option ℤ) (b : BaseReconciler) (c : Client) (fuel : ℕ) where
  -- What the three methods share: an object that is gone is no error.
  unfoldable pub reconcile_fetched :
      {O : Type 0} → Resource c.State O → Workload O → World c.State → Result O → Outcome c.State
  reconcile_fetched resource w world (err api_not_found) = returned world finished
  reconcile_fetched resource w world (err _) =
      returned world (failing (fetch_workload_failed w.kind))
  reconcile_fetched resource w world (ok object) =
      reconcile_workload parse_duration b c resource w fuel world object

  unfoldable pub deployment_reconcile : Text → Text → World c.State → Outcome c.State
  unfolding reconcile_fetched
  deployment_reconcile namespace name world =
      reconcile_fetched c.deployments deployment_workload world
        (c.deployments.get world.state namespace name)

  unfoldable pub stateful_set_reconcile : Text → Text → World c.State → Outcome c.State
  unfolding reconcile_fetched
  stateful_set_reconcile namespace name world =
      reconcile_fetched c.stateful_sets stateful_set_workload world
        (c.stateful_sets.get world.state namespace name)

  unfoldable pub daemon_set_reconcile : Text → Text → World c.State → Outcome c.State
  unfolding reconcile_fetched
  daemon_set_reconcile namespace name world =
      reconcile_fetched c.daemon_sets daemon_set_workload world
        (c.daemon_sets.get world.state namespace name)
