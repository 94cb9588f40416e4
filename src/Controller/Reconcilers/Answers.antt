-- ===== src/Controller/Reconcilers/Answers.antt =====
-- internal/controller/*_reconciler.go: that the three Reconcile methods return.
use cascader.Common.{ℕ, ℤ, ◌<◌, ◌≡◌, refl, ◌≢◌, Text, Option, none, List, arith, length}
use cascader.Errors.{Result, ok, err, api_not_found}
use cascader.Objects.{Deployment, StatefulSet, DaemonSet}
use cascader.Client.{Client, Resource}
use cascader.Workloads.{
  Workload, panics, deployment_workload, stateful_set_workload, daemon_set_workload,
  deployment_stable, stateful_set_stable, daemon_set_stable,
}
use cascader.Controller.{BaseReconciler}
use cascader.Controller.Cycles.Termination.{Covers}
use cascader.Controller.Reconcile.{World, mark_observed}
use cascader.Controller.Reconcile.Progress.{Returns, reconcile_workload-Returns}
use cascader.Controller.Reconcilers.{
  reconcile_fetched, deployment_reconcile, stateful_set_reconcile, daemon_set_reconcile,
}

deployment_panics : (d : Deployment) → d.replicas ≢ none → deployment_stable d ≢ panics
unfolding deployment_stable
deployment_panics d h = ground arith

stateful_set_panics : (s : StatefulSet) → s.replicas ≢ none → stateful_set_stable s ≢ panics
unfolding stateful_set_stable
stateful_set_panics s h = ground arith

daemon_set_panics : (d : DaemonSet) → daemon_set_stable d ≢ panics
unfolding daemon_set_stable
daemon_set_panics d = ground arith

module _ (parse_duration : Text → Option ℤ) (b : BaseReconciler) (c : Client) (fuel : ℕ) where
  -- The marking of the object, if there is one, leaves the listed objects to fetch, and a workload
  -- with a replica count.
  abbrev pub Answerable :
      {O : Type 0}
      → Resource c.State O
      → Workload O
      → (O → Type 0)
      → World c.State
      → Result O
      → List Text
      → Type 0
  Answerable {O} resource w Counted world fetched objects =
      (object : O)
      → fetched ≡ ok object
      → Covers b c (mark_observed b c resource w world object).0.state objects
        × Counted (mark_observed b c resource w world object).1

  reconcile_fetched-Returns :
      {O : Type 0} (resource : Resource c.State O) (w : Workload O) (Counted : O → Type 0)
      (world : World c.State) (fetched : Result O) (objects : List Text)
      → ((object : O) → Counted object → w.stable object ≢ panics)
      → Answerable resource w Counted world fetched objects
      → length objects < fuel
      → Returns parse_duration b c resource w
          (reconcile_fetched parse_duration b c fuel resource w world fetched)
  unfolding reconcile_fetched
  reconcile_fetched-Returns resource w Counted world (ok object) objects calm answerable enough =
      let (covers, counted) = answerable object refl in
      reconcile_workload-Returns parse_duration b c resource w fuel world object objects covers
        enough (calm _ counted)
  reconcile_fetched-Returns resource w Counted world (err api_not_found) objects _ _ _ =
      (_, _, refl)
  reconcile_fetched-Returns resource w Counted world (err _) objects _ _ _ = (_, _, refl)

  -- DeploymentReconciler.Reconcile returns for every request, found or not, if the cluster as the
  -- marking leaves it has fewer objects to fetch than there is fuel, and the Deployment still has a
  -- replica count.
  pub deployment_reconcile-Returns :
      (namespace name : Text) (world : World c.State) (objects : List Text)
      → Answerable c.deployments deployment_workload
          (λ d. d.replicas ≢ none)
          world
          (c.deployments.get world.state namespace name)
          objects
      → length objects < fuel
      → Returns parse_duration b c c.deployments deployment_workload
          (deployment_reconcile parse_duration b c fuel namespace name world)
  unfolding deployment_reconcile
  deployment_reconcile-Returns namespace name world objects =
      reconcile_fetched-Returns c.deployments deployment_workload (λ d. d.replicas ≢ none) world
        (c.deployments.get world.state namespace name) objects deployment_panics

  -- So for StatefulSets.
  stateful_set_reconcile-Returns :
      (namespace name : Text) (world : World c.State) (objects : List Text)
      → Answerable c.stateful_sets stateful_set_workload
          (λ s. s.replicas ≢ none)
          world
          (c.stateful_sets.get world.state namespace name)
          objects
      → length objects < fuel
      → Returns parse_duration b c c.stateful_sets stateful_set_workload
          (stateful_set_reconcile parse_duration b c fuel namespace name world)
  unfolding stateful_set_reconcile
  stateful_set_reconcile-Returns namespace name world objects =
      reconcile_fetched-Returns c.stateful_sets stateful_set_workload (λ s. s.replicas ≢ none) world
        (c.stateful_sets.get world.state namespace name) objects stateful_set_panics

  -- And for DaemonSets, which need no replica count.
  daemon_set_reconcile-Returns :
      (namespace name : Text) (world : World c.State) (objects : List Text)
      → Answerable c.daemon_sets daemon_set_workload
          (λ _. Unit)
          world
          (c.daemon_sets.get world.state namespace name)
          objects
      → length objects < fuel
      → Returns parse_duration b c c.daemon_sets daemon_set_workload
          (daemon_set_reconcile parse_duration b c fuel namespace name world)
  unfolding daemon_set_reconcile
  daemon_set_reconcile-Returns namespace name world objects =
      reconcile_fetched-Returns c.daemon_sets daemon_set_workload (λ _. Unit) world
        (c.daemon_sets.get world.state namespace name) objects (λ d _. daemon_set_panics d)
