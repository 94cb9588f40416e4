-- ===== src/Overlap/Safety.antt =====
-- internal/controller while calls overlap: which targets a call restarts.
use cascader.Common.{ℕ, ℤ, ◌≡◌, refl, Text, Option, none, some, List}
use cascader.Errors.{Result, ok}
use cascader.Dict.{lookup}
use cascader.Client.{Client}
use cascader.Workloads.{deployment_workload, stateful_set_workload, daemon_set_workload}
use cascader.Targets.{
  Target, deployment_target, stateful_set_target, daemon_set_target, target_id, target_kind,
  target_namespace, target_name,
}
use cascader.Processes.Guarantees.{no_process}
use cascader.Controller.{BaseReconciler}
use cascader.Controller.Cycles.{no_cycle, dependencies, check_cycle}
use cascader.Controller.Reconcile.{World}
use cascader.Store.{look, deployment_view, stateful_set_view, daemon_set_view}
use cascader.Store.Graph.{graph, dependencies_iff}
use cascader.Store.Merges.{IsMerging}
use cascader.System.Graph.{deployment-Presents, stateful_set-Presents, daemon_set-Presents}
use cascader.Stepwise.{Ending}
use cascader.Stepwise.Requests.{
  Request, deployment_request, stateful_set_request, daemon_set_request, reconcile_program,
}
use cascader.Stepwise.Safety.{RestartsOnly, Good}
use cascader.Stepwise.Safety.Requested.{request_program-Good}
use cascader.Overlap.{requested, Possible, Moment, Amid, AllOf}
use cascader.Overlap.Graph.{Reach-SameGraph, Amid-Gives}

module _ (parse_duration : Text → Option ℤ) (b : BaseReconciler) (c : Client) (fuel : ℕ)
    (laws : IsMerging c)
    (unlisted : lookup b.last_observed_restart_annotation b.annotation_kind_map ≡ none) where
  pub reconcile_program-Good :
      (world : World c.State) (ts : List Target) (r : Request) (extracted : Result (List Target))
      → ((ds : List Target) → extracted ≡ ok ds → ts ≡ ds)
      → graph b (look c world.state) (requested r) ≡ some extracted
      → Good b c world ts
          (check_cycle b c world.state fuel (target_id (requested r)) ts ≡ no_cycle)
          (λ _. Unit)
          (reconcile_program parse_duration b c fuel r)
  unfolding reconcile_program target_id target_kind target_namespace target_name
  reconcile_program-Good world ts (deployment_request namespace name) extracted readable names =
      request_program-Good parse_duration b c laws unlisted world c.deployments deployment_view
        deployment_target laws.deployments deployment_workload deployment-Presents fuel namespace
        name ts extracted readable (λ o. (refl, refl)) names
  reconcile_program-Good world ts (stateful_set_request namespace name) extracted readable names =
      request_program-Good parse_duration b c laws unlisted world c.stateful_sets stateful_set_view
        stateful_set_target laws.stateful_sets stateful_set_workload stateful_set-Presents fuel
        namespace name ts extracted readable (λ o. (refl, refl)) names
  reconcile_program-Good world ts (daemon_set_request namespace name) extracted readable names =
      request_program-Good parse_duration b c laws unlisted world c.daemon_sets daemon_set_view
        daemon_set_target laws.daemon_sets daemon_set_workload daemon_set-Presents fuel namespace
        name ts extracted readable (λ o. (refl, refl)) names

  module _ (Other : c.State → c.State → Type 0)
      (others : (s s' : c.State)
        → Other s s'
        → (t : Target) → graph b (look c s') t ≡ graph b (look c s) t) where
    -- A call of a reconciler restarts only targets that its object names, and none unless
    -- checkCycle would accept them at once when the call begins, however its accesses are spread
    -- over those of other calls and of other writers: each of its own accesses leaves the restart
    -- annotation of every object as it finds it, but for a target that the object names as the call
    -- begins, and this only if the check accepts. The other writers leave the dependencies as they
    -- are, a Get sees each patch that has succeeded, the server merges each patch into the object
    -- as it is stored by then, and the key of the mark is not a configured annotation.
    pub Amid-RestartsOnly :
        (r : Request) (m m' : Moment c) (own : List (World c.State × World c.State))
        (ending : Ending) (ts : List Target)
        → Possible parse_duration b c fuel Other m
        → dependencies b c m.world.state (requested r) ≡ ok ts
        → Amid parse_duration b c fuel Other
            (reconcile_program parse_duration b c fuel r)
            m
            own
            ending
            m'
        → AllOf
            (RestartsOnly c ts
              (check_cycle b c m.world.state fuel (target_id (requested r)) ts ≡ no_cycle))
            own
    Amid-RestartsOnly r m m' own ending ts (world, reach) names amid =
        let (_, calls) =
          Reach-SameGraph parse_duration b c fuel Other laws unlisted others reach no_process in
        (Amid-Gives parse_duration b c fuel Other laws unlisted others m.world
          (reconcile_program parse_duration b c fuel r) m m' own ending
          (reconcile_program-Good m.world ts r (ok ts) (λ ds e. cc)
            ((dependencies_iff b c m.world.state (requested r) ts).0 names))
          (λ t. refl) calls amid).1
