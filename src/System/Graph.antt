-- ===== src/System/Graph.antt =====
-- What stays as it is in the cluster while the operator works, the dependency graph among it.
use cascader.Common.{some, ℕ, ℤ, ◌≡◌, refl, sym, ap, ◌∙◌, ◌↔◌, Text, Option, none, List}
use cascader.Errors.{Result, ok, err, api_not_found}
use cascader.Dict.{lookup}
use cascader.Client.{Client, Resource}
use cascader.Workloads.{Workload, deployment_workload, stateful_set_workload, daemon_set_workload}
use cascader.Targets.{Target, deployment_target, stateful_set_target, daemon_set_target}
use cascader.Controller.{BaseReconciler}
use cascader.Controller.Cycles.{dependencies}
use cascader.Controller.Reconcile.{World, Reply, returned}
use cascader.Controller.Reconcilers.{
  reconcile_fetched, deployment_reconcile, stateful_set_reconcile, daemon_set_reconcile,
}
use cascader.Store.{
  View, look, Serves, IsStore, Presents, deployment_view, stateful_set_view, daemon_set_view,
}
use cascader.Store.Triggers.{get-IsFresh}
use cascader.Store.Graph.{extract_targets-congr, links_of, graph, dependencies_iff}
use cascader.Store.Runs.{
  OnlyMarks, OnlyMarks-refl, OnlyMarks-trans, Keeps, Keeps-same, reconcile_workload-Keeps,
}
use cascader.Controller.Extract.{extract_targets}
use cascader.System.{Step, deployment_step, stateful_set_step, daemon_set_step, Reach, here, next}

pub deployment-Presents : Presents deployment_view deployment_workload
deployment-Presents = record { annotations_of = λ o. refl; annotated = λ m o. refl }

pub stateful_set-Presents : Presents stateful_set_view stateful_set_workload
stateful_set-Presents = record { annotations_of = λ o. refl; annotated = λ m o. refl }

pub daemon_set-Presents : Presents daemon_set_view daemon_set_workload
daemon_set-Presents = record { annotations_of = λ o. refl; annotated = λ m o. refl }

module _ (parse_duration : Text → Option ℤ) (b : BaseReconciler) (c : Client) (fuel : ℕ)
    (laws : IsStore c) where
  abbrev mark : Text
  mark = b.last_observed_restart_annotation

  reconcile_fetched-Keeps :
      {O : Type 0} (resource : Resource c.State O) (view : O → View) (key : Text → Text → Target)
      (serves : Serves c resource view key) (w : Workload O) (presents : Presents view w)
      (namespace name : Text) (world final : World c.State) (reply : Reply) (fetched : Result O)
      → resource.get world.state namespace name ≡ fetched
      → reconcile_fetched parse_duration b c fuel resource w world fetched ≡ returned final reply
      → Keeps mark c world.state final.state
  unfolding reconcile_fetched
  reconcile_fetched-Keeps resource view key serves w presents namespace name world final reply
        (ok object) got h =
      reconcile_workload-Keeps b c resource view key serves w presents laws parse_duration fuel
        world final object reply
        (get-IsFresh c resource view key serves world.state namespace name object got) h
  reconcile_fetched-Keeps resource view key serves w presents namespace name world final reply
        (err api_not_found) got h =
      let same : final ≡ world = cc in Keeps-same mark c _ _ (ap (λ x. x.state) same)
  reconcile_fetched-Keeps resource view key serves w presents namespace name world final reply
        (err _) got h =
      let same : final ≡ world = cc in Keeps-same mark c _ _ (ap (λ x. x.state) same)

  Step-Keeps :
      {world final : World c.State}
      → Step parse_duration b c fuel world final
      → Keeps mark c world.state final.state
  unfolding deployment_reconcile stateful_set_reconcile daemon_set_reconcile
  Step-Keeps {world} {final} (deployment_step namespace name reply h) =
      reconcile_fetched-Keeps c.deployments deployment_view deployment_target laws.deployments
        deployment_workload deployment-Presents namespace name world final reply _ refl h
  Step-Keeps {world} {final} (stateful_set_step namespace name reply h) =
      reconcile_fetched-Keeps c.stateful_sets stateful_set_view stateful_set_target
        laws.stateful_sets stateful_set_workload stateful_set-Presents namespace name world final
        reply _ refl h
  Step-Keeps {world} {final} (daemon_set_step namespace name reply h) =
      reconcile_fetched-Keeps c.daemon_sets daemon_set_view daemon_set_target laws.daemon_sets
        daemon_set_workload daemon_set-Presents namespace name world final reply _ refl h

  -- The operator's own work, with a client that reads its own writes, adds and removes no object and
  -- changes nothing of any but two annotations: whatever calls of the three reconcilers have
  -- returned, in whatever order, every object has the replicas and the rest of its pod template
  -- that it had, its annotations differ at most at the key of the mark, and those of its pod
  -- template at most at the key that restarts it.
  pub Reach-OnlyMarks :
      {world final : World c.State}
      → Reach parse_duration b c fuel world final
      → (t : Target) → OnlyMarks mark (look c world.state t) (look c final.state t)
  Reach-OnlyMarks {world} here t = OnlyMarks-refl mark (look c world.state t)
  Reach-OnlyMarks {world} {final} (next {middle} reach step) t =
      OnlyMarks-trans mark (look c world.state t) (look c middle.state t) (look c final.state t)
        (Reach-OnlyMarks reach t) (Step-Keeps step t)

pub OnlyMarks-links_of :
    (b : BaseReconciler)
    → lookup b.last_observed_restart_annotation b.annotation_kind_map ≡ none
    → (x y : Option View) → OnlyMarks b.last_observed_restart_annotation x y
    → links_of b y ≡ links_of b x
OnlyMarks-links_of b unlisted none none _ = refl
OnlyMarks-links_of b unlisted none (some v') h = absurd h
OnlyMarks-links_of b unlisted (some v) none h = absurd h
OnlyMarks-links_of b unlisted (some v) (some v') (same_namespace, _, _, agree, _, _) = ap some (
    ap (λ n. extract_targets b n v'.annotations) same_namespace
    ∙ extract_targets-congr b b.last_observed_restart_annotation v.namespace v'.annotations
        v.annotations unlisted agree)

module _ (parse_duration : Text → Option ℤ) (b : BaseReconciler) (c : Client) (fuel : ℕ)
    (laws : IsStore c)
    (unlisted : lookup b.last_observed_restart_annotation b.annotation_kind_map ≡ none) where
  -- The operator's own work, with a client that reads its own writes and a mark whose key is not a
  -- configured annotation, changes the dependencies of no object: whatever calls of the three
  -- reconcilers have returned, in whatever order, the targets that detectCycle reads of an object
  -- are those that it read before.
  pub Reach-dependencies :
      {world final : World c.State}
      → Reach parse_duration b c fuel world final
      → (t : Target) (ds : List Target)
      → (dependencies b c final.state t ≡ ok ds) ↔ (dependencies b c world.state t ≡ ok ds)
  Reach-dependencies {world} {final} reach t ds =
      let before = dependencies_iff b c world.state t ds in
      let after = dependencies_iff b c final.state t ds in
      let same : graph b (look c final.state) t ≡ graph b (look c world.state) t =
        OnlyMarks-links_of b unlisted (look c world.state t) (look c final.state t)
          (Reach-OnlyMarks parse_duration b c fuel laws reach t) in
      (λ e. before.1 (sym same ∙ after.0 e), λ e. after.1 (same ∙ before.0 e))
