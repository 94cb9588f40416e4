-- ===== src/Tests/Reconciling.antt =====
-- ReconcileWorkload on small clusters.
use cascader.Common.{
  ◌<◌, ◌+◌, contains, ◌≡◌, refl, ◌≢◌, ◌⊎◌, Text, codes, ℤ, pos, Option, none, List, [], ◌∷◌, ◌++◌,
  arith, length, true, false,
}
use cascader.Errors.{Error, ok}
use cascader.Dict.{lookup, insert}
use cascader.Objects.{Deployment}
use cascader.Client.{Resource}
use cascader.Strings.{split, trim_space}
use cascader.Utils.{generate_id, parse_target_ref}
use cascader.Utils.Patches.{patch_workload_annotation}
use cascader.Workloads.{deployment_workload, workload_id, deployment_stable, panics}
use cascader.Targets.{Target, deployment_target, target_id, fetch_meta, new_target}
use cascader.Controller.{has_annotation}
use cascader.Controller.Extract.{extract_targets}
use cascader.Controller.Cycles.{no_cycle, check_cycle, detect_cycle, dependencies}
use cascader.Controller.Cycles.Decides.{IsAcyclic, check_cycle_iff}
use cascader.Controller.Reconcile.{
  World, Outcome, returned, panicked, out_of_fuel, finished, reconcile_workload, mark_observed,
  failing, workload_labels, on_marked, on_targets, on_check, on_verdict, clear_observed,
  trigger_reloads,
}
use cascader.Controller.Reconcile.Branches.{Quiet, requeued, Reloaded}
use cascader.Controller.Reconcile.Reloads.{
  attempts, state_after, reports, successes, failures, trigger_reloads_lem,
}
use cascader.Workloads.Stability.{Says}
use cascader.Metrics.{cycle_none, Labels, set_workload_targets, set_dependency_cycle_detected}
use cascader.Controller.Reconcile.Safety.{MayReload, reconcile_reloads_only_if, reconcile_replies}
use cascader.Controller.Reconcile.Progress.{reconcile_reloads}
use cascader.Controller.Cycles.Termination.{Covers}
use cascader.Tests.{
  replace, Cluster, client, reconciler, find, chain, ids_of, cluster_Covers, deployment_named,
  depends_on,
}

abbrev pub parse_duration : Text → Option ℤ
parse_duration val = none

abbrev pub resource : Resource Cluster Deployment
resource = client.deployments

abbrev pub world : World Cluster
world = record { state = chain; calls = [] }

abbrev pub workload : Deployment
workload = deployment_named (codes "a") (depends_on (codes "b")) (pos 1)

abbrev pub marked : World Cluster × Deployment × Option Error
marked = mark_observed reconciler client resource deployment_workload world workload

abbrev pub run : Outcome Cluster
run =
    reconcile_workload parse_duration reconciler client resource deployment_workload 4 world
      workload

-- The world that a run ends in.
unfoldable pub final_world : Outcome Cluster → World Cluster
final_world (returned w _) = w
final_world (panicked w) = w
final_world (out_of_fuel w) = w

-- The run reloads b, and has nothing to requeue.
pub run_reloads : run ≡ returned (final_world run) finished
unfolding final_world reconcile_workload mark_observed on_marked has_annotation lookup
    patch_workload_annotation on_targets extract_targets insert split trim_space new_target
    parse_target_ref on_check check_cycle target_id generate_id workload_id detect_cycle contains
    dependencies fetch_meta find on_verdict deployment_stable clear_observed replace
run_reloads = refl

abbrev pub targets : List Target
targets = deployment_target (codes "ns") (codes "b") ∷ []

abbrev pub id : Text
id = workload_id deployment_workload workload

-- What the marking leaves.
pub marked_well : marked ≡ (marked.0, marked.1, none)
unfolding mark_observed has_annotation lookup patch_workload_annotation insert replace
marked_well = refl

pub marked_targets :
    extract_targets reconciler marked.1.meta.namespace marked.1.meta.annotations ≡ ok targets
unfolding mark_observed has_annotation lookup patch_workload_annotation insert extract_targets split
    trim_space new_target parse_target_ref
marked_targets = refl

marked_accepted : check_cycle reconciler client marked.0.state 4 id targets ≡ no_cycle
unfolding mark_observed has_annotation lookup patch_workload_annotation insert extract_targets split
    trim_space new_target parse_target_ref check_cycle target_id generate_id workload_id
    detect_cycle contains dependencies fetch_meta find replace
marked_accepted = refl

pub marked_size : length (ids_of marked.0.state) < 4
unfolding mark_observed has_annotation lookup patch_workload_annotation insert replace
marked_size = omega arith

pub marked_stable : Says true (deployment_stable marked.1)
unfolding deployment_stable mark_observed has_annotation lookup patch_workload_annotation insert
    replace
marked_stable = refl

marked_settled : deployment_stable marked.1 ≢ panics
unfolding deployment_stable mark_observed has_annotation lookup patch_workload_annotation insert
    replace
marked_settled h = cc

pub marked_Covers : Covers reconciler client marked.0.state (ids_of marked.0.state)
marked_Covers = cluster_Covers reconciler marked.0.state

pub marked_IsAcyclic : IsAcyclic reconciler client marked.0.state id targets
marked_IsAcyclic =
    (check_cycle_iff reconciler client marked.0.state id (ids_of marked.0.state) marked_Covers 4
        targets marked_size).0
      marked_accepted

reconcile_reloads_only_if_example :
    Quiet marked.0 (final_world run)
    ⊎ ((ts : List Target) × MayReload parse_duration reconciler client resource deployment_workload
          marked.0 marked.1 id ts
        × Reloaded parse_duration reconciler client resource deployment_workload ts marked.0
            marked.1
            (final_world run)
            finished)
reconcile_reloads_only_if_example =
    reconcile_reloads_only_if parse_duration reconciler client resource deployment_workload 4 world
      workload (final_world run) finished run_reloads

reconcile_replies_example :
    (finished ≡ finished)
    ⊎ ((((e : Error) × (finished ≡ failing e)) × Quiet marked.0 (final_world run))
        ⊎ ((finished
              ≡ requeued parse_duration reconciler client resource deployment_workload marked.1)
            × Quiet marked.0 (final_world run)
            × Says false (deployment_stable marked.1)
            × ((ts : List Target) × (ts ≢ [])
                × (extract_targets reconciler marked.1.meta.namespace marked.1.meta.annotations
                    ≡ ok ts))))
reconcile_replies_example =
    reconcile_replies parse_duration reconciler client resource deployment_workload 4 world workload
      (final_world run) finished run_reloads

abbrev pub cleared : World Cluster × Deployment
cleared = clear_observed reconciler client resource deployment_workload marked.0 marked.1

abbrev labels : Labels
labels = workload_labels parse_duration reconciler client resource deployment_workload workload

reconcile_reloads_example :
    run
    ≡ returned
        (record {
          state = state_after client cleared.0.state targets;
          calls =
              set_dependency_cycle_detected labels cycle_none
                (set_workload_targets labels (length targets) marked.0.calls)
              ++ reports
                  (workload_id deployment_workload cleared.1)
                  (attempts client cleared.0.state targets);
        })
        finished
reconcile_reloads_example =
    reconcile_reloads parse_duration reconciler client resource deployment_workload 4 world marked.0
      workload marked.1 (ids_of marked.0.state) (deployment_target (codes "ns") (codes "b")) []
      marked_well marked_targets marked_IsAcyclic marked_stable marked_Covers marked_size

trigger_reloads_lem_example : trigger_reloads client id targets world 0 0 ≡ (
  record {
    state = state_after client chain targets;
    calls = [] ++ reports id (attempts client chain targets);
  },
  0 + successes (attempts client chain targets),
  0 + failures (attempts client chain targets),
)
trigger_reloads_lem_example = trigger_reloads_lem client id targets world 0 0
