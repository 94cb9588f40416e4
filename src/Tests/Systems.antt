-- ===== src/Tests/Systems.antt =====
-- The operator at work on a small cluster.
use cascader.Common.{contains, ◌≡◌, refl, codes, none}
use cascader.Dict.{lookup, insert}
use cascader.Strings.{split, trim_space}
use cascader.Utils.{generate_id, parse_target_ref}
use cascader.Utils.Patches.{patch_workload_annotation}
use cascader.Workloads.{workload_id, deployment_stable}
use cascader.Targets.{Target, deployment_target, target_id, fetch_meta, new_target}
use cascader.Controller.{has_annotation}
use cascader.Controller.Extract.{extract_targets}
use cascader.Controller.Cycles.{check_cycle, detect_cycle, dependencies}
use cascader.Controller.Reconcile.{
  World, Outcome, returned, finished, reconcile_workload, mark_observed, on_marked, on_targets,
  on_check, on_verdict, clear_observed,
}
use cascader.Controller.Reconcilers.{deployment_reconcile, reconcile_fetched}
use cascader.System.{Reach, here, next, deployment_step}
use cascader.Tests.{Cluster, client, reconciler, find, replace}
use cascader.Tests.Reconciling.{parse_duration, world, final_world}

pub unlisted :
    lookup reconciler.last_observed_restart_annotation reconciler.annotation_kind_map ≡ none
unfolding lookup
unlisted = refl

abbrev pub b : Target
b = deployment_target (codes "ns") (codes "b")

-- The call of the Deployment reconciler for a.
abbrev run : Outcome Cluster
run = deployment_reconcile parse_duration reconciler client 4 (codes "ns") (codes "a") world

abbrev later : World Cluster
later = final_world run

run_returns : run ≡ returned later finished
unfolding final_world reconcile_workload mark_observed on_marked has_annotation lookup
    patch_workload_annotation on_targets extract_targets insert split trim_space new_target
    parse_target_ref on_check check_cycle target_id generate_id workload_id detect_cycle contains
    dependencies fetch_meta find on_verdict deployment_stable clear_observed replace
    deployment_reconcile reconcile_fetched
run_returns = refl

reached : Reach parse_duration reconciler client 4 world later
reached = next here (deployment_step (codes "ns") (codes "a") finished run_returns)
