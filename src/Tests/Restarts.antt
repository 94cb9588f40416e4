-- ===== src/Tests/Restarts.antt =====
-- What a run leaves in the cluster.
use cascader.Common.{none, some, ◌⊎◌, ◌≡◌, ◌≢◌, ◌⊎◌, refl, codes, true, false, [], Memᴰ}
use cascader.Dict.{lookup, insert}
use cascader.Flags.{last_observed_restart_annotation}
use cascader.Store.Unmarks
use cascader.Store.Unmarks.{Restored, clear_observed-mark_observed}
use cascader.Errors.{Error}
use cascader.Objects.{Deployment}
use cascader.Utils.{generate_id}
use cascader.Utils.Patches.{
  patch_workload_annotation, delete_workload_annotation, patch_pod_template_annotation,
}
use cascader.Workloads.{workload_id, deployment_workload}
use cascader.Targets.{Target, deployment_target, target_id, trigger, deployment_trigger}
use cascader.Controller.{has_annotation}
use cascader.Controller.Reconcile.{
  World, returned, finished, mark_observed, clear_observed, reconcile_workload,
}
use cascader.Controller.Reconcile.Reloads.{attempts, failures}
use cascader.Store.{look, deployment_view, target_eq_iff}
use cascader.Store.Triggers.{IsFresh}
use cascader.Store.Frames.{Restarted, RestartedTarget, reconcile_workload-frame}
use cascader.Store.Restarts.{removal, Unmarked, reconcile_restarts}
use cascader.System.Graph.{deployment-Presents}
use cascader.Tests.{Cluster, client, reconciler, find, replace, chain, ids_of}
use cascader.Tests.Reconciling.{
  parse_duration, resource, world, workload, marked, marked_well, marked_targets, marked_IsAcyclic,
  marked_stable, marked_Covers, marked_size, cleared, targets, run, run_reloads, final_world,
}
use cascader.Tests.Stores.{client-IsStore}

identified :
    (d : Deployment)
    → target_id (deployment_target d.meta.namespace d.meta.name) ≡ workload_id deployment_workload d
unfolding target_id workload_id generate_id
identified d = refl

workload-IsFresh :
    IsFresh client resource deployment_view deployment_target client-IsStore.deployments chain
      workload
unfolding find
workload-IsFresh = refl

none_fails : failures (attempts client cleared.0.state targets) ≡ 0
unfolding failures attempts trigger deployment_trigger find clear_observed
    delete_workload_annotation replace mark_observed has_annotation lookup patch_workload_annotation
    patch_pod_template_annotation
none_fails = refl

reconcile_restarts_example :
    (final : World Cluster) × (reconcile_workload parse_duration reconciler client resource
        deployment_workload 4 world workload
      ≡ returned final finished)
    × ((t : Target)
        → Memᴰ t targets
        → Restarted (look client world.state t) (look client final.state t))
    × (((e : Error) × (removal reconciler client resource deployment_view deployment_target
              client-IsStore.deployments deployment_workload deployment-Presents identified marked.0
              marked.1
            ≡ some e))
        ⊎ Unmarked reconciler client resource deployment_view deployment_target
            client-IsStore.deployments deployment_workload deployment-Presents identified
            (look client final.state (deployment_target (codes "ns") (codes "a"))))
reconcile_restarts_example =
    reconcile_restarts reconciler client resource deployment_view deployment_target
      client-IsStore.deployments deployment_workload deployment-Presents identified client-IsStore
      parse_duration 4 world marked.0 workload marked.1 (ids_of marked.0.state)
      (deployment_target (codes "ns") (codes "b")) [] workload-IsFresh marked_well marked_targets
      marked_IsAcyclic marked_stable marked_Covers marked_size none_fails

abbrev other : Target
other = deployment_target (codes "ns") (codes "b")

other_differs : other ≢ deployment_target (codes "ns") (codes "a")
other_differs h =
    let same : false ≡ true =
      (target_eq_iff other (deployment_target (codes "ns") (codes "a"))).1 h in
    cc

reconcile_workload-frame_example :
    (look client (final_world run).state other ≡ look client chain other)
    ⊎ RestartedTarget reconciler client resource deployment_view deployment_target
        client-IsStore.deployments deployment_workload deployment-Presents world workload other
        (look client chain other)
        (look client (final_world run).state other)
reconcile_workload-frame_example =
    reconcile_workload-frame reconciler client resource deployment_view deployment_target
      client-IsStore.deployments deployment_workload deployment-Presents client-IsStore
      parse_duration 4 world (final_world run) workload finished workload-IsFresh run_reloads other
      other_differs

workload_unmarked :
    has_annotation workload.meta.annotations last_observed_restart_annotation ≡ false
unfolding has_annotation lookup
workload_unmarked = refl

marked_sent : marked.2 ≡ none
unfolding mark_observed has_annotation lookup patch_workload_annotation insert replace
marked_sent = refl

mark_removed :
    Unmarks.removal client resource deployment_view deployment_target client-IsStore.deployments
      deployment_workload deployment-Presents reconciler marked.0 marked.1
    ≡ none
unfolding delete_workload_annotation mark_observed has_annotation lookup patch_workload_annotation
    insert replace
mark_removed = refl

clear_observed-mark_observed_example :
    Restored (look client chain (deployment_target (codes "ns") (codes "a"))) (
      look client
        (clear_observed reconciler client resource deployment_workload marked.0 marked.1).0.state
        (deployment_target (codes "ns") (codes "a")))
clear_observed-mark_observed_example =
    clear_observed-mark_observed client resource deployment_view deployment_target
      client-IsStore.deployments deployment_workload deployment-Presents reconciler world workload
      workload-IsFresh workload_unmarked marked_sent mark_removed
      (deployment_target (codes "ns") (codes "a"))
