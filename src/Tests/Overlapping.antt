-- ===== src/Tests/Overlapping.antt =====
-- Overlapping calls on a small cluster, with a controller of Kubernetes that updates statuses.
use cascader.Common.{◌≢◌, arith, ◌≡◌, refl, ◌↔◌, codes, some, List, [], ◌∷◌, contains}
use cascader.Errors.{ok}
use cascader.Dict.{lookup, insert}
use cascader.Strings.{split, trim_space}
use cascader.Utils.{generate_id, parse_target_ref}
use cascader.Targets.{deployment_target, target_id, new_target, fetch_meta}
use cascader.Controller.Cycles.{no_cycle, dependencies, check_cycle}
use cascader.Controller.{has_annotation}
use cascader.Utils.Patches.{
  patch_workload_annotation, delete_workload_annotation, patch_pod_template_annotation,
}
use cascader.Workloads.{workload_id, deployment_stable}
use cascader.Controller.Extract.{extract_targets}
use cascader.Store.{look}
use cascader.Store.Runs.{OnlyMarks}
use cascader.Store.Merges.Restarts.{restarted_at}
use cascader.Stepwise.{unfinished}
use cascader.Stepwise.Cycles.{check_cycle_program, detect_cycle_program}
use cascader.Stepwise.Verdicts.{SameCheck, AnyErrors}
use cascader.Stepwise.Requests.{Request, deployment_request, reconcile_program}
use cascader.Stepwise.Safety.{RestartsOnly}
use cascader.Overlap.{requested, start, Moment, AllOf}
use cascader.Overlap.Graph.{Overlap-OnlyMarks, Overlap-dependencies}
use cascader.Overlap.Verdicts.{Amid-check_cycle}
use cascader.Overlap.Endings.{Amid-finished}
use cascader.Overlap.Safety.{Amid-RestartsOnly}
use cascader.Tests.{chain, reconciler, find, ids_of, cluster_Covers}
use cascader.Tests.Reconciling.{parse_duration, world}
use cascader.Tests.Systems.{unlisted, b}
use cascader.Tests.Merging.{merging_client, patch_merging, merging_client-IsMerging}
use cascader.Tests.Schedules.{Move, arrive, go, write, Run, run, AmidRun, amid_run}
use cascader.Tests.Settling.{Settles, settle, settle-Keeps, settle-graph, mark}

abbrev pub for_a : Request
for_a = deployment_request (codes "ns") (codes "a")

abbrev pub for_b : Request
for_b = deployment_request (codes "ns") (codes "b")

abbrev pub quiet : Moment merging_client
quiet = record { world = world; calls = [] }

-- The calls for a and b take turns, with the status writer between them.
abbrev schedule : List Move
schedule =
    arrive for_a
    ∷ go 0
    ∷ arrive for_b
    ∷ go 0
    ∷ go 1
    ∷ write
    ∷ go 1
    ∷ go 0
    ∷ go 0
    ∷ go 1
    ∷ go 1
    ∷ go 0
    ∷ write
    ∷ go 1
    ∷ go 1
    ∷ go 1
    ∷ go 1
    ∷ go 0
    ∷ go 1
    ∷ go 1
    ∷ go 0
    ∷ go 0
    ∷ []

abbrev busy : Run parse_duration reconciler merging_client 4 settle quiet
busy = run parse_duration reconciler merging_client 4 settle quiet schedule

Overlap-OnlyMarks_example :
    OnlyMarks mark (look merging_client chain b) (look merging_client busy.last.world.state b)
Overlap-OnlyMarks_example =
    Overlap-OnlyMarks parse_duration reconciler merging_client 4 Settles merging_client-IsMerging
      settle-Keeps world busy.last busy.reach b

Overlap-dependencies_example :
    (dependencies reconciler merging_client busy.last.world.state b
      ≡ ok (deployment_target (codes "ns") (codes "c") ∷ []))
    ↔ (dependencies reconciler merging_client chain b
        ≡ ok (deployment_target (codes "ns") (codes "c") ∷ []))
Overlap-dependencies_example =
    Overlap-dependencies parse_duration reconciler merging_client 4 Settles merging_client-IsMerging
      unlisted (settle-graph reconciler) world busy.last busy.reach b
      (deployment_target (codes "ns") (codes "c") ∷ [])

-- The check of a's target, with a call for b between its reads.
abbrev checked :
    AmidRun parse_duration reconciler merging_client 4 settle
      (check_cycle_program reconciler merging_client 4 (codes "Deployment/ns/a") (b ∷ []))
      quiet
checked =
    amid_run parse_duration reconciler merging_client 4 settle
      (check_cycle_program reconciler merging_client 4 (codes "Deployment/ns/a") (b ∷ [])) quiet
      ((arrive for_b ∷ go 0 ∷ go 0 ∷ []) ∷ (go 0 ∷ write ∷ go 0 ∷ []) ∷ [])

Amid-check_cycle_example :
    SameCheck AnyErrors checked.answer
      (check_cycle reconciler merging_client chain 4 (codes "Deployment/ns/a") (b ∷ []))
Amid-check_cycle_example =
    Amid-check_cycle parse_duration reconciler merging_client 4 Settles merging_client-IsMerging
      unlisted (settle-graph reconciler) quiet checked.last checked.own 4 (codes "Deployment/ns/a")
      (b ∷ []) checked.answer (world, start) checked.amid

-- A call for a, with one for b and the status writer between its accesses.
abbrev called :
    AmidRun parse_duration reconciler merging_client 4 settle
      (reconcile_program parse_duration reconciler merging_client 4 for_a)
      quiet
called =
    amid_run parse_duration reconciler merging_client 4 settle
      (reconcile_program parse_duration reconciler merging_client 4 for_a) quiet
      ((arrive for_b ∷ go 0 ∷ []) ∷ (write ∷ go 0 ∷ []) ∷ (go 0 ∷ []) ∷ [] ∷ (go 0 ∷ []) ∷ [])

names_b : dependencies reconciler merging_client chain (requested for_a) ≡ ok (b ∷ [])
unfolding dependencies fetch_meta find extract_targets lookup split trim_space new_target
    parse_target_ref
names_b = refl

Amid-RestartsOnly_example :
    AllOf
      (RestartsOnly merging_client (b ∷ []) (
        check_cycle reconciler merging_client chain 4 (target_id (requested for_a)) (b ∷ [])
        ≡ no_cycle))
      called.own
Amid-RestartsOnly_example =
    Amid-RestartsOnly parse_duration reconciler merging_client 4 merging_client-IsMerging unlisted
      Settles (settle-graph reconciler) for_a quiet called.last called.own called.answer (b ∷ [])
      (world, start) names_b called.amid

Amid-finished_example : called.answer ≢ unfinished
unfolding patch_merging dependencies fetch_meta
Amid-finished_example =
    Amid-finished parse_duration reconciler merging_client 4 merging_client-IsMerging unlisted
      Settles (settle-graph reconciler) for_a quiet called.last called.own called.answer
      (ids_of chain) (world, start) (cluster_Covers reconciler chain) (omega arith) called.amid

-- The call restarts b.
called_restarts :
    restarted_at (look merging_client called.last.world.state b)
    ≡ some (codes "2026-01-01T00:00:00Z")
unfolding amid_run run check_cycle_program target_id generate_id extract_targets lookup split
    trim_space new_target parse_target_ref contains find fetch_meta dependencies
    detect_cycle_program reconcile_program has_annotation patch_workload_annotation patch_merging
    insert workload_id deployment_stable delete_workload_annotation patch_pod_template_annotation
called_restarts = refl
