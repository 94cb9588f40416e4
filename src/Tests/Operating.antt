-- ===== src/Tests/Operating.antt =====
-- The reconcilers that Run sets up, at work on a small cluster.
use mathlib.Core.WellFounded.{Acc}
use cascader.Common.{◌≡◌, ◌≢◌, sym, ◌∙◌, refl, codes, [], ◌∷◌, contains, Option, none, some, Text}
use cascader.Dict.{lookup, insert}
use cascader.Strings.{split, trim_space}
use cascader.Utils.{generate_id, parse_target_ref}
use cascader.Utils.Patches.{
  patch_workload_annotation, delete_workload_annotation, patch_pod_template_annotation,
}
use cascader.Targets.{target_id, new_target, fetch_meta}
use cascader.Controller.{has_annotation}
use cascader.Controller.Extract.{extract_targets}
use cascader.Controller.Cycles.{dependencies}
use cascader.App.{annotation_kind_map}
use cascader.App.Operating.{run-overlap}
use cascader.Store.{look}
use cascader.Store.Merges.Restarts.{restarted_at}
use cascader.Workloads.{workload_id, deployment_stable}
use cascader.Stepwise.Cycles.{check_cycle_program, detect_cycle_program}
use cascader.Stepwise.Requests.{reconcile_program}
use cascader.Overlap.{Moment, Reloads, SetOffBy, start}
use cascader.Tests.{chain, find, cluster_Covers, ids_of}
use cascader.Tests.Reconciling.{parse_duration, world}
use cascader.Tests.Systems.{b}
use cascader.Tests.Options.{parser, version, args}
use cascader.Tests.Starting.{reconciler, no_error, never_asked, deployment_setup, set_up}
use cascader.Tests.Merging.{merging_client, merging_client-IsMerging, patch_merging}
use cascader.Tests.Schedules.{arrive, go, write, run, MadeRun, made_run}
use cascader.Tests.Settling.{Settles, settle, settle-graph}
use cascader.Tests.Overlapping.{for_a, for_b, quiet}

-- A call for a, with one for b and the status writer between its accesses, up to the patch that
-- restarts b.
abbrev patching : Option (
    MadeRun parse_duration reconciler merging_client 4 settle
      (reconcile_program parse_duration reconciler merging_client 4 for_a)
      quiet)
patching =
    made_run parse_duration reconciler merging_client 4 settle
      (reconcile_program parse_duration reconciler merging_client 4 for_a) quiet
      (arrive for_b ∷ go 0 ∷ [])
      ((write ∷ go 0 ∷ []) ∷ (go 0 ∷ []) ∷ [] ∷ [] ∷ [] ∷ [] ∷ [] ∷ [] ∷ [] ∷ [] ∷ [])

abbrev Patched : Type 0
Patched =
    MadeRun parse_duration reconciler merging_client 4 settle
      (reconcile_program parse_duration reconciler merging_client 4 for_a) quiet

-- Whether b has the restart annotation before and after the access.
abbrev seen_by : Option Patched → Option (Option Text × Option Text)
seen_by none = none
seen_by (some x) = some (
  restarted_at (look merging_client x.before.state b),
  restarted_at (look merging_client x.after.state b),
)

patching_seen : seen_by patching ≡ some (none, some (codes "2026-01-01T00:00:00Z"))
unfolding made_run run check_cycle_program target_id generate_id extract_targets lookup split
    trim_space new_target parse_target_ref contains find fetch_meta dependencies
    detect_cycle_program reconcile_program has_annotation patch_workload_annotation patch_merging
    insert annotation_kind_map workload_id deployment_stable delete_workload_annotation
    patch_pod_template_annotation
patching_seen = refl

changed :
    (x : Patched)
    → seen_by (some x) ≡ some (none, some (codes "2026-01-01T00:00:00Z"))
    → restarted_at (look merging_client x.after.state b)
      ≢ restarted_at (look merging_client x.before.state b)
changed x e same =
    let before : restarted_at (look merging_client x.before.state b) ≡ none = cc e in
    let after : restarted_at (look merging_client x.after.state b)
        ≡ some (codes "2026-01-01T00:00:00Z") =
      cc e in
    absurd (cc (sym after ∙ same ∙ before))

-- The reload that this access makes.
abbrev Reloaded : Type 0
Reloaded =
    (after : Moment merging_client) × Reloads parse_duration reconciler merging_client 4 Settles
      for_a quiet b after

unmade : seen_by none ≡ some (none, some (codes "2026-01-01T00:00:00Z")) → Reloaded
unmade e = absurd (cc e)

abbrev reloaded_by :
    (made : Option Patched)
    → seen_by made ≡ some (none, some (codes "2026-01-01T00:00:00Z"))
    → Reloaded
reloaded_by none e = unmade e
reloaded_by (some x) e = (x.last, (x.before, x.after, x.makes, changed x e))

abbrev reloaded : Reloaded
reloaded = reloaded_by patching patching_seen

run-overlap_example :
    Acc (SetOffBy parse_duration reconciler merging_client 4 Settles) (b, reloaded.0)
unfolding patch_merging dependencies fetch_meta
run-overlap_example =
    run-overlap no_error parser never_asked never_asked version args deployment_setup set_up
      parse_duration merging_client 4 Settles merging_client-IsMerging (settle-graph reconciler)
      for_a quiet reloaded.0 (ids_of chain) b (world, start) (cluster_Covers reconciler chain)
      reloaded.1
