-- ===== src/Stepwise/Marks.antt =====
-- internal/controller: what any access of a reconciler may change of the cluster, whatever others
-- have changed before it.
pub mod Reloads
use cascader.Common.{ℕ, ℤ, refl, subst, sym, Text, true, false, Option, none, some, List, [], ◌∷◌}
use cascader.Errors.{Error, Result, ok, err, api_not_found}
use cascader.Flags.{last_observed_restart_annotation}
use cascader.Objects.{Annotations}
use cascader.Client.{Client, Resource}
use cascader.Utils.Patches.{patch_workload_annotation, delete_workload_annotation, send_patch}
use cascader.Workloads.{
  Workload, Verdict, panics, verdict, deployment_workload, stateful_set_workload,
  daemon_set_workload,
}
use cascader.Targets.{Target, deployment_target, stateful_set_target, daemon_set_target}
use cascader.Metrics.{Labels}
use cascader.Processes.Guarantees.{Within, within_rules}
use cascader.Controller.{BaseReconciler}
use cascader.Controller.Cycles.{Check, no_cycle, refused, undecided}
use cascader.Store.{View, Presents, deployment_view, stateful_set_view, daemon_set_view}
use cascader.Store.Graph.{AgreeBut, put_annotation-AgreeBut, delete_annotation-AgreeBut}
use cascader.Store.Runs.{OnlyMarks, Keeps}
use cascader.Store.Merges.{Merges, IsMerging, send_patch-Keeps}
use cascader.System.Graph.{deployment-Presents, stateful_set-Presents, daemon_set-Presents}
use cascader.Stepwise.Cycles.Reads.{check_cycle_program-Within}
use cascader.Stepwise.Requests.{
  mark_at, mark_program, clear_at, reload_program, verdict_program, check_program, targets_program,
  marked_program, workload_program, fetched_program, Request, deployment_request,
  stateful_set_request, daemon_set_request, request_program, reconcile_program,
}
use cascader.Stepwise.Marks.Reloads.{
  KeepsWorld, idle, trigger_reloads_program-Within, report_cycle-Within,
}

module _ (parse_duration : Text → Option ℤ) (b : BaseReconciler) (c : Client)
    (laws : IsMerging c) where
  abbrev mark : Text
  mark = b.last_observed_restart_annotation

  module _ {O : Type 0} (resource : Resource c.State O) (view : O → View)
      (key : Text → Text → Target) (merges : Merges c resource view key) (w : Workload O)
      (presents : Presents view w) where
    annotations_sent-Keeps :
        (s : c.State) (object : O) (m : Annotations) (wrap : Error → Error)
        → AgreeBut mark m (w.annotated.get_annotations object)
        → Keeps mark c s
            (send_patch resource s object (w.annotated.set_annotations m object) wrap).0
    annotations_sent-Keeps s object m wrap agree =
        let only : OnlyMarks mark (some (view object))
            (some (record (view object) { annotations = m })) =
          (
            refl,
            refl,
            refl,
            subst (AgreeBut mark m) (presents.annotations_of object) agree,
            refl,
            λ j _. refl,
          ) in
        send_patch-Keeps mark c resource view key merges s object
          (w.annotated.set_annotations m object) wrap
          (subst (λ v. OnlyMarks mark (some (view object)) (some v))
            (sym (presents.annotated m object)) only)

    pub mark_at-Keeps :
        (now : Text) (object : O) (s : c.State)
        → Keeps mark c s (mark_at b c resource w now object s).0
    unfolding mark_at patch_workload_annotation
    mark_at-Keeps now object s =
        annotations_sent-Keeps s object _ _
          (put_annotation-AgreeBut mark now (w.annotated.get_annotations object))

    pub clear_at-Keeps :
        (object : O) (s : c.State) → Keeps mark c s (clear_at b c resource w object s).0
    unfolding clear_at delete_workload_annotation
    clear_at-Keeps object s =
        annotations_sent-Keeps s object _ _
          (delete_annotation-AgreeBut mark (w.annotated.get_annotations object))

    pub mark_program-Within :
        (object : O) → Within (KeepsWorld c mark) (mark_program b c resource w object)
    unfolding mark_program
    mark_program-Within object = search (within_rules, idle c mark, mark_at-Keeps)

    pub reload_program-Within :
        (targets : List Target) (object : O)
        → Within (KeepsWorld c mark) (reload_program b c resource w targets object)
    unfolding reload_program
    reload_program-Within targets object =
        search (within_rules, clear_at-Keeps, trigger_reloads_program-Within c mark laws)

    verdict_program-Within :
        (v : Verdict) (targets : List Target) (object : O)
        → Within
            (KeepsWorld c mark)
            (verdict_program parse_duration b c resource w v targets object)
    unfolding verdict_program
    verdict_program-Within panics targets object = search within_rules
    verdict_program-Within (verdict true r) targets object = reload_program-Within targets object
    verdict_program-Within (verdict false r) targets object = search within_rules

    check_program-Within :
        (x : Check) (labels : Labels) (targets : List Target) (object : O)
        → Within
            (KeepsWorld c mark)
            (check_program parse_duration b c resource w x labels targets object)
    unfolding check_program
    check_program-Within undecided labels targets object = search within_rules
    check_program-Within (refused e) labels targets object =
        search (within_rules, report_cycle-Within c mark)
    check_program-Within no_cycle labels targets object =
        search (within_rules, idle c mark, verdict_program-Within)

    targets_program-Within :
        (fuel : ℕ) (answer : Result (List Target)) (id : Text) (labels : Labels) (object : O)
        → Within
            (KeepsWorld c mark)
            (targets_program parse_duration b c resource w fuel answer id labels object)
    unfolding targets_program
    targets_program-Within fuel (err e) id labels object = search within_rules
    targets_program-Within fuel (ok []) id labels object = search (within_rules, idle c mark)
    targets_program-Within fuel (ok (t ∷ ts)) id labels object = search (
      within_rules,
      idle c mark,
      check_program-Within,
      check_cycle_program-Within b c (KeepsWorld c mark) (idle c mark),
    )

    marked_program-Within :
        (fuel : ℕ) (marked : O × Option Error) (id : Text) (labels : Labels)
        → Within
            (KeepsWorld c mark)
            (marked_program parse_duration b c resource w fuel marked id labels)
    unfolding marked_program
    marked_program-Within fuel (object, some e) id labels = search within_rules
    marked_program-Within fuel (object, none) id labels =
        targets_program-Within fuel _ id labels object

    fetched_program-Within :
        (fuel : ℕ) (fetched : Result O)
        → Within (KeepsWorld c mark) (fetched_program parse_duration b c resource w fuel fetched)
    unfolding fetched_program workload_program
    fetched_program-Within fuel (ok object) =
        search (within_rules, mark_program-Within, marked_program-Within)
    fetched_program-Within fuel (err api_not_found) = search within_rules
    fetched_program-Within fuel (err _) = search within_rules

    request_program-Within :
        (fuel : ℕ) (namespace name : Text)
        → Within
            (KeepsWorld c mark)
            (request_program parse_duration b c fuel resource w namespace name)
    unfolding request_program
    request_program-Within fuel namespace name =
        search (within_rules, idle c mark, fetched_program-Within)

  -- Whatever the others do between its accesses, each access of a call of a reconciler changes
  -- nothing of the cluster but the two annotations.
  pub reconcile_program-Within :
      (fuel : ℕ) (r : Request)
      → Within (KeepsWorld c mark) (reconcile_program parse_duration b c fuel r)
  unfolding reconcile_program
  reconcile_program-Within fuel (deployment_request namespace name) =
      request_program-Within c.deployments deployment_view deployment_target laws.deployments
        deployment_workload deployment-Presents fuel namespace name
  reconcile_program-Within fuel (stateful_set_request namespace name) =
      request_program-Within c.stateful_sets stateful_set_view stateful_set_target
        laws.stateful_sets stateful_set_workload stateful_set-Presents fuel namespace name
  reconcile_program-Within fuel (daemon_set_request namespace name) =
      request_program-Within c.daemon_sets daemon_set_view daemon_set_target laws.daemon_sets
        daemon_set_workload daemon_set-Presents fuel namespace name
