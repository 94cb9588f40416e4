-- ===== src/Stepwise/Endings.antt =====
-- internal/controller: a call does not run out of fuel, whatever others do between its accesses, as
-- long as they leave the dependencies as they are.
use cascader.Common.{
  ℕ, ℤ, ◌≡◌, refl, ◌∙◌, ◌≢◌, Text, true, false, Option, none, some, List, [], ◌∷◌, length,
}
use cascader.Errors.{Error, Result, ok, err, api_not_found}
use cascader.Dict.{lookup}
use cascader.Client.{Client, Resource}
use cascader.Workloads.{
  Workload, workload_id, Verdict, panics, verdict, deployment_workload, stateful_set_workload,
  daemon_set_workload,
}
use cascader.Targets.{Target, deployment_target, stateful_set_target, daemon_set_target}
use cascader.Metrics.{Labels, cycle_none, set_dependency_cycle_detected, set_workload_targets}
use cascader.Processes.{done, ◌>>=◌}
use cascader.Processes.Guarantees.{Within, Gives, Gives-bind, Within-Gives, Within-act, Within-ask}
use cascader.Controller.{BaseReconciler}
use cascader.Controller.Cycles.{Check, no_cycle, refused, undecided, check_cycle}
use cascader.Controller.Reconcile.{World, finished}
use cascader.Store.{View, look, Presents, deployment_view, stateful_set_view, daemon_set_view}
use cascader.Store.Graph.{SameGraph}
use cascader.Store.Merges.{Merges, IsMerging}
use cascader.System.Graph.{
  OnlyMarks-links_of, deployment-Presents, stateful_set-Presents, daemon_set-Presents,
}
use cascader.Stepwise.{Program, Ending, replied, unfinished, asking, telling, calling}
use cascader.Stepwise.Cycles.{check_cycle_program}
use cascader.Stepwise.Verdicts.{AnyErrors, graph-SameTargets, SameCheck, check_cycle_program-Gives}
use cascader.Stepwise.Marks.{mark_program-Within, clear_at-Keeps}
use cascader.Stepwise.Marks.Reloads.{
  KeepsWorld, idle, trigger_reloads_program-Within, report_cycle-Within,
}
use cascader.Stepwise.Reloads.{trigger_reloads_program}
use cascader.Stepwise.Requests.{
  report_cycle, mark_program, clear_at, reload_program, verdict_program, check_program,
  targets_program, marked_program, workload_program, fetched_program, Request, deployment_request,
  stateful_set_request, daemon_set_request, request_program, reconcile_program,
}

undecided-eq : (x y : Check) → SameCheck AnyErrors x y → x ≡ undecided → y ≡ undecided
undecided-eq x _ SameCheck.same_check h = h
undecided-eq _ _ (SameCheck.both_fail r) h = absurd (cc)

module _ (parse_duration : Text → Option ℤ) (b : BaseReconciler) (c : Client) (laws : IsMerging c)
    (unlisted : lookup b.last_observed_restart_annotation b.annotation_kind_map ≡ none)
    (world : World c.State) (fuel : ℕ)
    (decided : (id : Text) (ts : List Target)
      → check_cycle b c world.state fuel id ts ≢ undecided) where
  abbrev mark : Text
  mark = b.last_observed_restart_annotation

  -- The program ends in one of the other ways.
  abbrev Ends : Program c Ending → Type 0
  Ends p = Gives (SameGraph b c world) (λ _ _. Unit) (λ ending. ending ≢ unfinished) p

  -- A part of a call that ends in no way of its own.
  part :
      {A : Type 0} (p : Program c A) (f : A → Program c Ending)
      → Within (KeepsWorld c mark) p
      → ((a : A) → Ends (f a))
      → Ends (p >>= f)
  part p f kept ends =
      Gives-bind {P = λ _. Unit} p f
        (Within-Gives p
          (λ w w' same i t.
            OnlyMarks-links_of b unlisted (look c w.state t) (look c w'.state t) (same t) ∙ i t)
          kept)
        (λ a _. ends a)

  module _ {O : Type 0} (resource : Resource c.State O) (view : O → View)
      (key : Text → Text → Target) (merges : Merges c resource view key) (w : Workload O)
      (presents : Presents view w) where
    verdict_program-Ends :
        (v : Verdict) (targets : List Target) (object : O)
        → Ends (verdict_program parse_duration b c resource w v targets object)
    unfolding verdict_program reload_program
    verdict_program-Ends panics targets object = Gives.at_end (λ h. cc)
    verdict_program-Ends (verdict true r) targets object =
        part (calling c (clear_at b c resource w object))
          (λ object'. trigger_reloads_program c (workload_id w object') targets 0 0 >>= λ counts.
            done (replied finished))
          (Within-act _ (λ v.
            clear_at-Keeps parse_duration b c laws resource view key merges w presents object
              v.state))
          (λ object'.
            part (trigger_reloads_program c (workload_id w object') targets 0 0)
              (λ counts. done (replied finished))
              (trigger_reloads_program-Within c mark laws (workload_id w object') targets 0 0)
              (λ _. Gives.at_end (λ h. cc)))
    verdict_program-Ends (verdict false r) targets object = Gives.at_end (λ h. cc)

    check_program-Ends :
        (x : Check) (labels : Labels) (targets : List Target) (object : O)
        → x ≢ undecided
        → Ends (check_program parse_duration b c resource w x labels targets object)
    unfolding check_program
    check_program-Ends undecided labels targets object h = absurd (h refl)
    check_program-Ends (refused e) labels targets object h =
        part (report_cycle c (workload_id w object) labels e) (λ _. done (replied finished))
          (report_cycle-Within c mark _ labels e) (λ _. Gives.at_end (λ h. cc))
    check_program-Ends no_cycle labels targets object h =
        part (telling c (set_dependency_cycle_detected labels cycle_none))
          (λ _. verdict_program parse_duration b c resource w (w.stable object) targets object)
          (Within-act _ (idle c mark)) (λ _. verdict_program-Ends (w.stable object) targets object)

    targets_program-Ends :
        (answer : Result (List Target)) (id : Text) (labels : Labels) (object : O)
        → Ends (targets_program parse_duration b c resource w fuel answer id labels object)
    unfolding targets_program
    targets_program-Ends (err e) id labels object = Gives.at_end (λ h. cc)
    targets_program-Ends (ok []) id labels object =
        part (telling c (set_workload_targets labels 0)) (λ _. done (replied finished))
          (Within-act _ (idle c mark)) (λ _. Gives.at_end (λ h. cc))
    targets_program-Ends (ok (t ∷ ts)) id labels object =
        part (telling c (set_workload_targets labels (length (t ∷ ts))))
          (λ _. check_cycle_program b c fuel id (t ∷ ts) >>= λ answer.
            check_program parse_duration b c resource w answer labels (t ∷ ts) object)
          (Within-act _ (idle c mark))
          (λ _.
            Gives-bind (check_cycle_program b c fuel id (t ∷ ts))
              (λ answer. check_program parse_duration b c resource w answer labels (t ∷ ts) object)
              (check_cycle_program-Gives b c AnyErrors (SameGraph b c world) (λ _ _. Unit) (λ _. tt)
                world.state (λ v same u. graph-SameTargets b c world.state v.state u (same u)) fuel
                id (t ∷ ts))
              (λ answer same.
                check_program-Ends answer labels (t ∷ ts) object
                  (λ h. decided id (t ∷ ts) (undecided-eq answer _ same h))))

    marked_program-Ends :
        (marked : O × Option Error) (id : Text) (labels : Labels)
        → Ends (marked_program parse_duration b c resource w fuel marked id labels)
    unfolding marked_program
    marked_program-Ends (object, some e) id labels = Gives.at_end (λ h. cc)
    marked_program-Ends (object, none) id labels = targets_program-Ends _ id labels object

    fetched_program-Ends :
        (fetched : Result O) → Ends (fetched_program parse_duration b c resource w fuel fetched)
    unfolding fetched_program workload_program
    fetched_program-Ends (err api_not_found) = Gives.at_end (λ h. cc)
    fetched_program-Ends (err _) = Gives.at_end (λ h. cc)
    fetched_program-Ends (ok object) =
        let labels : Labels = ((w.get_meta object).namespace, (w.get_meta object).name, w.kind) in
        part (mark_program b c resource w object)
          (λ marked.
            marked_program parse_duration b c resource w fuel marked (workload_id w object) labels)
          (mark_program-Within parse_duration b c laws resource view key merges w presents object)
          (λ marked. marked_program-Ends marked (workload_id w object) labels)

    request_program-Ends :
        (namespace name : Text)
        → Ends (request_program parse_duration b c fuel resource w namespace name)
    unfolding request_program
    request_program-Ends namespace name =
        part (asking c (λ s. resource.get s namespace name))
          (fetched_program parse_duration b c resource w fuel) (Within-ask _ (idle c mark))
          fetched_program-Ends

  pub reconcile_program-Ends : (r : Request) → Ends (reconcile_program parse_duration b c fuel r)
  unfolding reconcile_program
  reconcile_program-Ends (deployment_request namespace name) =
      request_program-Ends c.deployments deployment_view deployment_target laws.deployments
        deployment_workload deployment-Presents namespace name
  reconcile_program-Ends (stateful_set_request namespace name) =
      request_program-Ends c.stateful_sets stateful_set_view stateful_set_target laws.stateful_sets
        stateful_set_workload stateful_set-Presents namespace name
  reconcile_program-Ends (daemon_set_request namespace name) =
      request_program-Ends c.daemon_sets daemon_set_view daemon_set_target laws.daemon_sets
        daemon_set_workload daemon_set-Presents namespace name
