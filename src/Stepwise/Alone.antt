-- ===== src/Stepwise/Alone.antt =====
-- A call of a reconciler that nobody else interrupts.
pub mod Reloads
use cascader.Common.{
  ℕ, ℤ, ◌≡◌, refl, sym, ap, ◌∙◌, subst, inl, inr, Text, true, false, Option, none, some, Bool-cases,
  List, [], ◌∷◌,
}
use cascader.Errors.{Error, Result, ok, err, api_not_found, cycle, cycle_check_failed}
use cascader.Flags.{last_observed_restart_annotation}
use cascader.Client.{Client, Resource}
use cascader.Workloads.{
  Workload, Verdict, panics, verdict, deployment_workload, stateful_set_workload,
  daemon_set_workload,
}
use cascader.Targets.{Target}
use cascader.Metrics.{Labels}
use cascader.Processes.{run_alone}
use cascader.Processes.Running.{run_alone_then, run_alone-Gives}
use cascader.Controller.{BaseReconciler, has_annotation}
use cascader.Controller.Cycles.{Check, no_cycle, refused, undecided, check_cycle, dependencies}
use cascader.Controller.Reconcile.{
  World, Outcome, mark_observed, clear_observed, reload_all, report_refusal, on_verdict, on_check,
  on_targets, on_marked, reconcile_workload,
}
use cascader.Controller.Reconcilers.{
  reconcile_fetched, deployment_reconcile, stateful_set_reconcile, daemon_set_reconcile,
}
use cascader.Stepwise.{ended}
use cascader.Stepwise.Cycles.{check_cycle_program}
use cascader.Stepwise.Verdicts.{SameCheck, check_cycle_program-Gives, SameTargets}
use cascader.Stepwise.Reloads.{trigger_reloads_program}
use cascader.Stepwise.Requests.{
  report_cycle, mark_program, clear_at, reload_program, verdict_program, check_program,
  targets_program, marked_program, workload_program, fetched_program, Request, deployment_request,
  stateful_set_request, daemon_set_request, request_program, reconcile_program,
}
use cascader.Stepwise.Alone.Reloads.{trigger_reloads_program_alone}

module _ (b : BaseReconciler) (c : Client) {O : Type 0} (resource : Resource c.State O)
    (w : Workload O) where
  mark_program_alone :
      (object : O) (world : World c.State)
      → let (world', object', failure) = mark_observed b c resource w world object in
        run_alone (mark_program b c resource w object) world ≡ (world', (object', failure))
  unfolding run_alone mark_program mark_observed
  mark_program_alone object world =
      elim (Bool-cases
        (has_annotation (w.annotated.get_annotations object) b.last_observed_restart_annotation)) [
          | inl marked ↦ rw (marked, mark_program, mark_observed) refl
          | inr unmarked ↦ rw (unmarked, mark_program, mark_observed) refl
        ]

  reload_program_alone :
      (targets : List Target) (object : O) (world : World c.State)
      → run_alone (reload_program b c resource w targets object) world
        ≡ ended (reload_all b c resource w targets world object)
  unfolding run_alone reload_program reload_all clear_observed clear_at
  reload_program_alone targets object world =
      run_alone_then (trigger_reloads_program c _ targets 0 0) _ _
        (trigger_reloads_program_alone c _ targets _ 0 0)

report_cycle_alone :
    (c : Client) (id : Text) (labels : Labels) (e : Error) (world : World c.State)
    → run_alone (report_cycle c id labels e) world
      ≡ (record world { calls = report_refusal id labels e world.calls }, tt)
unfolding run_alone report_cycle report_refusal
report_cycle_alone c id labels (cycle e) world = refl
report_cycle_alone c id labels _ world = refl

check_cycle_program_alone :
    (b : BaseReconciler) (c : Client) (fuel : ℕ) (src_id : Text) (ts : List Target)
    (world : World c.State)
    → run_alone (check_cycle_program b c fuel src_id ts) world
      ≡ (world, check_cycle b c world.state fuel src_id ts)
check_cycle_program_alone b c fuel src_id ts world =
    let (unchanged, answer) =
      run_alone-Gives (check_cycle_program b c fuel src_id ts) world
        (check_cycle_program-Gives b c ◌≡◌ (λ w. w ≡ world) (λ _ _. Unit) (λ _. tt) world.state
          agree fuel src_id ts)
        refl in
    λ i. (unchanged i, SameCheck-eq answer i)
  where
    SameTargets-refl : (x : Result (List Target)) → SameTargets ◌≡◌ x x
    SameTargets-refl (ok ds) = SameTargets.same_targets
    SameTargets-refl (err e) = SameTargets.both_fail refl

    agree :
        (w : World c.State)
        → w ≡ world
        → (t : Target)
        → SameTargets ◌≡◌ (dependencies b c w.state t) (dependencies b c world.state t)
    agree w e t =
        subst (λ x. SameTargets ◌≡◌ (dependencies b c x.state t) (dependencies b c world.state t))
          (sym e) (SameTargets-refl (dependencies b c world.state t))

    SameCheck-eq : {x y : Check} → SameCheck ◌≡◌ x y → x ≡ y
    SameCheck-eq SameCheck.same_check = refl
    SameCheck-eq (SameCheck.both_fail r) = ap (λ e. refused (cycle_check_failed e)) r

module _ (parse_duration : Text → Option ℤ) (b : BaseReconciler) (c : Client) {O : Type 0}
    (resource : Resource c.State O) (w : Workload O) where
  verdict_program_alone :
      (v : Verdict) (targets : List Target) (object : O) (world : World c.State)
      → run_alone (verdict_program parse_duration b c resource w v targets object) world
        ≡ ended (on_verdict parse_duration b c resource w v targets world object)
  unfolding run_alone verdict_program on_verdict
  verdict_program_alone panics targets object world = refl
  verdict_program_alone (verdict true r) targets object world =
      reload_program_alone b c resource w targets object world
  verdict_program_alone (verdict false r) targets object world = refl

  check_program_alone :
      (x : Check) (labels : Labels) (targets : List Target) (object : O) (world : World c.State)
      → run_alone (check_program parse_duration b c resource w x labels targets object) world
        ≡ ended (on_check parse_duration b c resource w x labels targets world object)
  unfolding run_alone check_program on_check
  check_program_alone undecided labels targets object world = refl
  check_program_alone (refused e) labels targets object world =
      run_alone_then (report_cycle c _ labels e) _ world (report_cycle_alone c _ labels e world)
  check_program_alone no_cycle labels targets object world =
      verdict_program_alone (w.stable object) targets object _

  targets_program_alone :
      (fuel : ℕ) (answer : Result (List Target)) (id : Text) (labels : Labels) (object : O)
      (world : World c.State)
      → run_alone (targets_program parse_duration b c resource w fuel answer id labels object) world
        ≡ ended (on_targets parse_duration b c resource w fuel answer id labels world object)
  unfolding run_alone targets_program on_targets
  targets_program_alone fuel (err e) id labels object world = refl
  targets_program_alone fuel (ok []) id labels object world = refl
  targets_program_alone fuel (ok (t ∷ ts)) id labels object world =
      run_alone_then (check_cycle_program b c fuel id (t ∷ ts)) _ _
        (check_cycle_program_alone b c fuel id (t ∷ ts) _)
      ∙ check_program_alone _ labels (t ∷ ts) object _

  marked_program_alone :
      (fuel : ℕ) (object : O) (failure : Option Error) (id : Text) (labels : Labels)
      (world : World c.State)
      → run_alone
          (marked_program parse_duration b c resource w fuel (object, failure) id labels)
          world
        ≡ ended (on_marked parse_duration b c resource w fuel (world, object, failure) id labels)
  unfolding run_alone marked_program on_marked
  marked_program_alone fuel object none id labels world =
      targets_program_alone fuel _ id labels object world
  marked_program_alone fuel object (some e) id labels world = refl

  workload_program_alone :
      (fuel : ℕ) (object : O) (world : World c.State)
      → run_alone (workload_program parse_duration b c resource w fuel object) world
        ≡ ended (reconcile_workload parse_duration b c resource w fuel world object)
  unfolding workload_program reconcile_workload
  workload_program_alone fuel object world =
      run_alone_then (mark_program b c resource w object) _ world
        (mark_program_alone b c resource w object world)
      ∙ marked_program_alone fuel _ _ _ _ _

  fetched_program_alone :
      (fuel : ℕ) (fetched : Result O) (world : World c.State)
      → run_alone (fetched_program parse_duration b c resource w fuel fetched) world
        ≡ ended (reconcile_fetched parse_duration b c fuel resource w world fetched)
  unfolding run_alone fetched_program reconcile_fetched
  fetched_program_alone fuel (ok object) world = workload_program_alone fuel object world
  fetched_program_alone fuel (err api_not_found) world = refl
  fetched_program_alone fuel (err _) world = refl

module _ (parse_duration : Text → Option ℤ) (b : BaseReconciler) (c : Client) (fuel : ℕ) where
  -- Reconcile of the reconciler that the request is for.
  abbrev pub reconcile : Request → World c.State → Outcome c.State
  reconcile (deployment_request namespace name) =
      deployment_reconcile parse_duration b c fuel namespace name
  reconcile (stateful_set_request namespace name) =
      stateful_set_reconcile parse_duration b c fuel namespace name
  reconcile (daemon_set_request namespace name) =
      daemon_set_reconcile parse_duration b c fuel namespace name

  -- A call that nobody interrupts does what Reconcile of the model without interruptions does, for
  -- each of the three kinds and whatever the cluster answers: the cluster, the metrics, the events
  -- and the answer are the same.
  pub reconcile_program_alone :
      (r : Request) (world : World c.State)
      → run_alone (reconcile_program parse_duration b c fuel r) world ≡ ended (reconcile r world)
  unfolding run_alone reconcile_program request_program deployment_reconcile stateful_set_reconcile
      daemon_set_reconcile
  reconcile_program_alone (deployment_request namespace name) world =
      fetched_program_alone parse_duration b c c.deployments deployment_workload fuel _ world
  reconcile_program_alone (stateful_set_request namespace name) world =
      fetched_program_alone parse_duration b c c.stateful_sets stateful_set_workload fuel _ world
  reconcile_program_alone (daemon_set_request namespace name) world =
      fetched_program_alone parse_duration b c c.daemon_sets daemon_set_workload fuel _ world
