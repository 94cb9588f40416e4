-- ===== src/Controller/Reconcile/Gauges.antt =====
-- internal/controller/base_reconciler.go: the gauges of a workload after ReconcileWorkload.
use cascader.Common.{
  ℕ, ℤ, ◌≡◌, refl, sym, ap, ◌∙◌, Text, codes, Bool-cases, inl, inr, true, false, Option, none, some,
  List, [], ◌∷◌, length,
}
use cascader.Errors.{Error, ok, cycle}
use cascader.Client.{Client, Resource}
use cascader.Workloads.{Workload, Verdict, panics, verdict, workload_id}
use cascader.Targets.{Target}
use cascader.Metrics.{
  Labels, Calls, cycle_none, cycle_detected, cycle_value, set_dependency_cycle_detected, warning,
  cycle_note,
}
use cascader.Metrics.Gauges.{
  gauges, gauges-append, gauges-set_dependency_cycle_detected, gauges-set_workload_targets,
  gauges-record_event,
}
use cascader.Controller.{BaseReconciler, has_annotation}
use cascader.Controller.Extract.{extract_targets}
use cascader.Controller.Cycles.{Check, no_cycle, refused, undecided, check_cycle}
use cascader.Controller.Reconcile.{
  World, Reply, Outcome, returned, mark_observed, clear_observed, reload_all, report_refusal,
  on_verdict, on_check, on_targets, on_marked, reconcile_workload, workload_labels,
}
use cascader.Controller.Reconcile.Reloads.{report, reports, attempts, trigger_reloads_lem}

-- The gauge for a cycle after the check, from its value before: an error that is not a cycle leaves
-- it as it was.
abbrev pub checked : Option ℕ → Check → Option ℕ
checked v no_cycle = some 0
checked v (refused (cycle e)) = some 1
checked v _ = v

-- Both gauges, for the targets of the workload.
abbrev pub settled : Option ℕ × Option ℕ → List Target → Check → Option ℕ × Option ℕ
settled (v, _) [] k = (v, some 0)
settled (v, _) (t ∷ ts) k = (checked v k, some (length (t ∷ ts)))

module _ (labels : Labels) where
  gauges-reports :
      (v : Option ℕ × Option ℕ) (id : Text) (tried : List (Target × Option Error))
      → gauges labels v (reports id tried) ≡ v
  gauges-reports v id [] = refl
  gauges-reports v id ((t, none) ∷ rest) =
      gauges-append labels v (report id (t, none)) (reports id rest) ∙ gauges-reports v id rest
  gauges-reports v id ((t, some e) ∷ rest) =
      gauges-append labels v (report id (t, some e)) (reports id rest) ∙ gauges-reports v id rest

  gauges-report_refusal :
      (v : Option ℕ × Option ℕ) (id : Text) (e : Error) (calls : Calls)
      → gauges labels v (report_refusal id labels e calls)
        ≡ (checked (gauges labels v calls).0 (refused e), (gauges labels v calls).1)
  unfolding report_refusal cycle_value
  gauges-report_refusal v id (cycle e) calls =
      gauges-record_event labels v id warning (codes "CycleDetected") (codes "CheckDependencyCycle")
        (cycle_note e.path) (set_dependency_cycle_detected labels cycle_detected calls)
      ∙ gauges-set_dependency_cycle_detected labels v cycle_detected calls
  gauges-report_refusal v id _ calls = refl

module _ (parse_duration : Text → Option ℤ) (b : BaseReconciler) (c : Client) {O : Type 0}
    (resource : Resource c.State O) (w : Workload O) where
  returned-calls :
      {world final : World c.State} {answer reply : Reply}
      → ◌≡◌ {A = Outcome c.State} (returned world answer) (returned final reply)
      → final.calls ≡ world.calls
  returned-calls {world} {final} h = let same : final ≡ world = cc in ap (λ x. x.calls) same

  mark_observed-calls :
      (world : World c.State) (object : O)
      → (mark_observed b c resource w world object).0.calls ≡ world.calls
  unfolding mark_observed
  mark_observed-calls world object =
      elim (Bool-cases
        (has_annotation (w.annotated.get_annotations object) b.last_observed_restart_annotation)) [
          | inl marked ↦ rw (marked, mark_observed) refl
          | inr fresh ↦ rw (fresh, mark_observed) refl
        ]

  module _ (labels : Labels) (v : Option ℕ × Option ℕ) where
    on_verdict-gauges :
        (verdict' : Verdict) (targets : List Target) (world : World c.State) (object : O)
        (final : World c.State) (reply : Reply)
        → on_verdict parse_duration b c resource w verdict' targets world object
          ≡ returned final reply
        → gauges labels v final.calls ≡ gauges labels v world.calls
    unfolding on_verdict reload_all clear_observed
    on_verdict-gauges panics targets world object final reply h = absurd (cc)
    on_verdict-gauges (verdict false r) targets world object final reply h =
        ap (gauges labels v) (returned-calls h)
    on_verdict-gauges (verdict true r) targets world object final reply h =
        let (cleared, object') = clear_observed b c resource w world object in
        let id = workload_id w object' in
        let tried = attempts c cleared.state targets in
        ap (gauges labels v)
          (returned-calls h ∙ ap (λ x. x.0.calls) (trigger_reloads_lem c id targets cleared 0 0))
        ∙ gauges-append labels v world.calls (reports id tried)
        ∙ gauges-reports labels (gauges labels v world.calls) id tried

    on_check-gauges :
        (k : Check) (targets : List Target) (world : World c.State) (object : O)
        (final : World c.State) (reply : Reply)
        → on_check parse_duration b c resource w k labels targets world object
          ≡ returned final reply
        → gauges labels v final.calls
          ≡ (checked (gauges labels v world.calls).0 k, (gauges labels v world.calls).1)
    unfolding on_check cycle_value
    on_check-gauges undecided targets world object final reply h = absurd (cc)
    on_check-gauges (refused e) targets world object final reply h =
        ap (gauges labels v) (returned-calls h)
        ∙ gauges-report_refusal labels v (workload_id w object) e world.calls
    on_check-gauges no_cycle targets world object final reply h =
        on_verdict-gauges (w.stable object) targets _ object final reply h
        ∙ gauges-set_dependency_cycle_detected labels v cycle_none world.calls

    on_targets-gauges :
        (fuel : ℕ) (targets : List Target) (id : Text) (world : World c.State) (object : O)
        (final : World c.State) (reply : Reply)
        → on_targets parse_duration b c resource w fuel (ok targets) id labels world object
          ≡ returned final reply
        → gauges labels v final.calls
          ≡ settled
              (gauges labels v world.calls)
              targets
              (check_cycle b c world.state fuel id targets)
    unfolding on_targets
    on_targets-gauges fuel [] id world object final reply h =
        ap (gauges labels v) (returned-calls h) ∙ gauges-set_workload_targets labels v 0 world.calls
    on_targets-gauges fuel (t ∷ ts) id world object final reply h =
        let k = check_cycle b c world.state fuel id (t ∷ ts) in
        on_check-gauges k (t ∷ ts) _ object final reply h
        ∙ ap (λ g. (checked g.0 k, g.1))
            (gauges-set_workload_targets labels v (length (t ∷ ts)) world.calls)

  -- Where ReconcileWorkload marks the workload, extracts its targets and returns, the gauge for
  -- the targets of the workload then has their number. The gauge for a cycle is 0 if the check
  -- accepted the targets, and 1 if it reported a cycle; it keeps its value if there are no targets,
  -- or if the check failed with another error.
  pub reconcile_workload-gauges :
      (fuel : ℕ) (world world' final : World c.State) (object object' : O) (reply : Reply)
      (targets : List Target)
      → mark_observed b c resource w world object ≡ (world', object', none)
      → extract_targets b (w.get_meta object').namespace (w.annotated.get_annotations object')
        ≡ ok targets
      → reconcile_workload parse_duration b c resource w fuel world object ≡ returned final reply
      → (v : Option ℕ × Option ℕ)
      → let labels = workload_labels parse_duration b c resource w object in
        gauges labels v final.calls
        ≡ settled
            (gauges labels v world.calls)
            targets
            (check_cycle b c world'.state fuel (workload_id w object) targets)
  unfolding reconcile_workload on_marked
  reconcile_workload-gauges fuel world world' final object object' reply targets m x h v =
      let labels = workload_labels parse_duration b c resource w object in
      let id = workload_id w object in
      let k = check_cycle b c world'.state fuel id targets in
      let reached =
        sym (ap (λ r. on_targets parse_duration b c resource w fuel r id labels world' object') x)
        ∙ sym (ap (λ r. on_marked parse_duration b c resource w fuel r id labels) m)
        ∙ h in
      let same : world'.calls ≡ world.calls =
        sym (ap (λ r. r.0.calls) m) ∙ mark_observed-calls world object in
      on_targets-gauges labels v fuel targets id world' object' final reply reached
      ∙ ap (λ calls. settled (gauges labels v calls) targets k) same
