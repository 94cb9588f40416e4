-- ===== src/Stepwise/Alone/Reloads.antt =====
-- internal/targets and triggerReloads of internal/controller, when nobody interrupts.
use cascader.Common.{
  ℕ, ◌+◌, ◌≡◌, refl, ap, ◌∙◌, inl, inr, Text, Option, some, Option-cases, List, [], ◌∷◌,
  if◌then◌else◌,
}
use cascader.Errors.{Error, Result, ok, err, fetch_target_failed}
use cascader.Kinds.{Kind, deployment_kind, stateful_set_kind, daemon_set_kind}
use cascader.Flags.{last_observed_restart_annotation}
use cascader.Client.{Client, Resource}
use cascader.Utils.Patches.{Annotated, patch_pod_template_annotation}
use cascader.Targets.{
  Target, deployment_target, stateful_set_target, daemon_set_target, patch_restart, trigger_restart,
  trigger, deployment_trigger, stateful_set_trigger, daemon_set_trigger, deployment_template,
  stateful_set_template, daemon_set_template,
}
use cascader.Processes.{run_alone}
use cascader.Processes.Running.{run_alone_then}
use cascader.Controller.Reconcile.{World, reload_target, trigger_reloads}
use cascader.Stepwise.Reloads.{
  restart_at, restart_fetched, restart_program, trigger_program, report_reload,
  trigger_reloads_program,
}

module _ (c : Client) {O : Type 0} (resource : Resource c.State O) (template : Annotated O)
    (kind : Kind) (namespace name : Text) where
  restart_at-patch_restart :
      (object : O) (s : c.State)
      → restart_at c resource template kind namespace name (c.now s) object s
        ≡ patch_restart c resource template kind namespace name s object
  unfolding restart_at patch_restart
  restart_at-patch_restart object s =
      elim (Option-cases
        (patch_pod_template_annotation resource template s object last_observed_restart_annotation
          (c.now s)).2) [
            | inl e ↦ rw (e, patch_restart, restart_at) refl
            | inr (x, e) ↦ rw (e, patch_restart, restart_at) refl
          ]

  restart_fetched_alone :
      (fetched : Result O) (world : World c.State)
      → run_alone (restart_fetched c resource template kind namespace name fetched) world ≡ (
          let (s, failure) : c.State × Option Error = elim fetched [
            | err e ↦ (world.state, some (fetch_target_failed kind namespace name e))
            | ok object ↦ patch_restart c resource template kind namespace name world.state object
          ] in
          (record world { state = s }, failure))
  unfolding run_alone restart_fetched
  restart_fetched_alone (err e) world = refl
  restart_fetched_alone (ok object) world =
      ap (λ x. (record world { state = x.0 }, x.1)) (restart_at-patch_restart object world.state)

  restart_program_alone :
      (world : World c.State)
      → let (s, failure) = trigger_restart c resource template kind namespace name world.state in
        run_alone (restart_program c resource template kind namespace name) world
        ≡ (record world { state = s }, failure)
  unfolding run_alone restart_program trigger_restart
  restart_program_alone world =
      restart_fetched_alone (resource.get world.state namespace name) world

module _ (c : Client) where
  trigger_program_alone :
      (t : Target) (world : World c.State)
      → let (s, failure) = trigger c t world.state in
        run_alone (trigger_program c t) world ≡ (record world { state = s }, failure)
  unfolding trigger trigger_program deployment_trigger stateful_set_trigger daemon_set_trigger
  trigger_program_alone (deployment_target namespace name) world =
      restart_program_alone c c.deployments deployment_template deployment_kind namespace name world
  trigger_program_alone (stateful_set_target namespace name) world =
      restart_program_alone c c.stateful_sets stateful_set_template stateful_set_kind namespace name
        world
  trigger_program_alone (daemon_set_target namespace name) world =
      restart_program_alone c c.daemon_sets daemon_set_template daemon_set_kind namespace name world

  report_reload_alone :
      (id : Text) (t : Target) (world : World c.State)
      → let (s, failure) = trigger c t world.state in
        run_alone (report_reload c id t failure) (record world { state = s })
        ≡ reload_target c id t world
  unfolding run_alone report_reload reload_target
  report_reload_alone id t world = elim (Option-cases (trigger c t world.state).1) [
    | inl e ↦ rw (e, report_reload, reload_target) refl
    | inr (x, e) ↦ rw (e, report_reload, reload_target) refl
  ]

  pub trigger_reloads_program_alone :
      (id : Text) (ts : List Target) (world : World c.State) (succeeded failed : ℕ)
      → let (world', m, n) = trigger_reloads c id ts world succeeded failed in
        run_alone (trigger_reloads_program c id ts succeeded failed) world ≡ (world', (m, n))
  unfolding run_alone trigger_reloads_program trigger_reloads
  trigger_reloads_program_alone id [] world succeeded failed = refl
  trigger_reloads_program_alone id (t ∷ ts) world succeeded failed =
      let (s, failure) = trigger c t world.state in
      run_alone_then (trigger_program c t) _ world (trigger_program_alone t world)
      ∙ run_alone_then (report_reload c id t failure)
          (λ made.
            trigger_reloads_program c id ts (if made then succeeded + 1 else succeeded)
              (if made then failed else failed + 1))
          (record world { state = s }) (report_reload_alone id t world)
      ∙ trigger_reloads_program_alone id ts _ _ _
