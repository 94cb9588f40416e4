-- ===== src/Stepwise/Reloads.antt =====
-- internal/targets and internal/controller/base_reconciler.go: Trigger and triggerReloads, one
-- access at a time.
use cascader.Common.{
  ℕ, ◌+◌, Text, Bool, true, false, Option, none, some, List, [], ◌∷◌, codes, if◌then◌else◌,
}
use cascader.Errors.{Error, Result, ok, err, fetch_target_failed, patch_target_failed}
use cascader.Kinds.{Kind, deployment_kind, stateful_set_kind, daemon_set_kind}
use cascader.Flags.{last_observed_restart_annotation}
use cascader.Client.{Client, Resource}
use cascader.Utils.Patches.{Annotated, patch_pod_template_annotation}
use cascader.Targets.{
  Target, deployment_target, stateful_set_target, daemon_set_target, target_kind, target_namespace,
  target_name, deployment_template, stateful_set_template, daemon_set_template,
}
use cascader.Metrics.{
  normal, warning, failed_note, triggered_note, inc_restarts_performed, record_event,
}
use cascader.Processes.{done, ◌>>=◌, ◌>>◌}
use cascader.Stepwise.{Program, calling, asking, telling}

-- The error of a patch, wrapped with the target.
abbrev pub patch_failure : Kind → Text → Text → Option Error → Option Error
patch_failure kind namespace name none = none
patch_failure kind namespace name (some e) = some (patch_target_failed kind namespace name e)

module _ (c : Client) {O : Type 0} (resource : Resource c.State O) (template : Annotated O)
    (kind : Kind) (namespace name : Text) where
  -- The patch, at the time that was read before it.
  unfoldable pub restart_at : Text → O → c.State → c.State × Option Error
  restart_at now object s =
      let (s', _, failure) =
        patch_pod_template_annotation resource template s object last_observed_restart_annotation
          now in
      (s', patch_failure kind namespace name failure)

  -- After Get.
  unfoldable pub restart_fetched : Result O → Program c (Option Error)
  unfolding restart_at
  restart_fetched (err e) = done (some (fetch_target_failed kind namespace name e))
  restart_fetched (ok object) = do now ← asking c c.now; calling c (restart_at now object)

  unfoldable pub restart_program : Program c (Option Error)
  unfolding restart_fetched
  restart_program = do
    fetched ← asking c (λ s. resource.get s namespace name)
    restart_fetched fetched

module _ (c : Client) where
  -- The method Trigger of the three kinds of target.
  unfoldable pub trigger_program : Target → Program c (Option Error)
  unfolding restart_program
  trigger_program (deployment_target namespace name) =
      restart_program c c.deployments deployment_template deployment_kind namespace name
  trigger_program (stateful_set_target namespace name) =
      restart_program c c.stateful_sets stateful_set_template stateful_set_kind namespace name
  trigger_program (daemon_set_target namespace name) =
      restart_program c c.daemon_sets daemon_set_template daemon_set_kind namespace name

  -- What is told of one reload, and whether it was made.
  unfoldable pub report_reload : Text → Target → Option Error → Program c Bool
  report_reload id t (some e) = do
    telling c
        (record_event id warning (codes "ReloadFailed") (codes "TriggerReload") (failed_note id e))
    done false
  report_reload id t none = do
    telling c (inc_restarts_performed (target_namespace t, target_name t, target_kind t))
    telling c (
        record_event id normal (codes "ReloadSucceeded") (codes "TriggerReload")
          (triggered_note id))
    done true

  -- The loop of triggerReloads.
  unfoldable pub trigger_reloads_program : Text → List Target → ℕ → ℕ → Program c (ℕ × ℕ)
  unfolding trigger_program report_reload
  trigger_reloads_program id [] succeeded failed = done (succeeded, failed)
  trigger_reloads_program id (t ∷ ts) succeeded failed = do
    failure ← trigger_program t
    made ← report_reload id t failure
    trigger_reloads_program id ts (if made then succeeded + 1 else succeeded)
        (if made then failed else failed + 1)
