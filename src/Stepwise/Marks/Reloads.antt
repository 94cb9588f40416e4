-- ===== src/Stepwise/Marks/Reloads.antt =====
-- internal/targets and triggerReloads of internal/controller: what their accesses change.
use cascader.Common.{ℕ, refl, subst, sym, Text, Option, none, some, List, [], ◌∷◌}
use cascader.Errors.{Error, Result, ok, err, cycle}
use cascader.Kinds.{Kind}
use cascader.Flags.{last_observed_restart_annotation}
use cascader.Client.{Client, Resource}
use cascader.Utils.Patches.{Annotated, put_annotation, patch_pod_template_annotation}
use cascader.Targets.{
  Target, deployment_target, stateful_set_target, daemon_set_target, deployment_template,
  stateful_set_template, daemon_set_template,
}
use cascader.Metrics.{Labels}
use cascader.Processes.Guarantees.{Within, within_rules}
use cascader.Controller.Reconcile.{World}
use cascader.Store.{View, look, Templates, deployment_view, stateful_set_view, daemon_set_view}
use cascader.Store.Triggers.{deployment-Templates, stateful_set-Templates, daemon_set-Templates}
use cascader.Store.Graph.{AgreeBut, put_annotation-AgreeBut}
use cascader.Store.Runs.{OnlyMarks, OnlyMarks-refl, Keeps}
use cascader.Store.Merges.{Merges, IsMerging, send_patch-Keeps}
use cascader.Stepwise.Reloads.{
  restart_at, restart_fetched, restart_program, trigger_program, report_reload,
  trigger_reloads_program,
}
use cascader.Stepwise.Requests.{report_cycle}

module _ (c : Client) (k : Text) where
  -- Nothing of the cluster is changed but the two annotations.
  abbrev pub KeepsWorld : World c.State → World c.State → Type 0
  KeepsWorld w w' = Keeps k c w.state w'.state

  pub idle : (w : World c.State) → KeepsWorld w w
  idle w t = OnlyMarks-refl k (look c w.state t)

  module _ {O : Type 0} (resource : Resource c.State O) (view : O → View)
      (key : Text → Text → Target) (merges : Merges c resource view key) (template : Annotated O)
      (templates : Templates view template) (kind : Kind) (namespace name : Text) where
    pub restart_at-Keeps :
        (now : Text) (object : O) (s : c.State)
        → Keeps k c s (restart_at c resource template kind namespace name now object s).0
    unfolding restart_at patch_pod_template_annotation
    restart_at-Keeps now object s =
        let m =
          put_annotation last_observed_restart_annotation now (template.get_annotations object) in
        let only : OnlyMarks k (some (view object)) (
            some (record (view object) {
              template = record ((view object).template) { annotations = m };
            })) =
          (
            refl,
            refl,
            refl,
            λ j _. refl,
            refl,
            subst (AgreeBut last_observed_restart_annotation m) (templates.annotations_of object) (
                put_annotation-AgreeBut last_observed_restart_annotation now
                  (template.get_annotations object)),
          ) in
        send_patch-Keeps k c resource view key merges s object (template.set_annotations m object) _
          (subst (λ v. OnlyMarks k (some (view object)) (some v))
            (sym (templates.annotated m object)) only)

    restart_fetched-Within :
        (fetched : Result O)
        → Within KeepsWorld (restart_fetched c resource template kind namespace name fetched)
    unfolding restart_fetched
    restart_fetched-Within (err e) = search within_rules
    restart_fetched-Within (ok object) = search (within_rules, idle, restart_at-Keeps)

    restart_program-Within :
        Within KeepsWorld (restart_program c resource template kind namespace name)
    unfolding restart_program
    restart_program-Within = search (within_rules, idle, restart_fetched-Within)

  module _ (laws : IsMerging c) where
    trigger_program-Within : (t : Target) → Within KeepsWorld (trigger_program c t)
    unfolding trigger_program
    trigger_program-Within (deployment_target namespace name) =
        restart_program-Within c.deployments deployment_view deployment_target laws.deployments
          deployment_template deployment-Templates _ namespace name
    trigger_program-Within (stateful_set_target namespace name) =
        restart_program-Within c.stateful_sets stateful_set_view stateful_set_target
          laws.stateful_sets stateful_set_template stateful_set-Templates _ namespace name
    trigger_program-Within (daemon_set_target namespace name) =
        restart_program-Within c.daemon_sets daemon_set_view daemon_set_target laws.daemon_sets
          daemon_set_template daemon_set-Templates _ namespace name

    report_reload-Within :
        (id : Text) (t : Target) (failure : Option Error)
        → Within KeepsWorld (report_reload c id t failure)
    unfolding report_reload
    report_reload-Within id t (some e) = search (within_rules, idle)
    report_reload-Within id t none = search (within_rules, idle)

    pub trigger_reloads_program-Within :
        (id : Text) (ts : List Target) (m n : ℕ)
        → Within KeepsWorld (trigger_reloads_program c id ts m n)
    unfolding trigger_reloads_program
    trigger_reloads_program-Within id [] m n = search within_rules
    trigger_reloads_program-Within id (t ∷ ts) m n = search (
      within_rules,
      trigger_program-Within,
      report_reload-Within,
      trigger_reloads_program-Within id ts,
    )

  pub report_cycle-Within :
      (id : Text) (labels : Labels) (e : Error) → Within KeepsWorld (report_cycle c id labels e)
  unfolding report_cycle
  report_cycle-Within id labels (cycle e) = search (within_rules, idle)
  report_cycle-Within id labels _ = search within_rules
