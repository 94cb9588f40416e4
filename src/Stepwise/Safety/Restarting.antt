-- ===== src/Stepwise/Safety/Restarting.antt =====
-- internal/targets and internal/controller/base_reconciler.go: what Trigger and triggerReloads
-- restart.
use cascader.Common.{
  ℕ, ◌≡◌, refl, sym, ap, ◌∙◌, subst, ◌⊎◌, inl, inr, Text, Option, none, some, List, [], ◌∷◌, Memᴰ,
}
use cascader.Errors.{Error, Result, ok, err}
use cascader.Dict.{lookup}
use cascader.Kinds.{Kind}
use cascader.Flags.{last_observed_restart_annotation}
use cascader.Client.{Client, Resource}
use cascader.Utils.Patches.{Annotated, put_annotation, patch_pod_template_annotation}
use cascader.Targets.{
  Target, deployment_target, stateful_set_target, daemon_set_target, deployment_template,
  stateful_set_template, daemon_set_template,
}
use cascader.Processes.Guarantees.{Gives, Gives-bind}
use cascader.Controller.{BaseReconciler}
use cascader.Controller.Reconcile.{World}
use cascader.Store.{View, look, Templates, deployment_view, stateful_set_view, daemon_set_view}
use cascader.Store.Triggers.{deployment-Templates, stateful_set-Templates, daemon_set-Templates}
use cascader.Store.Merges.{Merges, IsMerging}
use cascader.Store.Merges.Restarts.{restarted_at, send_patch_other}
use cascader.Stepwise.Marks.Reloads.{restart_at-Keeps}
use cascader.Stepwise.Reloads.{
  restart_at, restart_fetched, restart_program, trigger_program, report_reload,
  trigger_reloads_program,
}
use cascader.Stepwise.Safety.{Good, asking-Good, telling-Good, calling-Good}

module _ (b : BaseReconciler) (c : Client) (world : World c.State) (targets : List Target)
    (Accepted : Type 0)
    (unlisted : lookup b.last_observed_restart_annotation b.annotation_kind_map ≡ none) where
  module _ {O : Type 0} (resource : Resource c.State O) (view : O → View)
      (key : Text → Text → Target) (merges : Merges c resource view key) (template : Annotated O)
      (templates : Templates view template) (kind : Kind) (namespace name : Text)
      (listed : Memᴰ (key namespace name) targets) (accepted : Accepted) where
    restart_at-Allowed :
        (now : Text) (object : O) (s : c.State)
        → (view object).namespace ≡ namespace
        → (view object).name ≡ name
        → (t : Target)
        → (restarted_at
              (look c (restart_at c resource template kind namespace name now object s).0 t)
            ≡ restarted_at (look c s t))
          ⊎ (Memᴰ t targets × Accepted)
    unfolding restart_at patch_pod_template_annotation
    restart_at-Allowed now object s same_namespace same_name t =
        let m =
          put_annotation last_observed_restart_annotation now (template.get_annotations object) in
        let changed = templates.annotated m object in
        elim (send_patch_other c resource view key merges s object
          (template.set_annotations m object) _ (ap (λ v. v.namespace) changed)
          (ap (λ v. v.name) changed) t) [
            | inl same ↦ inl (ap restarted_at same)
            | inr e ↦
                let named : key namespace name ≡ t =
                  (λ i. key (sym same_namespace i) (sym same_name i)) ∙ sym e in
                inr (subst (λ u. Memᴰ u targets) named listed, accepted)
          ]

    restart_fetched-Good :
        (fetched : Result O)
        → ((object : O)
            → fetched ≡ ok object
            → ((view object).namespace ≡ namespace) × ((view object).name ≡ name))
        → Good b c world targets Accepted
            (λ _. Unit)
            (restart_fetched c resource template kind namespace name fetched)
    unfolding restart_fetched
    restart_fetched-Good (err e) h = Gives.at_end tt
    restart_fetched-Good (ok object) h =
        let (same_namespace, same_name) = h object refl in
        Gives-bind {P = λ _. Unit} _ _ (asking-Good b c world targets Accepted c.now (λ w i. tt))
          (λ now _.
            calling-Good b c world targets Accepted
              (restart_at c resource template kind namespace name now object) unlisted
              (restart_at-Keeps c b.last_observed_restart_annotation resource view key merges
                template templates kind namespace name now object)
              (λ s. restart_at-Allowed now object s same_namespace same_name) (λ s i. tt))

    restart_program-Good :
        Good b c world targets Accepted
          (λ _. Unit)
          (restart_program c resource template kind namespace name)
    unfolding restart_program
    restart_program-Good =
        Gives-bind
          {P = λ fetched.
            (object : O)
            → fetched ≡ ok object
            → ((view object).namespace ≡ namespace) × ((view object).name ≡ name)}
          _ _
          (asking-Good b c world targets Accepted (λ s. resource.get s namespace name)
            (λ w i object e. merges.named w.state namespace name object e))
          restart_fetched-Good

  module _ (laws : IsMerging c) (accepted : Accepted) where
    trigger_program-Good :
        (t : Target)
        → Memᴰ t targets
        → Good b c world targets Accepted (λ _. Unit) (trigger_program c t)
    unfolding trigger_program
    trigger_program-Good (deployment_target namespace name) listed =
        restart_program-Good c.deployments deployment_view deployment_target laws.deployments
          deployment_template deployment-Templates _ namespace name listed accepted
    trigger_program-Good (stateful_set_target namespace name) listed =
        restart_program-Good c.stateful_sets stateful_set_view stateful_set_target
          laws.stateful_sets stateful_set_template stateful_set-Templates _ namespace name listed
          accepted
    trigger_program-Good (daemon_set_target namespace name) listed =
        restart_program-Good c.daemon_sets daemon_set_view daemon_set_target laws.daemon_sets
          daemon_set_template daemon_set-Templates _ namespace name listed accepted

    report_reload-Good :
        (id : Text) (t : Target) (failure : Option Error)
        → Good b c world targets Accepted (λ _. Unit) (report_reload c id t failure)
    unfolding report_reload
    report_reload-Good id t (some e) = telling-Good b c world targets Accepted _ _ (Gives.at_end tt)
    report_reload-Good id t none =
        telling-Good b c world targets Accepted _ _
          (telling-Good b c world targets Accepted _ _ (Gives.at_end tt))

    pub trigger_reloads_program-Good :
        (id : Text) (ts : List Target) (m n : ℕ)
        → ((t : Target) → Memᴰ t ts → Memᴰ t targets)
        → Good b c world targets Accepted (λ _. Unit) (trigger_reloads_program c id ts m n)
    unfolding trigger_reloads_program
    trigger_reloads_program-Good id [] m n listed = Gives.at_end tt
    trigger_reloads_program-Good id (t ∷ ts) m n listed =
        Gives-bind _ _ (trigger_program-Good t (listed t (Memᴰ.head refl))) (λ failure _.
          Gives-bind _ _ (report_reload-Good id t failure)
            (λ made _. trigger_reloads_program-Good id ts _ _ (λ u h. listed u (Memᴰ.tail h))))
