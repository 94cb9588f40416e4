-- ===== src/Stepwise/Tried.antt =====
-- internal/controller/base_reconciler.go: the attempts that a call makes, whatever others do between
-- its accesses.
pub mod Checked
pub mod Answers
pub mod Requested
use mathlib.Core.List.Memᴰ
use cascader.Common.{
  ℕ, ◌≡◌, refl, sym, subst, ◌⊎◌, inl, inr, Text, Option, none, some, List, [], ◌∷◌, ◌++◌, Memᴰ,
  codes,
}
use cascader.Errors.{
  Error, Result, Result-cases, ok, err, fetch_target_failed, patch_target_failed,
  patch_annotation_failed,
}
use cascader.Kinds.{Kind, deployment_kind, stateful_set_kind, daemon_set_kind}
use cascader.Flags.{last_observed_restart_annotation}
use cascader.Client.{Client, Resource}
use cascader.Utils.Patches.{Annotated, put_annotation, send_patch, patch_pod_template_annotation}
use cascader.Targets.{
  Target, deployment_target, stateful_set_target, daemon_set_target, target_kind, target_namespace,
  target_name, deployment_template, stateful_set_template, daemon_set_template,
}
use cascader.Metrics.{warning, failed_note, inc_restarts_performed, record_event}
use cascader.Processes.Traces.{
  Traced, Traced-bind, Traced-weaken, SomeOf, SomeOf-append_left, SomeOf-append_right,
}
use cascader.Controller.Reconcile.{World}
use cascader.Stepwise.Reloads.{
  patch_failure, restart_at, restart_fetched, restart_program, trigger_program, report_reload,
  trigger_reloads_program,
}

module _ (c : Client) {O : Type 0} (resource : Resource c.State O) (template : Annotated O)
    (kind : Kind) (namespace name : Text) where
  -- The patch that restarts an object, which a Get of the name has answered with.
  abbrev IsRestart : O → O → Text → Type 0
  IsRestart old new now =
      ((s : c.State) × (resource.get s namespace name ≡ ok old))
      × (new
          ≡ template.set_annotations
              (put_annotation last_observed_restart_annotation now (template.get_annotations old))
              old)

  -- An access that decides on the restart: the patch succeeds, or the Get or the patch fails, with
  -- the error.
  abbrev pub Attempt : Option Error → World c.State → World c.State → Type 0
  Attempt none u u' =
      (old : O) × (new : O) × (now : Text) × (final : O) × IsRestart old new now
      × ((resource.patch u.state old new).1 ≡ ok final)
  Attempt (some e) u u' =
      ((x : Error) × (resource.get u.state namespace name ≡ err x)
        × (e ≡ fetch_target_failed kind namespace name x))
      ⊎ ((old : O) × (new : O) × (now : Text) × (x : Error) × IsRestart old new now
          × ((resource.patch u.state old new).1 ≡ err x)
          × (e
              ≡ patch_target_failed kind namespace name
                  (patch_annotation_failed last_observed_restart_annotation now x)))

  restart_at-Attempt :
      (now : Text) (object : O) (s : c.State) (u : World c.State)
      → resource.get s namespace name ≡ ok object
      → let (s', failure) = restart_at c resource template kind namespace name now object u.state in
        Attempt failure u (record u { state = s' })
  unfolding restart_at patch_pod_template_annotation send_patch
  restart_at-Attempt now object s u got =
      let new =
        template.set_annotations
          (put_annotation last_observed_restart_annotation now (template.get_annotations object))
          object in
      elim (Result-cases (resource.patch u.state object new).1) [
        | inl (final, e) ↦
            rw (e, restart_at, patch_pod_template_annotation, send_patch)
              (object, new, now, final, ((s, got), refl), e)
        | inr (x, e) ↦
            rw (e, restart_at, patch_pod_template_annotation, send_patch)
              (inr (object, new, now, x, ((s, got), refl), e, refl))
      ]

  restart_fetched-Traced :
      (v : World c.State) (fetched : Result O)
      → resource.get v.state namespace name ≡ fetched
      → Traced
          (λ _. Unit)
          (λ own failure. SomeOf (Attempt failure) ((v, v) ∷ own))
          (restart_fetched c resource template kind namespace name fetched)
  unfolding restart_fetched
  restart_fetched-Traced v (err e) got = Traced.at_end (inl (inl (e, got, refl)))
  restart_fetched-Traced v (ok object) got =
      Traced.at_access (λ _ _. tt)
        (λ w _.
          Traced.at_access (λ _ _. tt)
            (λ w' _.
              Traced.at_end
                (inr (inr (inl (restart_at-Attempt (c.now w.state) object v.state w' got))))))

  pub restart_program-Traced :
      Traced
        (λ _. Unit)
        (λ own failure. SomeOf (Attempt failure) own)
        (restart_program c resource template kind namespace name)
  unfolding restart_program
  restart_program-Traced =
      Traced.at_access (λ _ _. tt)
        (λ w _. restart_fetched-Traced w (resource.get w.state namespace name) refl)

module _ (c : Client) where
  abbrev pub AttemptOn : Target → Option Error → World c.State → World c.State → Type 0
  AttemptOn (deployment_target namespace name) =
      Attempt c c.deployments deployment_template deployment_kind namespace name
  AttemptOn (stateful_set_target namespace name) =
      Attempt c c.stateful_sets stateful_set_template stateful_set_kind namespace name
  AttemptOn (daemon_set_target namespace name) =
      Attempt c c.daemon_sets daemon_set_template daemon_set_kind namespace name

  -- An access that tells of how an attempt on the target came out: its restart is counted, or a
  -- warning is recorded with the error.
  abbrev pub Told : Target → Option Error → World c.State → World c.State → Type 0
  Told t none w w' =
      w'.calls ≡ inc_restarts_performed (target_namespace t, target_name t, target_kind t) w.calls
  Told t (some e) w w' =
      (id : Text) × (w'.calls
        ≡ record_event id warning (codes "ReloadFailed") (codes "TriggerReload") (failed_note id e)
            w.calls)

  -- On each target of the list there is an attempt, and how it came out is told.
  abbrev pub Tried : List Target → List (World c.State × World c.State) → Type 0
  Tried ts own =
      (t : Target)
      → Memᴰ t ts
      → (failure : Option Error) × SomeOf (AttemptOn t failure) own × SomeOf (Told t failure) own

  pub Tried-append_left :
      (ts : List Target) (own own' : List (World c.State × World c.State))
      → Tried ts own
      → Tried ts (own ++ own')
  Tried-append_left ts own own' tried t m =
      let (failure, made, told) = tried t m in
      (failure, SomeOf-append_left _ own own' made, SomeOf-append_left _ own own' told)

  pub Tried-append_right :
      (ts : List Target) (own own' : List (World c.State × World c.State))
      → Tried ts own'
      → Tried ts (own ++ own')
  Tried-append_right ts own own' tried t m =
      let (failure, made, told) = tried t m in
      (failure, SomeOf-append_right _ own own' made, SomeOf-append_right _ own own' told)

  trigger_program-Traced :
      (t : Target)
      → Traced (λ _. Unit) (λ own failure. SomeOf (AttemptOn t failure) own) (trigger_program c t)
  unfolding trigger_program
  trigger_program-Traced (deployment_target namespace name) =
      restart_program-Traced c c.deployments _ _ namespace name
  trigger_program-Traced (stateful_set_target namespace name) =
      restart_program-Traced c c.stateful_sets _ _ namespace name
  trigger_program-Traced (daemon_set_target namespace name) =
      restart_program-Traced c c.daemon_sets _ _ namespace name

  report_reload-Told :
      (id : Text) (t : Target) (failure : Option Error)
      → Traced (λ _. Unit) (λ own made. SomeOf (Told t failure) own) (report_reload c id t failure)
  unfolding report_reload
  report_reload-Told id t none =
      Traced.at_access (λ _ _. tt)
        (λ w _. Traced.at_access (λ _ _. tt) (λ w' _. Traced.at_end (inl refl)))
  report_reload-Told id t (some e) =
      Traced.at_access (λ _ _. tt) (λ w _. Traced.at_end (inl (id, refl)))

  Tried-cons :
      (t : Target) (ts : List Target) (failure : Option Error)
      (own own' own'' : List (World c.State × World c.State))
      → SomeOf (AttemptOn t failure) own
      → SomeOf (Told t failure) own'
      → Tried ts own''
      → Tried (t ∷ ts) (own ++ (own' ++ own''))
  Tried-cons t ts failure own own' own'' made told others u listed = elim (Memᴰ.cases_cons listed) [
    | inl e ↦
        subst
          (λ v.
            (f : Option Error) × SomeOf (AttemptOn v f) (own ++ (own' ++ own''))
            × SomeOf (Told v f) (own ++ (own' ++ own'')))
          (sym e)
          (
            failure,
            SomeOf-append_left (AttemptOn t failure) own (own' ++ own'') made,
            SomeOf-append_right (Told t failure) own (own' ++ own'')
                (SomeOf-append_left (Told t failure) own' own'' told),
          )
    | inr m ↦
        Tried-append_right ts own (own' ++ own'') (Tried-append_right ts own' own'' others) u m
  ]

  -- The loop of triggerReloads tries every target.
  pub trigger_reloads_program-Tried :
      (id : Text) (ts : List Target) (m n : ℕ)
      → Traced (λ _. Unit) (λ own counts. Tried ts own) (trigger_reloads_program c id ts m n)
  unfolding trigger_reloads_program
  trigger_reloads_program-Tried id [] m n = Traced.at_end (λ t h. absurd (Memᴰ.not-nil h))
  trigger_reloads_program-Tried id (t ∷ ts) m n =
      Traced-bind (trigger_program c t) _ (trigger_program-Traced t) (λ own failure tried.
        Traced-bind (report_reload c id t failure) _ (report_reload-Told id t failure)
          (λ own' made told.
            Traced-weaken (trigger_reloads_program c id ts _ _)
              (λ own'' counts others. Tried-cons t ts failure own own' own'' tried told others)
              (trigger_reloads_program-Tried id ts _ _)))
