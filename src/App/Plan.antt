-- ===== src/App/Plan.antt =====
-- internal/app/run.go: what Run does, against the list of its steps.
use cascader.Common.{
  map, ◌≡◌, ◌↔◌, All, All-append_left, refl, sym, ap, ◌∙◌, ◌⊎◌, inl, inr, subst, codes, Option,
  none, some, List, [], ◌∷◌, ◌++◌, Option-cases, append_assoc, append-nil,
}
use cascader.Errors.{Error, ok}
use cascader.Kinds.{deployment_kind, stateful_set_kind, daemon_set_kind}
use cascader.Flags.Options.{Options}
use cascader.Logging.{init_logging}
use cascader.Metrics.{new_registry}
use cascader.Controller.{BaseReconciler}
use cascader.App.{configure}
use cascader.App.Run.{
  Action, Ending, set_logger, must_register, get_config, new_manager, setup_with_manager,
  add_healthz_check, add_readyz_check, start, manager_options, attempt, run_manager, run_with,
}

-- The steps of Run that can fail, in their order.
abbrev pub plan : Options → BaseReconciler → List Action
plan flags b =
    get_config
    ∷ new_manager (manager_options flags)
    ∷ setup_with_manager (record {
      kind = deployment_kind;
      recorder = codes "deployment-controller";
      reconciler = b;
    })
    ∷ setup_with_manager (record {
      kind = stateful_set_kind;
      recorder = codes "statefulset-controller";
      reconciler = b;
    })
    ∷ setup_with_manager
        (record { kind = daemon_set_kind; recorder = codes "daemonset-controller"; reconciler = b })
    ∷ add_healthz_check (codes "healthz")
    ∷ add_readyz_check (codes "readyz")
    ∷ start
    ∷ []

-- What comes before them.
abbrev pub prepared : Options → List Action
prepared flags = map set_logger (init_logging flags).0 ++ must_register new_registry ∷ []

module _ (answer : List Action → Option Error) where
  unfoldable perform : List Action → List Action → Ending
  perform done [] = (done, none)
  perform done (step ∷ steps) = attempt answer done step λ done. perform done steps

  -- No step is answered with an error.
  abbrev pub AllSucceed : List Action → List Action → Type 0
  AllSucceed done [] = Unit
  AllSucceed done (step ∷ steps) =
      let done' = done ++ step ∷ [] in (answer done' ≡ none) × AllSucceed done' steps

  -- The first step that is answered with an error is the last one, and the error is the result; if
  -- there is none, all steps are taken and the result is no error.
  abbrev pub Performed : List Action → List Action → Ending → Type 0
  Performed done steps ending =
      (AllSucceed done steps × (ending ≡ (done ++ steps, none)))
      ⊎ ((before : List Action) × (step : Action) × (after : List Action) × (e : Error) × (steps
            ≡ before ++ step ∷ after)
          × AllSucceed done before
          × (answer (done ++ (before ++ step ∷ [])) ≡ some e)
          × (ending ≡ (done ++ (before ++ step ∷ []), some e)))

  perform-next :
      (done : List Action) (step : Action) (steps : List Action)
      → answer (done ++ step ∷ []) ≡ none
      → perform done (step ∷ steps) ≡ perform (done ++ step ∷ []) steps
  unfolding perform attempt
  perform-next done step steps h = rw (h, perform, attempt) refl

  Performed-later :
      (done : List Action) (step : Action) (steps : List Action) (ending : Ending)
      → answer (done ++ step ∷ []) ≡ none
      → Performed (done ++ step ∷ []) steps ending
      → Performed done (step ∷ steps) ending
  Performed-later done step steps ending h (inl (succeed, e)) =
      inl ((h, succeed), e ∙ ap (λ l. (l, none)) (append_assoc done (step ∷ []) steps))
  Performed-later done step steps ending h
        (inr (before, last, after, x, split, succeed, failed, e)) =
      let joined = append_assoc done (step ∷ []) (before ++ last ∷ []) in
      inr (
        step ∷ before,
        last,
        after,
        x,
        ap (λ l. step ∷ l) split,
        (h, succeed),
        ap answer (sym joined) ∙ failed,
        e ∙ ap (λ l. (l, some x)) joined,
      )

  perform-Performed : (done steps : List Action) → Performed done steps (perform done steps)
  unfolding perform attempt
  perform-Performed done [] = inl (tt, ap (λ l. (l, none)) (sym (append-nil done)))
  perform-Performed done (step ∷ steps) = elim (Option-cases (answer (done ++ step ∷ []))) [
    | inl e ↦ subst (Performed done (step ∷ steps)) (sym (perform-next done step steps e)) (
        Performed-later done step steps (perform (done ++ step ∷ []) steps) e
          (perform-Performed (done ++ step ∷ []) steps))
    | inr (x, e) ↦ rw (e, perform, attempt) (inr ([], step, steps, x, refl, tt, e, refl))
  ]

  run_manager-perform :
      (flags : Options) (b : BaseReconciler) (done : List Action)
      → run_manager answer flags b done ≡ perform done (plan flags b)
  unfolding run_manager perform attempt
  run_manager-perform flags b done = refl

  -- Where the flags and the annotations are accepted, Run starts logging, registers the metrics, and
  -- takes its steps in their order. It stops at the first that is answered with an error, and
  -- returns that error; it returns none exactly if it has taken them all.
  pub run_with-Performed :
      (flags : Options) (b : BaseReconciler)
      → configure flags ≡ ok b
      → Performed (prepared flags) (plan flags b) (run_with answer flags)
  unfolding run_with
  run_with-Performed flags b h =
      rw (h, run_with, run_manager-perform flags b (prepared flags))
        (perform-Performed (prepared flags) (plan flags b))

  AllSucceed-front :
      (done before after : List Action)
      → AllSucceed done (before ++ after)
      → AllSucceed (done ++ before) after
  AllSucceed-front done [] after h = subst (λ l. AllSucceed l after) (sym (append-nil done)) h
  AllSucceed-front done (step ∷ before) after (_, h) =
      subst (λ l. AllSucceed l after) (append_assoc done (step ∷ []) before)
        (AllSucceed-front (done ++ step ∷ []) before after h)

  -- No error is the result exactly if no step has one.
  pub Performed-none_iff :
      (done steps : List Action) (ending : Ending)
      → Performed done steps ending
      → (ending.1 ≡ none) ↔ AllSucceed done steps
  Performed-none_iff done steps ending (inl (succeed, e)) = (λ _. succeed, λ _. ap (λ p. p.1) e)
  Performed-none_iff done steps ending (inr (before, step, after, x, split, _, failed, e)) = (
    λ h. absurd (cc),
    λ h.
        let (passed, _) =
          AllSucceed-front done before (step ∷ after) (subst (AllSucceed done) split h) in
        let joined = append_assoc done before (step ∷ []) in
        absurd (cc (sym (ap answer joined ∙ failed) ∙ passed)),
  )

  pub Performed-All :
      (P : Action → Type 0) (done steps : List Action) (ending : Ending)
      → Performed done steps ending
      → All P (done ++ steps)
      → All P ending.0
  Performed-All P done steps ending (inl (_, e)) h = subst (All P) (sym (ap (λ p. p.0) e)) h
  Performed-All P done steps ending (inr (before, step, after, x, split, _, _, e)) h =
      let joined : done ++ steps ≡ (done ++ (before ++ step ∷ [])) ++ after =
        ap (λ l. done ++ l) (split ∙ sym (append_assoc before (step ∷ []) after))
        ∙ sym (append_assoc done (before ++ step ∷ []) after) in
      subst (All P) (sym (ap (λ p. p.0) e))
        (All-append_left P (done ++ (before ++ step ∷ [])) after (subst (All P) joined h))
