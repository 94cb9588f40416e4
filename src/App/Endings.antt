-- ===== src/App/Endings.antt =====
-- internal/app/run.go: when Run returns an error, and which reconcilers it sets up.
use cascader.Common.{
  arith, Option-cases, ◌≡◌, ◌↔◌, All, All-Memᴰ, refl, sym, ap, ◌∙◌, ◌⊎◌, inl, inr, subst, Text,
  Bool, true, ◌||◌, Option, none, some, List, Memᴰ, Bool-cases, Option-cases, or-true_iff,
}
use cascader.Errors.{Error, ok, err, Result-cases}
use cascader.Flags.Options.{Options}
use cascader.Flags.Parse.{Parser, parse_args}
use cascader.Logging.{init_logging}
use cascader.Controller.{BaseReconciler}
use cascader.App.{configure}
use cascader.App.Run.{Action, Ending, Setup, setup_with_manager, run_with, run, main}
use cascader.App.Plan.{
  plan, prepared, AllSucceed, Performed-none_iff, Performed-All, run_with-Performed,
}

-- A controller that the action sets up has the reconciler.
abbrev SetsUp : BaseReconciler → Action → Type 0
SetsUp b (setup_with_manager s) = s.reconciler ≡ b
SetsUp b _ = Unit

-- The action sets up no controller.
abbrev Bare : Action → Type 0
Bare (setup_with_manager s) = ⊥
Bare _ = Unit

module _ (answer : List Action → Option Error) where
  -- A refused configuration ends Run with its error.
  run_with-err :
      (flags : Options) (e : Error)
      → configure flags ≡ err e
      → ((run_with answer flags).1 ≡ some e) × All Bare (run_with answer flags).0
  unfolding run_with init_logging
  run_with-err flags e h = rw (h, run_with) (refl, (tt, (tt, tt)))

  module _ (parse : Parser) (is_help_requested is_version_requested : Error → Bool) (version : Text)
      (args : List Text) where
    abbrev ending : Ending
    ending = run answer parse is_help_requested is_version_requested version args

    run-parsed :
        (flags : Options)
        → parse_args parse version args ≡ ok flags
        → ending ≡ run_with answer flags
    unfolding run
    run-parsed flags h = rw (h, run) refl

    abbrev asked : Error → Bool
    asked e = is_help_requested e || is_version_requested e

    run-unparsed :
        (e : Error)
        → parse_args parse version args ≡ err e
        → ((ending.1 ≡ none) ↔ (asked e ≡ true)) × All Bare ending.0
    unfolding run
    run-unparsed e h = elim (Bool-cases (asked e)) [
      | inl is_asked ↦ rw (h, is_asked, run) ((λ _. refl, λ _. refl), (tt, tt))
      | inr is_other ↦ rw (h, is_other, run) ((λ x. absurd (cc), λ x. absurd (cc)), (tt, tt))
    ]

    -- The help or the version was asked for.
    abbrev pub Asked : Type 0
    Asked =
        (e : Error) × (parse_args parse version args ≡ err e)
        × ((is_help_requested e ≡ true) ⊎ (is_version_requested e ≡ true))

    -- The manager was set up, and has run to its end.
    abbrev pub Ran : Type 0
    Ran =
        (flags : Options) × (b : BaseReconciler) × (parse_args parse version args ≡ ok flags)
        × (configure flags ≡ ok b)
        × AllSucceed answer (prepared flags) (plan flags b)

    run-none_configured :
        (flags : Options) (b : BaseReconciler)
        → parse_args parse version args ≡ ok flags
        → configure flags ≡ ok b
        → (ending.1 ≡ none) ↔ AllSucceed answer (prepared flags) (plan flags b)
    run-none_configured flags b parsed configured =
        subst (λ x. (x.1 ≡ none) ↔ AllSucceed answer (prepared flags) (plan flags b))
          (sym (run-parsed flags parsed))
          (Performed-none_iff answer (prepared flags) (plan flags b) (run_with answer flags)
            (run_with-Performed answer flags b configured))

    run-none_iff : (ending.1 ≡ none) ↔ (Asked ⊎ Ran)
    run-none_iff = (forth, back)
      where
        forth : ending.1 ≡ none → Asked ⊎ Ran
        forth h = elim (Result-cases (parse_args parse version args)) [
          | inr (e, unparsed) ↦ inl (
            e,
            unparsed,
            (or-true_iff (is_help_requested e) (is_version_requested e)).0
                ((run-unparsed e unparsed).0.0 h),
          )
          | inl (flags, parsed) ↦ elim (Result-cases (configure flags)) [
            | inr (e, refused) ↦
                let failed =
                  ap (λ x. x.1) (run-parsed flags parsed) ∙ (run_with-err flags e refused).0 in
                absurd (cc (sym h ∙ failed))
            | inl (b, configured) ↦
                inr (
                  flags,
                  b,
                  parsed,
                  configured,
                  (run-none_configured flags b parsed configured).0 h,
                )
          ]
        ]

        back : Asked ⊎ Ran → ending.1 ≡ none
        back (inl (e, unparsed, h)) =
            (run-unparsed e unparsed).0.1
              ((or-true_iff (is_help_requested e) (is_version_requested e)).1 h)
        back (inr (flags, b, parsed, configured, succeed)) =
            (run-none_configured flags b parsed configured).1 succeed

    configured-SetsUp :
        (flags : Options) (b : BaseReconciler)
        → configure flags ≡ ok b
        → All (SetsUp b) (run_with answer flags).0
    unfolding init_logging
    configured-SetsUp flags b configured =
        Performed-All answer (SetsUp b) (prepared flags) (plan flags b) (run_with answer flags)
          (run_with-Performed answer flags b configured)
          (tt, (tt, (tt, (tt, (tt, (refl, (refl, (refl, (tt, (tt, (tt, tt)))))))))))

    -- A reconciler that Run sets up is the one that the parsed flags configure.
    pub run-SetsUp :
        (s : Setup)
        → Memᴰ (setup_with_manager s) ending.0
        → (flags : Options) × (parse_args parse version args ≡ ok flags)
          × (configure flags ≡ ok s.reconciler)
    run-SetsUp s m = elim (Result-cases (parse_args parse version args)) [
      | inr (e, unparsed) ↦ absurd (All-Memᴰ Bare ending.0 (run-unparsed e unparsed).1 m)
      | inl (flags, parsed) ↦
          let m' =
            subst (λ l. Memᴰ (setup_with_manager s) l) (ap (λ x. x.0) (run-parsed flags parsed))
              m in
          elim (Result-cases (configure flags)) [
            | inr (e, refused) ↦
                absurd (All-Memᴰ Bare (run_with answer flags).0 (run_with-err flags e refused).1 m')
            | inl (b, configured) ↦
                let same =
                  All-Memᴰ (SetsUp b) (run_with answer flags).0
                    (configured-SetsUp flags b configured) m' in
                (flags, parsed, configured ∙ ap (λ x. ok x) (sym same))
          ]
    ]

    main-none_iff :
        ((main answer parse is_help_requested is_version_requested version args).1 ≡ 0)
        ↔ (ending.1 ≡ none)
    unfolding main
    main-none_iff = elim (Option-cases ending.1) [
      | inl e ↦ rw (e, main) (λ _. refl, λ _. refl)
      | inr (x, e) ↦ rw (e, main) (λ h. absurd (omega (arith, h)), λ h. absurd (cc))
    ]

    -- The process exits with 0 in two cases only: the arguments ask for the help or the version; or
    -- they are parsed, the annotations are unique, and every step of Run, up to the end of the
    -- manager's work, is answered without an error.
    pub main-succeeds_iff :
        ((main answer parse is_help_requested is_version_requested version args).1 ≡ 0)
        ↔ (Asked ⊎ Ran)
    main-succeeds_iff =
        (λ h. run-none_iff.0 (main-none_iff.0 h), λ h. main-none_iff.1 (run-none_iff.1 h))
