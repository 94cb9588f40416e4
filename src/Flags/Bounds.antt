-- ===== src/Flags/Bounds.antt =====
-- internal/flag/flag.go: which options ParseArgs can return.
use cascader.Common.{
  ℤ, pos, ltb_ℤ-false_iff, ◌≤ℤ◌, ◌≡◌, refl, ◌⊎◌, inl, inr, sym, subst, Text, codes, Option, none,
  List, ◌∷◌, Memᴰ, arith,
}
use cascader.Errors.{Error, Result, ok, Result-cases}
use cascader.Flags.Options.{Options}
use cascader.Flags.Parse.{
  string_var, duration_var, FlagSet, Parsed, Parser, second, validate_requeue_default, encoders,
  stacktrace_levels, flag_set, options_of, parse_args,
}

-- What tinyflags documents of Choices and Validate: a value that Parse sets is one of the choices,
-- where there are any, and passes the validation. A flag that is not set keeps its default.
pub record IsParser (parse : Parser) : Type 0 where
  pub chosen :
      (set : FlagSet) (args : List Text) (p : Parsed)
      → parse set args ≡ ok p
      → (name initial choice : Text) (choices : List Text)
      → Memᴰ (string_var name initial (choice ∷ choices)) set.flags
      → (p.strings name ≡ initial) ⊎ Memᴰ (p.strings name) (choice ∷ choices)
  pub validated :
      (set : FlagSet) (args : List Text) (p : Parsed)
      → parse set args ≡ ok p
      → (name : Text) (initial : ℤ) (validate : ℤ → Option Error)
      → Memᴰ (duration_var name initial validate) set.flags
      → (p.durations name ≡ initial) ⊎ (validate (p.durations name) ≡ none)

parse_args_cases :
    (parse : Parser) (version : Text) (args : List Text) (options : Options)
    → parse_args parse version args ≡ ok options
    → (p : Parsed) × (parse (flag_set version) args ≡ ok p) × (options ≡ options_of p)
unfolding parse_args
parse_args_cases parse version args options h =
    elim (Result-cases (parse (flag_set version) args)) [
      | inl (p, e) ↦
          let same : ◌≡◌ {A = Result Options} (ok (options_of p)) (ok options) =
            rw (e, parse_args) at h in
          (p, e, cc same)
      | inr (x, e) ↦ absurd (ground arith)
    ]

-- The bounds.
abbrev pub InBounds : Options → Type 0
InBounds options =
    (pos second ≤ℤ options.requeue_after_default)
    × Memᴰ options.log_encoder encoders
    × Memᴰ options.log_stacktrace_level stacktrace_levels

validated-bound : (d : ℤ) → validate_requeue_default d ≡ none → pos second ≤ℤ d
validated-bound d h = ground (arith, ltb_ℤ-false_iff d (pos second))

-- Whatever the arguments, options that ParseArgs returns have a default interval of at least one
-- second, one of the two encoders, and one of the three levels, if tinyflags keeps to the choices
-- and the validation that are registered.
pub parse_args-InBounds :
    (parse : Parser)
    → IsParser parse
    → (version : Text) (args : List Text) (options : Options)
    → parse_args parse version args ≡ ok options
    → InBounds options
parse_args-InBounds parse laws version args options h =
    let (p, parsed, same) = parse_args_cases parse version args options h in
    let interval =
      laws.validated (flag_set version) args p parsed _ _ _
        (Memᴰ.tail (Memᴰ.tail (Memᴰ.tail (Memᴰ.tail (Memᴰ.tail (Memᴰ.head refl)))))) in
    let encoder = laws.chosen (flag_set version) args p parsed _ _ _ _ (
      Memᴰ.tail (
        Memᴰ.tail (
          Memᴰ.tail (
            Memᴰ.tail (
              Memᴰ.tail (
                Memᴰ.tail (
                  Memᴰ.tail (
                    Memᴰ.tail (
                      Memᴰ.tail
                        (Memᴰ.tail (Memᴰ.tail (Memᴰ.tail (Memᴰ.tail (Memᴰ.head refl)))))))))))))) in
    let level = laws.chosen (flag_set version) args p parsed _ _ _ _ (
      Memᴰ.tail (
        Memᴰ.tail (
          Memᴰ.tail (
            Memᴰ.tail (
              Memᴰ.tail (
                Memᴰ.tail (
                  Memᴰ.tail (
                    Memᴰ.tail (
                      Memᴰ.tail (
                        Memᴰ.tail (
                          Memᴰ.tail (
                            Memᴰ.tail
                              (Memᴰ.tail (Memᴰ.tail (Memᴰ.tail (Memᴰ.head refl)))))))))))))))) in
    rw same (
      elim interval [
        | inl unset ↦ subst (λ d. pos second ≤ℤ d) (sym unset) (omega arith)
        | inr valid ↦ validated-bound (p.durations (codes "requeue-after-default")) valid
      ],
      elim encoder [ inl unset ↦ Memᴰ.head unset | inr choice ↦ choice ],
      elim level [ inl unset ↦ Memᴰ.tail (Memᴰ.tail (Memᴰ.head unset)) | inr choice ↦ choice ],
    )
