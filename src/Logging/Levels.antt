-- ===== src/Logging/Levels.antt =====
-- internal/logging/logger.go: the names of encoders and levels that ParseArgs lets through are
-- those that the logger distinguishes.
use mathlib.Core.List.Memᴰ
use cascader.Common.{◌≡◌, refl, sym, subst, inl, inr, Text, List, Memᴰ}
use cascader.Errors.{ok}
use cascader.Flags.Options.{Options}
use cascader.Flags.Parse.{Parser, parse_args, encoders, stacktrace_levels}
use cascader.Flags.Bounds.{IsParser, parse_args-InBounds}
use cascader.Logging.{
  Encoder, console_encoder, json_encoder, AtomicLevel, info_level, error_level, panic_level,
  encoder_console, encoder_json, level_info, level_error, level_panic, encoder_named,
  stacktrace_level, setup_logger,
}

-- The name of an encoder, and of a level.
abbrev pub encoder_name : Encoder → Text
encoder_name (console_encoder _) = encoder_console
encoder_name (json_encoder _) = encoder_json

abbrev pub level_name : AtomicLevel → Text
level_name info_level = level_info
level_name error_level = level_error
level_name panic_level = level_panic

encoder_name-encoder_named : (t : Text) → Memᴰ t encoders → encoder_name (encoder_named t) ≡ t
unfolding encoder_named
encoder_name-encoder_named t m = elim (Memᴰ.cases_cons m) [
  | inl json ↦ subst (λ x. encoder_name (encoder_named x) ≡ x) (sym json) refl
  | inr rest ↦
      subst (λ x. encoder_name (encoder_named x) ≡ x) (sym (Memᴰ.eq_of_singleton rest)) refl
]

level_name-stacktrace_level :
    (t : Text) → Memᴰ t stacktrace_levels → level_name (stacktrace_level t) ≡ t
unfolding stacktrace_level
level_name-stacktrace_level t m = elim (Memᴰ.cases_cons m) [
  | inl info ↦ subst (λ x. level_name (stacktrace_level x) ≡ x) (sym info) refl
  | inr rest ↦ elim (Memᴰ.cases_cons rest) [
    | inl error ↦ subst (λ x. level_name (stacktrace_level x) ≡ x) (sym error) refl
    | inr last ↦
        subst (λ x. level_name (stacktrace_level x) ≡ x) (sym (Memᴰ.eq_of_singleton last)) refl
  ]
]

-- The logger that the parsed flags give has the encoder and the level for stack traces that the
-- flags name: the names can be read back from it, so that no name falls through to a default. The
-- library tinyflags keeps to the choices that are registered.
pub setup_logger-parse_args :
    (parse : Parser)
    → IsParser parse
    → (version : Text) (args : List Text) (options : Options)
    → parse_args parse version args ≡ ok options
    → (encoder_name (setup_logger options).encoder ≡ options.log_encoder)
      × (level_name (setup_logger options).stacktrace_level ≡ options.log_stacktrace_level)
unfolding setup_logger
setup_logger-parse_args parse laws version args options h =
    let (_, encoder, level) = parse_args-InBounds parse laws version args options h in
    (
      encoder_name-encoder_named options.log_encoder encoder,
      level_name-stacktrace_level options.log_stacktrace_level level,
    )
