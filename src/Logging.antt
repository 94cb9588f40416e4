-- ===== src/Logging.antt =====
-- internal/logging/logger.go: what setupLogger asks of zap, and where InitLogging sets the logger.
-- A logger stands for the options that it was made with; what it does is left out.
pub mod Levels
use cascader.Common.{Text, codes, Bool, text_eq, if◌then◌else◌, List, [], ◌∷◌}
use cascader.Flags.Options.{Options}

pub data EncoderConfig : Type 0 where
  development_encoder_config production_encoder_config : EncoderConfig

-- zapcore.NewConsoleEncoder and zapcore.NewJSONEncoder
pub data Encoder : Type 0 where
  console_encoder json_encoder : EncoderConfig → Encoder

pub data AtomicLevel : Type 0 where
  info_level error_level panic_level : AtomicLevel

-- zap.Options, less the writer
pub record ZapOptions : Type 0 where
  pub development : Bool
  pub encoder : Encoder
  pub stacktrace_level : AtomicLevel

abbrev pub encoder_json : Text
encoder_json = codes "json"

abbrev pub encoder_console : Text
encoder_console = codes "console"

abbrev pub level_info : Text
level_info = codes "info"

abbrev pub level_error : Text
level_error = codes "error"

abbrev pub level_panic : Text
level_panic = codes "panic"

unfoldable pub encoder_named : Text → Encoder
encoder_named name =
    if text_eq name encoder_console
    then console_encoder development_encoder_config
    else json_encoder production_encoder_config

unfoldable pub stacktrace_level : Text → AtomicLevel
stacktrace_level level =
    if text_eq level level_info
    then info_level
    else if text_eq level level_error
    then error_level
    else panic_level

unfoldable pub setup_logger : Options → ZapOptions
setup_logger flags = record {
  development = flags.log_dev;
  encoder = encoder_named flags.log_encoder;
  stacktrace_level = stacktrace_level flags.log_stacktrace_level;
}

-- log.SetLogger of controller-runtime, and klog.SetLogger
pub data SetLogger : Type 0 where
  log_set_logger klog_set_logger : ZapOptions → SetLogger

-- The calls, and the logger that is returned.
unfoldable pub init_logging : Options → List SetLogger × ZapOptions
init_logging flags =
    let logger = setup_logger flags in (log_set_logger logger ∷ klog_set_logger logger ∷ [], logger)
