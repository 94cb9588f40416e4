-- ===== src/Flags/Options.antt =====
-- internal/flag/flag.go: the options of the application.
use cascader.Common.{ℤ, Text, Bool, List}
use cascader.Dict.{Dict}

pub record Options : Type 0 where
  pub watch_namespaces : List Text
  pub metrics_addr : Text
  pub leader_election : Bool
  pub probe_addr : Text
  pub secure_metrics : Bool
  pub enable_http2 : Bool
  pub deployment_annotation : Text
  pub stateful_set_annotation : Text
  pub daemon_set_annotation : Text
  pub last_observed_restart_annotation : Text
  pub requeue_after_annotation : Text
  pub requeue_after_default : ℤ  -- nanoseconds
  pub enable_metrics : Bool
  pub log_encoder : Text
  pub log_stacktrace_level : Text
  pub log_dev : Bool
  -- the overridden flags, each value as the log prints it
  pub overridden_values : Dict Text
