-- ===== src/Flags.antt =====
-- internal/flag/flag.go: the default annotation keys.
pub mod Options
pub mod Parse
pub mod Bounds
use cascader.Common.{Text, codes}

abbrev pub daemon_set_annotation : Text
daemon_set_annotation = codes "cascader.tkb.ch/daemonset"

abbrev pub deployment_annotation : Text
deployment_annotation = codes "cascader.tkb.ch/deployment"

abbrev pub stateful_set_annotation : Text
stateful_set_annotation = codes "cascader.tkb.ch/statefulset"

abbrev pub last_observed_restart_annotation : Text
last_observed_restart_annotation = codes "cascader.tkb.ch/last-observed-restart"

abbrev pub requeue_after_annotation : Text
requeue_after_annotation = codes "cascader.tkb.ch/requeue-after"
