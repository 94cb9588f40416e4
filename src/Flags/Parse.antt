-- ===== src/Flags/Parse.antt =====
-- internal/flag/flag.go: the flags that ParseArgs registers, and what it makes of the values that
-- the tinyflags library parses, which is a parameter. Help texts, placeholders and hidden notes
-- are left out.
use cascader.Common.{
  ℕ, zero, suc, ◌+◌, ◌/◌, ◌%◌, ℤ, pos, ltb_ℤ, ltb, Text, codes, Bool, true, false, ◌||◌, ◌==◌,
  Option, none, some, List, [], ◌∷◌, ◌++◌, if◌then◌else◌,
}
use cascader.Errors.{Error, Result, ok, err, requeue_default_too_short}
use cascader.Flags.{
  deployment_annotation, stateful_set_annotation, daemon_set_annotation,
  last_observed_restart_annotation, requeue_after_annotation,
}
use cascader.Dict.{Dict}
use cascader.Flags.Options.{Options}

-- net.TCPAddr: the address as Go prints it, empty if it is nil, and the port
pub record TcpAddr : Type 0 where
  pub ip : Text
  pub port : ℕ

-- The decimal digits; a port has five at most.
abbrev pub digits : ℕ → ℕ → Text
digits zero n = []
digits (suc fuel) n =
    let rest = digits fuel (n / 10) in
    if ltb n 10 then (48 + n) ∷ [] else rest ++ (48 + n % 10) ∷ []

abbrev pub has_colon : Text → Bool
has_colon [] = false
has_colon (c ∷ s) = c == 58 || has_colon s

-- TCPAddr.String
abbrev pub address_string : TcpAddr → Text
address_string a =
    let host = if has_colon a.ip then codes "[" ++ (a.ip ++ codes "]") else a.ip in
    host ++ (58 ∷ digits 5 a.port)

-- The calls that register a flag: its name, its default and what is asked of a value. No choices
-- are any value; Strict wants a value to be written out.
pub data Flag : Type 0 where
  string_var : (name initial : Text) (choices : List Text) → Flag
  duration_var : (name : Text) (initial : ℤ) (validate : ℤ → Option Error) → Flag
  string_slice_var : (name : Text) (initial : List Text) → Flag
  bool_var : (name : Text) (initial is_strict : Bool) → Flag
  tcp_addr : (name : Text) (initial : TcpAddr) → Flag

pub record FlagSet : Type 0 where
  pub name : Text
  pub version : Text
  pub env_prefix : Text
  pub flags : List Flag

-- The values after Parse, by the names of the flags.
pub record Parsed : Type 0 where
  pub strings : Text → Text
  pub durations : Text → ℤ
  pub slices : Text → List Text
  pub bools : Text → Bool
  pub addresses : Text → TcpAddr
  -- tinyflags' OverriddenValues
  pub overridden_values : Dict Text

-- tinyflags' Parse, with the arguments and the environment that it reads
abbrev pub Parser : Type 0
Parser = FlagSet → List Text → Result Parsed

abbrev pub second : ℕ
second = 1000000000

abbrev pub validate_requeue_default : ℤ → Option Error
validate_requeue_default d = if ltb_ℤ d (pos second) then some requeue_default_too_short else none

abbrev pub encoders : List Text
encoders = codes "json" ∷ codes "console" ∷ []

abbrev pub stacktrace_levels : List Text
stacktrace_levels = codes "info" ∷ codes "error" ∷ codes "panic" ∷ []

abbrev pub flag_set : Text → FlagSet
flag_set version = record {
  name = codes "Cascader";
  version = version;
  env_prefix = codes "cascader";
  flags =
      string_var (codes "deployment-annotation") deployment_annotation []
      ∷ string_var (codes "statefulset-annotation") stateful_set_annotation []
      ∷ string_var (codes "daemonset-annotation") daemon_set_annotation []
      ∷ string_var (codes "last-observed-restart-annotation") last_observed_restart_annotation []
      ∷ string_var (codes "requeue-after-annotation") requeue_after_annotation []
      ∷ duration_var (codes "requeue-after-default") (pos 5000000000) validate_requeue_default
      ∷ string_slice_var (codes "watch-namespace") []
      ∷ bool_var (codes "metrics-enabled") true true
      ∷ tcp_addr (codes "metrics-bind-address") (record { ip = []; port = 8443 })
      ∷ bool_var (codes "metrics-secure") true true
      ∷ tcp_addr (codes "health-probe-bind-address") (record { ip = []; port = 8081 })
      ∷ bool_var (codes "enable-http2") false true
      ∷ bool_var (codes "leader-elect") true true
      ∷ string_var (codes "log-encoder") (codes "json") encoders
      ∷ bool_var (codes "log-devel") false false
      ∷ string_var (codes "log-stacktrace-level") (codes "panic") stacktrace_levels
      ∷ [];
}

abbrev pub options_of : Parsed → Options
options_of p = record {
  watch_namespaces = p.slices (codes "watch-namespace");
  metrics_addr = address_string (p.addresses (codes "metrics-bind-address"));
  leader_election = p.bools (codes "leader-elect");
  probe_addr = address_string (p.addresses (codes "health-probe-bind-address"));
  secure_metrics = p.bools (codes "metrics-secure");
  enable_http2 = p.bools (codes "enable-http2");
  deployment_annotation = p.strings (codes "deployment-annotation");
  stateful_set_annotation = p.strings (codes "statefulset-annotation");
  daemon_set_annotation = p.strings (codes "daemonset-annotation");
  last_observed_restart_annotation = p.strings (codes "last-observed-restart-annotation");
  requeue_after_annotation = p.strings (codes "requeue-after-annotation");
  requeue_after_default = p.durations (codes "requeue-after-default");
  enable_metrics = p.bools (codes "metrics-enabled");
  log_encoder = p.strings (codes "log-encoder");
  log_stacktrace_level = p.strings (codes "log-stacktrace-level");
  log_dev = p.bools (codes "log-devel");
  overridden_values = p.overridden_values;
}

unfoldable pub parse_args : Parser → Text → List Text → Result Options
parse_args parse version args = elim (parse (flag_set version) args) [
  | err e ↦ err e
  | ok p ↦ ok (options_of p)
]
