-- ===== src/App/Run.antt =====
-- internal/app/run.go: Run, with cmd/main.go around it, as the sequence of what it does outside of the program. What each of
-- these answers is a parameter; it may depend on all that was done before. Log lines, the scheme
-- and the handles that are passed on are left out.
use cascader.Common.{
  map, ℕ, Text, codes, Bool, false, not, ◌||◌, Option, none, some, List, [], ◌∷◌, ◌++◌,
  if◌then◌else◌,
}
use cascader.Errors.{Error, ok, err}
use cascader.Kinds.{Kind, deployment_kind, stateful_set_kind, daemon_set_kind}
use cascader.Flags.Options.{Options}
use cascader.Flags.Parse.{Parser, parse_args}
use cascader.Logging.{SetLogger, init_logging}
use cascader.Metrics.{Vector, new_registry}
use cascader.Utils.Formats.{CacheOptions, to_cache_options}
use cascader.Controller.{BaseReconciler}
use cascader.App.{configure}

-- crypto/tls.Config, the field that is set
pub record TlsConfig : Type 0 where
  pub next_protos : List Text

abbrev pub TlsOption : Type 0
TlsOption = TlsConfig → TlsConfig

unfoldable pub tls_opts : Options → List TlsOption
tls_opts flags =
    if not flags.enable_http2
    then (λ c. record c { next_protos = codes "http/1.1" ∷ [] }) ∷ []
    else []

pub data FilterProvider : Type 0 where
  with_authentication_and_authorization : FilterProvider

-- metricsserver.Options
pub record MetricsOptions : Type 0 where
  pub bind_address : Text
  pub secure_serving : Bool
  pub tls_opts : List TlsOption
  pub filter_provider : Option FilterProvider

unfoldable pub metrics_server_options : Options → MetricsOptions
metrics_server_options flags =
    if flags.enable_metrics
    then record {
      bind_address = flags.metrics_addr;
      secure_serving = flags.secure_metrics;
      tls_opts = tls_opts flags;
      filter_provider =
          if flags.secure_metrics then some with_authentication_and_authorization else none;
    }
    else record {
      bind_address = codes "0";
      secure_serving = false;
      tls_opts = [];
      filter_provider = none;
    }

-- ctrl.Options, with the options of the webhook server
pub record ManagerOptions : Type 0 where
  pub metrics : MetricsOptions
  pub webhook_tls_opts : List TlsOption
  pub health_probe_bind_address : Text
  pub leader_election : Bool
  pub leader_election_id : Text
  pub cache : CacheOptions

unfoldable pub manager_options : Options → ManagerOptions
manager_options flags = record {
  metrics = metrics_server_options flags;
  webhook_tls_opts = tls_opts flags;
  health_probe_bind_address = flags.probe_addr;
  leader_election = flags.leader_election;
  leader_election_id = codes "fc1fdccd.cascader.tkb.ch";
  cache = to_cache_options flags.watch_namespaces;
}

-- A reconciler on which SetupWithManager is called.
pub record Setup : Type 0 where
  pub kind : Kind
  pub recorder : Text
  pub reconciler : BaseReconciler

-- MustRegister panics if a metric is registered already, which is left out.
pub data Action : Type 0 where
  print_out print_err : Error → Action
  set_logger : SetLogger → Action
  must_register : List Vector → Action
  get_config : Action
  new_manager : ManagerOptions → Action
  setup_with_manager : Setup → Action
  add_healthz_check add_readyz_check : Text → Action
  start : Action

-- What was done, and what Run returns.
abbrev pub Ending : Type 0
Ending = List Action × Option Error

module _ (answer : List Action → Option Error) where
  -- A call, and the early return if it answers with an error.
  unfoldable pub attempt : List Action → Action → (List Action → Ending) → Ending
  attempt done action next =
      let done' = done ++ action ∷ [] in
      elim (answer done') [ some e ↦ (done', some e) | none ↦ next done' ]

  -- From GetConfig on.
  unfoldable pub run_manager : Options → BaseReconciler → List Action → Ending
  unfolding attempt
  run_manager flags b done = attempt done get_config λ done.
      attempt done (new_manager (manager_options flags)) λ done.
        attempt done
          (setup_with_manager (record {
            kind = deployment_kind;
            recorder = codes "deployment-controller";
            reconciler = b;
          }))
          λ done.
            attempt done
              (setup_with_manager (record {
                kind = stateful_set_kind;
                recorder = codes "statefulset-controller";
                reconciler = b;
              }))
              λ done.
                attempt done
                  (setup_with_manager (record {
                    kind = daemon_set_kind;
                    recorder = codes "daemonset-controller";
                    reconciler = b;
                  }))
                  λ done. attempt done (add_healthz_check (codes "healthz")) λ done.
                    attempt done (add_readyz_check (codes "readyz"))
                      λ done. attempt done start λ done. (done, none)

  unfoldable pub run_with : Options → Ending
  run_with flags =
      let (calls, _) = init_logging flags in
      let logging = map set_logger calls in
      elim (configure flags) [
        | err e ↦ (logging, some e)
        | ok b ↦ run_manager flags b (logging ++ must_register new_registry ∷ [])
      ]

  unfoldable pub run :
      Parser → (is_help_requested is_version_requested : Error → Bool) → Text → List Text → Ending
  run parse is_help_requested is_version_requested version args =
      elim (parse_args parse version args) [
        | err e ↦
            if is_help_requested e || is_version_requested e
            then (print_out e ∷ [], none)
            else (print_err e ∷ [], some e)
        | ok flags ↦ run_with flags
      ]

  -- cmd/main.go: what is done, and the code that the process exits with.
  unfoldable pub main :
      Parser
      → (is_help_requested is_version_requested : Error → Bool) → Text
      → List Text
      → List Action × ℕ
  main parse is_help_requested is_version_requested version args =
      let (done, failure) = run parse is_help_requested is_version_requested version args in
      elim failure [ some _ ↦ (done, 1) | none ↦ (done, 0) ]
