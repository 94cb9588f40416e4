-- ===== src/App/Exposure.antt =====
-- internal/app/run.go: what the options make of the listeners and of the cache.
use cascader.Common.{
  ◌≡◌, ◌↔◌, ◌⊎◌, refl, inl, inr, Text, codes, Bool, true, false, none, some, List, [], ◌∷◌, Memᴰ,
  Bool-cases, if◌then◌else◌,
}
use cascader.Flags.Options.{Options}
use cascader.Utils.Formats.{Watches, to_cache_options_iff}
use cascader.App.Run.{
  TlsConfig, TlsOption, tls_opts, MetricsOptions, metrics_server_options, manager_options,
  with_authentication_and_authorization,
}

-- crypto/tls: the configuration after the options.
abbrev pub configured : List TlsOption → TlsConfig → TlsConfig
configured [] c = c
configured (opt ∷ opts) c = configured opts (opt c)

-- The protocols that a listener with the options offers: HTTP/1.1 only, unless HTTP/2 is enabled.
abbrev pub Http1Unless : Bool → List TlsOption → Type 0
Http1Unless enabled opts =
    (c : TlsConfig)
    → ((enabled ≡ true) × ((configured opts c).next_protos ≡ c.next_protos))
      ⊎ ((enabled ≡ false) × ((configured opts c).next_protos ≡ codes "http/1.1" ∷ []))

tls_opts-Http1Unless : (flags : Options) → Http1Unless flags.enable_http2 (tls_opts flags)
unfolding tls_opts
tls_opts-Http1Unless flags c = elim (Bool-cases flags.enable_http2) [
  | inl on ↦ rw (on, tls_opts) (inl (refl, refl))
  | inr off ↦ rw (off, tls_opts) (inr (refl, refl))
]

-- A metrics server that is disabled.
abbrev pub IsDisabled : MetricsOptions → Type 0
IsDisabled m = m.bind_address ≡ codes "0"

-- A metrics server as the flags want it.
abbrev pub Listens : Options → MetricsOptions → Type 0
Listens flags m =
    ((flags.enable_metrics ≡ false) × IsDisabled m)
    ⊎ ((flags.enable_metrics ≡ true)
        × (m.bind_address ≡ flags.metrics_addr)
        × (m.secure_serving ≡ flags.secure_metrics)
        × ((m.filter_provider ≡ some with_authentication_and_authorization)
            ↔ (flags.secure_metrics ≡ true))
        × Http1Unless flags.enable_http2 m.tls_opts)

provider_iff :
    (secure : Bool)
    → ((if secure then some with_authentication_and_authorization else none)
        ≡ some with_authentication_and_authorization)
      ↔ (secure ≡ true)
provider_iff true = (λ _. refl, λ _. refl)
provider_iff false = (λ h. absurd (cc), λ h. absurd (cc))

metrics_server_options_cases : (flags : Options) → Listens flags (metrics_server_options flags)
unfolding metrics_server_options tls_opts
metrics_server_options_cases flags = elim (Bool-cases flags.enable_metrics) [
  | inr off ↦ rw (off, metrics_server_options) (inl (refl, refl))
  | inl on ↦
      rw (on, metrics_server_options)
        (inr (refl, refl, refl, provider_iff flags.secure_metrics, tls_opts-Http1Unless flags))
]

-- The manager that Run makes: the metrics server is disabled, or it listens at the address of the
-- flags, over TLS and with authentication exactly if the flags want it; it and the webhook server
-- offer HTTP/1.1 only, unless HTTP/2 is enabled; and the cache has the namespaces of the flags,
-- which are all if there are none.
pub manager_options_lem :
    (flags : Options)
    → Listens flags (manager_options flags).metrics
      × Http1Unless flags.enable_http2 (manager_options flags).webhook_tls_opts
      × ((ns : Text)
          → Watches (manager_options flags).cache ns
            ↔ ((flags.watch_namespaces ≡ []) ⊎ Memᴰ ns flags.watch_namespaces))
unfolding manager_options
manager_options_lem flags = (
  metrics_server_options_cases flags,
  tls_opts-Http1Unless flags,
  to_cache_options_iff flags.watch_namespaces,
)
