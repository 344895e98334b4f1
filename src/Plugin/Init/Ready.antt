-- ===== src/Plugin/Init/Ready.antt =====
-- What `Init` of plugin.go leaves behind.
use roadrunner_temporal.Base.{
  str_eq, eq_iff, ◌≡◌, ◌≢◌, ◌⊎◌, inl, inr, refl, sym, ◌∙◌, subst, Bool, true, false, Bool-cases,
  Option, none, some, if_true, if_false,
}
use roadrunner_temporal.Vendor.{Vendor}
use roadrunner_temporal.Errors.{GoError, Result, ok, err}
use roadrunner_temporal.Exec.{Exit, returns, stops, error, panics}
use roadrunner_temporal.Config.{
  Config, Metrics, Prometheus, Statsd, driver_prometheus, driver_statsd, or_text, statsd_defaults,
  driver_defaults, metrics_defaults, with_defaults, file_error, checked_files, tls_defaults,
  init_default,
}
use roadrunner_temporal.Config.Defaults.{driver_kept}
use roadrunner_temporal.Config.Filled.{IsFilled, init_default-IsFilled}
use roadrunner_temporal.Tls.{TlsConfig, TlsSettings, init_tls}
use roadrunner_temporal.Tls.Outcome.{Configured, init_tls-Configured}
use roadrunner_temporal.Metrics.{
  prometheus_scope, statsd_scope, with_reporter, with_client, init_metrics,
}
use roadrunner_temporal.Plugin.Init.{
  InitLib, of_result, Initialized, check_key, read_driver, read_metrics, filled, make_tls,
  make_metrics, init_chain, init,
}
use roadrunner_temporal.Plugin.Init.Safe.{Safe, Safe-next, Safe-result, Safe-wrapped}

module _ {v : Vendor} (lib : InitLib v) where
  -- Statsd metrics have their settings.
  abbrev Settled : Option Metrics → Type 0
  Settled none = Unit {0}
  Settled (some m) = m.driver ≡ driver_statsd → m.statsd ≢ none

  statsd_filled :
      (m : Metrics) → m.driver ≡ driver_statsd → m.statsd ≢ none → (driver_defaults m).statsd ≢ none
  statsd_filled m e n = rw e (given m.statsd n)
    where
      given : (o : Option Statsd) → o ≢ none → statsd_defaults o ≢ none
      given none n = n
      given (some s) n = λ q. cc

  metrics_defaults-Settled : (o : Option Metrics) → Settled o → Settled (metrics_defaults o)
  metrics_defaults-Settled none k = tt
  metrics_defaults-Settled (some m) k = λ d.
      let named = record m { driver = or_text m.driver driver_prometheus } in
      let e : named.driver ≡ driver_statsd = sym (driver_kept named) ∙ d in
      statsd_filled named e (elim (Bool-cases (str_eq m.driver "")) [
        | inl b ↦ let p = if_true driver_prometheus m.driver b in absurd cc
        | inr b ↦ k (sym (if_false driver_prometheus m.driver b) ∙ e)
      ])

  metrics_kept :
      (o : Option TlsSettings) (c : Config lib.config_lib)
      → (tls_defaults lib.config_lib o c).1.metrics ≡ c.metrics
  metrics_kept none c = refl
  metrics_kept (some t) c = kept (file_error lib.config_lib t)
    where
      kept : (e : Option (GoError v)) → (checked_files lib.config_lib t e c).1.metrics ≡ c.metrics
      kept none = refl
      kept (some e) = refl

  init_default-Settled :
      (c : Config lib.config_lib)
      → Settled c.metrics
      → Settled (init_default lib.config_lib c).1.metrics
  unfolding init_default with_defaults
  init_default-Settled c k =
      subst Settled (sym (metrics_kept c.tls (with_defaults lib.config_lib c)))
        (metrics_defaults-Settled c.metrics k)

  -- The metrics name one of the two drivers.
  abbrev Driven :
      Option Metrics → Option (lib.metrics_lib.Handler × lib.metrics_lib.Closer) → Type 0
  Driven none h = h ≡ none
  Driven (some m) h = ((m.driver ≡ driver_prometheus) ⊎ (m.driver ≡ driver_statsd)) × (h ≢ none)

  prometheus-Safe :
      (p : Prometheus) → Safe (λ h. Unit {0}) (prometheus_scope lib.metrics_lib (some p))
  unfolding prometheus_scope
  prometheus-Safe p = reported (lib.metrics_lib.prometheus_reporter p.address p.type)
    where
      reported :
          (r : Result v lib.metrics_lib.PrometheusReporter)
          → Safe (λ h. Unit {0}) (with_reporter lib.metrics_lib p.prefix r)
      reported (ok r) = tt
      reported (err e) = tt

  statsd-Safe :
      (o : Option Statsd) → o ≢ none → Safe (λ h. Unit {0}) (statsd_scope lib.metrics_lib o)
  unfolding statsd_scope
  statsd-Safe none n = n refl
  statsd-Safe (some s) n = connected (lib.metrics_lib.statsd_client _)
    where
      connected :
          (r : Result v lib.metrics_lib.StatsdClient)
          → Safe (λ h. Unit {0}) (with_client lib.metrics_lib s r)
      connected (ok r) = tt
      connected (err e) = tt

  metrics-Safe :
      (m : Metrics)
      → (m.driver ≡ driver_prometheus → (p : Prometheus) × (m.prometheus ≡ some p))
      → (m.driver ≡ driver_statsd → m.statsd ≢ none)
      → Safe
          (λ h. (m.driver ≡ driver_prometheus) ⊎ (m.driver ≡ driver_statsd))
          (init_metrics lib.metrics_lib m)
  unfolding init_metrics
  metrics-Safe m p k = elim (Bool-cases (str_eq m.driver driver_prometheus)) [
    | inl e ↦
        let d = (eq_iff m.driver driver_prometheus).0 e in
        let (settings, given) = p d in rw (e, given) (either _ (inl d) (prometheus-Safe settings))
    | inr e ↦ elim (Bool-cases (str_eq m.driver driver_statsd)) [
      | inl b ↦
          let d = (eq_iff m.driver driver_statsd).0 b in
          rw (e, b) (either _ (inr d) (statsd-Safe m.statsd (k d)))
      | inr b ↦ rw (e, b) tt
    ]
  ]
    where
      either :
          {P : Type 0} (r : Exit v (lib.metrics_lib.Handler × lib.metrics_lib.Closer))
          → P
          → Safe (λ h. Unit {0}) r
          → Safe (λ h. P) r
      either (returns h) p s = p
      either (stops (error e)) p s = tt
      either (stops (panics x)) p s = s

  make_metrics-Safe :
      (c : Config lib.config_lib)
      → IsFilled lib.config_lib c
      → Settled c.metrics
      → Safe (Driven c.metrics) (make_metrics lib c.metrics)
  make_metrics-Safe c f k = made c.metrics (λ m e d. f.served m e d) k
    where
      made :
          (o : Option Metrics)
          → ((m : Metrics)
              → o ≡ some m
              → m.driver ≡ driver_prometheus
              → (p : Prometheus) × (m.prometheus ≡ some p) × (p.type ≢ "") × (p.address ≢ ""))
          → Settled o
          → Safe (Driven o) (make_metrics lib o)
      made none s k = refl
      made (some m) s k =
          Safe-next _ (Driven (some m)) (init_metrics lib.metrics_lib m) (λ h. returns (some h))
            (metrics-Safe m (λ d. let r = s m refl d in (r.0, r.1)) k) (λ h d. (d, λ q. cc))

  -- What the rest of the plugin may rely on.
  pub record Ready (i : Initialized lib) : Type 0 where
    pub filled : IsFilled lib.config_lib i.config
    pub secured :
        (t : TlsSettings)
        → i.config.tls ≡ some t
        → (cert : lib.crypto.Certificate) × (lib.crypto.load_key_pair t.cert t.key ≡ ok cert)
          × Configured lib.crypto t cert i.tls_cfg
    pub driven : Driven i.config.metrics i.metrics

  abbrev Secured : Option TlsSettings → Option (TlsConfig lib.crypto) → Type 0
  Secured o r =
      (t : TlsSettings)
      → o ≡ some t
      → (cert : lib.crypto.Certificate) × (lib.crypto.load_key_pair t.cert t.key ≡ ok cert)
        × Configured lib.crypto t cert r

  make_tls-Safe : (o : Option TlsSettings) → Safe (Secured o) (make_tls lib o)
  make_tls-Safe none = λ t e. absurd cc
  make_tls-Safe (some t) = made (init_tls lib.crypto t) refl
    where
      made :
          (r : Result v (Option (TlsConfig lib.crypto)))
          → init_tls lib.crypto t ≡ r
          → Safe (Secured (some t)) (of_result r)
      made (ok o) e = λ t' q.
          let same : t ≡ t' = cc in
          subst
            (λ t'.
              (cert : lib.crypto.Certificate) × (lib.crypto.load_key_pair t'.cert t'.key ≡ ok cert)
              × Configured lib.crypto t' cert o)
            same (init_tls-Configured lib.crypto t o e)
      made (err x) e = tt

  filled-Safe :
      (r : Option (GoError v) × Config lib.config_lib)
      → IsFilled lib.config_lib r.1
      → Settled r.1.metrics
      → Safe (λ c. IsFilled lib.config_lib c × Settled c.metrics) (filled lib r)
  filled-Safe (none, c) f k = (f, k)
  filled-Safe (some e, c) f k = tt

  key-Safe : (b : Bool) → Safe (λ u. Unit {0}) (check_key lib b)
  key-Safe true = tt
  key-Safe false = tt

  -- The configurer gives settings for statsd when it is asked to fill them.
  module _ (allocates : (o q : Option Statsd) → lib.read_statsd o ≡ ok q → q ≢ none) where
    driver-Safe : (m : Metrics) → Safe (λ m. Settled (some m)) (read_driver lib m)
    unfolding read_driver
    driver-Safe m = elim (Bool-cases (str_eq m.driver driver_statsd)) [
      | inl e ↦ rw e (
          Safe-next (λ q. lib.read_statsd m.statsd ≡ ok q) (λ m. Settled (some m))
            (of_result (lib.read_statsd m.statsd)) _ (Safe-result (lib.read_statsd m.statsd))
            (λ q r d. allocates m.statsd q r))
      | inr e ↦ rw e (
          Safe-next (λ q. lib.read_prometheus m.prometheus ≡ ok q) (λ m. Settled (some m))
            (of_result (lib.read_prometheus m.prometheus)) _
            (Safe-result (lib.read_prometheus m.prometheus))
            (λ q r d. let b = (eq_iff m.driver driver_statsd).1 d in absurd cc))
    ]

    read-Safe : (o : Option Metrics) → Safe Settled (read_metrics lib o)
    read-Safe none = tt
    read-Safe (some m) =
        Safe-next (λ m. Settled (some m)) Settled (read_driver lib m) (λ m. returns (some m))
          (driver-Safe m) (λ m k. k)

    chain-Safe : Safe Ready (init_chain lib)
    chain-Safe =
        Safe-next (λ u. Unit {0}) Ready (check_key lib lib.has_key) _ (key-Safe lib.has_key)
          λ _ _.
            Safe-next (λ c. lib.read_config ≡ ok c) Ready (of_result lib.read_config) _
              (Safe-result lib.read_config)
              λ c _.
                Safe-next Settled Ready (read_metrics lib c.metrics) _ (read-Safe c.metrics) λ m k.
                  let given = record c { metrics = m } in
                  Safe-next (λ c. IsFilled lib.config_lib c × Settled c.metrics) Ready
                    (filled lib (init_default lib.config_lib given)) _
                    (filled-Safe (init_default lib.config_lib given)
                      (init_default-IsFilled lib.config_lib given).0 (init_default-Settled given k))
                    λ d f.
                      Safe-next (Secured d.tls) Ready (make_tls lib d.tls) _ (make_tls-Safe d.tls)
                        λ t q.
                          Safe-next (Driven d.metrics) Ready (make_metrics lib d.metrics) _
                            (make_metrics-Safe d f.0 f.1)
                            (λ h g. record { filled = f.0; secured = q; driven = g })

    -- If the configurer gives settings for statsd when it is asked to, then `Init` never panics, and if
    -- it returns no error, the configuration has its defaults; if there are TLS settings, their key pair
    -- was loaded, and the TLS configuration is made of it, or there is none, because a root CA file was
    -- named in which no certificate was found; and there is a metrics handler exactly if there are
    -- metrics, whose driver is one of the two.
    pub init-Ready : Safe Ready (init lib)
    unfolding init
    init-Ready = Safe-wrapped Ready "temporal_plugin_init" (init_chain lib) chain-Safe
