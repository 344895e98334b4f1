-- ===== src/Plugin/Init.antt =====
-- `Init` of plugin.go: from the configuration file to a plugin that can be served. The events bus, the
-- channels and the empty maps that it makes are left out.
pub mod Safe
pub mod Ready
use roadrunner_temporal.Base.{String, str_eq, Bool, true, false, Option, none, some, if◌then◌else◌}
use roadrunner_temporal.Vendor.{Vendor}
use roadrunner_temporal.Errors.{GoError, Result, ok, err, wrap}
use roadrunner_temporal.Exec.{Exit, returns, stops, error, wrap_exit}
use roadrunner_temporal.Config.{
  ConfigLib, Config, Metrics, Prometheus, Statsd, driver_statsd, init_default,
}
use roadrunner_temporal.Tls.{Crypto, TlsConfig, TlsSettings, init_tls}
use roadrunner_temporal.Metrics.{MetricsLib, init_metrics}

-- The configurer: whether the plugin's key is there, what `UnmarshalKey` makes of it, and what it makes
-- of the key of the metrics over the field that it fills; `errors.Disabled`.
pub record InitLib (v : Vendor) : Type 1 where
  pub config_lib : ConfigLib v
  pub crypto : Crypto v
  pub metrics_lib : MetricsLib v
  pub has_key : Bool
  pub disabled : GoError v
  pub read_config : Result v (Config config_lib)
  pub read_prometheus : Option Prometheus → Result v (Option Prometheus)
  pub read_statsd : Option Statsd → Result v (Option Statsd)

module _ {v : Vendor} {A B : Type 0} where
  abbrev pub next : Exit v A → (A → Exit v B) → Exit v B
  next (returns a) f = f a
  next (stops x) f = stops x

module _ {v : Vendor} {A : Type 0} where
  abbrev pub of_result : Result v A → Exit v A
  of_result (ok a) = returns a
  of_result (err e) = stops (error e)

module _ {v : Vendor} (lib : InitLib v) where
  -- What `Init` leaves in the plugin and its `temporal`.
  pub record Initialized : Type 0 where
    pub config : Config lib.config_lib
    pub tls_cfg : Option (TlsConfig lib.crypto)
    pub metrics : Option (lib.metrics_lib.Handler × lib.metrics_lib.Closer)

  abbrev pub check_key : Bool → Exit v (Unit {0})
  check_key true = returns tt
  check_key false = stops (error lib.disabled)

  -- The `switch` on the driver, whose default is Prometheus.
  unfoldable pub read_driver : Metrics → Exit v Metrics
  read_driver m =
      if str_eq m.driver driver_statsd
      then next (of_result (lib.read_statsd m.statsd)) (λ s. returns (record m { statsd = s }))
      else next (of_result (lib.read_prometheus m.prometheus))
          (λ p. returns (record m { prometheus = p }))

  abbrev pub read_metrics : Option Metrics → Exit v (Option Metrics)
  read_metrics none = returns none
  read_metrics (some m) = next (read_driver m) (λ m. returns (some m))

  abbrev pub filled : Option (GoError v) × Config lib.config_lib → Exit v (Config lib.config_lib)
  filled (none, c) = returns c
  filled (some e, c) = stops (error e)

  abbrev pub make_tls : Option TlsSettings → Exit v (Option (TlsConfig lib.crypto))
  make_tls none = returns none
  make_tls (some t) = of_result (init_tls lib.crypto t)

  abbrev pub make_metrics :
      Option Metrics → Exit v (Option (lib.metrics_lib.Handler × lib.metrics_lib.Closer))
  make_metrics none = returns none
  make_metrics (some m) = next (init_metrics lib.metrics_lib m) (λ h. returns (some h))

  abbrev pub init_chain : Exit v Initialized
  init_chain = next (check_key lib.has_key) λ _. next (of_result lib.read_config) λ c.
      next (read_metrics c.metrics) λ m.
        next (filled (init_default lib.config_lib (record c { metrics = m }))) λ c.
          next (make_tls c.tls) λ t.
            next (make_metrics c.metrics)
              λ h. returns (record { config = c; tls_cfg = t; metrics = h })

  -- Every error is wrapped in the name of the operation.
  unfoldable pub init : Exit v Initialized
  unfolding read_driver
  init = wrap_exit "temporal_plugin_init" init_chain
