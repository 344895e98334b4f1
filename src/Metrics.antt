-- ===== src/Metrics.antt =====
-- metrics.go: the metrics handler of the client. Prometheus, statsd and tally are parameters.
use roadrunner_temporal.Base.{String, str_eq, Option, none, some, List, if◌then◌else◌}
use roadrunner_temporal.Base.Int.{ℤ}
use roadrunner_temporal.Vendor.{Vendor}
use roadrunner_temporal.Errors.{Result, ok, err, errorf}
use roadrunner_temporal.Exec.{Exit, returns, stops, error, panics, of_text}
use roadrunner_temporal.Config.{Metrics, Prometheus, Statsd, driver_prometheus, driver_statsd}

-- `statsd.ClientConfig`, which is buffered.
pub record StatsdClientConfig : Type 0 where
  pub address : String
  pub prefix : String
  pub flush_interval : ℤ
  pub flush_bytes : ℤ

-- `NewReporter` of a Prometheus configuration, `NewClientWithConfig` and `NewReporter` of statsd, and
-- `NewRootScope` with the constant options of each of the two, which gives a scope and its closer.
pub record MetricsLib (v : Vendor) : Type 1 where
  pub PrometheusReporter : Type 0
  pub StatsdClient : Type 0
  pub StatsdReporter : Type 0
  pub Scope : Type 0
  pub Closer : Type 0
  pub Handler : Type 0
  pub prometheus_reporter : (listen_address timer_type : String) → Result v PrometheusReporter
  pub prometheus_root : PrometheusReporter → (prefix : String) → Scope × Closer
  pub statsd_client : StatsdClientConfig → Result v StatsdClient
  pub statsd_reporter : StatsdClient → (tag_separator : String) → StatsdReporter
  pub statsd_root : StatsdReporter → (prefix : String) → List (String × String) → Scope × Closer
  pub new_handler : Scope → Handler

module _ {v : Vendor} (lib : MetricsLib v) where
  abbrev pub handled : lib.Scope × lib.Closer → Exit v (lib.Handler × lib.Closer)
  handled (scope, closer) = returns (lib.new_handler scope, closer)

  abbrev pub with_reporter :
      String → Result v lib.PrometheusReporter → Exit v (lib.Handler × lib.Closer)
  with_reporter prefix (err e) = stops (error e)
  with_reporter prefix (ok r) = handled (lib.prometheus_root r prefix)

  -- `newPrometheusScope`. A nil configuration is dereferenced.
  unfoldable pub prometheus_scope : Option Prometheus → Exit v (lib.Handler × lib.Closer)
  prometheus_scope none =
      stops (panics (of_text "invalid memory address or nil pointer dereference" ""))
  prometheus_scope (some p) = with_reporter p.prefix (lib.prometheus_reporter p.address p.type)

  abbrev pub with_client : Statsd → Result v lib.StatsdClient → Exit v (lib.Handler × lib.Closer)
  with_client s (err e) = stops (error e)
  with_client s (ok c) =
      handled (lib.statsd_root (lib.statsd_reporter c s.tag_separator) s.prefix s.tags)

  -- `newStatsdScope`, which dereferences a nil configuration too.
  unfoldable pub statsd_scope : Option Statsd → Exit v (lib.Handler × lib.Closer)
  statsd_scope none =
      stops (panics (of_text "invalid memory address or nil pointer dereference" ""))
  statsd_scope (some s) = with_client s (
      lib.statsd_client (record {
        address = s.host_port;
        prefix = s.prefix;
        flush_interval = s.flush_interval;
        flush_bytes = s.flush_bytes;
      }))

  unfoldable pub init_metrics : Metrics → Exit v (lib.Handler × lib.Closer)
  unfolding prometheus_scope statsd_scope
  init_metrics m =
      if str_eq m.driver driver_prometheus
      then prometheus_scope m.prometheus
      else (if str_eq m.driver driver_statsd
          then statsd_scope m.statsd
          else stops (error (errorf "unknown driver provided: %s" m.driver)))
