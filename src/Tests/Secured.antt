-- ===== src/Tests/Secured.antt =====
-- Runs of `initTLS` with a root CA file that holds one certificate, and of `Init`.
use roadrunner_temporal.Base.{ℕ, ◌≡◌, ◌≢◌, refl, true, Option, none, some, List, [], ◌∷◌}
use roadrunner_temporal.Base.Int.{pos}
use roadrunner_temporal.Errors.{Result, ok, str}
use roadrunner_temporal.Config.{Statsd}
use roadrunner_temporal.Metrics.{MetricsLib}
use roadrunner_temporal.Plugin.Init.{InitLib, init}
use roadrunner_temporal.Plugin.Init.Safe.{Safe}
use roadrunner_temporal.Plugin.Init.Ready.{Ready, init-Ready}
use roadrunner_temporal.Tests.Setup.{demo_config_lib}
use roadrunner_temporal.Tls.{TlsSettings, Crypto, TlsConfig, init_tls}
use roadrunner_temporal.Tls.Outcome.{Configured, init_tls-Configured}
use roadrunner_temporal.Tests.{demo_vendor}

abbrev demo_crypto : Crypto demo_vendor
demo_crypto = record {
  Certificate = ℕ;
  CertPool = List ℕ;
  load_key_pair = λ cert key. ok 4;
  system_cert_pool = ok none;
  new_cert_pool = [];
  read_file = λ name. ok (8 ∷ []);
  append_certs = λ pool bytes. (8 ∷ pool, true);
}

abbrev demo_settings : TlsSettings
demo_settings = record {
  key = "client.key";
  cert = "client.crt";
  root_ca = "ca.pem";
  server_name = "temporal";
  auth_type = "require_any_client_cert";
  auth = 2;
}

abbrev demo_config : TlsConfig demo_crypto
demo_config = record {
  min_version = 771;
  client_auth = 2;
  certificates = 4 ∷ [];
  client_cas = some (8 ∷ []);
  root_cas = some (8 ∷ []);
  server_name = "temporal";
}

initialised : init_tls demo_crypto demo_settings ≡ ok (some demo_config)
unfolding init_tls
initialised = refl

init_tls-Configured_example :
    (cert : ℕ) × (demo_crypto.load_key_pair "client.crt" "client.key" ≡ ok cert)
    × Configured demo_crypto demo_settings cert (some demo_config)
init_tls-Configured_example =
    init_tls-Configured demo_crypto demo_settings (some demo_config) initialised

-- Metrics are numbers here.
abbrev demo_metrics : MetricsLib demo_vendor
demo_metrics = record {
  PrometheusReporter = ℕ;
  StatsdClient = ℕ;
  StatsdReporter = ℕ;
  Scope = ℕ;
  Closer = ℕ;
  Handler = ℕ;
  prometheus_reporter = λ address type. ok 1;
  prometheus_root = λ r prefix. (2, 3);
  statsd_client = λ c. ok 4;
  statsd_reporter = λ c separator. 5;
  statsd_root = λ r prefix tags. (6, 7);
  new_handler = λ scope. scope;
}

abbrev demo_statsd : Statsd
demo_statsd = record {
  host_port = "";
  prefix = "rr";
  flush_interval = pos 0;
  flush_bytes = pos 0;
  tags = [];
  tag_prefix = "";
  tag_separator = "";
}

abbrev demo_init : InitLib demo_vendor
demo_init = record {
  config_lib = demo_config_lib;
  crypto = demo_crypto;
  metrics_lib = demo_metrics;
  has_key = true;
  disabled = str "disabled";
  read_config = ok (record {
    metrics = some (record { driver = "statsd"; prometheus = none; statsd = none });
    activities = none;
    tls = some demo_settings;
    address = "127.0.0.1:7233";
    namespace = "";
    cache_size = pos 0;
  });
  read_prometheus = λ p. ok p;
  read_statsd = λ s. ok (some demo_statsd);
}

demo_allocates :
    (o q : Option Statsd)
    → ◌≡◌ {A = Result demo_vendor (Option Statsd)} (ok (some demo_statsd)) (ok q)
    → q ≢ none
demo_allocates o q e n = cc

init-Ready_example : Safe (Ready demo_init) (init demo_init)
init-Ready_example = init-Ready demo_init demo_allocates
