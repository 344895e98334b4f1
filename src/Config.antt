-- ===== src/Config.antt =====
-- config.go: the configuration of the plugin and its defaults. The pool's configuration and the
-- file system are parameters.
pub mod Defaults
pub mod Filled
pub mod Given
use roadrunner_temporal.Base.{
  ℕ, String, str_eq, Bool, true, false, Option, none, some, List, [], ◌∷◌, if◌then◌else◌, switch,
}
use roadrunner_temporal.Base.Int.{ℤ, pos, is_zero}
use roadrunner_temporal.Vendor.{Vendor}
use roadrunner_temporal.Errors.{GoError, fault, errorf, wrap}
use roadrunner_temporal.Exec.{Exec, Exit, pure, fail, modify, ◌>>=◌, ◌>>◌, gets}
use roadrunner_temporal.Tls.{TlsSettings}

pub record Statsd : Type 0 where
  pub host_port : String
  pub prefix : String
  pub flush_interval : ℤ
  pub flush_bytes : ℤ
  pub tags : List (String × String)
  pub tag_prefix : String
  pub tag_separator : String

pub record Prometheus : Type 0 where
  pub address : String
  pub type : String
  pub prefix : String

pub record Metrics : Type 0 where
  pub driver : String
  pub prometheus : Option Prometheus
  pub statsd : Option Statsd

-- `pool.Config` of the RoadRunner SDK, with its zero value, `InitDefaults` and the field `Command`;
-- and `os.Stat`, whose error, if it has one, `os.IsNotExist` tests.
pub record ConfigLib (v : Vendor) : Type 1 where
  pub PoolConfig : Type 0
  pub no_pool_config : PoolConfig
  pub init_defaults : PoolConfig → PoolConfig
  pub stat : String → Option v.Fault
  pub is_not_exist : v.Fault → Bool

abbrev pub driver_prometheus : String
driver_prometheus = "prometheus"

abbrev pub driver_statsd : String
driver_statsd = "statsd"

-- `tls.ClientAuthType` numbers the ways of client authentication from `NoClientCert` on, which is 0.
abbrev pub auth_types : List (String × ℕ)
auth_types =
    ("no_client_cert", 0)
    ∷ ("request_client_cert", 1)
    ∷ ("require_any_client_cert", 2)
    ∷ ("verify_client_cert_if_given", 3)
    ∷ ("require_and_verify_client_cert", 4)
    ∷ []

abbrev pub or_no_cert : Option ℕ → ℕ
or_no_cert none = 0
or_no_cert (some n) = n

abbrev pub auth_number : String → ℕ
auth_number name = or_no_cert (switch name auth_types)

abbrev pub or_text : String → String → String
or_text text default = if str_eq text "" then default else text

abbrev pub or_prometheus : Option Prometheus → Prometheus
or_prometheus none = record { address = ""; type = ""; prefix = "" }
or_prometheus (some p) = p

abbrev pub prometheus_defaults : Prometheus → Prometheus
prometheus_defaults p = record p {
  type = or_text p.type "summary";
  address = or_text p.address "127.0.0.1:9091";
}

abbrev pub statsd_defaults : Option Statsd → Option Statsd
statsd_defaults none = none
statsd_defaults (some s) = some (record s { host_port = or_text s.host_port "127.0.0.1:8125" })

-- The `switch` on the driver, which is no longer empty.
abbrev pub driver_defaults : Metrics → Metrics
driver_defaults m =
    if str_eq m.driver driver_prometheus
    then record m { prometheus = some (prometheus_defaults (or_prometheus m.prometheus)) }
    else (if str_eq m.driver driver_statsd
        then record m { statsd = statsd_defaults m.statsd }
        else m)

abbrev pub metrics_defaults : Option Metrics → Option Metrics
metrics_defaults none = none
metrics_defaults (some m) =
    some (driver_defaults (record m { driver = or_text m.driver driver_prometheus }))

module _ {v : Vendor} (lib : ConfigLib v) where
  pub record Config : Type 0 where
    pub metrics : Option Metrics
    pub activities : Option lib.PoolConfig
    pub tls : Option TlsSettings
    pub address : String
    pub namespace : String
    pub cache_size : ℤ

  abbrev pub or_pool_config : Option lib.PoolConfig → lib.PoolConfig
  or_pool_config none = lib.no_pool_config
  or_pool_config (some c) = c

  -- Everything before the checks of the files.
  unfoldable pub with_defaults : Config → Config
  with_defaults c = record c {
    activities = some (lib.init_defaults (or_pool_config c.activities));
    cache_size = if is_zero c.cache_size then pos 10000 else c.cache_size;
    namespace = or_text c.namespace "default";
    metrics = metrics_defaults c.metrics;
  }

  -- What is made of the error of `os.Stat`.
  abbrev pub stat_error : String → String → Option v.Fault → Option (GoError v)
  stat_error format path none = none
  stat_error format path (some f) =
      some
        (wrap "init_defaults_temporal" (if lib.is_not_exist f then errorf format path else fault f))

  abbrev pub or_else : Option (GoError v) → Option (GoError v) → Option (GoError v)
  or_else none next = next
  or_else (some e) next = some e

  -- The first of the three files that cannot be used; a root CA is optional.
  unfoldable pub file_error : TlsSettings → Option (GoError v)
  file_error t = or_else (stat_error "key file '%s' does not exists" t.key (lib.stat t.key)) (
      or_else (stat_error "cert file '%s' does not exists" t.cert (lib.stat t.cert)) (
        if str_eq t.root_ca ""
        then none
        else stat_error "root ca path provided, but key file '%s' does not exists" t.root_ca
            (lib.stat t.root_ca)))

  -- The authentication type is used only with a root CA.
  abbrev pub with_auth : TlsSettings → TlsSettings
  with_auth t = record t { auth = if str_eq t.root_ca "" then t.auth else auth_number t.auth_type }

  abbrev pub checked_files : TlsSettings → Option (GoError v) → Config → Option (GoError v) × Config
  checked_files t none c = (none, record c { tls = some (with_auth t) })
  checked_files t (some e) c = (some e, c)

  abbrev pub tls_defaults : Option TlsSettings → Config → Option (GoError v) × Config
  tls_defaults none c = (none, c)
  tls_defaults (some t) c = checked_files t (file_error t) c

  -- The error, if there is one, and the configuration as it is then.
  unfoldable pub init_default : Config → Option (GoError v) × Config
  unfolding with_defaults file_error
  init_default c = tls_defaults c.tls (with_defaults c)
