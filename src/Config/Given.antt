-- ===== src/Config/Given.antt =====
-- What `InitDefault` of config.go makes of each setting, by whether the user gave it.
use roadrunner_temporal.Base.{
  ℕ, String, str_eq, eq_iff, ◌≡◌, ◌≢◌, refl, sym, subst, ◌∙◌, true, false, Option, none, some,
  Bool-cases, inl, inr, if_true, if_false,
}
use roadrunner_temporal.Base.Int.{pos, is_zero}
use roadrunner_temporal.Vendor.{Vendor}
use roadrunner_temporal.Errors.{GoError}
use roadrunner_temporal.Tls.{TlsSettings}
use roadrunner_temporal.Config.{
  Metrics, ConfigLib, Config, driver_prometheus, or_text, metrics_defaults, with_auth,
  with_defaults, file_error, checked_files, tls_defaults, init_default,
}
use roadrunner_temporal.Config.Defaults.{driver_kept}

-- A text that was given is kept, and an empty one becomes the default.
abbrev pub TextOr : String → String → String → Type 0
TextOr default given left = (given ≢ "" → left ≡ given) × (given ≡ "" → left ≡ default)

or_text-TextOr : (given default : String) → TextOr default given (or_text given default)
or_text-TextOr given default = elim (Bool-cases (str_eq given "")) [
  | inl e ↦ (λ n. absurd (n ((eq_iff given "").0 e)), λ _. if_true default given e)
  | inr e ↦ (λ _. if_false default given e, λ q. let b = (eq_iff given "").1 q in absurd cc)
]

-- Metrics stay metrics, with the driver that was given or Prometheus.
abbrev pub MetricsOr : Option Metrics → Option Metrics → Type 0
MetricsOr none left = left ≡ none
MetricsOr (some m) left =
    (n : Metrics) × (left ≡ some n) × TextOr driver_prometheus m.driver n.driver

metrics_defaults-MetricsOr : (o : Option Metrics) → MetricsOr o (metrics_defaults o)
metrics_defaults-MetricsOr none = refl
metrics_defaults-MetricsOr (some m) =
    let k = driver_kept (record m { driver = or_text m.driver driver_prometheus }) in
    let t = or_text-TextOr m.driver driver_prometheus in (_, refl, (λ n. k ∙ t.0 n, λ e. k ∙ t.1 e))

-- Of TLS settings only the way of client authentication may change.
abbrev pub TlsOr : Option TlsSettings → Option TlsSettings → Type 0
TlsOr none left = left ≡ none
TlsOr (some t) left = (n : ℕ) × (left ≡ some (record t { auth = n }))

module _ {v : Vendor} (lib : ConfigLib v) where
  pub record Respects (given left : Config lib) : Type 0 where
    pub address : left.address ≡ given.address
    pub namespace : TextOr "default" given.namespace left.namespace
    pub cached : is_zero given.cache_size ≡ false → left.cache_size ≡ given.cache_size
    pub uncached : is_zero given.cache_size ≡ true → left.cache_size ≡ pos 10000
    pub metrics : MetricsOr given.metrics left.metrics
    pub tls : TlsOr given.tls left.tls

  filled-Respects :
      (c : Config lib) (tls : Option TlsSettings)
      → TlsOr c.tls tls
      → Respects c (record (with_defaults lib c) { tls = tls })
  unfolding with_defaults
  filled-Respects c tls k = record {
    address = refl;
    namespace = or_text-TextOr c.namespace "default";
    cached = λ e. if_false (pos 10000) c.cache_size e;
    uncached = λ e. if_true (pos 10000) c.cache_size e;
    metrics = metrics_defaults-MetricsOr c.metrics;
    tls = k;
  }

  TlsOr-same : (o : Option TlsSettings) → TlsOr o o
  TlsOr-same none = refl
  TlsOr-same (some t) = (t.auth, refl)

  checked-Respects :
      (c : Config lib) (t : TlsSettings)
      → c.tls ≡ some t
      → (e : Option (GoError v)) → Respects c (checked_files lib t e (with_defaults lib c)).1
  unfolding with_defaults
  checked-Respects c t k none =
      filled-Respects c (some (with_auth lib t))
        (subst (λ o. TlsOr o (some (with_auth lib t))) (sym k) ((with_auth lib t).auth, refl))
  checked-Respects c t k (some e) = filled-Respects c c.tls (TlsOr-same c.tls)

  -- Whether it fails or not, `InitDefault` leaves the address as it is; it keeps a namespace that is
  -- not empty, a cache size other than zero and a metrics driver that is named, and else sets them to
  -- "default", 10000 and Prometheus; metrics and TLS settings are there afterwards exactly if they were
  -- before; and of TLS settings only the way of client authentication may change.
  pub init_default-Respects : (c : Config lib) → Respects c (init_default lib c).1
  unfolding init_default with_defaults
  init_default-Respects c = settled c.tls refl
    where
      settled :
          (o : Option TlsSettings)
          → c.tls ≡ o
          → Respects c (tls_defaults lib o (with_defaults lib c)).1
      settled none k = filled-Respects c c.tls (TlsOr-same c.tls)
      settled (some t) k = checked-Respects c t k (file_error lib t)
