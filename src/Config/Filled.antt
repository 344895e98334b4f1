-- ===== src/Config/Filled.antt =====
-- What the rest of the plugin may rely on after `InitDefault` of config.go, and when it fails.
use roadrunner_temporal.Base.{
  String, str_eq, eq_iff, ◌≡◌, ◌≢◌, ◌↔◌, refl, sym, ◌∙◌, false, Option, none, some, Bool-cases, inl,
  inr, if◌then◌else◌, if_true, if_false,
}
use roadrunner_temporal.Base.Int.{ℤ, pos, is_zero}
use roadrunner_temporal.Vendor.{Vendor}
use roadrunner_temporal.Errors.{GoError}
use roadrunner_temporal.Tls.{TlsSettings}
use roadrunner_temporal.Config.{
  Prometheus, Metrics, ConfigLib, Config, driver_prometheus, or_text, or_prometheus,
  prometheus_defaults, driver_defaults, metrics_defaults, with_defaults, stat_error, or_else,
  file_error, checked_files, tls_defaults, init_default,
}
use roadrunner_temporal.Config.Defaults.{driver_kept}

or_text-filled : (text default : String) → default ≢ "" → or_text text default ≢ ""
or_text-filled text default n = elim (Bool-cases (str_eq text "")) [
  | inl e ↦ rw (if_true default text e) n
  | inr e ↦ rw (if_false default text e) (λ q. let b = (eq_iff text "").1 q in cc)
]

-- What the rest of the plugin relies on.
pub record IsFilled {v : Vendor} (lib : ConfigLib v) (c : Config lib) : Type 0 where
  pub pools : c.activities ≢ none
  pub cached : is_zero c.cache_size ≡ false
  pub named : c.namespace ≢ ""
  pub metrics : (m : Metrics) → c.metrics ≡ some m → m.driver ≢ ""
  pub served :
      (m : Metrics)
      → c.metrics ≡ some m
      → m.driver ≡ driver_prometheus
      → (p : Prometheus) × (m.prometheus ≡ some p) × (p.type ≢ "") × (p.address ≢ "")

module _ {v : Vendor} (lib : ConfigLib v) where
  metrics_filled :
      (m : Metrics)
      → m.driver ≢ ""
      → (driver_defaults m).driver ≡ driver_prometheus
      → (p : Prometheus) × ((driver_defaults m).prometheus ≡ some p)
        × (p.type ≢ "")
        × (p.address ≢ "")
  metrics_filled m n d =
      let e = (eq_iff m.driver driver_prometheus).1 (sym (driver_kept m) ∙ d) in
      let p = or_prometheus m.prometheus in
      rw e (
        prometheus_defaults p,
        refl,
        or_text-filled p.type "summary" (λ q. cc),
        or_text-filled p.address "127.0.0.1:9091" (λ q. cc),
      )

  with_defaults-IsFilled : (c : Config lib) → IsFilled lib (with_defaults lib c)
  unfolding with_defaults
  with_defaults-IsFilled c = record {
    pools = λ e. cc;
    cached = cached c.cache_size;
    named = or_text-filled c.namespace "default" (λ e. cc);
    metrics = λ m e. (filled c.metrics m e).0;
    served = λ m e. (filled c.metrics m e).1;
  }
    where
      cached : (z : ℤ) → is_zero (if is_zero z then pos 10000 else z) ≡ false
      cached z = elim (Bool-cases (is_zero z)) [
        | inl e ↦ rw (if_true (pos 10000) z e) refl
        | inr e ↦ rw (if_false (pos 10000) z e) e
      ]

      filled :
          (o : Option Metrics) (m : Metrics)
          → metrics_defaults o ≡ some m
          → (m.driver ≢ "")
            × (m.driver ≡ driver_prometheus
                → (p : Prometheus) × (m.prometheus ≡ some p) × (p.type ≢ "") × (p.address ≢ ""))
      filled none m e = absurd cc
      filled (some m') m e =
          let named = record m' { driver = or_text m'.driver driver_prometheus } in
          let same : driver_defaults named ≡ m = cc in
          let n = or_text-filled m'.driver driver_prometheus (λ q. cc) in
          rw (← same) (λ q. n (sym (driver_kept named) ∙ q), metrics_filled named n)

  -- The files that TLS settings name can be read.
  abbrev pub Readable : Option TlsSettings → Type 0
  Readable none = Unit {0}
  Readable (some t) =
      (lib.stat t.key ≡ none)
      × (lib.stat t.cert ≡ none)
      × (t.root_ca ≢ "" → lib.stat t.root_ca ≡ none)

  stat_error-none :
      (format path : String) (o : Option v.Fault)
      → (stat_error lib format path o ≡ none) ↔ (o ≡ none)
  stat_error-none format path none = (λ e. refl, λ e. refl)
  stat_error-none format path (some f) = (λ e. absurd cc, λ e. absurd cc)

  or_else-none : (a b : Option (GoError v)) → (or_else lib a b ≡ none) ↔ ((a ≡ none) × (b ≡ none))
  or_else-none none b = (λ e. (refl, e), λ e. e.1)
  or_else-none (some x) b = (λ e. absurd cc, λ e. absurd cc)

  root_error : TlsSettings → Option (GoError v)
  root_error t =
      if str_eq t.root_ca ""
      then none
      else stat_error lib "root ca path provided, but key file '%s' does not exists" t.root_ca
          (lib.stat t.root_ca)

  root_error-none :
      (t : TlsSettings) → (root_error t ≡ none) ↔ (t.root_ca ≢ "" → lib.stat t.root_ca ≡ none)
  unfolding root_error
  root_error-none t = elim (Bool-cases (str_eq t.root_ca "")) [
    | inl e ↦ rw e (λ _ n. absurd (n ((eq_iff t.root_ca "").0 e)), λ _. refl)
    | inr e ↦
        let k =
          stat_error-none "root ca path provided, but key file '%s' does not exists" t.root_ca
            (lib.stat t.root_ca) in
        rw e (λ q _. k.0 q, λ h. k.1 (h (λ q. let b = (eq_iff t.root_ca "").1 q in cc)))
  ]

  file_error-none : (t : TlsSettings) → (file_error lib t ≡ none) ↔ Readable (some t)
  unfolding file_error root_error
  file_error-none t =
      let key = stat_error-none "key file '%s' does not exists" t.key (lib.stat t.key) in
      let cert = stat_error-none "cert file '%s' does not exists" t.cert (lib.stat t.cert) in
      let root = root_error-none t in
      let inner =
        or_else-none (stat_error lib "cert file '%s' does not exists" t.cert (lib.stat t.cert))
          (root_error t) in
      let outer =
        or_else-none (stat_error lib "key file '%s' does not exists" t.key (lib.stat t.key)) _ in
      (
        λ e. let o = outer.0 e in let i = inner.0 o.1 in (key.0 o.0, cert.0 i.0, root.0 i.1),
        λ r. outer.1 (key.1 r.0, inner.1 (cert.1 r.1, root.1 r.2)),
      )

  checked-IsFilled :
      (t : TlsSettings) (c : Config lib)
      → IsFilled lib c
      → (o : Option (GoError v))
      → IsFilled lib (checked_files lib t o c).1 × ((checked_files lib t o c).0 ≡ o)
  checked-IsFilled t c k none = (
    record {
      pools = k.pools;
      cached = k.cached;
      named = k.named;
      metrics = k.metrics;
      served = k.served;
    },
    refl,
  )
  checked-IsFilled t c k (some e) = (k, refl)

  tls-IsFilled :
      (o : Option TlsSettings) (c : Config lib)
      → IsFilled lib c
      → IsFilled lib (tls_defaults lib o c).1 × (((tls_defaults lib o c).0 ≡ none) ↔ Readable o)
  tls-IsFilled none c k = (k, (λ _. tt, λ _. refl))
  tls-IsFilled (some t) c k =
      let (filled, e) = checked-IsFilled t c k (file_error lib t) in
      let (to, from) = file_error-none t in (filled, (λ q. to (sym e ∙ q), λ r. e ∙ from r))

  -- With an error or without one, `InitDefault` leaves a pool configuration, a cache size that is not
  -- 0 and a namespace; if there are metrics, they name a driver, and the one for Prometheus has a type
  -- and an address. There is no error exactly if there are no TLS settings, or `os.Stat` finds the
  -- key, the certificate, and the root CA if one is named.
  pub init_default-IsFilled :
      (c : Config lib)
      → IsFilled lib (init_default lib c).1 × (((init_default lib c).0 ≡ none) ↔ Readable c.tls)
  unfolding init_default
  init_default-IsFilled c = tls-IsFilled c.tls (with_defaults lib c) (with_defaults-IsFilled c)
