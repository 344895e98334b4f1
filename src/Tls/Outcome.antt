-- ===== src/Tls/Outcome.antt =====
-- What `initTLS` of tls.go returns when it returns no error.
use roadrunner_temporal.Base.{
  ◌≡◌, ◌≢◌, refl, sym, ap, ◌∙◌, str_eq, eq_iff, Bool, true, false, Option, none, some, [], ◌∷◌,
  Bool-cases, inl, inr, if_true, if_false,
}
use roadrunner_temporal.Vendor.{Vendor}
use roadrunner_temporal.Errors.{ok, ok-injective, >>=-ok}
use roadrunner_temporal.Payload.{Bytes}
use roadrunner_temporal.Tls.{
  TlsSettings, Crypto, TlsConfig, version_tls12, or_new, appended, with_root, without_root,
  init_tls,
}

module _ {v : Vendor} (c : Crypto v) (t : TlsSettings) where
  -- A root CA file was named and read, and no certificate was found in it.
  pub record FoundNone : Type 0 where
    pub named : t.root_ca ≢ ""
    pub pool : Option c.CertPool
    pub from_system : c.system_cert_pool ≡ ok pool
    pub bytes : Bytes
    pub read : c.read_file t.root_ca ≡ ok bytes
    pub nothing : (c.append_certs (or_new c pool) bytes).1 ≡ false

  -- The key pair was loaded; and the configuration asks for TLS 1.2 or later, with this key pair and
  -- server name, and, if a root CA was named, with the asked client authentication; if there is no
  -- configuration, then the root CA file had no certificate in it.
  abbrev pub Configured : c.Certificate → Option (TlsConfig c) → Type 0
  Configured cert none = FoundNone
  Configured cert (some config) =
      (config.min_version ≡ version_tls12 c)
      × (config.certificates ≡ cert ∷ [])
      × (config.server_name ≡ t.server_name)
      × (config.root_cas ≡ config.client_cas)
      × (t.root_ca ≢ "" → (config.client_auth ≡ t.auth) × (config.root_cas ≢ none))

  appended-Configured :
      (cert : c.Certificate) (pool : Option c.CertPool) (bytes : Bytes)
      → t.root_ca ≢ ""
      → c.system_cert_pool ≡ ok pool
      → c.read_file t.root_ca ≡ ok bytes
      → (r : c.CertPool × Bool) → c.append_certs (or_new c pool) bytes ≡ r
      → (o : Option (TlsConfig c)) → appended c t cert r ≡ ok o
      → Configured cert o
  appended-Configured cert pool bytes n s f (p, false) a o h = rw (← ok-injective h) (record {
    named = n;
    pool = pool;
    from_system = s;
    bytes = bytes;
    read = f;
    nothing = ap (λ r. r.1) a;
  })
  appended-Configured cert pool bytes n s f (p, true) a o h =
      rw (← ok-injective h) (refl, refl, refl, refl, λ _. (refl, λ e. cc))

  -- If `initTLS` returns no error, then the key pair was loaded. A configuration that it returns asks
  -- for TLS 1.2 at least, with this key pair and server name; if a root CA was named, it also has the
  -- client authentication asked for and a pool of root certificates. It returns no configuration, and
  -- no error either, only if a root CA file was named and no certificate was found in it.
  pub init_tls-Configured :
      (o : Option (TlsConfig c))
      → init_tls c t ≡ ok o
      → (cert : c.Certificate) × (c.load_key_pair t.cert t.key ≡ ok cert) × Configured cert o
  unfolding init_tls
  init_tls-Configured o h = elim (Bool-cases (str_eq t.root_ca "")) [
    | inl e ↦
        let (cert, loaded, k) =
          >>=-ok (c.load_key_pair t.cert t.key) _
            (sym (if_true (without_root c t) (with_root c t) e) ∙ h) in
        (
          cert,
          loaded,
          rw (← ok-injective k)
              (refl, refl, refl, refl, λ n. absurd (n ((eq_iff t.root_ca "").0 e))),
        )
    | inr e ↦
        let (cert, loaded, k) =
          >>=-ok (c.load_key_pair t.cert t.key) _
            (sym (if_false (without_root c t) (with_root c t) e) ∙ h) in
        let (pool, s, k') = >>=-ok c.system_cert_pool _ k in
        let (bytes, f, k'') = >>=-ok (c.read_file t.root_ca) _ k' in
        (
          cert,
          loaded,
          appended-Configured cert pool bytes (λ q. let b = (eq_iff t.root_ca "").1 q in cc) s f
              (c.append_certs (or_new c pool) bytes) refl o k'',
        )
  ]
