-- ===== src/Tls.antt =====
-- tls.go: the TLS configuration of the client. The file system and crypto/tls are parameters.
pub mod Outcome
use roadrunner_temporal.Base.{
  ℕ, String, str_eq, Bool, true, false, Option, none, some, List, [], ◌∷◌, if◌then◌else◌,
}
use roadrunner_temporal.Vendor.{Vendor}
use roadrunner_temporal.Errors.{Result, ok, ◌>>=◌, ◌>>◌}
use roadrunner_temporal.Payload.{Bytes}

-- The part of `TLS` in config.go that `initTLS` reads.
pub record TlsSettings : Type 0 where
  pub key : String
  pub cert : String
  pub root_ca : String
  pub server_name : String
  pub auth_type : String
  pub auth : ℕ

-- `LoadX509KeyPair`, `SystemCertPool`, which may give a nil pool, `NewCertPool`, `ReadFile` and
-- `AppendCertsFromPEM`, which gives the pool with what it could read, and whether there was anything.
pub record Crypto (v : Vendor) : Type 1 where
  pub Certificate : Type 0
  pub CertPool : Type 0
  pub load_key_pair : String → String → Result v Certificate
  pub system_cert_pool : Result v (Option CertPool)
  pub new_cert_pool : CertPool
  pub read_file : String → Result v Bytes
  pub append_certs : CertPool → Bytes → CertPool × Bool

module _ {v : Vendor} (c : Crypto v) where
  -- `tls.Config`; a client authentication of 0 is `NoClientCert`, the zero value.
  pub record TlsConfig : Type 0 where
    pub min_version : ℕ
    pub client_auth : ℕ
    pub certificates : List c.Certificate
    pub client_cas : Option c.CertPool
    pub root_cas : Option c.CertPool
    pub server_name : String

  -- `tls.VersionTLS12`.
  abbrev pub version_tls12 : ℕ
  version_tls12 = 771

  abbrev pub or_new : Option c.CertPool → c.CertPool
  or_new none = c.new_cert_pool
  or_new (some p) = p

  -- With no certificate in the file, `initTLS` returns a nil configuration and an error that is nil.
  abbrev pub appended :
      TlsSettings → c.Certificate → c.CertPool × Bool → Result v (Option TlsConfig)
  appended t cert (pool, false) = ok none
  appended t cert (pool, true) = ok (
      some (record {
        min_version = version_tls12;
        client_auth = t.auth;
        certificates = cert ∷ [];
        client_cas = some pool;
        root_cas = some pool;
        server_name = t.server_name;
      }))

  abbrev pub with_root : TlsSettings → Result v (Option TlsConfig)
  with_root t = do
    cert ← c.load_key_pair t.cert t.key
    pool ← c.system_cert_pool
    rca ← c.read_file t.root_ca
    appended t cert (c.append_certs (or_new pool) rca)

  abbrev pub without_root : TlsSettings → Result v (Option TlsConfig)
  without_root t = do
    cert ← c.load_key_pair t.cert t.key
    ok (
        some (record {
          min_version = version_tls12;
          client_auth = 0;
          certificates = cert ∷ [];
          client_cas = none;
          root_cas = none;
          server_name = t.server_name;
        }))

  -- `none` is a nil configuration.
  unfoldable pub init_tls : TlsSettings → Result v (Option TlsConfig)
  init_tls t = if str_eq t.root_ca "" then without_root t else with_root t
