-- ===== src/Tls.antt =====
-- crates/partly-proxy-lib/src/tls.rs: what the two TLS configurations are built from. The file system
-- and the crates rustls, rustls_pemfile and webpki_roots are a parameter; the crypto provider is
-- installed once and has no other effect.
pub mod Verifying
use partly_proxy.Base.{
  String, Bytes, Bool, true, false, Option, none, some, List, [], ◌∷◌, ◌++◌, if◌then◌else◌, format,
}
use partly_proxy.Types.Error.{
  ProxyError, Result, ok, err, tls, Fallible, fine, failed, ok_or, ◌>>=◌,
}
use partly_proxy.Config.{UpstreamTlsConfig, InboundTlsConfig, UpstreamTarget}
use partly_proxy.Builder.{System}

pub record Rustls : Type 1 where
  -- `std::fs::read`
  pub read : String → Fallible Bytes
  pub Cert : Type 0
  pub Key : Type 0
  -- `rustls_pemfile::certs` and `private_key`
  pub certs : Bytes → List (Fallible Cert)
  pub private_key : Bytes → Fallible (Option Key)
  pub Roots : Type 0
  -- `TLS_SERVER_ROOTS` in an empty store, and `RootCertStore::add`
  pub mozilla : Roots
  pub add : Roots → Cert → Fallible Roots
  pub Acceptor : Type 0
  -- `ServerConfig::builder()…with_single_cert`
  pub with_single_cert : List Cert → Key → Fallible Acceptor

-- `.map_err(|e| ProxyError::Tls(format!(…)))`, with the text in front of the error's.
unfoldable pub or_tls : {A : Type 0} → List String → Fallible A → Result A
unfolding format
or_tls context (fine a) = ok a
or_tls context (failed e) = err (tls (format (context ++ e ∷ [])))

module _ (rustls : Rustls) where
  -- `ClientConfig`, by how it verifies a server: not at all, or against trusted roots.
  pub data ClientConfig : Type 0 where
    unverified : ClientConfig
    trusting : rustls.Roots → ClientConfig

  unfoldable pub add_certs : rustls.Roots → List (Fallible rustls.Cert) → Result rustls.Roots
  unfolding or_tls
  add_certs roots [] = ok roots
  add_certs roots (item ∷ items) = or_tls ("parse custom_ca_cert: " ∷ []) item >>= λ cert.
      or_tls ("add custom_ca_cert: " ∷ []) (rustls.add roots cert) >>= λ more. add_certs more items

  unfoldable pub with_custom_ca : Option String → Result rustls.Roots
  unfolding or_tls add_certs
  with_custom_ca none = ok rustls.mozilla
  with_custom_ca (some path) =
      or_tls ("read custom_ca_cert at " ∷ path ∷ ": " ∷ []) (rustls.read path) >>= λ pem.
      add_certs rustls.mozilla (rustls.certs pem)

  unfoldable pub verified : Result rustls.Roots → Result ClientConfig
  verified roots = roots >>= λ r. ok (trusting r)

  -- `build_client_config`
  unfoldable pub build_client_config : Option UpstreamTlsConfig → Result ClientConfig
  unfolding verified with_custom_ca
  build_client_config none = verified (with_custom_ca none)
  build_client_config (some cfg) =
      let checked = verified (with_custom_ca cfg.custom_ca_cert) in
      if cfg.accept_invalid_certs then ok unverified else checked

  -- `collect` of the certificates, up to the first error.
  unfoldable pub all_certs : List (Fallible rustls.Cert) → Fallible (List rustls.Cert)
  all_certs [] = fine []
  all_certs (failed e ∷ items) = failed e
  all_certs (fine cert ∷ items) = elim (all_certs items) [
    | failed e ↦ failed e
    | fine certs ↦ fine (cert ∷ certs)
  ]

  unfoldable pub load_certs : String → Result (List rustls.Cert)
  unfolding or_tls all_certs
  load_certs path = or_tls ("read cert at " ∷ path ∷ ": " ∷ []) (rustls.read path) >>= λ pem.
      or_tls ("parse cert chain at " ∷ path ∷ ": " ∷ []) (all_certs (rustls.certs pem))

  unfoldable pub load_private_key : String → Result rustls.Key
  unfolding or_tls format
  load_private_key path = or_tls ("read key at " ∷ path ∷ ": " ∷ []) (rustls.read path) >>= λ pem.
      or_tls ("parse private key at " ∷ path ∷ ": " ∷ []) (rustls.private_key pem) >>= λ key.
      ok_or key (tls (format ("no private key in PEM at " ∷ path ∷ [])))

  -- `build_tls_acceptor`
  unfoldable pub build_tls_acceptor : InboundTlsConfig → Result rustls.Acceptor
  unfolding load_certs load_private_key or_tls
  build_tls_acceptor cfg = load_certs cfg.cert_path >>= λ certs.
      load_private_key cfg.key_path >>= λ key.
      or_tls ("invalid cert/key pair: " ∷ []) (rustls.with_single_cert certs key)

  -- The parts of the operating system that a run of the builder asks, over these files.
  unfoldable pub system : (String → List String → Result String) → System
  unfolding build_tls_acceptor build_client_config
  system bind = record {
    tls_acceptor = λ cfg. build_tls_acceptor cfg >>= λ acceptor. ok tt;
    tls_client = λ target. build_client_config target.tls >>= λ config. ok tt;
    bind = bind;
  }
