-- ===== src/Tests/Certificates.antt =====
-- A client with a file of certificates: a file is its certificates, and a store is a list of them.
use partly_proxy.Base.{ℕ, true, false, Option, none, some, List, [], ◌∷◌, ◌++◌, ◌≡◌, ◌⊎◌, refl, map}
use partly_proxy.Types.Error.{fine}
use partly_proxy.Config.{UpstreamTlsConfig}
use partly_proxy.Tls.{Rustls, ClientConfig, unverified, trusting, build_client_config}
use partly_proxy.Tls.Verifying.{Trusts, build_client_config_verifies}

abbrev sample_rustls : Rustls
sample_rustls = record {
  read = λ path. fine (7 ∷ 8 ∷ []);
  Cert = ℕ;
  Key = ℕ;
  certs = λ pem. map fine pem;
  private_key = λ pem. fine none;
  Roots = List ℕ;
  mozilla = 1 ∷ [];
  add = λ roots cert. fine (roots ++ cert ∷ []);
  Acceptor = Unit;
  with_single_cert = λ certs key. fine tt;
}

abbrev with_file : Option UpstreamTlsConfig
with_file = some (record { accept_invalid_certs = false; custom_ca_cert = some "ca.pem" })

abbrev found : ClientConfig sample_rustls
found = trusting (1 ∷ 7 ∷ 8 ∷ [])

build_client_config_verifies_example :
    ((false ≡ true) × (found ≡ unverified))
    ⊎ ((false ≡ false)
        × (roots : List ℕ) × (found ≡ trusting roots)
        × Trusts sample_rustls (some "ca.pem") roots)
unfolding build_client_config
build_client_config_verifies_example =
    build_client_config_verifies sample_rustls with_file found refl
