-- ===== src/Tls/Verifying.antt =====
-- How the client of an upstream verifies the server.
use partly_proxy.Base.{
  String, Bytes, Bool, true, false, Option, none, some, List, [], ◌∷◌, ◌≡◌, refl, sym, ap, ◌∙◌, ◌⊎◌,
  inl, inr, Bool-cases, if_true, if_false,
}
use partly_proxy.Types.Error.{ok, Fallible, fine, failed, bind_ok}
use partly_proxy.Config.{UpstreamTlsConfig}
use partly_proxy.Tls.{
  Rustls, or_tls, ClientConfig, unverified, trusting, add_certs, with_custom_ca, verified,
  build_client_config, all_certs,
}

or_tls_ok :
    {A : Type 0} (context : List String) (r : Fallible A) (a : A)
    → or_tls context r ≡ ok a
    → r ≡ fine a
unfolding or_tls
or_tls_ok context (fine b) a h = let e : b ≡ a = cc h in ap fine e
or_tls_ok context (failed x) a h = absurd (cc h)

module _ (rustls : Rustls) where
  -- The store `grown` is `roots` with the certificates added one by one.
  abbrev pub AddsTo : rustls.Roots → List rustls.Cert → rustls.Roots → Type 0
  AddsTo roots [] grown = roots ≡ grown
  AddsTo roots (cert ∷ certs) grown =
      (more : rustls.Roots) × (rustls.add roots cert ≡ fine more) × AddsTo more certs grown

  -- What is trusted: the roots of Mozilla and, where a file is named, every certificate in it.
  abbrev pub Trusts : Option String → rustls.Roots → Type 0
  Trusts none roots = rustls.mozilla ≡ roots
  Trusts (some path) roots =
      (pem : Bytes) × (certs : List rustls.Cert) × (rustls.read path ≡ fine pem)
      × (all_certs rustls (rustls.certs pem) ≡ fine certs)
      × AddsTo rustls.mozilla certs roots

  abbrev pub accepts_invalid : Option UpstreamTlsConfig → Bool
  accepts_invalid none = false
  accepts_invalid (some cfg) = cfg.accept_invalid_certs

  abbrev pub custom_ca : Option UpstreamTlsConfig → Option String
  custom_ca none = none
  custom_ca (some cfg) = cfg.custom_ca_cert

  add_certs_ok :
      (items : List (Fallible rustls.Cert)) (roots grown : rustls.Roots)
      → add_certs rustls roots items ≡ ok grown
      → (certs : List rustls.Cert) × (all_certs rustls items ≡ fine certs)
        × AddsTo roots certs grown
  unfolding add_certs all_certs
  add_certs_ok [] roots grown h = ([], refl, cc h)
  add_certs_ok (item ∷ items) roots grown h =
      let (cert, parsed, later) = bind_ok (or_tls ("parse custom_ca_cert: " ∷ []) item) _ grown h in
      let (more, added, rest) =
        bind_ok (or_tls ("add custom_ca_cert: " ∷ []) (rustls.add roots cert)) _ grown later in
      let (certs, all, adds) = add_certs_ok items more grown rest in
      let one = or_tls_ok ("parse custom_ca_cert: " ∷ []) item cert parsed in
      (
        cert ∷ certs,
        rw (one, all) refl,
        (more, or_tls_ok ("add custom_ca_cert: " ∷ []) (rustls.add roots cert) more added, adds),
      )

  with_custom_ca_ok :
      (path : Option String) (roots : rustls.Roots)
      → with_custom_ca rustls path ≡ ok roots
      → Trusts path roots
  unfolding with_custom_ca
  with_custom_ca_ok none roots h = cc h
  with_custom_ca_ok (some path) roots h =
      let (pem, content, later) =
        bind_ok (or_tls ("read custom_ca_cert at " ∷ path ∷ ": " ∷ []) (rustls.read path)) _ roots
          h in
      let (certs, all, adds) = add_certs_ok (rustls.certs pem) rustls.mozilla roots later in
      (
        pem,
        certs,
        or_tls_ok ("read custom_ca_cert at " ∷ path ∷ ": " ∷ []) (rustls.read path) pem content,
        all,
        adds,
      )

  verified_ok :
      (path : Option String) (config : ClientConfig rustls)
      → verified rustls (with_custom_ca rustls path) ≡ ok config
      → (roots : rustls.Roots) × (config ≡ trusting roots) × Trusts path roots
  unfolding verified
  verified_ok path config h =
      let (roots, trusted, same) = bind_ok (with_custom_ca rustls path) _ config h in
      (roots, cc same, with_custom_ca_ok path roots trusted)

  -- A client that was built verifies no server exactly where its configuration accepts invalid
  -- certificates; otherwise it trusts the roots of Mozilla and, where a file is named, every
  -- certificate in that file, and no others.
  pub build_client_config_verifies :
      (tls : Option UpstreamTlsConfig) (config : ClientConfig rustls)
      → build_client_config rustls tls ≡ ok config
      → ((accepts_invalid tls ≡ true) × (config ≡ unverified))
        ⊎ ((accepts_invalid tls ≡ false)
            × (roots : rustls.Roots) × (config ≡ trusting roots)
            × Trusts (custom_ca tls) roots)
  unfolding build_client_config
  build_client_config_verifies none config h =
      let (roots, same, trusted) = verified_ok none config h in inr (refl, roots, same, trusted)
  build_client_config_verifies (some cfg) config h = elim (Bool-cases cfg.accept_invalid_certs) [
    | inl invalid ↦ inl (invalid, cc (sym (if_true _ _ invalid) ∙ h))
    | inr checked ↦
        let (roots, same, trusted) =
          verified_ok cfg.custom_ca_cert config (sym (if_false _ _ checked) ∙ h) in
        inr (checked, roots, same, trusted)
  ]
