-- ===== src/Forwarder/Outgoing.antt =====
-- The request that goes to the upstream.
use partly_proxy.Base.{
  String, Bytes, false, format, refl, Option, none, some, List, [], ◌∷◌, ◌≡◌, sym, ◌∙◌, ap, ◌==◌,
  if◌then◌else◌, as_bytes, if_false, arith,
}
use partly_proxy.Http.{Http, HeaderLaws}
use partly_proxy.Types.Error.{ProxyError, ok, ok_or, bind_ok}
use partly_proxy.Types.ProxyIo.{ProxyRequest}
use partly_proxy.Forwarder.{
  Forwarder, Outbound, slash_or, build_outbound_uri, set_host, strip_framing, outbound_of,
}

ok_or_ok : {A : Type 0} (o : Option A) (e : ProxyError) (a : A) → ok_or o e ≡ ok a → o ≡ some a
ok_or_ok none e a h = absurd (cc h)
ok_or_ok (some x) e a h = ground (arith, h)

ok_injective : {A : Type 0} (a b : A) → ok a ≡ ok b → a ≡ b
ok_injective a b h = ground (arith, h)

-- The path and the query of an address that has them, and the root otherwise.
abbrev pub path_or_root : Option String → String
path_or_root none = "/"
path_or_root (some path) = path

module _ (http : Http) (laws : HeaderLaws http) where
  -- The values of the header `Host`: the override, if there is one.
  abbrev pub HostValues : Option String → List Bytes → Type 0
  HostValues none values = values ≡ []
  HostValues (some host) values =
      (v : Bytes) × (http.header_value (as_bytes host) ≡ some v) × (values ≡ v ∷ [])

  -- The headers but for the host and those that frame the body.
  abbrev pub FreeOf : String → Type 0
  FreeOf name =
      (("host" == name) ≡ false)
      × (("content-length" == name) ≡ false)
      × (("transfer-encoding" == name) ≡ false)

  set_host_lem :
      (target : Option String) (headers m : http.HeaderMap)
      → set_host http target headers ≡ ok m
      → HostValues target (http.get_all m "host")
        × ((name : String)
            → ("host" == name) ≡ false
            → http.get_all m name ≡ http.get_all headers name)
  unfolding set_host
  set_host_lem none headers m h =
      let e = ok_injective (http.remove headers "host") m h in
      (
        ap (λ hs. http.get_all hs "host") (sym e) ∙ laws.all_remove headers "host" "host",
        λ name apart.
            ap (λ hs. http.get_all hs name) (sym e)
            ∙ laws.all_remove headers "host" name
            ∙ if_false _ _ apart,
      )
  set_host_lem (some host) headers m h =
      let (v, valid, made) = bind_ok (ok_or (http.header_value (as_bytes host)) _) _ m h in
      let e = ok_injective (http.insert headers "host" v) m made in
      (
        (
          v,
          ok_or_ok (http.header_value (as_bytes host)) _ v valid,
          ap (λ hs. http.get_all hs "host") (sym e) ∙ laws.all_insert headers "host" "host" v,
        ),
        λ name apart.
            ap (λ hs. http.get_all hs name) (sym e)
            ∙ laws.all_insert headers "host" name v
            ∙ if_false _ _ apart,
      )

  slash_or_lem : (o : Option String) → slash_or http o ≡ path_or_root o
  slash_or_lem none = refl
  slash_or_lem (some path) = refl

  build_outbound_uri_lem :
      (f : Forwarder) (inbound uri : http.Uri)
      → build_outbound_uri http f inbound ≡ ok uri
      → http.build_uri f.base.scheme f.base.authority
          (format (f.base.path_prefix ∷ path_or_root (http.uri_path_and_query inbound) ∷ []))
        ≡ some uri
  unfolding build_outbound_uri
  build_outbound_uri_lem f inbound uri h =
      ap
        (λ pq.
          http.build_uri f.base.scheme f.base.authority (format (f.base.path_prefix ∷ pq ∷ [])))
        (sym (slash_or_lem (http.uri_path_and_query inbound)))
      ∙ ok_or_ok _ _ uri h

  -- A request that can be sent has the method, body and version of the inbound one and goes to the
  -- upstream's scheme and authority, with the path behind the prefix of the base address. Its host is
  -- the override, or none, for the client to fill in; no header frames the body; all other headers
  -- are those of the inbound request.
  pub outbound_of_lem :
      (f : Forwarder) (req : ProxyRequest http) (out : Outbound http)
      → outbound_of http f req ≡ ok out
      → (out.method ≡ req.method)
        × (out.body ≡ req.body)
        × (out.version ≡ req.version)
        × (http.build_uri f.base.scheme f.base.authority
              (format (f.base.path_prefix ∷ path_or_root (http.uri_path_and_query req.uri) ∷ []))
            ≡ some out.uri)
        × HostValues f.target.host_header (http.get_all out.headers "host")
        × (http.get_all out.headers "content-length" ≡ [])
        × (http.get_all out.headers "transfer-encoding" ≡ [])
        × ((name : String)
            → FreeOf name
            → http.get_all out.headers name ≡ http.get_all req.headers name)
  unfolding outbound_of strip_framing
  outbound_of_lem f req out h =
      let (uri, built, rest) = bind_ok (build_outbound_uri http f req.uri) _ out h in
      let (m, hosted, made) = bind_ok (set_host http f.target.host_header req.headers) _ out rest in
      let e = ok_injective _ out made in
      let (host, others) = set_host_lem f.target.host_header req.headers m hosted in
      let cut = http.remove m "content-length" in
      let stripped : (name : String)
          → http.get_all out.headers name ≡ (
              if "transfer-encoding" == name
              then []
              else (if "content-length" == name then [] else http.get_all m name)) =
        λ name.
          ap (λ (o : Outbound http). http.get_all o.headers name) (sym e)
          ∙ laws.all_remove cut "transfer-encoding" name
          ∙ ap (λ vs. if "transfer-encoding" == name then [] else vs)
              (laws.all_remove m "content-length" name) in
      (
        ap (λ (o : Outbound http). o.method) (sym e),
        ap (λ (o : Outbound http). o.body) (sym e),
        ap (λ (o : Outbound http). o.version) (sym e),
        build_outbound_uri_lem f req.uri uri built ∙ ap (λ (o : Outbound http). some o.uri) e,
        rw (stripped "host") host,
        stripped "content-length",
        stripped "transfer-encoding",
        λ name (a, b, c). stripped name ∙ if_false _ _ c ∙ if_false _ _ b ∙ others name a,
      )
