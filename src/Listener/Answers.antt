-- ===== src/Listener/Answers.antt =====
-- What the caller receives: the headers and the status of a response.
use partly_proxy.Base.{
  Bytes, String, false, none, some, [], ◌∷◌, ◌≡◌, refl, ◌∙◌, ◌==◌, as_bytes, if_false,
}
use partly_proxy.Http.{Http, HeaderLaws}
use partly_proxy.Types.Error.{ProxyError, Result, ok, err, to_string, upstream_request}
use partly_proxy.Types.ProxyIo.{ProxyRequest, ProxyResponse}
use partly_proxy.Types.Context.{new_context}
use partly_proxy.Storage.{SnapshotStorage}
use partly_proxy.Middleware.{Outcome, run_chain}
use partly_proxy.Forwarder.{Client}
use partly_proxy.Listener.{
  World, Ambient, invoke, respond, handle_request, into_hyper, bad_gateway, error_kind,
}

module _ (http : Http) (laws : HeaderLaws http) (client : Client http)
    (medium : SnapshotStorage) where
  -- A header map without the headers that frame a body.
  abbrev pub Unframed : http.HeaderMap → Type 0
  Unframed headers =
      (http.get_all headers "content-length" ≡ []) × (http.get_all headers "transfer-encoding" ≡ [])

  into_hyper-Unframed : (resp : ProxyResponse http) → Unframed (into_hyper http resp).headers
  unfolding into_hyper
  into_hyper-Unframed resp =
      let m = http.remove resp.headers "content-length" in
      (
        laws.all_remove m "transfer-encoding" "content-length"
            ∙ laws.all_remove resp.headers "content-length" "content-length",
        laws.all_remove m "transfer-encoding" "transfer-encoding",
      )

  bad_gateway-Unframed : (e : ProxyError) → Unframed (bad_gateway http e).headers
  unfolding bad_gateway
  bad_gateway-Unframed e =
      let value = as_bytes "text/plain; charset=utf-8" in
      let m = http.insert http.no_headers "content-type" value in
      let kind = as_bytes (error_kind e) in
      (
        laws.all_insert m "x-proxy-error" "content-length" kind
            ∙ laws.all_insert http.no_headers "content-type" "content-length" value
            ∙ laws.all_no_headers "content-length",
        laws.all_insert m "x-proxy-error" "transfer-encoding" kind
            ∙ laws.all_insert http.no_headers "content-type" "transfer-encoding" value
            ∙ laws.all_no_headers "transfer-encoding",
      )

  -- The caller gets the response of the chain, as it is but for the framing headers.
  abbrev pub Passed : ProxyResponse http → ProxyResponse http → Type 0
  Passed resp resp' =
      (resp'.status ≡ resp.status)
      × (resp'.body ≡ resp.body)
      × (resp'.version ≡ resp.version)
      × ((name : String)
          → ("content-length" == name) ≡ false
          → ("transfer-encoding" == name) ≡ false
          → http.get_all resp'.headers name ≡ http.get_all resp.headers name)

  -- The caller gets a 502 that names the kind of the error and whose body is its text.
  abbrev pub Refused : ProxyError → ProxyResponse http → Type 0
  Refused e resp' =
      (resp'.status ≡ 502)
      × (resp'.body ≡ as_bytes (to_string e))
      × (http.get_all resp'.headers "x-proxy-error" ≡ as_bytes (error_kind e) ∷ [])

  into_hyper-Passed : (resp : ProxyResponse http) → Passed resp (into_hyper http resp)
  unfolding into_hyper
  into_hyper-Passed resp =
      let m = http.remove resp.headers "content-length" in
      (
        refl,
        refl,
        refl,
        λ name a b.
            laws.all_remove m "transfer-encoding" name
            ∙ if_false _ _ b
            ∙ laws.all_remove resp.headers "content-length" name
            ∙ if_false _ _ a,
      )

  bad_gateway-Refused : (e : ProxyError) → Refused e (bad_gateway http e)
  unfolding bad_gateway
  bad_gateway-Refused e =
      let m = http.insert http.no_headers "content-type" (as_bytes "text/plain; charset=utf-8") in
      (refl, refl, laws.all_insert m "x-proxy-error" "x-proxy-error" (as_bytes (error_kind e)))

  -- The answer by the outcome of the chain.
  abbrev pub Answers : Result (ProxyResponse http) → ProxyResponse http → Type 0
  Answers (ok resp) resp' = Passed resp resp'
  Answers (err e) resp' = Refused e resp'

  respond-Answers :
      (env : Ambient) (original : ProxyRequest http) (o : Outcome http (World http client medium))
      → let answer = (respond http client medium env original o).0 in
        Unframed answer.headers × Answers o.0 answer
  unfolding respond
  respond-Answers env original (ok resp, ctx, w) =
      (into_hyper-Unframed resp, into_hyper-Passed resp)
  respond-Answers env original (err e, ctx, w) = (bad_gateway-Unframed e, bad_gateway-Refused e)

  -- No answer carries a header that frames the body. A request whose body was read is answered with
  -- the chain's response, with its status, body, version and all other headers, or, where the chain fails, with a 502 that tells
  -- the error; a request whose body could not be read is answered with such a 502.
  pub handle_request-Answers :
      (env : Ambient) (head : ProxyRequest http) (body : Bytes) (w : World http client medium)
      → let original = record head { body = body } in
        let chain =
          run_chain http w.runtime.middleware
            (invoke http client medium)
            original
            (new_context http env.id env.now)
            w in
        let answer = (handle_request http client medium env head (some body) w).0 in
        let refused = (handle_request http client medium env head none w).0 in
        (Unframed answer.headers × Answers chain.0 answer)
        × Unframed refused.headers
        × Refused (upstream_request "inbound body read failed") refused
  unfolding handle_request
  handle_request-Answers env head body w =
      let original = record head { body = body } in
      let e = upstream_request "inbound body read failed" in
      (
        respond-Answers env original (
            run_chain http w.runtime.middleware (invoke http client medium) original
              (new_context http env.id env.now) w),
        bad_gateway-Unframed e,
        bad_gateway-Refused e,
      )
