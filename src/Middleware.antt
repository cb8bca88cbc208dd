-- ===== src/Middleware.antt =====
-- crates/partly-proxy-lib/src/middleware.rs. `Next::run` takes its cursor by value, so a `handle`
-- runs the rest of the chain at most once: it returns without it, or hands a request on and then
-- turns the outcome into its own. What a middleware keeps in itself is not modelled: its `handle` is
-- a function of the request and the context.
pub mod Chain
pub mod Descent
use partly_proxy.Base.{List, [], ◌∷◌}
use partly_proxy.Http.{Http}
use partly_proxy.Types.Error.{Result}
use partly_proxy.Types.ProxyIo.{ProxyRequest, ProxyResponse}
use partly_proxy.Types.Context.{RequestContext}

pub data Handling (http : Http) : Type 0 where
  -- A return with no call of `next.run`.
  finish : Result (ProxyResponse http) → RequestContext http → Handling http
  -- `next.run(req, ctx).await`, and what follows it.
  proceed :
      ProxyRequest http
      → RequestContext http
      → (Result (ProxyResponse http)
          → RequestContext http
          → Result (ProxyResponse http) × RequestContext http)
      → Handling http

pub record ProxyMiddleware (http : Http) : Type 0 where
  pub handle : ProxyRequest http → RequestContext http → Handling http
  pub redact_request_for_snapshot : ProxyRequest http → ProxyRequest http
  pub redact_response_for_snapshot : ProxyResponse http → ProxyResponse http

-- `Terminal::invoke` over the state `S` that the terminal reaches: the outcome, the context and the
-- state afterwards.
abbrev pub Outcome : Http → Type 0 → Type 0
Outcome http S = Result (ProxyResponse http) × RequestContext http × S

abbrev pub Terminal : Http → Type 0 → Type 0
Terminal http S = ProxyRequest http → RequestContext http → S → Outcome http S

module _ (http : Http) where
  -- `redact_request` and `redact_response`
  unfoldable pub redact_request :
      List (ProxyMiddleware http) → ProxyRequest http → ProxyRequest http
  redact_request [] req = req
  redact_request (mw ∷ chain) req = redact_request chain (mw.redact_request_for_snapshot req)

  unfoldable pub redact_response :
      List (ProxyMiddleware http) → ProxyResponse http → ProxyResponse http
  redact_response [] resp = resp
  redact_response (mw ∷ chain) resp = redact_response chain (mw.redact_response_for_snapshot resp)

module _ (http : Http) {S : Type 0} where
  abbrev pub after :
      (Result (ProxyResponse http)
        → RequestContext http
        → Result (ProxyResponse http) × RequestContext http)
      → Outcome http S
      → Outcome http S
  after k (res, ctx, s) = let (res', ctx') = k res ctx in (res', ctx', s)

  -- `Next::run` over the remaining chain; the rest of the chain is handed in as a terminal.
  abbrev pub run_handling : Handling http → Terminal http S → S → Outcome http S
  run_handling (finish res ctx) inner s = (res, ctx, s)
  run_handling (proceed req ctx k) inner s = after k (inner req ctx s)

  -- `run_chain`
  unfoldable pub run_chain : List (ProxyMiddleware http) → Terminal http S → Terminal http S
  run_chain [] terminal req ctx s = terminal req ctx s
  run_chain (mw ∷ chain) terminal req ctx s =
      run_handling (mw.handle req ctx) (run_chain chain terminal) s
