-- ===== src/Middleware/Chain.antt =====
-- What a chain of middleware can do to a request, whatever the middleware is.
use partly_proxy.Base.{List, [], ◌∷◌, ◌≡◌, refl, ◌⊎◌, inl, inr, All}
use partly_proxy.Http.{Http}
use partly_proxy.Types.ProxyIo.{ProxyRequest, ProxyResponse}
use partly_proxy.Types.Context.{RequestContext}
use partly_proxy.Middleware.{
  Handling, finish, proceed, ProxyMiddleware, Terminal, run_handling, run_chain,
}
use partly_proxy.Types.Error.{Result}

module _ (http : Http) {S : Type 0} where
  -- How often and on what the terminal was run.
  abbrev pub RanOnce : Terminal http S → S → S → Type 0
  RanOnce terminal s s' =
      (req : ProxyRequest http) × (ctx : RequestContext http) × (s' ≡ (terminal req ctx s).2)

  run_handling_once :
      (h : Handling http) (inner terminal : Terminal http S) (s : S)
      → ((req : ProxyRequest http) (ctx : RequestContext http)
          → ((inner req ctx s).2 ≡ s) ⊎ RanOnce terminal s (inner req ctx s).2)
      → ((run_handling http h inner s).2 ≡ s) ⊎ RanOnce terminal s (run_handling http h inner s).2
  run_handling_once (finish res ctx) inner terminal s ih = inl refl
  run_handling_once (proceed req ctx k) inner terminal s ih = ih req ctx

  -- Whatever the middleware does, the state that the terminal reaches is as it was, or is what one
  -- run of the terminal on it left: the terminal runs at most once for a request.
  pub run_chain_once :
      (chain : List (ProxyMiddleware http)) (terminal : Terminal http S) (req : ProxyRequest http)
      (ctx : RequestContext http) (s : S)
      → ((run_chain http chain terminal req ctx s).2 ≡ s)
        ⊎ RanOnce terminal s (run_chain http chain terminal req ctx s).2
  unfolding run_chain
  run_chain_once [] terminal req ctx s = inr (req, ctx, refl)
  run_chain_once (mw ∷ chain) terminal req ctx s =
      run_handling_once (mw.handle req ctx) (run_chain http chain terminal) terminal s
        (λ req' ctx'. run_chain_once chain terminal req' ctx' s)

  -- A middleware that returns without `next.run` hides everything below it: the outcome is its own,
  -- whatever the inner chain and the terminal are, and the state is as it was.
  run_chain_short_circuit :
      (mw : ProxyMiddleware http) (inner : List (ProxyMiddleware http)) (terminal : Terminal http S)
      (req : ProxyRequest http) (ctx ctx' : RequestContext http) (s : S)
      (res : Result (ProxyResponse http))
      → mw.handle req ctx ≡ finish res ctx'
      → run_chain http (mw ∷ inner) terminal req ctx s ≡ (res, ctx', s)
  unfolding run_chain
  run_chain_short_circuit mw inner terminal req ctx ctx' s res e = rw e

module _ (http : Http) where
  -- The middleware hands the request on and the outcome back as they are; what it redacts for a
  -- snapshot is free.
  abbrev pub IsTransparent : ProxyMiddleware http → Type 0
  IsTransparent mw =
      (req : ProxyRequest http) (ctx : RequestContext http)
      → mw.handle req ctx ≡ proceed req ctx (λ res c. (res, c))

  pub run_chain-IsTransparent :
      {S : Type 0} (chain : List (ProxyMiddleware http)) (terminal : Terminal http S)
      (req : ProxyRequest http) (ctx : RequestContext http) (s : S)
      → All IsTransparent chain
      → run_chain http chain terminal req ctx s ≡ terminal req ctx s
  unfolding run_chain
  run_chain-IsTransparent [] terminal req ctx s h = refl
  run_chain-IsTransparent (mw ∷ chain) terminal req ctx s (t, h) =
      rw (t req ctx) (run_chain-IsTransparent chain terminal req ctx s h)
