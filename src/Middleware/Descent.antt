-- ===== src/Middleware/Descent.antt =====
-- The part of a chain before the terminal and the part behind it, as one `Handling`: what a request in
-- flight does up to its wait for the terminal, and what it does with the outcome.
use partly_proxy.Base.{List, [], ◌∷◌, ◌≡◌, refl, ap, ◌∙◌}
use partly_proxy.Http.{Http}
use partly_proxy.Types.Error.{Result}
use partly_proxy.Types.ProxyIo.{ProxyRequest, ProxyResponse}
use partly_proxy.Types.Context.{RequestContext}
use partly_proxy.Middleware.{
  Handling, finish, proceed, ProxyMiddleware, Terminal, after, run_handling, run_chain,
}

module _ (http : Http) where
  -- What stands behind the call of `next.run` of one middleware.
  abbrev pub Behind : Type 0
  Behind =
      Result (ProxyResponse http)
      → RequestContext http
      → Result (ProxyResponse http) × RequestContext http

  behind : Behind → Handling http → Handling http
  behind k (finish res ctx) = let (res', ctx') = k res ctx in finish res' ctx'
  behind k (proceed req ctx k') = proceed req ctx (λ res c. let (res', c') = k' res c in k res' c')

  enter : Handling http → (ProxyRequest http → RequestContext http → Handling http) → Handling http
  unfolding behind
  enter (finish res ctx) inner = finish res ctx
  enter (proceed req ctx k) inner = behind k (inner req ctx)

  unfoldable pub descend :
      List (ProxyMiddleware http) → ProxyRequest http → RequestContext http → Handling http
  unfolding enter
  descend [] req ctx = proceed req ctx (λ res c. (res, c))
  descend (mw ∷ chain) req ctx = enter (mw.handle req ctx) (descend chain)

module _ (http : Http) {S : Type 0} (terminal : Terminal http S) (s : S) where
  run_handling-behind :
      (k : Behind http) (h : Handling http)
      → run_handling http (behind http k h) terminal s
        ≡ after http k (run_handling http h terminal s)
  unfolding behind
  run_handling-behind k (finish res ctx) = refl
  run_handling-behind k (proceed req ctx k') = refl

  run_handling-enter :
      (h : Handling http) (inner : ProxyRequest http → RequestContext http → Handling http)
      (t : Terminal http S)
      → ((req : ProxyRequest http) (ctx : RequestContext http)
          → run_handling http (inner req ctx) terminal s ≡ t req ctx s)
      → run_handling http (enter http h inner) terminal s ≡ run_handling http h t s
  unfolding enter
  run_handling-enter (finish res ctx) inner t h = refl
  run_handling-enter (proceed req ctx k) inner t h =
      run_handling-behind k (inner req ctx) ∙ ap (after http k) (h req ctx)

  -- The chain as a descent to the terminal and a way back is the chain.
  pub run_handling-descend :
      (chain : List (ProxyMiddleware http)) (req : ProxyRequest http) (ctx : RequestContext http)
      → run_handling http (descend http chain req ctx) terminal s
        ≡ run_chain http chain terminal req ctx s
  unfolding descend run_chain
  run_handling-descend [] req ctx = refl
  run_handling-descend (mw ∷ chain) req ctx =
      run_handling-enter (mw.handle req ctx) (descend http chain) (run_chain http chain terminal)
        (run_handling-descend chain)
