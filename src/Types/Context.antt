-- ===== src/Types/Context.antt =====
-- crates/partly-proxy-lib/src/context.rs
use partly_proxy.Base.{ℕ, Option, none, some}
use partly_proxy.Http.{Http}

pub data ResponseSource : Type 0 where
  stub snapshot replay_miss upstream : ResponseSource

-- `RequestContext`. The extensions hold one value for each type: the source has a slot of its own,
-- and the values of all other types, which only middleware reads, are the slot `rest`.
pub record RequestContext (http : Http) : Type 0 where
  pub id : ℕ
  pub started : ℕ
  pub source : Option ResponseSource
  pub rest : http.Extensions

module _ (http : Http) where
  -- `RequestContext::new` with the identifier, the time and empty extensions.
  abbrev pub new_context : ℕ → ℕ → RequestContext http
  new_context id now = record { id = id; started = now; source = none; rest = http.no_extensions }

  -- `insert` at the type `ResponseSource`
  unfoldable pub insert_source : RequestContext http → ResponseSource → RequestContext http
  insert_source ctx s = record ctx { source = some s }

  unfoldable pub response_source : RequestContext http → Option ResponseSource
  response_source ctx = ctx.source
