-- ===== src/Types/Error.antt =====
-- crates/partly-proxy-types/src/error.rs
use partly_proxy.Base.{
  Bool, true, false, String, Option, none, some, [], ◌∷◌, ◌≡◌, refl, ◌⊎◌, inl, inr, format,
}

-- `ProxyError`. An error of another crate or of the operating system stands for its text, and a
-- `source` is left out: it is only for display by the caller.
pub data ProxyError : Type 0 where
  bind : String → ProxyError
  upstream_connect : String → ProxyError
  upstream_request : String → ProxyError
  middleware : String → ProxyError
  command : String → ProxyError
  recording : String → ProxyError
  tls : String → ProxyError
  unknown_upstream : String → ProxyError
  shutdown : String → ProxyError
  other : String → ProxyError

-- The `#[error(…)]` attributes: `Display`.
unfoldable pub to_string : ProxyError → String
unfolding format
to_string (bind e) = format ("listener bind failed: " ∷ e ∷ [])
to_string (upstream_connect c) = format ("upstream connection failed: " ∷ c ∷ [])
to_string (upstream_request c) = format ("upstream request failed: " ∷ c ∷ [])
to_string (middleware e) = e
to_string (command m) = format ("command channel error: " ∷ m ∷ [])
to_string (recording e) = format ("recording I/O failed: " ∷ e ∷ [])
to_string (tls m) = format ("TLS error: " ∷ m ∷ [])
to_string (unknown_upstream n) = format ("unknown upstream: " ∷ n ∷ [])
to_string (shutdown m) = format ("shutdown failed: " ∷ m ∷ [])
to_string (other e) = e

-- `Result<T, E = ProxyError>`
pub data Result {ℓ} (A : Type ℓ) : Type ℓ where
  ok : A → Result A
  err : ProxyError → Result A

-- A result of another crate, with the text of its error.
pub data Fallible (A : Type 0) : Type 0 where
  fine : A → Fallible A
  failed : String → Fallible A

-- `o.ok_or_else(|| e)`
abbrev pub ok_or {ℓ} : {A : Type ℓ} → Option A → ProxyError → Result A
ok_or none e = err e
ok_or (some a) e = ok a

-- The operator `?`: an error ends the function.
infixl 5 ◌>>=◌ ◌>>◌
abbrev pub ◌>>=◌ {ℓ κ} : {A : Type ℓ} {B : Type κ} → Result A → (A → Result B) → Result B
err x >>= next = err x
ok value >>= next = next value

-- `if !fine { return Err(x) }`
abbrev pub ensure : Bool → ProxyError → Result (Unit {0})
ensure false x = err x
ensure true x = ok tt

abbrev pub ◌>>◌ {ℓ} : {B : Type ℓ} → Result (Unit {0}) → Result B → Result B
check >> rest = check >>= λ done. rest

pub Result-cases : (r : Result (Unit {0})) → (r ≡ ok tt) ⊎ ((x : ProxyError) × (r ≡ err x))
Result-cases (ok u) = inl refl
Result-cases (err x) = inr (x, refl)

-- A chain with `?` that returns has passed its first step.
pub bind_ok {ℓ κ} :
    {A : Type ℓ} {B : Type κ} (r : Result A) (f : A → Result B) (b : B)
    → (r >>= f) ≡ ok b
    → (a : A) × (r ≡ ok a) × (f a ≡ ok b)
bind_ok (ok a) f b h = (a, refl, h)
bind_ok (err e) f b h = absurd (cc h)
