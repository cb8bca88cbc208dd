-- ===== src/Command/Targets.antt =====
-- The upstreams that a command reaches: pause, resume and the clearing of stubs.
use partly_proxy.Base.{
  String, Bool, true, false, Option, none, some, List, [], ◌≡◌, refl, sym, ap, ◌∙◌, ◌⊎◌, inl, inr,
  lookup, lookup-insert, lookup-map_values, ◌==◌, if◌then◌else◌, Option-cases, Bool-cases, is_some,
  if_true, if_false, eq_iff,
}
use partly_proxy.Http.{Http}
use partly_proxy.Types.Error.{to_string, unknown_upstream}
use partly_proxy.Storage.{SnapshotStorage}
use partly_proxy.Stub
use partly_proxy.Upstream.{UpstreamRuntime, UpstreamRegistry, get_runtime}
use partly_proxy.Command
use partly_proxy.Command.{ControlState, Round, dispatch}

-- The upstreams that a command names: one, or all.
abbrev pub in_scope : Option String → String → Bool
in_scope none name = true
in_scope (some n) name = n == name

abbrev pub map_some {ℓ} : {A : Type ℓ} → (A → A) → Option A → Option A
map_some f none = none
map_some f (some a) = some (f a)

module _ {V : Type 0} (f : V → V) where
  scoped :
      (n name : String) (m : List (String × V)) (v : V)
      → lookup n m ≡ some v
      → (if n == name then some (f v) else lookup name m)
        ≡ (if n == name then map_some f (lookup name m) else lookup name m)
  scoped n name m v known = elim (Bool-cases (n == name)) [
    | inl same ↦
        let e : lookup name m ≡ some v =
          ap (λ k. lookup k m) (sym ((eq_iff n name).0 same)) ∙ known in
        if_true _ _ same ∙ sym (ap (map_some f) e) ∙ sym (if_true _ _ same)
    | inr other ↦ if_false _ _ other ∙ sym (if_false _ _ other)
  ]

-- The command names no upstream, or one that there is.
abbrev pub is_known {ℓ} : {V : Type ℓ} → Option String → List (String × V) → Bool
is_known none m = true
is_known (some n) m = is_some (lookup n m)

module _ (http : Http) where
  -- A change by `f` reaches exactly the upstreams in scope; of an unknown one it is an error.
  pub change_scope :
      (f : UpstreamRuntime http → UpstreamRuntime http) (upstreams : UpstreamRegistry http)
      (target : Option String)
      → let (response, upstreams') = Command.change http f upstreams target in
        ((is_known target upstreams ≡ true)
          × (response ≡ Command.done)
          × ((name : String)
              → lookup name upstreams' ≡ (
                  if in_scope target name
                  then map_some f (lookup name upstreams)
                  else lookup name upstreams)))
        ⊎ ((n : String) × (target ≡ some n)
            × (lookup n upstreams ≡ none)
            × (upstreams' ≡ upstreams)
            × (response ≡ Command.error (to_string (unknown_upstream n))))
  unfolding Command.change Command.change_found get_runtime
  change_scope f upstreams none = inl (refl, refl, λ name. lookup-map_values f name upstreams)
  change_scope f upstreams (some n) = elim (Option-cases (lookup n upstreams)) [
    | inl unknown ↦ rw (unknown, Command.change_found) (inr (n, refl, unknown, refl, refl))
    | inr (up, known) ↦
        rw (known, Command.change_found)
          (inl (
            refl,
            refl,
            λ name. lookup-insert n name (f up) upstreams ∙ scoped f n name upstreams up known,
          ))
  ]

module _ (http : Http) (medium : SnapshotStorage) where
  -- What a change by `f` does to the cluster, and what it answers.
  abbrev pub Scoped :
      Option String
      → (UpstreamRuntime http → UpstreamRuntime http)
      → ControlState http medium
      → Option Command.CommandResponse × ControlState http medium
      → Type 0
  Scoped target f s (answer, s') =
      ((is_known target s.upstreams ≡ true)
        × (answer ≡ some Command.done)
        × (s'.recorder ≡ s.recorder)
        × ((name : String)
            → lookup name s'.upstreams ≡ (
                if in_scope target name
                then map_some f (lookup name s.upstreams)
                else lookup name s.upstreams)))
      ⊎ ((n : String) × (target ≡ some n)
          × (lookup n s.upstreams ≡ none)
          × (s' ≡ s)
          × (answer ≡ some (Command.error (to_string (unknown_upstream n)))))

  change-Scoped :
      (target : Option String) (f : UpstreamRuntime http → UpstreamRuntime http)
      (s : ControlState http medium)
      → Scoped target f s
          (Command.on_upstreams http medium (Command.change http f s.upstreams target) s)
  unfolding Command.on_upstreams
  change-Scoped target f s = elim (change_scope http f s.upstreams target) [
    | inl (known, answer, upstreams) ↦ inl (known, ap some answer, refl, upstreams)
    | inr (n, named, unknown, same, answer) ↦
        inr (n, named, unknown, ap (λ u. record s { upstreams = u }) same, ap some answer)
  ]

  -- A pause sets the flag of exactly the upstreams in its scope, a resume takes it away, and a
  -- clearing removes all their stubs; nothing else of them, no other upstream and nothing in the
  -- recorder changes, and the answer is a success. This is where the command names no upstream, with
  -- all in its scope, or one that there is; of an unknown one the answer is the error that tells its
  -- name, and nothing changes.
  pub dispatch_scope :
      (target : Option String) (rounds : List (Round medium)) (s : ControlState http medium)
      → Scoped target
          (λ up. record up { pause = true })
          s
          (dispatch http medium (Command.pause target) rounds s)
        × Scoped target
            (λ up. record up { pause = false })
            s
            (dispatch http medium (Command.resume target) rounds s)
        × Scoped target
            (λ up. record up { stubs = [] })
            s
            (dispatch http medium (Command.clear_stubs target) rounds s)
  unfolding Command.dispatch Command.set_pause Command.with_pause Command.without_stubs Stub.clear
  dispatch_scope target rounds s = (
    change-Scoped target (λ up. record up { pause = true }) s,
    change-Scoped target (λ up. record up { pause = false }) s,
    change-Scoped target (λ up. record up { stubs = [] }) s,
  )
