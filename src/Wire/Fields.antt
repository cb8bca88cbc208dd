-- ===== src/Wire/Fields.antt =====
-- Which stubs of the wire become commands.
use partly_proxy.Base.{ℕ, String, Option, none, some, ◌≡◌, refl, ◌↔◌, inl, inr, Option-cases}
use partly_proxy.Http.{Http}
use partly_proxy.Command.{Command}
use partly_proxy.Wire.{
  StubFields, stub, lowered, lower_stub, parsed_method, some_method, into_command,
}

module _ (http : Http) where
  -- A method that is given can be parsed.
  abbrev pub ValidMethod : Option String → Type 0
  ValidMethod none = Unit
  ValidMethod (some m) = (k : String) × (http.parse_method m ≡ some k)

  parsed_method-ValidMethod :
      (o : Option String) → ((k : Option String) × (parsed_method http o ≡ some k)) ↔ ValidMethod o
  unfolding parsed_method
  parsed_method-ValidMethod none = (λ h. tt, λ h. (none, refl))
  parsed_method-ValidMethod (some m) = elim (Option-cases (http.parse_method m)) [
    | inl bad ↦ (λ (k, h). absurd (cc (rw (bad, some_method) at h)), λ (k, h). absurd (cc (bad, h)))
    | inr (j, good) ↦ (λ h. (j, good), λ h. (some j, rw (good, some_method)))
  ]

  lower_stub_lem :
      (s : StubFields) (method : Option (Option String)) (status : Option ℕ)
      → ((cmd : Command http) × (lower_stub http s method status ≡ lowered cmd))
        ↔ (((k : Option String) × (method ≡ some k)) × (n : ℕ) × (status ≡ some n))
  unfolding lower_stub
  lower_stub_lem s none status = (λ (cmd, h). absurd (cc h), λ ((k, h), _, _). absurd (cc h))
  lower_stub_lem s (some k) none = (λ (cmd, h). absurd (cc h), λ (_, n, h). absurd (cc h))
  lower_stub_lem s (some k) (some n) = (λ h. ((k, refl), n, refl), λ h. (_, refl))

  -- A stub of the wire becomes a command exactly where its method, if it has one, and its status are
  -- valid; otherwise it is refused.
  pub into_command_stub :
      (s : StubFields)
      → ((cmd : Command http) × (into_command http (stub s) ≡ lowered cmd))
        ↔ (ValidMethod s.method × (n : ℕ) × (http.status_from_u16 s.status ≡ some n))
  unfolding into_command
  into_command_stub s =
      let (to, from) =
        lower_stub_lem s (parsed_method http s.method) (http.status_from_u16 s.status) in
      let (valid, parses) = parsed_method-ValidMethod s.method in
      (
        λ h. let (m, n, status) = to h in (valid m, n, status),
        λ (m, n, status). from (parses m, n, status),
      )
