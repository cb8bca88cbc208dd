-- ===== src/Echo/Answers.antt =====
-- What the echo server answers, and when it stops.
use partly_proxy.Base.{
  ℕ, ◌^◌, ◌-◌, String, true, false, Option, none, some, List, [], ◌∷◌, ◌++◌, ◌≡◌, refl, ◌∙◌, ◌⊎◌,
  inl, inr, ◌==◌, if◌then◌else◌, if_true, if_false, All, strip_prefix, parse_unsigned, Bool,
}
use mathlib.Core.List.{append_assoc, append-nil}
use partly_proxy.Http.{Http}
use partly_proxy.Listener.Accepting.{ErrorKind}
use partly_proxy.Echo.{
  EchoResponse, EchoRequest, EchoCodec, is_fatal_accept, serve, handle, status_response,
  number_response, sleep_response, slept, slept_or_zero, routed, simple_response, echo_response,
}

module _ {C : Type 0} where
  abbrev GoesOn : C ⊎ ErrorKind → Type 0
  GoesOn (inl c) = Unit
  GoesOn (inr kind) = is_fatal_accept kind ≡ false

  abbrev connections : List (C ⊎ ErrorKind) → List C
  connections [] = []
  connections (inl c ∷ events) = c ∷ connections events
  connections (inr kind ∷ events) = connections events

  -- The server stops at the first fatal error, with the connections from before; the errors that are
  -- not fatal change nothing.
  serve_stops :
      (before later : List (C ⊎ ErrorKind)) (spawned : List C) (kind : ErrorKind)
      → All GoesOn before
      → is_fatal_accept kind ≡ true
      → serve spawned (before ++ inr kind ∷ later) ≡ (spawned ++ connections before, some kind)
  unfolding serve
  serve_stops [] later spawned kind h fatal = rw (fatal, append-nil) refl
  serve_stops (inl c ∷ before) later spawned kind (_, h) fatal =
      serve_stops before later (spawned ++ c ∷ []) kind h fatal ∙ rw append_assoc refl
  serve_stops (inr e ∷ before) later spawned kind (goes, h) fatal =
      if_false _ _ goes ∙ serve_stops before later spawned kind h fatal

abbrev IsMarked : EchoResponse → Type 0
IsMarked r = (t : String) × (r.headers ≡ ("content-type", t) ∷ ("x-echo", "true") ∷ [])

module _ (http : Http) (codec : EchoCodec http) where
  slept_or_zero-IsMarked : (ms : Option ℕ) → IsMarked (slept_or_zero ms).1
  unfolding slept_or_zero slept simple_response
  slept_or_zero-IsMarked none = ("text/plain; charset=utf-8", refl)
  slept_or_zero-IsMarked (some n) = ("text/plain; charset=utf-8", refl)

  either-IsMarked :
      (test : Bool) (a b : ℕ × EchoResponse)
      → IsMarked a.1
      → IsMarked b.1
      → IsMarked (if test then a else b).1
  either-IsMarked true a b h k = h
  either-IsMarked false a b h k = k

  routed-IsMarked :
      (req : EchoRequest http) (status sleep : Option String)
      → IsMarked (routed http codec req status sleep).1
  unfolding routed status_response number_response simple_response echo_response sleep_response
  routed-IsMarked req (some code) sleep = ("text/plain; charset=utf-8", refl)
  routed-IsMarked req none (some ms) = slept_or_zero-IsMarked (parse_unsigned (2 ^ 64 - 1) ms)
  routed-IsMarked req none none =
      either-IsMarked (http.uri_path req.uri == "/_kill") (0, simple_response 500 "killed")
        (0, echo_response http codec req) ("text/plain; charset=utf-8", refl)
        ("application/json", refl)

  -- Every answer has its content type and the mark `x-echo: true`, on every path.
  handle-IsMarked : (req : EchoRequest http) → IsMarked (handle http codec req).1
  unfolding handle
  handle-IsMarked req =
      let path = http.uri_path req.uri in
      routed-IsMarked req (strip_prefix path "/_status/") (strip_prefix path "/_sleep/")

  -- `/_kill` is answered with 500: the connection is not dropped.
  handle_kill :
      (req : EchoRequest http)
      → http.uri_path req.uri ≡ "/_kill"
      → handle http codec req ≡ (0, simple_response 500 "killed")
  unfolding handle strip_prefix routed
  handle_kill req path =
      rw (handle, path)
        (if_true {b = http.uri_path req.uri == "/_kill"} (0, simple_response 500 "killed")
          (0, echo_response http codec req) (rw path refl))
