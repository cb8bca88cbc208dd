-- ===== src/Tests/Stubs.antt =====
-- The stub store.
use partly_proxy.Base.{true, none, some, [], ◌∷◌, ◌++◌, ◌≡◌, refl, map}
use partly_proxy.Stub.{StubEntry, new_stubbed, new_matcher, match_method, matches, take_match}
use partly_proxy.Stub.Firing.{left_of, take_match_first, take_all, take_all_limited}
use partly_proxy.Tests.Sample.{sample_http, request_to}

-- A stub for another method, one for two requests, and one for every request.
abbrev for_post : StubEntry sample_http
for_post = record {
  matcher = match_method sample_http (new_matcher sample_http) "POST";
  response = new_stubbed 201;
  times = none;
}

abbrev twice : StubEntry sample_http
twice = record { matcher = new_matcher sample_http; response = new_stubbed 503; times = some 2 }

abbrev always : StubEntry sample_http
always = record { matcher = new_matcher sample_http; response = new_stubbed 200; times = none }

take_match_first_example :
    (matches sample_http twice.matcher (request_to "/a") ≡ true
      → take_match sample_http (request_to "/a") ((for_post ∷ []) ++ twice ∷ always ∷ []) ≡ (
        some (twice.response, none),
        (for_post ∷ []) ++ (left_of sample_http twice (some 2) ++ always ∷ []),
      ))
    × (take_match sample_http (request_to "/a") (for_post ∷ []) ≡ (none, for_post ∷ []))
unfolding matches match_method
take_match_first_example =
    take_match_first sample_http (request_to "/a") (for_post ∷ []) (always ∷ []) twice (refl, tt)

take_all_limited_example :
    take_all sample_http
      (request_to "/a" ∷ request_to "/b" ∷ [])
      ((for_post ∷ []) ++ twice ∷ always ∷ [])
    ≡ (
      map (λ req. some (twice.response, none)) (request_to "/a" ∷ request_to "/b" ∷ []),
      (for_post ∷ []) ++ always ∷ [],
    )
unfolding matches match_method
take_all_limited_example =
    take_all_limited sample_http 1 (request_to "/a" ∷ request_to "/b" ∷ []) (for_post ∷ [])
      (always ∷ []) twice refl refl (((refl, tt), refl), (((refl, tt), refl), tt))
