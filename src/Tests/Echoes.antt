-- ===== src/Tests/Echoes.antt =====
-- The routes of the echo server.
use partly_proxy.Base.{String, before, some, none, [], ◌∷◌, ◌≡◌, refl}
use partly_proxy.Echo.{EchoCodec, EchoRequest, simple_response, handle}
use partly_proxy.Tests.Sample.{sample_http}

-- The document is always the same.
abbrev codec : EchoCodec sample_http
codec = record {
  uri_query = λ u. none;
  from_utf8 = λ b. some "text";
  base64 = λ b. "base64";
  to_json = λ b. 1 ∷ [];
}

abbrev get_of : String → EchoRequest sample_http
get_of uri = record { method = "GET"; uri = uri; headers = []; body = none }

handle_runs :
    (handle sample_http codec (get_of "/_status/418") ≡ (0, simple_response 418 "status=418"))
    × (handle sample_http codec (get_of "/_status/70000") ≡ (0, simple_response 400 "status=400"))
    × (handle sample_http codec (get_of "/_status/") ≡ (0, simple_response 400 "status=400"))
    × (handle sample_http codec (get_of "/_sleep/250?x") ≡ (250, simple_response 200 "slept=250"))
    × (handle sample_http codec (get_of "/_sleep/soon") ≡ (0, simple_response 200 "slept=0"))
unfolding handle simple_response before
handle_runs = (refl, refl, refl, refl, refl)
