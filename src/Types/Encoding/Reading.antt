-- ===== src/Types/Encoding/Reading.antt =====
-- What was serialized is read back.
use partly_proxy.Base.{ℕ, String, Bytes, Option, none, some, [], ◌∷◌, ◌≡◌, refl, Map, lookup}
use partly_proxy.Types.Recorded.{
  RecordedRequest, RecordedExchange, ExchangeOutcome, response, error,
}
use partly_proxy.Types.Encoding.{
  Serde, SerdeLaws, as_stored, serialize_ms, deserialize_ms, text_in, u16_in, u64_in, pairs_in,
  texts_in, leaf_in, struct_in, upstream_field, labels_field, upstream_in, labels_in,
  serialize_bytes, deserialize_bytes, serialize_request, deserialize_request, serialize_outcome,
  deserialize_outcome, deserialize_response, deserialize_error, serialize_exchange,
  deserialize_exchange, to_vec, from_text,
}

module _ (serde : Serde) (laws : SerdeLaws serde) where
  deserialize-serialize_request :
      (r : RecordedRequest) → deserialize_request serde (serialize_request serde r) ≡ some r
  unfolding deserialize_request serialize_request deserialize_bytes serialize_bytes lookup text_in
      pairs_in
  deserialize-serialize_request r = rw (laws.decode-encode r.body) refl

  deserialize-serialize_outcome :
      (o : ExchangeOutcome) → deserialize_outcome serde (serialize_outcome serde o) ≡ some o
  unfolding deserialize_outcome serialize_outcome deserialize_response deserialize_error
      deserialize_bytes serialize_bytes lookup text_in pairs_in u16_in
  deserialize-serialize_outcome (response r) = rw (laws.decode-encode r.body) refl
  deserialize-serialize_outcome (error message) = refl

  uuid_read : (id : ℕ) → serde.parse_uuid (serde.uuid_text id) ≡ some id
  uuid_read id = laws.parse-uuid_text id

  time_read : (t : ℕ) → serde.parse_time (serde.time_text t) ≡ some t
  time_read t = laws.parse-time_text t

  ruleset read_laws =
      (uuid_read, time_read, deserialize-serialize_request, deserialize-serialize_outcome)

  restored :
      (id timestamp duration : ℕ) (upstream : Option String) (request : RecordedRequest)
      (outcome : ExchangeOutcome) (labels : Map String)
      → let e : RecordedExchange = record {
        id = id;
        upstream = upstream;
        timestamp = timestamp;
        duration = duration;
        request = request;
        outcome = outcome;
        labels = labels;
      } in
        deserialize_exchange serde (serialize_exchange serde e) ≡ some (as_stored e)
  unfolding deserialize_exchange serialize_exchange upstream_field labels_field upstream_in
      labels_in leaf_in struct_in text_in u64_in texts_in lookup serialize_ms deserialize_ms
      as_stored
  restored id timestamp duration none request outcome [] = simp read_laws
  restored id timestamp duration none request outcome (l ∷ ls) = simp read_laws
  restored id timestamp duration (some name) request outcome [] = simp read_laws
  restored id timestamp duration (some name) request outcome (l ∷ ls) = simp read_laws

  -- The text of an exchange is read back, with the duration in whole milliseconds.
  pub from_text-to_vec :
      (e : RecordedExchange) (bytes : Bytes)
      → to_vec serde e ≡ some bytes
      → from_text serde bytes ≡ some (as_stored e)
  unfolding to_vec from_text
  from_text-to_vec e bytes h =
      rw (laws.parse-write (serialize_exchange serde e) bytes h)
        (restored e.id e.timestamp e.duration e.upstream e.request e.outcome e.labels)
