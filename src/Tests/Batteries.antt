-- ===== src/Tests/Batteries.antt =====
-- The conformance battery on the in-memory medium.
use partly_proxy.Base.{arith, Bool, true, ◌&&◌, ◌≡◌, refl, eqb, ◌==◌, eq_iff}
use partly_proxy.Types.Recorded.{RecordedExchange}
use partly_proxy.Storage.Memory.{in_memory_storage, in_memory_laws, new, append, flush, load}
use partly_proxy.Storage.Conformance.{Suite, run_conformance}
use partly_proxy.Storage.Conformance.Passed.{run_conformance_passes}
use partly_proxy.Tests.Sample.{sample_http}

-- Exchanges are the same if their identifiers, times, methods and addresses are.
abbrev same_exchange : RecordedExchange → RecordedExchange → Bool
same_exchange a b =
    eqb a.id b.id
    && (eqb a.duration b.duration
        && (a.request.method == b.request.method && a.request.uri == b.request.uri))

abbrev sample_suite : Suite sample_http
sample_suite = record {
  uri_of = λ s. s;
  stamp = record { id = 7; timestamp = 9 };
  same = same_exchange;
}

same_exchange_refl : (e : RecordedExchange) → same_exchange e e ≡ true
same_exchange_refl e =
    ground (arith, eq_iff e.request.method e.request.method, eq_iff e.request.uri e.request.uri)

run_conformance_passes_example :
    run_conformance sample_http sample_suite in_memory_storage new ≡ true
unfolding in_memory_laws append flush load
run_conformance_passes_example =
    run_conformance_passes sample_http sample_suite in_memory_storage in_memory_laws
      (λ s e good. refl) (λ s good. refl) (λ e ms time small. refl) same_exchange_refl new tt refl
