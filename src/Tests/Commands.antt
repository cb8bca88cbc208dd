-- ===== src/Tests/Commands.antt =====
-- The commands on a cluster of one upstream.
use partly_proxy.Base.{
  String, Bool, true, false, none, some, [], ◌∷◌, ◌++◌, ◌≡◌, refl, lookup, ◌==◌,
}
use partly_proxy.Types.Error.{to_string, unknown_upstream}
use partly_proxy.Storage.Memory.{in_memory_storage}
use partly_proxy.Stub.{StubStore, new_stubbed, new_matcher, matches, take_match}
use partly_proxy.Traffic
use partly_proxy.Traffic.{TrafficFilter, new_filter}
use partly_proxy.Command
use partly_proxy.Command.{
  ControlState, Round, dispatch, wait_for_assertion, assertion_result, seen, matching,
  resolve_upstream,
}
use partly_proxy.Command.Targets.{Scoped, dispatch_scope}
use partly_proxy.Command.Scope.{dispatch_error, dispatch_stub_answers}
use partly_proxy.Command.Assertion.{holds_of, overshoots, wait_for_assertion_decides, RunsOut}
use partly_proxy.Tests.Sample.{
  sample_http, request_to, api, one_upstream, control, recorder_of, exchange_of,
}

-- Two rounds of a wait: nothing was recorded, then one exchange was.
abbrev empty_round : Round in_memory_storage
empty_round = record { observed = recorder_of []; remaining = 5; expired = none }

abbrev full_round : Round in_memory_storage
full_round = record {
  observed = recorder_of (exchange_of "/a" ∷ []);
  remaining = 0;
  expired = none;
}

dispatch_scope_example :
    Scoped sample_http in_memory_storage
      (some "api")
      (λ up. record up { pause = true })
      control
      (dispatch sample_http in_memory_storage (Command.pause (some "api")) [] control)
    × Scoped sample_http in_memory_storage
        (some "api")
        (λ up. record up { pause = false })
        control
        (dispatch sample_http in_memory_storage (Command.resume (some "api")) [] control)
    × Scoped sample_http in_memory_storage
        (some "api")
        (λ up. record up { stubs = [] })
        control
        (dispatch sample_http in_memory_storage (Command.clear_stubs (some "api")) [] control)
dispatch_scope_example = dispatch_scope sample_http in_memory_storage (some "api") [] control

dispatch_error_example :
    (dispatch sample_http in_memory_storage (Command.pause (some "web")) [] control).1 ≡ control
unfolding dispatch lookup
dispatch_error_example =
    dispatch_error sample_http in_memory_storage (Command.pause (some "web")) [] control
      (to_string (unknown_upstream "web")) refl

dispatch_stub_answers_example :
    let (answer, s) =
      dispatch sample_http in_memory_storage
        (Command.stub none (new_matcher sample_http) (new_stubbed 503) (some 1))
        []
        control in
    (answer ≡ some Command.done)
    × (s.recorder ≡ control.recorder)
    × ((other : String)
        → ("api" == other) ≡ false
        → lookup other s.upstreams ≡ lookup other one_upstream)
    × (stubs : StubStore sample_http) × (lookup "api" s.upstreams
        ≡ some (record api { stubs = stubs }))
    × ((take_match sample_http (request_to "/a") stubs).0 ≡ some (new_stubbed 503, none))
unfolding resolve_upstream matches lookup
dispatch_stub_answers_example =
    dispatch_stub_answers sample_http in_memory_storage none (new_matcher sample_http)
      (new_stubbed 503) (some 1) [] control "api" api (request_to "/a") refl tt refl

wait_for_assertion_decides_example :
    let n = matching sample_http in_memory_storage new_filter full_round.observed in
    let result =
      wait_for_assertion sample_http in_memory_storage new_filter 9 seen
        ((empty_round ∷ []) ++ full_round ∷ []) in
    (holds_of seen n ≡ true → (m : String) × (result ≡ some (assertion_result true m)))
    × (overshoots seen n ≡ true → (m : String) × (result ≡ some (assertion_result false m)))
    × (RunsOut sample_http in_memory_storage new_filter 9 seen full_round
        → (passes : Bool) × (m : String) × (result ≡ some (assertion_result passes m)))
unfolding matching
wait_for_assertion_decides_example =
    wait_for_assertion_decides sample_http in_memory_storage new_filter 9 seen (empty_round ∷ []) []
      full_round ((refl, refl, refl, refl, refl), tt)
