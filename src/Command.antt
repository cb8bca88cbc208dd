-- ===== src/Command.antt =====
-- crates/partly-proxy-lib/src/command.rs: the commands and their dispatch. The processor handles one
-- command at a time; the state is the registry and the recorder. An assertion waits, while others
-- record: what it sees of them is a sequence of rounds, which the environment supplies.
pub mod Targets
pub mod Scope
pub mod Assertion
pub mod Processor
use partly_proxy.Base.{
  ℕ, String, Bool, true, false, Option, none, some, List, [], ◌∷◌, ◌++◌, eqb, compare, Ordering,
  if◌then◌else◌, length, select, decimal, format, lookup, insert, keys, map_values,
}
use partly_proxy.Http.{Http}
use partly_proxy.Types.Error.{ProxyError, Result, ok, err, to_string, command, unknown_upstream}
use partly_proxy.Types.Recorded.{RecordedExchange}
use partly_proxy.Storage.{SnapshotStorage}
use partly_proxy.Stub
use partly_proxy.Stub.{RequestMatcher, StubbedResponse, StubEntry}
use partly_proxy.Traffic
use partly_proxy.Traffic.{TrafficFilter}
use partly_proxy.Recorder
use partly_proxy.Recorder.{Recorder}
use partly_proxy.Upstream.{UpstreamRuntime, UpstreamRegistry, get_runtime, names}

pub data Command (http : Http) : Type 0 where
  stub : Option String → RequestMatcher http → StubbedResponse → Option ℕ → Command http
  clear_stubs : Option String → Command http
  pause : Option String → Command http
  resume : Option String → Command http
  query_traffic : TrafficFilter → Command http
  clear_recordings : Command http
  assert_seen : TrafficFilter → ℕ → Command http
  assert_count : TrafficFilter → ℕ → ℕ → Command http

pub data CommandResponse : Type 0 where
  done : CommandResponse
  error : String → CommandResponse
  exchanges : List RecordedExchange → CommandResponse
  assertion_result : Bool → String → CommandResponse

pub data AssertionShape : Type 0 where
  seen : AssertionShape
  count : ℕ → AssertionShape

pub data AssertionVerdict : Type 0 where
  pending : AssertionVerdict
  passed failed : String → AssertionVerdict

compare_count : ℕ → ℕ → Ordering → AssertionVerdict
compare_count expected n Ordering.eq = passed (format ("matched exactly " ∷ decimal expected ∷ []))
compare_count expected n Ordering.gt = failed (
    format (
      "matched "
      ∷ decimal n
      ∷ " exchanges; expected exactly "
      ∷ decimal expected
      ∷ " (overshoot)"
      ∷ []))
compare_count expected n Ordering.lt = pending

-- `evaluate`
unfoldable pub evaluate : AssertionShape → ℕ → AssertionVerdict
unfolding compare_count
evaluate seen n =
    if eqb n 0 then pending else passed (format ("matched " ∷ decimal n ∷ " exchanges" ∷ []))
evaluate (count expected) n = compare_count expected n (compare n expected)

-- One round of the loop: the recorder at the count, the time left then (0 also where the deadline is
-- out of range), and how the wait ends: with a notification, or at the deadline with the recorder of
-- the last count.
pub record Round (medium : SnapshotStorage) : Type 0 where
  pub observed : Recorder medium
  pub remaining : ℕ
  pub expired : Option (Recorder medium)

module _ (http : Http) (medium : SnapshotStorage) where
  unfoldable pub matching : TrafficFilter → Recorder medium → ℕ
  unfolding Recorder.count_matching
  matching filter r = Recorder.count_matching medium (Traffic.matches http filter) r

  timed_out : ℕ → ℕ → CommandResponse
  timed_out timeout n = assertion_result false (
      format (
        "timeout after "
        ∷ http.debug_duration timeout
        ∷ "; matched "
        ∷ decimal n
        ∷ " exchanges at expiry"
        ∷ []))

  -- The end of the wait; `later` is the next round's result.
  after_wait :
      TrafficFilter → ℕ → Option (Recorder medium) → Option CommandResponse → Option CommandResponse
  unfolding timed_out matching
  after_wait filter timeout (some r) later = some (timed_out timeout (matching filter r))
  after_wait filter timeout none later = later

  -- The body of the loop behind the count.
  judge :
      TrafficFilter
      → ℕ
      → ℕ
      → Round medium
      → Option CommandResponse
      → AssertionVerdict
      → Option CommandResponse
  unfolding after_wait timed_out
  judge filter timeout n round later (passed message) = some (assertion_result true message)
  judge filter timeout n round later (failed message) = some (assertion_result false message)
  judge filter timeout n round later pending =
      if eqb timeout 0
      then some (
          assertion_result false
            (format ("matched " ∷ decimal n ∷ "; timeout=0 collapsed to immediate eval" ∷ [])))
      else if eqb round.remaining 0
      then some (timed_out timeout n)
      else after_wait filter timeout round.expired later

  -- `wait_for_assertion`; `none` is a wait that the rounds so far do not end.
  unfoldable pub wait_for_assertion :
      TrafficFilter → ℕ → AssertionShape → List (Round medium) → Option CommandResponse
  unfolding matching evaluate judge
  wait_for_assertion filter timeout shape [] = none
  wait_for_assertion filter timeout shape (round ∷ rounds) =
      let n = matching filter round.observed in
      judge filter timeout n round (wait_for_assertion filter timeout shape rounds)
        (evaluate shape n)

  pub record ControlState : Type 0 where
    pub upstreams : UpstreamRegistry http
    pub recorder : Recorder medium

module _ (http : Http) where
  found : String → Option (UpstreamRuntime http) → Result (String × UpstreamRuntime http)
  found name none = err (unknown_upstream name)
  found name (some up) = ok (name, up)

  -- `names[0]` where there is one name; the lookup of a registered name does not fail (`expect`).
  only : UpstreamRegistry http → List String → Result (String × UpstreamRuntime http)
  unfolding found get_runtime
  only upstreams (name ∷ []) = found name (get_runtime http upstreams name)
  only upstreams several = err (
      command (
        format (
          "upstream not specified and cluster has "
          ∷ decimal (length several)
          ∷ " upstreams"
          ∷ [])))

  -- `resolve_upstream`: the runtime, with its name for the pointer that is shared.
  unfoldable pub resolve_upstream :
      UpstreamRegistry http → Option String → Result (String × UpstreamRuntime http)
  unfolding only names found get_runtime
  resolve_upstream upstreams (some name) = found name (get_runtime http upstreams name)
  resolve_upstream upstreams none = only upstreams (names http upstreams)

  -- A change of the upstream that was named, or of all.
  change_found :
      (UpstreamRuntime http → UpstreamRuntime http)
      → UpstreamRegistry http
      → String
      → Option (UpstreamRuntime http)
      → CommandResponse × UpstreamRegistry http
  unfolding to_string
  change_found f upstreams name none = (error (to_string (unknown_upstream name)), upstreams)
  change_found f upstreams name (some up) = (done, insert name (f up) upstreams)

  unfoldable pub change :
      (UpstreamRuntime http → UpstreamRuntime http)
      → UpstreamRegistry http
      → Option String
      → CommandResponse × UpstreamRegistry http
  unfolding change_found get_runtime
  change f upstreams (some name) = change_found f upstreams name (get_runtime http upstreams name)
  change f upstreams none = (done, map_values f upstreams)

  unfoldable pub with_pause : Bool → UpstreamRuntime http → UpstreamRuntime http
  with_pause paused up = record up { pause = paused }

  unfoldable pub without_stubs : UpstreamRuntime http → UpstreamRuntime http
  unfolding Stub.clear
  without_stubs up = record up { stubs = Stub.clear http up.stubs }

  unfoldable pub with_stub : StubEntry http → UpstreamRuntime http → UpstreamRuntime http
  unfolding Stub.add
  with_stub entry up = record up { stubs = Stub.add http entry up.stubs }

  -- `set_pause`
  unfoldable pub set_pause :
      UpstreamRegistry http → Option String → Bool → CommandResponse × UpstreamRegistry http
  unfolding change with_pause
  set_pause upstreams name paused = change (with_pause paused) upstreams name

  add_stub :
      StubEntry http
      → UpstreamRegistry http
      → Result (String × UpstreamRuntime http)
      → CommandResponse × UpstreamRegistry http
  unfolding with_stub to_string
  add_stub entry upstreams (err e) = (error (to_string e), upstreams)
  add_stub entry upstreams (ok (name, up)) = (done, insert name (with_stub entry up) upstreams)

module _ (http : Http) (medium : SnapshotStorage) where
  on_upstreams :
      CommandResponse × UpstreamRegistry http
      → ControlState http medium
      → Option CommandResponse × ControlState http medium
  on_upstreams (response, upstreams) s = (some response, record s { upstreams = upstreams })

  -- `dispatch`; `none` is an assertion that still waits.
  unfoldable pub dispatch :
      Command http
      → List (Round medium)
      → ControlState http medium
      → Option CommandResponse × ControlState http medium
  unfolding on_upstreams add_stub resolve_upstream change set_pause wait_for_assertion without_stubs
      Recorder.exchanges Recorder.clear
  dispatch (stub upstream matcher response times) rounds s =
      let entry : StubEntry http = record {
        matcher = matcher;
        response = response;
        times = times;
      } in
      on_upstreams (add_stub http entry s.upstreams (resolve_upstream http s.upstreams upstream)) s
  dispatch (clear_stubs upstream) rounds s =
      on_upstreams (change http (without_stubs http) s.upstreams upstream) s
  dispatch (pause upstream) rounds s = on_upstreams (set_pause http s.upstreams upstream true) s
  dispatch (resume upstream) rounds s = on_upstreams (set_pause http s.upstreams upstream false) s
  dispatch (query_traffic filter) rounds s = (
    some (exchanges (select (Traffic.matches http filter) (Recorder.exchanges medium s.recorder))),
    s,
  )
  dispatch clear_recordings rounds s =
      (some done, record s { recorder = Recorder.clear medium s.recorder })
  dispatch (assert_seen filter timeout) rounds s =
      (wait_for_assertion http medium filter timeout seen rounds, s)
  dispatch (assert_count filter expected timeout) rounds s =
      (wait_for_assertion http medium filter timeout (count expected) rounds, s)
