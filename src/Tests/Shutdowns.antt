-- ===== src/Tests/Shutdowns.antt =====
-- The shutdown of a cluster with a listener that is wedged, and of one whose tasks end in time. A
-- task is the time of its end, if it has one.
use partly_proxy.Base.{
  ℕ, ◌+◌, ◌-◌, ◌≤◌, arith, String, Option, none, some, [], ◌∷◌, ◌≡◌, refl, inl, inr, Bool-cases,
  leb, if◌then◌else◌, decimal, All,
}
use partly_proxy.Types.Error.{ok}
use partly_proxy.Config.{in_memory}
use partly_proxy.Storage.Memory.{in_memory_storage}
use partly_proxy.Recorder
use partly_proxy.Cluster.{
  Joined, finished, elapsed, Tasks, RunningUpstream, Handle, shut_down, shutdown_with_timeout,
  control_task,
}
use partly_proxy.Cluster.Shutdown.{TimeoutLaws}
use partly_proxy.Cluster.Verdict.{UpstreamEndedBy, TaskEndedBy, shutdown_ok, shutdown_in_time}

abbrev wait : ℕ → ℕ → Option ℕ → Joined × ℕ
wait limit now none = (elapsed, limit)
wait limit now (some e) = if leb e (now + limit) then (finished, e - now) else (elapsed, limit)

abbrev sample_tasks : Tasks
sample_tasks = record { Task = Option ℕ; timeout = wait; debug_duration = λ d. decimal d }

abbrev ending : Option ℕ → Option (ℕ × Option String)
ending none = none
ending (some e) = some (e, none)

wait_limited : (limit now : ℕ) (t : Option ℕ) → (wait limit now t).1 ≤ limit
wait_limited limit now none = omega arith
wait_limited limit now (some e) = ground arith

wait_in_time :
    (limit now e : ℕ) (t : Option ℕ)
    → ending t ≡ some (e, none)
    → e ≤ now + limit
    → wait limit now t ≡ (finished, e - now)
wait_in_time limit now e none h by = absurd (cc h)
wait_in_time limit now e (some d) h by = let same : d ≡ e = cc h in ground arith

wait_joined :
    (limit now : ℕ) (t : Option ℕ)
    → (wait limit now t).0 ≡ finished
    → (e : ℕ) × (ending t ≡ some (e, none)) × (e ≤ now + (wait limit now t).1)
wait_joined limit now none h = absurd (cc h)
wait_joined limit now (some e) h = elim (Bool-cases (leb e (now + limit))) [
  | inl soon ↦ (e, refl, rw soon (omega arith))
  | inr late ↦ absurd (ground arith)
]

abbrev task_laws : TimeoutLaws sample_tasks
task_laws = record {
  ends = ending;
  limited = wait_limited;
  in_time = wait_in_time;
  joined = wait_joined;
}

abbrev running : Option ℕ → RunningUpstream sample_tasks
running t = record { bound_addr = "127.0.0.1:1"; task = t }

abbrev cluster_of : Option ℕ → Option ℕ → Handle sample_tasks in_memory_storage
cluster_of first other = record {
  upstreams = ("api", running first) ∷ ("web", running other) ∷ [];
  shutdown_tx = none;
  recording = in_memory 2;
  recorder = Recorder.with_routes in_memory_storage (in_memory 2) [];
  command_task = some (some 1);
  tcp_control = none;
}

-- Two listeners that never end take the sum of their limits.
two_wedged_runs :
    (shut_down sample_tasks in_memory_storage 3 100 (cluster_of none none)).1.now ≡ 2_000_000_203
unfolding shut_down Recorder.with_routes
two_wedged_runs = refl

abbrev drained : Handle sample_tasks in_memory_storage
drained = cluster_of (some 40) (some 90)

upstreams_ended : All (UpstreamEndedBy sample_tasks task_laws 100) drained.upstreams
upstreams_ended = ((40, refl, omega arith), ((90, refl, omega arith), tt))

shutdown_in_time_example :
    ((shutdown_with_timeout sample_tasks in_memory_storage 3 100 drained).0 ≡ ok tt)
    × ((shut_down sample_tasks in_memory_storage 3 100 drained).1.now ≤ 100 + 3)
unfolding Recorder.flush Recorder.with_routes
shutdown_in_time_example =
    shutdown_in_time sample_tasks in_memory_storage task_laws 3 100 drained upstreams_ended refl
      (1, refl, omega arith) tt

shutdown_ok_example :
    let n = (shut_down sample_tasks in_memory_storage 3 100 drained).1.now in
    (began : ℕ) × (began + 3 ≤ n)
    × All (UpstreamEndedBy sample_tasks task_laws began) drained.upstreams
    × ((Recorder.flush in_memory_storage drained.recorder).0 ≡ ok tt)
    × TaskEndedBy sample_tasks task_laws n drained.command_task
    × TaskEndedBy sample_tasks task_laws n
        (control_task sample_tasks in_memory_storage drained.tcp_control)
unfolding shutdown_with_timeout Recorder.with_routes
shutdown_ok_example = shutdown_ok sample_tasks in_memory_storage task_laws 3 100 drained refl
