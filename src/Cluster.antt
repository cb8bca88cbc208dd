-- ===== src/Cluster.antt =====
-- crates/partly-proxy-lib/src/cluster.rs: the handle of a running cluster and its shutdown. Times
-- are nanoseconds since the shutdown signal.
pub mod Shutdown
pub mod Verdict
use partly_proxy.Base.{
  ℕ, ◌+◌, String, Option, none, some, List, [], ◌∷◌, ◌++◌, Map, lookup, keys, format,
}
use partly_proxy.Types.Error.{ProxyError, Result, ok, err, to_string, shutdown}
use partly_proxy.Config.{RecordingConfig}
use partly_proxy.Storage.{SnapshotStorage}
use partly_proxy.Recorder.{Recorder}
use partly_proxy.Recorder

-- What `timeout(limit, task).await` gives.
pub data Joined : Type 0 where
  finished : Joined
  panicked : String → Joined
  elapsed : Joined

-- The tasks of the runtime: `timeout limit now task` is the outcome of a wait that begins at `now`,
-- and how long it takes; `debug_duration` is `{:?}` of a duration.
pub record Tasks : Type 1 where
  pub Task : Type 0
  pub timeout : ℕ → ℕ → Task → Joined × ℕ
  pub debug_duration : ℕ → String

module _ (tasks : Tasks) where
  pub record RunningUpstream : Type 0 where
    pub bound_addr : String
    pub task : tasks.Task

  -- A shutdown on its way: the time, the errors so far, and the upstreams whose task was aborted.
  pub record Progress : Type 0 where
    pub now : ℕ
    pub errors : List String
    pub aborted : List String

  abbrev pub failed_with : List String → Progress → Progress
  failed_with message p = record p { errors = p.errors ++ format message ∷ [] }

  -- The arms behind the wait for the task of one upstream.
  unfoldable pub joined_upstream : String → ℕ → Joined → Progress → Progress
  joined_upstream name outer finished p = p
  joined_upstream name outer (panicked e) p =
      failed_with ("upstream " ∷ name ∷ " task panic: " ∷ e ∷ []) p
  joined_upstream name outer elapsed p =
      failed_with
        ("upstream " ∷ name ∷ " accept loop did not exit within " ∷ tasks.debug_duration outer ∷ [])
        (record p { aborted = p.aborted ++ name ∷ [] })

  -- The loop over the upstreams, one after another.
  unfoldable pub join_upstreams : ℕ → Map RunningUpstream → Progress → Progress
  unfolding joined_upstream
  join_upstreams outer [] p = p
  join_upstreams outer ((name, up) ∷ rest) p =
      let (joined, took) = tasks.timeout outer p.now up.task in
      join_upstreams outer rest
        (joined_upstream name outer joined (record p { now = p.now + took }))

  -- The command processor and the control plane, which are not aborted.
  unfoldable pub joined_task : String → ℕ → Joined → Progress → Progress
  joined_task name limit finished p = p
  joined_task name limit (panicked e) p = failed_with (name ∷ " panic: " ∷ e ∷ []) p
  joined_task name limit elapsed p =
      failed_with (name ∷ " did not exit within " ∷ tasks.debug_duration limit ∷ []) p

  unfoldable pub join_task : String → ℕ → Option tasks.Task → Progress → Progress
  unfolding joined_task
  join_task name limit none p = p
  join_task name limit (some task) p =
      let (joined, took) = tasks.timeout limit p.now task in
      joined_task name limit joined (record p { now = p.now + took })

  -- `errors.join("; ")`
  unfoldable pub join_errors : List String → String
  unfolding format
  join_errors [] = ""
  join_errors (e ∷ []) = e
  join_errors (e ∷ f ∷ rest) = format (e ∷ "; " ∷ join_errors (f ∷ rest) ∷ [])

  unfoldable pub concluded : List String → Result (Unit {0})
  unfolding join_errors
  concluded [] = ok tt
  concluded (e ∷ errors) = err (shutdown (join_errors (e ∷ errors)))

module _ (tasks : Tasks) (medium : SnapshotStorage) where
  -- `ClusterHandle`: the upstreams in the order of their names, and what the shutdown channel holds.
  pub record Handle : Type 0 where
    pub upstreams : Map (RunningUpstream tasks)
    pub shutdown_tx : Option ℕ
    pub recording : RecordingConfig
    pub recorder : Recorder medium
    pub command_task : Option tasks.Task
    pub tcp_control : Option (RunningUpstream tasks)

  unfoldable pub tcp_control_addr : Handle → Option String
  tcp_control_addr h = elim h.tcp_control [ none ↦ none | some c ↦ some c.bound_addr ]

  unfoldable pub addr : Handle → String → Option String
  addr h name = elim (lookup name h.upstreams) [ none ↦ none | some u ↦ some u.bound_addr ]

  unfoldable pub upstream_names : Handle → List String
  upstream_names h = keys h.upstreams

  abbrev pub control_task : Option (RunningUpstream tasks) → Option tasks.Task
  control_task none = none
  control_task (some c) = some c.task

  -- The flush, which takes the time `took`.
  unfoldable pub flushed : ℕ → Result (Unit {0}) → Progress tasks → Progress tasks
  unfolding to_string
  flushed took (ok _) p = record p { now = p.now + took }
  flushed took (err e) p =
      failed_with tasks ("recorder flush failed: " ∷ to_string e ∷ [])
        (record p { now = p.now + took })

  -- `shutdown_with_timeout`; `flush_time` is the time that the flush takes.
  unfoldable pub shut_down : ℕ → ℕ → Handle → Handle × Progress tasks
  unfolding join_upstreams flushed join_task Recorder.flush
  shut_down flush_time timeout h =
      let p =
        join_upstreams tasks (timeout + 1_000_000_000) h.upstreams
          (record { now = 0; errors = []; aborted = [] }) in
      let (res, recorder) = Recorder.flush medium h.recorder in
      let p' = flushed flush_time res p in
      let p'' = join_task tasks "command processor" timeout h.command_task p' in
      let p''' = join_task tasks "TCP control plane" timeout (control_task h.tcp_control) p'' in
      (
        record h {
          shutdown_tx = some timeout;
          recorder = recorder;
          command_task = none;
          tcp_control = none;
        },
        p''',
      )

  unfoldable pub shutdown_with_timeout : ℕ → ℕ → Handle → Result (Unit {0}) × Handle
  unfolding shut_down concluded
  shutdown_with_timeout flush_time timeout h =
      let (h', p) = shut_down flush_time timeout h in (concluded tasks p.errors, h')

  -- `shutdown`
  unfoldable pub shutdown_default : ℕ → Handle → Result (Unit {0}) × Handle
  unfolding shutdown_with_timeout
  shutdown_default flush_time h = shutdown_with_timeout flush_time 5_000_000_000 h
