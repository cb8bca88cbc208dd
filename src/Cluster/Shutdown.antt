-- ===== src/Cluster/Shutdown.antt =====
-- The shutdown of a cluster: how long it takes, and what its answer says.
use partly_proxy.Base.{ℕ, ◌+◌, ◌-◌, ◌≤◌, String, Option, none, some, ◌≡◌, refl}
use partly_proxy.Types.Error.{Result, ok, err}
use partly_proxy.Storage.{SnapshotStorage}
use partly_proxy.Recorder
use partly_proxy.Cluster.{
  Joined, finished, panicked, elapsed, Tasks, Progress, joined_upstream, joined_task, flushed,
}

-- What the documentation of `tokio::time::timeout` and of a join handle says. A task is over at some
-- time or never, and may have panicked.
pub record TimeoutLaws (tasks : Tasks) : Type 0 where
  pub ends : tasks.Task → Option (ℕ × Option String)
  -- A wait is over when its limit is.
  pub limited : (limit now : ℕ) (t : tasks.Task) → (tasks.timeout limit now t).1 ≤ limit
  -- A task that is over by then is joined when it is over.
  pub in_time :
      (limit now e : ℕ) (t : tasks.Task)
      → ends t ≡ some (e, none)
      → e ≤ now + limit
      → tasks.timeout limit now t ≡ (finished, e - now)
  -- Only a task that is over, without a panic, is joined as finished.
  pub joined :
      (limit now : ℕ) (t : tasks.Task)
      → (tasks.timeout limit now t).0 ≡ finished
      → (e : ℕ) × (ends t ≡ some (e, none)) × (e ≤ now + (tasks.timeout limit now t).1)

module _ (tasks : Tasks) where
  pub now-joined_upstream :
      (name : String) (outer : ℕ) (j : Joined) (p : Progress tasks)
      → (joined_upstream tasks name outer j p).now ≡ p.now
  unfolding joined_upstream
  now-joined_upstream name outer finished p = refl
  now-joined_upstream name outer (panicked e) p = refl
  now-joined_upstream name outer elapsed p = refl

  pub now-joined_task :
      (name : String) (limit : ℕ) (j : Joined) (p : Progress tasks)
      → (joined_task tasks name limit j p).now ≡ p.now
  unfolding joined_task
  now-joined_task name limit finished p = refl
  now-joined_task name limit (panicked e) p = refl
  now-joined_task name limit elapsed p = refl

  pub now-flushed :
      (medium : SnapshotStorage) (took : ℕ) (r : Result (Unit {0})) (p : Progress tasks)
      → (flushed tasks medium took r p).now ≡ p.now + took
  unfolding flushed
  now-flushed medium took (ok u) p = refl
  now-flushed medium took (err x) p = refl
