-- ===== src/Cluster/Verdict.antt =====
-- What the answer of a shutdown says of the tasks of the cluster and of the flush.
use partly_proxy.Base.{
  ℕ, ◌+◌, ◌-◌, ◌≤◌, arith, String, Option, none, some, List, [], ◌∷◌, ◌++◌, ◌≡◌, refl, ap, ◌∙◌, Map,
  All, max,
}
use partly_proxy.Types.Error.{Result, ok, err}
use partly_proxy.Storage.{SnapshotStorage}
use partly_proxy.Recorder
use partly_proxy.Cluster.{
  Joined, finished, panicked, elapsed, Tasks, RunningUpstream, Progress, joined_upstream,
  join_upstreams, joined_task, join_task, concluded, Handle, control_task, flushed, shut_down,
  shutdown_with_timeout,
}
use partly_proxy.Cluster.Shutdown.{TimeoutLaws, now-joined_upstream, now-joined_task, now-flushed}

snoc_nonempty {ℓ} : {A : Type ℓ} (xs : List A) (x : A) → ¬ (xs ++ x ∷ [] ≡ [])
snoc_nonempty [] x h = cc h
snoc_nonempty (y ∷ xs) x h = cc h

module _ (tasks : Tasks) where
  joined_upstream-clean :
      (name : String) (outer : ℕ) (j : Joined) (p : Progress tasks)
      → (joined_upstream tasks name outer j p).errors ≡ []
      → (j ≡ finished) × (p.errors ≡ [])
  unfolding joined_upstream
  joined_upstream-clean name outer finished p h = (refl, h)
  joined_upstream-clean name outer (panicked e) p h = absurd (snoc_nonempty p.errors _ h)
  joined_upstream-clean name outer elapsed p h = absurd (snoc_nonempty p.errors _ h)

  joined_task-clean :
      (name : String) (limit : ℕ) (j : Joined) (p : Progress tasks)
      → (joined_task tasks name limit j p).errors ≡ []
      → (j ≡ finished) × (p.errors ≡ [])
  unfolding joined_task
  joined_task-clean name limit finished p h = (refl, h)
  joined_task-clean name limit (panicked e) p h = absurd (snoc_nonempty p.errors _ h)
  joined_task-clean name limit elapsed p h = absurd (snoc_nonempty p.errors _ h)

  flushed-clean :
      (medium : SnapshotStorage) (took : ℕ) (r : Result (Unit {0})) (p : Progress tasks)
      → (flushed tasks medium took r p).errors ≡ []
      → (r ≡ ok tt) × (p.errors ≡ [])
  unfolding flushed
  flushed-clean medium took (ok u) p h = (refl, h)
  flushed-clean medium took (err x) p h = absurd (snoc_nonempty p.errors _ h)

  concluded-clean : (errors : List String) → concluded tasks errors ≡ ok tt → errors ≡ []
  unfolding concluded
  concluded-clean [] h = refl
  concluded-clean (e ∷ errors) h = absurd (cc h)

module _ (tasks : Tasks) (laws : TimeoutLaws tasks) where
  -- The task was over by then, without a panic.
  abbrev pub EndedBy : ℕ → tasks.Task → Type 0
  EndedBy n t = (e : ℕ) × (laws.ends t ≡ some (e, none)) × (e ≤ n)

  abbrev pub TaskEndedBy : ℕ → Option tasks.Task → Type 0
  TaskEndedBy n none = Unit
  TaskEndedBy n (some t) = EndedBy n t

  abbrev pub UpstreamEndedBy : ℕ → String × RunningUpstream tasks → Type 0
  UpstreamEndedBy n (name, up) = EndedBy n up.task

  -- The wait for the upstreams, backwards: no error in the end is no error at any of them.
  join_upstreams-clean :
      (outer : ℕ) (ups : Map (RunningUpstream tasks)) (p : Progress tasks)
      → let q = join_upstreams tasks outer ups p in
        q.errors ≡ []
        → (p.errors ≡ []) × (p.now ≤ q.now) × ((n : ℕ) → q.now ≤ n → All (UpstreamEndedBy n) ups)
  unfolding join_upstreams
  join_upstreams-clean outer [] p h = (h, omega arith, λ n enough. tt)
  join_upstreams-clean outer ((name, up) ∷ rest) p h =
      let (j, took) = tasks.timeout outer p.now up.task in
      let q : Progress tasks = record p { now = p.now + took } in
      let (clean, later, all) =
        join_upstreams-clean outer rest (joined_upstream tasks name outer j q) h in
      let (done, before) = joined_upstream-clean tasks name outer j q clean in
      let same = now-joined_upstream tasks name outer j q in
      let (e, ends, by) = laws.joined outer p.now up.task done in
      (before, omega arith, λ n enough. ((e, ends, omega arith), all n enough))

  join_task-clean :
      (name : String) (limit : ℕ) (t : Option tasks.Task) (p : Progress tasks)
      → let q = join_task tasks name limit t p in
        q.errors ≡ [] → (p.errors ≡ []) × (p.now ≤ q.now) × ((n : ℕ) → q.now ≤ n → TaskEndedBy n t)
  unfolding join_task
  join_task-clean name limit none p h = (h, omega arith, λ n enough. tt)
  join_task-clean name limit (some t) p h =
      let (j, took) = tasks.timeout limit p.now t in
      let q : Progress tasks = record p { now = p.now + took } in
      let (done, before) = joined_task-clean tasks name limit j q h in
      let same = now-joined_task tasks name limit j q in
      let (e, ends, by) = laws.joined limit p.now t done in
      (before, omega arith, λ n enough. (e, ends, omega arith))

  -- The wait for the upstreams, forwards: where all are over in time, it takes no longer than they.
  join_upstreams-in_time :
      (outer n : ℕ) (ups : Map (RunningUpstream tasks)) (p : Progress tasks)
      → n ≤ outer
      → p.now ≤ n
      → All (UpstreamEndedBy n) ups
      → let q = join_upstreams tasks outer ups p in (q.errors ≡ p.errors) × (q.now ≤ n)
  unfolding join_upstreams joined_upstream
  join_upstreams-in_time outer n [] p fits early all = (refl, early)
  join_upstreams-in_time outer n ((name, up) ∷ rest) p fits early ((e, ends, by), all) =
      let t = laws.in_time outer p.now e up.task ends (omega arith) in
      let q : Progress tasks = record p { now = p.now + (e - p.now) } in
      rw (join_upstreams, t) (join_upstreams-in_time outer n rest q fits (omega arith) all)

  join_task-in_time :
      (name : String) (limit n : ℕ) (t : Option tasks.Task) (p : Progress tasks)
      → n ≤ limit
      → TaskEndedBy n t
      → let q = join_task tasks name limit t p in (q.errors ≡ p.errors) × (q.now ≤ max p.now n)
  unfolding join_task joined_task
  join_task-in_time name limit n none p fits ended = (refl, omega arith)
  join_task-in_time name limit n (some t) p fits (e, ends, by) =
      rw (laws.in_time limit p.now e t ends (omega arith)) (refl, omega arith)

module _ (tasks : Tasks) (medium : SnapshotStorage) (laws : TimeoutLaws tasks) where
  -- A shutdown that answers `Ok` says the truth: every listener was over without a panic when the
  -- flush began, the flush succeeded, and the command processor and the control plane were over
  -- when it returned.
  pub shutdown_ok :
      (flush_time timeout : ℕ) (h : Handle tasks medium)
      → (shutdown_with_timeout tasks medium flush_time timeout h).0 ≡ ok tt
      → let n = (shut_down tasks medium flush_time timeout h).1.now in
        (began : ℕ) × (began + flush_time ≤ n)
        × All (UpstreamEndedBy tasks laws began) h.upstreams
        × ((Recorder.flush medium h.recorder).0 ≡ ok tt)
        × TaskEndedBy tasks laws n h.command_task
        × TaskEndedBy tasks laws n (control_task tasks medium h.tcp_control)
  unfolding shutdown_with_timeout shut_down
  shutdown_ok flush_time timeout h answer =
      let p =
        join_upstreams tasks (timeout + 1_000_000_000) h.upstreams
          (record { now = 0; errors = []; aborted = [] }) in
      let res = (Recorder.flush medium h.recorder).0 in
      let p' = flushed tasks medium flush_time res p in
      let p'' = join_task tasks "command processor" timeout h.command_task p' in
      let (clean, later, control) =
        join_task-clean tasks laws "TCP control plane" timeout
          (control_task tasks medium h.tcp_control) p'' (concluded-clean tasks _ answer) in
      let (clean', later', processor) =
        join_task-clean tasks laws "command processor" timeout h.command_task p' clean in
      let (fenced, clean'') = flushed-clean tasks medium flush_time res p clean' in
      let (_, _, upstreams) =
        join_upstreams-clean tasks laws (timeout + 1_000_000_000) h.upstreams
          (record { now = 0; errors = []; aborted = [] }) clean'' in
      let same = now-flushed tasks medium flush_time res p in
      (
        p.now,
        omega arith,
        upstreams p.now (omega arith),
        fenced,
        processor _ (omega arith),
        control _ (omega arith),
      )

  flushed-in_time :
      (took : ℕ) (r : Result (Unit {0})) (p : Progress tasks)
      → r ≡ ok tt
      → (flushed tasks medium took r p).errors ≡ p.errors
  unfolding flushed
  flushed-in_time took (ok u) p h = refl
  flushed-in_time took (err x) p h = absurd (cc h)

  -- Where every task is over without a panic within the timeout, and the flush succeeds, the shutdown
  -- answers `Ok`, no later than the timeout and the time of the flush after the signal.
  pub shutdown_in_time :
      (flush_time timeout : ℕ) (h : Handle tasks medium)
      → All (UpstreamEndedBy tasks laws timeout) h.upstreams
      → (Recorder.flush medium h.recorder).0 ≡ ok tt
      → TaskEndedBy tasks laws timeout h.command_task
      → TaskEndedBy tasks laws timeout (control_task tasks medium h.tcp_control)
      → ((shutdown_with_timeout tasks medium flush_time timeout h).0 ≡ ok tt)
        × ((shut_down tasks medium flush_time timeout h).1.now ≤ timeout + flush_time)
  unfolding shutdown_with_timeout shut_down concluded
  shutdown_in_time flush_time timeout h upstreams fenced processor control =
      let p =
        join_upstreams tasks (timeout + 1_000_000_000) h.upstreams
          (record { now = 0; errors = []; aborted = [] }) in
      let res = (Recorder.flush medium h.recorder).0 in
      let p' = flushed tasks medium flush_time res p in
      let p'' = join_task tasks "command processor" timeout h.command_task p' in
      let (e1, n1) =
        join_upstreams-in_time tasks laws (timeout + 1_000_000_000) timeout h.upstreams
          (record { now = 0; errors = []; aborted = [] }) (omega arith) (omega arith) upstreams in
      let e2 = flushed-in_time flush_time res p fenced in
      let n2 = now-flushed tasks medium flush_time res p in
      let (e3, n3) =
        join_task-in_time tasks laws "command processor" timeout timeout h.command_task p'
          (omega arith) processor in
      let (e4, n4) =
        join_task-in_time tasks laws "TCP control plane" timeout timeout
          (control_task tasks medium h.tcp_control) p'' (omega arith) control in
      (ap (concluded tasks) (e4 ∙ e3 ∙ e2 ∙ e1), omega arith)
