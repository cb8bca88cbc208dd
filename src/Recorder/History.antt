-- ===== src/Recorder/History.antt =====
-- The ring over the life of a recorder, against the history of what it accepted.
use partly_proxy.Base.{
  ◌-◌, ◌≤◌, true, List, [], ◌∷◌, ◌++◌, ◌≡◌, refl, ap, length-last_n-le, Map, length, last_n,
  drop-nil, sym, ◌∙◌,
}
use partly_proxy.Types.Error.{Result, ok, err}
use partly_proxy.Types.Recorded.{RecordedExchange}
use partly_proxy.Config.{RecordingConfig}
use partly_proxy.Storage.{SnapshotStorage}
use partly_proxy.Recorder.{Recorder, record_exchange, clear, flush, with_routes}
use partly_proxy.Recorder.Ring.{IsRing, Records, record_exchange-Records, config-record_exchange}

module _ (medium : SnapshotStorage) where
  -- What callers do to a recorder.
  pub data Operation : Type 0 where
    record_op : RecordedExchange → Operation
    clear_op flush_op : Operation

  -- The history goes on with each exchange that `record` answers with `Ok`, and ends with a `clear`.
  abbrev pub accepted :
      List RecordedExchange → RecordedExchange → Result (Unit {0}) → List RecordedExchange
  accepted history e (ok _) = history ++ e ∷ []
  accepted history e (err x) = history

  unfoldable pub operate :
      Operation → Recorder medium → List RecordedExchange → Recorder medium × List RecordedExchange
  operate (record_op e) r history =
      let (res, r') = record_exchange medium r e in (r', accepted history e res)
  operate clear_op r history = (clear medium r, [])
  operate flush_op r history = ((flush medium r).1, history)

  unfoldable pub operate_all :
      List Operation
      → Recorder medium
      → List RecordedExchange
      → Recorder medium × List RecordedExchange
  unfolding operate
  operate_all [] r history = (r, history)
  operate_all (o ∷ ops) r history =
      let (r', history') = operate o r history in operate_all ops r' history'

  Records-IsRing :
      (r : Recorder medium) (history : List RecordedExchange) (e : RecordedExchange)
      (res : Result (Unit {0})) (r' : Recorder medium)
      → r'.config ≡ r.config
      → IsRing medium r history
      → Records medium r history e (res, r')
      → IsRing medium r' (accepted history e res)
  Records-IsRing r history e (ok u) r' same h (ring, _) = ring
  Records-IsRing r history e (err x) r' same h (buffer, _) =
      buffer ∙ h ∙ ap (λ (c : RecordingConfig). last_n c.max_in_memory history) (sym same)

  operate-IsRing :
      (o : Operation) (r : Recorder medium) (history : List RecordedExchange)
      → r.config.enabled ≡ true
      → IsRing medium r history
      → let (r', history') = operate o r history in
        IsRing medium r' history' × (r'.config ≡ r.config)
  unfolding operate clear flush
  operate-IsRing (record_op e) r history h ring =
      let (res, r') = record_exchange medium r e in
      let same = config-record_exchange medium r e in
      (
        Records-IsRing r history e res r' same ring
            (record_exchange-Records medium r history e h ring),
        same,
      )
  operate-IsRing clear_op r history h ring = (sym (drop-nil (0 - r.config.max_in_memory)), refl)
  operate-IsRing flush_op r history h ring = (ring, refl)

  operate_all-IsRing :
      (ops : List Operation) (r : Recorder medium) (history : List RecordedExchange)
      → r.config.enabled ≡ true
      → IsRing medium r history
      → let (r', history') = operate_all ops r history in
        IsRing medium r' history' × (r'.config ≡ r.config)
  unfolding operate_all
  operate_all-IsRing [] r history h ring = (ring, refl)
  operate_all-IsRing (o ∷ ops) r history h ring =
      let (r', history') = operate o r history in
      let (ring', same) = operate-IsRing o r history h ring in
      let (ring'', same') = operate_all-IsRing ops r' history' (rw same h) ring' in
      (ring'', same' ∙ same)

  -- After any calls of `record`, `clear` and `flush` on a fresh, enabled recorder, the buffer holds
  -- exactly the newest of the exchanges that were accepted since the last `clear`, in order, and no
  -- more than the capacity.
  pub recorder-IsRing :
      (config : RecordingConfig) (storage : Map medium.State) (ops : List Operation)
      → config.enabled ≡ true
      → let (r, history) = operate_all ops (with_routes medium config storage) [] in
        (r.buffer ≡ last_n config.max_in_memory history) × (length r.buffer ≤ config.max_in_memory)
  unfolding with_routes
  recorder-IsRing config storage ops h =
      let (r, history) = operate_all ops (with_routes medium config storage) [] in
      let (ring, same) =
        operate_all-IsRing ops (with_routes medium config storage) [] h
          (sym (drop-nil (0 - config.max_in_memory))) in
      let exact : r.buffer ≡ last_n config.max_in_memory history =
        ring ∙ ap (λ (c : RecordingConfig). last_n c.max_in_memory history) same in
      (exact, rw exact (length-last_n-le config.max_in_memory history))
