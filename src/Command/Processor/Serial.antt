-- ===== src/Command/Processor/Serial.antt =====
-- The processor against a run of the commands one after another.
use partly_proxy.Base.{
  ℕ, zero, suc, Option, none, some, List, [], ◌∷◌, ◌++◌, ◌≡◌, refl, ap, ◌∙◌, All,
}
use mathlib.Core.List.{append_assoc}
use partly_proxy.Http.{Http}
use partly_proxy.Types.Error.{ok, err}
use partly_proxy.Storage.{SnapshotStorage}
use partly_proxy.Command.{CommandResponse, ControlState, dispatch}
use partly_proxy.Command.Processor.{
  Status, exited, Reply, CommandEnvelope, Wake, send, Processor, closed, abandoned,
}

-- The sender gets an error.
abbrev pub Failed : Reply → Type 0
Failed (id, ok response) = ⊥
Failed (id, err e) = Unit

module _ (http : Http) (medium : SnapshotStorage) where
  abbrev pub ids : List (CommandEnvelope http medium) → List ℕ
  ids [] = []
  ids (e ∷ queue) = e.reply ∷ ids queue

  abbrev pub reply_ids : List Reply → List ℕ
  reply_ids [] = []
  reply_ids ((id, result) ∷ replies) = id ∷ reply_ids replies

  -- The commands that were sent, in order.
  abbrev pub all_sent : List (Wake http medium) → List (CommandEnvelope http medium)
  all_sent [] = []
  all_sent (send e ∷ later) = e ∷ all_sent later
  all_sent (_ ∷ later) = all_sent later

  abbrev pub answer : ℕ → Option CommandResponse → List Reply
  answer id none = []
  answer id (some response) = (id, ok response) ∷ []

  -- The specification: each command is dispatched on the state that the one before it left.
  abbrev pub serial :
      List (CommandEnvelope http medium)
      → ControlState http medium
      → List Reply × ControlState http medium
  serial [] s = ([], s)
  serial (e ∷ es) s =
      let (response, s') = dispatch http medium e.cmd e.rounds s in
      let (replies, s'') = serial es s' in (answer e.reply response ++ replies, s'')

  -- Until the exit no sender has an error, and behind it none waits.
  abbrev pub AtRest :
      Status → List (CommandEnvelope http medium) → List (CommandEnvelope http medium) → Type 0
  AtRest exited queue refused = queue ≡ []
  AtRest _ queue refused = refused ≡ []

  -- Of the commands that were sent, some first ones were handled, one after another, and the senders
  -- have the answers of that; the next ones are refused, and their senders have an error; the others
  -- wait. All this is in the order of the sends.
  pub record IsSerial (start : ControlState http medium)
      (sends : List (CommandEnvelope http medium)) (p : Processor http medium) : Type 0 where
    pub handled : List (CommandEnvelope http medium)
    pub refused : List (CommandEnvelope http medium)
    pub failures : List Reply
    pub split : sends ≡ handled ++ (refused ++ p.queue)
    pub state : p.state ≡ (serial handled start).1
    pub replies : p.replies ≡ (serial handled start).0 ++ failures
    pub answered : reply_ids (serial handled start).0 ≡ ids handled
    pub refused_ids : reply_ids failures ≡ ids refused
    pub all_failed : All Failed failures
    pub at_rest : AtRest p.status p.queue refused

module _ (http : Http) (medium : SnapshotStorage) where
  pub reply_ids-append :
      (a b : List Reply)
      → reply_ids http medium (a ++ b) ≡ reply_ids http medium a ++ reply_ids http medium b
  reply_ids-append [] b = refl
  reply_ids-append ((id, result) ∷ a) b = ap (λ l. id ∷ l) (reply_ids-append a b)

  pub ids-append :
      (a b : List (CommandEnvelope http medium))
      → ids http medium (a ++ b) ≡ ids http medium a ++ ids http medium b
  ids-append [] b = refl
  ids-append (e ∷ a) b = ap (λ l. e.reply ∷ l) (ids-append a b)

  pub serial-append :
      (a b : List (CommandEnvelope http medium)) (s : ControlState http medium)
      → let (replies, s') = serial http medium a s in
        let (replies', s'') = serial http medium b s' in
        serial http medium (a ++ b) s ≡ (replies ++ replies', s'')
  serial-append [] b s = refl
  serial-append (e ∷ a) b s =
      let (response, s') = dispatch http medium e.cmd e.rounds s in
      ap
        (λ (q : List Reply × ControlState http medium).
          (answer http medium e.reply response ++ q.0, q.1))
        (serial-append a b s')
      ∙ rw append_assoc refl

  pub abandoned-Failed :
      (n : ℕ) (queue : List (CommandEnvelope http medium))
      → All Failed (abandoned http medium n queue)
        × (reply_ids http medium (abandoned http medium n queue) ≡ ids http medium queue)
  unfolding abandoned closed
  abandoned-Failed n [] = (tt, refl)
  abandoned-Failed zero (e ∷ queue) =
      let (failed, same) = abandoned-Failed zero queue in ((tt, failed), ap (λ l. e.reply ∷ l) same)
  abandoned-Failed (suc n) (e ∷ queue) =
      let (failed, same) = abandoned-Failed n queue in ((tt, failed), ap (λ l. e.reply ∷ l) same)
