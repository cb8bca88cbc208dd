-- ===== src/Command/Processor/Turns.antt =====
-- Each turn of the processor keeps it a serial run of the commands.
use partly_proxy.Base.{Option, none, some, List, [], ◌∷◌, ◌++◌, ◌≡◌, refl, sym, ap, ◌∙◌, All-append}
use mathlib.Core.List.{append_assoc, append-nil}
use partly_proxy.Http.{Http}
use partly_proxy.Types.Error.{ok}
use partly_proxy.Storage.{SnapshotStorage}
use partly_proxy.Command.{CommandResponse, ControlState, dispatch}
use partly_proxy.Command.Processor.{
  Status, selecting, waiting, exited, Reply, CommandEnvelope, Wake, send, receive, stop, Processor,
  closed, abandoned, sent, dispatched, received, stopped,
}
use partly_proxy.Command.Processor.Serial.{
  Failed, ids, reply_ids, all_sent, answer, serial, AtRest, IsSerial, reply_ids-append, ids-append,
  serial-append, abandoned-Failed,
}

module _ {ℓ} {A : Type ℓ} (sends handled refused queue : List A) where
  split_refused :
      (e : A)
      → sends ≡ handled ++ (refused ++ queue)
      → queue ≡ []
      → sends ++ e ∷ [] ≡ handled ++ ((refused ++ e ∷ []) ++ queue)
  split_refused e h empty = rw (h, empty, append-nil, append_assoc) (rw append-nil refl)

  split_queued :
      (e : A)
      → sends ≡ handled ++ (refused ++ queue)
      → sends ++ e ∷ [] ≡ handled ++ (refused ++ (queue ++ e ∷ []))
  split_queued e h = rw (h, append_assoc, append_assoc) refl

  split_handled :
      (e : A)
      → sends ≡ handled ++ (refused ++ (e ∷ queue))
      → refused ≡ []
      → sends ≡ (handled ++ e ∷ []) ++ (refused ++ queue)
  split_handled e h empty = rw (h, empty, append_assoc) refl

  split_stopped :
      sends ≡ handled ++ (refused ++ queue) → sends ≡ handled ++ ((refused ++ queue) ++ [])
  split_stopped h = rw (h, append-nil) refl

module _ (http : Http) (medium : SnapshotStorage) where
  reply_ids_none : (replies : List Reply) → reply_ids http medium replies ≡ [] → replies ≡ []
  reply_ids_none [] h = refl
  reply_ids_none ((id, result) ∷ replies) h = absurd (cc h)

  pub append_all_sent :
      (w : Wake http medium) (later : List (Wake http medium))
      → all_sent http medium (w ∷ []) ++ all_sent http medium later
        ≡ all_sent http medium (w ∷ later)
  append_all_sent (send e) later = refl
  append_all_sent receive later = refl
  append_all_sent stop later = refl

module _ (http : Http) (medium : SnapshotStorage) (start : ControlState http medium)
    (sends : List (CommandEnvelope http medium)) where
  abbrev Serial : List (CommandEnvelope http medium) → Processor http medium → Type 0
  Serial all p = IsSerial http medium start all p

  queued-IsSerial :
      (e : CommandEnvelope http medium) (p : Processor http medium)
      → ((refused : List (CommandEnvelope http medium))
          → AtRest http medium p.status p.queue refused
          → AtRest http medium p.status (p.queue ++ e ∷ []) refused)
      → Serial sends p
      → Serial (sends ++ e ∷ []) (record p { queue = p.queue ++ e ∷ [] })
  queued-IsSerial e p rest h = record {
    handled = h.handled;
    refused = h.refused;
    failures = h.failures;
    split = split_queued sends h.handled h.refused p.queue e h.split;
    state = h.state;
    replies = h.replies;
    answered = h.answered;
    refused_ids = h.refused_ids;
    all_failed = h.all_failed;
    at_rest = rest h.refused h.at_rest;
  }

  pub sent-IsSerial :
      (e : CommandEnvelope http medium) (status : Status) (p : Processor http medium)
      → p.status ≡ status
      → Serial sends p
      → Serial (sends ++ e ∷ []) (sent http medium e status p)
  unfolding sent closed
  sent-IsSerial e exited p is h =
      let empty : p.queue ≡ [] = rw is at h.at_rest in
      record {
        handled = h.handled;
        refused = h.refused ++ e ∷ [];
        failures = h.failures ++ closed http medium e ∷ [];
        split = split_refused sends h.handled h.refused p.queue e h.split empty;
        state = h.state;
        replies = rw (h.replies, append_assoc) refl;
        answered = h.answered;
        refused_ids =
            reply_ids-append http medium h.failures _
            ∙ rw h.refused_ids (sym (ids-append http medium h.refused (e ∷ [])));
        all_failed = All-append Failed h.failures _ h.all_failed (tt, tt);
        at_rest = rw is empty;
      }
  sent-IsSerial e selecting p is h = queued-IsSerial e p (λ refused r. rw is (rw is at r)) h
  sent-IsSerial e waiting p is h = queued-IsSerial e p (λ refused r. rw is (rw is at r)) h

  dispatched-IsSerial :
      (e : CommandEnvelope http medium) (queue : List (CommandEnvelope http medium))
      (o : Option CommandResponse × ControlState http medium) (p : Processor http medium)
      → p.status ≡ selecting
      → p.queue ≡ e ∷ queue
      → dispatch http medium e.cmd e.rounds p.state ≡ o
      → Serial sends p
      → Serial sends (dispatched http medium e queue o p)
  unfolding dispatched
  dispatched-IsSerial e queue (none, s) p is first runs h = record {
    handled = h.handled;
    refused = h.refused;
    failures = h.failures;
    split = h.split;
    state = h.state;
    replies = h.replies;
    answered = h.answered;
    refused_ids = h.refused_ids;
    all_failed = h.all_failed;
    at_rest = rw is at h.at_rest;
  }
  dispatched-IsSerial e queue (some response, s) p is first runs h =
      let clean : h.refused ≡ [] = rw is at h.at_rest in
      let no_failures =
        reply_ids_none http medium h.failures (h.refused_ids ∙ ap (ids http medium) clean) in
      let (answers, reached) = serial http medium h.handled start in
      let one : serial http medium (e ∷ []) reached ≡ ((e.reply, ok response) ∷ [], s) =
        ap
          (λ (o : Option CommandResponse × ControlState http medium).
            (answer http medium e.reply o.0 ++ [], o.1))
          (ap (dispatch http medium e.cmd e.rounds) (sym h.state) ∙ runs) in
      let more : serial http medium (h.handled ++ e ∷ []) start
          ≡ (answers ++ (e.reply, ok response) ∷ [], s) =
        serial-append http medium h.handled (e ∷ []) start
        ∙ ap (λ (q : List Reply × ControlState http medium). (answers ++ q.0, q.1)) one in
      record {
        handled = h.handled ++ e ∷ [];
        refused = h.refused;
        failures = h.failures;
        split = split_handled sends h.handled h.refused queue e (rw first at h.split) clean;
        state = rw more refl;
        replies = rw (more, h.replies, no_failures, append-nil) (rw append-nil refl);
        answered = rw more (
            reply_ids-append http medium answers _
            ∙ ap (λ l. l ++ e.reply ∷ []) h.answered
            ∙ sym (ids-append http medium h.handled (e ∷ [])));
        refused_ids = h.refused_ids;
        all_failed = h.all_failed;
        at_rest = rw is clean;
      }

  pub received-IsSerial :
      (queue : List (CommandEnvelope http medium)) (status : Status) (p : Processor http medium)
      → p.status ≡ status
      → p.queue ≡ queue
      → Serial sends p
      → Serial sends (received http medium queue status p)
  unfolding received
  received-IsSerial [] status p is first h = h
  received-IsSerial (e ∷ queue) selecting p is first h =
      dispatched-IsSerial e queue (dispatch http medium e.cmd e.rounds p.state) p is first refl h
  received-IsSerial (e ∷ queue) waiting p is first h = h
  received-IsSerial (e ∷ queue) exited p is first h = h

  pub stopped-IsSerial :
      (status : Status) (p : Processor http medium)
      → p.status ≡ status
      → Serial sends p
      → Serial sends (stopped http medium status p)
  unfolding stopped
  stopped-IsSerial selecting p is h =
      let (failed, same) = abandoned-Failed http medium 64 p.queue in
      record {
        handled = h.handled;
        refused = h.refused ++ p.queue;
        failures = h.failures ++ abandoned http medium 64 p.queue;
        split = split_stopped sends h.handled h.refused p.queue h.split;
        state = h.state;
        replies = rw (h.replies, append_assoc) refl;
        answered = h.answered;
        refused_ids =
            reply_ids-append http medium h.failures (abandoned http medium 64 p.queue)
            ∙ rw (h.refused_ids, same) (sym (ids-append http medium h.refused p.queue));
        all_failed = All-append Failed h.failures _ h.all_failed failed;
        at_rest = refl;
      }
  stopped-IsSerial waiting p is h = h
  stopped-IsSerial exited p is h = h
