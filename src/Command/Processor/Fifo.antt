-- ===== src/Command/Processor/Fifo.antt =====
-- Every turn of the processor keeps it a serial run of the commands in the order of their sends.
use partly_proxy.Base.{List, [], ◌∷◌, ◌++◌, ◌≡◌, refl, sym, ap, ◌∙◌}
use mathlib.Core.List.{append_assoc, append-nil}
use partly_proxy.Http.{Http}
use partly_proxy.Storage.{SnapshotStorage}
use partly_proxy.Command.{ControlState}
use partly_proxy.Command.Processor.{
  CommandEnvelope, Wake, send, receive, stop, Processor, spawn_processor, wake, process,
}
use partly_proxy.Command.Processor.Serial.{
  ids, reply_ids, all_sent, serial, IsSerial, reply_ids-append, ids-append,
}
use partly_proxy.Command.Processor.Turns.{
  append_all_sent, sent-IsSerial, received-IsSerial, stopped-IsSerial,
}

module _ (http : Http) (medium : SnapshotStorage) (start : ControlState http medium) where
  IsSerial-ids :
      (sends : List (CommandEnvelope http medium)) (p : Processor http medium)
      → IsSerial http medium start sends p
      → reply_ids http medium p.replies ++ ids http medium p.queue ≡ ids http medium sends
  IsSerial-ids sends p h =
      let answers = (serial http medium h.handled start).0 in
      let replied : reply_ids http medium p.replies
          ≡ ids http medium h.handled ++ ids http medium h.refused =
        rw (h.replies, reply_ids-append http medium answers h.failures, h.answered, h.refused_ids)
          refl in
      ap (λ l. l ++ ids http medium p.queue) replied
      ∙ append_assoc (ids http medium h.handled) (ids http medium h.refused)
          (ids http medium p.queue)
      ∙ ap (λ l. ids http medium h.handled ++ l) (sym (ids-append http medium h.refused p.queue))
      ∙ sym (ids-append http medium h.handled (h.refused ++ p.queue))
      ∙ ap (ids http medium) (sym h.split)

  wake-IsSerial :
      (w : Wake http medium) (sends : List (CommandEnvelope http medium))
      (p : Processor http medium)
      → IsSerial http medium start sends p
      → IsSerial http medium start (sends ++ all_sent http medium (w ∷ [])) (wake http medium w p)
  unfolding wake
  wake-IsSerial (send e) sends p h = sent-IsSerial http medium start sends e p.status p refl h
  wake-IsSerial receive sends p h =
      rw append-nil (received-IsSerial http medium start sends p.queue p.status p refl refl h)
  wake-IsSerial stop sends p h =
      rw append-nil (stopped-IsSerial http medium start sends p.status p refl h)

  process_from-IsSerial :
      (wakes : List (Wake http medium)) (sends : List (CommandEnvelope http medium))
      (p : Processor http medium)
      → IsSerial http medium start sends p
      → IsSerial http medium start
          (sends ++ all_sent http medium wakes)
          (process http medium wakes p)
  unfolding process
  process_from-IsSerial [] sends p h = rw append-nil h
  process_from-IsSerial (w ∷ later) sends p h =
      rw (← append_all_sent http medium w later, ← append_assoc)
        (process_from-IsSerial later (sends ++ all_sent http medium (w ∷ [])) (wake http medium w p)
          (wake-IsSerial w sends p h))

  -- However sends, turns of the loop and the shutdown interleave, the commands are handled one after
  -- another in the order in which they were sent, and each sender has what a run of the commands up
  -- to its own answers, on the state that those before it left; behind the shutdown the senders
  -- that were left have an error, in that order too. No command is handled or answered twice, and
  -- none is lost.
  pub process-IsSerial :
      (wakes : List (Wake http medium))
      → let p = process http medium wakes (spawn_processor http medium start) in
        IsSerial http medium start (all_sent http medium wakes) p
        × (reply_ids http medium p.replies ++ ids http medium p.queue
            ≡ ids http medium (all_sent http medium wakes))
  unfolding spawn_processor
  process-IsSerial wakes =
      let p = process http medium wakes (spawn_processor http medium start) in
      let h = process_from-IsSerial wakes [] (spawn_processor http medium start) (record {
        handled = [];
        refused = [];
        failures = [];
        split = refl;
        state = refl;
        replies = refl;
        answered = refl;
        refused_ids = refl;
        all_failed = tt;
        at_rest = refl;
      }) in
      (h, IsSerial-ids (all_sent http medium wakes) p h)
