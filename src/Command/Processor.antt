-- ===== src/Command/Processor.antt =====
-- crates/partly-proxy-lib/src/command.rs: `CommandSender::send`, `spawn_processor` and `process_loop`.
-- The channel is its queue: 64 envelopes in the channel and, behind them, those of the senders that
-- wait for room. A wake is a send, a turn of the loop that takes an envelope, or the shutdown (the
-- signal or the loss of its sender).
pub mod Serial
pub mod Turns
pub mod Fifo
use partly_proxy.Base.{ℕ, zero, suc, String, Option, none, some, List, [], ◌∷◌, ◌++◌}
use partly_proxy.Http.{Http}
use partly_proxy.Types.Error.{ProxyError, Result, ok, err, command}
use partly_proxy.Storage.{SnapshotStorage}
use partly_proxy.Command.{Command, CommandResponse, Round, ControlState, dispatch}

pub data Status : Type 0 where
  -- In the `select!`, in an assertion that still waits, or behind the loop.
  selecting waiting exited : Status

-- What a sender gets, under the number of its reply channel.
abbrev pub Reply : Type 0
Reply = ℕ × Result CommandResponse

module _ (http : Http) (medium : SnapshotStorage) where
  -- `CommandEnvelope`, with the rounds that an assertion would see.
  pub record CommandEnvelope : Type 0 where
    pub reply : ℕ
    pub cmd : Command http
    pub rounds : List (Round medium)

  pub data Wake : Type 0 where
    send : CommandEnvelope → Wake
    receive stop : Wake

  pub record Processor : Type 0 where
    pub state : ControlState http medium
    pub queue : List CommandEnvelope
    pub status : Status
    pub replies : List Reply

  unfoldable pub spawn_processor : ControlState http medium → Processor
  spawn_processor s = record { state = s; queue = []; status = selecting; replies = [] }

  unfoldable pub closed : CommandEnvelope → Reply
  closed e = (e.reply, err (command "command channel closed"))

  -- The receiver is gone: `n` envelopes are in the channel, and their replies are dropped.
  unfoldable pub abandoned : ℕ → List CommandEnvelope → List Reply
  unfolding closed
  abandoned n [] = []
  abandoned zero (e ∷ queue) = closed e ∷ abandoned zero queue
  abandoned (suc n) (e ∷ queue) =
      (e.reply, err (command "command reply dropped")) ∷ abandoned n queue

  unfoldable pub sent : CommandEnvelope → Status → Processor → Processor
  unfolding closed
  sent e exited p = record p { replies = p.replies ++ closed e ∷ [] }
  sent e _ p = record p { queue = p.queue ++ e ∷ [] }

  -- The turn behind the dispatch of the first envelope.
  unfoldable pub dispatched :
      CommandEnvelope
      → List CommandEnvelope
      → Option CommandResponse × ControlState http medium
      → Processor
      → Processor
  dispatched e queue (none, s) p = record p { status = waiting }
  dispatched e queue (some response, s) p = record p {
    state = s;
    queue = queue;
    replies = p.replies ++ (e.reply, ok response) ∷ [];
  }

  unfoldable pub received : List CommandEnvelope → Status → Processor → Processor
  unfolding dispatched dispatch
  received (e ∷ queue) selecting p =
      dispatched e queue (dispatch http medium e.cmd e.rounds p.state) p
  received _ _ p = p

  unfoldable pub stopped : Status → Processor → Processor
  unfolding abandoned
  stopped selecting p = record p {
    queue = [];
    status = exited;
    replies = p.replies ++ abandoned 64 p.queue;
  }
  stopped _ p = p

  -- `process_loop`
  unfoldable pub wake : Wake → Processor → Processor
  unfolding sent received stopped
  wake (send e) p = sent e p.status p
  wake receive p = received p.queue p.status p
  wake stop p = stopped p.status p

  unfoldable pub process : List Wake → Processor → Processor
  unfolding wake
  process [] p = p
  process (w ∷ later) p = process later (wake w p)
