-- ===== src/Lib.antt =====
-- partly-proxy: a programmable HTTP proxy that records the exchanges of its upstreams, answers from
-- stubs and from recorded snapshots, and is controlled by commands and assertions.
--
-- Parts and how they interact. A request comes to a listener, passes the middleware chain of its
-- upstream and reaches the terminal, which asks the stubs, then the replay index, and then forwards
-- the request or answers the miss; the exchange is recorded in the ring buffer and in the upstream's
-- storage, and a forwarded one is put into the live replay index. The command processor changes the
-- stubs and the pause flags, reads the recorder and waits for assertions.
--
--   Types       crates/partly-proxy-types/src/{error,recorded,hash}.rs and
--               crates/partly-proxy-lib/src/{proxy_io,context}.rs: requests, responses, exchanges
--   Types.Encoding  crates/partly-proxy-types/src/encoding.rs and the derives of recorded.rs: an exchange
--               as a document of serde's data model, and back
--   Config      crates/partly-proxy-lib/src/config.rs
--   Storage     crates/partly-proxy-types/src/storage.rs: the trait `SnapshotStorage` as a record, its
--               contract `StorageLaws`, and `InMemoryStorage`
--   Storage.Jsonl  crates/partly-proxy-storage-jsonl/src/lib.rs: a file of lines
--   Storage.Sqlite  crates/partly-proxy-storage-sqlite/src/lib.rs, over a database that is a parameter
--   Storage.Conformance  crates/partly-proxy-types/src/testing.rs: the battery of cases for a medium
--   Recorder    crates/partly-proxy-lib/src/recorder.rs: the ring buffer and the storage routes;
--               `Recorder::record` is `record_exchange`
--   Stub        crates/partly-proxy-lib/src/stub.rs: matchers and the store; `take_match`
--   Traffic     crates/partly-proxy-lib/src/assertions.rs: `TrafficFilter::matches`
--   Middleware  crates/partly-proxy-lib/src/middleware.rs: `run_chain` and the redaction passes
--   Replay      crates/partly-proxy-lib/src/replay.rs: the index, its insertion and its lookup
--   Forwarder   crates/partly-proxy-lib/src/forwarder.rs: the outbound request and its errors
--   Upstream    crates/partly-proxy-lib/src/upstream.rs: the runtime of an upstream, the registry
--   Listener    crates/partly-proxy-lib/src/listener.rs: `handle_request` and all that it calls;
--               Listener.Accepting is `accept_loop` and `serve_one`
--   Flight      crates/partly-proxy-lib/src/listener.rs: requests in flight at the same time, as steps
--               that a schedule picks
--   Command     crates/partly-proxy-lib/src/command.rs: `dispatch` and the wait for assertions;
--               Command.Processor is the channel with `process_loop`
--   Wire        crates/partly-proxy-lib/src/wire.rs: commands and responses of the JSON Lines protocol
--   ControlPlane  crates/partly-proxy-lib/src/control_plane.rs: the lines of a connection, and its accept loop
--   Cluster     crates/partly-proxy-lib/src/cluster.rs: the handle of a cluster and its shutdown
--   Builder     crates/partly-proxy-lib/src/builder.rs: the fluent operations; Builder.Run is `run`, with
--               `spawn_listener` of listener.rs
--   Tls         crates/partly-proxy-lib/src/tls.rs: what the TLS configurations are built from
--   Echo        crates/partly-proxy-echo/src/lib.rs: the echo server of the integration tests
--   Http        the third-party parts, as parameters: addresses, header maps, patterns, digests
--   Tests       a concrete instance of the parameters, and the theorems at concrete inputs
--
-- The state is explicit. A lock that is held for a whole operation makes the operation a function.
-- A listener's state is `World`: the runtime of its upstream, the shared recorder, and the network
-- behind the HTTP client, which is a parameter. The times and identifiers of a request are the input
-- `Ambient`. What an assertion sees while others record is a list of rounds. Durations are natural
-- numbers of nanoseconds. Counters have no upper bound: the notifications and the line numbers go up
-- by one at a time from zero, and the counts of the stubs only go down. There is no fuel but in
-- `decimal`, where it is the number itself plus one.
--
-- `handle_request` runs to its end. In Flight a request is the place where its future waits, with
-- what it holds there, and `advance` is its way to the next such place; a schedule of any length
-- says who goes on, and commands and other listeners act in between. A connection that is cut is a
-- request that is not picked again. A wait at the pause gate is also a function of the changes
-- that it sees (Listener.Gate). Loops over a `select!` are functions of the sequence of events
-- that they see. The tasks of a cluster, and the waits for them with a limit, are a parameter with
-- the documented behaviour of the runtime (`TimeoutLaws`).
--
-- Not modelled: sockets, the TLS handshake, logging, the exit of the command processor where
-- no sender is left (a cluster's handle keeps one), two threads inside one operation of the
-- recorder, of the stub store or of the index, and what a middleware keeps in itself (a `handle`
-- is a function of the request and the context, before and after its one call of `next.run`).
pub mod Base
pub mod Http
pub mod Types
pub mod Config
pub mod Stub
pub mod Traffic
pub mod Storage
pub mod Recorder
pub mod Middleware
pub mod Replay
pub mod Forwarder
pub mod Upstream
pub mod Listener
pub mod Echo
pub mod Flight
pub mod Command
pub mod Cluster
pub mod Wire
pub mod ControlPlane
pub mod Builder
pub mod Tls
pub mod Tests
