-- ===== src/Lib.antt =====
-- The SAPIENT bridge for peat: sensors (DLMMs) connect over TCP to the bridge (the HLDMM), which
-- turns their messages into peat updates and sends them tasks, kept in a queue while they are away.
--
-- A connection's bytes pass the frame codec; each message goes to `run_connection`, which greets
-- a sensor at its first registration (acknowledgement, replay of queued tasks), routes the message
-- through the rate limiter and the transforms, and updates the registry, the queue and the commands
-- that tasks stand for. The application calls `send_task` and `send_alert_ack`, and the watchdog
-- removes silent nodes from the registry. The mesh transport carries the same messages between such
-- connections and the documents of a peat mesh, and the bridge program configures and starts it.
--
-- Files, with the Rust files of peat-sapient/src that they model:
--   Base            numbers, texts, lists and maps that the other modules share
--   TaskQueue       task_queue.rs: enqueue, ack, drain_expired, pending_for, is_empty_for
--   Registry        registry.rs: upsert, get_position, get_node, remove
--   Watchdog        watchdog.rs: run_watchdog as ticks (expired, notify, sweep, tick)
--   RateLimit       rate_limit.rs: TokenBucket and DetectionLimiter
--   Error, Codec    error.rs and codec.rs
--   Proto, Schema   the messages of peat-sapient/proto, and the types of peat-schema used here
--   Float, Json     what is used of floating-point numbers and of serde_json, as parameters
--   Transform       transform/*.rs: Zone, Utm, Location, RangeBearing and Detection are detection.rs
--   Bridge          bridge.rs: Update (statuses and updates), Route (route_message), State (the shared
--                   state), Outbound (send_task, send_alert_ack), Connection (a round of
--                   run_connection), Serve (its loop, and start) and Connection/World
--                   (connections, calls and ticks of the watchdog as events in any order)
--   Mesh            Fields is mesh_fields.rs; Translator and Subscriber are translator.rs and subscriber.rs of
--                   peat-mesh-sapient/src
--   Mesh            and of transport.rs there: Receive (a received message), Transport (the state),
--                   Transport/Peers (records and events), Transport/Loops (the tasks) and
--                   Transport/Run (calls and steps of tasks in any order)
--   Connection      connection.rs, with TLS in Connection/Tls
--   Client          bin/sapient_compliance_client.rs: its messages, and main in Client/Exchange
--   Program         peat-sapient-bridge/src: Config is config.rs; Peer (parse_peer), Start (roles and
--                   settings) and Main are main.rs
--   Examples        each theorem at a concrete input
--
-- Each module has its theorems in child modules named for what they are about.
--
-- How the code is modelled. A `HashMap<String, V>` is an association list, a `VecDeque` a list with
-- the oldest first. A clock that an operation reads is an argument of it, and so is the ULID of a new
-- task. A lock is held for one section of the code, and sections run in the source's order; one
-- handler runs to its end before the next event. An `mpsc` channel is the log of what was put in it.
-- Floating-point numbers, protobuf and JSON are parameters; a law of theirs is a hypothesis of the
-- theorem that needs it. The other loops of the code run over lists and are recursions on them, so
-- they take no fuel; the watchdog, which never ends, is run for a given number of ticks.
--
-- The mesh transport runs over a schedule: the calls of its users and the steps of the tasks that it
-- spawned, in any order, with what the network answers as a part of each step; an abort takes effect at
-- once. Its outbound channel holds what waits in it, and loses it when its receiver is dropped.
-- Dialling is a loop that need not end, so it is given a number of attempts.
--
-- Not modelled: the sockets of bridge.rs, the TLS library and the files behind Connection/Tls, logging,
-- and how the compliance client reads its address. In the bridge, other handlers between the lock
-- sections of one handler; in the transport, the moment between a change of the peers and the sending
-- of its event.
mod Base
pub mod TaskQueue
pub mod Registry
pub mod Watchdog
pub mod Float
pub mod Error
pub mod Proto
pub mod Schema
pub mod Json
pub mod Transform
pub mod Codec
pub mod RateLimit
pub mod Bridge
pub mod Connection
pub mod Mesh
pub mod Program
pub mod Client
mod Examples
