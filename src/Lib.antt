-- ===== src/Lib.antt =====
-- Quelay relays byte streams between two agents over one QUIC session. A client opens a stream
-- through an agent, writes its bytes to a local socket, and another client reads them from a socket
-- of the other agent; the link between the agents may fail and come back at any time.
--
-- The program's parts and the files that model them:
--
-- - quelay-domain: priorities, errors and shared metadata (priority.rs, error.rs, session.rs):
--   Domain. The Deficit Round Robin scheduler (scheduler.rs: DrrScheduler::{register, deregister,
--   set_quantum, set_backlog, schedule}): Scheduler, with its loops, budget, strict queue, use of
--   the budget, queue invariant and totality in the children.
-- - quelay-agent/src/framing.rs (write_connect_header, read_stream_open, write_wormhole_msg,
--   read_chunk and the others): Framing, over the byte-stream and serde interfaces of Bytes.
-- - quelay-agent/src/active_stream.rs: SpoolBuffer and the TCP reader in Spool, AckTask in Uplink,
--   run_downlink in Downlink.
-- - quelay-agent/src/rate_limiter.rs: RateParams and AggregateTimerTask in RateLimiter,
--   AggregateRateLimiter in its child Registry, StreamPump in Pump, RateLimiter::new without a rate
--   in Uncapped.
-- - quelay-quic/src/stream.rs: QuicStream.
-- - quelay-agent/src/session_manager.rs: the state of the remote and its handlers (enqueue,
--   on_stream_start, promote_pending, drain_pending, restore_active, reconnect_loop's delays) in
--   SessionManager, open_stream_on_session with the rate limiter in its child Opening, accept_loop
--   beside run in AcceptLoop, dispatch_cmd in Service.
-- - the tasks of one stream put together, with loss of the link and reconnection (restore_active of
--   quelay-agent/src/session_manager.rs): Transfer, with what holds at all times in its child
--   Safety and the link that comes back too late in Silent.
-- - quelay-agent/src/thrift_srv.rs (AgentHandler) and quelay-agent/src/agent.rs: Service.
--   quelay-thrift/src/mapping.rs: Mapping. quelay-agent/src/callback.rs: CallbackAgent.
-- - quelay-agent/src/config.rs (parse_bandwidth, validate) and how quelay-agent/src/main.rs uses
--   it: Configuration.
-- - quelay-agent/src/bin/bw_cap_test/tuner.rs: Tuner.
-- - Common: tests on numbers, lists, integers and tables that all parts share.
--
-- The spool keeps the bytes between `A` (acknowledged) and `T` (read from the client); the pump
-- sends from `Q` in chunks that carry their offset, and goes back to `A` when the link is lost; the
-- receiver skips what it has and acknowledges what it has written. In Transfer each section of code
-- that holds a lock, and each receipt of a message, is one step of a relation, so that the theorems
-- of Transfer.Safety hold of every interleaving. A write half whose stream was given up is `dead`:
-- what is written to it is lost, while the receiver may still read what had arrived of the old
-- stream. To the receiver a half that is dropped, as when the link comes back after the pump has
-- exited, ends with a read error; that quinn finishes a stream whose half is dropped without a
-- reset is left out.
--
-- In AcceptLoop the tasks `accept_loop` and `run` share the session, its link state and a `Notify`
-- that stores one wake-up; each stretch between two awaits that matters to the other task is a
-- step, and sessions are numbered. `new_session` of reconnect_loop is any session that has not
-- failed. In Uncapped the same is done for the tasks that share `data_ready`; `notify_one` wakes
-- the task that has waited longest, as tokio documents, and `drain_alloc` with its unlimited budget
-- is one step. In RateLimiter.Registry a tick is one step, and set_session is two, its stores of
-- the session and of the baseline.
--
-- Numbers are natural numbers; bytes are numbers, a Uuid is a number. The wrap-around of u32 and
-- u64 is written out where the code can reach it: the deficit of a stream, the head of a spool, the
-- length of a chunk `as u16`. Offsets are taken to stay below 2^64 - 1, the sentinel of `head`;
-- this is a premise where it matters. A panic is `none`.
--
-- Fuel: phase 2 of `schedule` runs on budget * (n + 1) + n + 1 turns, which is enough because each
-- turn sends a byte or counts as idle; `drain_alloc` runs on one pass more than its budget, since
-- each pass but the last sends a byte.
--
-- Parameters: the order in which a HashMap is iterated, byte streams (quinn and tokio), serde_json,
-- where `as_slices` cuts a ring, whether a write succeeds, whether a stream opens on a session,
-- what a pump's ticket channel answers, f64, the printed form of a Uuid, whether a connect or a
-- call to a client succeeds, whether a channel is open or a lock poisoned.
--
-- Not modelled: connections, TLS and the transports, which only call quinn and rustls; the start-up
-- in main; the clap declarations; the ping timer, progress events and log lines; the test programs,
-- but for the tuners of the bandwidth test, and the example clients.
pub mod Common
pub mod Domain
pub mod Scheduler
pub mod Bytes
pub mod Framing
pub mod Spool
pub mod RateLimiter
pub mod Pump
pub mod QuicStream
pub mod Uplink
pub mod Uncapped
pub mod Downlink
pub mod Transfer
pub mod SessionManager
pub mod AcceptLoop
pub mod Mapping
pub mod Service
pub mod CallbackAgent
pub mod Configuration
pub mod Tuner
