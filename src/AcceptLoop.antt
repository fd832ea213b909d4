-- ===== src/AcceptLoop.antt =====
-- `accept_loop` of quelay-agent/src/session_manager.rs beside `run`, with the downlink handles: two tasks
-- that share the session, its link state and the `Notify` that `run` signals after a reconnect.
-- `remote` is set by `SessionManager::new` and never emptied.
pub mod Downlinks
pub mod Wakeup
pub mod Tests
use quelay.Common.{
  ℕ, ◌+◌, ◌≡◌, ◌<◌, Bool, true, false, not, Option, none, some, List, [], ◌∷◌, ltb, ◌==◌, ◌&&◌,
  if◌then◌else◌, retain,
}
use quelay.Common.Table.{lookup, insert}
use quelay.Downlink.{deliver_reconnect_stream}

-- The handle of a downlink pump: its count of bytes, whether the pump is gone, and the streams that
-- wait in its channel.
pub record DownlinkHandle : Type 0 where
  pub bytes_written : ℕ
  pub closed : Bool
  pub waiting_streams : ℕ

abbrev pub channel_capacity : ℕ
channel_capacity = 2

abbrev pub Downlinks : Type 0
Downlinks = List (ℕ × DownlinkHandle)

-- What `read_stream_open` gives, and whether `spawn_downlink_from` succeeds.
pub data Opened : Type 0 where
  header_error : Opened
  new_stream : ℕ → Bool → Opened
  reconnect : ℕ → ℕ → Opened

-- What becomes of an inbound stream.
pub data Fate : Type 0 where
  dropped unknown replay_gap not_taken : Fate
  spawned delivered : Fate

-- `spawn_downlink_from` puts the first stream into the channel.
abbrev pub fresh_handle : DownlinkHandle
fresh_handle = record { bytes_written = 0; closed = false; waiting_streams = 1 }

-- `try_send` on the channel of a handle.
unfoldable pub try_send : DownlinkHandle → Option DownlinkHandle
try_send h =
    if not h.closed && ltb h.waiting_streams channel_capacity
    then some (record h { waiting_streams = h.waiting_streams + 1 })
    else none

-- The check of the replay offset, and `try_send`.
unfoldable pub deliver : ℕ → ℕ → DownlinkHandle → Downlinks → Downlinks × Fate
unfolding try_send deliver_reconnect_stream
deliver uuid replay_from h m =
    if deliver_reconnect_stream h.bytes_written replay_from
    then (elim (try_send h) [ some h' ↦ (insert uuid h' m, delivered) | none ↦ (m, not_taken) ])
    else (m, replay_gap)

unfoldable pub prune : Downlinks → Downlinks
prune m = retain (λ (id, h). not h.closed) m

unfoldable pub on_open : Opened → Downlinks → Downlinks × Fate
unfolding deliver prune
on_open header_error m = (m, dropped)
on_open (new_stream uuid true) m = (insert uuid fresh_handle m, spawned)
on_open (new_stream uuid false) m = (m, dropped)
on_open (reconnect uuid replay_from) m = elim (lookup uuid (prune m)) [
  | none ↦ (prune m, unknown)
  | some h ↦ deliver uuid replay_from h (prune m)
]

-- `run` watches the link state of a session, or is in `reconnect_loop`.
pub data RunPhase : Type 0 where
  watching : ℕ → RunPhase
  reconnecting : RunPhase

-- At the top of the loop, in `accept_stream` of a session, or in `session_restored.notified()`.
pub data AcceptPhase : Type 0 where
  looping waiting : AcceptPhase
  accepting : ℕ → AcceptPhase

-- Sessions are numbered. `failed` is the link state that `close` sets, `permit` the one wake-up that a
-- `Notify` stores.
pub record World : Type 0 where
  pub session : Option ℕ
  pub failed : ℕ → Bool
  pub run : RunPhase
  pub accept : AcceptPhase
  pub permit : Bool
  pub downlinks : Downlinks

-- `QuicSession::close` on session `n`.
unfoldable pub close : ℕ → (ℕ → Bool) → ℕ → Bool
close n failed m = if n == m then true else failed m

unfoldable pub started : ℕ → World
started n = record {
  session = some n;
  failed = λ _. false;
  run = watching n;
  accept = looping;
  permit = false;
  downlinks = [];
}

pub data Step (w : World) : World → Type 0 where
  -- The accept loop: the snapshot of the session, an inbound stream, an error, and the wake-up.
  takes_session :
      (n : ℕ) → w.accept ≡ looping → w.session ≡ some n → Step w (record w { accept = accepting n })
  finds_none : w.accept ≡ looping → w.session ≡ none → Step w (record w { accept = waiting })
  accepts :
      (n : ℕ) (o : Opened)
      → w.accept ≡ accepting n
      → Step w (record w { accept = looping; downlinks = (on_open o w.downlinks).0 })
  accept_error :
      (n : ℕ)
      → w.accept ≡ accepting n
      → Step w (record w { accept = waiting; failed = close n w.failed })
  wakes :
      w.accept ≡ waiting → w.permit ≡ true → Step w (record w { accept = looping; permit = false })
  -- `run`: it sees the failure of its session and clears it, installs a new one under the lock and
  -- notifies, and closes its session for `link_enable(false)`.
  sees_failure :
      (n : ℕ)
      → w.run ≡ watching n
      → w.failed n ≡ true
      → Step w (record w { session = none; run = reconnecting })
  restores :
      (n : ℕ)
      → w.run ≡ reconnecting
      → w.failed n ≡ false
      → Step w (record w { session = some n; run = watching n; permit = true })
  disables_link :
      (n m : ℕ)
      → w.run ≡ watching n
      → w.session ≡ some m
      → Step w (record w { failed = close m w.failed })
  -- A downlink pump writes, takes a stream or ends.
  pump_moves :
      (uuid : ℕ) (h h' : DownlinkHandle)
      → lookup uuid w.downlinks ≡ some h
      → Step w (record w { downlinks = insert uuid h' w.downlinks })

pub data Reachable (w : World) : World → Type 0 where
  here : Reachable w w
  next : {u v : World} → Reachable w u → Step u v → Reachable w v
