-- ===== src/SessionManager.antt =====
-- quelay-agent/src/session_manager.rs: `RemoteState` and the handlers of `SessionManager` that change
-- it. Opening a stream on the session is a parameter, `opener`: the handle, or `none` for an error.
pub mod Promotion
pub mod Queue
pub mod Limit
pub mod Slots
pub mod Bounded
pub mod Presence
pub mod Held
pub mod Backoff
pub mod Opening
pub mod Tests
use mathlib.Core.Option
use quelay.Common.{
  ℕ, zero, suc, ◌+◌, ◌*◌, min, Bool, true, false, not, ◌||◌, Option, none, some, List, [], ◌∷◌,
  ◌++◌, map, length, ltb, leb, ◌==◌, if◌then◌else◌, position, insert_at, retain,
}
use quelay.Common.Table.{insert, remove}
use quelay.Domain.Priority.{Priority, lt_priority}
use quelay.Domain.Session.{QueueStatus}

pub record PendingStream (Info : Type 0) : Type 0 where
  pub uuid : ℕ
  pub info : Info
  pub priority : Priority

-- The downlink handles are used by the accept loop alone and are left out.
pub record RemoteState (Session Info Handle : Type 0) : Type 0 where
  pub session : Option Session
  pub pending : List (PendingStream Info)
  pub max_concurrent : Option ℕ
  pub max_pending : ℕ
  pub active_uplinks : List (ℕ × Handle)

-- The answer to `stream_start`; a queued stream's answer has its position.
pub data StartStatus : Type 0 where
  not_connected running queue_full : StartStatus
  queued : ℕ → StartStatus

-- What becomes of an active stream when a session is restored.
pub data Reopened : Type 0 where
  open_failed header_failed delivered pump_exited : Reopened

-- `Vec::remove(i)`
unfoldable pub remove_at {ℓ} : {A : Type ℓ} → ℕ → List A → List A
remove_at i [] = []
remove_at zero (x ∷ xs) = xs
remove_at (suc i) (x ∷ xs) = x ∷ remove_at i xs

-- `for i in indices.rev() { remove(i) }`
unfoldable pub remove_back_to_front {ℓ} : {A : Type ℓ} → List ℕ → List A → List A
remove_back_to_front [] xs = xs
remove_back_to_front (i ∷ indices) xs = remove_at i (remove_back_to_front indices xs)

-- Where a new stream goes: before the first of lower priority.
abbrev pub place : {Info : Type 0} → List (PendingStream Info) → PendingStream Info → ℕ
place pending p =
    Option.get_or (position (λ e. lt_priority e.priority p.priority) pending) (length pending)

abbrev pub is_exited : Reopened → Bool
is_exited pump_exited = true
is_exited open_failed = false
is_exited header_failed = false
is_exited delivered = false

module _ {Session Info Handle : Type 0} where
  unfoldable pub new : Session → Option ℕ → ℕ → RemoteState Session Info Handle
  new session max_concurrent max_pending = record {
    session = some session;
    pending = [];
    max_concurrent = max_concurrent;
    max_pending = max_pending;
    active_uplinks = [];
  }

  unfoldable pub enqueue :
      RemoteState Session Info Handle → PendingStream Info → RemoteState Session Info Handle × ℕ
  enqueue r p =
      let pos = place r.pending p in (record r { pending = insert_at pos p r.pending }, pos + 1)

  -- What `send_queue_status` sends.
  unfoldable pub queue_status : RemoteState Session Info Handle → QueueStatus
  queue_status r = record {
    active_count = length r.active_uplinks;
    max_concurrent = Option.get_or r.max_concurrent 0;
    max_pending = r.max_pending;
    pending = map (λ e. e.uuid) r.pending;
  }

  unfoldable pub has_active_slot : RemoteState Session Info Handle → Bool
  has_active_slot r = elim r.max_concurrent [
    | some n ↦ ltb (length r.active_uplinks) n
    | none ↦ true
  ]

  unfoldable pub pending_queue_full : RemoteState Session Info Handle → Bool
  pending_queue_full r = leb r.max_pending (length r.pending)

  -- `on_stream_start` behind the attempt to open: the stream is queued or refused.
  unfoldable pub queue_or_refuse :
      RemoteState Session Info Handle
      → PendingStream Info
      → RemoteState Session Info Handle × StartStatus × List QueueStatus
  unfolding enqueue pending_queue_full queue_status
  queue_or_refuse r p =
      if pending_queue_full r
      then (r, queue_full, queue_status r ∷ [])
      else (let (r', pos) = enqueue r p in (r', queued pos, queue_status r' ∷ []))

  module _ (opener : Session → PendingStream Info → Option Handle) where
    -- The attempt: there must be a slot and a session, and the stream must open.
    unfoldable pub try_open : RemoteState Session Info Handle → PendingStream Info → Option Handle
    try_open r p =
        if has_active_slot r
        then (elim r.session [ some session ↦ opener session p | none ↦ none ])
        else none

    -- The queue status of a stream that opens is sent before it is counted.
    unfoldable pub on_stream_start :
        Option (RemoteState Session Info Handle)
        → PendingStream Info
        → Option (RemoteState Session Info Handle) × StartStatus × List QueueStatus
    unfolding try_open queue_or_refuse queue_status
    on_stream_start none p = (none, not_connected, [])
    on_stream_start (some r) p = elim (try_open r p) [
      | some handle ↦ (
        some (record r { active_uplinks = insert p.uuid handle r.active_uplinks }),
        running,
        queue_status r ∷ [],
      )
      | none ↦ let (r', status, sent) = queue_or_refuse r p in (some r', status, sent)
    ]

    -- `promote_pending`, past its first test.
    unfoldable pub promote_front : RemoteState Session Info Handle → RemoteState Session Info Handle
    promote_front r = elim r.pending [
      | [] ↦ r
      | p ∷ rest ↦ elim r.session [
        | none ↦ r
        | some session ↦ elim (opener session p) [
          | none ↦ r
          | some handle ↦ record r {
            active_uplinks = insert p.uuid handle r.active_uplinks;
            pending = rest;
          }
        ]
      ]
    ]

    unfoldable pub promote_pending :
        RemoteState Session Info Handle → RemoteState Session Info Handle
    unfolding promote_front
    promote_pending r =
        if (length r.pending == 0) || not (has_active_slot r) then r else promote_front r

    -- The loop of `drain_pending`, from index `i`: the active streams, and the indices promoted.
    unfoldable pub drain_loop :
        Session
        → ℕ
        → List (PendingStream Info)
        → RemoteState Session Info Handle
        → RemoteState Session Info Handle × List ℕ
    drain_loop session i [] r = (r, [])
    drain_loop session i (p ∷ rest) r = elim (has_active_slot r) [
      | false ↦ (r, [])
      | true ↦ elim (opener session p) [
        | none ↦ drain_loop session (suc i) rest r
        | some handle ↦
            let (r', promoted) =
              drain_loop session (suc i) rest
                (record r { active_uplinks = insert p.uuid handle r.active_uplinks }) in
            (r', i ∷ promoted)
      ]
    ]

    unfoldable pub drain_pending : RemoteState Session Info Handle → RemoteState Session Info Handle
    unfolding drain_loop
    drain_pending r = elim r.session [
      | none ↦ r
      | some session ↦
          let (r', promoted) = drain_loop session 0 r.pending r in
          record r' { pending = remove_back_to_front promoted r'.pending }
    ]

    -- `StreamFinished`
    unfoldable pub stream_finished :
        RemoteState Session Info Handle → ℕ → RemoteState Session Info Handle × List QueueStatus
    unfolding promote_pending queue_status
    stream_finished r uuid =
        let r' = promote_pending (record r { active_uplinks = remove uuid r.active_uplinks }) in
        (r', queue_status r' ∷ [])

    -- `SetMaxConcurrent`
    unfoldable pub set_max_concurrent :
        RemoteState Session Info Handle
        → Option ℕ
        → RemoteState Session Info Handle × List QueueStatus
    unfolding promote_pending queue_status
    set_max_concurrent r limit =
        let r' = promote_pending (record r { max_concurrent = limit }) in (r', queue_status r' ∷ [])

  unfoldable pub on_link_failed : RemoteState Session Info Handle → RemoteState Session Info Handle
  on_link_failed r = record r { session = none }

  -- `outcome` of each stream, and whether its pump still listens at the end.
  unfoldable pub restore_active :
      (ℕ → Reopened)
      → (ℕ → Bool)
      → RemoteState Session Info Handle
      → RemoteState Session Info Handle
  restore_active outcome alive r = elim r.session [
    | none ↦ r
    | some session ↦ record r {
      active_uplinks =
          retain (λ (id, h). alive id)
            (retain (λ (id, h). not (is_exited (outcome id))) r.active_uplinks);
    }
  ]

  -- A new session, in `run`.
  unfoldable pub on_restored :
      (Session → PendingStream Info → Option Handle)
      → (ℕ → Reopened)
      → (ℕ → Bool)
      → Session
      → RemoteState Session Info Handle
      → RemoteState Session Info Handle
  unfolding restore_active drain_pending
  on_restored opener outcome alive session r =
      drain_pending opener (restore_active outcome alive (record r { session = some session }))

-- What reaches `dispatch_cmd` and `run` and changes the state: a request, the end of a stream, a new
-- limit of active streams, the loss of the session, and a new session. Each has its own outcomes of the streams that are opened meanwhile.
pub data Event (Session Info Handle : Type 0) : Type 0 where
  start :
      (Session → PendingStream Info → Option Handle)
      → PendingStream Info
      → Event Session Info Handle
  finished : (Session → PendingStream Info → Option Handle) → ℕ → Event Session Info Handle
  limit : (Session → PendingStream Info → Option Handle) → Option ℕ → Event Session Info Handle
  link_failed : Event Session Info Handle
  restored :
      (Session → PendingStream Info → Option Handle)
      → (ℕ → Reopened)
      → (ℕ → Bool)
      → Session
      → Event Session Info Handle

module _ {Session Info Handle : Type 0} where
  unfoldable pub handle_event :
      RemoteState Session Info Handle → Event Session Info Handle → RemoteState Session Info Handle
  unfolding on_stream_start stream_finished set_max_concurrent on_link_failed on_restored
  handle_event r (start opener p) = elim (on_stream_start opener (some r) p).0 [
    | some r' ↦ r'
    | none ↦ r
  ]
  handle_event r (finished opener uuid) = (stream_finished opener r uuid).0
  handle_event r (limit opener max_concurrent) = (set_max_concurrent opener r max_concurrent).0
  handle_event r link_failed = on_link_failed r
  handle_event r (restored opener outcome alive session) =
      on_restored opener outcome alive session r

  unfoldable pub handle_events :
      RemoteState Session Info Handle
      → List (Event Session Info Handle)
      → RemoteState Session Info Handle
  unfolding handle_event
  handle_events r [] = r
  handle_events r (e ∷ es) = handle_events (handle_event r e) es

-- Seconds of `reconnect_loop` before attempt number `n + 2`, after `n + 1` failures.
unfoldable pub backoff : ℕ → ℕ
backoff zero = 1
backoff (suc n) = min (backoff n * 2) 30
