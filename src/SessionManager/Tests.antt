-- ===== src/SessionManager/Tests.antt =====
-- The session manager of quelay-agent/src/session_manager.rs on concrete streams.
use quelay.Common.{
  ℕ, ◌≡◌, max, ◌≤◌, ◌<◌, refl, ◌⊎◌, inl, inr, true, false, Option, none, some, List, [], ◌∷◌,
  length, ◌==◌, position, insert_at,
}
use quelay.Common.Int.{pos}
use quelay.Common.Table.{insert, remove}
use quelay.SessionManager.{
  PendingStream, RemoteState, running, queue_full, queued, new, enqueue, on_stream_start,
  has_active_slot, drain_pending, Event, start, finished, limit, link_failed, restored, delivered,
  handle_event, handle_events, stream_finished, promote_pending, promote_front,
}
use quelay.SessionManager.Queue.{Sorted}
use quelay.SessionManager.Promotion.{kept, pending-drain_pending}
use quelay.SessionManager.Limit.{highest_limit}
use quelay.SessionManager.Bounded.{Within, always_Bounded}
use mathlib.Core.Option
use quelay.SessionManager.Held.{Held, on_stream_start_lem, handle_event-Held}

-- Streams are their numbers, and all open but number 9.
abbrev Remote : Type 0
Remote = RemoteState ℕ ℕ ℕ

abbrev stream : ℕ → ℕ → PendingStream ℕ
stream id n = record { uuid = id; info = 0; priority = record { value = pos n } }

abbrev opener : ℕ → PendingStream ℕ → Option ℕ
opener session p = elim (p.uuid == 9) [ true ↦ none | false ↦ some p.uuid ]

-- One stream is active, and three wait, with the session down.
abbrev busy : Remote
busy = record {
  session = none;
  pending = stream 2 70 ∷ stream 9 5 ∷ stream 3 5 ∷ [];
  max_concurrent = some 2;
  max_pending = 4;
  active_uplinks = (1, 1) ∷ [];
}

abbrev up : Remote
up = record busy { session = some 0 }

enqueue_run :
    (enqueue busy (stream 4 5)).0.pending ≡ stream 2 70 ∷ stream 9 5 ∷ stream 3 5 ∷ stream 4 5 ∷ []
unfolding enqueue position insert_at
enqueue_run = refl

-- The end of the active stream lets the front of the queue take a slot.
finished_run :
    (stream_finished opener up 1).0
    ≡ record up { pending = stream 9 5 ∷ stream 3 5 ∷ []; active_uplinks = (2, 2) ∷ [] }
unfolding stream_finished promote_pending promote_front has_active_slot insert remove
finished_run = refl

pending-drain_pending_example : (drain_pending opener up).pending ≡ kept opener 0 up.pending up
pending-drain_pending_example = pending-drain_pending opener 0 up refl

abbrev events : List (Event ℕ ℕ ℕ)
events =
    start opener (stream 1 5)
    ∷ start opener (stream 2 5)
    ∷ link_failed
    ∷ start opener (stream 3 70)
    ∷ restored opener (λ _. delivered) (λ _. true) 1
    ∷ limit opener (some 3)
    ∷ finished opener 1
    ∷ []

-- One stream ends and the next takes its slot; then the limit is lowered below the active two.
always_Bounded_example :
    let r = handle_events (new 0 (some 2) 4) events in
    let r' = handle_event r (limit opener (some 1)) in
    Sorted r.pending
    × (length r.pending ≤ r.max_pending)
    × Within (length r.active_uplinks) (highest_limit events (some 2))
    × Within
        (length r'.active_uplinks)
        (Option.map (λ m. max m (length r.active_uplinks)) r'.max_concurrent)
always_Bounded_example = always_Bounded 0 (some 2) 4 events (limit opener (some 1))

handle_event-Held_example :
    Held 3 (handle_event busy (restored opener (λ _. delivered) (λ _. true) 1))
handle_event-Held_example =
    handle_event-Held busy (restored opener (λ _. delivered) (λ _. true) 1) 3 (refl, refl)
      (inl (inr (inr (inl refl))))

on_stream_start_lem_example :
    let (after, status, sent) = on_stream_start opener (some busy) (stream 4 5) in
    ((status ≡ running)
      × ((h : ℕ) × (after
            ≡ some (record busy { active_uplinks = insert 4 h busy.active_uplinks }))))
    ⊎ ((status ≡ queue_full) × (after ≡ some busy) × (busy.max_pending ≤ length busy.pending))
    ⊎ ((status ≡ queued (enqueue busy (stream 4 5)).1)
        × (after ≡ some (enqueue busy (stream 4 5)).0)
        × (length busy.pending < busy.max_pending))
on_stream_start_lem_example = on_stream_start_lem opener busy (stream 4 5)
