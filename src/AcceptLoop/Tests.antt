-- ===== src/AcceptLoop/Tests.antt =====
-- The accept loop of quelay-agent/src/session_manager.rs on concrete steps.
use quelay.Common.{ℕ, ◌+◌, ◌≡◌, ◌⊎◌, refl, true, false, some, [], ◌∷◌, arith, ◌==◌, if◌then◌else◌}
use quelay.Common.Table.{lookup, insert}
use quelay.AcceptLoop.{
  DownlinkHandle, new_stream, reconnect, delivered, fresh_handle, World, waiting, close, started,
  on_open, takes_session, accepts, accept_error, pump_moves, Reachable, here, next,
}
use quelay.AcceptLoop.Wakeup.{WillNotify, Live, accept_never_stuck, accept_resumes}
use quelay.AcceptLoop.Downlinks.{Kept, live_entry, reconnect_is_delivered, live_downlink-Kept}

-- The accept loop takes the session and finds it broken.
abbrev broken : World
broken = record (started 4) { accept = waiting; failed = close 4 (λ _. false) }

broken_path : Reachable (started 4) broken
unfolding started
broken_path = next (next here (takes_session 4 refl refl)) (accept_error 4 refl)

accept_never_stuck_example : (broken.permit ≡ true) ⊎ WillNotify broken
accept_never_stuck_example = accept_never_stuck 4 broken_path refl

nine_is_up : broken.failed 9 ≡ false
unfolding close
nine_is_up = refl

accept_resumes_example : (k : ℕ) × (v : World) × Reachable broken v × Live k v
accept_resumes_example = accept_resumes 4 9 broken_path refl nine_is_up

-- Two downlinks are spawned, the first has written 500 bytes and the second has ended.
abbrev written : DownlinkHandle
written = record { bytes_written = 500; closed = false; waiting_streams = 0 }

abbrev ended : DownlinkHandle
ended = record { bytes_written = 90; closed = true; waiting_streams = 0 }

abbrev two_downlinks : World
two_downlinks = record (started 4) { downlinks = (7, written) ∷ (8, ended) ∷ [] }

two_downlinks_path : Reachable (started 4) two_downlinks
unfolding started on_open insert lookup
two_downlinks_path =
    next
      (next
        (next
          (next (next (next here (takes_session 4 refl refl)) (accepts 4 (new_stream 7 true) refl))
            (takes_session 4 refl refl))
          (accepts 4 (new_stream 8 true) refl))
        (pump_moves 7 fresh_handle written refl))
      (pump_moves 8 fresh_handle ended refl)

found : lookup 7 two_downlinks.downlinks ≡ some written
unfolding started lookup
found = refl

reconnect_is_delivered_example :
    ((on_open (reconnect 7 300) two_downlinks.downlinks).1 ≡ delivered)
    × ((other : ℕ)
        → lookup other (on_open (reconnect 7 300) two_downlinks.downlinks).0 ≡ (
            if 7 == other
            then some (record written { waiting_streams = written.waiting_streams + 1 })
            else live_entry (lookup other two_downlinks.downlinks)))
reconnect_is_delivered_example =
    reconnect_is_delivered 4 7 300 written two_downlinks_path found refl (omega arith) (omega arith)

live_downlink-Kept_example : Kept 7 written (on_open (reconnect 8 300) two_downlinks.downlinks).0
live_downlink-Kept_example =
    live_downlink-Kept 4 (reconnect 8 300) 7 written two_downlinks_path found refl (λ s e. cc)
