-- ===== src/AcceptLoop/Downlinks.antt =====
-- What the accept loop does to the downlink handles (quelay-agent/src/session_manager.rs).
use mathlib.Core.Option
use quelay.Common.{
  ℕ, ◌+◌, ◌≤◌, ◌<◌, ◌≡◌, ◌≢◌, ◌&&◌, refl, sym, subst, ==_iff, ◌∙◌, ap, Bool, true, false, not,
  Option, some, ◌==◌, if◌then◌else◌, inl, inr, Bool-cases, Option-cases, ltb, lt→ltb, le→ltb_false,
}
use quelay.Common.Table.{
  lookup, insert, lookup-insert, Unique, kept, insert-Unique, retain-Unique, lookup-retain,
}
use quelay.Downlink.{deliver_reconnect_stream}
use quelay.AcceptLoop.{
  DownlinkHandle, channel_capacity, Downlinks, Opened, header_error, new_stream, reconnect,
  delivered, fresh_handle, try_send, deliver, prune, on_open, World, started, Step, takes_session,
  finds_none, accepts, accept_error, wakes, sees_failure, restores, disables_link, pump_moves,
  Reachable, here, next,
}

-- What pruning keeps of an entry.
abbrev pub live_entry : Option DownlinkHandle → Option DownlinkHandle
live_entry o = kept (λ h. not h.closed) o

lookup-prune : (id : ℕ) (m : Downlinks) → Unique m → lookup id (prune m) ≡ live_entry (lookup id m)
unfolding prune
lookup-prune id m u = lookup-retain (λ h. not h.closed) id m u

prune-Unique : (m : Downlinks) → Unique m → Unique (prune m)
unfolding prune
prune-Unique m u = retain-Unique (λ h. not h.closed) m u

deliver-Unique :
    (uuid replay_from : ℕ) (h : DownlinkHandle) (m : Downlinks)
    → Unique m
    → Unique (deliver uuid replay_from h m).0
unfolding deliver
deliver-Unique uuid replay_from h m u =
    elim (Bool-cases (deliver_reconnect_stream h.bytes_written replay_from)) [
      | inr no_fit ↦ rw (deliver, no_fit) u
      | inl fits ↦ elim (Option-cases (try_send h)) [
        | inl full ↦ rw (deliver, fits, full) u
        | inr (h', sent) ↦ rw (deliver, fits, sent) (insert-Unique uuid h' m u)
      ]
    ]

on_open-Unique : (o : Opened) (m : Downlinks) → Unique m → Unique (on_open o m).0
unfolding on_open
on_open-Unique header_error m u = u
on_open-Unique (new_stream uuid true) m u = insert-Unique uuid fresh_handle m u
on_open-Unique (new_stream uuid false) m u = u
on_open-Unique (reconnect uuid replay_from) m u = elim (Option-cases (lookup uuid (prune m))) [
  | inl n ↦ rw (on_open, n) (prune-Unique m u)
  | inr (h, s) ↦ rw (on_open, s) (deliver-Unique uuid replay_from h (prune m) (prune-Unique m u))
]

Reachable-Unique : {w v : World} → Unique w.downlinks → Reachable w v → Unique v.downlinks
Reachable-Unique u here = u
Reachable-Unique u (next {u = t} r s) = go s (Reachable-Unique u r)
  where
    go : {v : World} → Step t v → Unique t.downlinks → Unique v.downlinks
    go (takes_session n a s) u = u
    go (finds_none a s) u = u
    go (accepts n o a) u = on_open-Unique o t.downlinks u
    go (accept_error n a) u = u
    go (wakes a p) u = u
    go (sees_failure n r f) u = u
    go (restores n r f) u = u
    go (disables_link n m r s) u = u
    go (pump_moves uuid h h' l) u = insert-Unique uuid h' t.downlinks u

-- In any reachable state: a stream that replays from no further than what its downlink has written is
-- delivered to it, where the pump lives and its channel has room; of the other entries those of pumps
-- that ended go, and the rest stay as they are.
pub reconnect_is_delivered :
    (n : ℕ) {w : World} (uuid replay_from : ℕ) (h : DownlinkHandle)
    → Reachable (started n) w
    → lookup uuid w.downlinks ≡ some h
    → h.closed ≡ false
    → replay_from ≤ h.bytes_written
    → h.waiting_streams < channel_capacity
    → let (m, fate) = on_open (reconnect uuid replay_from) w.downlinks in
      (fate ≡ delivered)
      × ((other : ℕ)
          → lookup other m ≡ (
              if uuid == other
              then some (record h { waiting_streams = h.waiting_streams + 1 })
              else live_entry (lookup other w.downlinks)))
unfolding on_open deliver try_send deliver_reconnect_stream started
reconnect_is_delivered n {w} uuid replay_from h r l alive fits room =
    let u = Reachable-Unique (tt) r in
    let found : lookup uuid (prune w.downlinks) ≡ some h =
      lookup-prune uuid w.downlinks u ∙ rw (l, alive) refl in
    rw (on_open, found, le→ltb_false _ _ fits, alive, lt→ltb _ _ room)
      (
        refl,
        λ other.
            rw (← lookup-prune other w.downlinks u)
              (lookup-insert uuid other _ (prune w.downlinks)),
      )

-- The handle is there, of the same pump.
abbrev pub Kept : ℕ → DownlinkHandle → Downlinks → Type 0
Kept id h m =
    (h' : DownlinkHandle) × (lookup id m ≡ some h')
    × (h'.closed ≡ false)
    × (h'.bytes_written ≡ h.bytes_written)

insert_keeps :
    (uuid id : ℕ) (e h : DownlinkHandle) (k : ℕ) (m : Downlinks)
    → lookup uuid m ≡ some e
    → lookup id m ≡ some h
    → h.closed ≡ false
    → Kept id h (insert uuid (record e { waiting_streams = k }) m)
insert_keeps uuid id e h k m f l alive = elim (Bool-cases (uuid == id)) [
  | inl same ↦
      let there = subst (λ j. lookup j m ≡ some e) ((==_iff uuid id).0 same) f in
      let e_h : e ≡ h = Option.some-injective _ _ (sym there ∙ l) in
      (
        record e { waiting_streams = k },
        lookup-insert uuid id _ m ∙ rw same refl,
        ap (λ x. x.closed) e_h ∙ alive,
        ap (λ x. x.bytes_written) e_h,
      )
  | inr differ ↦ (h, lookup-insert uuid id _ m ∙ rw differ l, alive, refl)
]

deliver_keeps :
    (uuid replay_from id : ℕ) (e h : DownlinkHandle) (m : Downlinks)
    → lookup uuid m ≡ some e
    → lookup id m ≡ some h
    → h.closed ≡ false
    → Kept id h (deliver uuid replay_from e m).0
unfolding deliver try_send
deliver_keeps uuid replay_from id e h m f l alive =
    elim (Bool-cases (deliver_reconnect_stream e.bytes_written replay_from)) [
      | inr no_fit ↦ rw (deliver, no_fit) (h, l, alive, refl)
      | inl fits ↦ elim (Bool-cases (not e.closed && ltb e.waiting_streams channel_capacity)) [
        | inr full ↦ rw (deliver, fits, full) (h, l, alive, refl)
        | inl room ↦
            rw (deliver, fits, room) (insert_keeps uuid id e h (e.waiting_streams + 1) m f l alive)
      ]
    ]

on_open-Kept :
    (o : Opened) (id : ℕ) (h : DownlinkHandle) (m : Downlinks)
    → Unique m
    → lookup id m ≡ some h
    → h.closed ≡ false
    → ((spawns : Bool) → o ≢ new_stream id spawns)
    → Kept id h (on_open o m).0
unfolding on_open
on_open-Kept header_error id h m u l alive other = (h, l, alive, refl)
on_open-Kept (new_stream uuid false) id h m u l alive other = (h, l, alive, refl)
on_open-Kept (new_stream uuid true) id h m u l alive other = elim (Bool-cases (uuid == id)) [
  | inl same ↦ absurd (other true (ap (λ k. new_stream k true) ((==_iff uuid id).0 same)))
  | inr differ ↦ (h, lookup-insert uuid id fresh_handle m ∙ rw differ l, alive, refl)
]
on_open-Kept (reconnect uuid replay_from) id h m u l alive other =
    let l' : lookup id (prune m) ≡ some h = lookup-prune id m u ∙ rw (l, alive) refl in
    elim (Option-cases (lookup uuid (prune m))) [
      | inl n ↦ rw (on_open, n) (h, l', alive, refl)
      | inr (e, s) ↦ rw (on_open, s) (deliver_keeps uuid replay_from id e h (prune m) s l' alive)
    ]

-- In any reachable state: whatever stream comes in, but for a new one of the same id, a downlink whose
-- pump lives keeps its handle and its count of bytes.
pub live_downlink-Kept :
    (n : ℕ) {w : World} (o : Opened) (id : ℕ) (h : DownlinkHandle)
    → Reachable (started n) w
    → lookup id w.downlinks ≡ some h
    → h.closed ≡ false
    → ((spawns : Bool) → o ≢ new_stream id spawns)
    → Kept id h (on_open o w.downlinks).0
unfolding started
live_downlink-Kept n o id h r l alive other =
    on_open-Kept o id h _ (Reachable-Unique (tt) r) l alive other
