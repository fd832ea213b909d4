-- ===== src/SessionManager/Promotion.antt =====
-- `drain_pending` and `promote_pending` (quelay-agent/src/session_manager.rs): which streams leave the
-- queue.
use quelay.Common.{
  ℕ, suc, ◌≡◌, refl, sym, ap, ◌∙◌, true, false, Option, none, some, List, [], ◌∷◌, ◌++◌,
  append_assoc, length, length-append, inl, inr, Bool-cases, Option-cases, arith, subst,
}
use quelay.Common.Table.{insert}
use quelay.SessionManager.{
  PendingStream, RemoteState, has_active_slot, remove_at, remove_back_to_front, drain_loop,
  drain_pending,
}

remove_at-length :
    {A : Type 0} (pre : List A) (x : A) (xs : List A)
    → remove_at (length pre) (pre ++ x ∷ xs) ≡ pre ++ xs
unfolding remove_at
remove_at-length [] x xs = refl
remove_at-length (y ∷ pre) x xs = ap (◌∷◌ y) (remove_at-length pre x xs)

module _ {Session Info Handle : Type 0} (opener : Session → PendingStream Info → Option Handle)
    (session : Session) where
  -- The queue is walked from the front while there is a slot; a stream that opens leaves it, and one
  -- that does not stays where it is.
  unfoldable pub kept :
      List (PendingStream Info) → RemoteState Session Info Handle → List (PendingStream Info)
  kept [] r = []
  kept (p ∷ rest) r = elim (has_active_slot r) [
    | false ↦ p ∷ rest
    | true ↦ elim (opener session p) [
      | none ↦ p ∷ kept rest r
      | some handle ↦
          kept rest (record r { active_uplinks = insert p.uuid handle r.active_uplinks })
    ]
  ]

  -- The statement for one more stream in front.
  reindexed :
      (pre : List (PendingStream Info)) (p : PendingStream Info) (rest : List (PendingStream Info))
      (r : RemoteState Session Info Handle)
      → remove_back_to_front
          (drain_loop opener session (length (pre ++ p ∷ [])) rest r).1
          ((pre ++ p ∷ []) ++ rest)
        ≡ (pre ++ p ∷ []) ++ kept rest r
      → remove_back_to_front
          (drain_loop opener session (suc (length pre)) rest r).1
          (pre ++ p ∷ rest)
        ≡ pre ++ p ∷ kept rest r
  reindexed pre p rest r h =
      let len : length (pre ++ p ∷ []) ≡ suc (length pre) =
        omega (arith, length-append pre (p ∷ [])) in
      rw (len, append_assoc pre (p ∷ []) rest, append_assoc pre (p ∷ []) (kept rest r)) at h

  -- The removal by index, back to front, removes exactly the streams that opened.
  removed :
      (pre ps : List (PendingStream Info)) (r : RemoteState Session Info Handle)
      → remove_back_to_front (drain_loop opener session (length pre) ps r).1 (pre ++ ps)
        ≡ pre ++ kept ps r
  unfolding drain_loop kept remove_back_to_front
  removed pre [] r = refl
  removed pre (p ∷ rest) r = elim (Bool-cases (has_active_slot r)) [
    | inr e ↦ rw (drain_loop, kept, remove_back_to_front, e) refl
    | inl e ↦ elim (Option-cases (opener session p)) [
      | inl n ↦
          rw (drain_loop, kept, remove_back_to_front, e, n)
            (reindexed pre p rest r (removed (pre ++ p ∷ []) rest r))
      | inr (handle, y) ↦
          let r' : RemoteState Session Info Handle = record r {
            active_uplinks = insert p.uuid handle r.active_uplinks;
          } in
          rw (drain_loop, kept, remove_back_to_front, e, y)
            (ap (remove_at (length pre)) (reindexed pre p rest r' (removed (pre ++ p ∷ []) rest r'))
              ∙ remove_at-length pre p (kept rest r'))
    ]
  ]

  drain_loop-pending :
      (i : ℕ) (ps : List (PendingStream Info)) (r : RemoteState Session Info Handle)
      → (drain_loop opener session i ps r).0.pending ≡ r.pending
  unfolding drain_loop
  drain_loop-pending i [] r = refl
  drain_loop-pending i (p ∷ rest) r = elim (Bool-cases (has_active_slot r)) [
    | inr e ↦ rw (drain_loop, e) refl
    | inl e ↦ elim (Option-cases (opener session p)) [
      | inl n ↦ rw (drain_loop, e, n) (drain_loop-pending (suc i) rest r)
      | inr (handle, y) ↦
          rw (drain_loop, e, y)
            (drain_loop-pending (suc i) rest
              (record r { active_uplinks = insert p.uuid handle r.active_uplinks }))
    ]
  ]

  drain_live :
      (r : RemoteState Session Info Handle)
      → (drain_pending opener (record r { session = some session })).pending
        ≡ kept r.pending (record r { session = some session })
  unfolding drain_pending
  drain_live r =
      ap (remove_back_to_front _)
        (drain_loop-pending 0 r.pending (record r { session = some session }))
      ∙ removed [] r.pending (record r { session = some session })

  -- On a live session `drain_pending` leaves exactly the streams that did not open, in their order:
  -- the removal by index takes no other stream.
  pub pending-drain_pending :
      (r : RemoteState Session Info Handle)
      → r.session ≡ some session
      → (drain_pending opener r).pending ≡ kept r.pending r
  pending-drain_pending r e =
      subst
        (λ o.
          (drain_pending opener (record r { session = o })).pending
          ≡ kept r.pending (record r { session = o }))
        (sym e) (drain_live r)
