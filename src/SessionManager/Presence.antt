-- ===== src/SessionManager/Presence.antt =====
-- Which streams wait and which are active (quelay-agent/src/session_manager.rs).
use quelay.Common.{
  ℕ, ◌≡◌, ◌≢◌, sym, ap, ◌∙◌, ◌⊎◌, inl, inr, Bool, true, none, some, List, [], ◌∷◌, ◌++◌, ◌==◌,
  retain, Bool-cases, arith,
}
use quelay.Common.Table.{lookup, insert, remove, lookup-insert, lookup-remove}
use quelay.SessionManager.{PendingStream}

module _ {Info : Type 0} where
  abbrev pub Waiting : ℕ → List (PendingStream Info) → Type 0
  Waiting id [] = ⊥
  Waiting id (p ∷ ps) = (p.uuid ≡ id) ⊎ Waiting id ps

  pub Waiting-append :
      (id : ℕ) (xs ys : List (PendingStream Info))
      → Waiting id (xs ++ ys)
      → Waiting id xs ⊎ Waiting id ys
  Waiting-append id [] ys h = inr h
  Waiting-append id (x ∷ xs) ys (inl e) = inl (inl e)
  Waiting-append id (x ∷ xs) ys (inr h) = elim (Waiting-append id xs ys h) [
    | inl k ↦ inl (inr k)
    | inr k ↦ inr k
  ]

  pub Waiting-left :
      (id : ℕ) (xs ys : List (PendingStream Info)) → Waiting id xs → Waiting id (xs ++ ys)
  Waiting-left id (x ∷ xs) ys (inl e) = inl e
  Waiting-left id (x ∷ xs) ys (inr h) = inr (Waiting-left id xs ys h)
  Waiting-left id [] ys h = absurd h

  pub Waiting-right :
      (id : ℕ) (xs ys : List (PendingStream Info)) → Waiting id ys → Waiting id (xs ++ ys)
  Waiting-right id [] ys h = h
  Waiting-right id (x ∷ xs) ys h = inr (Waiting-right id xs ys h)

abbrev pub Active : {Handle : Type 0} → ℕ → List (ℕ × Handle) → Type 0
Active id m = lookup id m ≢ none

pub insert-Active :
    {Handle : Type 0} (id key : ℕ) (h : Handle) (m : List (ℕ × Handle))
    → (key ≡ id) ⊎ Active id m
    → Active id (insert key h m)
insert-Active id key h m a e =
    let l = sym (lookup-insert key id h m) ∙ e in
    elim (Bool-cases (key == id)) [
      | inl y ↦ let l' : some h ≡ none = rw y at l in ground (arith, l')
      | inr n ↦ elim a [ inl k ↦ ground (arith, n, k) | inr k ↦ k (rw n at l) ]
    ]

pub remove-Active :
    {Handle : Type 0} (id key : ℕ) (m : List (ℕ × Handle))
    → key ≢ id
    → Active id m
    → Active id (remove key m)
remove-Active id key m ne a e =
    let l = sym (lookup-remove key id m) ∙ e in
    elim (Bool-cases (key == id)) [ inl y ↦ ne (ground (arith, y)) | inr n ↦ a (rw n at l) ]

pub retain-Active :
    {Handle : Type 0} (id : ℕ) (p : ℕ → Bool) (m : List (ℕ × Handle))
    → p id ≡ true
    → Active id m
    → Active id (retain (λ (k, h). p k) m)
unfolding lookup retain
retain-Active id p [] y a = a
retain-Active id p ((key, h) ∷ m) y a = elim (Bool-cases (key == id)) [
  | inl e ↦
      let same : key ≡ id = ground (arith, e) in
      let keep : p key ≡ true = ap p same ∙ y in rw (keep, lookup, e) (λ x. ground (arith, x))
  | inr n ↦
      let rest = retain-Active id p m y (rw (lookup, n) at a) in
      elim (Bool-cases (p key)) [ inl k ↦ rw (k, lookup, n) rest | inr k ↦ rw (retain, k) rest ]
]
