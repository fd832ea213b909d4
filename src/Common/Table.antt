-- ===== src/Common/Table.antt =====
-- A `HashMap<Uuid, V>` as an association list without repeated keys. The order of the list is one
-- order of iteration; code that iterates takes the order as a parameter.
use quelay.Common.Tests.{◌==◌, if◌then◌else◌, Bool-cases, ==_iff}
use quelay.Common.Lists.{length, retain}
use mathlib.Core.Logic.{inl, inr}
use mathlib.Core.Bool.{Bool}
use Prim.Native.Nat.{ℕ, ◌+◌, ◌≤◌}
use mathlib.Core.Path.{◌≡◌, refl, subst, ◌∙◌}
use mathlib.Core.Option.{Option, none, some}
use mathlib.Core.List.{List, [], ◌∷◌}
use native.Mathlib.Omega.{arith}

module _ {μ} {Entry : Type μ} where
  -- `get`
  unfoldable pub lookup : ℕ → List (ℕ × Entry) → Option Entry
  lookup id [] = none
  lookup id ((key, e) ∷ rest) = if key == id then some e else lookup id rest

  -- `insert`, and the write through `get_mut`
  unfoldable pub insert : ℕ → Entry → List (ℕ × Entry) → List (ℕ × Entry)
  insert id x [] = (id, x) ∷ []
  insert id x ((key, e) ∷ rest) = if key == id then (id, x) ∷ rest else (key, e) ∷ insert id x rest

  -- `remove`
  unfoldable pub remove : ℕ → List (ℕ × Entry) → List (ℕ × Entry)
  remove id [] = []
  remove id ((key, e) ∷ rest) = if key == id then remove id rest else (key, e) ∷ remove id rest

  pub lookup-insert :
      (id other : ℕ) (x : Entry) (m : List (ℕ × Entry))
      → lookup other (insert id x m) ≡ (if id == other then some x else lookup other m)
  unfolding insert lookup
  lookup-insert id other x [] = refl
  lookup-insert id other x (_ ∷ rest) = ground (arith, lookup-insert id other x rest)

  pub lookup-remove :
      (id other : ℕ) (m : List (ℕ × Entry))
      → lookup other (remove id m) ≡ (if id == other then none else lookup other m)
  unfolding remove lookup
  lookup-remove id other [] = ground arith
  lookup-remove id other (_ ∷ rest) = ground (arith, lookup-remove id other rest)

  pub length-insert_le :
      (k : ℕ) (v : Entry) (m : List (ℕ × Entry)) → length (insert k v m) ≤ length m + 1
  unfolding insert
  length-insert_le k v [] = omega arith
  length-insert_le k v ((i, w) ∷ m) = ground (arith, length-insert_le k v m)

  pub length-remove_le : (k : ℕ) (m : List (ℕ × Entry)) → length (remove k m) ≤ length m
  unfolding remove
  length-remove_le k [] = omega arith
  length-remove_le k ((i, w) ∷ m) = ground (arith, length-remove_le k m)

  -- No key stands twice.
  abbrev pub Unique : List (ℕ × Entry) → Type μ
  Unique [] = Unit
  Unique ((key, e) ∷ rest) = (lookup key rest ≡ none) × Unique rest

  pub insert-Unique :
      (id : ℕ) (x : Entry) (m : List (ℕ × Entry)) → Unique m → Unique (insert id x m)
  unfolding insert lookup
  insert-Unique id x [] u = (refl, tt)
  insert-Unique id x ((key, e) ∷ rest) u = elim (Bool-cases (key == id)) [
    | inl same ↦ rw same (subst (λ k. lookup k rest ≡ none) ((==_iff key id).0 same) u.0, u.1)
    | inr other ↦
        rw other
          (rw (lookup-insert id key x rest) (ground (arith, u.0)), insert-Unique id x rest u.1)
  ]

  abbrev pub kept : (Entry → Bool) → Option Entry → Option Entry
  kept p none = none
  kept p (some e) = if p e then some e else none

  -- What `retain` keeps under a key, by a test on the entry.
  pub lookup-retain :
      (p : Entry → Bool) (id : ℕ) (m : List (ℕ × Entry))
      → Unique m
      → lookup id (retain (λ (key, e). p e) m) ≡ kept p (lookup id m)
  unfolding lookup retain
  lookup-retain p id [] u = refl
  lookup-retain p id ((key, e) ∷ rest) u = elim (Bool-cases (key == id)) [
    | inl same ↦
        let absent = subst (λ k. lookup k rest ≡ none) ((==_iff key id).0 same) u.0 in
        elim (Bool-cases (p e)) [
          | inl k ↦ rw (k, same, k) refl
          | inr d ↦ rw (d, same) (rw d (lookup-retain p id rest u.1 ∙ rw absent refl))
        ]
    | inr other ↦ elim (Bool-cases (p e)) [
      | inl k ↦ rw k (rw (lookup, other) (lookup-retain p id rest u.1))
      | inr d ↦ rw d (rw (lookup, other) (lookup-retain p id rest u.1))
    ]
  ]

  pub retain-Unique :
      (p : Entry → Bool) (m : List (ℕ × Entry)) → Unique m → Unique (retain (λ (key, e). p e) m)
  unfolding retain
  retain-Unique p [] u = tt
  retain-Unique p ((key, e) ∷ rest) u = elim (Bool-cases (p e)) [
    | inl k ↦ rw k (rw (lookup-retain p key rest u.1, u.0) refl, retain-Unique p rest u.1)
    | inr d ↦ rw d (retain-Unique p rest u.1)
  ]

pub ruleset table_laws = (lookup-insert, lookup-remove)
