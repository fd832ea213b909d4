-- ===== src/Scheduler/Order.antt =====
-- Queues of stream ids: how often an id stands in one, and descending order by a key
-- (the `VecDeque`s of quelay-domain/src/scheduler.rs).
use quelay.Common.{
  ℕ, ◌+◌, ◌<◌, ◌≡◌, refl, Bool, true, false, not, List, [], ◌∷◌, ◌++◌, arith, ◌==◌, if◌then◌else◌,
  All, All-mono, insert_before, retain, Bool-cases, inl, inr,
}
use quelay.Common.Int.{ℤ, ◌≤ℤ◌, ltb_ℤ}

unfoldable pub count : ℕ → List ℕ → ℕ
count id [] = 0
count id (x ∷ xs) = (if x == id then 1 else 0) + count id xs

count-append : (id : ℕ) (xs ys : List ℕ) → count id (xs ++ ys) ≡ count id xs + count id ys
unfolding count
count-append id [] ys = omega arith
count-append id (x ∷ xs) ys = omega (arith, count-append id xs ys)

pub count_last :
    (id x : ℕ) (xs : List ℕ) → count id (xs ++ x ∷ []) ≡ (if x == id then 1 else 0) + count id xs
unfolding count
count_last id x xs = omega (arith, count-append id xs (x ∷ []))

pub count-insert_before :
    (p : ℕ → Bool) (id x : ℕ) (xs : List ℕ)
    → count id (insert_before p x xs) ≡ (if x == id then 1 else 0) + count id xs
unfolding count insert_before
count-insert_before p id x [] = refl
count-insert_before p id x (y ∷ ys) = ground (arith, count-insert_before p id x ys)

pub count-retain :
    (id x : ℕ) (xs : List ℕ)
    → count id (retain (λ y. not (y == x)) xs) ≡ (if x == id then 0 else count id xs)
unfolding count retain
count-retain id x [] = ground arith
count-retain id x (y ∷ ys) = ground (arith, count-retain id x ys)

-- No later item has a greater key.
abbrev pub Descending : (ℕ → ℤ) → List ℕ → Type 0
Descending f [] = Unit {0}
Descending f (x ∷ xs) = All (λ y. f y ≤ℤ f x) xs × Descending f xs

All-insert_before :
    (P : ℕ → Type 0) (p : ℕ → Bool) (a : ℕ) (xs : List ℕ)
    → P a
    → All P xs
    → All P (insert_before p a xs)
unfolding insert_before
All-insert_before P p a [] h k = (h, tt)
All-insert_before P p a (x ∷ xs) h k = elim (Bool-cases (p x)) [
  | inl e ↦ rw e (h, k)
  | inr e ↦ rw e (k.0, All-insert_before P p a xs h k.1)
]

lt_le : (b c : ℤ) → ltb_ℤ b c ≡ true → b ≤ℤ c
lt_le b c q = ground arith

not_lt : (b c : ℤ) → ltb_ℤ b c ≡ false → c ≤ℤ b
not_lt b c q = ground arith

le_trans_ℤ : (b c d : ℤ) → b ≤ℤ c → c ≤ℤ d → b ≤ℤ d
le_trans_ℤ b c d p q = omega arith

-- Insertion before the first lower key keeps the order.
pub insert_before-Descending :
    (f : ℕ → ℤ) (a : ℕ) (xs : List ℕ)
    → Descending f xs
    → Descending f (insert_before (λ y. ltb_ℤ (f y) (f a)) a xs)
unfolding insert_before
insert_before-Descending f a [] h = (tt, tt)
insert_before-Descending f a (x ∷ xs) h = elim (Bool-cases (ltb_ℤ (f x) (f a))) [
  | inl e ↦
      let le : f x ≤ℤ f a = lt_le (f x) (f a) e in
      rw e ((le, All-mono _ _ (λ y k. le_trans_ℤ (f y) (f x) (f a) k le) xs h.0), h)
  | inr e ↦
      rw e
        (All-insert_before _ _ a xs (not_lt (f x) (f a) e) h.0, insert_before-Descending f a xs h.1)
]

All-retain : (P : ℕ → Type 0) (p : ℕ → Bool) (xs : List ℕ) → All P xs → All P (retain p xs)
unfolding retain
All-retain P p [] h = tt
All-retain P p (x ∷ xs) h = elim (Bool-cases (p x)) [
  | inl e ↦ rw e (h.0, All-retain P p xs h.1)
  | inr e ↦ rw e (All-retain P p xs h.1)
]

pub retain-Descending :
    (f : ℕ → ℤ) (p : ℕ → Bool) (xs : List ℕ) → Descending f xs → Descending f (retain p xs)
unfolding retain
retain-Descending f p [] h = tt
retain-Descending f p (x ∷ xs) h = elim (Bool-cases (p x)) [
  | inl e ↦ rw e (All-retain _ p xs h.0, retain-Descending f p xs h.1)
  | inr e ↦ rw e (retain-Descending f p xs h.1)
]

All-cong :
    (P Q : ℕ → Type 0) (xs : List ℕ) → ((j : ℕ) → 0 < count j xs → P j → Q j) → All P xs → All Q xs
unfolding count
All-cong P Q [] h k = tt
All-cong P Q (x ∷ xs) h k = (h x (ground arith) k.0, All-cong P Q xs (λ j q. h j (omega arith)) k.1)

-- The order depends on the keys of the members alone.
pub Descending-cong :
    (f g : ℕ → ℤ) (xs : List ℕ)
    → ((j : ℕ) → 0 < count j xs → f j ≡ g j)
    → Descending f xs
    → Descending g xs
unfolding count
Descending-cong f g [] e h = tt
Descending-cong f g (x ∷ xs) e h = (
  All-cong _ _ xs (λ j q k. moved j (e j (omega arith)) k) h.0,
  Descending-cong f g xs (λ j q. e j (omega arith)) h.1,
)
  where
    moved : (j : ℕ) → f j ≡ g j → f j ≤ℤ f x → g j ≤ℤ g x
    moved j q k = rw (← q, ← e x (ground arith)) k
