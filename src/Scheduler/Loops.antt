-- ===== src/Scheduler/Loops.antt =====
-- Rules for the two bulk loops of `schedule` (quelay-domain/src/scheduler.rs), and their end.
use quelay.Common.{
  ℕ, zero, suc, ◌+◌, ◌-◌, ◌*◌, ◌≤◌, ◌<◌, ◌≡◌, refl, ◌∙◌, ◌⊎◌, inl, inr, Bool, true, false, List, [],
  ◌∷◌, ◌++◌, ◌||◌, arith, ltb, ◌==◌, ltb→lt, ltb_false→le, length, length-append, Bool-cases,
  Option-cases, none, some, ◌≢◌,
}
use quelay.Common.Table.{lookup}
use quelay.Domain.Error.{QueLayError, Result, ok, err, stream_not_found}
use quelay.Scheduler.{
  StreamEntry, DrrScheduler, Round, turn, front_turn, fair_round, extra_rounds, extra_fuel,
  bulk_start, bulk_rounds, serve_strict, schedule,
}

-- What the front stream's turn may come to.
pub front_turn_cases {κ} :
    (P : Round × Result Bool → Type κ) (r : Round)
    → (r.bulk_order ≡ [] → P (r, ok true))
    → ((id : ℕ) (ids : List ℕ)
        → r.bulk_order ≡ id ∷ ids
        → lookup id r.streams ≡ none
        → P (r, err (stream_not_found id)))
    → ((id : ℕ) (ids : List ℕ) (e : StreamEntry)
        → r.bulk_order ≡ id ∷ ids
        → lookup id r.streams ≡ some e
        → P ((turn id e r).0, ok (turn id e r).1))
    → P (front_turn r)
unfolding front_turn
front_turn_cases P r empty gone turned = go r.bulk_order refl
  where
    go : (ids : List ℕ) → r.bulk_order ≡ ids → P (front_turn r)
    go [] h = rw (h, front_turn) (empty h)
    go (id ∷ ids) h = elim (Option-cases (lookup id r.streams)) [
      | inl n ↦ rw (h, n, front_turn) (gone id ids h n)
      | inr (e, s) ↦ rw (h, s, front_turn) (turned id ids e h s)
    ]

pub Result-cases {ℓ} :
    {A : Type ℓ} (r : Result A) → ((a : A) × (r ≡ ok a)) ⊎ ((e : QueLayError) × (r ≡ err e))
Result-cases (ok a) = inl (a, refl)
Result-cases (err e) = inr (e, refl)

-- What every turn keeps, phase 1 keeps.
pub fair_round_inv {κ} :
    (P : Round → Type κ)
    → ((r : Round) → 0 < r.budget → P r → P (front_turn r).0)
    → (n : ℕ) (r : Round) → P r
    → P (fair_round n r).0
unfolding fair_round
fair_round_inv P keep zero r p = p
fair_round_inv P keep (suc n) r p = elim (Bool-cases (r.budget == 0)) [
  | inl e ↦ rw (e, fair_round) p
  | inr e ↦ elim (Result-cases (front_turn r).1) [
    | inl (b, s) ↦
        rw (e, fair_round, s) (fair_round_inv P keep n (front_turn r).0 (keep r (ground arith) p))
    | inr (x, s) ↦ rw (e, fair_round, s) (keep r (ground arith) p)
  ]
]

-- What every turn keeps, beside the count of idle turns, phase 2 keeps.
pub extra_rounds_inv {κ} :
    (P : ℕ → Round → Type κ) (n : ℕ)
    → ((idle : ℕ) (r : Round)
        → 0 < r.budget
        → P idle r
        → (front_turn r).1 ≡ ok true
        → P 0 (front_turn r).0)
    → ((idle : ℕ) (r : Round)
        → 0 < r.budget
        → idle < n
        → P idle r
        → (front_turn r).1 ≡ ok false
        → P (idle + 1) (front_turn r).0)
    → ((idle : ℕ) (r : Round) (x : QueLayError)
        → 0 < r.budget
        → P idle r
        → (front_turn r).1 ≡ err x
        → P idle (front_turn r).0)
    → (fuel idle : ℕ) (r : Round) → P idle r
    → P (extra_rounds fuel n idle r).1 (extra_rounds fuel n idle r).0
unfolding extra_rounds
extra_rounds_inv P n sent kept failed zero idle r p = p
extra_rounds_inv P n sent kept failed (suc fuel) idle r p = elim (Bool-cases (ltb 0 r.budget)) [
  | inr e ↦ rw (e, extra_rounds) p
  | inl e ↦ elim (Bool-cases (ltb idle n)) [
    | inr f ↦ rw (e, f, extra_rounds) p
    | inl f ↦ elim (Result-cases (front_turn r).1) [
      | inl (true, s) ↦
          rw (e, f, s, extra_rounds)
            (extra_rounds_inv P n sent kept failed fuel 0 (front_turn r).0
              (sent idle r (ltb→lt _ _ e) p s))
      | inl (false, s) ↦
          rw (e, f, s, extra_rounds)
            (extra_rounds_inv P n sent kept failed fuel (idle + 1) (front_turn r).0
              (kept idle r (ltb→lt _ _ e) (ltb→lt _ _ f) p s))
      | inr (x, s) ↦ rw (e, f, s, extra_rounds) (failed idle r x (ltb→lt _ _ e) p s)
    ]
  ]
]

-- Where no turn fails, neither loop does.
pub fair_round_ok {κ} :
    (P : Round → Type κ)
    → ((r : Round) → 0 < r.budget → P r → P (front_turn r).0)
    → ((r : Round) (x : QueLayError) → 0 < r.budget → P r → (front_turn r).1 ≢ err x)
    → (n : ℕ) (r : Round) → P r
    → (fair_round n r).1 ≡ ok tt
unfolding fair_round
fair_round_ok P keep safe zero r p = refl
fair_round_ok P keep safe (suc n) r p = elim (Bool-cases (r.budget == 0)) [
  | inl e ↦ rw (e, fair_round)
  | inr e ↦ elim (Result-cases (front_turn r).1) [
    | inl (b, s) ↦
        rw (e, fair_round, s)
          (fair_round_ok P keep safe n (front_turn r).0 (keep r (ground arith) p))
    | inr (x, s) ↦ absurd (safe r x (ground arith) p s)
  ]
]

pub extra_rounds_ok {κ} :
    (P : Round → Type κ)
    → ((r : Round) → 0 < r.budget → P r → P (front_turn r).0)
    → ((r : Round) (x : QueLayError) → 0 < r.budget → P r → (front_turn r).1 ≢ err x)
    → (fuel n idle : ℕ) (r : Round) → P r
    → (extra_rounds fuel n idle r).2 ≡ ok tt
unfolding extra_rounds
extra_rounds_ok P keep safe zero n idle r p = refl
extra_rounds_ok P keep safe (suc fuel) n idle r p = elim (Bool-cases (ltb 0 r.budget)) [
  | inr e ↦ rw (e, extra_rounds)
  | inl e ↦ elim (Bool-cases (ltb idle n)) [
    | inr f ↦ rw (e, f, extra_rounds)
    | inl f ↦
        let rest = λ (i : ℕ).
          extra_rounds_ok P keep safe fuel n i (front_turn r).0 (keep r (ltb→lt _ _ e) p) in
        elim (Result-cases (front_turn r).1) [
          | inl (true, s) ↦ rw (e, f, s, extra_rounds) (rest 0)
          | inl (false, s) ↦ rw (e, f, s, extra_rounds) (rest (idle + 1))
          | inr (x, s) ↦ absurd (safe r x (ltb→lt _ _ e) p s)
        ]
  ]
]

length-rotate_left : (id : ℕ) (ids : List ℕ) → length (ids ++ id ∷ []) ≡ length (id ∷ ids)
length-rotate_left id ids = omega (arith, length-append ids (id ∷ []))

-- A turn keeps the length of the order, and takes from the budget exactly when it sends.
pub record Turned (r : Round) (out : Round × Result Bool) : Type 0 where
  pub same_length : length out.0.bulk_order ≡ length r.bulk_order
  pub sends : out.1 ≡ ok true → out.0.budget < r.budget
  pub idles : out.1 ≢ ok true → out.0.budget ≡ r.budget

front_turn-Turned : (r : Round) → 0 < r.budget → 0 < length r.bulk_order → Turned r (front_turn r)
unfolding turn
front_turn-Turned r b h =
    front_turn_cases (Turned r) r (λ e. absurd (ground arith))
      (λ id ids e n. record { same_length = refl; sends = λ q. cc; idles = λ q. refl })
      (λ id ids e o s. record {
        same_length = ground (arith, length-rotate_left id ids);
        sends = λ q. ground arith;
        idles = λ q. ground arith;
      })

-- The measure falls at a turn that sends.
measure_sent :
    (b b' n idle fuel : ℕ)
    → b' < b
    → idle < n
    → b * (n + 1) + n - idle < suc fuel
    → b' * (n + 1) + n - 0 < fuel
measure_sent b b' n idle fuel h i f = omega (arith, step)
  where
    step : (b' + 1) * (n + 1) ≤ b * (n + 1)
    step = grind arith

-- The fuel is enough: phase 2 ends by its own test, or by an error.
pub extra_rounds_ends :
    (fuel n idle : ℕ) (r : Round)
    → 0 < length r.bulk_order
    → idle ≤ n
    → r.budget * (n + 1) + n - idle < fuel
    → (extra_rounds fuel n idle r).2 ≡ ok tt
    → ((extra_rounds fuel n idle r).0.budget ≡ 0) ⊎ (n ≤ (extra_rounds fuel n idle r).1)
unfolding extra_rounds
extra_rounds_ends zero n idle r l i f = absurd (omega arith)
extra_rounds_ends (suc fuel) n idle r l i f = elim (Bool-cases (ltb 0 r.budget)) [
  | inr e ↦ rw (e, extra_rounds) (λ _. inl (ground arith))
  | inl e ↦ elim (Bool-cases (ltb idle n)) [
    | inr g ↦ rw (e, g, extra_rounds) (λ _. inr (ltb_false→le idle n g))
    | inl g ↦
        let t = front_turn-Turned r (ltb→lt _ _ e) l in
        let room : 0 < length (front_turn r).0.bulk_order = omega (arith, t.same_length) in
        elim (Result-cases (front_turn r).1) [
          | inl (true, s) ↦
              rw (e, g, s, extra_rounds)
                (extra_rounds_ends fuel n 0 (front_turn r).0 room (omega arith)
                  (measure_sent _ _ n idle fuel (t.sends s) (ltb→lt _ _ g) f))
          | inl (false, s) ↦
              rw (e, g, s, extra_rounds)
                (extra_rounds_ends fuel n (idle + 1) (front_turn r).0 room
                  (omega (arith, ltb→lt _ _ g))
                  (rw (t.idles (λ q. cc)) (omega (arith, ltb→lt _ _ g))))
          | inr (x, s) ↦ rw (e, g, s, extra_rounds) (λ q. cc)
        ]
  ]
]

-- What every turn keeps holds after both loops.
pub bulk_rounds_inv {κ} :
    (P : Round → Type κ)
    → ((r : Round) → 0 < r.budget → P r → P (front_turn r).0)
    → (s : DrrScheduler) (left : ℕ) → P (bulk_start s left)
    → P (bulk_rounds s left).0
unfolding bulk_rounds
bulk_rounds_inv P keep s left p =
    let n = length s.bulk_order in
    let r = (fair_round n (bulk_start s left)).0 in
    let q = fair_round_inv P keep n (bulk_start s left) p in
    elim (Result-cases (fair_round n (bulk_start s left)).1) [
      | inl (_, f) ↦
          rw (f, bulk_rounds)
            (extra_rounds_inv (λ _ r. P r) n (λ _ r b h _. keep r b h) (λ _ r b _ h _. keep r b h)
              (λ _ r _ b h _. keep r b h) (extra_fuel n r.budget) 0 r q)
      | inr (x, f) ↦ rw (f, bulk_rounds) q
    ]

-- The two ways in which `schedule` succeeds: with the strict streams alone, or with both loops.
pub data Scheduled (iter : List (ℕ × ℕ) → List (ℕ × ℕ)) (s : DrrScheduler) (budget : ℕ)
    (r : List (ℕ × ℕ)) : Type 0 where
  strict_only :
      (left : ℕ)
      → serve_strict s.streams s.c2i_queue budget [] ≡ ok (r, left)
      → (length s.bulk_order ≡ 0) ⊎ (left ≡ 0)
      → Scheduled iter s budget r
  with_bulk :
      (out : List (ℕ × ℕ)) (left : ℕ)
      → serve_strict s.streams s.c2i_queue budget [] ≡ ok (out, left)
      → 0 < length s.bulk_order
      → 0 < left
      → (bulk_rounds s left).1 ≡ ok tt
      → r ≡ out ++ iter (bulk_rounds s left).0.bulk_allocs
      → Scheduled iter s budget r

pub schedule-Scheduled :
    (iter : List (ℕ × ℕ) → List (ℕ × ℕ)) (s : DrrScheduler) (budget : ℕ) (r : List (ℕ × ℕ))
    → (schedule iter s budget).1 ≡ ok r
    → Scheduled iter s budget r
unfolding schedule
schedule-Scheduled iter s budget r =
    elim (Result-cases (serve_strict s.streams s.c2i_queue budget [])) [
      | inr (x, e) ↦ rw (e, schedule) (λ h. cc)
      | inl ((out, left), e) ↦ elim (Bool-cases ((length s.bulk_order == 0) || (left == 0))) [
        | inl t ↦ rw (e, t, schedule) (λ h. strict_only left (e ∙ ground arith) (ground arith))
        | inr t ↦ elim (Result-cases (bulk_rounds s left).1) [
          | inl (_, f) ↦
              rw (e, t, f, schedule)
                (λ h. with_bulk out left e (ground arith) (ground arith) f (ground arith))
          | inr (x, f) ↦ rw (e, t, f, schedule) (λ h. cc)
        ]
      ]
    ]
