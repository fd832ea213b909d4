-- ===== src/Scheduler.antt =====
-- quelay-domain/src/scheduler.rs: the Deficit Round Robin scheduler.
-- A `Uuid` is a number. The `u32` deficit wraps where a release build does.
pub mod Loops
pub mod Budget
pub mod Strict
pub mod Room
pub mod Drain
pub mod Order
pub mod Queues
pub mod Rotation
pub mod Members
pub mod Restore
pub mod Totality
pub mod Tests
use mathlib.Core.Option
use quelay.Common.{
  ℕ, zero, suc, ◌+◌, ◌-◌, ◌*◌, ◌%◌, ◌^◌, min, Bool, true, false, none, some, List, [], ◌∷◌, ◌++◌,
  ◌||◌, ltb, ◌==◌, if◌then◌else◌, not, length, position, insert_at, retain, rotate_left,
}
use quelay.Common.Table.{lookup, insert, remove}
use quelay.Domain.Error.{stream_not_found, Result, ok, err}
use quelay.Domain.Priority.{Priority, initial_quantum, is_strict, lt_priority, bulk_priority_min}

abbrev bulk_quantum_bytes : ℕ
bulk_quantum_bytes = 4 * 1024

pub record StreamEntry : Type 0 where
  pub priority : Priority
  pub deficit : ℕ
  pub quantum : ℕ
  pub backlog : ℕ

abbrev pub Streams : Type 0
Streams = List (ℕ × StreamEntry)

pub record DrrScheduler : Type 0 where
  pub streams : Streams
  pub bulk_order : List ℕ
  pub c2i_queue : List ℕ

unfoldable pub new : DrrScheduler
new = record { streams = []; bulk_order = []; c2i_queue = [] }

-- A write to the entry that `get_mut` finds.
unfoldable pub update_entry : ℕ → (StreamEntry → StreamEntry) → Streams → Streams
update_entry id f t = elim (lookup id t) [ none ↦ t | some e ↦ insert id (f e) t ]

pub set_quantum_each : List ℕ → Streams → Streams
set_quantum_each [] t = t
set_quantum_each (id ∷ ids) t =
    set_quantum_each ids (update_entry id (λ e. record e { quantum = bulk_quantum_bytes }) t)

unfoldable pub rebalance : DrrScheduler → DrrScheduler
unfolding set_quantum_each update_entry
rebalance s = elim s.bulk_order [
  | [] ↦ s
  | id ∷ ids ↦ record s { streams = set_quantum_each (id ∷ ids) s.streams }
]

-- The test that finds where a strict stream goes: the first entry of lower priority.
abbrev pub lower : Streams → Priority → ℕ → Bool
lower t p other =
    lt_priority (Option.get_or (Option.map (λ e. e.priority) (lookup other t)) bulk_priority_min) p

abbrev pub fresh_entry : Priority → StreamEntry
fresh_entry p = record { priority = p; deficit = 0; quantum = initial_quantum p; backlog = 0 }

unfoldable pub register : DrrScheduler → ℕ → Priority → DrrScheduler
register s id p =
    let t = insert id (fresh_entry p) s.streams in
    if is_strict p
    then record s {
      streams = t;
      c2i_queue =
          insert_at (Option.get_or (position (lower t p) s.c2i_queue) (length s.c2i_queue)) id
            s.c2i_queue;
    }
    else rebalance (record s { streams = t; bulk_order = s.bulk_order ++ id ∷ [] })

unfoldable pub deregister : DrrScheduler → ℕ → DrrScheduler
deregister s id = elim (lookup id s.streams) [
  | none ↦ s
  | some e ↦
      let t = remove id s.streams in
      if is_strict e.priority
      then record s { streams = t; c2i_queue = retain (λ x. not (x == id)) s.c2i_queue }
      else rebalance
          (record s { streams = t; bulk_order = retain (λ x. not (x == id)) s.bulk_order })
]

unfoldable pub set_quantum : DrrScheduler → ℕ → ℕ → DrrScheduler
set_quantum s id q = record s {
  streams = update_entry id (λ e. record e { quantum = q }) s.streams;
}

unfoldable pub set_backlog : DrrScheduler → ℕ → ℕ → DrrScheduler
set_backlog s id b = record s {
  streams = update_entry id (λ e. record e { backlog = b }) s.streams;
}

abbrev pub strict_send : ℕ → StreamEntry → ℕ
strict_send budget e = min (min budget e.backlog) e.quantum

-- The loop over `c2i_queue`: what it pushes to `result`, and the budget that is left.
unfoldable pub serve_strict : Streams → List ℕ → ℕ → List (ℕ × ℕ) → Result (List (ℕ × ℕ) × ℕ)
serve_strict t [] budget out = ok (out, budget)
serve_strict t (id ∷ ids) budget out = elim (budget == 0) [
  | true ↦ ok (out, budget)
  | false ↦ elim (lookup id t) [
    | none ↦ err (stream_not_found id)
    | some e ↦
        let send = strict_send budget e in
        serve_strict t ids (budget - send) (if ltb 0 send then out ++ (id, send) ∷ [] else out)
  ]
]

-- The locals of `schedule` that the two bulk loops change, with the scheduler's own fields.
pub record Round : Type 0 where
  pub streams : Streams
  pub bulk_order : List ℕ
  pub budget : ℕ
  pub bulk_allocs : List (ℕ × ℕ)

-- `*bulk_allocs.entry(id).or_insert(0) += send`
unfoldable pub add_alloc : ℕ → ℕ → List (ℕ × ℕ) → List (ℕ × ℕ)
add_alloc id send m = insert id (Option.get_or (lookup id m) 0 + send) m

-- What a turn may send: the deficit after the quantum is added, the budget and the backlog.
abbrev pub topped_up : StreamEntry → ℕ
topped_up e = (e.deficit + e.quantum) % 2 ^ 32

abbrev pub turn_send : ℕ → StreamEntry → ℕ
turn_send budget e = min (min budget (topped_up e)) e.backlog

-- One turn of the stream at the front; the flag tells whether it sent.
unfoldable pub turn : ℕ → StreamEntry → Round → Round × Bool
turn id e r =
    let send = turn_send r.budget e in
    if ltb 0 send
    then (
      record {
        streams = insert id (record e { deficit = topped_up e - send }) r.streams;
        bulk_order = rotate_left r.bulk_order;
        budget = r.budget - send;
        bulk_allocs = add_alloc id send r.bulk_allocs;
      },
      true,
    )
    else (
      record r {
        streams = insert id (record e { deficit = 0 }) r.streams;
        bulk_order = rotate_left r.bulk_order;
      },
      false,
    )

-- The body that both loops share: the front stream takes a turn, if it is registered.
unfoldable pub front_turn : Round → Round × Result Bool
front_turn r = elim r.bulk_order [
  | [] ↦ (r, ok true)
  | id ∷ _ ↦ elim (lookup id r.streams) [
    | none ↦ (r, err (stream_not_found id))
    | some e ↦ let (r', served) = turn id e r in (r', ok served)
  ]
]

-- Phase 1, `for _ in 0..n`: one turn for each bulk stream.
unfoldable pub fair_round : ℕ → Round → Round × Result (Unit {0})
fair_round zero r = (r, ok tt)
fair_round (suc n) r = elim (r.budget == 0) [
  | true ↦ (r, ok tt)
  | false ↦
      let (r', served) = front_turn r in
      elim served [ err e ↦ (r', err e) | ok _ ↦ fair_round n r' ]
]

-- Phase 2, `while budget > 0 && consecutive_idle < n`, with the fuel that `extra_fuel` gives.
unfoldable pub extra_rounds : ℕ → ℕ → ℕ → Round → Round × ℕ × Result (Unit {0})
extra_rounds zero n idle r = (r, idle, ok tt)
extra_rounds (suc fuel) n idle r = elim (ltb 0 r.budget) [
  | false ↦ (r, idle, ok tt)
  | true ↦ elim (ltb idle n) [
    | false ↦ (r, idle, ok tt)
    | true ↦
        let (r', served) = front_turn r in
        elim served [
          | err e ↦ (r', idle, err e)
          | ok true ↦ extra_rounds fuel n 0 r'
          | ok false ↦ extra_rounds fuel n (idle + 1) r'
        ]
  ]
]

-- Each turn sends a byte or adds to the idle count, which starts again at a turn that sends.
abbrev pub extra_fuel : ℕ → ℕ → ℕ
extra_fuel n budget = budget * (n + 1) + n + 1

-- Where the bulk loops start.
abbrev pub bulk_start : DrrScheduler → ℕ → Round
bulk_start s budget = record {
  streams = s.streams;
  bulk_order = s.bulk_order;
  budget = budget;
  bulk_allocs = [];
}

-- Both bulk loops, from the budget that the strict streams leave.
unfoldable pub bulk_rounds : DrrScheduler → ℕ → Round × Result (Unit {0})
bulk_rounds s budget =
    let n = length s.bulk_order in
    let (r, fair) = fair_round n (bulk_start s budget) in
    elim fair [
      | err e ↦ (r, err e)
      | ok _ ↦ let (r', idle, done) = extra_rounds (extra_fuel n r.budget) n 0 r in (r', done)
    ]

-- `iter` is the order in which the `HashMap` of bulk allocations gives its entries.
unfoldable pub schedule :
    (List (ℕ × ℕ) → List (ℕ × ℕ)) → DrrScheduler → ℕ → DrrScheduler × Result (List (ℕ × ℕ))
schedule iter s budget = elim (serve_strict s.streams s.c2i_queue budget []) [
  | err e ↦ (s, err e)
  | ok (out, left) ↦ elim ((length s.bulk_order == 0) || (left == 0)) [
    | true ↦ (s, ok out)
    | false ↦
        let (r, done) = bulk_rounds s left in
        let s' = record s { streams = r.streams; bulk_order = r.bulk_order } in
        elim done [ err e ↦ (s', err e) | ok _ ↦ (s', ok (out ++ iter r.bulk_allocs)) ]
  ]
]
