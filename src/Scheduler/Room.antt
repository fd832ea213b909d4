-- ===== src/Scheduler/Room.antt =====
-- Room in the `u32` deficits, and the backlogs, across one turn of a bulk stream
-- (quelay-domain/src/scheduler.rs).
use mathlib.Core.Option
use quelay.Common.{
  ℕ, ◌+◌, ◌-◌, ◌*◌, ◌^◌, ◌≤◌, ◌<◌, ◌≡◌, inl, inr, false, List, [], ◌∷◌, ◌++◌, arith, ltb, ltb→lt,
  ◌==◌, Option, none, some, Bool-cases,
}
use quelay.Common.Table.{lookup, insert, lookup-insert}
use quelay.Scheduler.{StreamEntry, Streams, Round, turn, topped_up, turn_send}

-- The quantum is positive, and the deficit cannot reach 2 ^ 32 while `budget` bytes are granted.
abbrev pub HasRoom : ℕ → Option StreamEntry → Type 0
HasRoom budget none = ⊥
HasRoom budget (some e) = (0 < e.quantum) × (e.deficit + e.quantum * (budget + 1) < 2 ^ 32)

abbrev pub Roomy : ℕ → Streams → ℕ → Type 0
Roomy budget t id = HasRoom budget (lookup id t)

abbrev pub backlog_of : Streams → ℕ → Option ℕ
backlog_of t id = Option.map (λ e. e.backlog) (lookup id t)

abbrev pub IsIdle : Streams → ℕ → Type 0
IsIdle t id = backlog_of t id ≡ some 0

pub HasRoom-mono : (b b' : ℕ) (o : Option StreamEntry) → b' ≤ b → HasRoom b o → HasRoom b' o
HasRoom-mono b b' none h r = r
HasRoom-mono b b' (some e) h r = (r.0, grind arith)

-- What a turn leaves of the deficit keeps the room.
room_step :
    (d q b full send : ℕ)
    → full ≡ d + q
    → 0 < send
    → send ≤ b
    → send ≤ full
    → d + q * (b + 1) < 2 ^ 32
    → full - send + q * (b - send + 1) < 2 ^ 32
room_step d q b full send e p s t h = omega (arith, less)
  where
    less : q * (b - send + 1) ≤ q * b
    less = grind arith

topped_up_lem : (e : StreamEntry) (b : ℕ) → HasRoom b (some e) → topped_up e ≡ e.deficit + e.quantum
topped_up_lem e b h = omega (arith, fits)
  where
    fits : e.quantum ≤ e.quantum * (b + 1)
    fits = grind arith

insert-Roomy :
    (b id j : ℕ) (x : StreamEntry) (t : Streams)
    → HasRoom b (some x)
    → Roomy b t j
    → Roomy b (insert id x t) j
insert-Roomy b id j x t h k =
    rw (lookup-insert id j x t) (elim (Bool-cases (id == j)) [ inl e ↦ rw e h | inr e ↦ rw e k ])

-- A turn keeps the room of every stream, for the budget that is left.
pub turn-Roomy :
    (id j : ℕ) (e : StreamEntry) (r : Round)
    → HasRoom r.budget (some e)
    → Roomy r.budget r.streams j
    → Roomy (turn id e r).0.budget (turn id e r).0.streams j
unfolding turn
turn-Roomy id j e r h k = elim (Bool-cases (ltb 0 (turn_send r.budget e))) [
  | inl s ↦
      rw (s, turn)
        (insert-Roomy (r.budget - send) id j (record e { deficit = topped_up e - send }) r.streams
          (
            h.0,
            room_step e.deficit e.quantum r.budget (topped_up e) send (topped_up_lem e r.budget h)
                (ltb→lt _ _ s) (omega arith) (omega arith) h.1,
          )
          (HasRoom-mono r.budget _ (lookup j r.streams) (omega arith) k))
  | inr s ↦
      rw (s, turn)
        (insert-Roomy r.budget id j (record e { deficit = 0 }) r.streams (h.0, omega (arith, h.1))
          k)
]
  where
    send : ℕ
    send = turn_send r.budget e

pub turn-backlog_of :
    (id j : ℕ) (e : StreamEntry) (r : Round)
    → lookup id r.streams ≡ some e
    → backlog_of (turn id e r).0.streams j ≡ backlog_of r.streams j
unfolding turn
turn-backlog_of id j e r s = ground (
  arith,
  lookup-insert id j (record e { deficit = topped_up e - turn_send r.budget e }) r.streams,
  lookup-insert id j (record e { deficit = 0 }) r.streams,
)

-- A stream with room that does not send has no backlog.
pub turn_idle :
    (id : ℕ) (e : StreamEntry) (r : Round)
    → 0 < r.budget
    → HasRoom r.budget (some e)
    → (turn id e r).1 ≡ false
    → e.backlog ≡ 0
unfolding turn
turn_idle id e r b h q = ground (arith, topped_up_lem e r.budget h, h.0)

pub bulk_order-turn :
    (id : ℕ) (ids : List ℕ) (e : StreamEntry) (r : Round)
    → r.bulk_order ≡ id ∷ ids
    → (turn id e r).0.bulk_order ≡ ids ++ id ∷ []
unfolding turn
bulk_order-turn id ids e r o = ground arith
