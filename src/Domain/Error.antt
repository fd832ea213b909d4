-- ===== src/Domain/Error.antt =====
-- quelay-domain/src/error.rs: `QueLayError` and `Result`. The text of a `Transport` error is its
-- site in quelay-agent/src/framing.rs with the values that the message prints.
use quelay.Common.{ℕ, Option, none, some, Bool, true, false}

-- The kind of frame that a message names: a stream-open header, a wormhole message or a chunk.
pub data Site : Type 0 where
  framing wormhole chunk : Site

pub data Reason : Type 0 where
  serialize deserialize : Reason
  write_header write_payload read_header read_payload : Reason
  payload_exceeds payload_len_exceeds : ℕ → Reason
  payload_exceeds_field : Reason
  bad_magic unsupported_version unknown_opcode : ℕ → Reason
  read_first : Reason

pub data QueLayError : Type 0 where
  transport : Site → Reason → QueLayError
  stream_reset : ℕ → QueLayError
  already_finished session_closed : QueLayError
  stream_not_found : ℕ → QueLayError
  io : QueLayError

pub data Result {μ} (X : Type μ) : Type μ where
  err : QueLayError → Result X
  ok : X → Result X

-- `?` after a call whose value is bound, and after one whose value is `()`.
infixl 5 ◌>>=◌ ◌>>◌
abbrev pub ◌>>=◌ {μ ν} : {X : Type μ} {Y : Type ν} → Result X → (X → Result Y) → Result Y
err e >>= next = err e
ok x >>= next = next x

abbrev pub ◌>>◌ {ν} : {Y : Type ν} → Result (Unit {0}) → Result Y → Result Y
err e >> next = err e
ok x >> next = next

-- The early return `return Err(e)` under a test.
abbrev pub fail_if : Bool → QueLayError → Result (Unit {0})
fail_if true e = err e
fail_if false e = ok tt

-- `ok_or`, and `map_err` on a call whose own error carries no value that is kept.
abbrev pub or_err {ℓ} : {A : Type ℓ} → Option A → QueLayError → Result A
or_err none e = err e
or_err (some a) e = ok a
