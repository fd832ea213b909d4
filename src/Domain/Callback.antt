-- ===== src/Domain/Callback.antt =====
-- The lifecycle events of `CallbackCmd` (quelay-agent/src/callback.rs) that streams fire. The client's
-- address and the stream's identity are the stream's own and are left out; so is the progress event,
-- which depends on the clock.
use quelay.Common.{ℕ}

-- `FailReason`: the values that the source names, and a code from the peer.
pub data FailReason : Type 0 where
  unknown link_failed sender_closed : FailReason
  from_peer : ℕ → FailReason

-- What the message of a failure says.
pub data Cause : Type 0 where
  chunk_gap : ℕ → ℕ → Cause
  tcp_write tcp_read accept_failed link_lost reader_gone : Cause
  peer_said : ℕ → Cause

pub data CallbackCmd : Type 0 where
  stream_done : ℕ → ℕ → CallbackCmd
  stream_failed : FailReason → Cause → CallbackCmd
