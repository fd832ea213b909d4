-- ===== src/Domain/Session.antt =====
-- quelay-domain/src/session.rs: stream metadata and the queue snapshot; the link states of
-- quelay-domain/src/transport.rs. Attributes are opaque and stay one value of a type parameter.
use quelay.Common.{ℕ, List, Option}

pub record StreamInfo (Attrs : Type 0) : Type 0 where
  pub size_bytes : Option ℕ
  pub attrs : Attrs

-- The counts are `as i32` of sizes that stay far below 2 ^ 31.
pub record QueueStatus : Type 0 where
  pub active_count : ℕ
  pub max_concurrent : ℕ
  pub max_pending : ℕ
  pub pending : List ℕ

pub data LinkState : Type 0 where
  connecting normal degraded failed : LinkState

-- quelay-domain/src/transport.rs
pub record ConnStats : Type 0 where
  pub sent_packets : ℕ
  pub lost_packets : ℕ
  pub congestion_events : ℕ
  pub rtt_ms : ℕ
  pub cwnd : ℕ
  pub lost_bytes : ℕ

pub record TransferProgress (Float : Type 0) : Type 0 where
  pub uuid : ℕ
  pub bytes_transferred : ℕ
  pub percent_done : Option Float
  pub throughput_bps : Float
