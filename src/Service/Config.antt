-- ===== src/Service/Config.antt =====
-- What the calls that change the configuration do (quelay-agent/src/thrift_srv.rs,
-- quelay-agent/src/agent.rs, quelay-agent/src/session_manager.rs).
use quelay.Common.{
  ℕ, zero, suc, ◌-◌, ◌^◌, ◌≤◌, ◌≡◌, ◌⊎◌, inl, inr, ap, refl, Bool, true, false, Option, Bool-cases,
  none, some, [], ◌∷◌, arith, ◌==◌, ltb, ltb_false→le, if◌then◌else◌,
}
use quelay.Common.Int.{ℤ, pos, negsuc, ◌≤ℤ◌, i64_as_u64}
use quelay.Mapping.{UuidText}
use quelay.Domain.Session.{ConnStats}
use quelay.SessionManager.Limit.{promote_pending-max_concurrent}
use quelay.SessionManager.{PendingStream, RemoteState, promote_pending, set_max_concurrent}
use quelay.Service.{
  default_chunk_size_bytes, RuntimeConfig, ErrorKind, Answer, internal_error, ok, err, AgentCmd,
  forward, handle_set_max_concurrent, handle_set_chunk_size_bytes, send_cmd, i32_as_usize,
  dispatch_cmd,
}

pub record IsI32 (n : ℤ) : Type 0 where
  pub above : negsuc (2 ^ 31 - 1) ≤ℤ n
  pub below : n ≤ℤ pos (2 ^ 31 - 1)

-- What `Config::validate` asks of the chunk size.
abbrev pub InRange : RuntimeConfig → Type 0
InRange cfg = (1 ≤ cfg.chunk_size_bytes) × (cfg.chunk_size_bytes ≤ 65535)

-- For every `i32`, the lock poisoned or not: the chunk size stays in its range, an error leaves the
-- configuration as it was, and where the call is served and succeeds the new size is the one asked for,
-- or the default for 0; so a negative number is refused.
pub set_chunk_size_bytes_lem :
    (poisoned : Bool) (n : ℤ) (cfg : RuntimeConfig)
    → IsI32 n
    → InRange cfg
    → let (cfg', answer) = handle_set_chunk_size_bytes true poisoned n cfg in
      InRange cfg'
      × ((kind : ErrorKind) → answer ≡ err kind → cfg' ≡ cfg)
      × (answer ≡ ok tt
          → ((n ≡ pos 0) × (cfg'.chunk_size_bytes ≡ default_chunk_size_bytes))
            ⊎ ((k : ℕ) × (n ≡ pos k) × (cfg'.chunk_size_bytes ≡ k)))
unfolding handle_set_chunk_size_bytes i64_as_u64
set_chunk_size_bytes_lem true (pos zero) cfg i r = (r, λ kind e. refl, λ e. cc)
set_chunk_size_bytes_lem false (pos zero) cfg i r =
    ((omega arith, omega arith), λ kind e. cc, λ e. inl (refl, refl))
set_chunk_size_bytes_lem poisoned (pos (suc k)) cfg i r = elim (Bool-cases (ltb 65535 (suc k))) [
  | inl big ↦ rw (positive, big) (r, λ kind e. refl, λ e. cc)
  | inr small ↦ rw (positive, small) (stored poisoned (ltb_false→le _ _ small))
]
  where
    positive : (suc k == 0) ≡ false
    positive = ground arith

    stored :
        (poisoned : Bool)
        → suc k ≤ 65535
        → let out : RuntimeConfig × Answer (Unit {0}) =
            if poisoned
            then (cfg, err internal_error)
            else (record cfg { chunk_size_bytes = suc k }, ok tt) in
          InRange out.0
          × ((kind : ErrorKind) → out.1 ≡ err kind → out.0 ≡ cfg)
          × (out.1 ≡ ok tt
              → ((pos (suc k) ≡ pos 0) × (out.0.chunk_size_bytes ≡ default_chunk_size_bytes))
                ⊎ ((m : ℕ) × (pos (suc k) ≡ pos m) × (out.0.chunk_size_bytes ≡ m)))
    stored true le = (r, λ kind e. refl, λ e. cc)
    stored false le = ((omega arith, le), λ kind e. cc, λ e. inr (suc k, refl, refl))
set_chunk_size_bytes_lem poisoned (negsuc k) cfg i r =
    let nonzero : (2 ^ 64 - 1 - k == 0) ≡ false = ground (arith, i.above) in
    let big : ltb 65535 (2 ^ 64 - 1 - k) ≡ true = ground (arith, i.above) in
    rw (nonzero, big) (r, λ kind e. refl, λ e. cc)

-- The limit that a request asks for: none for 0, and beyond all streams for a negative number.
abbrev pub limit_of : ℤ → Option ℕ
limit_of (pos zero) = none
limit_of (pos (suc k)) = some (suc k)
limit_of (negsuc k) = some (2 ^ 64 - 1 - k)

sent_limit :
    (n : ℤ) → IsI32 n → (if i32_as_usize n == 0 then none else some (i32_as_usize n)) ≡ limit_of n
unfolding i64_as_u64
sent_limit (pos zero) i = refl
sent_limit (pos (suc k)) i = let nonzero : (suc k == 0) ≡ false = ground arith in rw nonzero refl
sent_limit (negsuc k) i =
    let nonzero : (2 ^ 64 - 1 - k == 0) ≡ false = ground (arith, i.above) in rw nonzero refl

module _ {Session Info Handle : Type 0}
    (opener : Session → PendingStream Info → Option Handle) where
  -- A request for a limit, where the lock is sound and the agent runs, sends one command, and the
  -- session manager that serves it has the limit asked for, also where it started with another; 0 takes
  -- it away.
  pub set_max_concurrent_reaches :
      (u : UuidText) (conn_stats : Session → ConnStats) (n : ℤ) (cfg : RuntimeConfig)
      (r : RemoteState Session Info Handle)
      → IsI32 n
      → (cmd : AgentCmd Info) × ((handle_set_max_concurrent true false true n cfg).2 ≡ cmd ∷ [])
        × (r' : RemoteState Session Info Handle) × ((dispatch_cmd u opener conn_stats
              (some r)
              (forward cmd)).state
            ≡ some r')
        × (r'.max_concurrent ≡ limit_of n)
  unfolding handle_set_max_concurrent send_cmd forward dispatch_cmd set_max_concurrent
  set_max_concurrent_reaches u conn_stats n cfg r i = (
    AgentCmd.limit (i32_as_usize n),
    refl,
    promote_pending opener (record r { max_concurrent = limit_of n }),
    ap (λ m. some (promote_pending opener (record r { max_concurrent = m }))) (sent_limit n i),
    promote_pending-max_concurrent opener _,
  )
