-- ===== src/SessionManager/Backoff.antt =====
-- The delays of `reconnect_loop` (quelay-agent/src/session_manager.rs).
use quelay.Common.{ℕ, zero, suc, ◌*◌, ◌^◌, min, ◌≡◌, arith}
use quelay.SessionManager.{backoff}

-- The delay doubles from one second and stops at 30.
backoff_lem : (n : ℕ) → backoff n ≡ min (2 ^ n) 30
unfolding backoff
backoff_lem zero = omega arith
backoff_lem (suc n) =
    let ih = backoff_lem n in
    let double : 2 ^ suc n ≡ 2 ^ n * 2 = grind arith in rw double (omega arith)
