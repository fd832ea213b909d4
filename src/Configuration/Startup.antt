-- ===== src/Configuration/Startup.antt =====
-- From the command line to the running agent (quelay-agent/src/config.rs, quelay-agent/src/main.rs,
-- quelay-agent/src/rate_limiter.rs).
use quelay.Common.{
  ℕ, ◌/◌, ◌<◌, ◌≡◌, refl, sym, ap, ◌∙◌, ◌≢◌, map, ◌++◌, append-nil, Bool, true, false, none, some,
  List, [], ◌∷◌, arith, ◌==◌, All,
}
use quelay.Common.Int.{ℤ}
use quelay.Framing.{chunk_size}
use quelay.RateLimiter.{from_rate_bps}
use quelay.RateLimiter.Registry.{new}
use quelay.Service.{RuntimeConfig, handle_set_chunk_size_bytes}
use quelay.Service.Config.{IsI32, InRange, set_chunk_size_bytes_lem}
use quelay.Configuration.Bandwidth.{IsNumberText, split_lem}
use quelay.Configuration.Trim.{Letters}
use quelay.Configuration.{
  F64, multiplier, to_lower, read_value, ok, parse_bandwidth, Config, validate, runtime_config,
}

rate_too_low : (bps chunk : ℕ) → bps < 8 → from_rate_bps bps chunk ≡ none
unfolding from_rate_bps
rate_too_low bps chunk h = let zero_rate : (bps / 8 == 0) ≡ true = ground arith in rw zero_rate refl

-- A cap whose number is not zero is accepted also where it comes to less than 8 bits per second; the
-- agent then panics as it makes its rate limiter.
pub tiny_cap_panics :
    {Session : Type 0} (f : F64) (num unit : List ℕ) (value : f.Float) (m : ℕ) (session : Session)
    → IsNumberText num
    → Letters unit
    → unit ≢ []
    → f.parse num ≡ some value
    → multiplier (map to_lower unit) ≡ some m
    → f.is_zero value ≡ false
    → f.as_u64 (f.times value m) < 8
    → (bps : ℕ) × (parse_bandwidth f (num ++ unit) ≡ ok bps) × (new (some bps) session ≡ none)
unfolding new read_value
tiny_cap_panics f num unit value m session hn hu nu e em nz small = (
  f.as_u64 (f.times value m),
  ap (parse_bandwidth f) (sym (append-nil (num ++ unit)))
      ∙ split_lem f [] num [] unit [] (tt) hn (tt) hu nu (tt)
      ∙ rw (read_value, e, em, nz) refl,
  rw (rate_too_low _ chunk_size small) refl,
)

-- `set_chunk_size_bytes`, call after call; the lock may be poisoned at any of them.
unfoldable pub set_chunk_sizes : List (Bool × ℤ) → RuntimeConfig → RuntimeConfig
unfolding handle_set_chunk_size_bytes
set_chunk_sizes [] cfg = cfg
set_chunk_sizes ((poisoned, n) ∷ calls) cfg =
    set_chunk_sizes calls (handle_set_chunk_size_bytes true poisoned n cfg).0

validate-InRange : (c : Config) → validate c ≡ none → InRange (runtime_config c)
unfolding validate runtime_config
validate-InRange c h = ground arith

set_chunk_sizes-InRange :
    (calls : List (Bool × ℤ)) (cfg : RuntimeConfig)
    → All (λ (p, n). IsI32 n) calls
    → InRange cfg
    → InRange (set_chunk_sizes calls cfg)
unfolding set_chunk_sizes
set_chunk_sizes-InRange [] cfg i r = r
set_chunk_sizes-InRange ((poisoned, n) ∷ calls) cfg i r =
    set_chunk_sizes-InRange calls _ i.1 (set_chunk_size_bytes_lem poisoned n cfg i.0 r).0

-- A validated configuration has its chunk size between 1 and 65535 from the start, and through all calls
-- of `set_chunk_size_bytes`.
pub chunk_size_always_InRange :
    (c : Config) (calls : List (Bool × ℤ))
    → validate c ≡ none
    → All (λ (p, n). IsI32 n) calls
    → InRange (set_chunk_sizes calls (runtime_config c))
chunk_size_always_InRange c calls h i = set_chunk_sizes-InRange calls _ i (validate-InRange c h)
