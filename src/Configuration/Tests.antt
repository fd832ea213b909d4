-- ===== src/Configuration/Tests.antt =====
-- The settings of quelay-agent/src/config.rs on concrete texts.
use quelay.Common.{
  ℕ, ◌+◌, ◌*◌, ◌-◌, ◌/◌, ◌≡◌, refl, Bool, true, false, ◌&&◌, Option, none, some, List, [], ◌∷◌,
  ◌++◌, map, All, leb, ◌==◌, arith, if◌then◌else◌,
}
use quelay.Common.Int.{ℤ, pos, negsuc}
use quelay.RateLimiter.Registry.{new}
use quelay.Service.Config.{IsI32, InRange}
use quelay.Configuration.{
  F64, Config, ok, parse_bandwidth, validate, runtime_config, bps, multiplier, to_lower, text_eq,
  is_alphabetic, is_upper, is_whitespace,
}
use quelay.Configuration.Bandwidth.{IsNumberText, parse_bandwidth-spelling}
use quelay.Configuration.Trim.{Blank, Letters}
use quelay.Configuration.Startup.{set_chunk_sizes, tiny_cap_panics, chunk_size_always_InRange}

-- Numbers in thousandths, with three digits behind the point or none.
abbrev digits : ℕ → List ℕ → Option ℕ
digits n [] = some (n * 1000)
digits n (c ∷ s) =
    let whole = digits (n * 10 + (c - 48)) s in
    let rest = fraction n s in
    if c == 46 then rest else if leb 48 c && leb c 57 then whole else none
  where
    fraction : ℕ → List ℕ → Option ℕ
    fraction n (a ∷ b ∷ c ∷ []) = some (n * 1000 + (a - 48) * 100 + (b - 48) * 10 + (c - 48))
    fraction n s = none

abbrev thousandths : F64
thousandths = record {
  Float = ℕ;
  parse = λ s. digits 0 s;
  is_zero = λ x. x == 0;
  times = λ x m. x * m;
  as_u64 = λ x. x / 1000;
}

-- "0.001" and "5"
abbrev tiny : List ℕ
tiny = 48 ∷ 46 ∷ 48 ∷ 48 ∷ 49 ∷ []

abbrev five : List ℕ
five = 53 ∷ []

tiny-IsNumberText : IsNumberText tiny
unfolding is_alphabetic is_whitespace is_upper
tiny-IsNumberText = record {
  no_letters = (refl, (refl, (refl, (refl, (refl, tt)))));
  front = 48 ∷ [];
  after = 46 ∷ 48 ∷ 48 ∷ 49 ∷ [];
  begins = refl;
  front_solid = (refl, tt);
  front_there = λ e. cc;
  before = 48 ∷ 46 ∷ 48 ∷ 48 ∷ [];
  back = 49 ∷ [];
  stops = refl;
  back_solid = (refl, tt);
  back_there = λ e. cc;
}

five-IsNumberText : IsNumberText five
unfolding is_alphabetic is_whitespace is_upper
five-IsNumberText = record {
  no_letters = (refl, tt);
  front = five;
  after = [];
  begins = refl;
  front_solid = (refl, tt);
  front_there = λ e. cc;
  before = [];
  back = five;
  stops = refl;
  back_solid = (refl, tt);
  back_there = λ e. cc;
}

-- "kbps" and "MBPS"
abbrev kbps : List ℕ
kbps = bps b'k'

abbrev loud_mbps : List ℕ
loud_mbps = b'M' ∷ b'B' ∷ b'P' ∷ b'S' ∷ []

kbps-Letters : Letters kbps
unfolding is_alphabetic is_upper
kbps-Letters = (refl, (refl, (refl, (refl, tt))))

loud_mbps-Letters : Letters loud_mbps
unfolding is_alphabetic is_upper
loud_mbps-Letters = (refl, (refl, (refl, (refl, tt))))

space : Blank (32 ∷ [])
unfolding is_whitespace
space = (refl, tt)

-- " 5 MBPS" is "5mbps".
parse_bandwidth-spelling_example :
    parse_bandwidth thousandths ((32 ∷ []) ++ ((five ++ ((32 ∷ []) ++ loud_mbps)) ++ []))
    ≡ parse_bandwidth thousandths (five ++ map to_lower loud_mbps)
parse_bandwidth-spelling_example =
    parse_bandwidth-spelling thousandths (32 ∷ []) five (32 ∷ []) loud_mbps [] space
      five-IsNumberText space loud_mbps-Letters (λ e. cc) tt

kilo : multiplier (map to_lower kbps) ≡ some 1000
unfolding multiplier text_eq to_lower is_upper
kilo = refl

tiny_cap_panics_example :
    (n : ℕ) × (parse_bandwidth thousandths (tiny ++ kbps) ≡ ok n)
    × (new {Session = ℕ} (some n) 0 ≡ none)
tiny_cap_panics_example =
    tiny_cap_panics thousandths tiny kbps 1 1000 0 tiny-IsNumberText kbps-Letters (λ e. cc) refl
      kilo refl (omega arith)

abbrev config : Config
config = record {
  bw_cap_bps = some 8000000;
  chunk_size_bytes = 1024;
  spool_capacity_bytes = 1048576;
  max_concurrent = 4;
  max_pending = 100;
}

config_is_valid : validate config ≡ none
unfolding validate
config_is_valid = refl

-- 0, -1 and 512, the last with the lock poisoned.
abbrev requests : List (Bool × ℤ)
requests = (false, pos 0) ∷ (false, negsuc 0) ∷ (true, pos 512) ∷ []

requests-IsI32 : All (λ (p, n). IsI32 n) requests
requests-IsI32 = (
  record { above = omega arith; below = omega arith },
  (
    record { above = omega arith; below = omega arith },
    (record { above = omega arith; below = omega arith }, tt),
  ),
)

chunk_size_always_InRange_example : InRange (set_chunk_sizes requests (runtime_config config))
chunk_size_always_InRange_example =
    chunk_size_always_InRange config requests config_is_valid requests-IsI32
