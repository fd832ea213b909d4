-- ===== src/Configuration.antt =====
-- quelay-agent/src/config.rs: the bandwidth cap of the command line and the validation, and how
-- quelay-agent/src/main.rs starts the agent with them. Texts are ASCII, a list of character codes.
pub mod Trim
pub mod Bandwidth
pub mod Startup
pub mod Tests
use mathlib.Core.List.{reverse}
use mathlib.Core.Option
use quelay.Common.{
  ℕ, zero, suc, ◌+◌, Bool, true, false, ◌&&◌, ◌||◌, Option, none, some, List, [], ◌∷◌, ◌++◌, map,
  position, take, drop, leb, ltb, ◌==◌, if◌then◌else◌,
}
use quelay.Service.{RuntimeConfig}

-- What the parser uses of `f64`; a product with a multiplier is rounded as the hardware does.
pub record F64 : Type 1 where
  pub Float : Type 0
  pub parse : List ℕ → Option Float
  pub is_zero : Float → Bool
  pub times : Float → ℕ → Float
  pub as_u64 : Float → ℕ

pub data BandwidthError : Type 0 where
  missing_unit invalid_number unknown_unit zero_bandwidth : BandwidthError

pub data Parsed : Type 0 where
  ok : ℕ → Parsed
  err : BandwidthError → Parsed

-- `char::is_whitespace`, `char::is_alphabetic` and `to_ascii_lowercase` of ASCII.
unfoldable pub is_whitespace : ℕ → Bool
is_whitespace c = (leb 9 c && leb c 13) || (c == 32)

unfoldable pub is_upper : ℕ → Bool
is_upper c = leb b'A' c && leb c b'Z'

unfoldable pub is_alphabetic : ℕ → Bool
unfolding is_upper
is_alphabetic c = is_upper c || (leb b'a' c && leb c b'z')

unfoldable pub to_lower : ℕ → ℕ
unfolding is_upper
to_lower c = if is_upper c then c + 32 else c

-- `str::trim`
unfoldable pub trim_start : List ℕ → List ℕ
unfolding is_whitespace
trim_start [] = []
trim_start (c ∷ s) = if is_whitespace c then trim_start s else c ∷ s

unfoldable pub trim : List ℕ → List ℕ
unfolding trim_start
trim s = reverse (trim_start (reverse (trim_start s)))

-- Comparison with a literal.
unfoldable pub text_eq : List ℕ → List ℕ → Bool
text_eq [] [] = true
text_eq [] (d ∷ t) = false
text_eq (c ∷ s) [] = false
text_eq (c ∷ s) (d ∷ t) = (c == d) && text_eq s t

abbrev pub bps : ℕ → List ℕ
bps c = c ∷ b'b' ∷ b'p' ∷ b's' ∷ []

-- The `match` on the unit in lower case.
unfoldable pub multiplier : List ℕ → Option ℕ
unfolding text_eq
multiplier unit =
    if text_eq unit (bps b'k')
    then some 1000
    else if text_eq unit (bps b'm')
    then some 1000000
    else if text_eq unit (bps b'g')
    then some 1000000000
    else none

module _ (f : F64) where
  open f use {Float, parse, is_zero, times, as_u64}

  -- Behind the split into number and unit.
  unfoldable pub read_value : List ℕ → List ℕ → Parsed
  unfolding multiplier to_lower
  read_value num unit = elim (parse num) [
    | none ↦ err invalid_number
    | some value ↦ elim (multiplier (map to_lower unit)) [
      | none ↦ err unknown_unit
      | some m ↦ if is_zero value then err zero_bandwidth else ok (as_u64 (times value m))
    ]
  ]

  unfoldable pub parse_bandwidth : List ℕ → Parsed
  unfolding read_value trim is_alphabetic
  parse_bandwidth s =
      let s = trim s in
      elim (position is_alphabetic s) [
        | none ↦ err missing_unit
        | some pos ↦ read_value (trim (take pos s)) (trim (drop pos s))
      ]

-- The settings that the agent reads.
pub record Config : Type 0 where
  pub bw_cap_bps : Option ℕ
  pub chunk_size_bytes : ℕ
  pub spool_capacity_bytes : ℕ
  pub max_concurrent : ℕ
  pub max_pending : ℕ

pub data Invalid : Type 0 where
  bad_chunk_size bad_spool_capacity : Invalid

-- `none` is success.
unfoldable pub validate : Config → Option Invalid
validate c =
    if (c.chunk_size_bytes == 0) || ltb 65535 c.chunk_size_bytes
    then some bad_chunk_size
    else if c.spool_capacity_bytes == 0
    then some bad_spool_capacity
    else none

-- `RuntimeConfig::new` in `main`.
unfoldable pub runtime_config : Config → RuntimeConfig
runtime_config c = record {
  bw_cap_bps = Option.get_or c.bw_cap_bps 0;
  chunk_size_bytes = c.chunk_size_bytes;
  max_concurrent = c.max_concurrent;
}

-- The limit in `SessionManager::new`.
unfoldable startup_limit : Config → Option ℕ
startup_limit c = if c.max_concurrent == 0 then none else some c.max_concurrent
