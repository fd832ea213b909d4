-- ===== src/Bytes.antt =====
-- Big-endian words (`to_be_bytes`, `from_be_bytes`), and what quelay-agent/src/framing.rs uses of
-- tokio's byte streams and of serde_json, as interfaces with the documented laws.
use quelay.Common.{
  ℕ, ◌+◌, ◌*◌, ◌/◌, ◌%◌, ◌^◌, ◌<◌, ◌≡◌, List, [], ◌∷◌, ◌++◌, Option, some, length, arith,
}

unfoldable pub u16_to_be : ℕ → List ℕ
u16_to_be n = (n / 2 ^ 8 % 256) ∷ (n % 256) ∷ []

unfoldable pub u32_to_be : ℕ → List ℕ
u32_to_be n = (n / 2 ^ 24 % 256) ∷ (n / 2 ^ 16 % 256) ∷ (n / 2 ^ 8 % 256) ∷ (n % 256) ∷ []

unfoldable pub u64_to_be : ℕ → List ℕ
u64_to_be n =
    (n / 2 ^ 56 % 256)
    ∷ (n / 2 ^ 48 % 256)
    ∷ (n / 2 ^ 40 % 256)
    ∷ (n / 2 ^ 32 % 256)
    ∷ (n / 2 ^ 24 % 256)
    ∷ (n / 2 ^ 16 % 256)
    ∷ (n / 2 ^ 8 % 256)
    ∷ (n % 256)
    ∷ []

-- The value of big-endian bytes, after the bytes whose value is `acc`.
unfoldable pub from_be_after : ℕ → List ℕ → ℕ
from_be_after acc [] = acc
from_be_after acc (b ∷ bs) = from_be_after (acc * 256 + b) bs

abbrev pub from_be : List ℕ → ℕ
from_be bs = from_be_after 0 bs

pub from_be-u16 : (n : ℕ) → n < 2 ^ 16 → from_be (u16_to_be n) ≡ n
unfolding from_be_after u16_to_be
from_be-u16 n h = omega arith

pub from_be-u32 : (n : ℕ) → n < 2 ^ 32 → from_be (u32_to_be n) ≡ n
unfolding from_be_after u32_to_be
from_be-u32 n h = omega arith

pub from_be-u64 : (n : ℕ) → n < 2 ^ 64 → from_be (u64_to_be n) ≡ n
unfolding from_be_after u64_to_be
from_be-u64 n h = omega arith

-- A duplex byte stream. `none` is an I/O error; `read` of no byte is the end of the stream.
pub record ByteStream : Type 1 where
  pub Stream : Type 0
  pub write_all : Stream → List ℕ → Option Stream
  pub read_exact : Stream → ℕ → Option (List ℕ × Stream)
  pub read : Stream → ℕ → Option (List ℕ × Stream)
  -- What has been written, and what is still to be read before the end.
  pub sent : Stream → List ℕ
  pub Carries : Stream → List ℕ → Type 0
  -- A successful `write_all` writes all its bytes.
  pub write_all-sent :
      (s s' : Stream) (bs : List ℕ) → write_all s bs ≡ some s' → sent s' ≡ sent s ++ bs
  -- `read_exact` takes as many bytes as it is asked for.
  pub read_exact-takes :
      (s : Stream) (bs rest : List ℕ)
      → Carries s (bs ++ rest)
      → (s' : Stream) × (read_exact s (length bs) ≡ some (bs, s')) × Carries s' rest
  pub read-takes :
      (s : Stream) (b : ℕ) (rest : List ℕ)
      → Carries s (b ∷ rest)
      → (s' : Stream) × (read s 1 ≡ some (b ∷ [], s')) × Carries s' rest
  pub read-end : (s : Stream) → Carries s [] → (s' : Stream) × (read s 1 ≡ some ([], s'))
  pub read_exact-length :
      (s s' : Stream) (n : ℕ) (bs : List ℕ) → read_exact s n ≡ some (bs, s') → length bs ≡ n

-- `serde_json::to_vec` and `from_slice` at one type: what is written can be read back.
pub record Codec (A : Type 0) : Type 0 where
  pub to_vec : A → Option (List ℕ)
  pub from_slice : List ℕ → Option A
  pub from_slice-to_vec : (a : A) (bs : List ℕ) → to_vec a ≡ some bs → from_slice bs ≡ some a
