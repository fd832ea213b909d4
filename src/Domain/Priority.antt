-- ===== src/Domain/Priority.antt =====
-- quelay-domain/src/priority.rs: `Priority`, an `i8`.
use quelay.Common.{ℕ, ◌-◌, Bool, not, if◌then◌else◌}
use quelay.Common.Int.{ℤ, pos, negsuc, ◌≤ℤ◌, ltb_ℤ}

pub record Priority : Type 0 where
  pub value : ℤ

-- Values of the `i8`.
pub record IsI8 (p : Priority) : Type 0 where
  pub above : negsuc 127 ≤ℤ p.value
  pub below : p.value ≤ℤ pos 127

abbrev strict_min : ℤ
strict_min = pos 64

unfoldable pub from_i8 : ℤ → Priority
from_i8 v = record { value = v }

unfoldable as_i8 : Priority → ℤ
as_i8 p = p.value

-- `self.0 >= 64`
abbrev pub is_strict : Priority → Bool
is_strict p = not (ltb_ℤ p.value strict_min)

unfoldable pub initial_quantum : Priority → ℕ
initial_quantum p = if is_strict p then 65536 else 8192

abbrev bulk_quantum : ℕ
bulk_quantum = 8192

abbrev c2i_priority_min : Priority
c2i_priority_min = record { value = strict_min }

abbrev pub bulk_priority_min : Priority
bulk_priority_min = record { value = pos 0 }

-- The derived order `<`.
abbrev pub lt_priority : Priority → Priority → Bool
lt_priority p q = ltb_ℤ p.value q.value

-- `as u8` of the `i8`.
unfoldable as_u8 : Priority → ℕ
as_u8 p = elim p.value [ pos n ↦ n | negsuc n ↦ 255 - n ]

-- `p` may stand in front of `q` in a queue by descending priority.
abbrev pub GePriority : Priority → Priority → Type 0
GePriority p q = q.value ≤ℤ p.value
