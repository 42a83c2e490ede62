-- ===== src/Prelude/Words.antt =====
-- Unsigned machine words: the bounds, and saturating addition (`saturating_add`).
use Prim.Native.Nat.{ℕ, ◌+◌, ◌≤◌, min}
use mathlib.Core.Path.{◌≡◌}
use native.Mathlib.Omega.{arith}

abbrev pub u64_max : ℕ
u64_max = 18446744073709551615

abbrev pub u32_max : ℕ
u32_max = 4294967295

-- `a.saturating_add(b)` on `u64` (and on a 64-bit `usize`).
unfoldable pub sat_add : ℕ → ℕ → ℕ
sat_add a b = min (a + b) u64_max

-- `a.saturating_add(b)` on `u32`.
unfoldable pub sat_add32 : ℕ → ℕ → ℕ
sat_add32 a b = min (a + b) u32_max

pub sat_add-le : (a b : ℕ) → sat_add a b ≤ u64_max
unfolding sat_add
sat_add-le a b = omega arith

pub sat_add_assoc : (a b c : ℕ) → sat_add (sat_add a b) c ≡ sat_add a (sat_add b c)
unfolding sat_add
sat_add_assoc a b c = omega arith
