-- ===== src/Prelude/Words.antt =====
-- Unsigned 64- and 32-bit words as plain numbers, with the wrap-around and the saturation written out.
use Prim.Native.Nat.{ℕ, ◌+◌, ◌-◌, ◌%◌, ◌^◌, ◌≤◌, min}
use mathlib.Core.Path.{◌≡◌}
use native.Mathlib.Omega.{arith}

abbrev pub u64_max : ℕ
u64_max = 2 ^ 64 - 1

abbrev pub u32_max : ℕ
u32_max = 2 ^ 32 - 1

-- `a + b` on `u64`.
unfoldable pub add_u64 : ℕ → ℕ → ℕ
add_u64 a b = (a + b) % 2 ^ 64

-- `a.saturating_add(b)` on `u64`; `saturating_sub` is `-` on ℕ.
unfoldable pub saturating_add : ℕ → ℕ → ℕ
saturating_add a b = min (a + b) u64_max

unfoldable pub saturating_add_u32 : ℕ → ℕ → ℕ
saturating_add_u32 a b = min (a + b) u32_max

pub add_u64-eq : (a b : ℕ) → a + b ≤ u64_max → add_u64 a b ≡ a + b
unfolding add_u64
add_u64-eq a b h = omega arith

pub saturating_add-eq : (a b : ℕ) → a + b ≤ u64_max → saturating_add a b ≡ a + b
unfolding saturating_add
saturating_add-eq a b h = omega arith
