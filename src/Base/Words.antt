-- ===== src/Base/Words.antt =====
-- `uint64_t` addition and subtraction.
use Prim.Native.Nat.{ℕ, ◌+◌, ◌-◌, ◌%◌, ◌^◌, ◌≤◌, ◌<◌}
use mathlib.Core.Path.{◌≡◌}
use native.Mathlib.Omega.{arith}

unfoldable pub add64 : ℕ → ℕ → ℕ
add64 a b = (a + b) % 2 ^ 64

unfoldable pub sub64 : ℕ → ℕ → ℕ
sub64 a b = (a + 2 ^ 64 - b) % 2 ^ 64

pub add64_exact : (a b : ℕ) → a + b < 2 ^ 64 → add64 a b ≡ a + b
unfolding add64
add64_exact a b h = omega arith

pub sub64_exact : (a b : ℕ) → a < 2 ^ 64 → b ≤ a → sub64 a b ≡ a - b
unfolding sub64
sub64_exact a b h k = omega arith

-- A subtraction undoes the addition, wrapping or not.
pub sub64-add64 : (a b : ℕ) → a < 2 ^ 64 → b < 2 ^ 64 → sub64 (add64 a b) b ≡ a
unfolding add64 sub64
sub64-add64 a b h k = omega arith
