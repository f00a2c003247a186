-- ===== src/Base/Word.antt =====
-- ULONG, a 32-bit machine word: a native number below 2 ^ 32, with the wrap-around written out.
use Prim.Native.Nat.{ℕ, ◌+◌, ◌-◌, ◌%◌, ◌≤◌, ◌<◌}
use mathlib.Core.Path.{◌≡◌}
use native.Mathlib.Omega.{arith}

abbrev pub ulong_mod : ℕ
ulong_mod = 4294967296

abbrev pub ulong : ℕ → ℕ
ulong n = n % ulong_mod

-- `a + b` and `a - b` on ULONG.
unfoldable pub add32 : ℕ → ℕ → ℕ
add32 a b = (a + b) % ulong_mod

unfoldable pub sub32 : ℕ → ℕ → ℕ
sub32 a b = (a + (ulong_mod - b % ulong_mod)) % ulong_mod

pub add32-lt : (a b : ℕ) → add32 a b < ulong_mod
unfolding add32
add32-lt a b = omega arith

pub sub32-lt : (a b : ℕ) → sub32 a b < ulong_mod
unfolding sub32
sub32-lt a b = omega arith

pub sub32-add32 : (a b : ℕ) → a < ulong_mod → sub32 (add32 a b) b ≡ a
unfolding add32 sub32
sub32-add32 a b h = omega arith

-- Subtraction undoes what was added, whatever was lost by wrapping.
pub sub32-add : (a b : ℕ) → ulong (sub32 a b + b) ≡ ulong a
unfolding sub32
sub32-add a b = omega arith

pub sub32-exact : (a b : ℕ) → a < ulong_mod → b ≤ a → sub32 a b ≡ a - b
unfolding sub32
sub32-exact a b h k = omega arith
