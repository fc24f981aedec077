-- ===== src/Prelude/Machine.antt =====
-- `usize` and `u64` of a 64-bit target and `u32`, in a release build: sums and differences wrap.
use Prim.Native.Nat.{ℕ, ◌+◌, ◌-◌, ◌*◌, ◌%◌, ◌^◌, ◌≤◌, ◌<◌}
use mathlib.Core.Path.{◌≡◌}
use native.Mathlib.Omega.{arith}

abbrev pub word : ℕ
word = 2 ^ 64

unfoldable pub add_usize : ℕ → ℕ → ℕ
add_usize a b = (a + b) % 2 ^ 64

unfoldable pub sub_usize : ℕ → ℕ → ℕ
sub_usize a b = (a + 2 ^ 64 - b) % 2 ^ 64

unfoldable pub mul_u64 : ℕ → ℕ → ℕ
mul_u64 a b = a * b % 2 ^ 64

unfoldable pub add_u32 : ℕ → ℕ → ℕ
add_u32 a b = (a + b) % 2 ^ 32

pub add_usize-eq-add : (a b : ℕ) → a + b < word → add_usize a b ≡ a + b
unfolding add_usize
add_usize-eq-add a b h = omega arith

pub sub_usize-eq-sub : (a b : ℕ) → b ≤ a → a < word → sub_usize a b ≡ a - b
unfolding sub_usize
sub_usize-eq-sub a b h k = omega arith
