-- ===== src/Prelude/Words.antt =====
-- `u64` arithmetic of a build without overflow checks: every operation wraps at 2 ^ 64.
use Prim.Native.Nat.{ℕ, suc, ◌+◌, ◌-◌, ◌*◌, ◌%◌, ◌^◌, ◌≤◌}
use mathlib.Core.Path.{◌≡◌}
use native.Mathlib.Nat.{pow-suc, one-le-pow, pow-le-pow_right}
use native.Mathlib.Omega.{arith}

abbrev pub u64_mod : ℕ
u64_mod = 2 ^ 64

-- `a + b`, `a - b`, `a * b` and `1 << k` on `u64`.
abbrev pub add_u64 : ℕ → ℕ → ℕ
add_u64 a b = (a + b) % u64_mod

abbrev pub sub_u64 : ℕ → ℕ → ℕ
sub_u64 a b = (a + u64_mod - b) % u64_mod

abbrev pub mul_u64 : ℕ → ℕ → ℕ
mul_u64 a b = a * b % u64_mod

abbrev pub pow_u64 : ℕ → ℕ
pow_u64 k = 2 ^ k % u64_mod

-- The facts on powers of two that `omega` has no rule for.
pub two_pow-suc : (k : ℕ) → 2 ^ suc k ≡ 2 * 2 ^ k
two_pow-suc k = omega (arith, pow-suc 2 k)

pub one-le-two_pow : (k : ℕ) → 1 ≤ 2 ^ k
one-le-two_pow k = one-le-pow k 2 (omega arith)

pub two_pow_mono : (j k : ℕ) → j ≤ k → 2 ^ j ≤ 2 ^ k
two_pow_mono j k h = pow-le-pow_right (omega arith) h

-- At a height of 62 or less every node index of the tree, and the bound above it, fits a `u64`.
pub two_pow-le : (k : ℕ) → k ≤ 62 → 2 ^ k ≤ 2 ^ 62
two_pow-le k h = two_pow_mono k 62 h

pub ruleset powers = (arith, two_pow-suc, one-le-two_pow)
