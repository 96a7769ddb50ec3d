-- ===== src/Prelude/Powers.antt =====
-- Powers of two with a variable exponent, which `omega` takes for unknowns.
use Prim.Native.Nat.{ℕ, zero, suc, ◌*◌, ◌^◌, ◌≤◌, ◌<◌}
use mathlib.Core.Path.{◌≡◌}
use native.Mathlib.Nat.{pow-suc, pow-le-pow_right}
use native.Mathlib.Omega.{arith}

pub pow2_suc : (k : ℕ) → 2 ^ suc k ≡ 2 * 2 ^ k
pow2_suc k = omega (arith, pow-suc 2 k)

pub pow2_pos : (k : ℕ) → 0 < 2 ^ k
pow2_pos zero = omega arith
pow2_pos (suc k) = omega (arith, pow2_suc k, pow2_pos k)

pub pow2_mono : (j k : ℕ) → j ≤ k → 2 ^ j ≤ 2 ^ k
pow2_mono j k h = pow-le-pow_right (omega arith) h

pub mul_mono_right : (p x y : ℕ) → x ≤ y → x * p ≤ y * p
mul_mono_right p x y h = grind arith
