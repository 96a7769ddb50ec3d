-- ===== src/Prelude/Bits.antt =====
-- A mask of `k` ones keeps the remainder by 2 ^ k, as in `x & (2 ^ k - 1)`.
use Prim.Native.Nat.{
  ℕ, zero, suc, ◌+◌, ◌-◌, ◌*◌, ◌/◌, ◌%◌, ◌^◌, ◌≤◌, ◌<◌, min, bit_and, digits, bit_and-bitwise,
}
use mathlib.Core.Path.{◌≡◌, refl, ap, ◌∙◌}
use native.Mathlib.Nat.{mod-lt, div-add-mod', add-mul-mod_self_right, mod-eq_of_lt}
use native.Mathlib.Omega.{arith}
use olivehc.Prelude.Powers.{pow2_suc, pow2_pos}

-- The remainder by the next power of two has one more binary digit.
mod_suc : (k a : ℕ) → a % 2 ^ suc k ≡ a / 2 % 2 ^ k * 2 + a % 2
mod_suc k a =
    let r = a / 2 % 2 ^ k * 2 + a % 2 in
    let q = a / 2 / 2 ^ k in
    let small : r < 2 ^ suc k = omega (arith, pow2_suc k, mod-lt (a / 2) (pow2_pos k)) in
    let split : a ≡ r + q * 2 ^ suc k =
      omega (arith, div-add-mod' (a / 2) (2 ^ k), ap (λ t. q * t) (pow2_suc k)) in
    ap (λ t. t % 2 ^ suc k) split ∙ add-mul-mod_self_right r q (2 ^ suc k) ∙ mod-eq_of_lt small

-- The digits that a mask keeps, counted down from any `n` that is enough for the number.
masked_digits : (n k a m : ℕ) → a ≤ n → m ≡ 2 ^ k - 1 → digits (λ _. zero) min n a m ≡ a % 2 ^ k
masked_digits zero k zero m h e = omega (arith, mod-eq_of_lt (pow2_pos k))
masked_digits zero k (suc a) m h e = absurd (omega arith)
masked_digits (suc n) k zero m h e = omega (arith, mod-eq_of_lt (pow2_pos k))
masked_digits (suc n) zero (suc a) m h e =
    omega (arith, masked_digits n zero (suc a / 2) (m / 2) (omega arith) (omega arith))
masked_digits (suc n) (suc k) (suc a) m h e =
    let ones : m / 2 ≡ 2 ^ k - 1 = omega (arith, pow2_suc k, pow2_pos k) in
    omega (
      arith,
      masked_digits n k (suc a / 2) (m / 2) (omega arith) ones,
      mod_suc k (suc a),
      pow2_suc k,
      pow2_pos k,
    )

pub bit_and-mask : (k a : ℕ) → bit_and a (2 ^ k - 1) ≡ a % 2 ^ k
bit_and-mask k a =
    bit_and-bitwise a (2 ^ k - 1) ∙ masked_digits a k a (2 ^ k - 1) (omega arith) refl
