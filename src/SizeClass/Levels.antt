-- ===== src/SizeClass/Levels.antt =====
-- The highest set bit of a number, and the quarter of its power of two in which a size lies:
-- `bit_highest` of utils/string.h as the large sizes of utils/ipbucket.h use it.
use olivehc.Prelude.{
  ℕ, zero, suc, ◌+◌, ◌-◌, ◌*◌, ◌/◌, ◌%◌, ◌^◌, ◌≤◌, ◌<◌, ◌≡◌, arith, pow2_suc, pow2_pos, pow2_mono,
  if◌then◌else◌, ◌==◌, true, false, ap,
}
use olivehc.SizeClass.{highest_bit, bit_highest, large_index}
use native.Mathlib.Decide.{dec_le}
use native.Mathlib.Nat.{le-div_iff_mul-le, div-lt_iff_lt-mul, div-mul-le_self, lt-div-mul-add}

highest_bit_bounds :
    (f n : ℕ) → 0 < n → n < 2 ^ f → (2 ^ highest_bit f n ≤ n) × (n < 2 * 2 ^ highest_bit f n)
unfolding highest_bit
highest_bit_bounds zero n p h = absurd (omega arith)
highest_bit_bounds (suc f) n p h =
    ground (arith, pow2_suc f, pow2_suc (highest_bit f (n / 2)), highest_bit_bounds f (n / 2))

-- `bit_highest` is the exponent of the largest power of two that the number reaches.
pub bit_highest_bounds :
    (n : ℕ) → 0 < n → n < 2 ^ 64 → (2 ^ bit_highest n ≤ n) × (n < 2 * 2 ^ bit_highest n)
unfolding bit_highest
bit_highest_bounds n p h = highest_bit_bounds 64 n p h

le-bit_highest : (j n : ℕ) → 2 ^ j ≤ n → n < 2 ^ 64 → j ≤ bit_highest n
le-bit_highest j n p h = elim (dec_le j (bit_highest n)) [
  | yes q ↦ q
  | no q ↦ absurd (
      omega (
        arith,
        pow2_mono (suc (bit_highest n)) j (omega arith),
        pow2_suc (bit_highest n),
        pow2_pos j,
        bit_highest_bounds n (omega (arith, pow2_pos j)) h,
      ))
]

-- The size lies in the `q`-th quarter-step of width 2 ^ k.
pub record Quarter (n k q : ℕ) : Type 0 where
  pub wide : 9 ≤ k
  pub low : 4 ≤ q
  pub high : q ≤ 7
  pub above : q * 2 ^ k ≤ n
  pub below : n < (q + 1) * 2 ^ k

abbrev pub step_bits : ℕ → ℕ
step_bits n = bit_highest n - 2

abbrev pub quarter : ℕ → ℕ
quarter n = n / 2 ^ step_bits n

pub quarter-Quarter : (n : ℕ) → 2048 ≤ n → n < 2 ^ 64 → Quarter n (step_bits n) (quarter n)
quarter-Quarter n p h =
    let k = step_bits n in
    let b : 11 ≤ bit_highest n = le-bit_highest 11 n p h in
    let e : bit_highest n ≡ suc (suc k) = omega arith in
    let f = bit_highest_bounds n (omega arith) h in
    let u : 4 * 2 ^ k ≤ n = omega (arith, f, ap (λ t. 2 ^ t) e, pow2_suc k, pow2_suc (suc k)) in
    let v : n < 8 * 2 ^ k = omega (arith, f, ap (λ t. 2 ^ t) e, pow2_suc k, pow2_suc (suc k)) in
    let pos = pow2_pos k in
    record {
      wide = omega arith;
      low = (le-div_iff_mul-le pos).1 u;
      high = omega (arith, (div-lt_iff_lt-mul {x = n} {y = 8} pos).1 v);
      above = div-mul-le_self n (2 ^ k);
      below = omega (arith, lt-div-mul-add {a = n} pos);
    }

-- The bucket number of a large size, filed under the bucket that its quarter-step begins.
pub large_index_down :
    (n : ℕ) → 2048 ≤ n → n < 2 ^ 64 → large_index n false + 37 ≡ 4 * step_bits n + quarter n
unfolding large_index
large_index_down n p h = omega (arith, quarter-Quarter n p h)

abbrev pub partial_step : ℕ → ℕ
partial_step n = if n % 2 ^ step_bits n == 0 then 0 else 1

-- A search starts one bucket higher, unless the size is a whole number of quarter-steps.
pub large_index_up :
    (n : ℕ)
    → 2048 ≤ n
    → n < 2 ^ 64
    → large_index n true + 37 ≡ 4 * step_bits n + quarter n + partial_step n
unfolding large_index
large_index_up n p h = omega (arith, quarter-Quarter n p h)
