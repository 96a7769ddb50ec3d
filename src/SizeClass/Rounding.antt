-- ===== src/SizeClass/Rounding.antt =====
-- `ipbucket_block_size` of utils/ipbucket.h: how far a size is rounded up.
use olivehc.Prelude.{
  ℕ, zero, suc, ◌+◌, ◌-◌, ◌*◌, ◌/◌, ◌%◌, ◌^◌, ◌≤◌, ◌<◌, ◌≡◌, arith, pow2_suc, pow2_pos, refl,
  pow2_mono, mul_mono_right, if◌then◌else◌, ◌==◌, ◌⊎◌, inl, ap,
}
use native.Mathlib.Nat.{
  le-div_iff_mul-le, div-lt_iff_lt-mul, div-add-mod', mod-lt, mod-eq_of_lt, mul-mod_left, add-zero,
}
use native.Mathlib.Decide.{dec_lt}
use olivehc.SizeClass.{mask_bits, bit_mask, ipbucket_block_size}
use olivehc.SizeClass.Levels.{Quarter, quarter-Quarter, step_bits, quarter, partial_step}

div_unique : (x d q : ℕ) → 0 < d → q * d ≤ x → x < q * d + d → x / d ≡ q
div_unique x d q p lo hi = omega (
  arith,
  (le-div_iff_mul-le {k = d} {x = q} {y = x} p).1 lo,
  (div-lt_iff_lt-mul {k = d} {x = x} {y = q + 1} p).1 (omega (arith, hi)),
)

pub four_steps : {n k q : ℕ} → Quarter n k q → 4 * 2 ^ k ≤ n
four_steps {n} {k} {q} w = grind (arith, w.low, w.above)

-- Rounding up to a multiple of `d`, in quotient form.
round_up : (n d : ℕ) → 0 < d → (n + (d - 1)) / d ≡ n / d + (if n % d == 0 then 0 else 1)
round_up n d p = elim (dec_lt 0 (n % d)) [
  | yes r ↦ ground (arith, div_unique (n + (d - 1)) d (n / d + 1) p, div-add-mod' n d, mod-lt n p)
  | no r ↦ ground (arith, div_unique (n + (d - 1)) d (n / d) p, div-add-mod' n d, mod-lt n p)
]

pub block_size_small : (n : ℕ) → n ≤ 2048 → ipbucket_block_size n ≡ (n + 511) / 512 * 512
unfolding ipbucket_block_size
block_size_small n h = ground arith

pub block_size_large :
    (n : ℕ)
    → 2048 < n
    → n ≤ 2 ^ 63
    → ipbucket_block_size n ≡ (quarter n + partial_step n) * 2 ^ step_bits n
unfolding ipbucket_block_size
block_size_large n p h =
    let k = step_bits n in
    let w = quarter-Quarter n (omega arith) (omega arith) in
    let e : mask_bits n ≡ k = ground arith in
    let pos = pow2_pos k in
    let f : n + bit_mask k < 2 ^ 64 = omega (arith, four_steps w) in
    rw (e, mod-eq_of_lt f, round_up n (2 ^ k) pos)

-- The rounded size of at most 2 ^ 63 bytes holds the size, and exceeds it by less than 512
-- bytes or by less than a quarter of it.
pub block_size_bounds :
    (n : ℕ)
    → n ≤ 2 ^ 63
    → (n ≤ ipbucket_block_size n)
      × ((ipbucket_block_size n < n + 512) ⊎ (4 * ipbucket_block_size n < 5 * n))
block_size_bounds n h = elim (dec_lt 2048 n) [
  | yes p ↦
      let w = quarter-Quarter n (omega arith) (omega arith) in
      ground (
        arith,
        block_size_large n p h,
        four_steps w,
        div-add-mod' n (2 ^ step_bits n),
        mod-lt n (pow2_pos (step_bits n)),
      )
  | no p ↦ (omega (arith, block_size_small n), inl (omega (arith, block_size_small n)))
]

Quarter-bits : {n k q j r : ℕ} → Quarter n k q → Quarter n j r → k ≤ j
Quarter-bits {n} {k} {q} {j} {r} s d = elim (dec_lt j k) [
  | yes h ↦ absurd (
      omega (
        arith,
        pow2_mono (suc j) k h,
        pow2_suc j,
        four_steps s,
        mul_mono_right (2 ^ j) (r + 1) 8 (omega (arith, d.high)),
        d.below,
      ))
  | no h ↦ omega arith
]

-- The number of bits of the quarter-step is the only one that fits.
step_bits_unique : {n k q : ℕ} → n < 2 ^ 64 → 2048 ≤ n → Quarter n k q → step_bits n ≡ k
step_bits_unique {n} {k} {q} h p s =
    let d = quarter-Quarter n p h in omega (arith, Quarter-bits s d, Quarter-bits d s)

-- A whole number of its own quarter-steps is not rounded.
whole_steps : (m : ℕ) → 2048 < m → m ≤ 2 ^ 63 → m % 2 ^ step_bits m ≡ 0 → ipbucket_block_size m ≡ m
whole_steps m p h e =
    rw (block_size_large m p h)
      (ground (arith, div-add-mod' m (2 ^ step_bits m), add-zero (quarter m)))

-- A whole number of quarter-steps of a size is one for the rounded size too, also where the
-- rounded size is the next power of two.
rounded_whole :
    {n k q : ℕ} (t : ℕ)
    → Quarter n k q
    → t ≤ 1
    → (q + t) * 2 ^ k ≤ 2 ^ 63
    → 2048 ≤ (q + t) * 2 ^ k
    → (q + t) * 2 ^ k % 2 ^ step_bits ((q + t) * 2 ^ k) ≡ 0
rounded_whole {n} {k} {q} t s one hi lo = elim (dec_lt (q + t) 8) [
  | yes u ↦
      let d : Quarter ((q + t) * 2 ^ k) k (q + t) = record {
        wide = s.wide;
        low = omega (arith, s.low);
        high = omega arith;
        above = omega arith;
        below = omega (arith, pow2_pos k);
      } in
      rw (step_bits_unique (omega arith) lo d) (mul-mod_left (q + t) (2 ^ k))
  | no u ↦
      let e : q + t ≡ 8 = omega (arith, s.high) in
      let eight : (q + t) * 2 ^ k ≡ 4 * 2 ^ suc k =
        omega (arith, ap (λ x. x * 2 ^ k) e, pow2_suc k) in
      let d : Quarter ((q + t) * 2 ^ k) (suc k) 4 = record {
        wide = omega (arith, s.wide);
        low = omega arith;
        high = omega arith;
        above = omega (arith, ap (λ x. x * 2 ^ k) e, pow2_suc k);
        below = omega (arith, ap (λ x. x * 2 ^ k) e, pow2_suc k, pow2_pos k);
      } in
      rw (step_bits_unique (omega arith) lo d, eight) (mul-mod_left 4 (2 ^ suc k))
]

-- A rounded size of at most 2 ^ 62 bytes is rounded to itself.
pub block_size-idempotent :
    (n : ℕ) → n ≤ 2 ^ 62 → ipbucket_block_size (ipbucket_block_size n) ≡ ipbucket_block_size n
block_size-idempotent n h = elim (dec_lt 2048 n) [
  | yes p ↦
      let b = block_size_bounds n (omega arith) in
      let s = quarter-Quarter n (omega arith) (omega arith) in
      let e = block_size_large n p (omega arith) in
      whole_steps (ipbucket_block_size n) (omega (arith, b)) (omega (arith, b)) (
        rw e (
          rounded_whole (partial_step n) s (ground arith) (omega (arith, e, b))
            (omega (arith, e, b))))
  | no p ↦
      let e = block_size_small n (omega arith) in
      omega (arith, e, block_size_small (ipbucket_block_size n) (omega (arith, e)))
]

pow2_blocks : (j : ℕ) → (c : ℕ) × (2 ^ (9 + j) ≡ c * 512)
pow2_blocks zero = (1, refl)
pow2_blocks (suc j) =
    let (c, e) = pow2_blocks j in
    (2 * c, omega (arith, pow2_suc (9 + j), ap (λ t. 2 ^ t) (add_suc j)))
  where
    add_suc : (j : ℕ) → 9 + suc j ≡ suc (9 + j)
    add_suc j = omega arith

-- A rounded size is a whole number of sectors of 512 bytes.
pub block_size-sectors : (n : ℕ) → n ≤ 2 ^ 63 → (c : ℕ) × (ipbucket_block_size n ≡ c * 512)
block_size-sectors n h = elim (dec_lt 2048 n) [
  | yes p ↦
      let k = step_bits n in
      let (c, e) = pow2_blocks (k - 9) in
      let s = quarter-Quarter n (omega arith) (omega arith) in
      let m = quarter n + partial_step n in
      let f : 9 + (k - 9) ≡ k = omega (arith, s.wide) in
      (m * c, omega (arith, block_size_large n p h, ap (λ t. m * 2 ^ t) f, ap (λ t. m * t) e))
  | no p ↦ ((n + 511) / 512, omega (arith, block_size_small n))
]
