-- ===== src/SizeClass/Fit.antt =====
-- `ipbucket_index` of utils/ipbucket.h: which buckets hold a block that is large enough.
use olivehc.Prelude.{
  ℕ, suc, ◌+◌, ◌*◌, ◌^◌, ◌≤◌, ◌<◌, ◌≡◌, arith, pow2_suc, pow2_mono, mul_mono_right, true, false, ap,
  some, ◌↔◌, Bool,
}
use native.Mathlib.Nat.{div-add-mod'}
use native.Mathlib.Decide.{dec_lt}
use olivehc.SizeClass.{ipb_buckets, ipbucket_block_size, ipbucket_index, small_index, large_index}
use olivehc.SizeClass.Levels.{
  Quarter, quarter-Quarter, step_bits, partial_step, large_index_up, large_index_down,
}
use olivehc.SizeClass.Rounding.{block_size_small, block_size_large, block_size_bounds, four_steps}

module _ {n b k q j r : ℕ} (t : ℕ) (s : Quarter n k q) (d : Quarter b j r) (one : t ≤ 1) where
  steps_lt : k < j → (q + t) * 2 ^ k ≤ b
  steps_lt h = omega (
    arith,
    mul_mono_right (2 ^ k) (q + t) 8 (omega (arith, s.high)),
    pow2_suc k,
    pow2_mono (suc k) j h,
    four_steps d,
  )

  steps_gt : j < k → b < (q + t) * 2 ^ k
  steps_gt h = omega (
    arith,
    mul_mono_right (2 ^ k) 4 (q + t) (omega (arith, s.low)),
    mul_mono_right (2 ^ j) (r + 1) 8 (omega (arith, d.high)),
    pow2_suc j,
    pow2_mono (suc j) k h,
    d.below,
  )

  steps_eq : k ≡ j → (q + t ≤ r) ↔ ((q + t) * 2 ^ k ≤ b)
  steps_eq e =
      let p : 2 ^ k ≡ 2 ^ j = ap (λ x. 2 ^ x) e in
      (
        λ h. omega (arith, mul_mono_right (2 ^ k) (q + t) r h, d.above, ap (λ x. r * x) p),
        λ h. elim (dec_lt r (q + t)) [
          | yes u ↦ absurd (
              omega (
                arith,
                mul_mono_right (2 ^ k) (r + 1) (q + t) (omega (arith, u)),
                d.below,
                ap (λ x. (r + 1) * x) p,
              ))
          | no u ↦ omega arith
        ],
      )

  -- Bucket numbers compare as the bounds of the quarter-steps do.
  pub steps_compare : (4 * k + q + t ≤ 4 * j + r) ↔ ((q + t) * 2 ^ k ≤ b)
  steps_compare = elim (dec_lt k j) [
    | yes h ↦ (λ _. steps_lt h, λ _. omega (arith, s.high, d.low))
    | no h ↦ elim (dec_lt j k) [
      | yes g ↦
          (λ u. absurd (omega (arith, s.low, d.high)), λ u. absurd (omega (arith, steps_gt g)))
      | no g ↦
          let e : k ≡ j = omega arith in
          (λ u. (steps_eq e).0 (omega arith), λ u. omega (arith, (steps_eq e).1 u))
    ]
  ]

-- Both sizes above 2048.
large_fits :
    (n b : ℕ)
    → 2048 < n
    → n ≤ 2 ^ 63
    → 2048 < b
    → b < 2 ^ 64
    → (large_index n true ≤ large_index b false) ↔ (ipbucket_block_size n ≤ b)
large_fits n b p h u v =
    let s = quarter-Quarter n (omega arith) (omega arith) in
    let d = quarter-Quarter b (omega arith) v in
    let c = steps_compare (partial_step n) s d (ground arith) in
    rw (block_size_large n p h) (
      λ e. c.0 (omega (arith, large_index_up n, large_index_down b)),
      λ e. omega (arith, c.1 e, large_index_up n, large_index_down b),
    )

-- A large size is filed from bucket 3 on, and searched from bucket 4 on.
large_index_ge :
    (n : ℕ) → 2048 < n → n ≤ 2 ^ 63 → (3 ≤ large_index n false) × (4 ≤ large_index n true)
large_index_ge n p h =
    let s = quarter-Quarter n (omega arith) (omega arith) in
    let k = step_bits n in
    let e : k ≡ 9 → 2 ^ k ≡ 512 = λ u. ap (λ x. 2 ^ x) u in
    (omega (arith, large_index_down n), ground (arith, large_index_up n, e, div-add-mod' n (2 ^ k)))

large_index_le : (n : ℕ) → 2048 < n → n ≤ 2 ^ 32 → large_index n true ≤ 87
large_index_le n p h =
    let s = quarter-Quarter n (omega arith) (omega arith) in
    let k = step_bits n in
    let e : k ≡ 30 → 2 ^ k ≡ 2 ^ 30 = λ u. ap (λ x. 2 ^ x) u in
    let narrow : k ≤ 30 = elim (dec_lt 30 k) [
      | yes u ↦ absurd (omega (arith, pow2_mono 31 k u, four_steps s))
      | no u ↦ omega arith
    ] in
    elim (dec_lt k 30) [
      | yes u ↦ ground (arith, large_index_up n)
      | no u ↦ ground (arith, large_index_up n, e, div-add-mod' n (2 ^ k))
    ]

index_small : (n : ℕ) (up : Bool) → n ≤ 2048 → ipbucket_index n up ≡ some (small_index n up)
unfolding ipbucket_index
index_small n up h = ground arith

index_large :
    (n : ℕ) (up : Bool) → 2048 < n → n ≤ 2 ^ 32 → ipbucket_index n up ≡ some (large_index n up)
unfolding ipbucket_index
index_large n up p h = ground arith

index_huge : (n : ℕ) → 2 ^ 32 < n → ipbucket_index n false ≡ some 88
unfolding ipbucket_index
index_huge n h = ground arith

small_index_le : (n : ℕ) (up : Bool) → n ≤ 2048 → small_index n up ≤ 3
unfolding small_index
small_index_le n true h = ground arith
small_index_le n false h = ground arith

small_fits :
    (n b : ℕ)
    → n ≤ 2048
    → 512 ≤ b
    → b ≤ 2048
    → (small_index n true ≤ small_index b false) ↔ (ipbucket_block_size n ≤ b)
unfolding small_index
small_fits n b h u v = ground (arith, block_size_small n h)

-- The sizes that a search accepts go to a bucket, from 0 to 87.
pub index_up_total : (n : ℕ) → n ≤ 2 ^ 32 → (i : ℕ) × (ipbucket_index n true ≡ some i) × (i ≤ 87)
index_up_total n h = elim (dec_lt 2048 n) [
  | yes p ↦ (large_index n true, index_large n true p h, large_index_le n p h)
  | no p ↦ (
    small_index n true,
    index_small n true (omega arith),
    omega (arith, small_index_le n true (omega arith)),
  )
]

-- The largest size stays within its own power of two.
block_size_le : (n : ℕ) → 2048 < n → n ≤ 2 ^ 32 → ipbucket_block_size n ≤ 2 ^ 32
block_size_le n p h =
    let s = quarter-Quarter n (omega arith) (omega arith) in
    let d : Quarter (2 ^ 32) 30 4 = record {
      wide = omega arith;
      low = omega arith;
      high = omega arith;
      above = omega arith;
      below = omega arith;
    } in
    let c = steps_compare (partial_step n) s d (ground arith) in
    rw (block_size_large n p (omega arith))
      (c.0 (omega (arith, large_index_up n, large_index_le n p h)))

-- `i` and `j` are the buckets of `n` and `b` in the three ranges of each.
fits_small :
    (n b i j : ℕ)
    → n ≤ 2048
    → 512 ≤ b
    → b < 2 ^ 63
    → i ≡ small_index n true
    → ipbucket_index b false ≡ some j
    → (i ≤ j) ↔ (ipbucket_block_size n ≤ b)
fits_small n b i j h u v p q =
    let lo = small_index_le n true h in
    elim (dec_lt 2048 b) [
      | yes bl ↦
          let three : 3 ≤ j = elim (dec_lt (2 ^ 32) b) [
            | yes bh ↦ ground (arith, index_huge b bh)
            | no bh ↦ ground (arith, index_large b false bl, large_index_ge b bl)
          ] in
          (λ _. omega (arith, block_size_small n h), λ _. omega arith)
      | no bl ↦ ground (arith, index_small b false, small_fits n b h u)
    ]

fits_large :
    (n b i j : ℕ)
    → 2048 < n
    → n ≤ 2 ^ 32
    → 512 ≤ b
    → b < 2 ^ 63
    → i ≡ large_index n true
    → ipbucket_index b false ≡ some j
    → (i ≤ j) ↔ (ipbucket_block_size n ≤ b)
fits_large n b i j l h u v p q =
    let lo = large_index_ge n l (omega arith) in
    let hi = large_index_le n l h in
    elim (dec_lt (2 ^ 32) b) [
      | yes bh ↦
          let e : j ≡ 88 = ground (arith, index_huge b bh) in
          (λ _. omega (arith, block_size_le n l h), λ _. omega arith)
      | no bh ↦ elim (dec_lt 2048 b) [
        | yes bl ↦
            let e : j ≡ large_index b false = ground (arith, index_large b false bl) in
            rw (p, e) (large_fits n b l (omega arith) bl (omega arith))
        | no bl ↦
            let e : j ≤ 3 = ground (arith, index_small b false, small_index_le b false) in
            (
              λ w. absurd (omega arith),
              λ w. absurd (omega (arith, (block_size_bounds n (omega arith)).0)),
            )
      ]
    ]

-- For a request of at most 2 ^ 32 bytes and a block of 512 bytes up to 2 ^ 63, the bucket where
-- the search starts is at most the bucket where the block is filed exactly when the block is at
-- least the rounded request.
pub index_fits :
    (n b i j : ℕ)
    → n ≤ 2 ^ 32
    → 512 ≤ b
    → b < 2 ^ 63
    → ipbucket_index n true ≡ some i
    → ipbucket_index b false ≡ some j
    → (i ≤ j) ↔ (ipbucket_block_size n ≤ b)
index_fits n b i j h u v p q = elim (dec_lt 2048 n) [
  | yes l ↦ fits_large n b i j l h u v (ground (arith, index_large n true l h)) q
  | no l ↦ fits_small n b i j (omega arith) u v (ground (arith, index_small n true)) q
]

-- A block is always filed in one of the buckets.
pub index_down_total : (b : ℕ) → (j : ℕ) × (ipbucket_index b false ≡ some j) × (j < ipb_buckets)
index_down_total b = elim (dec_lt (2 ^ 32) b) [
  | yes bh ↦ (88, index_huge b bh, omega arith)
  | no bh ↦ elim (dec_lt 2048 b) [
    | yes bl ↦ (
      large_index b false,
      index_large b false bl (omega arith),
      omega (
        arith,
        large_index_le b bl (omega arith),
        large_index_up b (omega arith) (omega arith),
        large_index_down b (omega arith) (omega arith),
      ),
    )
    | no bl ↦ (
      small_index b false,
      index_small b false (omega arith),
      omega (arith, small_index_le b false (omega arith)),
    )
  ]
]
