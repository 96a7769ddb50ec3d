-- ===== src/SizeClass/Tests.antt =====
-- Runs of the size classes of utils/ipbucket.h, and the theorems at sizes in bytes.
use olivehc.Prelude.{
  ℕ, ◌+◌, ◌*◌, ◌^◌, ◌≤◌, ◌<◌, ◌≡◌, ◌⊎◌, ◌↔◌, refl, true, false, some, none, arith,
}
use olivehc.SizeClass.{bit_highest, ipbucket_block_size, ipbucket_index}
use olivehc.SizeClass.Rounding.{block_size_bounds, block_size-sectors}
use olivehc.SizeClass.Fit.{index_fits}

-- 5000 is above 2 ^ 12, and is rounded to the next kibibyte.
rounded : (ipbucket_block_size 1 ≡ 512) × (ipbucket_block_size 5000 ≡ 5120)
unfolding ipbucket_block_size bit_highest
rounded = (refl, refl)

filed_and_searched :
    (ipbucket_index 5000 true ≡ some 8)
    × (ipbucket_index 5000 false ≡ some 7)
    × (ipbucket_index 5120 true ≡ some 8)
    × (ipbucket_index (2 ^ 32) true ≡ some 87)
    × (ipbucket_index (2 ^ 32 + 1) true ≡ none)
    × (ipbucket_index (2 ^ 32 + 1) false ≡ some 88)
unfolding ipbucket_index bit_highest
filed_and_searched = (refl, refl, refl, refl, refl, refl)

block_size_bounds_example :
    (5000 ≤ ipbucket_block_size 5000)
    × ((ipbucket_block_size 5000 < 5000 + 512) ⊎ (4 * ipbucket_block_size 5000 < 5 * 5000))
block_size_bounds_example = block_size_bounds 5000 (omega arith)

block_size-sectors_example : (c : ℕ) × (ipbucket_block_size 5000 ≡ c * 512)
block_size-sectors_example = block_size-sectors 5000 (omega arith)

-- A block of 6000 bytes stands in bucket 8, since 5120 ≤ 6000 < 6144.
index_fits_example : (8 ≤ 8) ↔ (ipbucket_block_size 5000 ≤ 6000)
unfolding ipbucket_index bit_highest
index_fits_example = index_fits 5000 6000 8 8 (omega arith) (omega arith) (omega arith) refl refl
