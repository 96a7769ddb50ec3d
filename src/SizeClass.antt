-- ===== src/SizeClass.antt =====
-- The size classes of utils/ipbucket.h (`ipbucket_block_size` and `ipbucket_index`), with
-- `bit_highest` of utils/string.h. A `size_t` is a number below 2 ^ 64.
pub mod Levels
pub mod Rounding
pub mod Fit
mod Tests
use olivehc.Prelude.{
  ℕ, zero, suc, ◌+◌, ◌-◌, ◌*◌, ◌/◌, ◌%◌, ◌^◌, Bool, true, false, Option, none, some, leb, ltb, ◌==◌,
  if◌then◌else◌,
}

-- The index of the highest set bit, found by halving: what `bsrq` computes on a number that is
-- not 0. The fuel of 64 halvings exhausts a 64-bit word.
highest_bit : ℕ → ℕ → ℕ
highest_bit zero n = 0
highest_bit (suc f) n = let rest = suc (highest_bit f (n / 2)) in if leb n 1 then 0 else rest

unfoldable pub bit_highest : ℕ → ℕ
unfolding highest_bit
bit_highest n = highest_bit 64 n

-- `bit_mask(num)`
abbrev pub bit_mask : ℕ → ℕ
bit_mask num = 2 ^ num - 1

-- `x & ~bit_mask(num)`
abbrev pub clear_low : ℕ → ℕ → ℕ
clear_low x num = x / 2 ^ num * 2 ^ num

abbrev pub ipb_begin : ℕ
ipb_begin = 9

abbrev pub ipb_end : ℕ
ipb_end = 32

abbrev pub ipb_buckets : ℕ
ipb_buckets = (ipb_end - ipb_begin) * 4 - 4 + 1

-- The constants `IPB_1ST` to `IPB_4TH`.
abbrev pub ipb_nth : ℕ → ℕ
ipb_nth k = 2 ^ ipb_begin * k

-- The exponent of the mask that `ipbucket_block_size` chooses.
abbrev pub mask_bits : ℕ → ℕ
mask_bits size = if leb size (ipb_nth 4) then ipb_begin else bit_highest size - 2

unfoldable pub ipbucket_block_size : ℕ → ℕ
ipbucket_block_size size = clear_low ((size + bit_mask (mask_bits size)) % 2 ^ 64) (mask_bits size)

-- The buckets of the sizes up to 4 * 512, when searching (`up`) and when filing.
unfoldable pub small_index : ℕ → Bool → ℕ
small_index size true =
    if leb size (ipb_nth 1)
    then 0
    else if leb size (ipb_nth 2)
    then 1
    else if leb size (ipb_nth 3)
    then 2
    else 3
small_index size false =
    if ltb size (ipb_nth 2)
    then 0
    else if ltb size (ipb_nth 3)
    then 1
    else if ltb size (ipb_nth 4)
    then 2
    else 3

-- The buckets above: four to a power of two.
unfoldable pub large_index : ℕ → Bool → ℕ
large_index size up =
    let first = bit_highest size in
    let index = (first - ipb_begin) * 4 - 5 in
    let subidx = size / 2 ^ (first - 2) % 4 in
    let tail = if up then (if size % 2 ^ (first - 2) == 0 then 0 else 1) else 0 in
    index + subidx + tail

-- `ipbucket_index`: `none` is the result -1.
unfoldable pub ipbucket_index : ℕ → Bool → Option ℕ
unfolding small_index large_index
ipbucket_index size up =
    if ltb (2 ^ ipb_end) size
    then (if up then none else some (ipb_buckets - 1))
    else if leb size (ipb_nth 4)
    then some (small_index size up)
    else some (large_index size up)
