-- ===== src/Hash/Finish.antt =====
-- An expansion of utils/hash.c ends: each operation splits one bucket, and the last split frees
-- the previous table.
use olivehc.Prelude.{
  ℕ, zero, suc, ◌+◌, ◌/◌, ◌<◌, ◌≡◌, ◌≢◌, Bool, none, some, List, [], set, arith, subst, sym, ap,
}
use olivehc.Hash.{Hash, Bucket, double, split_bucket, hash_expansion}

-- `hash_expansion` run `n` times, as that many calls of `hash_get` run it.
unfoldable pub expansions : ℕ → Bool → Hash → Hash
expansions zero mem h = h
expansions (suc n) mem h = expansions n mem (hash_expansion mem h)

-- While a table is being split, memory plays no part.
split_step :
    (mem : Bool) (h : Hash) (pb : List Bucket)
    → h.prev_buckets ≡ some pb
    → hash_expansion mem h ≡ split_bucket h
unfolding hash_expansion double
split_step mem h pb e = ground arith

split_last :
    (h : Hash) (pb : List Bucket)
    → h.prev_buckets ≡ some pb
    → h.split + 1 ≡ h.bucket_size / 2
    → (split_bucket h).prev_buckets ≡ none
unfolding split_bucket
split_last h pb e l = ground arith

split_next :
    (h : Hash) (pb : List Bucket)
    → h.prev_buckets ≡ some pb
    → h.split + 1 ≢ h.bucket_size / 2
    → ((split_bucket h).prev_buckets ≡ some (set pb h.split []))
      × ((split_bucket h).split ≡ h.split + 1)
      × ((split_bucket h).bucket_size ≡ h.bucket_size)
unfolding split_bucket
split_next h pb e l = ground arith

-- A table with a previous table of which `n` buckets are still to be split, `n` not 0, has no
-- previous table after `n` steps of the expansion.
pub expansions-finish :
    (n : ℕ) (mem : Bool) (h : Hash) (pb : List Bucket)
    → h.prev_buckets ≡ some pb
    → h.split + n ≡ h.bucket_size / 2
    → 0 < n
    → (expansions n mem h).prev_buckets ≡ none
unfolding expansions
expansions-finish zero mem h pb e l p = absurd (omega arith)
expansions-finish (suc zero) mem h pb e l p =
    rw (split_step mem h pb e, expansions) (split_last h pb e (omega arith))
expansions-finish (suc (suc n)) mem h pb e l p =
    let (f, s, z) = split_next h pb e (omega arith) in
    subst (λ t. (expansions (suc n) mem t).prev_buckets ≡ none) (sym (split_step mem h pb e))
      (expansions-finish (suc n) mem (split_bucket h) (set pb h.split []) f
        (omega (arith, ap (λ t. t / 2) z)) (omega arith))
