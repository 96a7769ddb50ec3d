-- ===== src/Hash/Bucket.antt =====
-- The buckets of utils/hash.c: `hash_index` finds the one bucket that holds the nodes of an id.
use Prim.Native.Nat.{bit_xor}
use native.Mathlib.Nat.{mod-lt, div-add-mod', add-mul-mod_self_right, mod-eq_of_lt}
use native.Mathlib.Decide.{dec_lt}
use olivehc.Prelude.{
  ℕ, zero, suc, ◌+◌, ◌-◌, ◌*◌, ◌/◌, ◌%◌, ◌^◌, ◌<◌, ◌≡◌, Bool, true, List, [], ◌∷◌, set, get_or,
  replicate, leb, if◌then◌else◌, arith, All, count, count_all, bit_and-mask, pow2_pos, pow2_suc, ap,
  ◌∙◌, refl, Bool-cases, inl, inr,
}
use olivehc.Hash.{HashId, HashNode, Bucket, md5_equal, hash_index}

abbrev pub word : HashId → ℕ
word id = bit_xor id.low id.high

pub index_mod : (k : ℕ) (id : HashId) → hash_index (2 ^ k) id ≡ word id % 2 ^ k
unfolding hash_index
index_mod k id = bit_and-mask k (word id)

pub index-lt : (k : ℕ) (id : HashId) → hash_index (2 ^ k) id < 2 ^ k
index-lt k id = omega (arith, index_mod k id, mod-lt (word id) (pow2_pos k))

-- The index in the previous, half as large table is the index less the half, or the index.
pub index_half :
    (k : ℕ) (id : HashId)
    → let i = hash_index (2 ^ suc k) id in
      (if leb (2 ^ k) i then i - 2 ^ k else i) ≡ hash_index (2 ^ k) id
index_half k id =
    let x = word id in
    let r = x % 2 ^ suc k in
    let q = x / 2 ^ suc k in
    let split : x ≡ r + (2 * q) * 2 ^ k =
      omega (arith, div-add-mod' x (2 ^ suc k), ap (λ t. q * t) (pow2_suc k)) in
    let low : x % 2 ^ k ≡ r % 2 ^ k =
      ap (λ t. t % 2 ^ k) split ∙ add-mul-mod_self_right r (2 * q) (2 ^ k) in
    let l : r < 2 * 2 ^ k = omega (arith, mod-lt x (pow2_pos (suc k)), pow2_suc k) in
    elim (dec_lt r (2 ^ k)) [
      | yes h ↦ ground (arith, index_mod (suc k) id, index_mod k id, mod-eq_of_lt h)
      | no h ↦
          let s : r ≡ (r - 2 ^ k) + 1 * 2 ^ k = omega arith in
          let t : r % 2 ^ k ≡ (r - 2 ^ k) =
            ap (λ t. t % 2 ^ k) s
            ∙ add-mul-mod_self_right (r - 2 ^ k) 1 (2 ^ k)
            ∙ mod-eq_of_lt (omega arith) in
          ground (arith, index_mod (suc k) id, index_mod k id)
    ]

pub md5_equal-index :
    (size : ℕ) (a b : HashId) → md5_equal a b ≡ true → hash_index size a ≡ hash_index size b
unfolding hash_index
md5_equal-index size a b h =
    let l : a.low ≡ b.low = ground arith in let u : a.high ≡ b.high = ground arith in rw (l, u)

-- Every node of the buckets from `j` on stands in the bucket of its index.
abbrev pub PlacedFrom : ℕ → ℕ → List Bucket → Type 0
PlacedFrom size j [] = Unit {0}
PlacedFrom size j (q ∷ bs) =
    All (λ (n : HashNode). hash_index size n.id ≡ j) q × PlacedFrom size (suc j) bs

pub replicate-PlacedFrom : (size n j : ℕ) → PlacedFrom size j (replicate n [])
replicate-PlacedFrom size zero j = tt
replicate-PlacedFrom size (suc n) j = (tt, replicate-PlacedFrom size n (suc j))

pub set-PlacedFrom :
    (size : ℕ) (bs : List Bucket) (i j k : ℕ) (q : Bucket)
    → k ≡ j + i
    → PlacedFrom size j bs
    → All (λ (n : HashNode). hash_index size n.id ≡ k) q
    → PlacedFrom size j (set bs i q)
set-PlacedFrom size [] i j k q e f a = tt
set-PlacedFrom size (x ∷ bs) zero j k q e f a = let p : j ≡ k = omega arith in (rw p a, f.1)
set-PlacedFrom size (x ∷ bs) (suc i) j k q e f a =
    (f.0, set-PlacedFrom size bs i (suc j) k q (omega arith) f.1 a)

pub get_or-Placed :
    (size : ℕ) (bs : List Bucket) (i j k : ℕ)
    → k ≡ j + i
    → PlacedFrom size j bs
    → All (λ (n : HashNode). hash_index size n.id ≡ k) (get_or bs i [])
get_or-Placed size [] i j k e f = tt
get_or-Placed size (q ∷ bs) zero j k e f = let p : k ≡ j = omega arith in rw p f.0
get_or-Placed size (q ∷ bs) (suc i) j k e f = get_or-Placed size bs i (suc j) k (omega arith) f.1

-- The nodes with a given id.
abbrev pub has_id : HashId → HashNode → Bool
has_id id n = md5_equal n.id id

other_bucket :
    (size : ℕ) (id : HashId) (k : ℕ) (q : Bucket)
    → (k ≡ hash_index size id → ⊥)
    → All (λ (n : HashNode). hash_index size n.id ≡ k) q
    → count (has_id id) q ≡ 0
other_bucket size id k [] ne a = refl
other_bucket size id k (n ∷ q) ne a = elim (Bool-cases (has_id id n)) [
  | inl e ↦ absurd (ne (omega (arith, a.0, md5_equal-index size n.id id e)))
  | inr e ↦ rw e (omega (arith, other_bucket size id k q ne a.1))
]

later_buckets :
    (size : ℕ) (id : HashId) (k : ℕ) (bs : List Bucket)
    → hash_index size id < k
    → PlacedFrom size k bs
    → count_all (has_id id) bs ≡ 0
later_buckets size id k [] l f = refl
later_buckets size id k (q ∷ bs) l f = omega (
  arith,
  other_bucket size id k q (λ d. omega arith) f.0,
  later_buckets size id (suc k) bs (omega arith) f.1,
)

-- All nodes with an id stand in one bucket.
pub count_all-home :
    (size : ℕ) (id : HashId) (bs : List Bucket) (i j : ℕ)
    → hash_index size id ≡ j + i
    → PlacedFrom size j bs
    → count_all (has_id id) bs ≡ count (has_id id) (get_or bs i [])
count_all-home size id [] i j e f = refl
count_all-home size id (q ∷ bs) zero j e f =
    omega (arith, later_buckets size id (suc j) bs (omega arith) f.1)
count_all-home size id (q ∷ bs) (suc i) j e f = omega (
  arith,
  other_bucket size id j q (λ d. omega arith) f.0,
  count_all-home size id bs i (suc j) (omega arith) f.1,
)
