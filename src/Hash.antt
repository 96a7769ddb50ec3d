-- ===== src/Hash.antt =====
-- The linear dynamic hash table of utils/hash.c. A node is its handle (the pointer) with the two
-- 64-bit halves of its 16 bytes of id; a bucket is the list of its nodes, which are linked by
-- the hlists of utils/list.h. MD5 is OpenSSL's, a parameter of the functions that call it, and
-- `mem` says whether `calloc` finds memory.
pub mod Bucket
pub mod Split
pub mod Lookup
pub mod Delete
pub mod Finish
mod Tests
use Prim.Native.Nat.{bit_and, bit_xor}
use olivehc.Prelude.{
  ℕ, zero, suc, ◌+◌, ◌-◌, ◌*◌, ◌/◌, ◌^◌, Bool, true, false, ◌&&◌, Option, none, some, List, [], ◌∷◌,
  set, get_or, replicate, map, leb, ltb, ◌==◌, if◌then◌else◌,
}

-- `unsigned char id[16]`, read as two `uint64_t`
pub record HashId : Type 0 where
  pub low : ℕ
  pub high : ℕ

-- `ohc_hash_node_t`
pub record HashNode : Type 0 where
  pub handle : ℕ
  pub id : HashId

abbrev pub Bucket : Type 0
Bucket = List HashNode

-- `struct ohc_hash_s`; `prev_buckets` is `none` where the code has NULL.
pub record Hash : Type 0 where
  pub buckets : List Bucket
  pub bucket_size : ℕ
  pub items : ℕ
  pub prev_buckets : Option (List Bucket)
  pub split : ℕ

abbrev pub hash_bucket_size_begin : ℕ
hash_bucket_size_begin = 2 ^ 4

abbrev pub hash_bucket_size_max : ℕ
hash_bucket_size_max = 2 ^ 28

abbrev pub hash_collisions : ℕ
hash_collisions = 10

abbrev pub md5_equal : HashId → HashId → Bool
md5_equal a b = a.low == b.low && a.high == b.high

unfoldable pub hash_index : ℕ → HashId → ℕ
hash_index bucket_size id = bit_and (bit_xor id.low id.high) (bucket_size - 1)

-- The two failures of `malloc` and `calloc` give no table.
unfoldable pub hash_init : Bool → Bool → Option Hash
hash_init false mem = none
hash_init true false = none
hash_init true true = some (record {
  buckets = replicate hash_bucket_size_begin [];
  bucket_size = hash_bucket_size_begin;
  items = 0;
  prev_buckets = none;
  split = 0;
})

-- `hlist_add_head` on the bucket of the node's index
unfoldable pub add_head : ℕ → HashNode → List Bucket → List Bucket
unfolding hash_index
add_head size n bs = let i = hash_index size n.id in set bs i (n ∷ get_or bs i [])

-- The loop that moves the nodes of the split bucket, from its first node on.
unfoldable pub move_nodes : ℕ → Bucket → List Bucket → List Bucket
unfolding add_head
move_nodes size [] bs = bs
move_nodes size (n ∷ q) bs = move_nodes size q (add_head size n bs)

-- The first part of `hash_expansion`, which doubles the buckets.
unfoldable pub double : Hash → Hash
double h = elim h.prev_buckets [
  | some pb ↦ h
  | none ↦
      if leb hash_collisions (h.items / h.bucket_size) && ltb h.bucket_size hash_bucket_size_max
      then record {
        buckets = replicate (h.bucket_size * 2) [];
        bucket_size = h.bucket_size * 2;
        items = h.items;
        prev_buckets = some h.buckets;
        split = 0;
      }
      else h
]

-- The second part, which splits one bucket of the previous table.
unfoldable pub split_bucket : Hash → Hash
unfolding move_nodes
split_bucket h = elim h.prev_buckets [
  | none ↦ h
  | some pb ↦ record {
    buckets = move_nodes h.bucket_size (get_or pb h.split []) h.buckets;
    bucket_size = h.bucket_size;
    items = h.items;
    prev_buckets = if h.split + 1 == h.bucket_size / 2 then none else some (set pb h.split []);
    split = h.split + 1;
  }
]

-- Without memory the expansion is put off; no bucket is being split then.
unfoldable pub hash_expansion : Bool → Hash → Hash
unfolding double split_bucket
hash_expansion mem h = if mem then split_bucket (double h) else split_bucket h

unfoldable pub hash_search : Bucket → HashId → Option HashNode
hash_search [] id = none
hash_search (n ∷ q) id = if md5_equal n.id id then some n else hash_search q id

-- `hlist_del`, wherever the node is linked
unfoldable pub del_node : ℕ → Bucket → Bucket
del_node handle [] = []
del_node handle (n ∷ q) = if n.handle == handle then q else n ∷ del_node handle q

unfoldable pub hash_del : Hash → ℕ → Hash
unfolding del_node
hash_del h handle = record {
  buckets = map (del_node handle) h.buckets;
  bucket_size = h.bucket_size;
  items = h.items - 1;
  prev_buckets = elim h.prev_buckets [ none ↦ none | some pb ↦ some (map (del_node handle) pb) ];
  split = h.split;
}

-- The lookup of `hash_get` once its id is known, on the expanded table.
unfoldable pub hash_lookup : Hash → HashId → Option HashNode
unfolding hash_search hash_index
hash_lookup h id =
    let index = hash_index h.bucket_size id in
    elim (hash_search (get_or h.buckets index []) id) [
      | some n ↦ some n
      | none ↦ elim h.prev_buckets [
        | none ↦ none
        | some pb ↦
            let pbsize = h.bucket_size / 2 in
            hash_search (get_or pb (if leb pbsize index then index - pbsize else index) []) id
      ]
    ]

module _ (md5 : List ℕ → HashId) where
  -- `str` is `none` where the caller has set the id already.
  unfoldable pub hash_add : Bool → Hash → HashNode → Option (List ℕ) → Hash
  unfolding hash_expansion add_head
  hash_add mem h hnode str =
      let n : HashNode = elim str [
        | none ↦ hnode
        | some s ↦ record { handle = hnode.handle; id = md5 s }
      ] in
      hash_expansion mem
        (record h { buckets = add_head h.bucket_size n h.buckets; items = h.items + 1 })

  -- The node that was found, the id that goes through `hash_id`, and the expanded table.
  unfoldable pub hash_get : Bool → Hash → List ℕ → Option HashNode × HashId × Hash
  unfolding hash_expansion hash_lookup
  hash_get mem h str =
      let h' = hash_expansion mem h in let id = md5 str in (hash_lookup h' id, id, h')
