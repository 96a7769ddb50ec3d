-- ===== src/Hash/Lookup.antt =====
-- `hash_get`, `hash_add` and `hash_del` of utils/hash.c on a valid table, also while it is being
-- split: which node a lookup gives, and which nodes are in the table afterwards.
use olivehc.Prelude.{
  ℕ, zero, suc, ◌+◌, ◌-◌, ◌/◌, ◌^◌, ◌≤◌, ◌<◌, ◌≡◌, Bool, true, false, ◌&&◌, Option, none, some,
  List, [], ◌∷◌, get_or, leb, ◌==◌, if◌then◌else◌, arith, count, count_all, to_nat, length,
  pow2_suc, ap, ◌∙◌, refl, count_all-le, Bool-cases, inl, inr, sym, subst,
}
use olivehc.Hash.{
  Hash, HashId, HashNode, Bucket, hash_index, add_head, hash_expansion, hash_search, hash_lookup,
  hash_add, hash_get,
}
use olivehc.Hash.Bucket.{index_half, PlacedFrom, has_id, count_all-home}
use olivehc.Hash.Split.{
  nodes, count_prev, PrevIsValid, IsValid, Keeps, hash_expansion-Keeps, count-add_head,
  length-add_head, add_head-Placed,
}

-- The node with handle `a` and an id.
abbrev pub is_node : ℕ → HashId → HashNode → Bool
is_node a id n = n.handle == a && has_id id n

-- What a search for an id gives, where `c` counts the nodes that were searched.
abbrev pub Found : ((HashNode → Bool) → ℕ) → HashId → Option HashNode → Type 0
Found c id none = c (has_id id) ≡ 0
Found c id (some n) = (has_id id n ≡ true) × (0 < c (is_node n.handle id))

hash_search-Found : (q : Bucket) (id : HashId) → Found (λ p. count p q) id (hash_search q id)
unfolding hash_search
hash_search-Found [] id = refl
hash_search-Found (n ∷ q) id = elim (Bool-cases (has_id id n)) [
  | inl e ↦ rw (e, hash_search) (e, ground arith)
  | inr e ↦ rw (e, hash_search) (skip e (hash_search q id) (hash_search-Found q id))
]
  where
    skip :
        has_id id n ≡ false
        → (o : Option HashNode) → Found (λ p. count p q) id o
        → Found (λ p. count p (n ∷ q)) id o
    skip e none f = omega (arith, ap to_nat e, f)
    skip e (some m) f = (f.0, omega (arith, f.1))

bucket_le :
    (p : HashNode → Bool) (bs : List Bucket) (i : ℕ) → count p (get_or bs i []) ≤ count_all p bs
bucket_le p [] i = omega arith
bucket_le p (q ∷ bs) zero = omega arith
bucket_le p (q ∷ bs) (suc i) = omega (arith, bucket_le p bs i)

-- The bucket of the id's index, searched in place of the whole table.
search_home :
    (size i : ℕ) (bs : List Bucket) (id : HashId)
    → hash_index size id ≡ i
    → PlacedFrom size 0 bs
    → Found (λ p. count_all p bs) id (hash_search (get_or bs i []) id)
search_home size i bs id e f =
    widen (hash_search (get_or bs i []) id) (hash_search-Found (get_or bs i []) id)
  where
    widen :
        (o : Option HashNode)
        → Found (λ p. count p (get_or bs i [])) id o
        → Found (λ p. count_all p bs) id o
    widen none c = omega (arith, count_all-home size id bs i 0 (omega arith) f)
    widen (some n) c = (c.0, omega (arith, c.1, bucket_le (is_node n.handle id) bs i))

module _ (h : Hash) (v : IsValid h) (id : HashId) where
  abbrev prev_search : Option (List Bucket) → Option HashNode
  prev_search none = none
  prev_search (some pb) =
      let pbsize = h.bucket_size / 2 in
      let index = hash_index h.bucket_size id in
      hash_search (get_or pb (if leb pbsize index then index - pbsize else index) []) id

  -- The index that `hash_get` computes for the previous table is the one of its nodes.
  prev_index :
      (k : ℕ)
      → h.bucket_size ≡ 2 ^ suc k
      → let index = hash_index h.bucket_size id in
        hash_index (2 ^ k) id
        ≡ (if leb (h.bucket_size / 2) index then index - h.bucket_size / 2 else index)
  prev_index k z =
      let s : h.bucket_size / 2 ≡ 2 ^ k = omega (arith, pow2_suc k) in
      subst
        (λ m. hash_index (2 ^ k) id ≡ (
          if leb m (hash_index h.bucket_size id)
          then hash_index h.bucket_size id - m
          else hash_index h.bucket_size id))
        (sym s)
        (subst
          (λ m.
            hash_index (2 ^ k) id
            ≡ (if leb (2 ^ k) (hash_index m id) then hash_index m id - 2 ^ k else hash_index m id))
          (sym z) (sym (index_half k id)))

  prev-Found :
      (o : Option (List Bucket)) → PrevIsValid h o → Found (λ p. count_prev p o) id (prev_search o)
  prev-Found none w = refl
  prev-Found (some pb) (k, z, l, f, _, _) = search_home (2 ^ k) _ pb id (prev_index k z) f

  -- On a valid table a lookup gives a node with the id, which is in the table, and gives none
  -- only where no node of the table has the id.
  pub hash_lookup-Found : Found (λ p. nodes p h) id (hash_lookup h id)
  unfolding hash_lookup
  hash_lookup-Found =
      by_first (hash_search (get_or h.buckets (hash_index h.bucket_size id) []) id)
        (search_home h.bucket_size _ h.buckets id refl v.placed)
    where
      second :
          (o : Option HashNode)
          → count_all (has_id id) h.buckets ≡ 0
          → Found (λ p. count_prev p h.prev_buckets) id o
          → Found (λ p. nodes p h) id o
      second none c f = omega (arith, c, f)
      second (some n) c f = (f.0, omega (arith, f.1))

      by_first :
          (o : Option HashNode)
          → Found (λ p. count_all p h.buckets) id o
          → Found
              (λ p. nodes p h)
              id
              (elim o [ some n ↦ some n | none ↦ prev_search h.prev_buckets ])
      by_first (some n) c = (c.0, omega (arith, c.1))
      by_first none c = second _ c (prev-Found h.prev_buckets v.prev)

-- `Found` reads only the counts.
Found-same :
    (c d : (HashNode → Bool) → ℕ) (id : HashId) (o : Option HashNode)
    → ((p : HashNode → Bool) → c p ≡ d p)
    → Found c id o
    → Found d id o
Found-same c d id none e f = omega (arith, e (has_id id), f)
Found-same c d id (some n) e f = (f.0, omega (arith, e (is_node n.handle id), f.1))

module _ (md5 : List ℕ → HashId) (mem : Bool) (h : Hash) (v : IsValid h) where
  -- On a valid table, also one that is being split, `hash_get` hands out the digest of the
  -- key, gives a node of the table with that id, gives none only where no node of the table
  -- has it, and its step of the expansion keeps every node, the count and the validity.
  pub hash_get-Found :
      (str : List ℕ)
      → let (found, id, after) = hash_get md5 mem h str in
        (id ≡ md5 str) × Found (λ p. nodes p h) (md5 str) found × Keeps h after
  unfolding hash_get
  hash_get-Found str =
      let k = hash_expansion-Keeps mem h v in
      let h' = hash_expansion mem h in
      (
        refl,
        Found-same (λ p. nodes p h') (λ p. nodes p h) (md5 str) (hash_lookup h' (md5 str)) k.same
            (hash_lookup-Found h' k.valid (md5 str)),
        k,
      )

  -- The id under which `hash_add` files a node.
  abbrev pub filed_node : HashNode → Option (List ℕ) → HashNode
  filed_node n none = n
  filed_node n (some s) = record { handle = n.handle; id = md5 s }

  abbrev with_node : HashNode → Hash
  with_node n = record h { buckets = add_head h.bucket_size n h.buckets; items = h.items + 1 }

  count-with_node :
      (n : HashNode) (p : HashNode → Bool) → nodes p (with_node n) ≡ nodes p h + to_nat (p n)
  count-with_node n p =
      let (k, z, _, _) = v.sized in
      omega (
        arith,
        count-add_head k n h.buckets (v.width ∙ z) p,
        ap (λ s. count_all p (add_head s n h.buckets)) z,
      )

  prev-with_node :
      (n : HashNode) (o : Option (List Bucket)) → PrevIsValid h o → PrevIsValid (with_node n) o
  prev-with_node n none w = tt
  prev-with_node n (some pb) w = w

  with_node-IsValid : (n : HashNode) → IsValid (with_node n)
  with_node-IsValid n =
      let (k, z, _, _) = v.sized in
      record {
        sized = v.sized;
        width =
            subst (λ s. length (add_head s n h.buckets) ≡ s) (sym z)
              (length-add_head k n h.buckets (v.width ∙ z));
        placed =
            subst (λ s. PlacedFrom s 0 (add_head s n h.buckets)) (sym z)
              (add_head-Placed k n h.buckets (v.width ∙ z)
                (subst (λ s. PlacedFrom s 0 h.buckets) z v.placed));
        prev = prev-with_node n h.prev_buckets v.prev;
        counted = omega (arith, v.counted, count-with_node n (λ _. true));
      }

  -- `h` with one more node, in any order of its buckets.
  pub record Adds (n : HashNode) (after : Hash) : Type 0 where
    pub valid : IsValid after
    pub items : after.items ≡ h.items + 1
    pub same : (p : HashNode → Bool) → nodes p after ≡ nodes p h + to_nat (p n)

  expand-Adds : (n : HashNode) → Adds n (hash_expansion mem (with_node n))
  expand-Adds n =
      let k = hash_expansion-Keeps mem (with_node n) (with_node-IsValid n) in
      record { valid = k.valid; items = k.items; same = λ p. k.same p ∙ count-with_node n p }

  -- `hash_add` on a valid table adds the node, under the digest of the key or under the id
  -- that it has, keeps every other node, counts one more item, and leaves a valid table.
  pub hash_add-Adds :
      (n : HashNode) (str : Option (List ℕ)) → Adds (filed_node n str) (hash_add md5 mem h n str)
  unfolding hash_add
  hash_add-Adds n none = expand-Adds n
  hash_add-Adds n (some s) = expand-Adds (record { handle = n.handle; id = md5 s })

pub nodes-le :
    (p q : HashNode → Bool) (h : Hash)
    → ((n : HashNode) → to_nat (p n) ≤ to_nat (q n))
    → nodes p h ≤ nodes q h
nodes-le p q h le = omega (arith, count_all-le p q le h.buckets, prev h.prev_buckets)
  where
    prev : (o : Option (List Bucket)) → count_prev p o ≤ count_prev q o
    prev none = omega arith
    prev (some pb) = count_all-le p q le pb

-- After `hash_add` of a node under a key whose digest no node of a valid table has, `hash_get`
-- of the key gives a node with the handle that was added and with that id, whether or not
-- memory for an expansion is found.
pub get-add :
    (md5 : List ℕ → HashId) (mem mem' : Bool) (h : Hash) (n : HashNode) (key : List ℕ)
    → IsValid h
    → nodes (has_id (md5 key)) h ≡ 0
    → (m : HashNode) × ((hash_get md5 mem' (hash_add md5 mem h n (some key)) key).0 ≡ some m)
      × (m.handle ≡ n.handle)
      × (has_id (md5 key) m ≡ true)
get-add md5 mem mem' h n key v fresh =
    let added = hash_add-Adds md5 mem h v n (some key) in
    let got = hash_get-Found md5 mem' (hash_add md5 mem h n (some key)) added.valid key in
    only added (hash_get md5 mem' (hash_add md5 mem h n (some key)) key).0 got.1
  where
    after : Hash
    after = hash_add md5 mem h n (some key)

    filed : HashNode
    filed = record { handle = n.handle; id = md5 key }

    only :
        Adds md5 mem h v filed after
        → (o : Option HashNode) → Found (λ p. nodes p after) (md5 key) o
        → (m : HashNode) × (o ≡ some m) × (m.handle ≡ n.handle) × (has_id (md5 key) m ≡ true)
    only added none f = absurd (ground (arith, added.same (has_id (md5 key))))
    only added (some m) (e, l) =
        let le : nodes (is_node m.handle (md5 key)) h ≤ nodes (has_id (md5 key)) h =
          nodes-le (is_node m.handle (md5 key)) (has_id (md5 key)) h (λ x. ground arith) in
        (m, refl, ground (arith, added.same (is_node m.handle (md5 key))), e)
