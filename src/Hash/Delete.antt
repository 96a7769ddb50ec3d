-- ===== src/Hash/Delete.antt =====
-- `hash_del` of utils/hash.c takes out the node that it is given, wherever it stands.
use olivehc.Prelude.{
  ℕ, zero, suc, ◌+◌, ◌^◌, ◌≤◌, ◌≡◌, Bool, true, ◌&&◌, Option, none, some, List, [], ◌∷◌, get_or,
  map, ◌==◌, arith, All, count, count_all, ap, ◌∙◌, refl, Bool-cases, inl, inr, length-map,
}
use olivehc.Hash.{Hash, HashNode, Bucket, hash_index, del_node, hash_del}
use olivehc.Hash.Bucket.{PlacedFrom}
use olivehc.Hash.Lookup.{nodes-le}
use olivehc.Hash.Split.{nodes, count_prev, PrevIsValid, IsValid}

-- Two tests on one node.
count_and_le : (a p : HashNode → Bool) (q : Bucket) → count (λ n. a n && p n) q ≤ count a q
count_and_le a p [] = omega arith
count_and_le a p (n ∷ q) = ground (arith, count_and_le a p q)

abbrev pub has_handle : ℕ → HashNode → Bool
has_handle a n = n.handle == a

count-del_node :
    (a : ℕ) (p : HashNode → Bool) (q : Bucket)
    → count (has_handle a) q ≤ 1
    → count p (del_node a q) + count (λ n. has_handle a n && p n) q ≡ count p q
unfolding del_node
count-del_node a p [] l = refl
count-del_node a p (n ∷ q) l = elim (Bool-cases (has_handle a n)) [
  | inl e ↦ ground (arith, count_and_le (has_handle a) p q)
  | inr e ↦ ground (arith, count-del_node a p q)
]

-- The same over all buckets.
count_all-del :
    (a : ℕ) (p : HashNode → Bool) (bs : List Bucket)
    → count_all (has_handle a) bs ≤ 1
    → count_all p (map (del_node a) bs) + count_all (λ n. has_handle a n && p n) bs ≡ count_all p bs
count_all-del a p [] l = refl
count_all-del a p (q ∷ bs) l =
    omega (arith, count-del_node a p q (omega arith), count_all-del a p bs (omega arith))

del_node-Placed :
    (size a j : ℕ) (q : Bucket)
    → All (λ (n : HashNode). hash_index size n.id ≡ j) q
    → All (λ (n : HashNode). hash_index size n.id ≡ j) (del_node a q)
unfolding del_node
del_node-Placed size a j [] f = tt
del_node-Placed size a j (n ∷ q) f = elim (Bool-cases (n.handle == a)) [
  | inl e ↦ rw e f.1
  | inr e ↦ rw e (f.0, del_node-Placed size a j q f.1)
]

map_del-PlacedFrom :
    (size a j : ℕ) (bs : List Bucket)
    → PlacedFrom size j bs
    → PlacedFrom size j (map (del_node a) bs)
map_del-PlacedFrom size a j [] f = tt
map_del-PlacedFrom size a j (q ∷ bs) f =
    (del_node-Placed size a j q f.0, map_del-PlacedFrom size a (suc j) bs f.1)

map_del-empty :
    (a : ℕ) (bs : List Bucket) (i : ℕ)
    → get_or bs i [] ≡ []
    → get_or (map (del_node a) bs) i [] ≡ []
unfolding del_node
map_del-empty a [] i e = refl
map_del-empty a (q ∷ bs) zero e = ap (del_node a) e
map_del-empty a (q ∷ bs) (suc i) e = map_del-empty a bs i e

-- What `hash_del` leaves of a table.
pub record Deletes (h : Hash) (a : ℕ) (after : Hash) : Type 0 where
  pub valid : IsValid after
  pub items : after.items + 1 ≡ h.items
  pub same :
      (p : HashNode → Bool) → nodes p after + nodes (λ n. has_handle a n && p n) h ≡ nodes p h

module _ (h : Hash) (a : ℕ) (v : IsValid h) (once : nodes (has_handle a) h ≡ 1) where
  abbrev del_prev : Option (List Bucket) → Option (List Bucket)
  del_prev o = elim o [ none ↦ none | some pb ↦ some (map (del_node a) pb) ]

  prev-del :
      (o : Option (List Bucket)) (p : HashNode → Bool)
      → count_prev (has_handle a) o ≤ 1
      → count_prev p (del_prev o) + count_prev (λ n. has_handle a n && p n) o ≡ count_prev p o
  prev-del none p l = refl
  prev-del (some pb) p l = count_all-del a p pb l

  same-del :
      (p : HashNode → Bool)
      → nodes p (hash_del h a) + nodes (λ n. has_handle a n && p n) h ≡ nodes p h
  unfolding hash_del
  same-del p = omega (
    arith,
    count_all-del a p h.buckets (omega (arith, once)),
    prev-del h.prev_buckets p (omega (arith, once)),
  )

  prev-IsValid :
      (o : Option (List Bucket)) → PrevIsValid h o → PrevIsValid (hash_del h a) (del_prev o)
  unfolding hash_del
  prev-IsValid none w = tt
  prev-IsValid (some pb) (k, z, l, f, s, e) = (
    k,
    z,
    length-map pb (del_node a) ∙ l,
    map_del-PlacedFrom (2 ^ k) a 0 pb f,
    s,
    λ i u. map_del-empty a pb i (e i u),
  )

  one_node : nodes (λ n. has_handle a n && true) h ≡ 1
  one_node =
      let p : HashNode → Bool = λ n. has_handle a n && true in
      omega (
        arith,
        once,
        nodes-le p (has_handle a) h (λ n. ground arith),
        nodes-le (has_handle a) p h (λ n. ground arith),
      )

  -- `hash_del` of a node that is linked once in a valid table takes out that node and no
  -- other, counts one item less, and leaves a valid table, also while it is being split.
  pub hash_del-Deletes : Deletes h a (hash_del h a)
  unfolding hash_del
  hash_del-Deletes = record {
    valid = record {
      sized = v.sized;
      width = length-map h.buckets (del_node a) ∙ v.width;
      placed = map_del-PlacedFrom h.bucket_size a 0 h.buckets v.placed;
      prev = prev-IsValid h.prev_buckets v.prev;
      counted = omega (arith, v.counted, same-del (λ _. true), one_node);
    };
    items = omega (arith, v.counted, same-del (λ _. true), one_node);
    same = same-del;
  }
