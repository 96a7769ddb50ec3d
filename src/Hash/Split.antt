-- ===== src/Hash/Split.antt =====
-- The expansion of utils/hash.c moves nodes one bucket at a time and loses none.
use olivehc.Prelude.{
  ℕ, suc, ◌+◌, ◌*◌, ◌/◌, ◌^◌, ◌≤◌, ◌<◌, ◌≡◌, ◌≢◌, Bool, true, false, ◌&&◌, Option, none, some, List,
  [], ◌∷◌, set, get_or, replicate, leb, ltb, ◌==◌, if◌then◌else◌, arith, count, count_all, to_nat,
  length, length-set, length-replicate, pow2_pos, pow2_suc, pow2_mono, ap, ◌∙◌, refl, count_all-set,
  count_all-replicate, Bool-cases, inl, inr, get_or-set, sym, subst,
}
use native.Mathlib.Decide.{dec_lt}
use olivehc.Hash.{
  Hash, HashNode, Bucket, hash_bucket_size_max, hash_collisions, hash_init, hash_index, add_head,
  move_nodes, double, split_bucket, hash_expansion,
}
use olivehc.Hash.Bucket.{index-lt, PlacedFrom, replicate-PlacedFrom, set-PlacedFrom, get_or-Placed}

-- The nodes of a table that pass a test, in its buckets and in those still to be split.
abbrev pub count_prev : (HashNode → Bool) → Option (List Bucket) → ℕ
count_prev p none = 0
count_prev p (some pb) = count_all p pb

abbrev pub nodes : (HashNode → Bool) → Hash → ℕ
nodes p h = count_all p h.buckets + count_prev p h.prev_buckets

-- The previous table during an expansion: half as large, with its first `split` buckets empty.
abbrev pub PrevIsValid : Hash → Option (List Bucket) → Type 0
PrevIsValid h none = Unit {0}
PrevIsValid h (some pb) =
    (k : ℕ) × (h.bucket_size ≡ 2 ^ suc k)
    × (length pb ≡ 2 ^ k)
    × PlacedFrom (2 ^ k) 0 pb
    × (h.split < 2 ^ k)
    × ((i : ℕ) → i < h.split → get_or pb i [] ≡ [])

pub record IsValid (h : Hash) : Type 0 where
  pub sized : (k : ℕ) × (h.bucket_size ≡ 2 ^ k) × (4 ≤ k) × (k ≤ 28)
  pub width : length h.buckets ≡ h.bucket_size
  pub placed : PlacedFrom h.bucket_size 0 h.buckets
  pub prev : PrevIsValid h h.prev_buckets
  pub counted : h.items ≡ nodes (λ _. true) h

-- With memory, `hash_init` gives a valid table with no nodes.
pub init-IsValid :
    (h : Hash) × (hash_init true true ≡ some h)
    × IsValid h
    × ((p : HashNode → Bool) → nodes p h ≡ 0)
unfolding hash_init
init-IsValid = (
  _,
  refl,
  record {
    sized = (4, refl, omega arith, omega arith);
    width = length-replicate {A = Bucket} 16 [];
    placed = replicate-PlacedFrom 16 16 0;
    prev = tt;
    counted = refl;
  },
  λ p. refl,
)

-- One node added at the head of its bucket.
module _ (k : ℕ) (n : HashNode) (bs : List Bucket) (w : length bs ≡ 2 ^ k) where
  pub count-add_head :
      (p : HashNode → Bool) → count_all p (add_head (2 ^ k) n bs) ≡ count_all p bs + to_nat (p n)
  unfolding add_head
  count-add_head p =
      let i = hash_index (2 ^ k) n.id in
      omega (arith, count_all-set p bs i (n ∷ get_or bs i []) (omega (arith, w, index-lt k n.id)))

  pub length-add_head : length (add_head (2 ^ k) n bs) ≡ 2 ^ k
  unfolding add_head
  length-add_head = length-set bs _ _ ∙ w

  pub add_head-Placed : PlacedFrom (2 ^ k) 0 bs → PlacedFrom (2 ^ k) 0 (add_head (2 ^ k) n bs)
  unfolding add_head
  add_head-Placed f =
      let i = hash_index (2 ^ k) n.id in
      set-PlacedFrom (2 ^ k) bs i 0 i (n ∷ get_or bs i []) (omega arith) f
        (refl, get_or-Placed (2 ^ k) bs i 0 i (omega arith) f)

-- The loop over one bucket.
pub record Moved (k : ℕ) (q : Bucket) (bs after : List Bucket) : Type 0 where
  pub width : length after ≡ 2 ^ k
  pub placed : PlacedFrom (2 ^ k) 0 after
  pub kept : (p : HashNode → Bool) → count_all p after ≡ count_all p bs + count p q

move_nodes-Moved :
    (k : ℕ) (q : Bucket) (bs : List Bucket)
    → length bs ≡ 2 ^ k
    → PlacedFrom (2 ^ k) 0 bs
    → Moved k q bs (move_nodes (2 ^ k) q bs)
unfolding move_nodes
move_nodes-Moved k [] bs w f = record { width = w; placed = f; kept = λ p. omega arith }
move_nodes-Moved k (n ∷ q) bs w f =
    let r =
      move_nodes-Moved k q (add_head (2 ^ k) n bs) (length-add_head k n bs w)
        (add_head-Placed k n bs w f) in
    record {
      width = r.width;
      placed = r.placed;
      kept = λ p. omega (arith, r.kept p, count-add_head k n bs w p);
    }

-- What an expansion keeps: the nodes, the count and the validity.
pub record Keeps (h after : Hash) : Type 0 where
  pub valid : IsValid after
  pub items : after.items ≡ h.items
  pub same : (p : HashNode → Bool) → nodes p after ≡ nodes p h

unchanged-Keeps : (h : Hash) → IsValid h → Keeps h h
unchanged-Keeps h v = record { valid = v; items = refl; same = λ p. refl }

module _ (h : Hash) (v : IsValid h) where
  -- The doubled table: new buckets that are empty, and the old ones still to be split.
  abbrev doubled : Hash
  doubled = record {
    buckets = replicate (h.bucket_size * 2) [];
    bucket_size = h.bucket_size * 2;
    items = h.items;
    prev_buckets = some h.buckets;
    split = 0;
  }

  same-doubled : h.prev_buckets ≡ none → (p : HashNode → Bool) → nodes p doubled ≡ nodes p h
  same-doubled e p = omega (arith, count_all-replicate p (h.bucket_size * 2), ap (count_prev p) e)

  doubled-Keeps : h.prev_buckets ≡ none → h.bucket_size < hash_bucket_size_max → Keeps h doubled
  doubled-Keeps e l =
      let (k, z, lo, hi) = v.sized in
      let z' : h.bucket_size * 2 ≡ 2 ^ suc k = omega (arith, pow2_suc k) in
      let small : k < 28 = elim (dec_lt k 28) [
        | yes u ↦ u
        | no u ↦ absurd (omega (arith, pow2_mono 28 k (omega arith)))
      ] in
      record {
        valid = record {
          sized = (suc k, z', omega arith, small);
          width = length-replicate {A = Bucket} (h.bucket_size * 2) [];
          placed = replicate-PlacedFrom (h.bucket_size * 2) (h.bucket_size * 2) 0;
          prev = (k, z', v.width ∙ z, rw (← z) v.placed, pow2_pos k, λ i u. absurd (omega arith));
          counted = omega (arith, v.counted, same-doubled e (λ _. true));
        };
        items = refl;
        same = same-doubled e;
      }

  double-Keeps : Keeps h (double h)
  unfolding double
  double-Keeps = by_prev h.prev_buckets refl
    where
      by_prev :
          (o : Option (List Bucket))
          → h.prev_buckets ≡ o
          → Keeps h (elim o [
            | some pb ↦ h
            | none ↦
                if leb hash_collisions (h.items / h.bucket_size)
                  && ltb h.bucket_size hash_bucket_size_max
                then doubled
                else h
          ])
      by_prev (some pb) e = unchanged-Keeps h v
      by_prev none e =
          elim (Bool-cases (
            leb hash_collisions (h.items / h.bucket_size)
            && ltb h.bucket_size hash_bucket_size_max)) [
              | inl t ↦ rw t (doubled-Keeps e (ground arith))
              | inr t ↦ rw t (unchanged-Keeps h v)
            ]

-- The buckets up to `s` are empty once bucket `s` is split.
emptied :
    (pb : List Bucket) (s : ℕ)
    → s < length pb
    → ((i : ℕ) → i < s → get_or pb i [] ≡ [])
    → (i : ℕ) → i < s + 1
    → get_or (set pb s []) i [] ≡ []
emptied pb s l f i h = ground (arith, get_or-set pb s i [] [] l, f i)

all_empty :
    (p : HashNode → Bool) (pb : List Bucket)
    → ((i : ℕ) → i < length pb → get_or pb i [] ≡ [])
    → count_all p pb ≡ 0
all_empty p [] f = refl
all_empty p (q ∷ pb) f =
    omega (arith, ap (count p) (f 0 (omega arith)), all_empty p pb (λ i l. f (suc i) (omega arith)))

module _ (h : Hash) (v : IsValid h) (pb : List Bucket) (e : h.prev_buckets ≡ some pb) where
  -- The table after its next bucket is split, and before the check that this was the last.
  abbrev after_split : Option (List Bucket) → Hash
  after_split o = record {
    buckets = move_nodes h.bucket_size (get_or pb h.split []) h.buckets;
    bucket_size = h.bucket_size;
    items = h.items;
    prev_buckets = o;
    split = h.split + 1;
  }

  prev_valid : PrevIsValid h (some pb)
  prev_valid = subst (PrevIsValid h) e v.prev

  abbrev half : ℕ
  half = prev_valid.0

  moved : Moved (suc half) (get_or pb h.split []) h.buckets (after_split none).buckets
  moved =
      let z : h.bucket_size ≡ 2 ^ suc half = prev_valid.1 in
      let q = get_or pb h.split [] in
      subst (λ s. Moved (suc half) q h.buckets (move_nodes s q h.buckets)) (sym z)
        (move_nodes-Moved (suc half) q h.buckets (v.width ∙ z)
          (subst (λ s. PlacedFrom s 0 h.buckets) z v.placed))

  -- The nodes still to be split, less those of the bucket just split.
  rest_count :
      (p : HashNode → Bool)
      → count_all p (set pb h.split []) + count p (get_or pb h.split []) ≡ count_all p pb
  rest_count p =
      omega (arith, count_all-set p pb h.split [] (omega (arith, prev_valid.2, prev_valid.4)))

  same-split :
      (o : Option (List Bucket)) (p : HashNode → Bool)
      → count_prev p o ≡ count_all p (set pb h.split [])
      → nodes p (after_split o) ≡ nodes p h
  same-split o p c = omega (arith, moved.kept p, rest_count p, ap (count_prev p) e)

  split-Keeps :
      (o : Option (List Bucket))
      → ((p : HashNode → Bool) → count_prev p o ≡ count_all p (set pb h.split []))
      → PrevIsValid (after_split o) o
      → Keeps h (after_split o)
  split-Keeps o c w =
      let z : h.bucket_size ≡ 2 ^ suc half = prev_valid.1 in
      record {
        valid = record {
          sized = v.sized;
          width = moved.width ∙ sym z;
          placed = subst (λ s. PlacedFrom s 0 (after_split o).buckets) (sym z) moved.placed;
          prev = w;
          counted = omega (arith, v.counted, same-split o (λ _. true) (c (λ _. true)));
        };
        items = refl;
        same = λ p. same-split o p (c p);
      }

  empty_so_far : (i : ℕ) → i < h.split + 1 → get_or (set pb h.split []) i [] ≡ []
  empty_so_far = emptied pb h.split (omega (arith, prev_valid.2, prev_valid.4)) prev_valid.5

  split_done : h.split + 1 ≡ h.bucket_size / 2 → Keeps h (after_split none)
  split_done d =
      split-Keeps none
        (λ p. sym (
          all_empty p (set pb h.split []) (λ i l.
            empty_so_far i (
              omega (arith, length-set pb h.split [], prev_valid.1, prev_valid.2, pow2_suc half)))))
        tt

  split_more : h.split + 1 ≢ h.bucket_size / 2 → Keeps h (after_split (some (set pb h.split [])))
  split_more d =
      split-Keeps (some (set pb h.split [])) (λ p. refl)
        (
          half,
          prev_valid.1,
          length-set pb h.split [] ∙ prev_valid.2,
          set-PlacedFrom (2 ^ half) pb h.split 0 h.split [] (omega arith) prev_valid.3 tt,
          omega (arith, prev_valid.1, prev_valid.4, pow2_suc half),
          empty_so_far,
        )

split_bucket-Keeps : (h : Hash) → IsValid h → Keeps h (split_bucket h)
unfolding split_bucket
split_bucket-Keeps h v = by_prev h.prev_buckets refl
  where
    by_prev :
        (o : Option (List Bucket))
        → h.prev_buckets ≡ o
        → Keeps h (elim o [
          | none ↦ h
          | some pb ↦ record {
            buckets = move_nodes h.bucket_size (get_or pb h.split []) h.buckets;
            bucket_size = h.bucket_size;
            items = h.items;
            prev_buckets =
                if h.split + 1 == h.bucket_size / 2 then none else some (set pb h.split []);
            split = h.split + 1;
          }
        ])
    by_prev none e = unchanged-Keeps h v
    by_prev (some pb) e = elim (Bool-cases (h.split + 1 == h.bucket_size / 2)) [
      | inl t ↦ rw t (split_done h v pb e (ground arith))
      | inr t ↦ rw t (split_more h v pb e (ground arith))
    ]

-- `hash_expansion` of a valid table, with memory or without, keeps every node, the count of
-- items and the validity.
pub hash_expansion-Keeps : (mem : Bool) (h : Hash) → IsValid h → Keeps h (hash_expansion mem h)
unfolding hash_expansion
hash_expansion-Keeps false h v = split_bucket-Keeps h v
hash_expansion-Keeps true h v =
    let d = double-Keeps h v in
    let s = split_bucket-Keeps (double h) d.valid in
    record { valid = s.valid; items = s.items ∙ d.items; same = λ p. s.same p ∙ d.same p }
