-- ===== src/Ipbucket/Filed.antt =====
-- Every block on the free list stands in the bucket of its size, so that a search finds a block
-- that is large enough exactly when there is one.
use olivehc.Prelude.{
  ℕ, zero, suc, ◌+◌, ◌-◌, ◌≤◌, ◌<◌, ◌^◌, ◌≡◌, true, false, Option, none, some, List, [], ◌∷◌, map,
  set, get_or, replicate, ◌==◌, if◌then◌else◌, arith, All, All-append, All-map, length, length-set,
  length-replicate, inl, inr, refl, ◌∙◌, Bool-cases, length-map, ap,
}
use mathlib.Core.Option
use native.Mathlib.Decide.{dec_lt}
use olivehc.SizeClass.{ipb_buckets, ipbucket_block_size, ipbucket_index}
use olivehc.SizeClass.Fit.{index_fits, index_up_total, index_down_total}
use olivehc.Ipbucket.{
  Handle, Ipbucket, ipbucket_init, unlink, ipbucket_add, ipbucket_del, ipbucket_update, take_from,
  ipbucket_get,
}

-- A size that a block of a device can have.
abbrev pub IsBlockSize : ℕ → Type 0
IsBlockSize b = (512 ≤ b) × (b < 2 ^ 63)

-- A property of every block on the list.
abbrev pub AllBlocks : (Handle → Type 0) → Ipbucket → Type 0
AllBlocks P [] = Unit {0}
AllBlocks P (q ∷ qs) = All P q × AllBlocks P qs

-- How often a block is linked.
abbrev pub occurrences : Handle → List Handle → ℕ
occurrences x [] = 0
occurrences x (h ∷ q) = (if h == x then 1 else 0) + occurrences x q

abbrev pub linked : Handle → Ipbucket → ℕ
linked x [] = 0
linked x (q ∷ qs) = occurrences x q + linked x qs

module _ (size_of : Handle → ℕ) where
  -- `h` belongs into bucket `j`.
  abbrev pub Belongs : ℕ → Handle → Type 0
  Belongs j h = IsBlockSize (size_of h) × (ipbucket_index (size_of h) false ≡ some j)

  -- The queues from bucket `j` on hold only blocks that belong there.
  abbrev pub FiledFrom : ℕ → Ipbucket → Type 0
  FiledFrom j [] = Unit {0}
  FiledFrom j (q ∷ qs) = All (Belongs j) q × FiledFrom (suc j) qs

  pub record Filed (ipb : Ipbucket) : Type 0 where
    pub width : length ipb ≡ ipb_buckets
    pub filed : FiledFrom 0 ipb

  replicate-FiledFrom : (n j : ℕ) → FiledFrom j (replicate n [])
  replicate-FiledFrom zero j = tt
  replicate-FiledFrom (suc n) j = (tt, replicate-FiledFrom n (suc j))

  pub init-Filed : Filed ipbucket_init
  unfolding ipbucket_init
  init-Filed = record {
    width = length-replicate {A = List Handle} ipb_buckets [];
    filed = replicate-FiledFrom ipb_buckets 0;
  }

  get_or-Belongs :
      (qs : Ipbucket) (i j k : ℕ) → k ≡ j + i → FiledFrom j qs → All (Belongs k) (get_or qs i [])
  get_or-Belongs [] i j k e f = tt
  get_or-Belongs (q ∷ qs) zero j k e f = let p : k ≡ j = omega arith in rw p f.0
  get_or-Belongs (q ∷ qs) (suc i) j k e f = get_or-Belongs qs i (suc j) k (omega arith) f.1

  set-FiledFrom :
      (qs : Ipbucket) (i j k : ℕ) (q : List Handle)
      → k ≡ j + i
      → FiledFrom j qs
      → All (Belongs k) q
      → FiledFrom j (set qs i q)
  set-FiledFrom [] i j k q e f a = tt
  set-FiledFrom (x ∷ qs) zero j k q e f a = let p : j ≡ k = omega arith in (rw p a, f.1)
  set-FiledFrom (x ∷ qs) (suc i) j k q e f a =
      (f.0, set-FiledFrom qs i (suc j) k q (omega arith) f.1 a)

  unlink-Belongs :
      (j : ℕ) (h : Handle) (q : List Handle) → All (Belongs j) q → All (Belongs j) (unlink h q)
  unfolding unlink
  unlink-Belongs j h [] a = tt
  unlink-Belongs j h (x ∷ q) a = elim (Bool-cases (x == h)) [
    | inl e ↦ rw e a.1
    | inr e ↦ rw e (a.0, unlink-Belongs j h q a.1)
  ]

  unlink-FiledFrom :
      (h : Handle) (qs : Ipbucket) (j : ℕ) → FiledFrom j qs → FiledFrom j (map (unlink h) qs)
  unlink-FiledFrom h [] j f = tt
  unlink-FiledFrom h (q ∷ qs) j f = (unlink-Belongs j h q f.0, unlink-FiledFrom h qs (suc j) f.1)

  -- `ipbucket_add` of a block with its size, of 512 bytes up to 2 ^ 63, keeps every block in
  -- the bucket of its size.
  pub add-Filed :
      (ipb : Ipbucket) (h : Handle)
      → IsBlockSize (size_of h)
      → Filed ipb
      → Filed (ipbucket_add ipb h (size_of h))
  unfolding ipbucket_add
  add-Filed ipb h s f =
      let (i, e, _) = index_down_total (size_of h) in
      let old = get_or-Belongs ipb i 0 i (omega arith) f.filed in
      rw (e, ipbucket_add)
        record {
          width = length-set ipb i _ ∙ f.width;
          filed =
              set-FiledFrom ipb i 0 i _ (omega arith) f.filed
                (elim (Bool-cases (size_of h == ipbucket_block_size (size_of h))) [
                  | inl x ↦ rw x ((s, e), old)
                  | inr x ↦ rw x (All-append (Belongs i) _ (h ∷ []) old ((s, e), tt))
                ]);
        }

  pub del-Filed : (ipb : Ipbucket) (h : Handle) → Filed ipb → Filed (ipbucket_del ipb h)
  unfolding ipbucket_del
  del-Filed ipb h f = record {
    width = length-map ipb (unlink h) ∙ f.width;
    filed = unlink-FiledFrom h ipb 0 f.filed;
  }

  pub update-Filed :
      (ipb : Ipbucket) (h : Handle)
      → IsBlockSize (size_of h)
      → Filed ipb
      → Filed (ipbucket_update ipb h (size_of h))
  unfolding ipbucket_update
  update-Filed ipb h s f = add-Filed (ipbucket_del ipb h) h s (del-Filed ipb h f)

  -- What the search of the queues from bucket `j` on gives, where those before bucket `k` are
  -- passed over: a block of bucket `k` or a later one, or none where all of these are empty.
  abbrev Taken : ℕ → ℕ → Option (Handle × Ipbucket) → Ipbucket → Type 0
  Taken j k none qs = AllBlocks (λ h. (m : ℕ) × Belongs m h × (m < k)) qs
  Taken j k (some (h, rest)) qs =
      ((m : ℕ) × Belongs m h × (k ≤ m))
      × FiledFrom j rest
      × ((x : Handle) → linked x qs ≡ linked x rest + (if h == x then 1 else 0))
      × (length rest ≡ length qs)

  skip-Taken :
      (j k : ℕ) (q : List Handle) (qs : Ipbucket) (o : Option (Handle × Ipbucket))
      → All (Belongs j) q
      → All (λ h. (m : ℕ) × Belongs m h × (m < k)) q
      → Taken (suc j) k o qs
      → Taken j k (Option.map (λ r. (r.0, q ∷ r.1)) o) (q ∷ qs)
  skip-Taken j k q qs none f l t = (l, t)
  skip-Taken j k q qs (some (h, rest)) f l t =
      (t.0, (f, t.1), λ x. omega (arith, t.2 x), ap suc t.3)

  take_from-Taken :
      (i j k : ℕ) (qs : Ipbucket) → i ≡ k - j → FiledFrom j qs → Taken j k (take_from i qs) qs
  unfolding take_from
  take_from-Taken zero j k [] e f = tt
  take_from-Taken (suc i) j k [] e f = tt
  take_from-Taken (suc i) j k (q ∷ qs) e f =
      skip-Taken j k q qs (take_from i qs) f.0
        (All-map (Belongs j) (λ h. (m : ℕ) × Belongs m h × (m < k)) q (λ x b. (j, b, omega arith))
          f.0)
        (take_from-Taken i (suc j) k qs (omega arith) f.1)
  take_from-Taken zero j k ([] ∷ qs) e f =
      skip-Taken j k [] qs (take_from zero qs) tt tt
        (take_from-Taken zero (suc j) k qs (omega arith) f.1)
  take_from-Taken zero j k ((h ∷ q) ∷ qs) e f =
      ((j, f.0.0, omega arith), (f.0.1, f.1), λ x. omega arith, refl)

  -- The block that `ipbucket_get` takes for `n` bytes.
  pub record Serves (n : ℕ) (ipb : Ipbucket) (r : Handle × Ipbucket) : Type 0 where
    pub fits : ipbucket_block_size n ≤ size_of r.0
    pub sized : IsBlockSize (size_of r.0)
    pub rest : Filed r.1
    pub taken : (x : Handle) → linked x ipb ≡ linked x r.1 + (if r.0 == x then 1 else 0)

  abbrev pub Served : ℕ → Ipbucket → Option (Handle × Ipbucket) → Type 0
  Served n ipb none = AllBlocks (λ h. size_of h < ipbucket_block_size n) ipb
  Served n ipb (some r) = Serves n ipb r

  too_small :
      (n i : ℕ) (qs : Ipbucket)
      → n ≤ 2 ^ 32
      → ipbucket_index n true ≡ some i
      → AllBlocks (λ h. (m : ℕ) × Belongs m h × (m < i)) qs
      → AllBlocks (λ h. size_of h < ipbucket_block_size n) qs
  too_small n i [] h e a = tt
  too_small n i (q ∷ qs) h e a = (queue q a.0, too_small n i qs h e a.1)
    where
      queue :
          (q : List Handle)
          → All (λ h. (m : ℕ) × Belongs m h × (m < i)) q
          → All (λ h. size_of h < ipbucket_block_size n) q
      queue [] a = tt
      queue (x ∷ q) a =
          let (m, (s, b), l) = a.0 in
          let w = index_fits n (size_of x) i m h s.0 s.1 e b in
          (
            elim (dec_lt (size_of x) (ipbucket_block_size n)) [
              | yes u ↦ u
              | no u ↦ absurd (omega (arith, w.1 (omega arith), l))
            ],
            queue q a.1,
          )

  from_Taken :
      (n i : ℕ) (ipb : Ipbucket) (o : Option (Handle × Ipbucket))
      → n ≤ 2 ^ 32
      → ipbucket_index n true ≡ some i
      → Filed ipb
      → Taken 0 i o ipb
      → Served n ipb o
  from_Taken n i ipb none h e f t = too_small n i ipb h e t
  from_Taken n i ipb (some (x, rest)) h e f t =
      let (m, (s, b), l) = t.0 in
      record {
        fits = (index_fits n (size_of x) i m h s.0 s.1 e b).0 l;
        sized = s;
        rest = record { width = t.3 ∙ f.width; filed = t.1 };
        taken = t.2;
      }

  -- On a list whose blocks stand in the buckets of their sizes, `ipbucket_get` for at most 2
  -- ^ 32 bytes takes a block of at least the rounded size, unlinks it once and nothing else,
  -- and keeps the others filed; it gives null only where every block on the list is smaller
  -- than the rounded size.
  pub ipbucket_get-Served :
      (ipb : Ipbucket) (n : ℕ) → n ≤ 2 ^ 32 → Filed ipb → Served n ipb (ipbucket_get ipb n)
  unfolding ipbucket_get
  ipbucket_get-Served ipb n h f =
      let (i, e, _) = index_up_total n h in
      rw (e, ipbucket_get)
        (from_Taken n i ipb (take_from i ipb) h e f
          (take_from-Taken i 0 i ipb (omega arith) f.filed))
