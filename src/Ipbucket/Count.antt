-- ===== src/Ipbucket/Count.antt =====
-- How often a block is linked after each operation of utils/ipbucket.h, and which block
-- `ipbucket_biggest` gives.
use olivehc.Prelude.{
  ℕ, zero, suc, ◌+◌, ◌≤◌, ◌<◌, ◌≡◌, Option, none, some, List, [], ◌∷◌, ◌++◌, set, get_or, ◌==◌,
  if◌then◌else◌, arith, All, All-map, length, refl,
}
use olivehc.SizeClass.{ipb_buckets, ipbucket_block_size}
use olivehc.SizeClass.Fit.{index_down_total}
use olivehc.Ipbucket.{
  Handle, Ipbucket, unlink, ipbucket_add, ipbucket_del, last_of, ipbucket_biggest,
}
use olivehc.Ipbucket.Filed.{occurrences, linked, AllBlocks, FiledFrom, Belongs, Filed}

occurrences-append :
    (x : Handle) (p q : List Handle) → occurrences x (p ++ q) ≡ occurrences x p + occurrences x q
occurrences-append x [] q = omega arith
occurrences-append x (h ∷ p) q = omega (arith, occurrences-append x p q)

linked-set :
    (x : Handle) (ipb : Ipbucket) (i : ℕ) (q : List Handle)
    → i < length ipb
    → linked x (set ipb i q) + occurrences x (get_or ipb i []) ≡ linked x ipb + occurrences x q
linked-set x [] i q l = absurd (omega arith)
linked-set x (p ∷ ipb) zero q l = omega arith
linked-set x (p ∷ ipb) (suc i) q l = omega (arith, linked-set x ipb i q (omega arith))

-- `ipbucket_add` links the block once more, and no other.
pub linked-add :
    (ipb : Ipbucket) (h : Handle) (size : ℕ) (x : Handle)
    → length ipb ≡ ipb_buckets
    → linked x (ipbucket_add ipb h size) ≡ linked x ipb + (if h == x then 1 else 0)
unfolding ipbucket_add
linked-add ipb h size x w =
    let (i, e, l) = index_down_total size in
    let old = get_or ipb i [] in
    rw (e, ipbucket_add)
      (ground (
        arith,
        linked-set x ipb i (if size == ipbucket_block_size size then h ∷ old else old ++ (h ∷ [])),
        occurrences-append x old (h ∷ []),
      ))

occurrences-unlink :
    (h x : Handle) (q : List Handle)
    → occurrences h q ≤ 1
    → occurrences x (unlink h q) ≡ (if h == x then 0 else occurrences x q)
unfolding unlink
occurrences-unlink h x [] l = ground arith
occurrences-unlink h x (y ∷ q) l = ground (arith, occurrences-unlink h x q)

-- `ipbucket_del` of a block that is linked at most once unlinks that block and no other.
pub linked-del :
    (ipb : Ipbucket) (h x : Handle)
    → linked h ipb ≤ 1
    → linked x (ipbucket_del ipb h) ≡ (if h == x then 0 else linked x ipb)
unfolding ipbucket_del
linked-del [] h x l = ground arith
linked-del (q ∷ qs) h x l = ground (arith, occurrences-unlink h x q, linked-del qs h x)

module _ (size_of : Handle → ℕ) where
  -- `h` stands in the last of the queues from bucket `j` on that is not empty.
  abbrev pub Biggest : ℕ → Option Handle → Ipbucket → Type 0
  Biggest j none qs = (x : Handle) → linked x qs ≡ 0
  Biggest j (some h) qs =
      (m : ℕ) × Belongs size_of m h
      × (j ≤ m)
      × (0 < linked h qs)
      × AllBlocks (λ x. (k : ℕ) × Belongs size_of k x × (k ≤ m)) qs

  -- The last block of one queue.
  abbrev Last : ℕ → Option Handle → List Handle → Type 0
  Last j none q = (x : Handle) → occurrences x q ≡ 0
  Last j (some h) q = Belongs size_of j h × (0 < occurrences h q)

  last_of-Last : (j : ℕ) (q : List Handle) → All (Belongs size_of j) q → Last j (last_of q) q
  unfolding last_of
  last_of-Last j [] a = λ x. refl
  last_of-Last j (h ∷ []) a = (a.0, ground arith)
  last_of-Last j (h ∷ y ∷ q) a = further (last_of (y ∷ q)) (last_of-Last j (y ∷ q) a.1)
    where
      further : (o : Option Handle) → Last j o (y ∷ q) → Last j o (h ∷ y ∷ q)
      further none l = absurd (ground (arith, l y))
      further (some z) l = (l.0, omega (arith, l.1))

  abbrev UpTo : ℕ → Handle → Type 0
  UpTo m x = (k : ℕ) × Belongs size_of k x × (k ≤ m)

  none_All :
      (P : Handle → Type 0) (q : List Handle) → ((x : Handle) → occurrences x q ≡ 0) → All P q
  none_All P [] e = tt
  none_All P (h ∷ q) e = absurd (ground (arith, e h))

  none_AllBlocks :
      (P : Handle → Type 0) (qs : Ipbucket) → ((x : Handle) → linked x qs ≡ 0) → AllBlocks P qs
  none_AllBlocks P [] e = tt
  none_AllBlocks P (q ∷ qs) e =
      (none_All P q (λ x. omega (arith, e x)), none_AllBlocks P qs (λ x. omega (arith, e x)))

  -- The queue of bucket `j` before the later ones.
  later_Biggest :
      (j : ℕ) (q : List Handle) (qs : Ipbucket) (o : Option Handle)
      → All (Belongs size_of j) q
      → Biggest (suc j) o qs
      → Biggest j (elim o [ some h ↦ some h | none ↦ last_of q ]) (q ∷ qs)
  later_Biggest j q qs (some h) a (m, b, g, l, u) = (
    m,
    b,
    omega (arith, g),
    omega (arith, l),
    (All-map (Belongs size_of j) (UpTo m) q (λ x c. (j, c, omega (arith, g))) a, u),
  )
  later_Biggest j q qs none a e = only (last_of q) (last_of-Last j q a)
    where
      only : (o : Option Handle) → Last j o q → Biggest j o (q ∷ qs)
      only none l = λ x. omega (arith, l x, e x)
      only (some h) l = (
        j,
        l.0,
        omega arith,
        omega (arith, l.1),
        (
          All-map (Belongs size_of j) (UpTo j) q (λ x c. (j, c, omega arith)) a,
          none_AllBlocks (UpTo j) qs e,
        ),
      )

  search-Biggest :
      (j : ℕ) (qs : Ipbucket) → FiledFrom size_of j qs → Biggest j (ipbucket_biggest qs) qs
  unfolding ipbucket_biggest
  search-Biggest j [] f = λ x. refl
  search-Biggest j (q ∷ qs) f =
      later_Biggest j q qs (ipbucket_biggest qs) f.0 (search-Biggest (suc j) qs f.1)

  -- On a list whose blocks stand in the buckets of their sizes, `ipbucket_biggest` gives a
  -- linked block such that no block stands in a later bucket, and null only where no block is
  -- linked.
  pub ipbucket_biggest-Biggest :
      (ipb : Ipbucket) → Filed size_of ipb → Biggest 0 (ipbucket_biggest ipb) ipb
  ipbucket_biggest-Biggest ipb f = search-Biggest 0 ipb f.filed
