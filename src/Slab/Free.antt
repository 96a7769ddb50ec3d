-- ===== src/Slab/Free.antt =====
-- `slab_free` of utils/slab.c.
use olivehc.Prelude.{
  ℕ, ◌+◌, ◌<◌, ◌≤◌, ◌≡◌, ◌⊎◌, true, false, Option, none, some, List, [], ◌∷◌, ◌==◌, arith, refl,
  subst, sym, Bool-cases, inl, inr, to_nat, All,
}
use olivehc.Slab.{
  Piece, SlabBlock, Slab, slab_buckets, find_block, drop_block, with_piece, is_last, put_back,
  catch_block, slab_free,
}
use olivehc.Slab.Held.{
  same, times, from_block, give_back, BlockOk, bases, Hung, Gone, Holds, others, find_block-none,
  find_block-All, drop_block-All, times-give_back, from_block-give_back, times-leader,
}

oks :
    (n : ℕ) (held : List Piece) (bs : List SlabBlock)
    → All (Hung n held) bs
    → All (BlockOk n held) bs
oks n held [] a = a
oks n held (b ∷ bs) (p, a) = (p.0, oks n held bs a)

module _ (n : ℕ) (held : List Piece) (p : Piece) (is_held : 0 < times p held) where
  abbrev left : List Piece
  left = give_back p held

  back-BlockOk :
      (b : SlabBlock)
      → (b.base == p.leader) ≡ true
      → BlockOk n held b
      → BlockOk n left (with_piece p b)
  back-BlockOk b e v =
      let fewer = from_block-give_back p held b.base is_held in
      let at : (p.leader == b.base) ≡ true = ground (arith, e) in
      record {
        counted = omega (arith, v.counted);
        whole = ground (arith, fewer, at, v.whole);
        own = λ r l.
            let new : same p r ≡ false = ground (arith, l, at) in ground (arith, new, v.own r l);
        apart = λ r. omega (arith, times-give_back p held r is_held, v.apart r);
      }

  elsewhere-BlockOk :
      (b : SlabBlock) → (b.base == p.leader) ≡ false → BlockOk n held b → BlockOk n left b
  elsewhere-BlockOk b e v =
      let fewer = from_block-give_back p held b.base is_held in
      let at : (p.leader == b.base) ≡ false = ground (arith, e) in
      record {
        counted = v.counted;
        whole = ground (arith, fewer, at, v.whole);
        own = v.own;
        apart = λ r. omega (arith, times-give_back p held r is_held, v.apart r);
      }

  -- The list from the piece's block on.
  head_back-Hung :
      (b : SlabBlock) (bs : List SlabBlock)
      → (b.base == p.leader) ≡ true
      → BlockOk n held b
      → All (Hung n held) bs
      → bases p.leader bs ≡ 0
      → All (Hung n left) (put_back n p (b ∷ bs))
  unfolding put_back
  head_back-Hung b bs e v a z =
      let rest : All (Hung n left) bs =
        others {P = Hung n held} {Q = Hung n left} p.leader bs z
          (λ c d k. (elsewhere-BlockOk c d k.0, k.1)) a in
      let whole : Hung n left (with_piece p b) = (back-BlockOk b e v, omega arith) in
      elim (Bool-cases (b.frees + 1 == n)) [
        | inl t ↦ elim (Bool-cases (is_last bs)) [
          | inl u ↦ rw (e, t, u, put_back) (whole, rest)
          | inr u ↦ rw (e, t, u, put_back) rest
        ]
        | inr t ↦ rw (e, t, put_back) (whole, rest)
      ]

  put_back-Hung :
      (bs : List SlabBlock)
      → All (Hung n held) bs
      → bases p.leader bs ≤ 1
      → All (Hung n left) (put_back n p bs)
  unfolding put_back
  put_back-Hung [] a l = a
  put_back-Hung (b ∷ bs) (v, a) l = elim (Bool-cases (b.base == p.leader)) [
    | inl t ↦ head_back-Hung b bs t v.0 a (ground (arith, t, l))
    | inr t ↦
        rw (t, put_back)
          ((elsewhere-BlockOk b t v.0, v.1), put_back-Hung bs a (ground (arith, t, l)))
  ]

  bases-put_back : (k : ℕ) (bs : List SlabBlock) → bases k (put_back n p bs) ≤ bases k bs
  unfolding put_back
  bases-put_back k [] = omega arith
  bases-put_back k (b ∷ bs) = elim (Bool-cases (b.base == p.leader)) [
    | inl t ↦ elim (Bool-cases (b.frees + 1 == n)) [
      | inl u ↦ elim (Bool-cases (is_last bs)) [
        | inl x ↦ rw (t, u, x, put_back) (omega arith)
        | inr x ↦ rw (t, u, x, put_back) (omega arith)
      ]
      | inr u ↦ rw (t, u, put_back) (omega arith)
    ]
    | inr t ↦ rw (t, put_back) (omega (arith, bases-put_back k bs))
  ]

  tail-put_back :
      (k : ℕ) (b : SlabBlock) (bs : List SlabBlock)
      → (b.base == p.leader) ≡ true
      → bases k bs ≤ bases k (put_back n p (b ∷ bs))
  unfolding put_back
  tail-put_back k b bs t = elim (Bool-cases (b.frees + 1 == n)) [
    | inl u ↦ elim (Bool-cases (is_last bs)) [
      | inl x ↦ rw (t, u, x, put_back) (omega arith)
      | inr x ↦ rw (t, u, x, put_back) (omega arith)
    ]
    | inr u ↦ rw (t, u, put_back) (omega arith)
  ]

  -- A block that is freed has no piece that is held.
  put_back-homed :
      (k : ℕ) (bs : List SlabBlock)
      → All (BlockOk n held) bs
      → bases k (put_back n p bs) ≡ 0
      → (bases k bs ≡ 0) ⊎ (from_block k left ≡ 0)
  unfolding put_back
  put_back-homed k [] a z = inl refl
  put_back-homed k (b ∷ bs) (v, a) z = elim (Bool-cases (b.base == p.leader)) [
    | inl t ↦ elim (Bool-cases (b.frees + 1 == n)) [
      | inl u ↦ elim (Bool-cases (b.base == k)) [
        | inl x ↦
            let ok = back-BlockOk b t v in
            let at : b.base ≡ k = ground (arith, x) in
            let none_left : from_block b.base left ≡ 0 = ground (arith, u, ok.whole) in
            inr (subst (λ j. from_block j left ≡ 0) at none_left)
        | inr x ↦ let l = tail-put_back k b bs t in inl (ground (arith, x, l, z))
      ]
      | inr u ↦
          inl
            (whole_tail (put_back n p (b ∷ bs)) (with_piece p b ∷ bs) (rw (t, u, put_back) refl) z)
    ]
    | inr t ↦
        let z' : bases k (b ∷ put_back n p bs) ≡ 0 =
          whole_tail (put_back n p (b ∷ bs)) (b ∷ put_back n p bs) (rw (t, put_back) refl) z in
        elim (put_back-homed k bs a (omega (arith, z'))) [
          | inl y ↦ inl (omega (arith, y, z'))
          | inr y ↦ inr y
        ]
  ]
    where
      whole_tail : (xs ys : List SlabBlock) → xs ≡ ys → bases k xs ≡ 0 → bases k ys ≡ 0
      whole_tail xs ys e w = subst (λ l. bases k l ≡ 0) e w

-- The slab behind a piece that was given back.
abbrev pub FreeOk : List Piece → Option Slab → Type 0
FreeOk held none = ⊥
FreeOk held (some s) = Holds held s

module _ (p : Piece) (s : Slab) (held : List Piece) (is_held : 0 < times p held)
    (v : Holds held s) where
  abbrev n : ℕ
  n = slab_buckets s.item_size

  abbrev put : Slab → Slab
  put t = record t { blocks = put_back n p t.blocks }

  still_alone : (r : Piece) → times r (give_back p held) ≤ 1
  still_alone r = omega (arith, times-give_back p held r is_held, v.alone r)

  -- What is left to see of a slab whose blocks are right.
  put-Holds :
      (t : Slab)
      → t.item_size ≡ s.item_size
      → All (Hung n (give_back p held)) (put_back n p t.blocks)
      → All (Gone n (give_back p held)) t.away
      → All (BlockOk n held) t.blocks
      → ((k : ℕ) → bases k t.blocks + bases k t.away ≡ bases k s.blocks + bases k s.away)
      → Holds (give_back p held) (put t)
  put-Holds t size hung gone ok same_bases = record {
    hung = rw size hung;
    gone = rw size gone;
    single =
        λ k. omega (arith, bases-put_back n held p is_held k t.blocks, same_bases k, v.single k);
    homed = λ k z. elim (put_back-homed n held p is_held k t.blocks ok (omega (arith, z))) [
      | inl y ↦
          let was : from_block k held ≡ 0 = v.homed k (omega (arith, y, z, same_bases k)) in
          omega (arith, was, from_block-give_back p held k is_held)
      | inr y ↦ y
    ];
    alone = still_alone;
  }

  elsewhere-Gone :
      (bs : List SlabBlock)
      → bases p.leader bs ≡ 0
      → All (Gone n held) bs
      → All (Gone n (give_back p held)) bs
  elsewhere-Gone bs z a =
      others {P = Gone n held} {Q = Gone n (give_back p held)} p.leader bs z
        (λ c d k. (elsewhere-BlockOk n held p is_held c d k.0, k.1)) a

  -- On a slab that stands for the pieces that its users hold, `slab_free` of a held piece
  -- finds the piece's block and leaves a slab that stands for the held pieces without it, so
  -- that a block that is freed has no piece that is held.
  pub slab_free-FreeOk : FreeOk (give_back p held) (slab_free p s)
  unfolding slab_free catch_block
  slab_free-FreeOk = on_owner (find_block p.leader s.blocks) refl (find_block p.leader s.away) refl
    where
      on_owner :
          (o : Option SlabBlock)
          → find_block p.leader s.blocks ≡ o
          → (q : Option SlabBlock) → find_block p.leader s.away ≡ q
          → FreeOk
              (give_back p held)
              (elim (elim o as (λ _. Option SlabBlock) [ some b ↦ some b | none ↦ q ])
                as (λ _. Option Slab) [
                  | none ↦ none
                  | some b ↦
                      let t = catch_block s b in
                      some (record t { blocks = put_back (slab_buckets s.item_size) p t.blocks })
                ])
      on_owner (some b) e q f =
          let (ok, at, less) = find_block-All (Hung n held) p.leader s.blocks b e v.hung in
          let some_free : (b.frees == 0) ≡ false = ground (arith, ok.1) in
          let self : (p.leader == p.leader) ≡ true = ground arith in
          let there : bases p.leader s.away ≡ 0 =
            ground (arith, less p.leader, self, v.single p.leader) in
          rw (some_free, catch_block)
            (put-Holds s refl
              (put_back-Hung n held p is_held s.blocks v.hung (omega (arith, v.single p.leader)))
              (elsewhere-Gone s.away there v.gone) (oks n held s.blocks v.hung) (λ k. refl))
      on_owner none e (some b) f =
          let (ok, at, less) = find_block-All (Gone n held) p.leader s.away b f v.gone in
          let no_free : (b.frees == 0) ≡ true = ground (arith, ok.1) in
          let self : (p.leader == p.leader) ≡ true = ground arith in
          let is : (b.base == p.leader) ≡ true = ground (arith, at) in
          let not_hung = find_block-none p.leader s.blocks e in
          let dropped : bases p.leader (drop_block p.leader s.away) ≡ 0 =
            ground (arith, less p.leader, self, v.single p.leader) in
          let gone =
            elsewhere-Gone (drop_block p.leader s.away) dropped
              (drop_block-All (Gone n held) p.leader s.away v.gone) in
          rw (no_free, catch_block)
            (put-Holds (record s { blocks = b ∷ s.blocks; away = drop_block b.base s.away }) refl
              (head_back-Hung n held p is_held b s.blocks is ok.0 v.hung not_hung)
              (subst (λ k. All (Gone n (give_back p held)) (drop_block k s.away)) (sym at) gone)
              (ok.0, oks n held s.blocks v.hung)
              (λ j.
                let moved : bases j (drop_block b.base s.away) + to_nat (b.base == j)
                    ≡ bases j s.away =
                  subst (λ k. bases j (drop_block k s.away) + to_nat (k == j) ≡ bases j s.away)
                    (sym at) (less j) in
                omega (arith, moved)))
      on_owner none e none f =
          let a = find_block-none p.leader s.blocks e in
          let b = find_block-none p.leader s.away f in
          let z = v.homed p.leader (omega (arith, a, b)) in
          omega (arith, z, times-leader p held, is_held)
