-- ===== src/Slab/Alloc.antt =====
-- `slab_alloc` of utils/slab.c.
mod Carve
use olivehc.Prelude.{
  ℕ, zero, suc, ◌+◌, ◌-◌, ◌<◌, ◌≤◌, ◌≡◌, true, false, Option, none, some, List, [], ◌∷◌, ◌==◌,
  arith, refl, ap, subst, ◌∙◌, Bool-cases, inl, inr, to_nat, length, All,
}
use olivehc.Slab.{
  Piece, SlabBlock, Slab, slab_block_size, slab_buckets, carve, Allocated, no_memory, null_piece,
  given, take_piece, new_block, slab_alloc,
}
use olivehc.Slab.Held.{
  same, times, from_block, BlockOk, bases, Hung, Gone, Holds, others, times-leader,
}
use olivehc.Slab.Alloc.Carve.{carve-length, carve-own, carve-once}

-- Whatever is asked for: a piece that no user holds, or no memory.
abbrev pub AllocOk : List Piece → Slab → Allocated → Type 0
AllocOk held before no_memory = Holds held before
AllocOk held before null_piece = ⊥
AllocOk held before (given p s) = (times p held ≡ 0) × Holds (p ∷ held) s

-- A piece that is taken from one block, for another block.
pub BlockOk-elsewhere :
    (n : ℕ) (held : List Piece) (p : Piece) (c : SlabBlock)
    → (p.leader == c.base) ≡ false
    → times p held ≡ 0
    → BlockOk n held c
    → BlockOk n (p ∷ held) c
BlockOk-elsewhere n held p c e none_held v = record {
  counted = v.counted;
  whole = ground (arith, e, v.whole);
  own = v.own;
  apart = λ r. elim (Bool-cases (same p r)) [
    | inl t ↦
        let l : (r.leader == c.base) ≡ false = ground (arith, t, e) in
        let a : r.leader ≡ p.leader = ground (arith, t) in
        let b : r.place ≡ p.place = ground (arith, t) in
        let gone : times r held ≡ 0 = rw (a, b) none_held in ground (arith, t, v.own r l, gone)
    | inr t ↦ ground (arith, t, v.apart r)
  ];
}

module _ (n : ℕ) (held : List Piece) (b : SlabBlock) (p : Piece) (ps : List Piece)
    (v : BlockOk n held b) (e : b.pieces ≡ p ∷ ps) where
  taken-leader : (p.leader == b.base) ≡ true
  taken-leader = elim (Bool-cases (p.leader == b.base)) [
    | inl t ↦ t
    | inr t ↦
        let self : same p p ≡ true = ground arith in
        let gone : times p (p ∷ ps) ≡ 0 = subst (λ xs. times p xs ≡ 0) e (v.own p t) in
        ground (arith, self, gone)
  ]

  taken-apart : (r : Piece) → to_nat (same p r) + times r ps + times r held ≤ 1
  taken-apart r = subst (λ xs. times r xs + times r held ≤ 1) e (v.apart r)

  taken-unheld : times p held ≡ 0
  taken-unheld = let self : same p p ≡ true = ground arith in ground (arith, self, taken-apart p)

  taken-BlockOk : BlockOk n (p ∷ held) (record b { pieces = ps; frees = b.frees - 1 })
  taken-BlockOk =
      let size : b.frees ≡ suc (length ps) = v.counted ∙ ap length e in
      record {
        counted = omega (arith, size);
        whole = ground (arith, taken-leader, v.whole, size);
        own = λ r l.
            let before : times r (p ∷ ps) ≡ 0 = subst (λ xs. times r xs ≡ 0) e (v.own r l) in
            omega (arith, before);
        apart = λ r. omega (arith, taken-apart r);
      }

module _ (size : ℕ) (held : List Piece) (b : SlabBlock) (bs away : List SlabBlock)
    (v : Holds held (record { item_size = size; blocks = b ∷ bs; away = away })) where
  take_piece-AllocOk : (before : Slab) → AllocOk held before (take_piece size bs away b b.pieces)
  unfolding take_piece
  take_piece-AllocOk before = taken b.pieces refl
    where
      n : ℕ
      n = slab_buckets size

      taken : (q : List Piece) → b.pieces ≡ q → AllocOk held before (take_piece size bs away b q)
      taken [] e =
          let empty : b.frees ≡ 0 = v.hung.0.0.counted ∙ ap length e in
          omega (arith, empty, v.hung.0.1)
      taken (p ∷ ps) e =
          let ok = v.hung.0.0 in
          let left = taken-BlockOk n held b p ps ok e in
          let lead = taken-leader n held b p ps ok e in
          let unheld = taken-unheld n held b p ps ok e in
          let apart = taken-apart n held b p ps ok e in
          let one_base : bases b.base bs + bases b.base away ≡ 0 =
            let self : (b.base == b.base) ≡ true = ground arith in
            ground (arith, self, v.single b.base) in
          let elsewhere = λ (c : SlabBlock) (d : (c.base == b.base) ≡ false).
            BlockOk-elsewhere n held p c (ground (arith, d, lead)) unheld in
          let hung : All (Hung n (p ∷ held)) bs =
            others {P = Hung n held} {Q = Hung n (p ∷ held)} b.base bs (omega (arith, one_base))
              (λ c d k. (elsewhere c d k.0, k.1)) v.hung.1 in
          let gone : All (Gone n (p ∷ held)) away =
            others {P = Gone n held} {Q = Gone n (p ∷ held)} b.base away (omega (arith, one_base))
              (λ c d k. (elsewhere c d k.0, k.1)) v.gone in
          let alone : (r : Piece) → times r (p ∷ held) ≤ 1 = λ r. elim (Bool-cases (same p r)) [
            | inl t ↦ ground (arith, t, apart r)
            | inr t ↦ ground (arith, t, v.alone r)
          ] in
          let homed : (k : ℕ)
              → to_nat (b.base == k) + (bases k bs + bases k away) ≡ 0
              → from_block k (p ∷ held) ≡ 0 =
            λ k z.
              let there : (p.leader == k) ≡ false = ground (arith, lead, z) in
              let was : from_block k held ≡ 0 = v.homed k (omega (arith, z)) in
              ground (arith, there, was) in
          elim (Bool-cases (b.frees - 1 == 0)) [
            | inl t ↦ (
              unheld,
              rw t record {
                hung = hung;
                gone = ((left, ground (arith, t)), gone);
                single = λ k. omega (arith, v.single k);
                homed = λ k z. homed k (omega (arith, z));
                alone = alone;
              },
            )
            | inr t ↦ (
              unheld,
              rw t record {
                hung = ((left, ground (arith, t)), hung);
                gone = gone;
                single = λ k. omega (arith, v.single k);
                homed = λ k z. homed k (omega (arith, z));
                alone = alone;
              },
            )
          ]

-- A block that `malloc` gives, beside the blocks that the slab has.
new_block-Hung :
    (size base : ℕ) (held : List Piece)
    → 0 < size
    → 0 < slab_buckets size
    → from_block base held ≡ 0
    → ((p : Piece) → times p held ≤ 1)
    → Hung (slab_buckets size) held (new_block size base)
unfolding new_block
new_block-Hung size base held some_size some_buckets unheld alone = (
  record {
    counted = omega (arith, carve-length base size (base + slab_block_size) (slab_buckets size) []);
    whole = omega (arith, unheld);
    own = λ p e. carve-own base size (base + slab_block_size) (slab_buckets size) [] p e;
    apart = λ p. elim (Bool-cases (p.leader == base)) [
      | inl t ↦
          let at : p.leader ≡ base = ground (arith, t) in
          let few : times p held ≤ from_block base held =
            subst (λ k. times p held ≤ from_block k held) at (times-leader p held) in
          omega (
            arith,
            few,
            unheld,
            carve-once base size (base + slab_block_size) (slab_buckets size) [] p some_size
                (omega arith) (λ l. refl),
          )
      | inr t ↦
          omega (
            arith,
            alone p,
            carve-own base size (base + slab_block_size) (slab_buckets size) [] p t,
          )
    ];
  },
  some_buckets,
)

-- A slab that stands for the pieces that its users hold, with pieces of at least one byte of
-- which a block has one at least, and with a `malloc` whose block is not at the address of a
-- block of the slab: `slab_alloc` gives a piece that nobody holds and leaves a slab that stands
-- for the held pieces and that one, or has no memory and leaves the slab as it was; it meets no
-- NULL.
pub slab_alloc-AllocOk :
    (malloc : Option ℕ) (s : Slab) (held : List Piece)
    → 0 < s.item_size
    → 0 < slab_buckets s.item_size
    → ((base : ℕ) → malloc ≡ some base → bases base s.blocks + bases base s.away ≡ 0)
    → Holds held s
    → AllocOk held s (slab_alloc malloc s)
unfolding slab_alloc
slab_alloc-AllocOk malloc s held some_size some_buckets new v = on_blocks s.blocks refl malloc refl
  where
    on_blocks :
        (bs : List SlabBlock)
        → s.blocks ≡ bs
        → (o : Option ℕ) → malloc ≡ o
        → AllocOk held s (elim bs as (λ _. Allocated) [
          | [] ↦ elim o [
            | none ↦ no_memory
            | some base ↦
                let b = new_block s.item_size base in take_piece s.item_size [] s.away b b.pieces
          ]
          | b ∷ bs ↦ take_piece s.item_size bs s.away b b.pieces
        ])
    on_blocks [] e none f = v
    on_blocks [] e (some base) f =
        let fresh : bases base [] + bases base s.away ≡ 0 =
          subst (λ bs. bases base bs + bases base s.away ≡ 0) e (new base f) in
        let was = v.homed base (new base f) in
        let v' : Holds held (record { item_size = s.item_size; blocks = []; away = s.away }) =
          subst (λ bs. Holds held (record { item_size = s.item_size; blocks = bs; away = s.away }))
            e v in
        take_piece-AllocOk s.item_size held (new_block s.item_size base) [] s.away
          record {
            hung =
                (new_block-Hung s.item_size base held some_size some_buckets was v.alone, v'.hung);
            gone = v.gone;
            single = λ k.
                let l = one_more base k (omega (arith, v'.single k)) (omega (arith, fresh)) in
                omega (arith, l);
            homed = λ k z. v'.homed k (omega (arith, z));
            alone = v.alone;
          }
          s
      where
        one_more :
            (base k : ℕ)
            → bases k s.away ≤ 1
            → bases base s.away ≡ 0
            → to_nat (base == k) + bases k s.away ≤ 1
        one_more base k l z = elim (Bool-cases (base == k)) [
          | inl t ↦
              let at : base ≡ k = ground (arith, t) in
              ground (arith, t, subst (λ j. bases j s.away ≡ 0) at z)
          | inr t ↦ ground (arith, t, l)
        ]
    on_blocks (b ∷ bs) e o f =
        take_piece-AllocOk s.item_size held b bs s.away
          (subst (λ bs. Holds held (record { item_size = s.item_size; blocks = bs; away = s.away }))
            e v)
          s
