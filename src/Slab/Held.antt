-- ===== src/Slab/Held.antt =====
-- utils/slab.c: a slab, seen with the pieces that its users hold.
use olivehc.Prelude.{
  ℕ, ◌+◌, ◌<◌, ◌≤◌, ◌≡◌, Bool, true, false, ◌&&◌, none, some, List, [], ◌∷◌, ◌==◌, if◌then◌else◌,
  arith, refl, ap, subst, sym, ◌∙◌, Bool-cases, inl, inr, to_nat, count, length, All,
}
use olivehc.Slab.{Piece, SlabBlock, Slab, find_block, drop_block, slab_buckets}

abbrev pub same : Piece → Piece → Bool
same p q = p.leader == q.leader && p.place == q.place

-- How often a piece, or a piece of a block, is on a list.
abbrev pub times : Piece → List Piece → ℕ
times p ps = count (λ q. same q p) ps

abbrev pub from_block : ℕ → List Piece → ℕ
from_block base ps = count (λ q. q.leader == base) ps

-- The users give a piece back.
abbrev pub give_back : Piece → List Piece → List Piece
give_back p [] = []
give_back p (q ∷ qs) = if same q p then qs else q ∷ give_back p qs

-- A block: its free pieces and the held ones make up the whole, and no piece is both.
pub record BlockOk (buckets : ℕ) (held : List Piece) (b : SlabBlock) : Type 0 where
  pub counted : b.frees ≡ length b.pieces
  pub whole : b.frees + from_block b.base held ≡ buckets
  pub own : (p : Piece) → (p.leader == b.base) ≡ false → times p b.pieces ≡ 0
  pub apart : (p : Piece) → times p b.pieces + times p held ≤ 1

-- A block with free pieces, and one without.
abbrev pub Hung : ℕ → List Piece → SlabBlock → Type 0
Hung buckets held b = BlockOk buckets held b × (0 < b.frees)

abbrev pub Gone : ℕ → List Piece → SlabBlock → Type 0
Gone buckets held b = BlockOk buckets held b × (b.frees ≡ 0)

abbrev pub bases : ℕ → List SlabBlock → ℕ
bases k bs = count (λ b. b.base == k) bs

-- The abstract view of a slab: the pieces that are held.
pub record Holds (held : List Piece) (s : Slab) : Type 0 where
  pub hung : All (Hung (slab_buckets s.item_size) held) s.blocks
  pub gone : All (Gone (slab_buckets s.item_size) held) s.away
  pub single : (k : ℕ) → bases k s.blocks + bases k s.away ≤ 1
  pub homed : (k : ℕ) → bases k s.blocks + bases k s.away ≡ 0 → from_block k held ≡ 0
  pub alone : (p : Piece) → times p held ≤ 1

-- What holds of the blocks of other bases.
pub others {κ} :
    {P Q : SlabBlock → Type κ} (k : ℕ) (bs : List SlabBlock)
    → bases k bs ≡ 0
    → ((b : SlabBlock) → (b.base == k) ≡ false → P b → Q b)
    → All P bs
    → All Q bs
others k [] e f a = a
others {P = P} {Q = Q} k (b ∷ bs) e f (p, a) = elim (Bool-cases (b.base == k)) [
  | inl t ↦ let no : ⊥ = ground (arith, t, e) in elim no [ ]
  | inr t ↦
      let rest : bases k bs ≡ 0 = ground (arith, t, e) in
      (f b t p, others {P = P} {Q = Q} k bs rest f a)
]

pub find_block-none : (k : ℕ) (bs : List SlabBlock) → find_block k bs ≡ none → bases k bs ≡ 0
unfolding find_block
find_block-none k [] e = refl
find_block-none k (b ∷ bs) e = elim (Bool-cases (b.base == k)) [
  | inl t ↦ ground (arith, t, e)
  | inr t ↦
      let rest : find_block k bs ≡ none = ground (arith, t, e) in
      ground (arith, t, find_block-none k bs rest)
]

pub find_block-All {κ} :
    (P : SlabBlock → Type κ) (k : ℕ) (bs : List SlabBlock) (b : SlabBlock)
    → find_block k bs ≡ some b
    → All P bs
    → P b × (b.base ≡ k) × ((j : ℕ) → bases j (drop_block k bs) + to_nat (k == j) ≡ bases j bs)
unfolding find_block drop_block
find_block-All P k [] b e a = cc
find_block-All P k (c ∷ bs) b e (p, a) = elim (Bool-cases (c.base == k)) [
  | inl t ↦
      let is : c ≡ b = ground (arith, t, e) in
      let at : c.base ≡ k = ground (arith, t) in
      (
        subst P is p,
        ap (λ (x : SlabBlock). x.base) (sym is) ∙ at,
        λ j. rw (t, drop_block) (rw at (omega arith)),
      )
  | inr t ↦
      let rest : find_block k bs ≡ some b = ground (arith, t, e) in
      let (q, at, less) = find_block-All P k bs b rest a in
      (q, at, λ j. let l = less j in rw (t, drop_block) (omega (arith, l)))
]

pub drop_block-All {κ} :
    (P : SlabBlock → Type κ) (k : ℕ) (bs : List SlabBlock) → All P bs → All P (drop_block k bs)
unfolding drop_block
drop_block-All P k [] a = a
drop_block-All P k (b ∷ bs) (p, a) = elim (Bool-cases (b.base == k)) [
  | inl t ↦ rw (t, drop_block) a
  | inr t ↦ rw (t, drop_block) (p, drop_block-All P k bs a)
]

-- A piece that the users take or give back, for a block that is not its own.
pub same-leader : (p q : Piece) → same q p ≡ true → q.leader ≡ p.leader
same-leader p q t = ground (arith, t)

pub times-leader : (p : Piece) (ps : List Piece) → times p ps ≤ from_block p.leader ps
times-leader p [] = omega arith
times-leader p (q ∷ qs) = elim (Bool-cases (same q p)) [
  | inl t ↦
      let l : (q.leader == p.leader) ≡ true = ground (arith, t) in
      ground (arith, t, l, times-leader p qs)
  | inr t ↦ ground (arith, t, times-leader p qs)
]

pub same-times : (p q r : Piece) → same q p ≡ true → to_nat (same q r) ≡ to_nat (same p r)
same-times p q r t =
    let l : q.leader ≡ p.leader = ground (arith, t) in
    let m : q.place ≡ p.place = ground (arith, t) in rw (l, m) refl

pub times-give_back :
    (p : Piece) (ps : List Piece) (r : Piece)
    → 0 < times p ps
    → times r (give_back p ps) + to_nat (same p r) ≡ times r ps
times-give_back p [] r h = omega (arith, h)
times-give_back p (q ∷ qs) r h = elim (Bool-cases (same q p)) [
  | inl t ↦ rw t (omega (arith, same-times p q r t))
  | inr t ↦
      let h' : 0 < times p qs = ground (arith, t, h) in
      rw t (omega (arith, times-give_back p qs r h'))
]

pub from_block-give_back :
    (p : Piece) (ps : List Piece) (k : ℕ)
    → 0 < times p ps
    → from_block k (give_back p ps) + to_nat (p.leader == k) ≡ from_block k ps
from_block-give_back p [] k h = omega (arith, h)
from_block-give_back p (q ∷ qs) k h = elim (Bool-cases (same q p)) [
  | inl t ↦ rw (t, same-leader p q t) (omega arith)
  | inr t ↦
      let h' : 0 < times p qs = ground (arith, t, h) in
      rw t (omega (arith, from_block-give_back p qs k h'))
]
