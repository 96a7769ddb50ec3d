-- ===== src/Slab.antt =====
-- utils/slab.c: pieces of one size, carved from larger blocks of memory. The word before a piece,
-- its leader, points to its block; `malloc` is an argument.
pub mod Held
pub mod Alloc
pub mod Free
mod Tests
use olivehc.Prelude.{
  ℕ, zero, suc, ◌+◌, ◌-◌, ◌*◌, ◌/◌, Bool, true, false, ◌&&◌, Option, none, some, List, [], ◌∷◌,
  ◌==◌, if◌then◌else◌,
}

-- A piece that is given out: its address, with the leader before it.
pub record Piece : Type 0 where
  pub leader : ℕ
  pub place : ℕ

-- `slab_block_t`, at an address.
pub record SlabBlock : Type 0 where
  pub base : ℕ
  pub pieces : List Piece
  pub frees : ℕ

-- `ohc_slab_t`: the blocks that hang on it, and the blocks without a free piece, which do not.
pub record Slab : Type 0 where
  pub item_size : ℕ
  pub blocks : List SlabBlock
  pub away : List SlabBlock

-- `sizeof(slab_block_t)`, with pointers of 8 bytes
abbrev pub slab_block_size : ℕ
slab_block_size = 40

unfoldable pub slab_buckets : ℕ → ℕ
slab_buckets item_size = (128 * 1024 - slab_block_size - 100) / item_size

-- The loop over the pieces of a new block, from the first leader on; the last piece comes first.
unfoldable pub carve : ℕ → ℕ → ℕ → ℕ → List Piece → List Piece
carve base size leader zero ps = ps
carve base size leader (suc n) ps =
    carve base size (leader + size) n (record { leader = base; place = leader + 8 } ∷ ps)

-- No memory; a block without a piece, whose first is NULL; or a piece.
pub data Allocated : Type 0 where
  no_memory : Allocated
  null_piece : Allocated
  given : Piece → Slab → Allocated

-- The part behind the choice of the block, before the other blocks.
unfoldable pub take_piece : ℕ → List SlabBlock → List SlabBlock → SlabBlock → List Piece → Allocated
take_piece size blocks away b [] = null_piece
take_piece size blocks away b (p ∷ ps) =
    let left = record b { pieces = ps; frees = b.frees - 1 } in
    given p (
      if b.frees - 1 == 0
      then record { item_size = size; blocks = blocks; away = left ∷ away }
      else record { item_size = size; blocks = left ∷ blocks; away = away })

unfoldable pub new_block : ℕ → ℕ → SlabBlock
unfolding carve slab_buckets
new_block size base = record {
  base = base;
  pieces = carve base size (base + slab_block_size) (slab_buckets size) [];
  frees = slab_buckets size;
}

-- `malloc` gives the address of a block, if it does.
unfoldable pub slab_alloc : Option ℕ → Slab → Allocated
unfolding new_block take_piece
slab_alloc malloc s = elim s.blocks [
  | [] ↦ elim malloc [
    | none ↦ no_memory
    | some base ↦ let b = new_block s.item_size base in take_piece s.item_size [] s.away b b.pieces
  ]
  | b ∷ bs ↦ take_piece s.item_size bs s.away b b.pieces
]

unfoldable pub find_block : ℕ → List SlabBlock → Option SlabBlock
find_block base [] = none
find_block base (b ∷ bs) = let rest = find_block base bs in if b.base == base then some b else rest

unfoldable pub drop_block : ℕ → List SlabBlock → List SlabBlock
drop_block base [] = []
drop_block base (b ∷ bs) = let rest = drop_block base bs in if b.base == base then bs else b ∷ rest

abbrev pub with_piece : Piece → SlabBlock → SlabBlock
with_piece p b = record b { pieces = p ∷ b.pieces; frees = b.frees + 1 }

abbrev pub is_last : List SlabBlock → Bool
is_last [] = true
is_last (b ∷ bs) = false

-- The piece goes back to its block, in whose place the list goes on; a block that is whole and
-- not the last is freed.
unfoldable pub put_back : ℕ → Piece → List SlabBlock → List SlabBlock
put_back buckets p [] = []
put_back buckets p (b ∷ bs) =
    let rest = put_back buckets p bs in
    if b.base == p.leader
    then (if b.frees + 1 == buckets
        then (if is_last bs then with_piece p b ∷ bs else bs)
        else with_piece p b ∷ bs)
    else b ∷ rest

-- A block that was without a free piece hangs on the slab again.
unfoldable pub catch_block : Slab → SlabBlock → Slab
unfolding drop_block
catch_block s b =
    if b.frees == 0 then record s { blocks = b ∷ s.blocks; away = drop_block b.base s.away } else s

-- A piece with a leader that is no block's gives none.
unfoldable pub slab_free : Piece → Slab → Option Slab
unfolding find_block catch_block put_back slab_buckets
slab_free p s =
    let owner : Option SlabBlock = elim (find_block p.leader s.blocks) [
      | some b ↦ some b
      | none ↦ find_block p.leader s.away
    ] in
    elim owner [
      | none ↦ none
      | some b ↦
          let t = catch_block s b in
          some (record t { blocks = put_back (slab_buckets s.item_size) p t.blocks })
    ]
