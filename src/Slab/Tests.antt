-- ===== src/Slab/Tests.antt =====
-- A slab of pieces of 40,000 bytes, of which a block has three.
use olivehc.Prelude.{◌≡◌, some, [], ◌∷◌, arith, refl, subst}
use olivehc.Slab.{Piece, Slab, slab_buckets, carve, take_piece, given, slab_alloc, slab_free}
use olivehc.Slab.Held.{Holds, give_back}
use olivehc.Slab.Alloc.{AllocOk, slab_alloc-AllocOk}
use olivehc.Slab.Free.{FreeOk, slab_free-FreeOk}

abbrev unused : Slab
unused = record { item_size = 40000; blocks = []; away = [] }

unused-Holds : Holds [] unused
unused-Holds = record {
  hung = tt;
  gone = tt;
  single = λ k. omega arith;
  homed = λ k e. refl;
  alone = λ p. omega arith;
}

three_pieces : slab_buckets 40000 ≡ 3
unfolding slab_buckets
three_pieces = refl

slab_alloc-AllocOk_example : AllocOk [] unused (slab_alloc (some 1000) unused)
slab_alloc-AllocOk_example =
    slab_alloc-AllocOk (some 1000) unused [] (omega arith) (rw three_pieces (omega arith))
      (λ base e. refl) unused-Holds

-- The piece with the highest address comes first.
abbrev last_piece : Piece
last_piece = record { leader = 1000; place = 81048 }

abbrev one_taken : Slab
one_taken = record {
  item_size = 40000;
  blocks =
      record {
        base = 1000;
        pieces =
            record { leader = 1000; place = 41048 } ∷ record { leader = 1000; place = 1048 } ∷ [];
        frees = 2;
      }
      ∷ [];
  away = [];
}

alloc_runs : slab_alloc (some 1000) unused ≡ given last_piece one_taken
unfolding slab_alloc slab_buckets carve take_piece
alloc_runs = refl

one_taken-Holds : Holds (last_piece ∷ []) one_taken
one_taken-Holds = (subst (AllocOk [] unused) alloc_runs slab_alloc-AllocOk_example).1

slab_free-FreeOk_example :
    FreeOk (give_back last_piece (last_piece ∷ [])) (slab_free last_piece one_taken)
slab_free-FreeOk_example =
    slab_free-FreeOk last_piece one_taken (last_piece ∷ []) (omega arith) one_taken-Holds
