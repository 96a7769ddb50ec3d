-- ===== src/Slab/Alloc/Carve.antt =====
-- The pieces that `slab_alloc` of utils/slab.c carves from a new block.
use olivehc.Prelude.{
  ℕ, zero, suc, ◌+◌, ◌<◌, ◌≤◌, ◌≡◌, false, List, ◌∷◌, ◌==◌, arith, refl, Bool-cases, inl, inr,
  length,
}
use olivehc.Slab.{Piece, carve}
use olivehc.Slab.Held.{same, times}

-- The pieces of a new block.
pub carve-length :
    (base size leader n : ℕ) (ps : List Piece)
    → length (carve base size leader n ps) ≡ n + length ps
unfolding carve
carve-length base size leader zero ps = omega arith
carve-length base size leader (suc n) ps = omega (
  arith,
  carve-length base size (leader + size) n (record { leader = base; place = leader + 8 } ∷ ps),
)

pub carve-own :
    (base size leader n : ℕ) (ps : List Piece) (p : Piece)
    → (p.leader == base) ≡ false
    → times p (carve base size leader n ps) ≡ times p ps
unfolding carve
carve-own base size leader zero ps p e = refl
carve-own base size leader (suc n) ps p e =
    let new : same (record { leader = base; place = leader + 8 }) p ≡ false = ground (arith, e) in
    ground (
      arith,
      new,
      carve-own base size (leader + size) n (record { leader = base; place = leader + 8 } ∷ ps) p e,
    )

-- Each address is above those before.
pub carve-below :
    (base size leader n : ℕ) (ps : List Piece) (p : Piece)
    → p.place < leader + 8
    → times p (carve base size leader n ps) ≡ times p ps
unfolding carve
carve-below base size leader zero ps p l = refl
carve-below base size leader (suc n) ps p l =
    let new : same (record { leader = base; place = leader + 8 }) p ≡ false = ground (arith, l) in
    ground (
      arith,
      new,
      carve-below base size (leader + size) n (record { leader = base; place = leader + 8 } ∷ ps) p
          (omega (arith, l)),
    )

pub carve-once :
    (base size leader n : ℕ) (ps : List Piece) (p : Piece)
    → 0 < size
    → times p ps ≤ 1
    → (leader + 8 ≤ p.place → times p ps ≡ 0)
    → times p (carve base size leader n ps) ≤ 1
unfolding carve
carve-once base size leader zero ps p s o f = o
carve-once base size leader (suc n) ps p s o f = elim (Bool-cases (same q p)) [
  | inl t ↦
      let at : p.place ≡ leader + 8 = ground (arith, t) in
      let before : times p ps ≡ 0 = f (omega (arith, at)) in
      let kept = carve-below base size (leader + size) n (q ∷ ps) p (omega (arith, at, s)) in
      ground (arith, t, before, kept)
  | inr t ↦
      carve-once base size (leader + size) n (q ∷ ps) p s (ground (arith, t, o))
        (λ l. ground (arith, t, f (omega (arith, l))))
]
  where
    q : Piece
    q = record { leader = base; place = leader + 8 }
