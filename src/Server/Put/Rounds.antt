-- ===== src/Server/Put/Rounds.antt =====
-- server.c: the search for a free block in the handler of PUT.
use olivehc.Prelude.{
  ℕ, zero, suc, ◌+◌, ◌*◌, ◌%◌, ◌^◌, ◌<◌, ◌≤◌, ◌≡◌, Bool, true, false, not, ◌&&◌, ltb, ◌==◌,
  if◌then◌else◌, arith, refl, inl, inr,
}
use olivehc.SizeClass.{ipbucket_block_size}
use olivehc.Ipbucket.{Handle}
use olivehc.Server.{Blocks, World}
use olivehc.Server.Remove.{server_item_expire, server_shared_expire, device_free_block_extend}
use olivehc.Server.Keep.{Kept, item_expire_keeps, shared_expire_keeps, block_extend_keeps}
use olivehc.Server.Request.Space.{Space, found, full, stuck, find_space}

module _ {D : Type 0} (P : World D → Type 0) (length : ℕ) where
  -- The search has ended, in a world with the property, and a block that it has found is of the
  -- length's size.
  abbrev pub SpaceOk : Space D → Type 0
  SpaceOk (found size w) = (size ≡ ipbucket_block_size length) × P w
  SpaceOk (full w) = P w
  SpaceOk stuck = ⊥

  by_tests :
      (z c1 c2 c3 c4 : Bool) (x0 x1 x2 x3 x4 x5 : Space D)
      → (z ≡ true → SpaceOk x0)
      → (c1 ≡ true → SpaceOk x1)
      → (c2 ≡ true → SpaceOk x2)
      → (c3 ≡ true → SpaceOk x3)
      → (c4 ≡ true → SpaceOk x4)
      → SpaceOk x5
      → SpaceOk (
          if z
          then x0
          else if c1
          then x1
          else if c2
          then x2
          else if c3
          then x3
          else if c4
          then x4
          else x5)
  by_tests true c1 c2 c3 c4 x0 x1 x2 x3 x4 x5 p0 p1 p2 p3 p4 p5 = p0 refl
  by_tests false true c2 c3 c4 x0 x1 x2 x3 x4 x5 p0 p1 p2 p3 p4 p5 = p1 refl
  by_tests false false true c3 c4 x0 x1 x2 x3 x4 x5 p0 p1 p2 p3 p4 p5 = p2 refl
  by_tests false false false true c4 x0 x1 x2 x3 x4 x5 p0 p1 p2 p3 p4 p5 = p3 refl
  by_tests false false false false true x0 x1 x2 x3 x4 x5 p0 p1 p2 p3 p4 p5 = p4 refl
  by_tests false false false false false x0 x1 x2 x3 x4 x5 p0 p1 p2 p3 p4 p5 = p5

below : (a n : ℕ) (c : Bool) → ltb a n && c ≡ true → a < n
below a n c e = ground arith

module _ (b : Blocks) (P : World b.D → Type 0) (kept : Kept b P) where
  -- With `try` at most 12 and with it more than 12 rounds, as the PUT handler has with 13
  -- rounds and a `try` of 0, the search for a free block ends: it finds a block of the size
  -- of the item's length or gives up; and a property of the servers and items that the
  -- deletion of an item, changes that leave the counters of a server, changes of the passby
  -- items and of the devices keep, holds at its end if it held at its beginning.
  pub find_space-SpaceOk :
      (rounds try : ℕ) (w : World b.D) (i : ℕ) (h : Handle) (length : ℕ)
      → 12 < rounds + try
      → try ≤ 12
      → P w
      → SpaceOk P length (find_space b rounds try w i h length)
  unfolding find_space
  find_space-SpaceOk zero try w i h length enough few a = omega (arith, enough, few)
  find_space-SpaceOk (suc rounds) try w i h length enough few a =
      let size : ℕ = (b.get_free_block w.blocks h length).0 in
      let tried = record w { blocks = (b.get_free_block w.blocks h length).1 } in
      let twice = length * 2 % 2 ^ 32 in
      let known = kept.device w (b.get_free_block w.blocks h length).1 a in
      by_tests P length (not (size == 0)) _ _ _ (ltb (try + 3) 12) (found size tried) _ _ _ _ _
        (λ e.
          (elim (b.get_size w.blocks h length) [ inl z ↦ ground (arith, z, e) | inr s ↦ s ], known))
        (λ e.
          let l = below try 2 _ e in
          find_space-SpaceOk rounds (try + 1) (server_item_expire b tried i twice) i h length
            (omega (arith, enough)) (omega (arith, l))
            (item_expire_keeps b P kept tried i twice known))
        (λ e.
          let l = below (try + 1) 5 _ e in
          find_space-SpaceOk rounds (try + 2) (server_shared_expire b tried twice) i h length
            (omega (arith, enough)) (omega (arith, l))
            (shared_expire_keeps b P kept tried twice known))
        (λ e.
          let l = below (try + 2) 9 _ e in
          find_space-SpaceOk rounds (try + 3) (server_item_expire b tried i twice) i h length
            (omega (arith, enough)) (omega (arith, l))
            (item_expire_keeps b P kept tried i twice known))
        (λ e.
          find_space-SpaceOk rounds (try + 4) (device_free_block_extend b tried length) i h length
            (omega (arith, enough)) (ground (arith, e))
            (block_extend_keeps b P kept tried length known))
        known
