-- ===== src/Server/Keep.antt =====
-- server.c and device.c: what the deletion of one item keeps, the loops of deletions keep.
use olivehc.Prelude.{
  ℕ, zero, suc, ◌+◌, ◌-◌, ◌≡◌, Bool, true, false, List, [], ◌∷◌, refl, leb, if◌then◌else◌,
}
use olivehc.SizeClass.{ipbucket_block_size}
use olivehc.Ipbucket.{Handle}
use olivehc.Device.{loop_limit}
use olivehc.Server.{
  Round, finished, cleared, crowded, Blocks, PassbyItem, Server, World, free_passby, on_server,
  unlink,
}
use olivehc.Hash.{hash_del}
use olivehc.Server.Remove.{
  reversed, server_item_delete, server_passby_item_delete, expire_items, expire_passbys,
  server_item_expire, expire_shared, server_shared_expire, delete_neighbours, extend_loop,
  device_free_block_extend,
}

-- A property of worlds that is kept by the deletion of an item, by what leaves the counters of a
-- server, and by changes of the passby items and of the blocks.
pub record Kept (b : Blocks) (P : World b.D → Type 0) : Type 0 where
  pub item : (w : World b.D) (h : Handle) → P w → P (server_item_delete b w h)
  pub server :
      (w : World b.D) (i : ℕ) (f : Server → Server)
      → ((s : Server)
          → ((f s).consumed ≡ s.consumed)
            × ((f s).content ≡ s.content)
            × ((f s).item_nr ≡ s.item_nr))
      → P w
      → P (on_server w i f)
  pub passbys : (w : World b.D) (ps : List PassbyItem) → P w → P (record w { passbys = ps })
  pub device : (w : World b.D) (d : b.D) → P w → P (record w { blocks = d })

module _ (b : Blocks) (P : World b.D → Type 0) (kept : Kept b P) where
  if_keeps : (c : Bool) (x y : World b.D) → P x → P y → P (if c then x else y)
  if_keeps true x y p q = p
  if_keeps false x y p q = q

  pub passby_delete_keeps :
      (w : World b.D) (i : ℕ) (h : Handle) → P w → P (server_passby_item_delete b w i h)
  unfolding server_passby_item_delete
  passby_delete_keeps w i h a =
      let f = λ (s : Server). record s {
        hash = hash_del s.hash h;
        passby_lru = unlink h s.passby_lru;
        passby_item_nr = s.passby_item_nr - 1;
      } in
      kept.passbys (on_server w i f) (free_passby h w.passbys)
        (kept.server w i f (λ s. (refl, refl, refl)) a)

  expire_items_keeps :
      (i before target : ℕ) (hs : List Handle) (count : ℕ) (w : World b.D)
      → P w
      → P (expire_items b i before target hs count w).1
  unfolding expire_items
  expire_items_keeps i before target [] count w a = a
  expire_items_keeps i before target (h ∷ hs) count w a =
      three_ways _ (leb loop_limit count) (count, w) (count + 1, server_item_delete b w h) _ a
        (kept.item w h a)
        (expire_items_keeps i before target hs (count + 1) (server_item_delete b w h)
          (kept.item w h a))
    where
      three_ways :
          (c d : Bool) (x y z : ℕ × World b.D)
          → P x.1
          → P y.1
          → P z.1
          → P (if c then x else if d then y else z).1
      three_ways true d x y z p q r = p
      three_ways false true x y z p q r = q
      three_ways false false x y z p q r = r

  expire_passbys_keeps :
      (i : ℕ) (hs : List Handle) (count : ℕ) (w : World b.D)
      → P w
      → P (expire_passbys b i hs count w)
  unfolding expire_passbys
  expire_passbys_keeps i [] count w a = a
  expire_passbys_keeps i (h ∷ hs) count w a = if_keeps _ w _ a (
      if_keeps (leb loop_limit count) _ _ (passby_delete_keeps w i h a) (
        expire_passbys_keeps i hs (count + 1) (server_passby_item_delete b w i h)
          (passby_delete_keeps w i h a)))

  pub item_expire_keeps : (w : World b.D) (i target : ℕ) → P w → P (server_item_expire b w i target)
  unfolding server_item_expire
  item_expire_keeps w i target a =
      let items = reversed (w.servers i).lru [] in
      let before = (w.servers i).consumed in
      expire_passbys_keeps i (reversed (w.servers i).passby_lru [])
        (expire_items b i before target items 0 w).0 (expire_items b i before target items 0 w).1
        (expire_items_keeps i before target items 0 w a)

  expire_shared_keeps :
      (target : ℕ) (hs : List Handle) (size count : ℕ) (w : World b.D)
      → P w
      → P (expire_shared b target hs size count w)
  unfolding expire_shared
  expire_shared_keeps target [] size count w a = a
  expire_shared_keeps target (h ∷ hs) size count w a = if_keeps _ w _ a (
      if_keeps (leb loop_limit count) _ _ (kept.item w h a)
        (expire_shared_keeps target hs _ (count + 1) (server_item_delete b w h) (kept.item w h a)))

  pub shared_expire_keeps : (w : World b.D) (target : ℕ) → P w → P (server_shared_expire b w target)
  unfolding server_shared_expire
  shared_expire_keeps w target a = expire_shared_keeps target (reversed w.shared_lru []) 0 0 w a

  delete_neighbours_keeps : (hs : List Handle) (w : World b.D) → P w → P (delete_neighbours b hs w)
  unfolding delete_neighbours
  delete_neighbours_keeps [] w a = a
  delete_neighbours_keeps (h ∷ hs) w a =
      delete_neighbours_keeps hs _ (if_keeps _ w _ a (kept.item w h a))

  extend_loop_keeps :
      (rounds target last : ℕ) (w : World b.D) → P w → P (extend_loop b rounds target last w)
  unfolding extend_loop
  extend_loop_keeps zero target last w a = a
  extend_loop_keeps (suc rounds) target last w a =
      on_round (b.extend_round w.blocks target last)
        (λ size d.
          extend_loop_keeps rounds target size (record w { blocks = d }) (kept.device w d a))
        (λ size hs.
          extend_loop_keeps rounds target size (delete_neighbours b hs w)
            (delete_neighbours_keeps hs w a))
    where
      on_round :
          (r : Round b.D)
          → ((size : ℕ) (d : b.D) → P (extend_loop b rounds target size (record w { blocks = d })))
          → ((size : ℕ) (hs : List Handle)
              → P (extend_loop b rounds target size (delete_neighbours b hs w)))
          → P (elim r [
            | finished ↦ w
            | cleared size d ↦ extend_loop b rounds target size (record w { blocks = d })
            | crowded size hs ↦ extend_loop b rounds target size (delete_neighbours b hs w)
          ])
      on_round finished f g = a
      on_round (cleared size d) f g = f size d
      on_round (crowded size hs) f g = g size hs

  pub block_extend_keeps :
      (w : World b.D) (target : ℕ) → P w → P (device_free_block_extend b w target)
  unfolding device_free_block_extend
  block_extend_keeps w target a = extend_loop_keeps loop_limit (ipbucket_block_size target) 0 w a
