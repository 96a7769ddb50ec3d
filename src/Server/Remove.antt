-- ===== src/Server/Remove.antt =====
-- server.c and device.c: the deletion of items, one by one, by last use, or to make a free block
-- larger.
use olivehc.Prelude.{
  ℕ, zero, suc, ◌+◌, ◌-◌, Bool, true, false, not, ◌&&◌, ◌||◌, none, some, List, [], ◌∷◌, leb, ltb,
  ◌==◌, if◌then◌else◌,
}
use olivehc.SizeClass.{ipbucket_block_size}
use olivehc.Ipbucket.{Handle}
use olivehc.Hash.{hash_del}
use olivehc.Device.{loop_limit}
use olivehc.Server.{
  finished, cleared, crowded, Blocks, Item, World, find_item, find_passby, change_item, free_item,
  free_passby, unlink, on_server, unlink_lru, server_item_valid,
}

abbrev pub reversed : List Handle → List Handle → List Handle
reversed [] ys = ys
reversed (x ∷ xs) ys = reversed xs (x ∷ ys)

module _ (b : Blocks) where
  -- "delete the item actally"
  unfoldable pub erase_item : World b.D → Item → World b.D
  unfolding unlink_lru on_server free_item
  erase_item w item =
      let i = item.server_index in
      let (block_size, blocks) =
        b.return_free_block w.blocks item.handle item.length item.badblock in
      record (on_server (unlink_lru w i item.handle) i (λ s. record s {
        content = s.content - item.length;
        consumed = s.consumed - block_size;
        item_nr = s.item_nr - 1;
      })) { items = free_item item.handle w.items; blocks = blocks }

  -- The part behind `hash_del`.
  unfoldable pub drop_item : World b.D → Item → World b.D
  unfolding erase_item change_item
  drop_item w item =
      if item.putting || not (item.used == 0)
      then record w { items = change_item (λ x. record x { deleted = true }) item.handle w.items }
      else erase_item w item

  unfoldable pub unhash : World b.D → Item → World b.D
  unfolding on_server
  unhash w item =
      if item.deleted
      then w
      else on_server w item.server_index (λ s. record s { hash = hash_del s.hash item.handle })

  -- A handle that no item has stands for no call.
  unfoldable pub server_item_delete : World b.D → Handle → World b.D
  unfolding unhash drop_item
  server_item_delete w h = elim (find_item w.items h) [
    | none ↦ w
    | some item ↦ drop_item (unhash w item) item
  ]

  unfoldable pub server_passby_item_delete : World b.D → ℕ → Handle → World b.D
  unfolding on_server free_passby unlink
  server_passby_item_delete w i h =
      record (on_server w i (λ s. record s {
        hash = hash_del s.hash h;
        passby_lru = unlink h s.passby_lru;
        passby_item_nr = s.passby_item_nr - 1;
      })) { passbys = free_passby h w.passbys }

  -- The first loop of `server_item_expire`, from the last item on; also the number of items.
  unfoldable pub expire_items : ℕ → ℕ → ℕ → List Handle → ℕ → World b.D → ℕ × World b.D
  expire_items i before target [] count w = (count, w)
  expire_items i before target (h ∷ hs) count w =
      let keep : Bool = elim (find_item w.items h) [
        | none ↦ false
        | some item ↦ leb target (before - (w.servers i).consumed) && server_item_valid b w item
      ] in
      let w' = server_item_delete w h in
      let rest = expire_items i before target hs (count + 1) w' in
      if keep then (count, w) else if leb loop_limit count then (count + 1, w') else rest

  -- The second loop, over the passby items.
  unfoldable pub expire_passbys : ℕ → List Handle → ℕ → World b.D → World b.D
  expire_passbys i [] count w = w
  expire_passbys i (h ∷ hs) count w =
      let s = w.servers i in
      let keep : Bool = elim (find_passby w.passbys h) [
        | none ↦ false
        | some p ↦ s.passby_enable && ltb s.passby_item_nr s.passby_limit_nr && ltb w.now p.expire
      ] in
      let w' = server_passby_item_delete w i h in
      let rest = expire_passbys i hs (count + 1) w' in
      if keep then w else if leb loop_limit count then w' else rest

  unfoldable pub server_item_expire : World b.D → ℕ → ℕ → World b.D
  unfolding expire_items expire_passbys
  server_item_expire w i target =
      let s = w.servers i in
      let (count, w') = expire_items i s.consumed target (reversed s.lru []) 0 w in
      expire_passbys i (reversed s.passby_lru []) count w'

  unfoldable pub expire_shared : ℕ → List Handle → ℕ → ℕ → World b.D → World b.D
  expire_shared target [] size count w = w
  expire_shared target (h ∷ hs) size count w =
      let length : ℕ = elim (find_item w.items h) [ none ↦ 0 | some item ↦ item.length ] in
      let keep : Bool = elim (find_item w.items h) [
        | none ↦ false
        | some item ↦ leb target size && server_item_valid b w item
      ] in
      let w' = server_item_delete w h in
      let rest = expire_shared target hs (size + length) (count + 1) w' in
      if keep then w else if leb loop_limit count then w' else rest

  unfoldable pub server_shared_expire : World b.D → ℕ → World b.D
  unfolding expire_shared
  server_shared_expire w target = expire_shared target (reversed w.shared_lru []) 0 0 w

  -- `device_delete_item` of the neighbours of a block; a hot item stays.
  unfoldable pub delete_neighbours : List Handle → World b.D → World b.D
  delete_neighbours [] w = w
  delete_neighbours (h ∷ hs) w =
      let hot : Bool = elim (find_item w.items h) [
        | none ↦ true
        | some item ↦ item.putting || not (item.used == 0)
      ] in
      delete_neighbours hs (if hot then w else server_item_delete w h)

  -- The loop of `device_free_block_extend`, with the target rounded.
  unfoldable pub extend_loop : ℕ → ℕ → ℕ → World b.D → World b.D
  unfolding delete_neighbours
  extend_loop zero target last w = w
  extend_loop (suc rounds) target last w = elim (b.extend_round w.blocks target last) [
    | finished ↦ w
    | cleared size d ↦ extend_loop rounds target size (record w { blocks = d })
    | crowded size hs ↦ extend_loop rounds target size (delete_neighbours hs w)
  ]

  unfoldable pub device_free_block_extend : World b.D → ℕ → World b.D
  unfolding extend_loop
  device_free_block_extend w target = extend_loop loop_limit (ipbucket_block_size target) 0 w
