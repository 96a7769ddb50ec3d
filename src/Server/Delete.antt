-- ===== src/Server/Delete.antt =====
-- The deletion of items in server.c keeps the counters right, and spares items in use.
use olivehc.Prelude.{
  ℕ, ◌-◌, ◌≡◌, true, not, ◌||◌, Option, none, some, ◌==◌, arith, refl, ap, ◌∙◌, Bool-cases, inl,
  inr,
}
use olivehc.Ipbucket.{Handle}
use olivehc.Server.{
  Blocks, Item, Server, World, find_item, change_item, free_item, on_server, unlink_lru,
}
use olivehc.Hash.{hash_del}
use olivehc.Server.Accounts.{
  server_of, block_bytes, body_bytes, one, Balanced, Accounts, charge-Accounts,
  change_item-SameTotals, total-free, find_item-handle, Balanced-keeps, on_server-Accounts,
  unlink_lru-Accounts,
}
use olivehc.Server.Keep.{Kept}
use olivehc.Server.Remove.{erase_item, drop_item, unhash, server_item_delete}

module _ (b : Blocks) where
  erase_item-Accounts :
      (w : World b.D) (item : Item)
      → find_item w.items item.handle ≡ some item
      → Accounts w
      → Accounts (erase_item b w item)
  unfolding erase_item unlink_lru on_server
  erase_item-Accounts w item e a =
      let i = item.server_index in
      let size = b.return_free_block w.blocks item.handle item.length item.badblock in
      charge-Accounts (unlink_lru w i item.handle) i
        (λ s. record s {
          content = s.content - item.length;
          consumed = s.consumed - size.0;
          item_nr = s.item_nr - 1;
        })
        (free_item item.handle w.items) (unlink_lru-Accounts w i item.handle a)
        (λ s v. uncharged s v)
        (λ j n. (
          ground (arith, n, total-free server_of block_bytes j item.handle w.items item e),
          ground (arith, n, total-free server_of body_bytes j item.handle w.items item e),
          ground (arith, n, total-free server_of one j item.handle w.items item e),
        ))
    where
      uncharged :
          (s : Server)
          → Balanced item.server_index w.items s
          → Balanced item.server_index (free_item item.handle w.items) (record s {
            content = s.content - item.length;
            consumed =
                s.consumed - (b.return_free_block w.blocks item.handle item.length item.badblock).0;
            item_nr = s.item_nr - 1;
          })
      uncharged s v =
          let self : (item.server_index == item.server_index) ≡ true = ground arith in
          let left =
            λ (u : Item → ℕ). total-free server_of u item.server_index item.handle w.items item e in
          record {
            consumed = ground (
              arith,
              self,
              left block_bytes,
              v.consumed,
              b.return_size w.blocks item.handle item.length item.badblock,
            );
            content = ground (arith, self, left body_bytes, v.content);
            item_nr = ground (arith, self, left one, v.item_nr);
          }

  drop_item-Accounts :
      (w : World b.D) (item : Item)
      → find_item w.items item.handle ≡ some item
      → Accounts w
      → Accounts (drop_item b w item)
  unfolding drop_item
  drop_item-Accounts w item e a = elim (Bool-cases (item.putting || not (item.used == 0))) [
    | inl t ↦ rw t (λ j.
        Balanced-keeps j w.items
          (change_item (λ x. record x { deleted = true }) item.handle w.items) (w.servers j)
          (w.servers j) (a j)
          (change_item-SameTotals j (λ x. record x { deleted = true }) item.handle w.items
            (λ x. (refl, refl)))
          refl refl refl)
    | inr t ↦ rw t (erase_item-Accounts w item e a)
  ]

  unhash-Accounts : (w : World b.D) (item : Item) → Accounts w → Accounts (unhash b w item)
  unfolding unhash
  unhash-Accounts w item a = elim (Bool-cases item.deleted) [
    | inl t ↦ rw t a
    | inr t ↦ rw t (
        on_server-Accounts w item.server_index
          (λ s. record s { hash = hash_del s.hash item.handle }) (λ s. (refl, refl, refl)) a)
  ]

  pub unhash-items : (w : World b.D) (item : Item) → (unhash b w item).items ≡ w.items
  unfolding unhash on_server
  unhash-items w item = elim (Bool-cases item.deleted) [ inl t ↦ rw t refl | inr t ↦ rw t refl ]

  pub item_delete-Accounts :
      (w : World b.D) (h : Handle) → Accounts w → Accounts (server_item_delete b w h)
  unfolding server_item_delete
  item_delete-Accounts w h a = on_item (find_item w.items h) refl
    where
      on_item :
          (o : Option Item)
          → find_item w.items h ≡ o
          → Accounts (elim o [ none ↦ w | some item ↦ drop_item b (unhash b w item) item ])
      on_item none e = a
      on_item (some item) e =
          let same : item.handle ≡ h = find_item-handle w.items h item e in
          let still : find_item (unhash b w item).items item.handle ≡ some item =
            ap (λ xs. find_item xs item.handle) (unhash-items w item)
            ∙ ap (find_item w.items) same
            ∙ e in
          drop_item-Accounts (unhash b w item) item still (unhash-Accounts w item a)

  pub deletions-Kept : Kept b Accounts
  deletions-Kept = record {
    item = item_delete-Accounts;
    server = on_server-Accounts;
    passbys = λ w ps a. a;
    device = λ w d a. a;
  }
