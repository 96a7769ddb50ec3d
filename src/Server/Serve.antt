-- ===== src/Server/Serve.antt =====
-- server.c: the handlers of GET and DELETE and the end of a request keep the counters and marks.
use olivehc.Prelude.{
  ℕ, ◌+◌, ◌%◌, ◌^◌, ◌<◌, ◌≡◌, Bool, ◌||◌, Option, none, some, List, ◌∷◌, arith, refl, ap, subst,
  sym, ◌∙◌, Bool-cases, inl, inr, Bytes,
}
use olivehc.Ipbucket.{Handle}
use olivehc.Hash.{HashId, HashNode, hash_get}
use olivehc.Http.Headers.{HttpRequest}
use olivehc.Server.{
  Blocks, Item, PassbyItem, Stats, World, find_item, find_passby, change_item, unlink, on_server,
  unlink_lru, server_item_valid,
}
use olivehc.Server.Accounts.{
  handle_of, one, Balanced-keeps, change_item-SameTotals, on_server-Accounts, link_lru-Accounts,
  unlink_lru-Accounts, find_item-handle, total-change,
}
use olivehc.Server.Remove.{server_item_delete, server_passby_item_delete}
use olivehc.Server.Keep.{passby_delete_keeps}
use olivehc.Server.Link.{link_lru-items}
use olivehc.Server.Holds.{uses, Held, Few, total-change_found, found-total}
use olivehc.Server.Sound.{Sound, Answer, Sound-Kept, item_delete-Sound}
use olivehc.Server.Request.{
  Status, error, done, bump, request_key, server_hash_get, get_item, get_node, item_hit, passby_hit,
  server_request_get_handler, delete_node, server_request_delete_handler,
}

module _ (b : Blocks) (md5 : Bytes → HashId) (mem : Bool) (hs : List Handle) where
  counted-Sound :
      (w : World b.D) (i : ℕ) (f : Stats → Stats) → Sound hs w → Sound hs (on_server w i (bump f))
  counted-Sound w i f v = (Sound-Kept b hs).server w i (bump f) (λ s. (refl, refl, refl)) v

  hash_get-Sound :
      (w : World b.D) (i : ℕ) (r : HttpRequest)
      → Sound hs w
      → Sound hs (server_hash_get md5 mem w i r).2
  unfolding server_hash_get
  hash_get-Sound w i r v =
      (Sound-Kept b hs).server w i
        (λ s. record s {
          hash = (hash_get md5 mem (w.servers i).hash (request_key (w.servers i) r)).2;
        })
        (λ s. (refl, refl, refl)) v

  -- The marks of the found item, with one more holder.
  use_item-Held :
      (xs : List Item) (item : Item)
      → find_item xs item.handle ≡ some item
      → Few hs
      → Held hs xs
      → Held
          (item.handle ∷ hs)
          (change_item (λ x. record x { used = (x.used + 1) % 2 ^ 16 }) item.handle xs)
  use_item-Held xs item e few v =
      let use_it = λ (x : Item). record x { used = (x.used + 1) % 2 ^ 16 } in
      let used_is : item.used + 1 < 2 ^ 16 = omega (
        arith,
        few item.handle,
        v.counted item.handle,
        found-total uses item.handle xs item e (v.alone item.handle),
      ) in
      record {
        counted = λ k.
            let more = total-change_found uses k use_it item.handle xs item e in
            ground (arith, more, v.counted k, used_is);
        alone = λ k.
            omega
              (arith, total-change handle_of one k use_it item.handle xs (λ x. refl), v.alone k);
      }

  item_hit-Sound :
      (w : World b.D) (i : ℕ) (item : Item)
      → find_item w.items item.handle ≡ some item
      → Few hs
      → Sound hs w
      → Sound (item.handle ∷ hs) (item_hit b md5 w i item)
  unfolding item_hit on_server unlink_lru
  item_hit-Sound w i item e few v =
      let use_it = λ (x : Item). record x { used = (x.used + 1) % 2 ^ 16 } in
      let ys = change_item use_it item.handle w.items in
      let counted = on_server w i (bump (λ t. record t { hits = t.hits + 1 })) in
      let held = use_item-Held w.items item e few v.held in
      let w1 = record counted { blocks = b.use_device w.blocks item.handle; items = ys } in
      let w2 = unlink_lru w1 item.server_index item.handle in
      let fair =
        on_server-Accounts w i (bump (λ t. record t { hits = t.hits + 1 }))
          (λ s. (refl, refl, refl)) v.accounts in
      record {
        accounts = link_lru-Accounts w2 i item.handle (
            unlink_lru-Accounts w1 item.server_index item.handle (λ j.
              Balanced-keeps j w.items ys (counted.servers j) (counted.servers j) (fair j)
                (change_item-SameTotals j use_it item.handle w.items (λ x. (refl, refl))) refl refl
                refl));
        held = subst (Held (item.handle ∷ hs)) (sym (link_lru-items w2 i item.handle)) held;
      }

  get_item-Answer :
      (w : World b.D) (i : ℕ) (item : Item)
      → find_item w.items item.handle ≡ some item
      → Few hs
      → Sound hs w
      → Answer hs (get_item b md5 w i item)
  unfolding get_item
  get_item-Answer w i item e few v = elim (Bool-cases (item.deleted || item.putting)) [
    | inl t ↦ rw (t, get_item) v
    | inr t ↦ elim (Bool-cases (server_item_valid b w item)) [
      | inl u ↦ rw (t, u, get_item) (item_hit-Sound w i item e few v)
      | inr u ↦ rw (t, u, get_item) (item_delete-Sound b hs w item.handle v)
    ]
  ]

  get_node-Answer :
      (w : World b.D) (i : ℕ) (h : Handle) → Few hs → Sound hs w → Answer hs (get_node b md5 w i h)
  unfolding get_node passby_hit
  get_node-Answer w i h few v = node (find_passby w.passbys h) (find_item w.items h) refl
    where
      node :
          (p : Option PassbyItem) (o : Option Item)
          → find_item w.items h ≡ o
          → Answer hs (elim p as (λ _. Status × World b.D) [
            | some p ↦ (error, passby_hit b md5 w i h)
            | none ↦ elim o [ none ↦ (error, w) | some item ↦ get_item b md5 w i item ]
          ])
      node (some p) o e =
          (Sound-Kept b hs).server w i
            (λ s. record (bump (λ t. record t { passby_hits = t.passby_hits + 1 }) s) {
              passby_lru = h ∷ unlink h s.passby_lru;
            })
            (λ s. (refl, refl, refl)) v
      node none none e = v
      node none (some item) e =
          get_item-Answer w i item (ap (find_item w.items) (find_item-handle w.items h item e) ∙ e)
            few v

  pub get_handler-Answer :
      (w : World b.D) (i : ℕ) (r : HttpRequest)
      → Few hs
      → Sound hs w
      → Answer hs (server_request_get_handler b md5 mem w i r)
  unfolding server_request_get_handler
  get_handler-Answer w i r few v = on_node (server_hash_get md5 mem w1 i r).0
    where
      w1 : World b.D
      w1 = on_server w i (bump (λ t. record t { gets = t.gets + 1 }))

      looked : Sound hs (server_hash_get md5 mem w1 i r).2
      looked = hash_get-Sound w1 i r (counted-Sound w i (λ t. record t { gets = t.gets + 1 }) v)

      on_node :
          (o : Option HashNode)
          → Answer hs (elim o as (λ _. Status × World b.D) [
            | none ↦ (error, (server_hash_get md5 mem w1 i r).2)
            | some n ↦ get_node b md5 (server_hash_get md5 mem w1 i r).2 i n.handle
          ])
      on_node none = looked
      on_node (some n) = get_node-Answer (server_hash_get md5 mem w1 i r).2 i n.handle few looked

  delete_node-Sound :
      (w : World b.D) (i : ℕ) (h : Handle) → Sound hs w → Sound hs (delete_node b md5 w i h)
  unfolding delete_node
  delete_node-Sound w i h v = node (find_passby w.passbys h)
    where
      node :
          (p : Option PassbyItem)
          → Sound hs (elim p as (λ _. World b.D) [
            | some p ↦ server_passby_item_delete b w i h
            | none ↦ server_item_delete b w h
          ])
      node (some p) = passby_delete_keeps b (Sound hs) (Sound-Kept b hs) w i h v
      node none = item_delete-Sound b hs w h v

  pub delete_handler-Answer :
      (w : World b.D) (i : ℕ) (r : HttpRequest)
      → Sound hs w
      → Answer hs (server_request_delete_handler b md5 mem w i r)
  unfolding server_request_delete_handler
  delete_handler-Answer w i r v = on_node (server_hash_get md5 mem w1 i r).0
    where
      w1 : World b.D
      w1 = on_server w i (bump (λ t. record t { deletes = t.deletes + 1 }))

      looked : Sound hs (server_hash_get md5 mem w1 i r).2
      looked =
          hash_get-Sound w1 i r (counted-Sound w i (λ t. record t { deletes = t.deletes + 1 }) v)

      on_node :
          (o : Option HashNode)
          → Answer hs (elim o as (λ _. Status × World b.D) [
            | none ↦ (error, (server_hash_get md5 mem w1 i r).2)
            | some n ↦ (done, delete_node b md5 (server_hash_get md5 mem w1 i r).2 i n.handle)
          ])
      on_node none = looked
      on_node (some n) = delete_node-Sound (server_hash_get md5 mem w1 i r).2 i n.handle looked
