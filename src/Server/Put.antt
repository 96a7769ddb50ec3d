-- ===== src/Server/Put.antt =====
-- server.c: what the handler of PUT does to the counters.
pub mod Rounds
use olivehc.Prelude.{
  ℕ, zero, suc, ◌+◌, ◌-◌, ◌*◌, ◌%◌, ◌^◌, ◌<◌, ◌≤◌, ◌≡◌, Bool, true, false, not, ◌&&◌, ◌||◌, Option,
  none, some, List, [], ◌∷◌, ltb, ◌==◌, if◌then◌else◌, arith, refl, ap, subst, sym, Bool-cases, inl,
  inr, Bytes,
}
use olivehc.SizeClass.{ipbucket_block_size}
use olivehc.Ipbucket.{Handle}
use olivehc.Hash.{HashId, HashNode, hash_add, hash_get}
use olivehc.Http.Headers.{HttpRequest}
use olivehc.Server.{
  Blocks, Item, PassbyItem, Server, Stats, World, find_item, find_passby, on_server, link_lru,
  server_item_valid,
}
use olivehc.Server.Remove.{server_item_delete, server_passby_item_delete}
use olivehc.Server.Keep.{Kept, passby_delete_keeps}
use olivehc.Server.Request.{
  Status, error, no_space, ok, done, decline, exist, expired, store_passby, too_big_item1,
  too_big_item2, bump, request_key, server_hash_get,
}
use olivehc.Server.Request.Space.{
  int32_time, Space, found, full, stuck, put_rounds, find_space, server_passby_store, link_item,
  store_item, put_expire, put_over, put_node, server_request_put_handler,
}
use olivehc.Server.Put.Rounds.{SpaceOk, find_space-SpaceOk}

-- What the handler of PUT keeps, and what it makes of the item that it stores.
module _ (b : Blocks) (md5 : Bytes → HashId) (mem : Bool) (fresh : Option Handle) (r : HttpRequest)
    (P : World b.D → Type 0) (R : Handle → World b.D → Type 0) (kept : Kept b P)
    (link : (w : World b.D) (i : ℕ) (item : Item) (size : ℕ)
      → fresh ≡ some item.handle
      → item.server_index ≡ i
      → item.putting ≡ true
      → item.used ≡ 0
      → item.length ≡ (r.content_length + r.put_header_length) % 2 ^ 32
      → size ≡ ipbucket_block_size item.length
      → P w
      → R item.handle (link_item b mem w i item size)) where
  abbrev pub Answered : Status × World b.D → Type 0
  Answered (ok h, w) = R h w
  Answered (done, w) = P w
  Answered (error, w) = P w
  Answered (no_space, w) = P w
  Answered (decline reason, w) = P w

  store_item-Answered :
      (w : World b.D) (i : ℕ) (id : HashId) (expire : ℕ)
      → P w
      → Answered (store_item b mem w i r id expire fresh)
  unfolding store_item
  store_item-Answered w i id expire a = on_fresh fresh refl
    where
      length : ℕ
      length = (r.content_length + r.put_header_length) % 2 ^ 32

      new : Handle → Item
      new h = record {
        handle = h;
        id = id;
        server_index = i;
        length = length;
        headers_len = r.put_header_length % 2 ^ 16;
        expire = int32_time expire;
        clear = (w.servers i).clear;
        used = 0;
        putting = true;
        deleted = false;
        badblock = false;
      }

      on_space :
          (h : Handle) (sp : Space b.D)
          → fresh ≡ some h
          → SpaceOk P length sp
          → Answered (elim sp as (λ _. Status × World b.D) [
            | stuck ↦ (error, w)
            | full w' ↦ (no_space, w')
            | found size w' ↦ (ok h, link_item b mem w' i (new h) size)
          ])
      on_space h stuck f e = elim e [ ]
      on_space h (full w') f e = e
      on_space h (found size w') f e = link w' i (new h) size f refl refl refl refl e.0 e.1

      on_fresh : (o : Option Handle) → fresh ≡ o → Answered (store_item b mem w i r id expire o)
      on_fresh none f = a
      on_fresh (some h) f =
          on_space h (find_space b put_rounds 0 w i h length) f
            (find_space-SpaceOk b P kept put_rounds 0 w i h length (omega arith) (omega arith) a)

  if_status :
      (c : Bool) (x y : Status × World b.D)
      → (c ≡ true → Answered x)
      → (c ≡ false → Answered y)
      → Answered (if c then x else y)
  if_status true x y p q = p refl
  if_status false x y p q = q refl

  put_over-Answered :
      (w : World b.D) (i : ℕ) (id : HashId) (expire : ℕ) (h : Handle)
      → P w
      → Answered (put_over b mem w i r id expire fresh h)
  unfolding put_over
  put_over-Answered w i id expire h a = over (find_passby w.passbys h) (find_item w.items h)
    where
      over :
          (p : Option PassbyItem) (o : Option Item)
          → Answered (elim p as (λ _. Status × World b.D) [
            | some p ↦ store_item b mem (server_passby_item_delete b w i h) i r id expire fresh
            | none ↦ elim o [
              | none ↦ (error, w)
              | some item ↦
                  if r.method == 2 || not (server_item_valid b w item)
                  then store_item b mem (server_item_delete b w h) i r id expire fresh
                  else (decline exist, w)
            ]
          ])
      over (some p) o =
          store_item-Answered (server_passby_item_delete b w i h) i id expire
            (passby_delete_keeps b P kept w i h a)
      over none none = a
      over none (some item) =
          if_status (r.method == 2 || not (server_item_valid b w item)) _ (decline exist, w)
            (λ e. store_item-Answered (server_item_delete b w h) i id expire (kept.item w h a))
            (λ e. a)

  put_node-Answered :
      (w : World b.D) (i : ℕ) (id : HashId) (expire : ℕ) (passby : Option Handle)
      (node : Option HashNode)
      → P w
      → Answered (put_node b mem w i r id expire passby fresh node)
  unfolding put_node server_passby_store
  put_node-Answered w i id expire passby (some n) a = put_over-Answered w i id expire n.handle a
  put_node-Answered w i id expire passby none a =
      elim (Bool-cases (
        not s.passby_enable
        || (ltb s.item_nr s.passby_begin_item_nr || ltb s.consumed s.passby_begin_consumed))) [
          | inl t ↦ rw (t, put_node, server_passby_store) (store_item-Answered w i id expire a)
          | inr t ↦ rw (t, put_node, server_passby_store) (with_memory passby)
        ]
    where
      s : Server
      s = w.servers i

      with_memory :
          (o : Option Handle)
          → Answered
              (elim (elim o as (λ _. Option (World b.D)) [
                | none ↦ none
                | some h ↦
                    some
                      (record (on_server w i (λ s.
                        record (bump (λ t. record t { passby_stores = t.passby_stores + 1 }) s) {
                          hash =
                              hash_add (λ x. id) mem s.hash (record { handle = h; id = id }) none;
                          passby_lru = h ∷ s.passby_lru;
                          passby_item_nr = s.passby_item_nr + 1;
                        })) {
                          passbys =
                              record {
                                handle = h;
                                id = id;
                                expire = int32_time (w.now + s.passby_expire);
                              }
                              ∷ w.passbys;
                        })
              ])
                as (λ _. Status × World b.D) [
                  | some w' ↦ (decline store_passby, w')
                  | none ↦ store_item b mem w i r id expire fresh
                ])
      with_memory none = store_item-Answered w i id expire a
      with_memory (some h) =
          let f = λ (s : Server).
            record (bump (λ t. record t { passby_stores = t.passby_stores + 1 }) s) {
              hash = hash_add (λ x. id) mem s.hash (record { handle = h; id = id }) none;
              passby_lru = h ∷ s.passby_lru;
              passby_item_nr = s.passby_item_nr + 1;
            } in
          kept.passbys (on_server w i f)
            (record { handle = h; id = id; expire = int32_time (w.now + s.passby_expire) }
              ∷ w.passbys)
            (kept.server w i f (λ s. (refl, refl, refl)) a)

  counted_keeps : (w : World b.D) (i : ℕ) (f : Stats → Stats) → P w → P (on_server w i (bump f))
  counted_keeps w i f a = kept.server w i (bump f) (λ s. (refl, refl, refl)) a

  hash_get_keeps : (w : World b.D) (i : ℕ) → P w → P (server_hash_get md5 mem w i r).2
  unfolding server_hash_get
  hash_get_keeps w i a =
      kept.server w i
        (λ s. record s {
          hash = (hash_get md5 mem (w.servers i).hash (request_key (w.servers i) r)).2;
        })
        (λ s. (refl, refl, refl)) a

  -- Whatever the handler answers, a property that its changes keep holds after it.
  pub put_handler-Answered :
      (w : World b.D) (i : ℕ) (passby : Option Handle)
      → P w
      → Answered (server_request_put_handler b md5 mem w i r passby fresh)
  unfolding server_request_put_handler
  put_handler-Answered w i passby a =
      elim (Bool-cases (not (s.item_max_size == 0) && ltb s.item_max_size r.content_length)) [
        | inl t ↦ rw (t, server_request_put_handler) counted
        | inr t ↦
            elim (Bool-cases (
              not (s.capacity == 0)
              && ltb s.capacity ((r.content_length + r.put_header_length) % 2 ^ 64))) [
                | inl u ↦ rw (t, u, server_request_put_handler) counted
                | inr u ↦
                    rw (t, u, server_request_put_handler)
                      (on_expire (put_expire b s w.now r.expire))
              ]
      ]
    where
      s : Server
      s = w.servers i

      w1 : World b.D
      w1 = on_server w i (bump (λ t. record t { puts = t.puts + 1 }))

      counted : P w1
      counted = counted_keeps w i (λ t. record t { puts = t.puts + 1 }) a

      on_expire :
          (o : Option ℕ)
          → Answered (elim o as (λ _. Status × World b.D) [
            | none ↦ (decline expired, w1)
            | some expire ↦
                let (node, id, w') = server_hash_get md5 mem w1 i r in
                put_node b mem w' i r id expire passby fresh node
          ])
      on_expire none = counted
      on_expire (some expire) =
          let (node, id, w') = server_hash_get md5 mem w1 i r in
          put_node-Answered w' i id expire passby node (hash_get_keeps w1 i counted)
