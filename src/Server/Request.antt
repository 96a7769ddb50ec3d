-- ===== src/Server/Request.antt =====
-- server.c: the handlers of requests. MD5 is an argument, `mem` says whether `malloc` finds memory
-- for an expansion of the hash table, and `fresh` is the handle that `slab_alloc` gives, if any.
pub mod Space
use olivehc.Prelude.{
  ℕ, zero, suc, ◌+◌, ◌-◌, ◌*◌, ◌%◌, ◌^◌, ◌≤◌, Bool, true, false, not, ◌&&◌, ◌||◌, Option, none,
  some, List, [], ◌∷◌, ◌++◌, leb, ltb, ◌==◌, if◌then◌else◌, Bytes, split_at, length,
}
use olivehc.Ipbucket.{Handle}
use olivehc.Hash.{Hash, HashId, HashNode, hash_add, hash_get}
use olivehc.Http.Headers.{HttpRequest}
use olivehc.Http.Uri.{http_decode_uri}
use olivehc.Server.{
  Blocks, Item, PassbyItem, Stats, Server, World, find_item, find_passby, change_item, unlink,
  on_server, link_lru, unlink_lru, server_item_valid,
}
use olivehc.Server.Remove.{
  server_item_delete, server_passby_item_delete, server_item_expire, server_shared_expire,
  device_free_block_extend,
}

-- `OHC_OK`, `OHC_ERROR` and `OHC_DECLINE`, the last with `r->error_reason`.
pub data Reason : Type 0 where
  too_big_item1 too_big_item2 expired store_passby exist : Reason

pub data Status : Type 0 where
  ok : Handle → Status
  done : Status
  error : Status
  no_space : Status
  decline : Reason → Status

-- The part of the URI that the key takes. What stands behind it in the buffer, a space or the
-- question mark, is no digit.
unfoldable pub key_of_uri : Bool → Bytes → Bytes
key_of_uri whole uri =
    let cut : Bytes = elim (split_at b'?' uri) [ none ↦ uri | some (before, from) ↦ before ] in
    let part = if whole then uri else cut in http_decode_uri (part ++ b'?' ∷ []) (length part)

abbrev optional : Bool → Option Bytes → Bytes
optional use_it none = []
optional use_it (some text) = if use_it then text else []

unfoldable pub request_key : Server → HttpRequest → Bytes
unfolding key_of_uri
request_key s r =
    key_of_uri s.key_include_query r.uri
    ++ (optional s.key_include_host r.host ++ optional s.key_include_ohc_key r.ohc_key)

abbrev pub bump : (Stats → Stats) → Server → Server
bump f s = record s { total = f s.total; current = f s.current }

module _ {D : Type 0} (md5 : Bytes → HashId) where
  -- The node, its id, and the world with the expanded table.
  unfoldable pub server_hash_get :
      Bool → World D → ℕ → HttpRequest → Option HashNode × HashId × World D
  unfolding request_key on_server
  server_hash_get mem w i r =
      let s = w.servers i in
      let (node, id, hash) = hash_get md5 mem s.hash (request_key s r) in
      (node, id, on_server w i (λ s. record s { hash = hash }))

-- `server_clear`, for the server of an index.
unfoldable pub server_clear : {D : Type 0} → World D → ℕ → World D
unfolding on_server
server_clear w i = on_server w i (λ s. record s { clear = (s.clear + 1) % 2 ^ 16 })

module _ (b : Blocks) (md5 : Bytes → HashId) where
  -- A passby item that is hit goes to the front of its list.
  unfoldable pub passby_hit : World b.D → ℕ → Handle → World b.D
  unfolding on_server unlink
  passby_hit w i h = on_server w i (λ s.
      record (bump (λ t. record t { passby_hits = t.passby_hits + 1 }) s) {
        passby_lru = h ∷ unlink h s.passby_lru;
      })

  unfoldable pub item_hit : World b.D → ℕ → Item → World b.D
  unfolding on_server change_item link_lru unlink_lru
  item_hit w i item =
      let counted = on_server w i (bump (λ t. record t { hits = t.hits + 1 })) in
      link_lru
        (unlink_lru
          (record counted {
            blocks = b.use_device w.blocks item.handle;
            items =
                change_item (λ x. record x { used = (x.used + 1) % 2 ^ 16 }) item.handle w.items;
          })
          item.server_index item.handle)
        i item.handle

  unfoldable pub get_item : World b.D → ℕ → Item → Status × World b.D
  unfolding item_hit
  get_item w i item =
      if item.deleted || item.putting
      then (error, w)
      else if server_item_valid b w item
      then (ok item.handle, item_hit w i item)
      else (error, server_item_delete b w item.handle)

  -- A node that is found is a passby item or an item.
  unfoldable pub get_node : World b.D → ℕ → Handle → Status × World b.D
  unfolding passby_hit get_item
  get_node w i h = elim (find_passby w.passbys h) [
    | some p ↦ (error, passby_hit w i h)
    | none ↦ elim (find_item w.items h) [ none ↦ (error, w) | some item ↦ get_item w i item ]
  ]

  unfoldable pub server_request_get_handler :
      Bool → World b.D → ℕ → HttpRequest → Status × World b.D
  unfolding server_hash_get get_node on_server
  server_request_get_handler mem w i r =
      let counted = on_server w i (bump (λ t. record t { gets = t.gets + 1 })) in
      let (node, id, w') = server_hash_get md5 mem counted i r in
      elim node [ none ↦ (error, w') | some n ↦ get_node w' i n.handle ]

  unfoldable pub delete_node : World b.D → ℕ → Handle → World b.D
  delete_node w i h = elim (find_passby w.passbys h) [
    | some p ↦ server_passby_item_delete b w i h
    | none ↦ server_item_delete b w h
  ]

  unfoldable pub server_request_delete_handler :
      Bool → World b.D → ℕ → HttpRequest → Status × World b.D
  unfolding server_hash_get delete_node on_server
  server_request_delete_handler mem w i r =
      let counted = on_server w i (bump (λ t. record t { deletes = t.deletes + 1 })) in
      let (node, id, w') = server_hash_get md5 mem counted i r in
      elim node [ none ↦ (error, w') | some n ↦ (done, delete_node w' i n.handle) ]

  -- What `server_request_finalize` does with an item that was finished, or was not.
  unfoldable pub finish_item : World b.D → Item → Bool → ℕ → World b.D
  unfolding change_item
  finish_item w item disk_error process_size =
      let not_finish = item.putting && ltb process_size item.length in
      let released = λ (x : Item).
        if item.putting
        then record x { putting = false }
        else record x { used = (x.used + 2 ^ 16 - 1) % 2 ^ 16 } in
      let marked =
        λ (x : Item). if disk_error then record (released x) { badblock = true } else released x in
      let w' = record w {
        blocks = b.leave_device w.blocks item.handle;
        items = change_item marked item.handle w.items;
      } in
      if disk_error || (item.deleted || not_finish) then server_item_delete b w' item.handle else w'

  unfoldable pub server_request_finalize : World b.D → Option Handle → Bool → ℕ → World b.D
  unfolding finish_item
  server_request_finalize w none disk_error process_size = w
  server_request_finalize w (some h) disk_error process_size = elim (find_item w.items h) [
    | none ↦ w
    | some item ↦ finish_item w item disk_error process_size
  ]
