-- ===== src/Server/Request/Space.antt =====
-- server.c: the handler of PUT, with the search for a free block.
use olivehc.Prelude.{
  ℕ, zero, suc, ◌+◌, ◌*◌, ◌%◌, ◌^◌, Bool, true, false, not, ◌&&◌, ◌||◌, Option, none, some, List,
  [], ◌∷◌, ltb, ◌==◌, if◌then◌else◌, Bytes,
}
use olivehc.Ipbucket.{Handle}
use olivehc.Hash.{HashId, HashNode, hash_add}
use olivehc.Http.Headers.{HttpRequest}
use olivehc.Server.{
  Blocks, Item, Server, World, find_item, find_passby, on_server, link_lru, server_item_valid,
}
use olivehc.Server.Remove.{
  server_item_delete, server_passby_item_delete, server_item_expire, server_shared_expire,
  device_free_block_extend,
}
use olivehc.Server.Request.{
  too_big_item1, too_big_item2, expired, store_passby, exist, Status, ok, error, no_space, decline,
  bump, server_hash_get,
}

abbrev is_empty : List Handle → Bool
is_empty [] = true
is_empty (h ∷ hs) = false

-- A time that is kept in an `int32_t`. A negative one has passed, as 0 has.
abbrev pub int32_time : ℕ → ℕ
int32_time t = let m = t % 2 ^ 32 in if ltb m (2 ^ 31) then m else 0

-- How the search for a block ends; `stuck` where the rounds of the model have run out.
pub data Space (D : Type 0) : Type 0 where
  found : ℕ → World D → Space D
  full : World D → Space D
  stuck : Space D

-- The number of rounds that suffice.
abbrev pub put_rounds : ℕ
put_rounds = 13

module _ (b : Blocks) where
  -- From `try_again` on, for an item of server `i`. `try` is counted up by each condition that is
  -- looked at. Twice the length is a 32-bit number.
  unfoldable pub find_space : ℕ → ℕ → World b.D → ℕ → Handle → ℕ → Space b.D
  find_space zero try w i h length = stuck
  find_space (suc rounds) try w i h length =
      let (size, blocks) = b.get_free_block w.blocks h length in
      let tried = record w { blocks = blocks } in
      let s = w.servers i in
      let twice = length * 2 % 2 ^ 32 in
      let own = find_space rounds (try + 1) (server_item_expire b tried i twice) i h length in
      let shared = find_space rounds (try + 2) (server_shared_expire b tried twice) i h length in
      let more = find_space rounds (try + 3) (server_item_expire b tried i twice) i h length in
      let extended =
        find_space rounds (try + 4) (device_free_block_extend b tried length) i h length in
      if not (size == 0)
      then found size tried
      else if ltb try 2 && (not (is_empty s.lru) && ltb s.capacity (s.consumed + twice))
      then own
      else if ltb (try + 1) 5 && not (is_empty w.shared_lru)
      then shared
      else if ltb (try + 2) 9 && not (is_empty s.lru)
      then more
      else if ltb (try + 3) 12
      then extended
      else full tried

  unfoldable pub server_passby_store :
      Bool → World b.D → ℕ → HashId → Option Handle → Option (World b.D)
  unfolding on_server
  server_passby_store mem w i id fresh =
      let s = w.servers i in
      if not s.passby_enable
        || (ltb s.item_nr s.passby_begin_item_nr || ltb s.consumed s.passby_begin_consumed)
      then none
      else elim fresh [
        | none ↦ none
        | some h ↦
            some
              (record (on_server w i (λ s.
                record (bump (λ t. record t { passby_stores = t.passby_stores + 1 }) s) {
                  hash = hash_add (λ x. id) mem s.hash (record { handle = h; id = id }) none;
                  passby_lru = h ∷ s.passby_lru;
                  passby_item_nr = s.passby_item_nr + 1;
                })) {
                  passbys =
                      record { handle = h; id = id; expire = int32_time (w.now + s.passby_expire) }
                      ∷ w.passbys;
                })
      ]

  -- "done. update something": the item is linked, with its block of a size.
  unfoldable pub link_item : Bool → World b.D → ℕ → Item → ℕ → World b.D
  unfolding on_server link_lru
  link_item mem w i item size =
      let linked =
        link_lru
          (on_server w i (λ s. record s {
            hash =
                hash_add (λ x. item.id) mem s.hash (record { handle = item.handle; id = item.id })
                  none;
          }))
          i item.handle in
      record (on_server linked i (λ s. record (bump (λ t. record t { stores = t.stores + 1 }) s) {
        consumed = s.consumed + size;
        content = s.content + item.length;
        item_nr = s.item_nr + 1;
      })) { items = item ∷ w.items; blocks = b.use_device w.blocks item.handle }

  -- "check done, store the item now"
  unfoldable pub store_item :
      Bool → World b.D → ℕ → HttpRequest → HashId → ℕ → Option Handle → Status × World b.D
  unfolding find_space link_item
  store_item mem w i r id expire none = (error, w)
  store_item mem w i r id expire (some h) =
      let length = (r.content_length + r.put_header_length) % 2 ^ 32 in
      elim (find_space put_rounds 0 w i h length) [
        | stuck ↦ (error, w)
        | full w' ↦ (no_space, w')
        | found size w' ↦ (
          ok h,
          link_item mem w' i
              (record {
                handle = h;
                id = id;
                server_index = i;
                length = length;
                headers_len = r.put_header_length % 2 ^ 16;
                expire = int32_time expire;
                clear = (w.servers i).clear;
                used = 0;
                putting = true;
                deleted = false;
                badblock = false;
              })
              size,
        )
      ]

  -- The time of expiry: none where the item has expired already.
  unfoldable pub put_expire : Server → ℕ → ℕ → Option ℕ
  put_expire s now expire =
      if not (s.expire_force == 0)
      then some (s.expire_force + now)
      else if not (expire == 0)
      then some expire
      else if s.expire_default == 0
      then none
      else some (s.expire_default + now)

  -- "check exist": a key that has a node.
  unfoldable pub put_over :
      Bool → World b.D → ℕ → HttpRequest → HashId → ℕ → Option Handle → Handle → Status × World b.D
  unfolding store_item
  put_over mem w i r id expire fresh h = elim (find_passby w.passbys h) [
    | some p ↦ store_item mem (server_passby_item_delete b w i h) i r id expire fresh
    | none ↦ elim (find_item w.items h) [
      | none ↦ (error, w)
      | some item ↦
          if r.method == 2 || not (server_item_valid b w item)
          then store_item mem (server_item_delete b w h) i r id expire fresh
          else (decline exist, w)
    ]
  ]

  unfoldable pub put_node :
      Bool
      → World b.D
      → ℕ
      → HttpRequest
      → HashId
      → ℕ
      → Option Handle
      → Option Handle
      → Option HashNode
      → Status × World b.D
  unfolding put_over server_passby_store store_item
  put_node mem w i r id expire passby fresh (some n) = put_over mem w i r id expire fresh n.handle
  put_node mem w i r id expire passby fresh none = elim (server_passby_store mem w i id passby) [
    | some w' ↦ (decline store_passby, w')
    | none ↦ store_item mem w i r id expire fresh
  ]

  module _ (md5 : Bytes → HashId) where
    -- `passby` and `fresh` are what `slab_alloc` gives for a passby item and for an item.
    unfoldable pub server_request_put_handler :
        Bool → World b.D → ℕ → HttpRequest → Option Handle → Option Handle → Status × World b.D
    unfolding on_server put_expire put_node server_hash_get
    server_request_put_handler mem w i r passby fresh =
        let s = w.servers i in
        let counted = on_server w i (bump (λ t. record t { puts = t.puts + 1 })) in
        if not (s.item_max_size == 0) && ltb s.item_max_size r.content_length
        then (decline too_big_item1, counted)
        else if not (s.capacity == 0)
            && ltb s.capacity ((r.content_length + r.put_header_length) % 2 ^ 64)
        then (decline too_big_item2, counted)
        else elim (put_expire s w.now r.expire) [
          | none ↦ (decline expired, counted)
          | some expire ↦
              let (node, id, w') = server_hash_get md5 mem counted i r in
              put_node mem w' i r id expire passby fresh node
        ]
