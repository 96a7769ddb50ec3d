-- ===== src/Server.antt =====
-- server.c: servers and their items. An item and a passby item are named by handles, and live in
-- two lists; a server is named by its index. What device.c does for an item is an interface,
-- since server.c uses no more of a device.
pub mod Accounts
pub mod Remove
pub mod Request
pub mod Keep
pub mod Delete
pub mod Link
pub mod Holds
pub mod Put
pub mod Sound
pub mod Stored
pub mod Serve
pub mod Release
pub mod Load
pub mod History
pub mod Serves
pub mod Sample
mod Tests
use olivehc.Prelude.{
  ℕ, zero, suc, ◌+◌, ◌-◌, ◌*◌, ◌^◌, ◌<◌, ◌≡◌, ◌⊎◌, Bool, true, false, not, ◌&&◌, ◌||◌, Option, none,
  some, List, [], ◌∷◌, leb, ltb, ◌==◌, if◌then◌else◌,
}
use olivehc.SizeClass.{ipbucket_block_size}
use olivehc.Ipbucket.{Handle}
use olivehc.Hash.{Hash, HashId}

-- One round of the loop of `device_free_block_extend`: it returns; the biggest block, of a size,
-- was on a deleted device and is gone; or the blocks or items beside it are looked at.
pub data Round (D : Type 0) : Type 0 where
  finished : Round D
  cleared : ℕ → D → Round D
  crowded : ℕ → List Handle → Round D

-- What server.c uses of device.c: sizes of 0 are failures. `cut_free_block` gets an item's handle,
-- the index of its device, its length and its offset. `extend_round` gets the rounded target
-- and the size of the block of the round before.
pub record Blocks : Type 1 where
  pub D : Type 0
  pub get_free_block : D → Handle → ℕ → ℕ × D
  pub return_free_block : D → Handle → ℕ → Bool → ℕ × D
  pub device_deleted : D → Handle → Bool
  pub use_device : D → Handle → D
  pub leave_device : D → Handle → D
  pub extend_round : D → ℕ → ℕ → Round D
  pub cut_free_block : D → Handle → ℕ → ℕ → ℕ → ℕ × D
  pub get_size :
      (d : D) (h n : ℕ)
      → ((get_free_block d h n).0 ≡ 0) ⊎ ((get_free_block d h n).0 ≡ ipbucket_block_size n)
  pub return_size :
      (d : D) (h n : ℕ) (bad : Bool) → (return_free_block d h n bad).0 ≡ ipbucket_block_size n
  pub cut_size :
      (d : D) (h device n offset : ℕ)
      → ((cut_free_block d h device n offset).0 ≡ 0)
        ⊎ ((cut_free_block d h device n offset).0 ≡ ipbucket_block_size n)

-- `ohc_item_s`; the offset and the device stand in `Blocks`.
pub record Item : Type 0 where
  pub handle : Handle
  pub id : HashId
  pub server_index : ℕ
  pub length : ℕ
  pub headers_len : ℕ
  pub expire : ℕ
  pub clear : ℕ
  pub used : ℕ
  pub putting : Bool
  pub deleted : Bool
  pub badblock : Bool

pub record PassbyItem : Type 0 where
  pub handle : Handle
  pub id : HashId
  pub expire : ℕ

-- The statistics of a server, in total and for a period.
pub record Stats : Type 0 where
  pub gets : ℕ
  pub hits : ℕ
  pub passby_hits : ℕ
  pub puts : ℕ
  pub stores : ℕ
  pub passby_stores : ℕ
  pub deletes : ℕ

-- `ohc_server_s`, without its port, its log and its sockets. The lists are from the head on.
pub record Server : Type 0 where
  pub capacity : ℕ
  pub consumed : ℕ
  pub content : ℕ
  pub item_nr : ℕ
  pub clear : ℕ
  pub deleted : Bool
  pub hash : Hash
  pub lru : List Handle
  pub passby_lru : List Handle
  pub passby_item_nr : ℕ
  pub key_include_query : Bool
  pub key_include_host : Bool
  pub key_include_ohc_key : Bool
  pub passby_enable : Bool
  pub passby_begin_item_nr : ℕ
  pub passby_begin_consumed : ℕ
  pub passby_limit_nr : ℕ
  pub passby_expire : ℕ
  pub item_max_size : ℕ
  pub expire_default : ℕ
  pub expire_force : ℕ
  pub total : Stats
  pub current : Stats

pub record World (D : Type 0) : Type 0 where
  pub servers : ℕ → Server
  pub items : List Item
  pub passbys : List PassbyItem
  pub shared_lru : List Handle
  pub blocks : D
  pub now : ℕ

unfoldable pub find_item : List Item → Handle → Option Item
find_item [] h = none
find_item (x ∷ xs) h = let rest = find_item xs h in if x.handle == h then some x else rest

unfoldable pub find_passby : List PassbyItem → Handle → Option PassbyItem
find_passby [] h = none
find_passby (x ∷ xs) h = let rest = find_passby xs h in if x.handle == h then some x else rest

-- The item with a handle is changed, or freed.
unfoldable pub change_item : (Item → Item) → Handle → List Item → List Item
change_item f h [] = []
change_item f h (x ∷ xs) =
    let rest = change_item f h xs in if x.handle == h then f x ∷ xs else x ∷ rest

unfoldable pub free_item : Handle → List Item → List Item
free_item h [] = []
free_item h (x ∷ xs) = let rest = free_item h xs in if x.handle == h then xs else x ∷ rest

unfoldable pub free_passby : Handle → List PassbyItem → List PassbyItem
free_passby h [] = []
free_passby h (x ∷ xs) = let rest = free_passby h xs in if x.handle == h then xs else x ∷ rest

-- `list_del` of a handle.
unfoldable pub unlink : Handle → List Handle → List Handle
unlink h [] = []
unlink h (x ∷ xs) = let rest = unlink h xs in if x == h then xs else x ∷ rest

module _ {D : Type 0} where
  unfoldable pub on_server : World D → ℕ → (Server → Server) → World D
  on_server w i f = record w { servers = λ j. if j == i then f (w.servers i) else w.servers j }

  -- The list on which the items of a server stand by last use: `server_lru_head`.
  unfoldable pub link_lru : World D → ℕ → Handle → World D
  unfolding on_server
  link_lru w i h =
      if (w.servers i).capacity == 0
      then record w { shared_lru = h ∷ w.shared_lru }
      else on_server w i (λ s. record s { lru = h ∷ s.lru })

  -- Wherever the item stands.
  unfoldable pub unlink_lru : World D → ℕ → Handle → World D
  unfolding on_server unlink
  unlink_lru w i h = record (on_server w i (λ s. record s { lru = unlink h s.lru })) {
    shared_lru = unlink h w.shared_lru;
  }

module _ (b : Blocks) where
  unfoldable pub server_item_valid : World b.D → Item → Bool
  server_item_valid w item =
      not (b.device_deleted w.blocks item.handle)
      && not (w.servers item.server_index).deleted
      && item.clear == (w.servers item.server_index).clear
      && ltb w.now item.expire
