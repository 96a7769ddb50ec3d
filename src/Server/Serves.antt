-- ===== src/Server/Serves.antt =====
-- server.c: the item that the handler of GET gives.
use olivehc.Prelude.{◌<◌, ◌≡◌, Bool, false, Option, none, some, Bytes}
use olivehc.Ipbucket.{Handle}
use olivehc.Hash.{HashId, HashNode}
use olivehc.Server.{Blocks, Item, Server, World, find_item, find_passby}
use olivehc.Server.Request.{Status, error, ok, done, no_space, decline}

module _ (b : Blocks) (md5 : Bytes → HashId) (mem : Bool) where
  -- An item that may be served: there, whole, of a device and a server that are not deleted, not
  -- cleared since it was put, and not expired.
  pub record Servable (w : World b.D) (h : Handle) (item : Item) : Type 0 where
    pub there : find_item w.items h ≡ some item
    pub deleted : item.deleted ≡ false
    pub putting : item.putting ≡ false
    pub device : b.device_deleted w.blocks item.handle ≡ false
    pub server : (w.servers item.server_index).deleted ≡ false
    pub clear : item.clear ≡ (w.servers item.server_index).clear
    pub fresh : w.now < item.expire

  -- The handler gives an item just where the key has a node of an item that may be served.
  abbrev pub Serves : World b.D → Option HashNode → Status × World b.D → Type 0
  Serves w seen (ok h, w') =
      ((n : HashNode) × (seen ≡ some n) × (n.handle ≡ h)) × (item : Item) × Servable w h item
  Serves w seen (error, w') =
      (n : HashNode) (item : Item)
      → seen ≡ some n
      → find_passby w.passbys n.handle ≡ none
      → Servable w n.handle item
      → ⊥
  Serves w seen (done, w') = ⊥
  Serves w seen (no_space, w') = ⊥
  Serves w seen (decline reason, w') = ⊥
