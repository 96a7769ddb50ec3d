-- ===== src/Request/Gives.antt =====
-- server.c: the handler of DELETE gives no item to its request.
use olivehc.Prelude.{ℕ, ◌+◌, ◌≡◌, Bool, true, false, Option, none, some, refl, Bytes}
use olivehc.Hash.{HashId, HashNode}
use olivehc.Http.Headers.{HttpRequest}
use olivehc.Server.{Blocks, World, on_server}
use olivehc.Server.Request.{
  Status, bump, server_hash_get, delete_node, server_request_delete_handler,
}

-- The result gives an item to the request.
abbrev pub gives_item : Status → Bool
gives_item (Status.ok h) = true
gives_item Status.error = false
gives_item Status.no_space = false
gives_item Status.done = false
gives_item (Status.decline reason) = false

module _ (b : Blocks) (md5 : Bytes → HashId) where
  pub delete_handler-gives_nothing :
      (mem : Bool) (w : World b.D) (i : ℕ) (r : HttpRequest)
      → gives_item (server_request_delete_handler b md5 mem w i r).0 ≡ false
  unfolding server_request_delete_handler
  delete_handler-gives_nothing mem w i r = on_node (server_hash_get md5 mem counted i r).0
    where
      counted : World b.D
      counted = on_server w i (bump (λ t. record t { deletes = t.deletes + 1 }))

      on_node :
          (o : Option HashNode)
          → gives_item
              (elim o as (λ _. Status × World b.D) [
                | none ↦ (Status.error, (server_hash_get md5 mem counted i r).2)
                | some n ↦ (
                  Status.done,
                  delete_node b md5 (server_hash_get md5 mem counted i r).2 i n.handle,
                )
              ]).0
            ≡ false
      on_node none = refl
      on_node (some n) = refl
