-- ===== src/Server/Tests.antt =====
-- The handlers of server.c, run on a server with few items.
use olivehc.Prelude.{ℕ, ◌≡◌, true, false, none, some, [], ◌∷◌, arith, refl}
use olivehc.SizeClass.{ipbucket_block_size}
use olivehc.Hash.{hash_get, hash_add}
use olivehc.Server.{Item, World, find_item, find_passby, server_item_valid}
use olivehc.Server.Accounts.{Accounts}
use olivehc.Server.Delete.{deletions-Kept}
use olivehc.Server.Remove.{server_item_delete}
use olivehc.Server.Request.{
  ok, error, decline, too_big_item2, server_request_get_handler, server_request_finalize,
}
use olivehc.Server.Request.Space.{put_rounds, find_space, server_request_put_handler}
use olivehc.Server.Put.Rounds.{SpaceOk, find_space-SpaceOk}
use olivehc.Server.Sound.{Sound}
use olivehc.Server.History.{Moment, next, Step, History, History-Sound, held-Spared}
use olivehc.Server.Sample.{pool, empty, empty-Started, id_of, a_put}
use olivehc.Server.Serves.{Serves}

-- The PUT of an item with the handle 7 begins.
abbrev begun : Moment ℕ
begun = next [] (server_request_put_handler pool id_of true empty 0 a_put none (some 7))

begun-History : History pool id_of ([], empty) begun
begun-History =
    History.more (History.start _) (Step.put [] empty true 0 a_put none (some 7) (λ h e. refl))

begun_holds : begun.0 ≡ 7 ∷ []
unfolding server_request_put_handler hash_get olivehc.Http.Uri.http_decode_uri ipbucket_block_size
begun_holds = refl

History-Sound_example : Sound begun.0 begun.1
History-Sound_example = History-Sound pool id_of empty begun.1 begun.0 empty-Started begun-History

-- The item 7 is deleted while the PUT holds it.
held-Spared_example :
    (item : Item) × (find_item (server_item_delete pool begun.1 7).items 7 ≡ some item)
held-Spared_example =
    held-Spared pool id_of empty begun.1 begun.0 7 7 empty-Started begun-History
      (rw begun_holds (omega arith))

-- No block is free: the one item is deleted for another.
abbrev cramped : World ℕ
cramped = record begun.1 { blocks = 0 }

find_space-SpaceOk_example : SpaceOk Accounts 60 (find_space pool put_rounds 0 cramped 0 8 60)
find_space-SpaceOk_example =
    find_space-SpaceOk pool Accounts (deletions-Kept pool) put_rounds 0 cramped 0 8 60 (omega arith)
      (omega arith) History-Sound_example.accounts

-- The PUT has ended, with all of its 53 bytes.
abbrev stored : World ℕ
stored = server_request_finalize pool id_of begun.1 (some 7) false 53

get_after_put : (server_request_get_handler pool id_of true stored 0 a_put).0 ≡ ok 7
unfolding server_request_put_handler hash_get olivehc.Http.Uri.http_decode_uri ipbucket_block_size
    server_request_get_handler server_request_finalize find_item hash_add find_passby
    server_item_valid
get_after_put = refl

get_before_end : (server_request_get_handler pool id_of true begun.1 0 a_put).0 ≡ error
unfolding server_request_put_handler hash_get olivehc.Http.Uri.http_decode_uri ipbucket_block_size
    server_request_get_handler hash_add find_passby find_item
get_before_end = refl

-- With its headers the item is longer than the capacity.
too_big :
    (server_request_put_handler pool id_of true empty 0
      (record a_put { content_length = 100010 })
      none
      (some 7)).0
    ≡ decline too_big_item2
unfolding server_request_put_handler
too_big = refl
