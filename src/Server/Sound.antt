-- ===== src/Server/Sound.antt =====
-- server.c: what the handlers keep of the counters of the servers and of the marks of the items.
use olivehc.Prelude.{
  ℕ, ◌+◌, ◌%◌, ◌^◌, ◌≤◌, ◌≡◌, Bool, true, Option, some, List, ◌∷◌, ◌==◌, arith, subst, Bool-cases,
  inl, inr, Bytes,
}
use olivehc.SizeClass.{ipbucket_block_size}
use olivehc.Ipbucket.{Handle}
use olivehc.Hash.{HashId}
use olivehc.Http.Headers.{HttpRequest}
use olivehc.Server.{Blocks, Item, World, on_server}
use olivehc.Server.Accounts.{total, handle_of, one, Accounts, on_server-Accounts}
use olivehc.Server.Remove.{server_item_delete}
use olivehc.Server.Keep.{Kept}
use olivehc.Server.Delete.{item_delete-Accounts}
use olivehc.Server.Link.{link_item-Accounts}
use olivehc.Server.Holds.{Held, Pruned-Held, item_delete-Pruned}
use olivehc.Server.Put.{Answered, put_handler-Answered}
use olivehc.Server.Request.{Status, error, no_space, ok, done, decline}
use olivehc.Server.Request.Space.{link_item, server_request_put_handler}

-- The counters of every server are right, and each item counts the requests that hold it.
pub record Sound {D : Type 0} (hs : List Handle) (w : World D) : Type 0 where
  pub accounts : Accounts w
  pub held : Held hs w.items

-- After a handler: the request holds the item that the handler has given it.
abbrev pub Answer : {D : Type 0} → List Handle → Status × World D → Type 0
Answer hs (ok h, w) = Sound (h ∷ hs) w
Answer hs (done, w) = Sound hs w
Answer hs (error, w) = Sound hs w
Answer hs (no_space, w) = Sound hs w
Answer hs (decline reason, w) = Sound hs w

-- A new item has its own handle.
pub held_more :
    (xs : List Item) (item : Item) (k : Handle)
    → total handle_of one k xs ≤ 1
    → total handle_of one item.handle xs ≡ 0
    → total handle_of one k (item ∷ xs) ≤ 1
held_more xs item k p q = elim (Bool-cases (item.handle == k)) [
  | inl t ↦
      let same : item.handle ≡ k = ground (arith, t) in
      ground (arith, t, subst (λ z. total handle_of one z xs ≡ 0) same q)
  | inr t ↦ ground (arith, t, p)
]

module _ (b : Blocks) (hs : List Handle) where
  pub item_delete-Sound :
      (w : World b.D) (h : Handle) → Sound hs w → Sound hs (server_item_delete b w h)
  item_delete-Sound w h v = record {
    accounts = item_delete-Accounts b w h v.accounts;
    held = Pruned-Held hs w.items _ (item_delete-Pruned b w h) v.held;
  }

  pub Sound-Kept : Kept b (Sound hs)
  unfolding on_server
  Sound-Kept = record {
    item = item_delete-Sound;
    server = λ w i f same v. record {
      accounts = on_server-Accounts w i f same v.accounts;
      held = v.held;
    };
    passbys = λ w ps v. record { accounts = v.accounts; held = v.held };
    device = λ w d v. record { accounts = v.accounts; held = v.held };
  }

  -- The request's handle for a new item is not the handle of an item.
  abbrev pub Fresh : Option Handle → World b.D → Type 0
  Fresh fresh w = (h : Handle) → fresh ≡ some h → total handle_of one h w.items ≡ 0

  Fresh-Kept : (fresh : Option Handle) → Kept b (λ w. Sound hs w × Fresh fresh w)
  unfolding on_server
  Fresh-Kept fresh = record {
    item = λ w h v. (
      item_delete-Sound w h v.0,
      λ k e.
          let p = item_delete-Pruned b w h in
          let none_of : total handle_of one k w.items ≡ 0 = v.1 k e in
          omega (arith, p.alone k, none_of),
    );
    server = λ w i f same v. (Sound-Kept.server w i f same v.0, v.1);
    passbys = λ w ps v. (Sound-Kept.passbys w ps v.0, v.1);
    device = λ w d v. (Sound-Kept.device w d v.0, v.1);
  }

  link_item-Sound :
      (mem : Bool) (fresh : Option Handle) (w : World b.D) (i : ℕ) (item : Item) (size : ℕ)
      → fresh ≡ some item.handle
      → item.server_index ≡ i
      → item.putting ≡ true
      → item.used ≡ 0
      → size ≡ ipbucket_block_size item.length
      → Sound hs w × Fresh fresh w
      → Sound (item.handle ∷ hs) (link_item b mem w i item size)
  unfolding link_item
  link_item-Sound mem fresh w i item size f at putting unused size_is (v, new) = record {
    accounts = link_item-Accounts b mem w i item size at size_is v.accounts;
    held = record {
      counted = λ k. ground (arith, v.held.counted k, putting, unused);
      alone = λ k. held_more w.items item k (v.held.alone k) (new item.handle f);
    };
  }

  pub put_handler-Answer :
      (md5 : Bytes → HashId) (mem : Bool) (w : World b.D) (i : ℕ) (r : HttpRequest)
      (passby fresh : Option Handle)
      → Fresh fresh w
      → Sound hs w
      → Answer hs (server_request_put_handler b md5 mem w i r passby fresh)
  put_handler-Answer md5 mem w i r passby fresh new v =
      answer (server_request_put_handler b md5 mem w i r passby fresh)
        (put_handler-Answered b md5 mem fresh r P R kept link w i passby (v, new))
    where
      P : World b.D → Type 0
      P w = Sound hs w × Fresh fresh w

      R : Handle → World b.D → Type 0
      R h w = Sound (h ∷ hs) w

      kept : Kept b P
      kept = Fresh-Kept fresh

      link :
          (w : World b.D) (i : ℕ) (item : Item) (size : ℕ)
          → fresh ≡ some item.handle
          → item.server_index ≡ i
          → item.putting ≡ true
          → item.used ≡ 0
          → item.length ≡ (r.content_length + r.put_header_length) % 2 ^ 32
          → size ≡ ipbucket_block_size item.length
          → P w
          → R item.handle (link_item b mem w i item size)
      link w i item size f at putting unused len size_is a =
          link_item-Sound mem fresh w i item size f at putting unused size_is a

      answer : (x : Status × World b.D) → Answered b md5 mem fresh r P R kept link x → Answer hs x
      answer (ok h, w) a = a
      answer (done, w) a = a.0
      answer (error, w) a = a.0
      answer (no_space, w) a = a.0
      answer (decline reason, w) a = a.0
