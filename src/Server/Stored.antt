-- ===== src/Server/Stored.antt =====
-- server.c: the item that the handler of PUT gives, and its length.
use olivehc.Prelude.{ℕ, ◌+◌, ◌%◌, ◌^◌, ◌≡◌, Bool, true, Option, some, ◌==◌, arith, refl, Bytes}
use olivehc.SizeClass.{ipbucket_block_size}
use olivehc.Ipbucket.{Handle}
use olivehc.Hash.{HashId}
use olivehc.Http.Headers.{HttpRequest}
use olivehc.Server.{Blocks, Item, World, find_item}
use olivehc.Server.Keep.{Kept}
use olivehc.Server.Put.{Answered, put_handler-Answered}
use olivehc.Server.Request.{Status, ok, done, error, no_space, decline}
use olivehc.Server.Request.Space.{link_item, server_request_put_handler}

-- An item of a handle and a length, in 32 bits.
pub record Stored {D : Type 0} (r : HttpRequest) (h : Handle) (w : World D) : Type 0 where
  pub item : Item
  pub there : find_item w.items h ≡ some item
  pub length : item.length ≡ (r.content_length + r.put_header_length) % 2 ^ 32

abbrev pub Stores : {D : Type 0} → HttpRequest → Status × World D → Type 0
Stores r (ok h, w) = Stored r h w
Stores r (done, w) = Unit {0}
Stores r (error, w) = Unit {0}
Stores r (no_space, w) = Unit {0}
Stores r (decline reason, w) = Unit {0}

module _ (b : Blocks) (md5 : Bytes → HashId) (mem : Bool) (fresh : Option Handle)
    (r : HttpRequest) where
  link_item-Stored :
      (w : World b.D) (i : ℕ) (item : Item) (size : ℕ)
      → item.length ≡ (r.content_length + r.put_header_length) % 2 ^ 32
      → Stored r item.handle (link_item b mem w i item size)
  unfolding link_item find_item
  link_item-Stored w i item size e =
      let self : (item.handle == item.handle) ≡ true = ground arith in
      record { item = item; there = rw (self, find_item) refl; length = e }

  pub put_handler-Stores :
      (w : World b.D) (i : ℕ) (passby : Option Handle)
      → Stores r (server_request_put_handler b md5 mem w i r passby fresh)
  put_handler-Stores w i passby =
      answer (server_request_put_handler b md5 mem w i r passby fresh)
        (put_handler-Answered b md5 mem fresh r P R kept link w i passby tt)
    where
      P : World b.D → Type 0
      P w = Unit {0}

      R : Handle → World b.D → Type 0
      R h w = Stored r h w

      kept : Kept b P
      kept = record {
        item = λ w h a. tt;
        server = λ w i f same a. tt;
        passbys = λ w ps a. tt;
        device = λ w d a. tt;
      }

      link :
          (w : World b.D) (i : ℕ) (item : Item) (size : ℕ)
          → fresh ≡ some item.handle
          → item.server_index ≡ i
          → item.putting ≡ true
          → item.used ≡ 0
          → item.length ≡ (r.content_length + r.put_header_length) % 2 ^ 32
          → size ≡ ipbucket_block_size item.length
          → P w
          → R item.handle (link_item b mem w i item size)
      link w i item size f at putting unused len size_is a = link_item-Stored w i item size len

      answer : (x : Status × World b.D) → Answered b md5 mem fresh r P R kept link x → Stores r x
      answer (ok h, w) a = a
      answer (done, w) a = tt
      answer (error, w) a = tt
      answer (no_space, w) a = tt
      answer (decline reason, w) a = tt
