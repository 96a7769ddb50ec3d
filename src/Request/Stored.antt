-- ===== src/Request/Stored.antt =====
-- request.c and server.c: a PUT writes its body into the item that was given to it.
use olivehc.Prelude.{
  ℕ, ◌+◌, ◌^◌, ◌<◌, ◌≤◌, ◌≡◌, ◌⊎◌, Bool, true, Option, some, List, arith, subst, inl, inr, ◌∙◌,
  Bytes,
}
use olivehc.Ipbucket.{Handle}
use olivehc.Hash.{HashId}
use olivehc.Http.Headers.{HttpRequest}
use olivehc.Server.{Blocks, Item, World, find_item}
use olivehc.Server.Stored.{Stored, Stores, put_handler-Stores}
use olivehc.Server.Request.{ok}
use olivehc.Server.Request.Space.{server_request_put_handler}
use olivehc.Request.State.{Connection}
use olivehc.Request.Finish.{Recv}
use olivehc.Request.Body.{Ended, waits, finishes, item_len, body_loop}
use olivehc.Request.Writes.{Covers, BodyEnd, BodyOk, body_loop-BodyOk}

-- What was written stands end to end from the item's beginning on, up to `process_size`, which is
-- within the item and not smaller than before.
pub record Into (item : Item) (c d : Connection) : Type 0 where
  pub same : d.item ≡ c.item
  pub written : Covers d.written 0 d.process_size
  pub more : c.process_size ≤ d.process_size
  pub within : d.process_size ≤ item.length

abbrev pub FillsItem : Item → Connection → Ended → Type 0
FillsItem item c (waits d) = Into item c d × (d.process_size < item.length)
FillsItem item c (finishes d) =
    Into item c d
    × ((d.process_size ≡ item.length)
        ⊎ ((d.broken ≡ true) ⊎ ((d.disk_error ≡ true) ⊎ (d.request.http_code ≡ 400))))

module _ (h : Handle) (item : Item) (c : Connection) (holds : c.item ≡ some h)
    (size : item_len c.request ≡ item.length) where
  end-Into : (d : Connection) → BodyEnd c d → Into item c d
  end-Into d e = record {
    same = e.alike.item;
    written = e.written h (e.alike.item ∙ holds);
    more = e.more;
    within = omega (arith, e.within, e.length, size);
  }

  body-FillsItem : (e : Ended) → BodyOk c e → FillsItem item c e
  body-FillsItem (waits d) (e, l) = (end-Into d e, omega (arith, l, e.length, size))
  body-FillsItem (finishes d) (e, inl whole) = (end-Into d e, inl (whole ∙ e.length ∙ size))
  body-FillsItem (finishes d) (e, inr why) = (end-Into d e, inr why)

-- For a request to which the PUT handler gives an item, with a body and headers of less than 2
-- ^ 32 bytes together, the item is in the world and the loop over the body, of a connection
-- that has written the bytes of the item up to `process_size`, at most these, writes packet by
-- packet, end to end behind them and never beyond the item's `length`; it waits only for bytes
-- that are missing, and it finishes only with the whole length, a broken connection, a disk
-- error or the code 400.
pub put-FillsItem :
    (b : Blocks) (md5 : Bytes → HashId) (mem : Bool) (w w' : World b.D) (i : ℕ) (r : HttpRequest)
    (passby fresh : Option Handle) (h : Handle) (c : Connection) (ks : List (Recv × Bool))
    → server_request_put_handler b md5 mem w i r passby fresh ≡ (ok h, w')
    → r.content_length + r.put_header_length < 2 ^ 32
    → c.request.content_length ≡ r.content_length
    → c.request.put_header_length ≡ r.put_header_length
    → c.item ≡ some h
    → Covers c.written 0 c.process_size
    → c.process_size ≤ r.content_length + r.put_header_length
    → (item : Item) × (find_item w'.items h ≡ some item) × FillsItem item c (body_loop ks c)
put-FillsItem b md5 mem w w' i r passby fresh h c ks given small content headers holds written
      begun =
    let v : Stored r h w' =
      subst (Stores r) given (put_handler-Stores b md5 mem fresh r w i passby) in
    let size : item_len c.request ≡ v.item.length =
      omega (arith, small, content, headers, v.length) in
    let body =
      body_loop-BodyOk ks c (λ h e. written) (omega (arith, size, v.length, small, begun)) in
    (v.item, v.there, body-FillsItem h v.item c holds size (body_loop ks c) body)
