-- ===== src/Request/Turn.antt =====
-- request.c: a handler's turn keeps what its site is to be, whichever handler it is.
use olivehc.Prelude.{ℕ, ◌≡◌, Bool, true, false, ◌&&◌, ◌||◌, Option, List, refl, arith, Bytes}
use olivehc.Ipbucket.{Handle}
use olivehc.Hash.{HashId}
use olivehc.Server.{Blocks}
use olivehc.Server.Sound.{Fresh}
use olivehc.Request.State.{
  Events, is_watched, is_set, Handler, no_handler, read_request_header,
  put_read_request_body_preread, put_read_request_body, get_write_response,
  get_write_response_206_header_mem, get_write_response_206_header_disk,
  get_write_response_206_body, do_finalize, Connection, Settings, Site, request_reset,
}
use olivehc.Request.Finish.{Inputs}
use olivehc.Request.Answer.{
  write_response, write_206_header_mem, write_206_header_disk, write_206_body,
}
use olivehc.Request.Header.{header_recv}
use olivehc.Request.Run.{run, run_handler, request_break, new_connection}
use olivehc.Request.Alike.{Alike-of}
use olivehc.Request.Ends.{
  Placed, PlacedOn, Owns, Here, Ends, Alike-Owns, finalize-Ends, do_finalize-Ends,
}
use olivehc.Request.Turns.{
  body-Ends, preread-Ends, response-Ends, body_206-Ends, header_disk-Ends, header_mem-Ends,
  with_item-Ends,
}
use olivehc.Request.Reads.{header_recv-Ends}

-- A request that is ready has a handler.
ready-is_set :
    (h : Handler) (o : Option Handle) (e : Events) (q t : Bool)
    → PlacedOn h o e q
    → q || (is_watched e || (t && is_set h)) ≡ true
    → is_set h ≡ true
ready-is_set no_handler o e q t p r = ground (arith, p.1, p.2, r)
ready-is_set read_request_header o e q t p r = refl
ready-is_set put_read_request_body_preread o e q t p r = refl
ready-is_set put_read_request_body o e q t p r = refl
ready-is_set get_write_response o e q t p r = refl
ready-is_set get_write_response_206_header_mem o e q t p r = refl
ready-is_set get_write_response_206_header_disk o e q t p r = refl
ready-is_set get_write_response_206_body o e q t p r = refl
ready-is_set do_finalize o e q t p r = refl

-- It stays in its place when it is taken out of a pipe.
unqueued :
    (h : Handler) (o : Option Handle) (e : Events) (q : Bool)
    → PlacedOn h o e q
    → PlacedOn h o e false
unqueued no_handler o e q p = (p.0, p.1, refl)
unqueued read_request_header o e q p = p
unqueued put_read_request_body_preread o e q p = tt
unqueued put_read_request_body o e q p = tt
unqueued get_write_response o e q p = p
unqueued get_write_response_206_header_mem o e q p = p
unqueued get_write_response_206_header_disk o e q p = p
unqueued get_write_response_206_body o e q p = p
unqueued do_finalize o e q p = tt

module _ (b : Blocks) (md5 : Bytes → HashId) (settings : Settings) (others : List Handle) (i : ℕ)
    (n : ℕ → ℕ) (t : ℕ) where
  -- A handler's turn, if it has what it needs.
  abbrev Runs : Handler → Connection → Site b.D → Inputs → Type 0
  Runs h c s k =
      is_set h ≡ true
      → PlacedOn h c.item c.events c.queued
      → Here b md5 settings others i n t c s
      → Fresh b others k.fresh s.world
      → Ends b md5 settings others i n t (run_handler b md5 settings h k c s)

  run_handler-Ends : (h : Handler) (c : Connection) (s : Site b.D) (k : Inputs) → Runs h c s k
  unfolding run_handler
  run_handler-Ends no_handler c s k set p v new = ground (arith, set)
  run_handler-Ends read_request_header c s k set p v new =
      header_recv-Ends b md5 settings others i n t k.recvs k c s p new v
  run_handler-Ends put_read_request_body_preread c s k set p v new =
      preread-Ends b md5 settings others i n t k c s v
  run_handler-Ends put_read_request_body c s k set p v new =
      body-Ends b md5 settings others i n t k c s v
  run_handler-Ends get_write_response c s k set p v new =
      with_item-Ends b md5 settings others i n t (write_response b md5 settings) k c s
        (λ item. response-Ends b md5 settings others i n t k c s item p v) p v
  run_handler-Ends get_write_response_206_header_mem c s k set p v new =
      with_item-Ends b md5 settings others i n t (write_206_header_mem b md5 settings) k c s
        (λ item. header_mem-Ends b md5 settings others i n t k c s item p v) p v
  run_handler-Ends get_write_response_206_header_disk c s k set p v new =
      with_item-Ends b md5 settings others i n t (write_206_header_disk b md5 settings) k c s
        (λ item. header_disk-Ends b md5 settings others i n t k c s item p v) p v
  run_handler-Ends get_write_response_206_body c s k set p v new =
      with_item-Ends b md5 settings others i n t
        (λ k c s item. write_206_body b md5 settings k k.files c s item) k c s
        (λ item. body_206-Ends b md5 settings others i n t k k.files c s item p v) p v
  run_handler-Ends do_finalize c s k set p v new =
      do_finalize-Ends b md5 settings others i n t k c s v.owns

  pub run-Ends :
      (k : Inputs) (c : Connection) (s : Site b.D)
      → c.queued || (is_watched c.events || (c.stray && is_set c.handler)) ≡ true
      → Placed c
      → Fresh b others k.fresh s.world
      → Owns b md5 settings others i n t (record c { queued = false }) s
      → Ends b md5 settings others i n t (run b md5 settings k c s)
  unfolding run
  run-Ends k c s ready p new v =
      let set = ready-is_set c.handler c.item c.events c.queued c.stray p ready in
      let at = unqueued c.handler c.item c.events c.queued p in
      run_handler-Ends c.handler (record c { queued = false }) s k set at
        record { owns = v; placed = at } new

  pub break-Ends :
      (k : Inputs) (c : Connection) (s : Site b.D)
      → Owns b md5 settings others i n t c s
      → Ends b md5 settings others i n t (request_break b md5 settings k c s)
  unfolding request_break
  break-Ends k c s v =
      finalize-Ends b md5 settings others i n t k (record c { broken = true }) s
        (Alike-Owns b md5 settings others i n t v (Alike-of refl refl refl refl refl refl))

  pub entry-Ends :
      (k : Inputs) (s : Site b.D)
      → Fresh b others k.fresh s.world
      → Owns b md5 settings others i n t (request_reset settings (new_connection i)) s
      → Ends b md5 settings others i n t
          (header_recv b md5 settings k.recvs k (request_reset settings (new_connection i)) s)
  unfolding request_reset
  entry-Ends k s new v =
      header_recv-Ends b md5 settings others i n t k.recvs k
        (request_reset settings (new_connection i)) s refl new
        record { owns = v; placed = (refl, refl, refl) }
