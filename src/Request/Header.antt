-- ===== src/Request/Header.antt =====
-- request.c: the reading of a request's header, and what is begun for it.
use olivehc.Prelude.{
  ℕ, ◌+◌, ◌-◌, Bool, true, false, none, some, List, [], ◌∷◌, ◌++◌, ◌==◌, ◌||◌, leb, if◌then◌else◌,
  length, take, Bytes,
}
use olivehc.Hash.{HashId}
use olivehc.Http.Headers.{Context}
use olivehc.Http.Parse.{Parsed, overrun, stale, stuck, http_request_parse}
use olivehc.Server.{Blocks, World}
use olivehc.Server.Request.{Status, server_request_get_handler, server_request_delete_handler}
use olivehc.Server.Request.Space.{server_request_put_handler}
use olivehc.Request.State.{
  readable, Handler, read_request_header, put_read_request_body_preread, get_write_response,
  get_write_response_206_header_mem, Connection, Settings, Site, event_add,
}
use olivehc.Request.Finish.{
  Recv, recv_interrupted, recv_failed, recv_closed, received, Inputs, Outcome, kept, fault,
  bad_parse, request_finalize, worker_request_dispatch,
}

abbrev pub req_buf_size : ℕ
req_buf_size = 4096

-- What a string function sees of the buffer.
unfoldable pub until_zero : Bytes → Bytes
until_zero [] = []
until_zero (c ∷ cs) = let rest = until_zero cs in if c == 0 then [] else c ∷ rest

abbrev pub with_code : ℕ → Connection → Connection
with_code n c = record c { request = record c.request { http_code = n } }

module _ (b : Blocks) (md5 : Bytes → HashId) (settings : Settings) where
  -- To a worker, or the page of 500.
  unfoldable pub dispatch : Inputs → Connection → Site b.D → Handler → Outcome b.D
  unfolding worker_request_dispatch
  dispatch k c s handler =
      let (ok, d) = worker_request_dispatch k.target c handler in
      if ok then kept d s else request_finalize b md5 settings k (with_code 500 d) s

  unfoldable pub begin_get : Inputs → Connection → World b.D → Site b.D → Status → Outcome b.D
  unfolding dispatch
  begin_get k c w s (Status.ok h) =
      let d = record c { item = some h } in
      elim c.request.range_set [
        | some range ↦
            dispatch k (with_code 206 d) (record s { world = w }) get_write_response_206_header_mem
        | none ↦ dispatch k (with_code 200 d) (record s { world = w }) get_write_response
      ]
  -- The handler of GET returns an item or an error.
  begin_get k c w s Status.error =
      request_finalize b md5 settings k (with_code 404 c) (record s { world = w })
  begin_get k c w s Status.done =
      request_finalize b md5 settings k (with_code 404 c) (record s { world = w })
  begin_get k c w s Status.no_space =
      request_finalize b md5 settings k (with_code 404 c) (record s { world = w })
  begin_get k c w s (Status.decline reason) =
      request_finalize b md5 settings k (with_code 404 c) (record s { world = w })

  unfoldable pub begin_put : Inputs → Connection → World b.D → Site b.D → Status → Outcome b.D
  unfolding dispatch
  begin_put k c w s (Status.ok h) =
      dispatch k (with_code 201 (record c { item = some h })) (record s { world = w })
        put_read_request_body_preread
  begin_put k c w s (Status.decline reason) =
      if settings.shutdown_if_not_store c.server
      then request_finalize b md5 settings k
          (record c { request = record c.request { http_code = 204; keepalive = false } })
          (record s { world = w })
      else dispatch k (with_code 204 c) (record s { world = w }) put_read_request_body_preread
  begin_put k c w s Status.error =
      request_finalize b md5 settings k (with_code 500 c) (record s { world = w })
  begin_put k c w s Status.no_space =
      request_finalize b md5 settings k (with_code 500 c) (record s { world = w })
  begin_put k c w s Status.done =
      dispatch k (with_code 201 c) (record s { world = w }) put_read_request_body_preread

  unfoldable pub begin_delete : Inputs → Connection → World b.D → Site b.D → Status → Outcome b.D
  begin_delete k c w s Status.error =
      request_finalize b md5 settings k (with_code 404 c) (record s { world = w })
  begin_delete k c w s Status.no_space =
      request_finalize b md5 settings k (with_code 404 c) (record s { world = w })
  begin_delete k c w s Status.done =
      request_finalize b md5 settings k (with_code 204 c) (record s { world = w })
  begin_delete k c w s (Status.ok h) =
      request_finalize b md5 settings k (with_code 204 c) (record s { world = w })
  begin_delete k c w s (Status.decline reason) =
      request_finalize b md5 settings k (with_code 204 c) (record s { world = w })

  -- The switch on the method of a request that was parsed.
  unfoldable pub begin_request : Inputs → Connection → Site b.D → Outcome b.D
  unfolding begin_get begin_put begin_delete
  begin_request k c s =
      let r = c.request in
      let i = c.server in
      let got = server_request_get_handler b md5 k.mem s.world i r in
      let put = server_request_put_handler b md5 k.mem s.world i r k.passby k.fresh in
      let gone = server_request_delete_handler b md5 k.mem s.world i r in
      if r.method == 0 || r.method == 1
      then begin_get k c got.1 s got.0
      else if r.method == 2 || r.method == 3
      then begin_put k c put.1 s put.0
      else if r.method == 4 || r.method == 5
      then begin_delete k c gone.1 s gone.0
      else kept c s

  unfoldable pub on_parsed : Inputs → Connection → Site b.D → Parsed → Outcome b.D
  unfolding begin_request
  on_parsed k c s (Parsed.again r) =
      if leb (req_buf_size - 1) (length c.buffer)
      then request_finalize b md5 settings k (with_code 400 (record c { request = r })) s
      else kept
          (event_add k.epoll_ok k.timer_ok (record c { request = r }) read_request_header readable)
          s
  on_parsed k c s (Parsed.error why r) =
      request_finalize b md5 settings k (record c { request = r }) s
  on_parsed k c s (Parsed.done r) = begin_request k (record c { request = r }) s
  on_parsed k c s overrun = fault bad_parse
  on_parsed k c s stale = fault bad_parse
  on_parsed k c s stuck = fault bad_parse

  -- A packet, of which as much is taken as the buffer has room for.
  unfoldable pub header_packet : Inputs → Connection → Site b.D → Bytes → Outcome b.D
  unfolding on_parsed until_zero
  header_packet k c s bytes =
      let room = req_buf_size - length c.buffer - 1 in
      let new = take room bytes in
      let d = record c {
        active = true;
        buffer = c.buffer ++ new;
        input_size = c.input_size + length new;
      } in
      let context : Context = record {
        expire_force = (s.world.servers c.server).expire_force;
        now = s.world.now;
        parse_date = settings.parse_date;
      } in
      on_parsed k d s (http_request_parse context d.request (until_zero d.buffer) (length d.buffer))

  unfoldable pub header_recv : List (Recv × Bool) → Inputs → Connection → Site b.D → Outcome b.D
  unfolding header_packet
  header_recv [] k c s = kept (event_add k.epoll_ok k.timer_ok c read_request_header readable) s
  header_recv ((recv_interrupted, w) ∷ ks) k c s = header_recv ks k c s
  header_recv ((recv_failed, w) ∷ ks) k c s =
      request_finalize b md5 settings k (record c { broken = true }) s
  header_recv ((recv_closed, w) ∷ ks) k c s =
      request_finalize b md5 settings k (record c { broken = true }) s
  header_recv ((received bytes, w) ∷ ks) k c s = header_packet k c s bytes
