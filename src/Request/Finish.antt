-- ===== src/Request/Finish.antt =====
-- request.c and worker.c: the end of a request, and its way between the threads.
use olivehc.Prelude.{
  ℕ, ◌-◌, Bool, true, false, not, ◌&&◌, Option, none, some, List, ◌==◌, if◌then◌else◌, length,
  Bytes,
}
use olivehc.Hash.{HashId}
use olivehc.Http.Response.{http_code_page}
use olivehc.Server.{Blocks}
use olivehc.Server.Request.{server_request_finalize}
use olivehc.Request.State.{
  readable, Handler, do_finalize, read_request_header, Connection, Settings, Site, event_add,
  event_del, request_reset,
}
use olivehc.Request.Transfer.{Send, FileSend, request_send_buffer}

-- `recv`: EINTR, another error, the end of the connection, or bytes. EAGAIN is the end of the list.
pub data Recv : Type 0 where
  recv_interrupted recv_failed recv_closed : Recv
  received : Bytes → Recv

-- There is no worker; the pipe of the current worker does not take the request, or it does.
pub data Target : Type 0 where
  no_worker refused : Target
  taken : ℕ → Target

-- What the system gives to one call of a handler: what comes before a call would block; with each
-- packet, whether `pwrite` writes it all; whether the first `pwrite` does; the worker that
-- takes the request; whether the pipe back takes it; whether epoll and the timer take
-- its event; the memory for a passby item, for an item and for the hash table.
pub record Inputs : Type 0 where
  pub recvs : List (Recv × Bool)
  pub files : List FileSend
  pub sends : List Send
  pub preread_written : Bool
  pub target : Target
  pub returned : Bool
  pub epoll_ok : Bool
  pub timer_ok : Bool
  pub passby : Option ℕ
  pub fresh : Option ℕ
  pub mem : Bool

-- The request has no item, or no handler, where one is needed; the code has no page; the parser's
-- result is one of those in which it goes out of bounds, or a range that it does not give; or what
-- a timer that failed has left goes wrong.
pub data Fault : Type 0 where
  no_item no_page bad_parse bad_range stray_event : Fault

-- After a call: the connection is kept, closed, or the program has gone wrong.
pub data Outcome (D : Type 0) : Type 0 where
  kept : Connection → Site D → Outcome D
  closed : Site D → Outcome D
  fault : Fault → Outcome D

abbrev pub count_at : ℕ → (ℕ → ℕ) → (ℕ → ℕ) → ℕ → ℕ
count_at i f n j = if j == i then f (n j) else n j

-- `worker_request_return`: the request goes to the master, or onto the list of the blocked
-- requests of its worker.
unfoldable pub worker_request_return : Bool → Connection → Connection
unfolding event_del
worker_request_return returned c =
    let c' = record (event_del c) { handler = do_finalize } in
    if returned then record c' { worker = none; queued = true } else c'

module _ (b : Blocks) (md5 : Bytes → HashId) (settings : Settings) where
  unfoldable pub request_do_finalize : Inputs → Connection → Site b.D → Outcome b.D
  unfolding event_add event_del request_reset
  request_do_finalize k c s =
      let world = server_request_finalize b md5 s.world c.item c.disk_error c.process_size in
      let released = event_del (record c { item = none }) in
      if c.request.keepalive && not c.broken
      then kept
          (event_add k.epoll_ok k.timer_ok (request_reset settings released) read_request_header
            readable)
          (record s { world = world })
      else closed (record {
        world = world;
        connections = count_at c.server (λ n. n - 1) s.connections;
        connections_total = s.connections_total - 1;
      })

  -- The part of `request_finalize` behind the page.
  unfoldable pub hand_over : Inputs → Connection → Site b.D → Outcome b.D
  unfolding request_do_finalize worker_request_return
  hand_over k c s = elim c.worker [
    | none ↦ request_do_finalize k c s
    | some t ↦ kept (worker_request_return k.returned c) s
  ]

  unfoldable pub request_finalize : Inputs → Connection → Site b.D → Outcome b.D
  unfolding hand_over request_send_buffer
  request_finalize k c s =
      if not c.broken && c.output_size == 0
      then elim (http_code_page c.request.http_code) [
        | none ↦ fault no_page
        | some page ↦
            let (sent, left, d) = request_send_buffer k.sends c (length page) in hand_over k d s
      ]
      else hand_over k c s

-- `worker_request_dispatch`: where the pipe does not take the request, its event is gone.
unfoldable pub worker_request_dispatch : Target → Connection → Handler → Bool × Connection
unfolding event_del
worker_request_dispatch no_worker c wanted = (false, c)
worker_request_dispatch refused c wanted = (false, record (event_del c) { handler = wanted })
worker_request_dispatch (taken t) c wanted =
    (true, record (event_del c) { handler = wanted; worker = some t; queued = true })
