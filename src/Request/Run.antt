-- ===== src/Request/Run.antt =====
-- request.c: what may happen to a connection, from its beginning on.
use olivehc.Prelude.{ℕ, ◌+◌, Bool, true, false, Option, none, some, [], leb, if◌then◌else◌, Bytes}
use olivehc.Hash.{HashId}
use olivehc.Http.Headers.{no_length}
use olivehc.Server.{Blocks}
use olivehc.Request.State.{
  unwatched, Handler, no_handler, read_request_header, put_read_request_body_preread,
  put_read_request_body, get_write_response, get_write_response_206_header_mem,
  get_write_response_206_header_disk, get_write_response_206_body, do_finalize, Connection,
  Settings, Site, request_reset,
}
use olivehc.Request.Finish.{
  Inputs, Outcome, fault, no_item, count_at, request_do_finalize, request_finalize,
}
use olivehc.Request.Body.{request_put_read_request_body, request_put_read_request_body_preread}
use olivehc.Request.Answer.{
  with_item, write_response, write_206_header_mem, write_206_header_disk, write_206_body,
}
use olivehc.Request.Header.{header_recv}

-- A new `ohc_request_t`, before `request_reset`.
abbrev pub new_connection : ℕ → Connection
new_connection i = record {
  server = i;
  request = record {
    method = 6;
    content_length = no_length;
    expire = 0;
    range_set = none;
    uri = [];
    host = none;
    ohc_key = none;
    keepalive = false;
    put_headers = [];
    put_header_length = 0;
    http_code = 0;
  };
  buffer = [];
  item = none;
  worker = none;
  queued = false;
  events = unwatched;
  stray = false;
  timed = false;
  handler = no_handler;
  active = false;
  broken = false;
  cork = false;
  disk_error = false;
  range_start = 0;
  range_end = 0;
  process_size = 0;
  output_size = 0;
  input_size = 0;
  sent = [];
  written = [];
}

module _ (b : Blocks) (md5 : Bytes → HashId) (settings : Settings) where
  unfoldable pub run_handler : Handler → Inputs → Connection → Site b.D → Outcome b.D
  run_handler no_handler k c s = fault no_item
  run_handler read_request_header k c s = header_recv b md5 settings k.recvs k c s
  run_handler put_read_request_body_preread k c s =
      request_put_read_request_body_preread b md5 settings k c s
  run_handler put_read_request_body k c s = request_put_read_request_body b md5 settings k c s
  run_handler get_write_response k c s =
      with_item b md5 settings (write_response b md5 settings) k c s
  run_handler get_write_response_206_header_mem k c s =
      with_item b md5 settings (write_206_header_mem b md5 settings) k c s
  run_handler get_write_response_206_header_disk k c s =
      with_item b md5 settings (write_206_header_disk b md5 settings) k c s
  run_handler get_write_response_206_body k c s =
      with_item b md5 settings (λ k c s item. write_206_body b md5 settings k k.files c s item) k c
        s
  run_handler do_finalize k c s = request_do_finalize b md5 settings k c s

  -- The handler's turn: an event, or its arrival through a pipe.
  unfoldable pub run : Inputs → Connection → Site b.D → Outcome b.D
  unfolding run_handler
  run k c s = run_handler c.handler k (record c { queued = false }) s

  -- `request_timeout_handler`, and what `request_clean` does to one request.
  unfoldable pub request_break : Inputs → Connection → Site b.D → Outcome b.D
  request_break k c s = request_finalize b md5 settings k (record c { broken = true }) s

  -- `request_process_entry`: none where the connection is refused; whether `slab_alloc` finds
  -- memory.
  unfoldable pub request_process_entry : Bool → Inputs → ℕ → Site b.D → Option (Outcome b.D)
  unfolding header_recv request_reset
  request_process_entry mem k i s =
      if leb (settings.connections_limit i) (s.connections i)
      then none
      else if mem
      then some (
          header_recv b md5 settings k.recvs k (request_reset settings (new_connection i))
            (record s {
              connections = count_at i (λ n. n + 1) s.connections;
              connections_total = s.connections_total + 1;
            }))
      else none
