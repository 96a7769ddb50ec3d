-- ===== src/Request/State.antt =====
-- request.c, request.h and event.c: a connection with its request, and its events.
use olivehc.Prelude.{ℕ, Bool, true, false, not, ◌||◌, Option, none, List, [], if◌then◌else◌, Bytes}
use olivehc.Ipbucket.{Handle}
use olivehc.Http.Headers.{HttpRequest, no_length}
use olivehc.Server.{World}

-- `r->events`: 0, `OHC_EV_READ` or `OHC_EV_WRITE`.
pub data Events : Type 0 where
  unwatched readable writable : Events

-- `r->event_handler`
pub data Handler : Type 0 where
  no_handler : Handler
  read_request_header : Handler
  put_read_request_body_preread : Handler
  put_read_request_body : Handler
  get_write_response : Handler
  get_write_response_206_header_mem : Handler
  get_write_response_206_header_disk : Handler
  get_write_response_206_body : Handler
  do_finalize : Handler

-- `ohc_request_s`, without what is only logged. The socket is in an epoll for its events, and `timed`
-- says that its node is in a timer. `stray` says that a timer has failed: the socket was left in an
-- epoll without events, or the node is in no timer though there are events, so that the next `list_del`
-- of it follows NULL. `queued` says that the request is in a pipe between two threads. The
-- parts of the item that went to the socket, and those that came to the disk, are kept with their
-- offset in the item and their length, the last first.
pub record Connection : Type 0 where
  pub server : ℕ
  pub request : HttpRequest
  pub buffer : Bytes
  pub item : Option Handle
  pub worker : Option ℕ
  pub queued : Bool
  pub events : Events
  pub stray : Bool
  pub timed : Bool
  pub handler : Handler
  pub active : Bool
  pub broken : Bool
  pub cork : Bool
  pub disk_error : Bool
  pub range_start : ℕ
  pub range_end : ℕ
  pub process_size : ℕ
  pub output_size : ℕ
  pub input_size : ℕ
  pub sent : List (ℕ × ℕ)
  pub written : List (ℕ × ℕ)

-- What a server is set to, besides what `Server` has.
pub record Settings : Type 0 where
  pub keepalive : ℕ → Bool
  pub shutdown_if_not_store : ℕ → Bool
  pub connections_limit : ℕ → ℕ
  pub parse_date : Bytes → Option ℕ

-- The world of server.c, and the counts of connections, of each server and of all.
pub record Site (D : Type 0) : Type 0 where
  pub world : World D
  pub connections : ℕ → ℕ
  pub connections_total : ℕ

abbrev pub same_events : Events → Events → Bool
same_events unwatched unwatched = true
same_events readable readable = true
same_events writable writable = true
same_events _ _ = false

abbrev pub is_watched : Events → Bool
is_watched unwatched = false
is_watched readable = true
is_watched writable = true

-- `event_handler` is not NULL.
abbrev pub is_set : Handler → Bool
is_set no_handler = false
is_set read_request_header = true
is_set put_read_request_body_preread = true
is_set put_read_request_body = true
is_set get_write_response = true
is_set get_write_response_206_header_mem = true
is_set get_write_response_206_header_disk = true
is_set get_write_response_206_body = true
is_set do_finalize = true

-- `event_add`: whether `epoll_add` or `epoll_mod` succeeds, and the timer. The result of the first
-- `timer_update` is not read.
unfoldable pub event_add : Bool → Bool → Connection → Handler → Events → Connection
event_add epoll_ok timer_ok c handler event =
    let set = record c { events = event; handler = handler } in
    if same_events c.events event
    then record set { timed = timer_ok; stray = c.stray || not timer_ok }
    else if is_watched c.events
    then (if epoll_ok
        then (if timer_ok
            then record set { timed = true }
            else record c { timed = false; stray = true })
        else c)
    else if epoll_ok
    then (if timer_ok then record set { timed = true } else record c { stray = true })
    else c

unfoldable pub event_del : Connection → Connection
event_del c = if is_watched c.events then record c { events = unwatched; timed = false } else c

-- `request_reset`
unfoldable pub request_reset : Settings → Connection → Connection
request_reset settings c = record c {
  request = record {
    method = 6;
    content_length = no_length;
    expire = 0;
    range_set = none;
    uri = [];
    host = none;
    ohc_key = none;
    keepalive = settings.keepalive c.server;
    put_headers = c.request.put_headers;
    put_header_length = c.request.put_header_length;
    http_code = 0;
  };
  buffer = [];
  item = none;
  worker = none;
  events = unwatched;
  handler = no_handler;
  active = false;
  broken = false;
  cork = false;
  disk_error = false;
  process_size = 0;
  output_size = 0;
  input_size = 0;
  sent = [];
  written = [];
}
