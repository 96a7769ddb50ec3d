-- ===== src/Request/RunTests.antt =====
-- Connections that are accepted, read and answered, on a small server.
use olivehc.Prelude.{
  ℕ, ◌≡◌, Bool, true, false, ◌==◌, if◌then◌else◌, Option, none, some, List, [], ◌∷◌, arith, refl,
  Bytes, codes,
}
use olivehc.Http.Uri.{http_decode_uri}
use olivehc.Http.Parse.{http_request_parse}
use olivehc.SizeClass.{ipbucket_block_size}
use olivehc.Hash.{hash_get}
use olivehc.Server.{Item, World, find_item}
use olivehc.Server.Request.{Status}
use olivehc.Server.Sample.{pool, id_of, empty, a_put, an_item}
use olivehc.Server.Request.Space.{server_request_put_handler}
use olivehc.Request.State.{
  event_add, read_request_header, readable, put_read_request_body, get_write_response, Connection,
  Settings, Site, request_reset,
}
use olivehc.Request.Transfer.{
  moved, file_io_error, file_interrupted, io_ok, request_send_file, request_write_disk, write_to,
}
use olivehc.Request.Finish.{
  Recv, recv_interrupted, received, Inputs, taken, Outcome, kept, closed, fault, no_page,
  stray_event,
}
use olivehc.Request.Header.{header_recv}
use olivehc.Request.Run.{run, new_connection}
use olivehc.Request.Body.{finishes, put_packet, body_loop}
use olivehc.Request.Stored.{FillsItem, put-FillsItem}
use olivehc.Request.Sends.{SendOk, send_file-SendOk}
use olivehc.Request.Faults.{run-no_page}
use olivehc.Request.System.{System, running, Step, after}

abbrev settings : Settings
settings = record {
  keepalive = λ i. true;
  shutdown_if_not_store = λ i. false;
  connections_limit = λ i. 10;
  parse_date = λ bytes. none;
}

abbrev site : Site ℕ
site = record { world = empty; connections = λ i. 0; connections_total = 0 }

-- The system takes all, and the packet is this.
abbrev packet : Bytes → Inputs
packet bytes = record {
  recvs = (recv_interrupted, true) ∷ (received bytes, true) ∷ [];
  files = [];
  sends = [];
  preread_written = true;
  target = taken 2;
  returned = true;
  epoll_ok = true;
  timer_ok = true;
  passby = none;
  fresh = some 7;
  mem = true;
}

abbrev put_text : Bytes
put_text = codes "PUT /a HTTP/1.1\r\nContent-Length: 3\r\n\r\n"

abbrev put_outcome : Outcome ℕ
put_outcome =
    header_recv pool id_of settings (packet put_text).recvs (packet put_text)
      (request_reset settings (new_connection 0))
      (record { world = empty; connections = λ j. if j == 0 then 1 else 0; connections_total = 1 })

abbrev accepted : System ℕ
accepted = after [] [] put_outcome

abbrev handler_of : Outcome ℕ → Option (Option ℕ × Bool)
handler_of (kept c s) = some (c.item, c.queued)
handler_of (closed s) = none
handler_of (fault f) = none

put_dispatched : handler_of put_outcome ≡ some (some 7, true)
unfolding header_recv http_request_parse server_request_put_handler http_decode_uri hash_get
    ipbucket_block_size request_reset olivehc.Http.Parse.header_loop
    olivehc.Http.Headers.find_header olivehc.Http.Headers.handle olivehc.Http.Number.strtoul
    olivehc.Http.Number.digits_from olivehc.Http.Number.span_digits olivehc.Http.Number.value_of
    olivehc.Http.Headers.http_add_put_headers olivehc.Http.Response.response_200_length
    olivehc.Http.Number.numlen olivehc.Http.Number.numlen_loop
put_dispatched = refl

-- Of 3 bytes, and a header of 50, the header is written.
abbrev putting : Connection
putting = record (new_connection 0) {
  request = a_put;
  item = some 7;
  handler = put_read_request_body;
  process_size = 50;
  written = (0, 50) ∷ [];
}

abbrev body_packets : List (Recv × Bool)
body_packets = (received (1 ∷ 2 ∷ []), true) ∷ (received (3 ∷ []), true) ∷ []

-- What the handler gives for this request.
abbrev given : Status × World ℕ
given = server_request_put_handler pool id_of true empty 0 a_put none (some 7)

put-FillsItem_example :
    (item : Item) × (find_item given.1.items 7 ≡ some item)
    × FillsItem item putting (body_loop body_packets putting)
unfolding server_request_put_handler hash_get http_decode_uri ipbucket_block_size
put-FillsItem_example =
    put-FillsItem pool id_of true empty given.1 0 a_put none (some 7) 7 putting body_packets refl
      (omega arith) refl refl refl (refl, refl) (omega arith)

body_written :
    body_loop body_packets putting
    ≡ finishes (record putting {
      process_size = 53;
      input_size = 3;
      written = (52, 1) ∷ (50, 2) ∷ (0, 50) ∷ [];
    })
unfolding body_loop put_packet request_write_disk write_to
body_written = refl

-- More than was declared is refused, and not written.
too_much :
    body_loop ((received (1 ∷ 2 ∷ 3 ∷ 4 ∷ []), true) ∷ []) putting
    ≡ finishes (record putting {
      request = record a_put { http_code = 400; keepalive = false };
      input_size = 4;
    })
unfolding body_loop put_packet
too_much = refl

abbrev answering : Connection
answering = record (new_connection 0) {
  request = record a_put { method = 0; http_code = 200 };
  item = some 7;
  handler = get_write_response;
  process_size = 10;
  output_size = 10;
  sent = (0, 10) ∷ [];
}

send_file-SendOk_example :
    SendOk answering 0 53 (request_send_file (file_interrupted ∷ moved 20 ∷ []) answering 0 53)
send_file-SendOk_example =
    send_file-SendOk (file_interrupted ∷ moved 20 ∷ []) answering 0 53 (refl, refl) (omega arith)

all_sent : (request_send_file (moved 99 ∷ []) answering 0 53).0 ≡ io_ok
unfolding request_send_file
all_sent = refl

-- The item 7 of three bytes, which a GET reads first.
abbrev stored_site : Site ℕ
stored_site = record site { world = record empty { items = an_item ∷ [] } }

run-no_page_example :
    run pool id_of settings
      (record (packet []) { files = file_io_error ∷ [] })
      (record answering { process_size = 0; output_size = 0; sent = [] })
      stored_site
    ≡ fault no_page
unfolding olivehc.Server.find_item
run-no_page_example =
    run-no_page pool id_of settings (record (packet []) { files = file_io_error ∷ [] })
      (record answering { process_size = 0; output_size = 0; sent = [] }) stored_site 7 an_item []
      refl refl refl refl refl refl refl

-- A timer fails as the first event is added: the socket is in the epoll, without a handler.
timer_fails :
    event_add true false (request_reset settings (new_connection 0)) read_request_header readable
    ≡ record (request_reset settings (new_connection 0)) { stray = true }
unfolding event_add request_reset
timer_fails = refl

fault_of_timer :
    Step pool id_of settings 20
      (running (record (new_connection 0) { stray = true } ∷ []) site)
      (System.crashed stray_event)
fault_of_timer =
    Step.stray_turn [] (record (new_connection 0) { stray = true }) [] site (packet []) refl
