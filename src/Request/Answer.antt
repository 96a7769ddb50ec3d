-- ===== src/Request/Answer.antt =====
-- request.c: the answer to a GET.
use olivehc.Prelude.{
  ℕ, ◌+◌, ◌-◌, true, false, Option, none, some, List, ◌==◌, if◌then◌else◌, length,
}
use olivehc.Hash.{HashId}
use olivehc.Http.Response.{http_make_206_response_header, response_200_length}
use olivehc.Server.{Blocks, Item, find_item}
use olivehc.Request.{window, not_satisfiable, unknown, settle_range}
use olivehc.Request.State.{
  writable, Handler, get_write_response, get_write_response_206_header_disk,
  get_write_response_206_body, Connection, Settings, Site, event_add,
}
use olivehc.Request.Transfer.{
  Io, io_ok, io_again, io_error, FileSend, request_send_file, request_send_buffer,
}
use olivehc.Request.Finish.{Inputs, Outcome, kept, fault, no_item, bad_range, request_finalize}

abbrev pub item_of : {D : Type 0} → Connection → Site D → Option Item
item_of c s = elim c.item [ none ↦ none | some h ↦ find_item s.world.items h ]

abbrev pub body_length : Item → ℕ
body_length item = item.length - item.headers_len

-- `request_cork_set` and `request_cork_clear`
abbrev pub request_cork_set : Connection → Connection
request_cork_set c = record c { cork = true }

abbrev pub request_cork_clear : Connection → Connection
request_cork_clear c = if c.cork then record c { cork = false } else c

module _ (b : Blocks) (md5 : List ℕ → HashId) (settings : Settings) where
  -- What follows a part that was sent, or was not: OHC_AGAIN waits for the handler's turn.
  unfoldable pub after_file : Inputs → Io → Connection → Site b.D → Handler → Outcome b.D
  after_file k io_again c s wanted = kept (event_add k.epoll_ok k.timer_ok c wanted writable) s
  after_file k io_ok c s wanted = request_finalize b md5 settings k c s
  after_file k io_error c s wanted = request_finalize b md5 settings k c s

  unfoldable pub write_response : Inputs → Connection → Site b.D → Item → Outcome b.D
  unfolding after_file request_send_file
  write_response k c s item =
      let (io, left, d) =
        request_send_file k.files c 0
          (if c.request.method == 1 then item.headers_len else item.length) in
      after_file k io d s get_write_response

  -- What is left of the outcomes of `sendfile` comes first.
  unfoldable pub write_206_body :
      Inputs → List FileSend → Connection → Site b.D → Item → Outcome b.D
  unfolding after_file request_send_file
  write_206_body k files c s item =
      let (io, left, d) =
        request_send_file files c (item.headers_len + c.range_start)
          (c.range_end - c.range_start + 1) in
      after_file k io (request_cork_clear d) s get_write_response_206_body

  unfoldable pub write_206_header_disk : Inputs → Connection → Site b.D → Item → Outcome b.D
  unfolding write_206_body request_send_file
  write_206_header_disk k c s item =
      let off = response_200_length (body_length item) in
      let (io, left, d) = request_send_file k.files c off (item.headers_len - off) in
      elim io [
        | io_again ↦
            kept
              (event_add k.epoll_ok k.timer_ok (request_cork_clear d)
                get_write_response_206_header_disk writable)
              s
        | io_error ↦ request_finalize b md5 settings k d s
        | io_ok ↦
            if d.request.method == 1
            then request_finalize b md5 settings k (request_cork_clear d) s
            else write_206_body k left (record d { process_size = 0 }) s item
      ]

  -- Behind the settled range.
  unfoldable pub write_206_header : Inputs → Connection → Site b.D → Item → Outcome b.D
  unfolding write_206_header_disk request_send_buffer
  write_206_header k c s item =
      let (sent, left, d) =
        request_send_buffer k.sends (request_cork_set c)
          (length (http_make_206_response_header c.range_start c.range_end (body_length item))) in
      if sent
      then write_206_header_disk k d s item
      else request_finalize b md5 settings (record k { sends = left }) d s

  unfoldable pub write_206_header_mem : Inputs → Connection → Site b.D → Item → Outcome b.D
  unfolding write_206_header
  write_206_header_mem k c s item = elim c.request.range_set [
    | none ↦ fault bad_range
    | some (p, q) ↦ elim (settle_range p q (body_length item)) [
      | unknown ↦ fault bad_range
      | not_satisfiable ↦
          request_finalize b md5 settings k
            (record c { request = record c.request { http_code = 416 } }) s
      | window start end ↦
          write_206_header k (record c { range_start = start; range_end = end }) s item
    ]
  ]

  -- The handlers read `r->item`.
  unfoldable pub with_item :
      (Inputs → Connection → Site b.D → Item → Outcome b.D)
      → Inputs
      → Connection
      → Site b.D
      → Outcome b.D
  with_item f k c s = elim (item_of c s) [ none ↦ fault no_item | some item ↦ f k c s item ]
