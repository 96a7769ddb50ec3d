-- ===== src/Request/Body.antt =====
-- request.c: the body of a PUT.
use olivehc.Prelude.{
  ℕ, ◌+◌, ◌-◌, ◌*◌, ◌%◌, ◌^◌, Bool, true, false, List, [], ◌∷◌, ltb, if◌then◌else◌, length, take,
  Bytes,
}
use olivehc.Http.Headers.{HttpRequest, Slice}
use olivehc.Http.Response.{http_make_200_response_header}
use olivehc.Hash.{HashId}
use olivehc.Server.{Blocks}
use olivehc.Request.State.{readable, put_read_request_body, Connection, Settings, Site, event_add}
use olivehc.Request.Transfer.{request_write_disk}
use olivehc.Request.Finish.{
  Recv, recv_interrupted, recv_failed, recv_closed, received, Inputs, Outcome, kept,
  request_finalize,
}

abbrev pub recv_buf_size : ℕ
recv_buf_size = 100 * 1024

-- `item_len`, a sum of 64 bits.
abbrev pub item_len : HttpRequest → ℕ
item_len r = (r.content_length + r.put_header_length) % 2 ^ 64

-- The loop ends in `finish`, or it waits for more.
pub data Ended : Type 0 where
  waits finishes : Connection → Ended

-- One packet of a length; `go` is what follows.
unfoldable pub put_packet : Connection → ℕ → Bool → (Connection → Ended) → Ended
unfolding request_write_disk
put_packet c n written_all go =
    let c' = record c { input_size = c.input_size + n } in
    if ltb (item_len c.request - c.process_size) n
    then finishes (record c' { request = record c.request { http_code = 400; keepalive = false } })
    else (let (ok, d) = request_write_disk written_all c' n in if ok then go d else finishes d)

-- The loop of `request_put_read_request_body`.
unfoldable pub body_loop : List (Recv × Bool) → Connection → Ended
unfolding put_packet
body_loop [] c = if ltb c.process_size (item_len c.request) then waits c else finishes c
body_loop ((recv_interrupted, w) ∷ ks) c =
    let rest = body_loop ks c in
    if ltb c.process_size (item_len c.request) then rest else finishes c
body_loop ((recv_failed, w) ∷ ks) c =
    if ltb c.process_size (item_len c.request)
    then finishes (record c { broken = true })
    else finishes c
body_loop ((recv_closed, w) ∷ ks) c =
    if ltb c.process_size (item_len c.request)
    then finishes (record c { broken = true })
    else finishes c
body_loop ((received bytes, w) ∷ ks) c =
    if ltb c.process_size (item_len c.request)
    then put_packet c (length (take recv_buf_size bytes)) w (λ d. body_loop ks d)
    else finishes c

-- The length of the slices that were stored with the header, with the first part of the body.
unfoldable pub slices_length : List Slice → ℕ
slices_length [] = 0
slices_length (s ∷ ss) = s.len + slices_length ss

module _ (b : Blocks) (md5 : Bytes → HashId) (settings : Settings) where
  unfoldable pub request_put_read_request_body : Inputs → Connection → Site b.D → Outcome b.D
  unfolding body_loop
  request_put_read_request_body k c s = elim (body_loop k.recvs c) [
    | waits d ↦ kept (event_add k.epoll_ok k.timer_ok d put_read_request_body readable) s
    | finishes d ↦ request_finalize b md5 settings k d s
  ]

  unfoldable pub request_put_read_request_body_preread :
      Inputs → Connection → Site b.D → Outcome b.D
  unfolding request_put_read_request_body slices_length request_write_disk
  request_put_read_request_body_preread k c s =
      let len =
        length (http_make_200_response_header c.request.content_length)
        + slices_length c.request.put_headers in
      let (ok, d) = request_write_disk k.preread_written c len in
      if ok then request_put_read_request_body k d s else request_finalize b md5 settings k d s
