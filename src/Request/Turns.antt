-- ===== src/Request/Turns.antt =====
-- request.c: every handler keeps what a site is to be.
use olivehc.Prelude.{
  ℕ, ◌+◌, ◌-◌, ◌≡◌, Bool, true, false, Option, none, some, List, ◌∷◌, ◌==◌, if◌then◌else◌, arith,
  refl, ap, subst, ◌∙◌, Bool-cases, inl, inr, length, Bytes,
}
use olivehc.Ipbucket.{Handle}
use olivehc.Hash.{HashId}
use olivehc.Http.Range.{Position}
use olivehc.Http.Response.{
  http_make_206_response_header, response_200_length, http_make_200_response_header,
}
use olivehc.Server.{Blocks, Item, find_item}
use olivehc.Server.Sound.{Sound}
use olivehc.Server.History.{held-Found}
use olivehc.Request.{Partial, window, not_satisfiable, unknown, settle_range}
use olivehc.Request.State.{
  Events, readable, writable, Handler, put_read_request_body, get_write_response,
  get_write_response_206_header_disk, get_write_response_206_body, Connection, Settings, Site,
  event_add,
}
use olivehc.Request.Transfer.{
  Io, io_ok, io_again, io_error, Send, FileSend, request_send_file, request_send_buffer,
  request_write_disk,
}
use olivehc.Request.Finish.{Inputs, no_item, Outcome, kept, fault, bad_range, request_finalize}
use olivehc.Request.Body.{
  Ended, waits, finishes, slices_length, body_loop, request_put_read_request_body,
  request_put_read_request_body_preread,
}
use olivehc.Request.Answer.{
  item_of, body_length, request_cork_set, request_cork_clear, after_file, write_response,
  write_206_body, write_206_header_disk, write_206_header, write_206_header_mem, with_item,
}
use olivehc.Request.Alike.{
  Alike, Alike-of, Alike-trans, send_buffer-Alike, send_file-Alike, write_disk-Alike,
}
use olivehc.Request.Ends.{hold, PlacedOn, Here, Ends, Alike-Here, event_add-Ends, finalize-Ends}
use olivehc.Request.Loop.{EndedAlike, body_loop-Alike}

module _ (b : Blocks) (md5 : Bytes → HashId) (settings : Settings) (others : List Handle) (i : ℕ)
    (n : ℕ → ℕ) (t : ℕ) where
  abbrev HereNow : Connection → Site b.D → Type 0
  HereNow = Here b md5 settings others i n t

  abbrev EndsNow : Outcome b.D → Type 0
  EndsNow = Ends b md5 settings others i n t

  Alike-now : {c d : Connection} {s : Site b.D} → HereNow c s → Alike c d → HereNow d s
  Alike-now v a = Alike-Here b md5 settings others i n t v a

  finalize_now :
      (k : Inputs) (c : Connection) (s : Site b.D)
      → HereNow c s
      → EndsNow (request_finalize b md5 settings k c s)
  finalize_now k c s v = finalize-Ends b md5 settings others i n t k c s v.owns

  event_add_now :
      (e f : Bool) (c : Connection) (s : Site b.D) (h : Handler) (ev : Events)
      → PlacedOn h c.item ev c.queued
      → HereNow c s
      → EndsNow (kept (event_add e f c h ev) s)
  event_add_now e f c s h ev p v = event_add-Ends b md5 settings others i n t e f c s h ev p v

  pub body-Ends :
      (k : Inputs) (c : Connection) (s : Site b.D)
      → HereNow c s
      → EndsNow (request_put_read_request_body b md5 settings k c s)
  unfolding request_put_read_request_body
  body-Ends k c s v = on_ended (body_loop k.recvs c) (body_loop-Alike k.recvs c)
    where
      on_ended :
          (e : Ended)
          → EndedAlike c e
          → EndsNow (elim e as (λ _. Outcome b.D) [
            | waits d ↦ kept (event_add k.epoll_ok k.timer_ok d put_read_request_body readable) s
            | finishes d ↦ request_finalize b md5 settings k d s
          ])
      on_ended (waits d) a =
          event_add_now k.epoll_ok k.timer_ok d s put_read_request_body readable tt (Alike-now v a)
      on_ended (finishes d) a = finalize_now k d s (Alike-now v a)

  pub preread-Ends :
      (k : Inputs) (c : Connection) (s : Site b.D)
      → HereNow c s
      → EndsNow (request_put_read_request_body_preread b md5 settings k c s)
  unfolding request_put_read_request_body_preread
  preread-Ends k c s v =
      on_write (request_write_disk k.preread_written c len)
        (write_disk-Alike k.preread_written c len)
    where
      len : ℕ
      len =
          length (http_make_200_response_header c.request.content_length)
          + slices_length c.request.put_headers

      on_write :
          (x : Bool × Connection)
          → Alike c x.1
          → EndsNow (
              if x.0
              then request_put_read_request_body b md5 settings k x.1 s
              else request_finalize b md5 settings k x.1 s)
      on_write (true, d) a = body-Ends k d s (Alike-now v a)
      on_write (false, d) a = finalize_now k d s (Alike-now v a)

  after_file-Ends :
      (k : Inputs) (io : Io) (c : Connection) (s : Site b.D) (h : Handler)
      → PlacedOn h c.item writable c.queued
      → HereNow c s
      → EndsNow (after_file b md5 settings k io c s h)
  unfolding after_file
  after_file-Ends k io_again c s h p v = event_add_now k.epoll_ok k.timer_ok c s h writable p v
  after_file-Ends k io_ok c s h p v = finalize_now k c s v
  after_file-Ends k io_error c s h p v = finalize_now k c s v

  -- A request with an item answers from it.
  abbrev HasItem : Connection → Type 0
  HasItem c = (h : Handle) × (c.item ≡ some h)

  Alike-item : {c d : Connection} → Alike c d → HasItem c → HasItem d
  Alike-item a (h, e) = (h, a.item ∙ e)

  cork-Alike : (c : Connection) → Alike c (request_cork_clear c)
  cork-Alike c = ground arith

  pub response-Ends :
      (k : Inputs) (c : Connection) (s : Site b.D) (item : Item)
      → HasItem c
      → HereNow c s
      → EndsNow (write_response b md5 settings k c s item)
  unfolding write_response
  response-Ends k c s item h v =
      let n = if c.request.method == 1 then item.headers_len else item.length in
      let a = send_file-Alike k.files c 0 n in
      after_file-Ends k (request_send_file k.files c 0 n).0 (request_send_file k.files c 0 n).2 s
        get_write_response (Alike-item a h) (Alike-now v a)

  pub body_206-Ends :
      (k : Inputs) (fs : List FileSend) (c : Connection) (s : Site b.D) (item : Item)
      → HasItem c
      → HereNow c s
      → EndsNow (write_206_body b md5 settings k fs c s item)
  unfolding write_206_body
  body_206-Ends k fs c s item h v =
      let x =
        request_send_file fs c (item.headers_len + c.range_start)
          (c.range_end - c.range_start + 1) in
      let a =
        Alike-trans
          (send_file-Alike fs c (item.headers_len + c.range_start)
            (c.range_end - c.range_start + 1))
          (cork-Alike x.2) in
      after_file-Ends k x.0 (request_cork_clear x.2) s get_write_response_206_body (Alike-item a h)
        (Alike-now v a)

  pub header_disk-Ends :
      (k : Inputs) (c : Connection) (s : Site b.D) (item : Item)
      → HasItem c
      → HereNow c s
      → EndsNow (write_206_header_disk b md5 settings k c s item)
  unfolding write_206_header_disk
  header_disk-Ends k c s item h v =
      on_io (request_send_file k.files c off (item.headers_len - off)).0
        (request_send_file k.files c off (item.headers_len - off)).1
        (request_send_file k.files c off (item.headers_len - off)).2
        (send_file-Alike k.files c off (item.headers_len - off))
    where
      off : ℕ
      off = response_200_length (body_length item)

      on_io :
          (io : Io) (left : List FileSend) (d : Connection)
          → Alike c d
          → EndsNow (elim io as (λ _. Outcome b.D) [
            | io_again ↦
                kept
                  (event_add k.epoll_ok k.timer_ok
                    (request_cork_clear d)
                    get_write_response_206_header_disk
                    writable)
                  s
            | io_error ↦ request_finalize b md5 settings k d s
            | io_ok ↦
                if d.request.method == 1
                then request_finalize b md5 settings k (request_cork_clear d) s
                else write_206_body b md5 settings k left (record d { process_size = 0 }) s item
          ])
      on_io io_again left d a =
          let a' = Alike-trans a (cork-Alike d) in
          event_add_now k.epoll_ok k.timer_ok (request_cork_clear d) s
            get_write_response_206_header_disk writable (Alike-item a' h) (Alike-now v a')
      on_io io_error left d a = finalize_now k d s (Alike-now v a)
      on_io io_ok left d a = elim (Bool-cases (d.request.method == 1)) [
        | inl t ↦
            rw t
              (finalize_now k (request_cork_clear d) s (Alike-now v (Alike-trans a (cork-Alike d))))
        | inr t ↦ rw t (
            body_206-Ends k left (record d { process_size = 0 }) s item
              (Alike-item (fresh_size a) h) (Alike-now v (fresh_size a)))
      ]
        where
          fresh_size : Alike c d → Alike c (record d { process_size = 0 })
          fresh_size a = Alike-trans a (Alike-of refl refl refl refl refl refl)

  header_206-Ends :
      (k : Inputs) (c : Connection) (s : Site b.D) (item : Item)
      → HasItem c
      → HereNow c s
      → EndsNow (write_206_header b md5 settings k c s item)
  unfolding write_206_header
  header_206-Ends k c s item h v =
      on_sent (request_send_buffer k.sends (request_cork_set c) size).0
        (request_send_buffer k.sends (request_cork_set c) size).1
        (request_send_buffer k.sends (request_cork_set c) size).2
        (Alike-trans {d = request_cork_set c} (Alike-of refl refl refl refl refl refl)
          (send_buffer-Alike k.sends (request_cork_set c) size))
    where
      size : ℕ
      size = length (http_make_206_response_header c.range_start c.range_end (body_length item))

      on_sent :
          (x : Bool) (left : List Send) (d : Connection)
          → Alike c d
          → EndsNow (
              if x
              then write_206_header_disk b md5 settings k d s item
              else request_finalize b md5 settings (record k { sends = left }) d s)
      on_sent true left d a = header_disk-Ends k d s item (Alike-item a h) (Alike-now v a)
      on_sent false left d a = finalize_now (record k { sends = left }) d s (Alike-now v a)

  pub header_mem-Ends :
      (k : Inputs) (c : Connection) (s : Site b.D) (item : Item)
      → HasItem c
      → HereNow c s
      → EndsNow (write_206_header_mem b md5 settings k c s item)
  unfolding write_206_header_mem
  header_mem-Ends k c s item h v = on_range c.request.range_set
    where
      changed : (d : Connection) → Alike c d → HasItem d × HereNow d s
      changed d a = (Alike-item a h, Alike-now v a)

      on_partial :
          (x : Partial)
          → EndsNow (elim x as (λ _. Outcome b.D) [
            | unknown ↦ fault bad_range
            | not_satisfiable ↦
                request_finalize b md5 settings k
                  (record c { request = record c.request { http_code = 416 } })
                  s
            | window start end ↦
                write_206_header b md5 settings k
                  (record c { range_start = start; range_end = end })
                  s
                  item
          ])
      on_partial unknown = tt
      on_partial not_satisfiable =
          let d = record c { request = record c.request { http_code = 416 } } in
          finalize_now k d s (Alike-now {d = d} v (Alike-of refl refl refl refl refl refl))
      on_partial (window start end) =
          let d = record c { range_start = start; range_end = end } in
          header_206-Ends k d s item h
            (Alike-now {d = d} v (Alike-of refl refl refl refl refl refl))

      on_range :
          (o : Option (Position × Position))
          → EndsNow (elim o as (λ _. Outcome b.D) [
            | none ↦ fault bad_range
            | some (p, q) ↦ elim (settle_range p q (body_length item)) [
              | unknown ↦ fault bad_range
              | not_satisfiable ↦
                  request_finalize b md5 settings k
                    (record c { request = record c.request { http_code = 416 } })
                    s
              | window start end ↦
                  write_206_header b md5 settings k
                    (record c { range_start = start; range_end = end })
                    s
                    item
            ]
          ])
      on_range none = tt
      on_range (some (p, q)) = on_partial (settle_range p q (body_length item))

  -- The item of a request is there.
  pub with_item-Ends :
      (f : Inputs → Connection → Site b.D → Item → Outcome b.D) (k : Inputs) (c : Connection)
      (s : Site b.D)
      → ((item : Item) → EndsNow (f k c s item))
      → HasItem c
      → HereNow c s
      → EndsNow (with_item b md5 settings f k c s)
  unfolding with_item
  with_item-Ends f k c s good (h, e) v = on_item (item_of c s) refl
    where
      there : (item : Item) × (find_item s.world.items h ≡ some item)
      there =
          held-Found b md5 s.world (h ∷ others) h
            (subst (λ o. Sound (hold o others) s.world) e v.owns.sound)
            (let self : (h == h) ≡ true = ground arith in ground (arith, self))

      item_is : item_of c s ≡ some there.0
      item_is = ap (λ o. item_of (record c { item = o }) s) e ∙ there.1

      on_item :
          (o : Option Item)
          → item_of c s ≡ o
          → EndsNow
              (elim o as (λ _. Outcome b.D) [ none ↦ fault no_item | some item ↦ f k c s item ])
      on_item none e' = ground (arith, e', item_is)
      on_item (some item) e' = good item
