-- ===== src/Request/Reads.antt =====
-- request.c: the reading of a header keeps what a site is to be.
use olivehc.Prelude.{
  ℕ, ◌+◌, ◌-◌, ◌≡◌, Bool, true, false, ◌||◌, none, List, [], ◌∷◌, ◌++◌, ◌==◌, leb, if◌then◌else◌,
  refl, subst, Bool-cases, inl, inr, length, take, Bytes,
}
use olivehc.Ipbucket.{Handle}
use olivehc.Hash.{HashId}
use olivehc.Http.Headers.{Context}
use olivehc.Http.Parse.{Parsed, overrun, stale, stuck, http_request_parse}
use olivehc.Server.{Blocks, World}
use olivehc.Server.Sound.{Sound, Fresh, put_handler-Answer}
use olivehc.Server.Serve.{get_handler-Answer, delete_handler-Answer}
use olivehc.Server.Request.{Status, server_request_get_handler, server_request_delete_handler}
use olivehc.Server.Request.Space.{server_request_put_handler}
use olivehc.Request.State.{readable, read_request_header, Connection, Settings, Site}
use olivehc.Request.Finish.{
  Recv, recv_interrupted, recv_failed, recv_closed, received, Inputs, Outcome, kept,
}
use olivehc.Request.Header.{
  req_buf_size, until_zero, with_code, begin_get, begin_put, begin_delete, begin_request, on_parsed,
  header_packet, header_recv,
}
use olivehc.Request.Alike.{Alike-of}
use olivehc.Request.Ends.{hold, hold-Few, Here, Ends, Alike-Here, event_add-Ends}
use olivehc.Request.Gives.{delete_handler-gives_nothing}
use olivehc.Request.Begins.{finalize_now, begin_get-Ends, begin_put-Ends, begin_delete-Ends}

module _ (b : Blocks) (md5 : Bytes → HashId) (settings : Settings) (others : List Handle) (i : ℕ)
    (n : ℕ → ℕ) (t : ℕ) where
  abbrev EndsNow : Outcome b.D → Type 0
  EndsNow = Ends b md5 settings others i n t

  begin_request-Ends :
      (k : Inputs) (c : Connection) (s : Site b.D)
      → c.item ≡ none
      → Fresh b others k.fresh s.world
      → Here b md5 settings others i n t c s
      → EndsNow (begin_request b md5 settings k c s)
  unfolding begin_request
  begin_request-Ends k c s none_yet new v =
      on_method (m == 0 || m == 1) (m == 2 || m == 3) (m == 4 || m == 5)
    where
      m : ℕ
      m = c.request.method

      sound : Sound others s.world
      sound = subst (λ o. Sound (hold o others) s.world) none_yet v.owns.sound

      got : Status × World b.D
      got = server_request_get_handler b md5 k.mem s.world c.server c.request

      put : Status × World b.D
      put = server_request_put_handler b md5 k.mem s.world c.server c.request k.passby k.fresh

      gone : Status × World b.D
      gone = server_request_delete_handler b md5 k.mem s.world c.server c.request

      on_method :
          (x y z : Bool)
          → EndsNow (
              if x
              then begin_get b md5 settings k c got.1 s got.0
              else if y
              then begin_put b md5 settings k c put.1 s put.0
              else if z
              then begin_delete b md5 settings k c gone.1 s gone.0
              else kept c s)
      on_method true y z =
          begin_get-Ends b md5 settings others i n t k c s got.1 none_yet v.owns got.0 (
            get_handler-Answer b md5 k.mem others s.world c.server c.request
              (hold-Few b md5 settings others i n t none v.owns.few) sound)
      on_method false true z =
          begin_put-Ends b md5 settings others i n t k c s put.1 none_yet v.owns put.0 (
            put_handler-Answer b others md5 k.mem s.world c.server c.request k.passby k.fresh new
              sound)
      on_method false false true =
          begin_delete-Ends b md5 settings others i n t k c s gone.1 none_yet v.owns gone.0
            (delete_handler-gives_nothing b md5 k.mem s.world c.server c.request)
            (delete_handler-Answer b md5 k.mem others s.world c.server c.request sound)
      on_method false false false =
          (v.owns.server, v.owns.sound, v.owns.connections, v.owns.total, v.placed)

  on_parsed-Ends :
      (k : Inputs) (c : Connection) (s : Site b.D) (p : Parsed)
      → c.item ≡ none
      → Fresh b others k.fresh s.world
      → Here b md5 settings others i n t c s
      → EndsNow (on_parsed b md5 settings k c s p)
  unfolding on_parsed
  on_parsed-Ends k c s (Parsed.again r) none_yet new v =
      elim (Bool-cases (leb (req_buf_size - 1) (length c.buffer))) [
        | inl u ↦
            rw (u, on_parsed)
              (finalize_now b md5 settings others i n t k c
                (with_code 400 (record c { request = r })) s
                (Alike-of refl refl refl refl refl refl) v.owns)
        | inr u ↦
            rw (u, on_parsed)
              (event_add-Ends b md5 settings others i n t k.epoll_ok k.timer_ok
                (record c { request = r }) s read_request_header readable none_yet
                (Alike-Here b md5 settings others i n t v (Alike-of refl refl refl refl refl refl)))
      ]
  on_parsed-Ends k c s (Parsed.error why r) none_yet new v =
      finalize_now b md5 settings others i n t k c (record c { request = r }) s
        (Alike-of refl refl refl refl refl refl) v.owns
  on_parsed-Ends k c s (Parsed.done r) none_yet new v =
      begin_request-Ends k (record c { request = r }) s none_yet new
        (Alike-Here b md5 settings others i n t v (Alike-of refl refl refl refl refl refl))
  on_parsed-Ends k c s overrun none_yet new v = tt
  on_parsed-Ends k c s stale none_yet new v = tt
  on_parsed-Ends k c s stuck none_yet new v = tt

  pub header_recv-Ends :
      (ks : List (Recv × Bool)) (k : Inputs) (c : Connection) (s : Site b.D)
      → c.item ≡ none
      → Fresh b others k.fresh s.world
      → Here b md5 settings others i n t c s
      → EndsNow (header_recv b md5 settings ks k c s)
  unfolding header_recv header_packet
  header_recv-Ends [] k c s none_yet new v =
      event_add-Ends b md5 settings others i n t k.epoll_ok k.timer_ok c s read_request_header
        readable none_yet v
  header_recv-Ends ((recv_interrupted, w) ∷ ks) k c s none_yet new v =
      header_recv-Ends ks k c s none_yet new v
  header_recv-Ends ((recv_failed, w) ∷ ks) k c s none_yet new v =
      finalize_now b md5 settings others i n t k c (record c { broken = true }) s
        (Alike-of refl refl refl refl refl refl) v.owns
  header_recv-Ends ((recv_closed, w) ∷ ks) k c s none_yet new v =
      finalize_now b md5 settings others i n t k c (record c { broken = true }) s
        (Alike-of refl refl refl refl refl refl) v.owns
  header_recv-Ends ((received bytes, w) ∷ ks) k c s none_yet new v =
      let new_bytes = take (req_buf_size - length c.buffer - 1) bytes in
      let d = record c {
        active = true;
        buffer = c.buffer ++ new_bytes;
        input_size = c.input_size + length new_bytes;
      } in
      let context : Context = record {
        expire_force = (s.world.servers c.server).expire_force;
        now = s.world.now;
        parse_date = settings.parse_date;
      } in
      on_parsed-Ends k d s
        (http_request_parse context d.request (until_zero d.buffer) (length d.buffer)) none_yet new
        (Alike-Here b md5 settings others i n t v (Alike-of refl refl refl refl refl refl))
