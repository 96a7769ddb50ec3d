-- ===== src/Request/Ends.antt =====
-- request.c: what the end of a request, and its way between threads, keep of a site.
use olivehc.Prelude.{
  ℕ, ◌+◌, ◌-◌, ◌^◌, ◌<◌, ◌≡◌, Bool, true, false, not, ◌&&◌, ◌||◌, Option, none, some, List, ◌∷◌,
  ◌==◌, if◌then◌else◌, arith, refl, ap, subst, ◌∙◌, Bool-cases, inl, inr, length, Bytes,
}
use olivehc.Ipbucket.{Handle}
use olivehc.Hash.{HashId}
use olivehc.Http.Response.{http_code_page}
use olivehc.Server.{Blocks, World, unlink}
use olivehc.Server.Holds.{Few, holds}
use olivehc.Server.Sound.{Sound}
use olivehc.Server.Release.{finalize-Sound}
use olivehc.Server.Request.{server_request_finalize}
use olivehc.Request.State.{
  Events, readable, Handler, no_handler, read_request_header, put_read_request_body_preread,
  put_read_request_body, get_write_response, get_write_response_206_header_mem,
  get_write_response_206_header_disk, get_write_response_206_body, do_finalize, Connection,
  Settings, Site, same_events, is_watched, event_add, event_del, request_reset,
}
use olivehc.Request.Transfer.{request_send_buffer}
use olivehc.Request.Finish.{
  Inputs, Target, no_worker, refused, taken, no_item, no_page, bad_parse, bad_range, stray_event,
  Outcome, kept, closed, fault, count_at, request_do_finalize, worker_request_return, hand_over,
  request_finalize, worker_request_dispatch,
}
use olivehc.Request.Alike.{Alike, send_buffer-Alike}

-- The handles that requests hold, with that of one request.
abbrev pub hold : Option Handle → List Handle → List Handle
hold none hs = hs
hold (some h) hs = h ∷ hs

-- A handler that is set has what it needs: the answer to a GET an item; a request without a
-- handler has no event and is in no pipe; a header is read for a request without an item.
abbrev pub PlacedOn : Handler → Option Handle → Events → Bool → Type 0
PlacedOn no_handler o e q = (o ≡ none) × (is_watched e ≡ false) × (q ≡ false)
PlacedOn read_request_header o e q = o ≡ none
PlacedOn put_read_request_body_preread o e q = Unit {0}
PlacedOn put_read_request_body o e q = Unit {0}
PlacedOn get_write_response o e q = (h : Handle) × (o ≡ some h)
PlacedOn get_write_response_206_header_mem o e q = (h : Handle) × (o ≡ some h)
PlacedOn get_write_response_206_header_disk o e q = (h : Handle) × (o ≡ some h)
PlacedOn get_write_response_206_body o e q = (h : Handle) × (o ≡ some h)
PlacedOn do_finalize o e q = Unit {0}

abbrev pub Placed : Connection → Type 0
Placed c = PlacedOn c.handler c.item c.events c.queued

-- All ways in which `event_add` may end.
event_add_cases :
    (P : Connection → Type 0) (e t : Bool) (c : Connection) (h : Handler) (ev : Events)
    → ((x y : Bool) → P (record c { events = ev; handler = h; stray = x; timed = y }))
    → ((x y : Bool) → P (record c { stray = x; timed = y }))
    → P (event_add e t c h ev)
unfolding event_add
event_add_cases P e t c h ev set left = elim (Bool-cases (same_events c.events ev)) [
  | inl u ↦ rw (u, event_add) (set (c.stray || not t) t)
  | inr u ↦ elim (Bool-cases (is_watched c.events)) [
    | inl v ↦ rw (u, v, event_add) (by_update e t)
    | inr v ↦ rw (u, v, event_add) (by_addition e t)
  ]
]
  where
    s : Connection
    s = record c { events = ev; handler = h }

    by_update :
        (x y : Bool)
        → P (
            if x
            then (if y then record s { timed = true } else record c { timed = false; stray = true })
            else c)
    by_update true true = set c.stray true
    by_update true false = left true false
    by_update false y = left c.stray c.timed

    by_addition :
        (x y : Bool)
        → P (if x then (if y then record s { timed = true } else record c { stray = true }) else c)
    by_addition true true = set c.stray true
    by_addition true false = left true c.timed
    by_addition false y = left c.stray c.timed

event_del-fields :
    (c : Connection)
    → ((event_del c).item ≡ c.item)
      × ((event_del c).server ≡ c.server)
      × ((event_del c).queued ≡ c.queued)
unfolding event_del
event_del-fields c = elim (Bool-cases (is_watched c.events)) [
  | inl u ↦ rw (u, event_del) (refl, refl, refl)
  | inr u ↦ rw (u, event_del) (refl, refl, refl)
]

module _ (b : Blocks) (md5 : Bytes → HashId) (settings : Settings) (others : List Handle) (i : ℕ)
    (n : ℕ → ℕ) (t : ℕ) where
  -- A connection of server `i` has its turn, in a site with these counts, whose other
  -- connections hold the others.
  pub record Owns (c : Connection) (s : Site b.D) : Type 0 where
    pub server : c.server ≡ i
    pub queued : c.queued ≡ false
    pub sound : Sound (hold c.item others) s.world
    pub few : (k : Handle) → holds k others + 2 < 2 ^ 16
    pub connections : s.connections ≡ n
    pub total : s.connections_total ≡ t

  -- Its handler has what it needs, too.
  pub record Here (c : Connection) (s : Site b.D) : Type 0 where
    pub owns : Owns c s
    pub placed : Placed c

  -- After its turn.
  abbrev pub Ends : Outcome b.D → Type 0
  Ends (kept c s) =
      (c.server ≡ i)
      × Sound (hold c.item others) s.world
      × (s.connections ≡ n)
      × (s.connections_total ≡ t)
      × Placed c
  Ends (closed s) =
      Sound others s.world
      × (s.connections ≡ count_at i (λ m. m - 1) n)
      × (s.connections_total ≡ t - 1)
  Ends (fault no_item) = ⊥
  Ends (fault no_page) = Unit {0}
  Ends (fault bad_parse) = Unit {0}
  Ends (fault bad_range) = Unit {0}
  Ends (fault stray_event) = Unit {0}

  pub Alike-Owns : {c d : Connection} {s : Site b.D} → Owns c s → Alike c d → Owns d s
  Alike-Owns v a = record {
    server = a.server ∙ v.server;
    queued = a.queued ∙ v.queued;
    sound = rw a.item v.sound;
    few = v.few;
    connections = v.connections;
    total = v.total;
  }

  pub Alike-Here : {c d : Connection} {s : Site b.D} → Here c s → Alike c d → Here d s
  Alike-Here v a = record {
    owns = Alike-Owns v.owns a;
    placed = rw (a.handler, a.item, a.events, a.queued) v.placed;
  }

  pub event_add-Ends :
      (e f : Bool) (c : Connection) (s : Site b.D) (h : Handler) (ev : Events)
      → PlacedOn h c.item ev c.queued
      → Here c s
      → Ends (kept (event_add e f c h ev) s)
  event_add-Ends e f c s h ev p v =
      event_add_cases (λ d. Ends (kept d s)) e f c h ev
        (λ x y. (v.owns.server, v.owns.sound, v.owns.connections, v.owns.total, p))
        (λ x y. (v.owns.server, v.owns.sound, v.owns.connections, v.owns.total, v.placed))

  pub hold-Few :
      (o : Option Handle) → ((k : Handle) → holds k others + 2 < 2 ^ 16) → Few (hold o others)
  hold-Few none f = λ k. let l = f k in omega (arith, l)
  hold-Few (some h) f = λ k. elim (Bool-cases (h == k)) [
    | inl u ↦ let l = f k in ground (arith, u, l)
    | inr u ↦ let l = f k in ground (arith, u, l)
  ]

  released-Sound :
      (o : Option Handle) (w : World b.D) (disk_error : Bool) (size : ℕ)
      → Few (hold o others)
      → Sound (hold o others) w
      → Sound others (server_request_finalize b md5 w o disk_error size)
  unfolding server_request_finalize unlink
  released-Sound none w disk_error size few v = v
  released-Sound (some h) w disk_error size few v =
      let self : (h == h) ≡ true = ground arith in
      let one_less : unlink h (h ∷ others) ≡ others = rw (self, unlink) refl in
      subst (λ hs. Sound hs (server_request_finalize b md5 w (some h) disk_error size)) one_less
        (finalize-Sound b md5 (h ∷ others) w h disk_error size (ground (arith, self)) few v)

  pub do_finalize-Ends :
      (k : Inputs) (c : Connection) (s : Site b.D)
      → Owns c s
      → Ends (request_do_finalize b md5 settings k c s)
  unfolding request_do_finalize request_reset
  do_finalize-Ends k c s v = elim (Bool-cases (c.request.keepalive && not c.broken)) [
    | inl u ↦
        rw (u, request_do_finalize)
          (event_add-Ends k.epoll_ok k.timer_ok (request_reset settings released)
            (record s { world = world }) read_request_header readable refl
            record {
              owns = record {
                server = fields.1 ∙ v.server;
                queued = fields.2 ∙ v.queued;
                sound = sound;
                few = v.few;
                connections = v.connections;
                total = v.total;
              };
              placed = (refl, refl, fields.2 ∙ v.queued);
            })
    | inr u ↦
        rw (u, request_do_finalize)
          (
            sound,
            ap (count_at c.server (λ m. m - 1)) v.connections
                ∙ ap (λ j. count_at j (λ m. m - 1) n) v.server,
            ap (λ m. m - 1) v.total,
          )
  ]
    where
      world : World b.D
      world = server_request_finalize b md5 s.world c.item c.disk_error c.process_size

      released : Connection
      released = event_del (record c { item = none })

      fields : (released.item ≡ none) × (released.server ≡ c.server) × (released.queued ≡ c.queued)
      fields = event_del-fields (record c { item = none })

      sound : Sound others world
      sound =
          released-Sound c.item s.world c.disk_error c.process_size (hold-Few c.item v.few) v.sound

  return-Ends :
      (returned : Bool) (c : Connection) (s : Site b.D)
      → Owns c s
      → Ends (kept (worker_request_return returned c) s)
  unfolding worker_request_return
  return-Ends true c s v =
      let f = event_del-fields c in (f.1 ∙ v.server, rw f.0 v.sound, v.connections, v.total, tt)
  return-Ends false c s v =
      let f = event_del-fields c in (f.1 ∙ v.server, rw f.0 v.sound, v.connections, v.total, tt)

  hand_over-Ends :
      (k : Inputs) (c : Connection) (s : Site b.D)
      → Owns c s
      → Ends (hand_over b md5 settings k c s)
  unfolding hand_over
  hand_over-Ends k c s v = on_worker c.worker
    where
      on_worker :
          (o : Option ℕ)
          → Ends (elim o as (λ _. Outcome b.D) [
            | none ↦ request_do_finalize b md5 settings k c s
            | some t ↦ kept (worker_request_return k.returned c) s
          ])
      on_worker none = do_finalize-Ends k c s v
      on_worker (some w) = return-Ends k.returned c s v

  pub finalize-Ends :
      (k : Inputs) (c : Connection) (s : Site b.D)
      → Owns c s
      → Ends (request_finalize b md5 settings k c s)
  unfolding request_finalize
  finalize-Ends k c s v = elim (Bool-cases (not c.broken && c.output_size == 0)) [
    | inl u ↦ rw (u, request_finalize) (on_page (http_code_page c.request.http_code))
    | inr u ↦ rw (u, request_finalize) (hand_over-Ends k c s v)
  ]
    where
      on_page :
          (o : Option Bytes)
          → Ends (elim o as (λ _. Outcome b.D) [
            | none ↦ fault no_page
            | some page ↦
                let (sent, left, d) = request_send_buffer k.sends c (length page) in
                hand_over b md5 settings k d s
          ])
      on_page none = tt
      on_page (some page) =
          hand_over-Ends k (request_send_buffer k.sends c (length page)).2 s
            (Alike-Owns v (send_buffer-Alike k.sends c (length page)))

  -- The request goes to a worker with its handler, or stays.
  abbrev pub Dispatched : Site b.D → Bool × Connection → Type 0
  Dispatched s (true, d) = Ends (kept d s)
  Dispatched s (false, d) = Owns d s

  pub dispatch-Dispatched :
      (target : Target) (c : Connection) (s : Site b.D) (h : Handler)
      → ((e : Events) (q : Bool) → PlacedOn h c.item e q)
      → Owns c s
      → Dispatched s (worker_request_dispatch target c h)
  unfolding worker_request_dispatch
  dispatch-Dispatched no_worker c s h p v = v
  dispatch-Dispatched refused c s h p v =
      let f = event_del-fields c in
      record {
        server = f.1 ∙ v.server;
        queued = f.2 ∙ v.queued;
        sound = rw f.0 v.sound;
        few = v.few;
        connections = v.connections;
        total = v.total;
      }
  dispatch-Dispatched (taken w) c s h p v =
      let f = event_del-fields c in
      (f.1 ∙ v.server, rw f.0 v.sound, v.connections, v.total, rw f.0 (p (event_del c).events true))
