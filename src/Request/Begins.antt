-- ===== src/Request/Begins.antt =====
-- request.c: the reading of a header and what it begins keep what a site is to be.
use olivehc.Prelude.{
  ℕ, ◌≡◌, Bool, true, false, Option, none, some, List, ◌∷◌, if◌then◌else◌, arith, refl, ◌∙◌,
  Bool-cases, inl, inr, Bytes,
}
use olivehc.Ipbucket.{Handle}
use olivehc.Hash.{HashId}
use olivehc.Http.Range.{Position}
use olivehc.Server.{Blocks, World}
use olivehc.Server.Sound.{Sound, Answer}
use olivehc.Server.Request.{Status}
use olivehc.Request.State.{
  Events, Handler, put_read_request_body_preread, get_write_response,
  get_write_response_206_header_mem, Connection, Settings, Site,
}
use olivehc.Request.Finish.{Inputs, Outcome, kept, request_finalize, worker_request_dispatch}
use olivehc.Request.Header.{with_code, dispatch, begin_get, begin_put, begin_delete}
use olivehc.Request.Alike.{Alike}
use olivehc.Request.Alike.{Alike-of}
use olivehc.Request.Ends.{
  hold, PlacedOn, Owns, Ends, Dispatched, Alike-Owns, finalize-Ends, dispatch-Dispatched,
}
use olivehc.Request.Gives.{gives_item}

module _ (b : Blocks) (md5 : Bytes → HashId) (settings : Settings) (others : List Handle) (i : ℕ)
    (n : ℕ → ℕ) (t : ℕ) where
  abbrev OwnsNow : Connection → Site b.D → Type 0
  OwnsNow = Owns b md5 settings others i n t

  abbrev EndsNow : Outcome b.D → Type 0
  EndsNow = Ends b md5 settings others i n t

  -- The page of an error, for a request that is like one.
  pub finalize_now :
      (k : Inputs) (c d : Connection) (s : Site b.D)
      → Alike c d
      → OwnsNow c s
      → EndsNow (request_finalize b md5 settings k d s)
  finalize_now k c d s a v =
      finalize-Ends b md5 settings others i n t k d s (Alike-Owns b md5 settings others i n t v a)

  dispatch-Ends :
      (k : Inputs) (c : Connection) (s : Site b.D) (h : Handler)
      → ((e : Events) (q : Bool) → PlacedOn h c.item e q)
      → OwnsNow c s
      → EndsNow (dispatch b md5 settings k c s h)
  unfolding dispatch
  dispatch-Ends k c s h p v =
      on_dispatch (worker_request_dispatch k.target c h)
        (dispatch-Dispatched b md5 settings others i n t k.target c s h p v)
    where
      on_dispatch :
          (x : Bool × Connection)
          → Dispatched b md5 settings others i n t s x
          → EndsNow
              (if x.0 then kept x.1 s else request_finalize b md5 settings k (with_code 500 x.1) s)
      on_dispatch (true, d) e = e
      on_dispatch (false, d) e =
          finalize_now k d (with_code 500 d) s (Alike-of refl refl refl refl refl refl) e

  -- A world of the same site in which the request holds what it now has.
  given :
      (c d : Connection) (s : Site b.D) (w : World b.D)
      → d.server ≡ c.server
      → d.queued ≡ c.queued
      → Sound (hold d.item others) w
      → OwnsNow c s
      → OwnsNow d (record s { world = w })
  given c d s w e q sound v = record {
    server = e ∙ v.server;
    queued = q ∙ v.queued;
    sound = sound;
    few = v.few;
    connections = v.connections;
    total = v.total;
  }

  module _ (k : Inputs) (c : Connection) (s : Site b.D) (w : World b.D) (none_yet : c.item ≡ none)
      (v : OwnsNow c s) where
    unchanged : Sound others w → OwnsNow c (record s { world = w })
    unchanged sound = given c c s w refl refl (rw none_yet sound) v

    coded :
        (m : ℕ)
        → OwnsNow c (record s { world = w })
        → OwnsNow (with_code m c) (record s { world = w })
    coded m v =
        Alike-Owns b md5 settings others i n t {d = with_code m c} v
          (Alike-of refl refl refl refl refl refl)

    page :
        (m : ℕ)
        → Sound others w
        → EndsNow (request_finalize b md5 settings k (with_code m c) (record s { world = w }))
    page m sound =
        finalize-Ends b md5 settings others i n t k (with_code m c) (record s { world = w })
          (coded m (unchanged sound))

    item_of_now :
        (h : Handle)
        → Sound (h ∷ others) w
        → OwnsNow (record c { item = some h }) (record s { world = w })
    item_of_now h sound = given c (record c { item = some h }) s w refl refl sound v

    with_item_now :
        (h : Handle) (m : ℕ) (handler : Handler)
        → ((e : Events) (q : Bool) → PlacedOn handler (some h) e q)
        → Sound (h ∷ others) w
        → EndsNow (
            dispatch b md5 settings k
              (with_code m (record c { item = some h }))
              (record s { world = w })
              handler)
    with_item_now h m handler p sound =
        dispatch-Ends k (with_code m (record c { item = some h })) (record s { world = w }) handler
          p
          (Alike-Owns b md5 settings others i n t {d = with_code m (record c { item = some h })}
            (item_of_now h sound) (Alike-of refl refl refl refl refl refl))

    pub begin_get-Ends :
        (x : Status) → Answer others (x, w) → EndsNow (begin_get b md5 settings k c w s x)
    unfolding begin_get
    begin_get-Ends (Status.ok h) a = on_range c.request.range_set
      where
        on_range :
            (o : Option (Position × Position))
            → EndsNow (elim o as (λ _. Outcome b.D) [
              | some range ↦
                  dispatch b md5 settings k
                    (with_code 206 (record c { item = some h }))
                    (record s { world = w })
                    get_write_response_206_header_mem
              | none ↦
                  dispatch b md5 settings k
                    (with_code 200 (record c { item = some h }))
                    (record s { world = w })
                    get_write_response
            ])
        on_range none = with_item_now h 200 get_write_response (λ e q. (h, refl)) a
        on_range (some range) =
            with_item_now h 206 get_write_response_206_header_mem (λ e q. (h, refl)) a
    begin_get-Ends Status.error a = page 404 a
    begin_get-Ends Status.done a = page 404 a
    begin_get-Ends Status.no_space a = page 404 a
    begin_get-Ends (Status.decline reason) a = page 404 a

    pub begin_put-Ends :
        (x : Status) → Answer others (x, w) → EndsNow (begin_put b md5 settings k c w s x)
    unfolding begin_put
    begin_put-Ends (Status.ok h) a = with_item_now h 201 put_read_request_body_preread (λ e q. tt) a
    begin_put-Ends Status.error a = page 500 a
    begin_put-Ends Status.no_space a = page 500 a
    begin_put-Ends Status.done a =
        dispatch-Ends k (with_code 201 c) (record s { world = w }) put_read_request_body_preread
          (λ e q. tt) (coded 201 (unchanged a))
    begin_put-Ends (Status.decline reason) a =
        elim (Bool-cases (settings.shutdown_if_not_store c.server)) [
          | inl u ↦
              rw (u, begin_put)
                (finalize_now k c
                  (record c { request = record c.request { http_code = 204; keepalive = false } })
                  (record s { world = w }) (Alike-of refl refl refl refl refl refl) (unchanged a))
          | inr u ↦
              rw (u, begin_put)
                (dispatch-Ends k (with_code 204 c) (record s { world = w })
                  put_read_request_body_preread (λ e q. tt) (coded 204 (unchanged a)))
        ]

    pub begin_delete-Ends :
        (x : Status)
        → gives_item x ≡ false
        → Answer others (x, w)
        → EndsNow (begin_delete b md5 settings k c w s x)
    unfolding begin_delete
    begin_delete-Ends (Status.ok h) none_given a = ground (arith, none_given)
    begin_delete-Ends Status.error none_given a = page 404 a
    begin_delete-Ends Status.no_space none_given a = page 404 a
    begin_delete-Ends Status.done none_given a = page 204 a
    begin_delete-Ends (Status.decline reason) none_given a = page 204 a
