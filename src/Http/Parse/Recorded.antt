-- ===== src/Http/Parse/Recorded.antt =====
-- What the handlers, the slices and the end of the parser of http.c do to what is recorded.
use olivehc.Prelude.{
  ℕ, ◌+◌, ◌-◌, ◌^◌, ◌≤◌, ◌<◌, ◌≡◌, ◌⊎◌, inl, inr, Bool, true, false, Option, none, some, List, [],
  ◌∷◌, leb, ltb, ◌==◌, ◌||◌, if◌then◌else◌, Bytes, length, arith, refl, ap, sym, ◌∙◌, Bool-cases,
}
use olivehc.Http.Headers.{
  HttpRequest, Context, Slice, Handled, fine, decline, bad, Header, range_header,
  content_length_header, cache_control_header, expires_header, host_header, ohc_key_header,
  connection_header, no_length, handle, find_header, http_add_put_headers, add_slice,
  put_headers_size,
}
use olivehc.Http.Response.{response_200_length}
use olivehc.Http.Parse.{
  Parsed, done, again, error, overrun, stale, stuck, Method, failed, has_end, not_complete,
  store_header, finish, one_header,
}

-- The bytes of all slices.
abbrev pub total_len : List Slice → ℕ
total_len [] = 0
total_len (s ∷ ss) = s.len + total_len ss

abbrev Grown : List Slice → ℕ → ℕ → Option (List Slice) → Type 0
Grown ss len room none = Unit {0}
Grown ss len room (some ts) = (total_len ts ≡ total_len ss + len) × (length ts ≤ room)

pub add_slice-Grown :
    (ss : List Slice) (base len room : ℕ)
    → length ss ≤ room
    → Grown ss len room (add_slice ss base len room)
unfolding add_slice
add_slice-Grown [] base len room l = elim (Bool-cases (room == 0)) [
  | inl t ↦ rw t tt
  | inr t ↦ rw t (omega arith, ground arith)
]
add_slice-Grown (s ∷ []) base len room l =
    let t : (room == 0) ≡ false = ground arith in
    rw t (elim (Bool-cases (s.at + s.len == base)) [
      | inl u ↦ rw u (omega arith, l)
      | inr u ↦ rw u (elim (Bool-cases (room == 1)) [
        | inl w ↦ rw w tt
        | inr w ↦ rw w (omega arith, ground arith)
      ])
    ])
add_slice-Grown (s ∷ t ∷ ss) base len room l =
    on_rest (add_slice (t ∷ ss) base len (room - 1))
      (add_slice-Grown (t ∷ ss) base len (room - 1) (omega (arith, l)))
  where
    on_rest :
        (o : Option (List Slice))
        → Grown (t ∷ ss) len (room - 1) o
        → Grown (s ∷ t ∷ ss) len room (elim o [ none ↦ none | some ts ↦ some (s ∷ ts) ])
    on_rest none g = tt
    on_rest (some ts) g = (omega (arith, g.0), omega (arith, g.1, l))

-- What the parser has recorded of a request so far; of a request that stores nothing, nothing.
pub record Recorded (is_store : Bool) (r : HttpRequest) : Type 0 where
  pub counted : total_len r.put_headers ≡ r.put_header_length
  pub within : length r.put_headers ≤ put_headers_size
  pub nothing : is_store ≡ false → r.put_headers ≡ []

-- The handlers leave the slices as they are.
abbrev Keeps : HttpRequest → Handled → Type 0
Keeps r (fine q) = (q.put_headers ≡ r.put_headers) × (q.put_header_length ≡ r.put_header_length)
Keeps r (decline q) = (q.put_headers ≡ r.put_headers) × (q.put_header_length ≡ r.put_header_length)
Keeps r (bad why) = Unit {0}

handle-Keeps :
    (c : Context) (h : Header) (r : HttpRequest) (p : Bytes) (len : ℕ)
    → Keeps r (handle c h r p len)
unfolding handle
handle-Keeps c range_header r p len = ground arith
handle-Keeps c content_length_header r p len = ground arith
handle-Keeps c cache_control_header r p len = ground arith
handle-Keeps c expires_header r p len = ground arith
handle-Keeps c host_header r p len = (refl, refl)
handle-Keeps c ohc_key_header r p len = (refl, refl)
handle-Keeps c connection_header r p len = ground arith

Recorded-fields :
    (b : Bool) (r q : HttpRequest)
    → Recorded b r
    → q.put_headers ≡ r.put_headers
    → q.put_header_length ≡ r.put_header_length
    → Recorded b q
Recorded-fields b r q v e f = record {
  counted = ap total_len e ∙ v.counted ∙ sym f;
  within = omega (arith, v.within, ap length e);
  nothing = λ s. e ∙ v.nothing s;
}

-- A slice more, of a request that is stored.
abbrev Added : HttpRequest → ℕ → Option HttpRequest → Type 0
Added r len none = Unit {0}
Added r len (some q) =
    (total_len q.put_headers ≡ total_len r.put_headers + len)
    × (length q.put_headers ≤ put_headers_size)
    × (q.put_header_length ≡ r.put_header_length)
    × (q.content_length ≡ r.content_length)

add_put_headers-Added :
    (r : HttpRequest) (base len : ℕ)
    → length r.put_headers ≤ put_headers_size
    → Added r len (http_add_put_headers r base len)
unfolding http_add_put_headers
add_put_headers-Added r base len l =
    on_slices (add_slice r.put_headers base len put_headers_size)
      (add_slice-Grown r.put_headers base len put_headers_size l)
  where
    on_slices :
        (o : Option (List Slice))
        → Grown r.put_headers len put_headers_size o
        → Added r len (elim o [ none ↦ none | some ss ↦ some (record r { put_headers = ss }) ])
    on_slices none g = tt
    on_slices (some ss) g = (g.0, g.1, refl, refl)

-- What the parser promises of its result: for a request that is stored, the bytes that are
-- written at first, the 200 header and the slices, fit into the item; for any other, nothing is
-- recorded. It never runs out of rounds.
pub record Fits (r : HttpRequest) : Type 0 where
  pub length_small : r.content_length < 2 ^ 63
  pub room :
      response_200_length r.content_length + total_len r.put_headers
      ≤ r.content_length + r.put_header_length
  pub slices : length r.put_headers ≤ put_headers_size

abbrev pub ParsedOk : Parsed → Type 0
ParsedOk (done r) = Fits r ⊎ ((r.put_headers ≡ []) × (r.put_header_length ≡ 0))
ParsedOk (again r) = Unit {0}
ParsedOk (error why r) = Unit {0}
ParsedOk overrun = Unit {0}
ParsedOk stale = Unit {0}
ParsedOk stuck = ⊥

pub not_complete-ParsedOk : (r : HttpRequest) (p : Bytes) → ParsedOk (not_complete r p)
unfolding not_complete
not_complete-ParsedOk r p = elim (Bool-cases (has_end p)) [ inl t ↦ rw t tt | inr t ↦ rw t tt ]

module _ (c : Context) (m : Method) (size received : ℕ) where
  abbrev RecordedIn : Option HttpRequest → Type 0
  RecordedIn none = Unit {0}
  RecordedIn (some q) = Recorded m.is_store q

  store_header-Recorded :
      (r : HttpRequest) (base len : ℕ)
      → Recorded m.is_store r
      → m.is_store ≡ true
      → RecordedIn (store_header r base len)
  unfolding store_header
  store_header-Recorded r base len v s =
      on_added (http_add_put_headers r base len) (add_put_headers-Added r base len v.within)
    where
      on_added :
          (o : Option HttpRequest)
          → Added r len o
          → RecordedIn (elim o [
            | none ↦ none
            | some q ↦ some (record q { put_header_length = q.put_header_length + len })
          ])
      on_added none a = tt
      on_added (some q) a = record {
        counted = omega (arith, a.0, a.2, v.counted);
        within = a.1;
        nothing = λ n. cc (n, s);
      }

  finish_stored :
      (r : HttpRequest) (base left : ℕ)
      → Recorded m.is_store r
      → r.content_length < 2 ^ 63
      → left - 2 ≤ r.content_length
      → ParsedOk (elim (http_add_put_headers r base left) [
        | none ↦ overrun
        | some q ↦ done (record q {
          put_header_length = q.put_header_length + response_200_length q.content_length + 2;
        })
      ])
  finish_stored r base left v small fits =
      on_added (http_add_put_headers r base left) (add_put_headers-Added r base left v.within)
    where
      on_added :
          (o : Option HttpRequest)
          → Added r left o
          → ParsedOk (elim o [
            | none ↦ overrun
            | some q ↦ done (record q {
              put_header_length = q.put_header_length + response_200_length q.content_length + 2;
            })
          ])
      on_added none a = tt
      on_added (some q) a = inl (record {
        length_small = omega (arith, a.3, small);
        room = omega (arith, a.0, a.2, a.3, v.counted, fits);
        slices = a.1;
      })

  pub finish-ParsedOk :
      (r : HttpRequest) (p : Bytes)
      → Recorded m.is_store r
      → ParsedOk (finish c m size received r p)
  unfolding finish
  finish-ParsedOk r p v =
      let left = received - (size - length p) in
      elim (Bool-cases m.is_store) [
        | inr s ↦ let n = v.nothing s in rw s (inr (n, sym v.counted ∙ ap total_len n))
        | inl s ↦ rw s (elim (Bool-cases (r.content_length == no_length)) [
          | inl t ↦ rw t tt
          | inr t ↦
              rw t
                (elim (Bool-cases
                  (leb (2 ^ 63) r.content_length || ltb r.content_length (left - 2))) [
                    | inl u ↦ rw u tt
                    | inr u ↦ rw u (
                        finish_stored r (size - length p) left v (ground (arith, u))
                          (ground (arith, u)))
                  ])
        ])
      ]

  module _ (go : HttpRequest → Parsed)
      (next : (q : HttpRequest) → Recorded m.is_store q → ParsedOk (go q)) where
    stored-ParsedOk :
        (r : HttpRequest) (base len : ℕ)
        → Recorded m.is_store r
        → ParsedOk (
            if m.is_store
            then elim (store_header r base len) [ none ↦ overrun | some q' ↦ go q' ]
            else go r)
    stored-ParsedOk r base len v = elim (Bool-cases m.is_store) [
      | inl s ↦ rw s (on_stored (store_header r base len) (store_header-Recorded r base len v s))
      | inr s ↦ rw s (next r v)
    ]
      where
        on_stored :
            (o : Option HttpRequest)
            → RecordedIn o
            → ParsedOk (elim o [ none ↦ overrun | some q' ↦ go q' ])
        on_stored none v = tt
        on_stored (some q) v = next q v

    pub one_header-ParsedOk :
        (r : HttpRequest) (p value : Bytes) (len : ℕ) (rest : Bytes)
        → Recorded m.is_store r
        → ParsedOk (one_header c m size received r p value len rest go)
    unfolding one_header
    one_header-ParsedOk r p value len rest v = on_header (find_header m.headers p)
      where
        stored : HttpRequest → Parsed
        stored q =
            if m.is_store
            then elim (store_header q (size - length p) (length p - length rest)) [
              | none ↦ overrun
              | some q' ↦ go q'
            ]
            else go q

        on_handled :
            (o : Handled)
            → Keeps r o
            → ParsedOk (elim o [ fine q ↦ go q | decline q ↦ stored q | bad why ↦ failed why r ])
        on_handled (fine q) k = next q (Recorded-fields m.is_store r q v k.0 k.1)
        on_handled (decline q) k =
            stored-ParsedOk q (size - length p) (length p - length rest)
              (Recorded-fields m.is_store r q v k.0 k.1)
        on_handled (bad why) k = tt

        on_header :
            (o : Option Header)
            → ParsedOk (elim o [
              | none ↦ stored r
              | some h ↦ elim (handle c h r value len) [
                | fine q ↦ go q
                | decline q ↦ stored q
                | bad why ↦ failed why r
              ]
            ])
        on_header none = stored-ParsedOk r (size - length p) (length p - length rest) v
        on_header (some h) = on_handled (handle c h r value len) (handle-Keeps c h r value len)
