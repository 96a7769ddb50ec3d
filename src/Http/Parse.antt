-- ===== src/Http/Parse.antt =====
-- `http_request_parse` of http.c.
-- The text is what was received, up to the first zero byte; `received` is `r->buf_pos - p` at its
-- start, which also counts what stands behind a zero byte. An offset in the buffer is the length
-- of the text less that of the rest.
pub mod Recorded
pub mod Sound
use olivehc.Prelude.{
  ℕ, zero, suc, ◌+◌, ◌-◌, ◌*◌, ◌^◌, Bool, true, false, Option, none, some, List, [], ◌∷◌, ◌++◌, leb,
  ltb, ◌==◌, ◌||◌, ◌&&◌, if◌then◌else◌, Bytes, byte_at, codes, strip, skip_spaces, split_at, length,
  drop,
}
use olivehc.Http.Headers.{
  Reason, unknown_method, not_http, no_content_length, body_larger_than_declared, not_terminated,
  HttpRequest, Context, Handled, fine, decline, bad, Header, no_length, handle, general_headers,
  get_headers, store_headers, starts_with, find_header, http_add_put_headers,
}
use olivehc.Http.Response.{response_200_length}

-- How the parser ends: `OHC_DONE`, `OHC_AGAIN`, or `OHC_ERROR`; it writes behind the array
-- `put_headers`; it reads behind what was received; or the model has run out of rounds.
pub data Parsed : Type 0 where
  done : HttpRequest → Parsed
  again : HttpRequest → Parsed
  error : Reason → HttpRequest → Parsed
  overrun : Parsed
  stale : Parsed
  stuck : Parsed

pub record Method : Type 0 where
  pub number : ℕ
  pub word : Bytes
  pub headers : List (Bytes × Header)
  pub is_store : Bool

abbrev pub http_methods : List Method
http_methods =
    record { number = 0; word = codes "GET "; headers = get_headers; is_store = false }
    ∷ record { number = 1; word = codes "HEAD "; headers = get_headers; is_store = false }
    ∷ record { number = 2; word = codes "PUT "; headers = store_headers; is_store = true }
    ∷ record { number = 3; word = codes "POST "; headers = store_headers; is_store = true }
    ∷ record { number = 4; word = codes "PURGE "; headers = general_headers; is_store = false }
    ∷ record { number = 5; word = codes "DELETE "; headers = general_headers; is_store = false }
    ∷ []

unfoldable pub find_method : List Method → Bytes → Option (Method × Bytes)
find_method [] p = none
find_method (m ∷ ms) p = elim (strip m.word p) [ some q ↦ some (m, q) | none ↦ find_method ms p ]

unfoldable pub failed : Reason → HttpRequest → Parsed
failed why r = error why (record r { keepalive = false; http_code = 400 })

-- `strstr(p, "\r\n\r\n") != NULL`
unfoldable pub has_end : Bytes → Bool
has_end [] = false
has_end (c ∷ p) =
    let rest = has_end p in elim (strip (codes "\r\n\r\n") (c ∷ p)) [ some q ↦ true | none ↦ rest ]

unfoldable pub not_complete : HttpRequest → Bytes → Parsed
unfolding has_end failed
not_complete r p = if has_end p then failed not_terminated r else again r

-- A header of a PUT that is stored: the slice from its name on.
unfoldable pub store_header : HttpRequest → ℕ → ℕ → Option HttpRequest
store_header r base len = elim (http_add_put_headers r base len) [
  | none ↦ none
  | some q ↦ some (record q { put_header_length = q.put_header_length + len })
]

module _ (c : Context) (m : Method) (size received : ℕ) where
  -- Where the headers end, at the empty line `p`.
  unfoldable pub finish : HttpRequest → Bytes → Parsed
  unfolding failed
  finish r p =
      if m.is_store
      then (let left = received - (size - length p) in
          if r.content_length == no_length
          then failed no_content_length r
          else if leb (2 ^ 63) r.content_length || ltb r.content_length (left - 2)
          then failed body_larger_than_declared r
          else elim (http_add_put_headers r (size - length p) left) [
            | none ↦ overrun
            | some q ↦ done (record q {
              put_header_length = q.put_header_length + response_200_length q.content_length + 2;
            })
          ])
      else done r

  -- One header: its name begins at `p`, its value at `value` has the length `len`, and the next
  -- line begins at `next`.
  unfoldable pub one_header :
      HttpRequest → Bytes → Bytes → ℕ → Bytes → (HttpRequest → Parsed) → Parsed
  unfolding failed store_header
  one_header r p value len next go =
      let stored = λ (q : HttpRequest).
        if m.is_store
        then elim (store_header q (size - length p) (length p - length next)) [
          | none ↦ overrun
          | some q' ↦ go q'
        ]
        else go q in
      elim (find_header m.headers p) [
        | none ↦ stored r
        | some h ↦ elim (handle c h r value len) [
          | fine q ↦ go q
          | decline q ↦ stored q
          | bad why ↦ failed why r
        ]
      ]

  -- The loop over the headers, with at most `fuel` rounds.
  unfoldable pub header_loop : ℕ → HttpRequest → Bytes → Parsed
  unfolding finish one_header not_complete
  header_loop zero r p = stuck
  header_loop (suc fuel) r p =
      let line = skip_spaces p in
      elim (strip (codes "\r\n") line) [
        | some q ↦ finish r line
        | none ↦ elim (split_at b':' line) [
          | none ↦ not_complete r line
          | some (name, colon) ↦
              let value = skip_spaces (drop 1 colon) in
              elim (split_at b'\r' value) [
                | none ↦ not_complete r value
                | some (text, from) ↦
                    if byte_at (drop 1 from) == 0
                    then not_complete r value
                    else one_header r line value (length text) (drop 2 from)
                        (λ q. header_loop fuel q (drop 2 from))
              ]
        ]
      ]

  -- The request line behind the method.
  unfoldable pub request_line : HttpRequest → Bytes → Parsed
  unfolding not_complete failed
  request_line r p =
      let start = skip_spaces p in
      elim (split_at 32 start) [
        | none ↦ not_complete r start
        | some (uri, space) ↦
            let version = skip_spaces (drop 1 space) in
            if starts_with (codes "HTTP/") version
            then elim (split_at b'\r' (drop 5 version)) [
              | none ↦ not_complete (record r { uri = uri }) version
              | some (text, from) ↦ elim (drop 1 from) [
                | [] ↦ stale
                | _ ↦ header_loop (suc size) (record r { uri = uri }) (drop 2 from)
              ]
            ]
            else failed not_http (record r { uri = uri })
      ]

unfoldable pub http_request_parse : Context → HttpRequest → Bytes → ℕ → Parsed
unfolding find_method request_line failed
http_request_parse c r text received =
    let start = record r { put_headers = []; put_header_length = 0 } in
    elim (find_method http_methods text) [
      | none ↦ failed unknown_method start
      | some (m, p) ↦ request_line c m (length text) received (record start { method = m.number }) p
    ]
