-- ===== src/Http/Parse/Sound.antt =====
-- The parser of http.c ends, and what it records of a PUT fits into the item.
use olivehc.Prelude.{
  ℕ, zero, suc, ◌≤◌, ◌<◌, ◌≡◌, inl, inr, Option, none, some, List, [], ◌∷◌, ◌==◌, if◌then◌else◌,
  Bytes, byte_at, codes, strip, skip_spaces, split_at, length, length-drop, drop, arith, refl, ap,
  sym, ◌∙◌, Bool-cases,
}
use olivehc.Http.Headers.{not_http, unknown_method, HttpRequest, Context, starts_with}
use olivehc.Http.Parse.{
  stale, Method, http_methods, find_method, failed, not_complete, finish, one_header, header_loop,
  request_line, http_request_parse,
}
use olivehc.Http.Parse.Recorded.{
  total_len, Recorded, ParsedOk, not_complete-ParsedOk, finish-ParsedOk, one_header-ParsedOk,
}

skip_spaces-le : (p : Bytes) → length (skip_spaces p) ≤ length p
skip_spaces-le [] = omega arith
skip_spaces-le (x ∷ p) = ground (arith, skip_spaces-le p)

-- What is found is not empty, and not longer than the text.
abbrev Found : Bytes → Option (Bytes × Bytes) → Type 0
Found p none = Unit {0}
Found p (some (before, from)) = (0 < length from) × (length from ≤ length p)

split_at-Found : (x : ℕ) (p : Bytes) → Found p (split_at x p)
split_at-Found x [] = tt
split_at-Found x (y ∷ p) = elim (Bool-cases (y == x)) [
  | inl t ↦ rw t (omega arith, omega arith)
  | inr t ↦ rw t (on_rest (split_at x p) (split_at-Found x p))
]
  where
    on_rest :
        (o : Option (Bytes × Bytes))
        → Found p o
        → Found (y ∷ p) (elim o [ none ↦ none | some (before, from) ↦ some (y ∷ before, from) ])
    on_rest none f = tt
    on_rest (some (before, from)) f = (f.0, omega (arith, f.1))

module _ (c : Context) (m : Method) (size received : ℕ) where
  header_loop-ParsedOk :
      (fuel : ℕ) (r : HttpRequest) (p : Bytes)
      → length p < fuel
      → Recorded m.is_store r
      → ParsedOk (header_loop c m size received fuel r p)
  unfolding header_loop
  header_loop-ParsedOk zero r p l v = absurd (omega (arith, l))
  header_loop-ParsedOk (suc fuel) r p l v =
      on_end (strip (codes "\r\n") line)
        (λ q rest k w. header_loop-ParsedOk fuel q rest (omega (arith, k, l, skip_spaces-le p)) w)
    where
      line : Bytes
      line = skip_spaces p

      -- The next line is shorter than this one.
      Next : Type 0
      Next =
          (q : HttpRequest) (rest : Bytes)
          → length rest < length line
          → Recorded m.is_store q
          → ParsedOk (header_loop c m size received fuel q rest)

      on_value :
          Next
          → (value : Bytes) → length value < length line
          → (o : Option (Bytes × Bytes)) → Found value o
          → ParsedOk (elim o [
            | none ↦ not_complete r value
            | some (text, from) ↦
                if byte_at (drop 1 from) == 0
                then not_complete r value
                else one_header c m size received r line value
                    (length text)
                    (drop 2 from)
                    (λ q. header_loop c m size received fuel q (drop 2 from))
          ])
      on_value next value k none f = not_complete-ParsedOk r value
      on_value next value k (some (text, from)) f = elim (Bool-cases (byte_at (drop 1 from) == 0)) [
        | inl t ↦ rw t (not_complete-ParsedOk r value)
        | inr t ↦ rw t (
            one_header-ParsedOk c m size received
              (λ q. header_loop c m size received fuel q (drop 2 from))
              (λ q w. next q (drop 2 from) (omega (arith, f.1, k, length-drop 2 from)) w) r line
              value (length text) (drop 2 from) v)
      ]

      on_name :
          Next
          → (o : Option (Bytes × Bytes)) → Found line o
          → ParsedOk (elim o [
            | none ↦ not_complete r line
            | some (name, colon) ↦
                let value = skip_spaces (drop 1 colon) in
                elim (split_at b'\r' value) [
                  | none ↦ not_complete r value
                  | some (text, from) ↦
                      if byte_at (drop 1 from) == 0
                      then not_complete r value
                      else one_header c m size received r line value
                          (length text)
                          (drop 2 from)
                          (λ q. header_loop c m size received fuel q (drop 2 from))
                ]
          ])
      on_name next none f = not_complete-ParsedOk r line
      on_name next (some (name, colon)) f =
          let value = skip_spaces (drop 1 colon) in
          on_value next value
            (omega (arith, f.0, f.1, skip_spaces-le (drop 1 colon), length-drop 1 colon))
            (split_at b'\r' value) (split_at-Found b'\r' value)

      on_end :
          (o : Option Bytes)
          → Next
          → ParsedOk (elim o [
            | some q ↦ finish c m size received r line
            | none ↦ elim (split_at b':' line) [
              | none ↦ not_complete r line
              | some (name, colon) ↦
                  let value = skip_spaces (drop 1 colon) in
                  elim (split_at b'\r' value) [
                    | none ↦ not_complete r value
                    | some (text, from) ↦
                        if byte_at (drop 1 from) == 0
                        then not_complete r value
                        else one_header c m size received r line value
                            (length text)
                            (drop 2 from)
                            (λ q. header_loop c m size received fuel q (drop 2 from))
                  ]
            ]
          ])
      on_end none next = on_name next (split_at b':' line) (split_at-Found b':' line)
      on_end (some q) next = finish-ParsedOk c m size received r line v

  request_line-ParsedOk :
      (r : HttpRequest) (p : Bytes)
      → ((q : HttpRequest) (rest : Bytes)
          → length rest ≤ length p
          → q.put_headers ≡ r.put_headers
          → q.put_header_length ≡ r.put_header_length
          → ParsedOk (header_loop c m size received (suc size) q rest))
      → ParsedOk (request_line c m size received r p)
  unfolding request_line
  request_line-ParsedOk r p next = on_uri (split_at 32 start) (split_at-Found 32 start)
    where
      start : Bytes
      start = skip_spaces p

      on_line :
          (uri : Bytes) (text from : Bytes)
          → length from ≤ length p
          → ParsedOk (elim (drop 1 from) [
            | [] ↦ stale
            | _ ↦ header_loop c m size received (suc size) (record r { uri = uri }) (drop 2 from)
          ])
      on_line uri text from l = on_next (drop 1 from)
        where
          on_next :
              (o : Bytes)
              → ParsedOk (elim o [
                | [] ↦ stale
                | _ ↦
                    header_loop c m size received (suc size) (record r { uri = uri }) (drop 2 from)
              ])
          on_next [] = tt
          on_next (x ∷ o) =
              next (record r { uri = uri }) (drop 2 from) (omega (arith, l, length-drop 2 from))
                refl refl

      on_version :
          (uri version : Bytes)
          → length version ≤ length p
          → (o : Option (Bytes × Bytes)) → Found (drop 5 version) o
          → ParsedOk (elim o [
            | none ↦ not_complete (record r { uri = uri }) version
            | some (text, from) ↦ elim (drop 1 from) [
              | [] ↦ stale
              | _ ↦ header_loop c m size received (suc size) (record r { uri = uri }) (drop 2 from)
            ]
          ])
      on_version uri version l none f = not_complete-ParsedOk (record r { uri = uri }) version
      on_version uri version l (some (text, from)) f =
          on_line uri text from (omega (arith, f.1, l, length-drop 5 version))

      on_uri :
          (o : Option (Bytes × Bytes))
          → Found start o
          → ParsedOk (elim o [
            | none ↦ not_complete r start
            | some (uri, space) ↦
                let version = skip_spaces (drop 1 space) in
                if starts_with (codes "HTTP/") version
                then elim (split_at b'\r' (drop 5 version)) [
                  | none ↦ not_complete (record r { uri = uri }) version
                  | some (text, from) ↦ elim (drop 1 from) [
                    | [] ↦ stale
                    | _ ↦
                        header_loop c m size received
                          (suc size)
                          (record r { uri = uri })
                          (drop 2 from)
                  ]
                ]
                else failed not_http (record r { uri = uri })
          ])
      on_uri none f = not_complete-ParsedOk r start
      on_uri (some (uri, space)) f =
          let version = skip_spaces (drop 1 space) in
          elim (Bool-cases (starts_with (codes "HTTP/") version)) [
            | inl t ↦ rw t (
                on_version uri version
                  (omega (
                    arith,
                    skip_spaces-le (drop 1 space),
                    length-drop 1 space,
                    f.1,
                    skip_spaces-le p,
                  ))
                  (split_at b'\r' (drop 5 version)) (split_at-Found b'\r' (drop 5 version)))
            | inr t ↦ rw t tt
          ]

-- The rest behind a word is not longer than the text.
abbrev Shorter : Bytes → Option Bytes → Type 0
Shorter p none = Unit {0}
Shorter p (some q) = length q ≤ length p

strip-Shorter : (w p : Bytes) → Shorter p (strip w p)
strip-Shorter [] p = omega arith
strip-Shorter (x ∷ w) [] = tt
strip-Shorter (x ∷ w) (y ∷ p) = elim (Bool-cases (x == y)) [
  | inl t ↦ rw t (longer (strip w p) (strip-Shorter w p))
  | inr t ↦ rw t tt
]
  where
    longer : (o : Option Bytes) → Shorter p o → Shorter (y ∷ p) o
    longer none s = tt
    longer (some q) s = omega (arith, s)

abbrev Chosen : Bytes → Option (Method × Bytes) → Type 0
Chosen p none = Unit {0}
Chosen p (some (m, q)) = length q ≤ length p

find_method-Chosen : (ms : List Method) (p : Bytes) → Chosen p (find_method ms p)
unfolding find_method
find_method-Chosen [] p = tt
find_method-Chosen (x ∷ ms) p =
    on_strip (strip x.word p) (strip-Shorter x.word p) (find_method-Chosen ms p)
  where
    on_strip :
        (o : Option Bytes)
        → Shorter p o
        → Chosen p (find_method ms p)
        → Chosen p (elim o [ some r ↦ some (x, r) | none ↦ find_method ms p ])
    on_strip none s f = f
    on_strip (some r) s f = s

-- For every text, `http_request_parse` ends within as many rounds over the headers as the text
-- has bytes and one; where it gives `OHC_DONE`, either it has recorded nothing to store, or the
-- declared length is below 2 ^ 63, at most 10 slices are recorded, and the 200 header and the
-- slices that are written at first, the body that came with them included, are together at most
-- the declared length and the length of the stored headers.
pub request_parse-ParsedOk :
    (c : Context) (r : HttpRequest) (text : Bytes) (received : ℕ)
    → ParsedOk (http_request_parse c r text received)
unfolding http_request_parse
request_parse-ParsedOk c r text received =
    on_method (find_method http_methods text) (find_method-Chosen http_methods text)
  where
    start : HttpRequest
    start = record r { put_headers = []; put_header_length = 0 }

    on_method :
        (o : Option (Method × Bytes))
        → Chosen text o
        → ParsedOk (elim o [
          | none ↦ failed unknown_method start
          | some (m, p) ↦
              request_line c m (length text) received (record start { method = m.number }) p
        ])
    on_method none f = tt
    on_method (some (m, p)) f =
        request_line-ParsedOk c m (length text) received (record start { method = m.number }) p
          (λ q rest l e k.
            header_loop-ParsedOk c m (length text) received (suc (length text)) q rest
              (omega (arith, l, f))
              (record {
                counted = ap total_len e ∙ sym k;
                within = omega (arith, ap length e);
                nothing = λ s. e;
              }))
