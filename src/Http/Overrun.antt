-- ===== src/Http/Overrun.antt =====
-- Where http.c has no room left for the slices of a PUT.
use olivehc.Prelude.{
  ℕ, ◌+◌, ◌-◌, ◌≡◌, ◌≢◌, true, false, none, List, [], ◌∷◌, ◌==◌, Bytes, length, arith, refl,
}
use olivehc.Http.Headers.{
  HttpRequest, Context, Slice, add_slice, http_add_put_headers, put_headers_size, find_header,
}
use olivehc.Http.Parse.{Parsed, overrun, Method, store_header, one_header}

-- The end of the last slice.
abbrev pub last_end : List Slice → ℕ
last_end [] = 0
last_end (s ∷ []) = s.at + s.len
last_end (s ∷ t ∷ ss) = last_end (t ∷ ss)

add_slice-full :
    (ss : List Slice) (base len room : ℕ)
    → length ss ≡ room
    → last_end ss ≢ base
    → add_slice ss base len room ≡ none
unfolding add_slice
add_slice-full [] base len room e n = let t : (room == 0) ≡ true = ground arith in rw t
add_slice-full (s ∷ []) base len room e n =
    let t : (room == 0) ≡ false = ground arith in
    let u : (s.at + s.len == base) ≡ false = ground (arith, n) in
    let w : (room == 1) ≡ true = ground arith in rw (t, u, w)
add_slice-full (s ∷ t ∷ ss) base len room e n =
    rw (add_slice-full (t ∷ ss) base len (room - 1) (omega (arith, e)) n)

-- In a PUT or POST with 10 slices recorded, of which the last does not end where the next
-- header begins, a header that has no handler is written behind the array `put_headers`.
pub one_header-overrun :
    (c : Context) (m : Method) (size received : ℕ) (r : HttpRequest) (p value : Bytes) (len : ℕ)
    (next : Bytes) (go : HttpRequest → Parsed)
    → m.is_store ≡ true
    → length r.put_headers ≡ put_headers_size
    → last_end r.put_headers ≢ size - length p
    → find_header m.headers p ≡ none
    → one_header c m size received r p value len next go ≡ overrun
unfolding one_header store_header http_add_put_headers
one_header-overrun c m size received r p value len next go s full apart unknown =
    rw (unknown, one_header)
      (rw s (
        rw
          (
            add_slice-full r.put_headers (size - length p) (length p - length next) put_headers_size
                full apart,
            store_header,
          )
          refl))
