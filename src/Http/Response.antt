-- ===== src/Http/Response.antt =====
-- The headers that http.c makes for a response.
use olivehc.Prelude.{
  ℕ, ◌+◌, ◌-◌, ◌≡◌, Option, none, some, ◌==◌, if◌then◌else◌, List, [], ◌∷◌, ◌++◌, Bytes, codes,
  length, arith,
}
use olivehc.Http.Number.{decimal, numlen}
use olivehc.Http.Number.Digits.{numlen-decimal, length-append}

abbrev pub resp_200_conlen : Bytes
resp_200_conlen = codes "HTTP/1.1 200 OK\r\nContent-Length: "

abbrev pub crlf : Bytes
crlf = codes "\r\n"

-- What is written to `output`.
unfoldable pub http_make_200_response_header : ℕ → Bytes
http_make_200_response_header content_length = resp_200_conlen ++ decimal content_length ++ crlf

-- What is returned where `output` is null.
unfoldable pub response_200_length : ℕ → ℕ
response_200_length content_length = length (resp_200_conlen ++ crlf) + numlen content_length

-- A range with its end included, of a body of a length. The positions are not negative.
unfoldable pub http_make_206_response_header : ℕ → ℕ → ℕ → Bytes
http_make_206_response_header range_start range_end body_len =
    codes "HTTP/1.1 206 Partial Content\r\nContent-Length: "
    ++ (decimal (range_end - range_start + 1)
        ++ (codes "\r\nContent-Range: bytes "
            ++ (decimal range_start
                ++ (codes "-"
                    ++ (decimal range_end ++ (codes "/" ++ (decimal body_len ++ crlf)))))))

-- The length that `http_make_200_response_header` counts without an output is the length of the
-- header that it writes.
pub response_200_length-make_200 :
    (n : ℕ) → response_200_length n ≡ length (http_make_200_response_header n)
unfolding response_200_length http_make_200_response_header
response_200_length-make_200 n = omega (
  arith,
  numlen-decimal n,
  length-append (resp_200_conlen ++ decimal n) crlf,
  length-append resp_200_conlen (decimal n),
)

abbrev pub http_pages : List (ℕ × Bytes)
http_pages =
    (201, codes "HTTP/1.1 201 Created\r\n\r\n")
    ∷ (204, codes "HTTP/1.1 204 No Content\r\n\r\n")
    ∷ (400, codes "HTTP/1.1 400 Bad Request\r\nContent-Length: 0\r\n\r\n")
    ∷ (404, codes "HTTP/1.1 404 Not Found\r\nContent-Length: 0\r\n\r\n")
    ∷ (413, codes "HTTP/1.1 413 Request Entity Too Large\r\nContent-Length: 0\r\n\r\n")
    ∷ (416, codes "HTTP/1.1 416 Requested Range Not Satisfiable\r\nContent-Length: 0\r\n\r\n")
    ∷ (500, codes "HTTP/1.1 500 Internal Server Error\r\nContent-Length: 0\r\n\r\n")
    ∷ []

-- `none` is the null pointer, for a code that has no page.
unfoldable pub page_of : ℕ → List (ℕ × Bytes) → Option Bytes
page_of code [] = none
page_of code ((n, page) ∷ pages) =
    let rest = page_of code pages in if n == code then some page else rest

unfoldable pub http_code_page : ℕ → Option Bytes
unfolding page_of
http_code_page code = page_of code http_pages
