-- ===== src/Http/Tests.antt =====
-- Runs of http.c, and the theorems at concrete texts.
use olivehc.Prelude.{
  ℕ, zero, suc, ◌≡◌, true, none, some, List, [], ◌∷◌, ◌++◌, Bytes, codes, length, arith, refl,
  replicate,
}
use olivehc.Http.Uri.{http_decode_uri}
use olivehc.Http.Uri.Escape.{Spells, decode_uri-Spells}
use olivehc.Http.Number.{
  decimal, numlen, strtoul, decimal_of, numlen_loop, digits_from, span_digits, value_of,
}
use olivehc.Http.Number.Digits.{strtoul-decimal}
use olivehc.Http.Range.{at, no_set, range, overflow, http_parse_get_range, read_position, add_digit}
use olivehc.Http.Range.Printed.{written, parse_range-written, parse_range-RangeOk, RangeOk}
use olivehc.Http.Response.{
  http_make_200_response_header, response_200_length, response_200_length-make_200,
}
use olivehc.Http.Headers.{
  HttpRequest, Context, Slice, no_length, handle, find_header, http_add_put_headers, store_headers,
}
use olivehc.Http.Parse.{done, overrun, stale, http_request_parse, one_header, header_loop, Method}
use olivehc.Http.Parse.Sound.{request_parse-ParsedOk}
use olivehc.Http.Parse.Recorded.{ParsedOk}
use olivehc.Http.Overrun.{one_header-overrun}

-- "a %" is written as "%61 %25".
a_percent : Spells (codes "a %") (codes "%61 %25")
a_percent = Spells.escaped true true b'a' (omega arith) (
    Spells.plain 32 (λ e. absurd (omega (arith, e)))
      (Spells.escaped true true b'%' (omega arith) Spells.done))

decode_uri-Spells_example : http_decode_uri (codes "%61 %25" ++ codes " HTTP") 7 ≡ codes "a %"
decode_uri-Spells_example = decode_uri-Spells (codes " HTTP") a_percent

strtoul-decimal_example : strtoul (decimal 1024 ++ codes "\r") ≡ some (1024, codes "\r")
strtoul-decimal_example = strtoul-decimal 1024 (codes "\r") (omega arith) refl

decimal_runs : decimal 1024 ≡ codes "1024"
unfolding decimal decimal_of
decimal_runs = refl

parse_range-written_example :
    http_parse_get_range (
      codes "bytes="
      ++ (written (at 0) ++ (b'-' ∷ (written (at 99) ++ (replicate 1 32 ++ (b'\r' ∷ codes "\n"))))))
    ≡ range (at 0) (at 99)
parse_range-written_example = parse_range-written (at 0) (at 99) 1 (codes "\n") (omega arith)

parse_range-RangeOk_example : RangeOk (http_parse_get_range (codes "bytes=-500\r"))
parse_range-RangeOk_example = parse_range-RangeOk (codes "bytes=-500\r")

range_overflow : http_parse_get_range (codes "bytes=9223372036854775760-\r") ≡ overflow
unfolding http_parse_get_range read_position add_digit
range_overflow = refl

range_largest :
    http_parse_get_range (codes "bytes=9223372036854775759-\r")
    ≡ range (at 9223372036854775759) no_set
unfolding http_parse_get_range read_position add_digit
range_largest = refl

response_200_length-make_200_example :
    response_200_length 1024 ≡ length (http_make_200_response_header 1024)
response_200_length-make_200_example = response_200_length-make_200 1024

abbrev idle : HttpRequest
idle = record {
  method = 6;
  content_length = no_length;
  expire = 0;
  range_set = none;
  uri = [];
  host = none;
  ohc_key = none;
  keepalive = true;
  put_headers = [];
  put_header_length = 0;
  http_code = 0;
}

abbrev context : Context
context = record { expire_force = 0; now = 1000; parse_date = λ p. none }

abbrev a_put : Bytes
a_put = codes "PUT /a HTTP/1.1\r\nHost: h\r\nX: 1\r\nContent-Length: 3\r\n\r\nabc"

request_parse-ParsedOk_example : ParsedOk (http_request_parse context idle a_put 56)
request_parse-ParsedOk_example = request_parse-ParsedOk context idle a_put 56

-- The header X and, with the empty line, the body are stored.
put_runs :
    http_request_parse context idle a_put 56
    ≡ done (record idle {
      method = 2;
      content_length = 3;
      uri = codes "/a";
      host = some (codes "h");
      put_headers = record { at = 26; len = 6 } ∷ record { at = 51; len = 5 } ∷ [];
      put_header_length = 44;
    })
unfolding http_request_parse header_loop handle find_header http_add_put_headers response_200_length
    numlen numlen_loop strtoul digits_from span_digits value_of
put_runs = refl

-- A header that is stored and one that is not, eleven times: the slices do not fit.
abbrev pairs : ℕ → Bytes
pairs zero = []
pairs (suc n) = codes "X: 1\r\nHost: h\r\n" ++ pairs n

abbrev eleven_pairs : Bytes
eleven_pairs = codes "PUT /a HTTP/1.1\r\n" ++ (pairs 11 ++ codes "\r\n")

overrun_runs : http_request_parse context idle eleven_pairs 184 ≡ overrun
unfolding http_request_parse header_loop handle find_header http_add_put_headers
overrun_runs = refl

-- A first packet that ends between the CR and the LF of the request line.
stale_runs : http_request_parse context idle (codes "GET /a HTTP/1.1\r") 16 ≡ stale
unfolding http_request_parse
stale_runs = refl

-- Ten slices, of which the last does not end where the header `X` begins.
abbrev ten_slices : List Slice
ten_slices = replicate 10 (record { at = 0; len = 1 })

abbrev full : HttpRequest
full = record idle { put_headers = ten_slices }

abbrev put_method : Method
put_method = record { number = 2; word = codes "PUT "; headers = store_headers; is_store = true }

one_header-overrun_example :
    one_header context put_method 100 100 full (codes "X: 1\r\n") (codes "1\r\n") 1 [] (λ q. done q)
    ≡ overrun
unfolding find_header
one_header-overrun_example =
    one_header-overrun context put_method 100 100 full (codes "X: 1\r\n") (codes "1\r\n") 1 []
      (λ q. done q) refl refl (λ e. absurd (omega (arith, e))) refl
