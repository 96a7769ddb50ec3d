-- ===== src/Http/Headers.antt =====
-- The handlers of headers in http.c, and the slices of the buffer that a PUT stores.
use olivehc.Prelude.{
  ℕ, ◌+◌, ◌-◌, ◌^◌, ◌%◌, Bool, true, false, Option, none, some, List, [], ◌∷◌, leb, ◌==◌, ◌&&◌,
  if◌then◌else◌, Bytes, codes, strip, length, take,
}
use olivehc.Http.Number.{strtoul}
use olivehc.Http.Range.{Position, range, ignored, invalid, overflow, http_parse_get_range}

-- `r->error_reason`
pub data Reason : Type 0 where
  unknown_method not_http invalid_content_length unhandled_cache_control invalid_max_age : Reason
  zero_max_age invalid_expires invalid_range range_overflow no_content_length : Reason
  body_larger_than_declared not_terminated : Reason

-- A piece of the buffer: its offset and its length.
pub record Slice : Type 0 where
  pub at : ℕ
  pub len : ℕ

-- What the parser knows and sets of `ohc_request_s`. A length and a time are 64-bit words, with
-- -1 as 2 ^ 64 - 1. A string is the text that it stands for.
pub record HttpRequest : Type 0 where
  pub method : ℕ
  pub content_length : ℕ
  pub expire : ℕ
  pub range_set : Option (Position × Position)
  pub uri : Bytes
  pub host : Option Bytes
  pub ohc_key : Option Bytes
  pub keepalive : Bool
  pub put_headers : List Slice
  pub put_header_length : ℕ
  pub http_code : ℕ

-- What the handlers read elsewhere: the server's `expire_force`, the time, and
-- `timer_parse_rfc1123`, which gives none for no date and for one before 1970.
pub record Context : Type 0 where
  pub expire_force : ℕ
  pub now : ℕ
  pub parse_date : Bytes → Option ℕ

pub data Handled : Type 0 where
  fine : HttpRequest → Handled
  decline : HttpRequest → Handled
  bad : Reason → Handled

abbrev pub no_length : ℕ
no_length = 2 ^ 64 - 1

-- `endp == p + len`
abbrev ends_at : Bytes → Bytes → ℕ → Bool
ends_at endp p len = length endp + len == length p

unfoldable pub http_parse_put_content_length : HttpRequest → Bytes → ℕ → Handled
http_parse_put_content_length r p len = elim (strtoul p) [
  | none ↦ bad invalid_content_length
  | some (n, endp) ↦
      if ends_at endp p len
      then fine (record r { content_length = n })
      else bad invalid_content_length
]

unfoldable pub http_parse_put_cache_control : Context → HttpRequest → Bytes → ℕ → Handled
http_parse_put_cache_control c r p len =
    if c.expire_force == 0
    then elim (strip (codes "max-age=") p) [
      | none ↦ bad unhandled_cache_control
      | some value ↦ elim (strtoul value) [
        -- No digits: `endp` is `value`, and the age is 0.
        | none ↦ if ends_at value p len then bad zero_max_age else bad invalid_max_age
        | some (n, endp) ↦
            if ends_at endp p len
            then (if n == 0
                then bad zero_max_age
                else decline (record r { expire = (n + c.now) % 2 ^ 64 }))
            else bad invalid_max_age
      ]
    ]
    else decline r

unfoldable pub http_parse_put_expires : Context → HttpRequest → Bytes → Handled
http_parse_put_expires c r p =
    if c.expire_force == 0 && r.expire == 0
    then elim (c.parse_date p) [
      | none ↦ bad invalid_expires
      | some t ↦ if leb t c.now then bad invalid_expires else decline (record r { expire = t })
    ]
    else decline r

unfoldable pub http_parse_range : HttpRequest → Bytes → Handled
http_parse_range r p = elim (http_parse_get_range p) [
  | range start end ↦ fine (record r { range_set = some (start, end) })
  | ignored ↦ fine r
  | invalid ↦ bad invalid_range
  | overflow ↦ bad range_overflow
]

unfoldable pub http_parse_connection : HttpRequest → Bytes → Handled
http_parse_connection r p = elim (strip (codes "close") p) [
  | none ↦ fine r
  | some q ↦ fine (record r { keepalive = false })
]

-- The headers that have a handler.
pub data Header : Type 0 where
  range_header content_length_header cache_control_header expires_header : Header
  host_header ohc_key_header connection_header : Header

unfoldable pub handle : Context → Header → HttpRequest → Bytes → ℕ → Handled
unfolding http_parse_put_content_length http_parse_put_cache_control http_parse_put_expires
    http_parse_range http_parse_connection
handle c range_header r p len = http_parse_range r p
handle c content_length_header r p len = http_parse_put_content_length r p len
handle c cache_control_header r p len = http_parse_put_cache_control c r p len
handle c expires_header r p len = http_parse_put_expires c r p
handle c host_header r p len = fine (record r { host = some (take len p) })
handle c ohc_key_header r p len = fine (record r { ohc_key = some (take len p) })
handle c connection_header r p len = http_parse_connection r p

abbrev pub general_headers : List (Bytes × Header)
general_headers =
    (codes "Host:", host_header)
    ∷ (codes "OHC-Key:", ohc_key_header)
    ∷ (codes "Connection:", connection_header)
    ∷ []

abbrev pub get_headers : List (Bytes × Header)
get_headers = (codes "Range:", range_header) ∷ general_headers

abbrev pub store_headers : List (Bytes × Header)
store_headers =
    (codes "Content-Length:", content_length_header)
    ∷ (codes "Cache-Control:", cache_control_header)
    ∷ (codes "Expires", expires_header)
    ∷ general_headers

abbrev lower : ℕ → ℕ
lower c = if leb b'A' c && leb c b'Z' then c + 32 else c

-- `strncasecmp(p, word, strlen(word)) == 0`
abbrev pub starts_with : Bytes → Bytes → Bool
starts_with [] p = true
starts_with (w ∷ ws) [] = false
starts_with (w ∷ ws) (c ∷ p) = lower w == lower c && starts_with ws p

unfoldable pub find_header : List (Bytes × Header) → Bytes → Option Header
find_header [] name = none
find_header ((word, h) ∷ hs) name =
    let rest = find_header hs name in if starts_with word name then some h else rest

abbrev pub put_headers_size : ℕ
put_headers_size = 10

-- `none` where the array `put_headers` has no place left, so that the code writes behind it.
unfoldable pub add_slice : List Slice → ℕ → ℕ → ℕ → Option (List Slice)
add_slice [] base len room = if room == 0 then none else some (record { at = base; len = len } ∷ [])
add_slice (s ∷ []) base len room =
    if room == 0
    then none
    else if s.at + s.len == base
    then some (record { at = s.at; len = s.len + len } ∷ [])
    else if room == 1
    then none
    else some (s ∷ record { at = base; len = len } ∷ [])
add_slice (s ∷ t ∷ ss) base len room = elim (add_slice (t ∷ ss) base len (room - 1)) [
  | none ↦ none
  | some ts ↦ some (s ∷ ts)
]

unfoldable pub http_add_put_headers : HttpRequest → ℕ → ℕ → Option HttpRequest
unfolding add_slice
http_add_put_headers r base len = elim (add_slice r.put_headers base len put_headers_size) [
  | none ↦ none
  | some ss ↦ some (record r { put_headers = ss })
]
