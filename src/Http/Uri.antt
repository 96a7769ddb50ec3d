-- ===== src/Http/Uri.antt =====
-- `http_decode_uri` of http.c, with `char2hex` of utils/string.h.
pub mod Escape
use olivehc.Prelude.{
  ℕ, zero, suc, ◌+◌, ◌-◌, ◌*◌, Option, none, some, List, [], ◌∷◌, leb, ◌==◌, ◌&&◌, if◌then◌else◌,
  Bytes,
}
use Prim.Native.Nat.{bit_and}

-- `none` is the result -1. A byte of 128 or more is a negative `char`, and no digit either way.
unfoldable pub char2hex : ℕ → Option ℕ
char2hex c =
    if leb b'0' c && leb c b'9'
    then some (c - b'0')
    else let u = bit_and c 0xdf in if leb b'A' u && leb u b'F' then some (u - b'A' + 10) else none

-- The byte that two digits behind a `%` stand for.
unfoldable pub hex_pair : ℕ → ℕ → Option ℕ
unfolding char2hex
hex_pair x y = elim (char2hex x) [
  | none ↦ none
  | some a ↦ elim (char2hex y) [ none ↦ none | some b ↦ some (a * 16 + b) ]
]

-- The loop, over the buffer from `uri + i` on, of which `left` bytes are the URI. Behind the
-- buffer's last byte stands a zero, which is no digit.
unfoldable pub http_decode_uri : Bytes → ℕ → Bytes
unfolding hex_pair
http_decode_uri [] left = []
http_decode_uri (c ∷ p) zero = []
http_decode_uri (c ∷ []) (suc left) = c ∷ []
http_decode_uri (c ∷ x ∷ []) (suc left) = c ∷ http_decode_uri (x ∷ []) left
http_decode_uri (c ∷ x ∷ y ∷ p) (suc left) = elim (if c == b'%' then hex_pair x y else none) [
  | some b ↦ b ∷ http_decode_uri p (left - 2)
  | none ↦ c ∷ http_decode_uri (x ∷ y ∷ p) left
]
