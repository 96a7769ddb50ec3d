-- ===== src/Http/Uri/Escape.antt =====
-- A text that escapes bytes by `%` and two digits is decoded to those bytes.
use olivehc.Prelude.{
  ℕ, zero, suc, ◌+◌, ◌-◌, ◌/◌, ◌%◌, ◌≤◌, ◌<◌, ◌≡◌, ◌≢◌, Bool, true, false, Option, none, some, [],
  ◌∷◌, ◌++◌, ltb, ◌==◌, ◌&&◌, if◌then◌else◌, Bytes, length, arith, refl, ap, ◌∙◌,
}
use olivehc.Http.Uri.{char2hex, hex_pair, http_decode_uri}

-- A digit above 9 is written in upper case or in lower case.
abbrev pub hex_digit : Bool → ℕ → ℕ
hex_digit upper d =
    if ltb d 10 then b'0' + d else if upper then b'A' + (d - 10) else b'a' + (d - 10)

-- How a text spells bytes: a byte other than `%` as it is, or any byte escaped.
pub data Spells : Bytes → Bytes → Type 0 where
  done : Spells [] []
  plain : {bs text : Bytes} (b : ℕ) → b ≢ b'%' → Spells bs text → Spells (b ∷ bs) (b ∷ text)
  escaped :
      {bs text : Bytes} (u v : Bool) (b : ℕ)
      → b < 256
      → Spells bs text
      → Spells (b ∷ bs) (b'%' ∷ hex_digit u (b / 16) ∷ hex_digit v (b % 16) ∷ text)

below : ℕ → (ℕ → Bool) → Bool
below zero p = true
below (suc n) p = p n && below n p

below_sound : (n : ℕ) (p : ℕ → Bool) (x : ℕ) → below n p ≡ true → x < n → p x ≡ true
unfolding below
below_sound zero p x h l = absurd (omega arith)
below_sound (suc n) p x h l = ground (arith, below_sound n p x)

is_digit : Bool → ℕ → Bool
is_digit u d = elim (char2hex (hex_digit u d)) [ none ↦ false | some e ↦ e == d ]

digits_table : (u : Bool) → below 16 (is_digit u) ≡ true
unfolding below is_digit char2hex
digits_table true = refl
digits_table false = refl

char2hex-hex_digit : (u : Bool) (d : ℕ) → d < 16 → char2hex (hex_digit u d) ≡ some d
unfolding is_digit
char2hex-hex_digit u d l =
    on_result (char2hex (hex_digit u d)) (below_sound 16 (is_digit u) d (digits_table u) l)
  where
    on_result : (o : Option ℕ) → elim o [ none ↦ false | some e ↦ e == d ] ≡ true → o ≡ some d
    on_result none e = cc
    on_result (some e) h = ground arith

hex_pair-hex_digit :
    (u v : Bool) (b : ℕ) → b < 256 → hex_pair (hex_digit u (b / 16)) (hex_digit v (b % 16)) ≡ some b
unfolding hex_pair
hex_pair-hex_digit u v b l =
    rw (char2hex-hex_digit u (b / 16) (omega arith), hex_pair)
      (rw (char2hex-hex_digit v (b % 16) (omega arith), hex_pair) (ap some (omega arith)))

plain_step :
    (c : ℕ) (p : Bytes) (left : ℕ)
    → c ≢ b'%'
    → http_decode_uri (c ∷ p) (suc left) ≡ c ∷ http_decode_uri p left
unfolding http_decode_uri
plain_step c [] left n = refl
plain_step c (x ∷ []) left n = refl
plain_step c (x ∷ y ∷ p) left n =
    let t : (c == b'%') ≡ false = ground (arith, n) in rw (t, http_decode_uri) refl

escaped_step :
    (x y b : ℕ) (p : Bytes) (left : ℕ)
    → hex_pair x y ≡ some b
    → http_decode_uri (b'%' ∷ x ∷ y ∷ p) (suc (suc (suc left))) ≡ b ∷ http_decode_uri p left
unfolding http_decode_uri
escaped_step x y b p left e =
    rw (e, http_decode_uri) (let l : suc (suc left) - 2 ≡ left = omega arith in rw l)

-- A text in which every `%` is escaped and any byte may be, by `%` and two hexadecimal digits
-- of either case, is decoded by `http_decode_uri` to the bytes that it spells, whatever stands
-- behind it in the buffer.
pub decode_uri-Spells :
    {bs text : Bytes} (rest : Bytes)
    → Spells bs text
    → http_decode_uri (text ++ rest) (length text) ≡ bs
unfolding http_decode_uri
decode_uri-Spells rest done = nothing rest
  where
    nothing : (p : Bytes) → http_decode_uri p 0 ≡ []
    nothing [] = refl
    nothing (c ∷ p) = refl
decode_uri-Spells rest (plain {bs} {text} b n s) =
    plain_step b (text ++ rest) (length text) n ∙ ap (λ t. b ∷ t) (decode_uri-Spells rest s)
decode_uri-Spells rest (escaped {bs} {text} u v b l s) =
    escaped_step (hex_digit u (b / 16)) (hex_digit v (b % 16)) b (text ++ rest) (length text)
      (hex_pair-hex_digit u v b l)
    ∙ ap (λ t. b ∷ t) (decode_uri-Spells rest s)

-- `http_decode_uri` writes at most as many bytes as the URI has.
pub length-decode_uri : (p : Bytes) (left : ℕ) → length (http_decode_uri p left) ≤ left
unfolding http_decode_uri
length-decode_uri [] left = omega arith
length-decode_uri (c ∷ p) zero = omega arith
length-decode_uri (c ∷ []) (suc left) = omega arith
length-decode_uri (c ∷ x ∷ []) (suc left) = omega (arith, length-decode_uri (x ∷ []) left)
length-decode_uri (c ∷ x ∷ y ∷ p) (suc left) =
    on_pair (if c == b'%' then hex_pair x y else none) (length-decode_uri p (left - 2))
      (length-decode_uri (x ∷ y ∷ p) left)
  where
    on_pair :
        (o : Option ℕ)
        → length (http_decode_uri p (left - 2)) ≤ left - 2
        → length (http_decode_uri (x ∷ y ∷ p) left) ≤ left
        → length (elim o [
          | some b ↦ b ∷ http_decode_uri p (left - 2)
          | none ↦ c ∷ http_decode_uri (x ∷ y ∷ p) left
        ])
          ≤ suc left
    on_pair (some b) l k = omega (arith, l)
    on_pair none l k = omega (arith, k)
