-- ===== src/Http/Number.antt =====
-- The decimal numbers of http.c: `numlen` of utils/string.h, and of the C library `%ld` and
-- `strtoul` with base 10. A number has at most 20 digits.
pub mod Digits
use olivehc.Prelude.{
  ℕ, zero, suc, ◌+◌, ◌-◌, ◌*◌, ◌/◌, ◌%◌, ◌^◌, Bool, true, false, Option, none, some, List, [], ◌∷◌,
  ◌++◌, leb, ltb, ◌==◌, ◌&&◌, ◌||◌, if◌then◌else◌, Bytes, byte_at,
}

abbrev pub number_digits : ℕ
number_digits = 20

-- The loop of `numlen`, with at most `fuel` rounds.
unfoldable pub numlen_loop : ℕ → ℕ → ℕ
numlen_loop zero n = 0
numlen_loop (suc fuel) n = let rest = numlen_loop fuel (n / 10) in if n == 0 then 0 else suc rest

unfoldable pub numlen : ℕ → ℕ
numlen n = if n == 0 then 1 else numlen_loop number_digits n

-- `%ld` of a number that is not negative, with at most `fuel` digits.
unfoldable pub decimal_of : ℕ → ℕ → Bytes
decimal_of zero n = []
decimal_of (suc fuel) n =
    let rest = decimal_of fuel (n / 10) in
    if ltb n 10 then (b'0' + n) ∷ [] else rest ++ (b'0' + n % 10) ∷ []

unfoldable pub decimal : ℕ → Bytes
decimal n = decimal_of number_digits n

abbrev pub is_digit : ℕ → Bool
is_digit c = leb b'0' c && leb c b'9'

-- The digits that a text begins with, and the rest.
unfoldable pub span_digits : Bytes → Bytes × Bytes
span_digits [] = ([], [])
span_digits (c ∷ p) =
    let (ds, rest) = span_digits p in if is_digit c then (c ∷ ds, rest) else ([], c ∷ p)

unfoldable pub value_of : ℕ → Bytes → ℕ
value_of n [] = n
value_of n (c ∷ ds) = value_of (n * 10 + (c - b'0')) ds

abbrev pub is_space : ℕ → Bool
is_space c = c == 32 || (leb 9 c && leb c 13)

unfoldable pub skip_white : Bytes → Bytes
skip_white [] = []
skip_white (c ∷ p) = let rest = skip_white p in if is_space c then rest else c ∷ p

-- The value of the digits, at most `ULONG_MAX`, negated in 64 bits behind a minus sign.
abbrev pub magnitude : Bool → Bytes → ℕ
magnitude minus ds =
    let n = value_of 0 ds in
    if leb (2 ^ 64) n then 2 ^ 64 - 1 else if minus then (2 ^ 64 - n) % 2 ^ 64 else n

-- `none` where there are no digits, so that `endp == p`; else the value, and the text at `endp`.
abbrev pub digits_of : Bool → Bytes × Bytes → Option (ℕ × Bytes)
digits_of minus ([], rest) = none
digits_of minus (d ∷ ds, rest) = some (magnitude minus (d ∷ ds), rest)

unfoldable pub digits_from : Bool → Bytes → Option (ℕ × Bytes)
digits_from minus p = digits_of minus (span_digits p)

unfoldable pub strtoul : Bytes → Option (ℕ × Bytes)
unfolding skip_white
strtoul p = elim (skip_white p) [
  | [] ↦ none
  | c ∷ q ↦
      if c == b'-'
      then digits_from true q
      else if c == b'+'
      then digits_from false q
      else digits_from false (c ∷ q)
]
