-- ===== src/Http/Range.antt =====
-- `http_parse_get_range` of http.c: the value of the header `Range`.
pub mod Printed
use olivehc.Prelude.{
  ℕ, ◌+◌, ◌-◌, ◌*◌, ◌^◌, Bool, true, false, Option, none, some, List, [], ◌∷◌, leb, ltb, ◌==◌,
  if◌then◌else◌, Bytes, byte_at, codes, strip, skip_spaces,
}
use olivehc.Http.Number.{is_digit}

-- A position of a range: `RANGE_NO_SET`, or a number; or the addition of a digit, whose code is added
-- before that of `0` is taken away, leaves the range of `ssize_t`, which is undefined.
pub data Position : Type 0 where
  no_set : Position
  at : ℕ → Position
  undefined : Position

pub data RangeResult : Type 0 where
  range : Position → Position → RangeResult
  -- more than one range, which is not supported: `OHC_OK` without a range
  ignored : RangeResult
  -- "InvalidRange"
  invalid : RangeResult
  overflow : RangeResult

unfoldable pub add_digit : Position → ℕ → Position
add_digit no_set c = at (c - b'0')
add_digit (at n) c = let m = n * 10 + c in if ltb m (2 ^ 63) then at (m - b'0') else undefined
add_digit undefined c = undefined

-- The loop over the digits, from the position so far on; where there are none it stays not set.
unfoldable pub read_position : Position → Bytes → Position × Bytes
read_position n [] = (n, [])
read_position n (c ∷ p) =
    let rest = read_position (add_digit n c) p in if is_digit c then rest else (n, c ∷ p)

-- What stands behind the range.
unfoldable pub range_end : Position → Position → Bytes → RangeResult
range_end start end p =
    let q = skip_spaces p in
    if byte_at q == b',' then ignored else if byte_at q == b'\r' then range start end else invalid

unfoldable pub check_range : Position → Position → Bytes → RangeResult
unfolding range_end
check_range undefined end p = overflow
check_range no_set undefined p = overflow
check_range (at a) undefined p = overflow
check_range no_set no_set p = invalid
check_range no_set (at b) p = range_end no_set (at b) p
check_range (at a) no_set p = range_end (at a) no_set p
check_range (at a) (at b) p = if ltb b a then invalid else range_end (at a) (at b) p

abbrev pub check_end : Position → Position × Bytes → RangeResult
check_end start (end, q) = check_range start end q

-- Where a first position was read.
abbrev pub before_dash : Position → Bytes → RangeResult
before_dash start [] = invalid
before_dash start (c ∷ p) = if c == b'-' then check_end start (read_position no_set p) else invalid

unfoldable pub after_start : Position × Bytes → RangeResult
unfolding check_range
after_start (undefined, p) = overflow
after_start (no_set, p) = before_dash no_set p
after_start (at a, p) = before_dash (at a) p

unfoldable pub http_parse_get_range : Bytes → RangeResult
unfolding after_start
http_parse_get_range p = elim (strip (codes "bytes=") p) [
  | none ↦ invalid
  | some q ↦ after_start (read_position no_set q)
]
