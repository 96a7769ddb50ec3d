-- ===== src/Http/Range/Printed.antt =====
-- A range that is written out is read back, and what is read is in order.
use olivehc.Prelude.{
  ℕ, zero, suc, ◌+◌, ◌-◌, ◌*◌, ◌^◌, ◌≤◌, ◌<◌, ◌≡◌, ◌≢◌, true, false, Option, none, some, [], ◌∷◌,
  ◌++◌, ltb, ◌==◌, Bytes, byte_at, arith, refl, ap, subst, ◌∙◌, Bool-cases, inl, inr, codes, strip,
  skip_spaces, replicate,
}
use olivehc.Http.Number.{decimal, is_digit, value_of}
use olivehc.Http.Number.Digits.{IsDigits, decimal-IsDigits, decimal-ne_nil, value_of-decimal}
use olivehc.Http.Range.{
  Position, no_set, at, undefined, RangeResult, range, ignored, invalid, overflow, add_digit,
  read_position, range_end, check_range, check_end, before_dash, after_start, http_parse_get_range,
}

-- A position as it is written.
abbrev pub written : Position → Bytes
written no_set = []
written (at n) = decimal n
written undefined = []

abbrev pub Ordered : Position → Position → Type 0
Ordered no_set no_set = ⊥
Ordered no_set (at b) = b < 2 ^ 63 - 48
Ordered (at a) no_set = a < 2 ^ 63 - 48
Ordered (at a) (at b) = (a ≤ b) × (b < 2 ^ 63 - 48)
Ordered undefined q = ⊥
Ordered no_set undefined = ⊥
Ordered (at a) undefined = ⊥

-- The digits from a number on, as long as the value fits.
value_of-grows : (n : ℕ) (ds : Bytes) → n ≤ value_of n ds
unfolding value_of
value_of-grows n [] = omega arith
value_of-grows n (d ∷ ds) = omega (arith, value_of-grows (n * 10 + (d - b'0')) ds)

read_more :
    (n : ℕ) (ds rest : Bytes)
    → IsDigits ds
    → is_digit (byte_at rest) ≡ false
    → value_of n ds < 2 ^ 63 - 48
    → read_position (at n) (ds ++ rest) ≡ (at (value_of n ds), rest)
unfolding read_position add_digit value_of
read_more n [] [] a e l = refl
read_more n [] (c ∷ p) a e l = rw (e, read_position)
read_more n (d ∷ ds) rest a e l =
    let m = n * 10 + (d - b'0') in
    let code : n * 10 + d - b'0' ≡ m = ground (arith, a.0) in
    let fits : ltb (n * 10 + d) (2 ^ 63) ≡ true = ground (arith, a.0, value_of-grows m ds, l) in
    rw (a.0, read_position) (rw (fits, code) (read_more m ds rest a.1 e l))

read_digits :
    (ds rest : Bytes) (n : ℕ)
    → IsDigits ds
    → ds ≢ []
    → value_of 0 ds ≡ n
    → n < 2 ^ 63 - 48
    → is_digit (byte_at rest) ≡ false
    → read_position no_set (ds ++ rest) ≡ (at n, rest)
unfolding read_position add_digit value_of
read_digits [] rest n a ne v l e = absurd (ne refl)
read_digits (d ∷ ds) rest n a ne v l e =
    let z : 0 * 10 + (d - b'0') ≡ d - b'0' = omega arith in
    let v' : value_of (d - b'0') ds ≡ n = subst (λ t. value_of t ds ≡ n) z v in
    rw (a.0, read_position)
      (read_more (d - b'0') ds rest a.1 e (omega (arith, v', l)) ∙ ap (λ t. (at t, rest)) v')

read_written :
    (q : Position) (rest : Bytes)
    → ((n : ℕ) → q ≡ at n → n < 2 ^ 63 - 48)
    → q ≢ undefined
    → is_digit (byte_at rest) ≡ false
    → read_position no_set (written q ++ rest) ≡ (q, rest)
unfolding read_position
read_written no_set [] l u e = refl
read_written no_set (c ∷ p) l u e = rw (e, read_position)
read_written (at n) rest l u e =
    let m = l n refl in
    read_digits (decimal n) rest n (decimal-IsDigits n) (decimal-ne_nil n)
      (value_of-decimal n (omega (arith, m))) m e
read_written undefined rest l u e = absurd (u refl)

skip_replicate : (k : ℕ) (p : Bytes) → byte_at p ≢ 32 → skip_spaces (replicate k 32 ++ p) ≡ p
skip_replicate zero [] n = refl
skip_replicate zero (c ∷ p) n = ground (arith, n)
skip_replicate (suc k) p n = skip_replicate k p n

range_end_lem :
    (start end : Position) (k : ℕ) (rest : Bytes)
    → range_end start end (replicate k 32 ++ (b'\r' ∷ rest)) ≡ range start end
unfolding range_end
range_end_lem start end k rest =
    rw (skip_replicate k (b'\r' ∷ rest) (λ e. absurd (omega (arith, e))), range_end)

is_digit-replicate :
    (k : ℕ) (rest : Bytes) → is_digit (byte_at (replicate k 32 ++ (b'\r' ∷ rest))) ≡ false
is_digit-replicate zero rest = refl
is_digit-replicate (suc k) rest = refl

check_Ordered :
    (start end : Position) (p : Bytes)
    → Ordered start end
    → check_range start end p ≡ range_end start end p
unfolding check_range
check_Ordered no_set (at b) p o = refl
check_Ordered (at a) no_set p o = refl
check_Ordered (at a) (at b) p o = let t : ltb b a ≡ false = ground arith in rw t
check_Ordered no_set no_set p o = absurd o
check_Ordered undefined no_set p o = absurd o
check_Ordered undefined (at b) p o = absurd o
check_Ordered undefined undefined p o = absurd o
check_Ordered no_set undefined p o = absurd o
check_Ordered (at a) undefined p o = absurd o

-- What a first or a second position of a range may be.
start_fits : (start end : Position) → Ordered start end → (n : ℕ) → start ≡ at n → n < 2 ^ 63 - 48
start_fits (at a) no_set o n e = ground (arith, e)
start_fits (at a) (at b) o n e = ground (arith, e)
start_fits no_set end o n e = cc
start_fits undefined end o n e = cc
start_fits (at a) undefined o n e = absurd o

end_fits : (start end : Position) → Ordered start end → (n : ℕ) → end ≡ at n → n < 2 ^ 63 - 48
end_fits no_set (at b) o n e = ground (arith, e)
end_fits (at a) (at b) o n e = ground (arith, e)
end_fits undefined (at b) o n e = absurd o
end_fits start no_set o n e = cc
end_fits start undefined o n e = cc

defined : (start end : Position) → Ordered start end → (start ≢ undefined) × (end ≢ undefined)
defined no_set (at b) o = (λ e. cc, λ e. cc)
defined (at a) no_set o = (λ e. cc, λ e. cc)
defined (at a) (at b) o = (λ e. cc, λ e. cc)
defined no_set no_set o = absurd o
defined no_set undefined o = absurd o
defined (at a) undefined o = absurd o
defined undefined end o = absurd o

on_end :
    (start end : Position) (k : ℕ) (rest : Bytes)
    → Ordered start end
    → check_end start (read_position no_set (written end ++ (replicate k 32 ++ (b'\r' ∷ rest))))
      ≡ range start end
on_end start end k rest o =
    ap (check_end start) (
      read_written end (replicate k 32 ++ (b'\r' ∷ rest)) (end_fits start end o)
        (defined start end o).1 (is_digit-replicate k rest))
    ∙ check_Ordered start end (replicate k 32 ++ (b'\r' ∷ rest)) o
    ∙ range_end_lem start end k rest

after_start_lem :
    (start end : Position) (k : ℕ) (rest : Bytes)
    → Ordered start end
    → after_start (start, b'-' ∷ (written end ++ (replicate k 32 ++ (b'\r' ∷ rest))))
      ≡ range start end
unfolding after_start
after_start_lem no_set end k rest o = on_end no_set end k rest o
after_start_lem (at a) end k rest o = on_end (at a) end k rest o
after_start_lem undefined end k rest o = absurd ((defined undefined end o).0 refl)

-- A range `bytes=a-b`, with both positions or one of them, in order and below 2 ^ 63 - 48, in
-- decimal, with spaces and a CR behind it, is read by `http_parse_get_range` as that range.
pub parse_range-written :
    (start end : Position) (k : ℕ) (rest : Bytes)
    → Ordered start end
    → http_parse_get_range (
        codes "bytes="
        ++ (written start ++ (b'-' ∷ (written end ++ (replicate k 32 ++ (b'\r' ∷ rest))))))
      ≡ range start end
unfolding http_parse_get_range
parse_range-written start end k rest o =
    ap after_start (
      read_written start (b'-' ∷ (written end ++ (replicate k 32 ++ (b'\r' ∷ rest))))
        (start_fits start end o) (defined start end o).0 refl)
    ∙ after_start_lem start end k rest o

Small : Position → Type 0
Small no_set = Unit {0}
Small (at n) = n < 2 ^ 63 - 48
Small undefined = Unit {0}

add_digit-Small : (q : Position) (c : ℕ) → is_digit c ≡ true → Small (add_digit q c)
unfolding add_digit Small
add_digit-Small no_set c d = ground (arith, d)
add_digit-Small undefined c d = tt
add_digit-Small (at n) c d = elim (Bool-cases (ltb (n * 10 + c) (2 ^ 63))) [
  | inl t ↦ rw t (ground (arith, t, d))
  | inr t ↦ rw t tt
]

read_position-Small : (q : Position) (p : Bytes) → Small q → Small (read_position q p).0
unfolding read_position
read_position-Small q [] s = s
read_position-Small q (c ∷ p) s = elim (Bool-cases (is_digit c)) [
  | inl t ↦ rw t (read_position-Small (add_digit q c) p (add_digit-Small q c t))
  | inr t ↦ rw t s
]

-- A range that is accepted has a position, both below 2 ^ 63 - 48 and in order.
abbrev pub RangeOk : RangeResult → Type 0
RangeOk (range start end) = Ordered start end
RangeOk ignored = Unit {0}
RangeOk invalid = Unit {0}
RangeOk overflow = Unit {0}

range_end-RangeOk :
    (start end : Position) (p : Bytes) → Ordered start end → RangeOk (range_end start end p)
unfolding range_end
range_end-RangeOk start end p o = elim (Bool-cases (byte_at (skip_spaces p) == b',')) [
  | inl t ↦ rw t tt
  | inr t ↦
      rw t
        (elim (Bool-cases (byte_at (skip_spaces p) == b'\r')) [ inl u ↦ rw u o | inr u ↦ rw u tt ])
]

check_range-RangeOk :
    (start end : Position) (p : Bytes) → Small start → Small end → RangeOk (check_range start end p)
unfolding check_range Small
check_range-RangeOk undefined end p s e = tt
check_range-RangeOk no_set undefined p s e = tt
check_range-RangeOk (at a) undefined p s e = tt
check_range-RangeOk no_set no_set p s e = tt
check_range-RangeOk no_set (at b) p s e = range_end-RangeOk no_set (at b) p e
check_range-RangeOk (at a) no_set p s e = range_end-RangeOk (at a) no_set p s
check_range-RangeOk (at a) (at b) p s e = elim (Bool-cases (ltb b a)) [
  | inl t ↦ rw t tt
  | inr t ↦ rw t (range_end-RangeOk (at a) (at b) p (ground arith, e))
]

before_dash-RangeOk : (start : Position) (p : Bytes) → Small start → RangeOk (before_dash start p)
before_dash-RangeOk start [] s = tt
before_dash-RangeOk start (c ∷ p) s = elim (Bool-cases (c == b'-')) [
  | inl t ↦ rw t (
      check_range-RangeOk start (read_position no_set p).0 (read_position no_set p).1 s
        (read_position-Small no_set p (unfold Small in tt)))
  | inr t ↦ rw t tt
]

after_start-RangeOk : (r : Position × Bytes) → Small r.0 → RangeOk (after_start r)
unfolding after_start
after_start-RangeOk (undefined, p) s = tt
after_start-RangeOk (no_set, p) s = before_dash-RangeOk no_set p s
after_start-RangeOk (at a, p) s = before_dash-RangeOk (at a) p s

-- A range that `http_parse_get_range` accepts has at least one position, its positions are
-- below 2 ^ 63 - 48, and the first is not behind the second.
pub parse_range-RangeOk : (p : Bytes) → RangeOk (http_parse_get_range p)
unfolding http_parse_get_range
parse_range-RangeOk p = on_rest (strip (codes "bytes=") p)
  where
    on_rest :
        (o : Option Bytes)
        → RangeOk (elim o [ none ↦ invalid | some q ↦ after_start (read_position no_set q) ])
    on_rest none = tt
    on_rest (some q) =
        after_start-RangeOk (read_position no_set q)
          (read_position-Small no_set q (unfold Small in tt))
