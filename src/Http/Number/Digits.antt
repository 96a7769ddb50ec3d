-- ===== src/Http/Number/Digits.antt =====
-- What is printed is read back, and `numlen` is the length of what is printed.
use olivehc.Prelude.{
  ℕ, zero, suc, ◌+◌, ◌-◌, ◌*◌, ◌/◌, ◌%◌, ◌^◌, ◌<◌, ◌≡◌, ◌≢◌, true, false, some, [], ◌∷◌, ◌++◌, ltb,
  ◌==◌, if◌then◌else◌, Bytes, byte_at, All, All-append, length, arith, refl, ap, ◌∙◌, Bool-cases,
  inl, inr,
}
use olivehc.Http.Number.{
  number_digits, numlen_loop, numlen, decimal_of, decimal, is_digit, span_digits, value_of,
  is_space, magnitude, digits_of, skip_white, digits_from, strtoul,
}

pub length-append : (xs ys : Bytes) → length (xs ++ ys) ≡ length xs + length ys
length-append [] ys = omega arith
length-append (x ∷ xs) ys = omega (arith, length-append xs ys)

numlen_loop-decimal_of : (fuel n : ℕ) → 0 < n → numlen_loop fuel n ≡ length (decimal_of fuel n)
unfolding numlen_loop decimal_of
numlen_loop-decimal_of zero n p = refl
numlen_loop-decimal_of (suc fuel) n p = elim (Bool-cases (ltb n 10)) [
  | inl t ↦ let z : n / 10 ≡ 0 = ground (arith, t) in ground (arith, t, z, none_left fuel)
  | inr t ↦ ground (
    arith,
    t,
    numlen_loop-decimal_of fuel (n / 10),
    length-append (decimal_of fuel (n / 10)) ((b'0' + n % 10) ∷ []),
  )
]
  where
    none_left : (f : ℕ) → numlen_loop f 0 ≡ 0
    none_left zero = refl
    none_left (suc f) = refl

numlen_with :
    (fuel n : ℕ)
    → (if n == 0 then 1 else numlen_loop (suc fuel) n) ≡ length (decimal_of (suc fuel) n)
numlen_with fuel n = elim (Bool-cases (n == 0)) [
  | inl t ↦ let z : n ≡ 0 = ground arith in rw z (unfold decimal_of in refl)
  | inr t ↦ rw t (numlen_loop-decimal_of (suc fuel) n (ground arith))
]

-- `numlen` is the number of digits that are printed.
pub numlen-decimal : (n : ℕ) → numlen n ≡ length (decimal n)
unfolding numlen decimal
numlen-decimal n = numlen_with 19 n

abbrev pub IsDigits : Bytes → Type 0
IsDigits ds = All (λ c. is_digit c ≡ true) ds

decimal_of-IsDigits : (fuel n : ℕ) → IsDigits (decimal_of fuel n)
unfolding decimal_of
decimal_of-IsDigits zero n = tt
decimal_of-IsDigits (suc fuel) n = elim (Bool-cases (ltb n 10)) [
  | inl t ↦ rw (t, decimal_of) (ground (arith, t), tt)
  | inr t ↦
      rw (t, decimal_of)
        (All-append (λ c. is_digit c ≡ true) (decimal_of fuel (n / 10)) _
          (decimal_of-IsDigits fuel (n / 10)) (ground arith, tt))
]

value_of-append : (a : ℕ) (xs ys : Bytes) → value_of a (xs ++ ys) ≡ value_of (value_of a xs) ys
unfolding value_of
value_of-append a [] ys = refl
value_of-append a (x ∷ xs) ys = value_of-append (a * 10 + (x - b'0')) xs ys

value_of-decimal_of : (fuel n : ℕ) → n < 10 ^ fuel → value_of 0 (decimal_of fuel n) ≡ n
unfolding value_of decimal_of
value_of-decimal_of zero n l = omega (arith, l)
value_of-decimal_of (suc fuel) n l = elim (Bool-cases (ltb n 10)) [
  | inl t ↦ rw (t, decimal_of) (omega arith)
  | inr t ↦
      rw (t, decimal_of)
        (value_of-append 0 (decimal_of fuel (n / 10)) ((b'0' + n % 10) ∷ [])
          ∙ omega (arith, value_of-decimal_of fuel (n / 10) (omega (arith, l))))
]

-- The digits before a byte that is none.
pub span_digits-append :
    (ds rest : Bytes)
    → IsDigits ds
    → is_digit (byte_at rest) ≡ false
    → span_digits (ds ++ rest) ≡ (ds, rest)
unfolding span_digits
span_digits-append [] [] a e = refl
span_digits-append [] (c ∷ p) a e = rw (e, span_digits)
span_digits-append (d ∷ ds) rest a e = rw (a.0, span_digits-append ds rest a.1 e, span_digits)

pub decimal-IsDigits : (n : ℕ) → IsDigits (decimal n)
unfolding decimal
decimal-IsDigits n = decimal_of-IsDigits number_digits n

pub value_of-decimal : (n : ℕ) → n < 2 ^ 64 → value_of 0 (decimal n) ≡ n
unfolding decimal
value_of-decimal n l = value_of-decimal_of number_digits n (omega arith)

decimal_of-pos : (fuel n : ℕ) → 0 < length (decimal_of (suc fuel) n)
unfolding decimal_of
decimal_of-pos fuel n =
    ground (arith, length-append (decimal_of fuel (n / 10)) ((b'0' + n % 10) ∷ []))

pub decimal-ne_nil : (n : ℕ) → decimal n ≢ []
unfolding decimal
decimal-ne_nil n e = absurd (omega (arith, decimal_of-pos 19 n, ap length e))

-- A text of digits is read as its value, below 2 ^ 64.
module _ (d : ℕ) (ds rest : Bytes) (n : ℕ) (a : IsDigits (d ∷ ds)) (v : value_of 0 (d ∷ ds) ≡ n)
    (l : n < 2 ^ 64) (e : is_digit (byte_at rest) ≡ false) where
  digits_read : digits_from false (d ∷ (ds ++ rest)) ≡ some (n, rest)
  unfolding digits_from
  digits_read =
      ap (digits_of false) (span_digits-append (d ∷ ds) rest a e)
      ∙ ap (λ m. some (m, rest)) (magnitude_small n v l)
    where
      magnitude_small :
          (n : ℕ) → value_of 0 (d ∷ ds) ≡ n → n < 2 ^ 64 → magnitude false (d ∷ ds) ≡ n
      magnitude_small n v l = rw v (ground (arith, l))

  not_white : skip_white (d ∷ (ds ++ rest)) ≡ d ∷ (ds ++ rest)
  unfolding skip_white
  not_white = let white : is_space d ≡ false = ground (arith, a.0) in rw white

  strtoul_digits : strtoul (d ∷ (ds ++ rest)) ≡ some (n, rest)
  unfolding strtoul
  strtoul_digits =
      let minus : (d == b'-') ≡ false = ground (arith, a.0) in
      let plus : (d == b'+') ≡ false = ground (arith, a.0) in
      rw (not_white, strtoul) (rw (minus, plus) digits_read)

-- What is printed is read back by `strtoul`.
pub strtoul-decimal :
    (n : ℕ) (rest : Bytes)
    → n < 2 ^ 64
    → is_digit (byte_at rest) ≡ false
    → strtoul (decimal n ++ rest) ≡ some (n, rest)
strtoul-decimal n rest l e =
    on_digits (decimal n) (decimal-IsDigits n) (decimal-ne_nil n) (value_of-decimal n l)
  where
    on_digits :
        (ds : Bytes)
        → IsDigits ds
        → ds ≢ []
        → value_of 0 ds ≡ n
        → strtoul (ds ++ rest) ≡ some (n, rest)
    on_digits [] a ne v = absurd (ne refl)
    on_digits (d ∷ ds) a ne v = strtoul_digits d ds rest n a v l e
