-- ===== src/Prelude/Counts.antt =====
-- How many entries of a list, or of a list of lists, pass a test.
use Prim.Native.Nat.{ℕ, zero, suc, ◌+◌, ◌≤◌, ◌<◌}
use mathlib.Core.Bool.{Bool, true, false}
use mathlib.Core.Path.{◌≡◌, refl}
use mathlib.Core.List.{List, [], ◌∷◌, ◌++◌}
use native.Mathlib.Omega.{arith}
use olivehc.Prelude.Lists.{length, set, get_or, replicate}

abbrev pub to_nat : Bool → ℕ
to_nat true = 1
to_nat false = 0

module _ {ℓ} {A : Type ℓ} (p : A → Bool) where
  abbrev pub count : List A → ℕ
  count [] = 0
  count (x ∷ xs) = to_nat (p x) + count xs

  abbrev pub count_all : List (List A) → ℕ
  count_all [] = 0
  count_all (xs ∷ xss) = count xs + count_all xss

  pub count-append : (xs ys : List A) → count (xs ++ ys) ≡ count xs + count ys
  count-append [] ys = omega arith
  count-append (x ∷ xs) ys = omega (arith, count-append xs ys)

  pub count_all-set :
      (xss : List (List A)) (i : ℕ) (xs : List A)
      → i < length xss
      → count_all (set xss i xs) + count (get_or xss i []) ≡ count_all xss + count xs
  count_all-set [] i xs h = absurd (omega arith)
  count_all-set (ys ∷ xss) zero xs h = omega arith
  count_all-set (ys ∷ xss) (suc i) xs h = omega (arith, count_all-set xss i xs (omega arith))

  pub count_all-replicate : (n : ℕ) → count_all (replicate n []) ≡ 0
  count_all-replicate zero = refl
  count_all-replicate (suc n) = omega (arith, count_all-replicate n)

-- A test that is passed more often.
module _ {ℓ} {A : Type ℓ} (p q : A → Bool) (le : (x : A) → to_nat (p x) ≤ to_nat (q x)) where
  pub count-le : (xs : List A) → count p xs ≤ count q xs
  count-le [] = omega arith
  count-le (x ∷ xs) = omega (arith, le x, count-le xs)

  pub count_all-le : (xss : List (List A)) → count_all p xss ≤ count_all q xss
  count_all-le [] = omega arith
  count_all-le (xs ∷ xss) = omega (arith, count-le xs, count_all-le xss)
