-- ===== src/Request/Range.antt =====
-- The bytes of the body that request.c sends for a range.
use olivehc.Prelude.{ℕ, ◌+◌, ◌-◌, ◌<◌, ◌≤◌, leb, ltb, arith, Bool-cases, inl, inr, ◌↔◌}
use olivehc.Http.Range.{Position, no_set, at, undefined}
use olivehc.Http.Range.Printed.{Ordered}
use olivehc.Request.{Partial, window, not_satisfiable, unknown, within_body, settle_range}

-- The bytes that a range asks for, of a body of a length.
abbrev pub Asked : Position → Position → ℕ → ℕ → Type 0
Asked (at a) (at e) len i = (a ≤ i) × (i ≤ e)
Asked (at a) no_set len i = a ≤ i
Asked no_set (at n) len i = len ≤ i + n
Asked (at a) undefined len i = ⊥
Asked no_set no_set len i = ⊥
Asked no_set undefined len i = ⊥
Asked undefined q len i = ⊥

-- The window has just the bytes that are asked for; without one there are none.
abbrev pub Sends : (ℕ → Type 0) → ℕ → Partial → Type 0
Sends asked len (window start end) =
    (start ≤ end) × (end < len) × ((i : ℕ) → i < len → asked i ↔ (start ≤ i) × (i ≤ end))
Sends asked len not_satisfiable = (i : ℕ) → i < len → asked i → ⊥
Sends asked len unknown = ⊥

-- A window that ends within the body, where the start does.
within_body-Sends :
    (asked : ℕ → Type 0) (start end len : ℕ)
    → (start < len → (start ≤ end) × (end < len))
    → ((i : ℕ) → i < len → asked i ↔ (start ≤ i) × (i ≤ end))
    → Sends asked len (within_body start end len)
unfolding within_body
within_body-Sends asked start end len f g = elim (Bool-cases (leb len start)) [
  | inl t ↦
      rw (t, within_body)
        (λ i l a. let low : start ≤ i = ((g i l).0 a).0 in ground (arith, t, low, l))
  | inr t ↦
      let within : start < len = ground (arith, t) in
      rw (t, within_body) ((f within).0, (f within).1, g)
]

-- For a range as the parser gives it (at least one position, in order, below 2 ^ 63) and a body
-- of any length, the window that request.c settles on lies within the body and has just the
-- bytes that the range asks for (from the first position to the last, or the last so many
-- bytes), and it answers 416 just where the body has none of them.
pub settle_range-Sends :
    (p q : Position) (len : ℕ) → Ordered p q → Sends (Asked p q len) len (settle_range p q len)
unfolding settle_range
settle_range-Sends undefined q len o = o
settle_range-Sends no_set no_set len o = o
settle_range-Sends no_set undefined len o = o
settle_range-Sends (at a) undefined len o = o
settle_range-Sends no_set (at n) len o = elim (Bool-cases (ltb len n)) [
  | inl t ↦
      rw (t, settle_range)
        (within_body-Sends (Asked no_set (at n) len) 0 (len - 1) len
          (λ l. (omega arith, omega (arith, l)))
          (λ i l. (λ a. (omega arith, omega (arith, l)), λ b. ground (arith, t))))
  | inr t ↦
      rw (t, settle_range)
        (within_body-Sends (Asked no_set (at n) len) (len - n) (len - 1) len
          (λ l. (omega (arith, l), omega (arith, l)))
          (λ i l. (
            λ a. (omega (arith, a), omega (arith, l)),
            λ b. let low = b.0 in ground (arith, t, low),
          )))
]
settle_range-Sends (at a) no_set len o =
    within_body-Sends (Asked (at a) no_set len) a (len - 1) len
      (λ l. (omega (arith, l), omega (arith, l))) (λ i l. (λ x. (x, omega (arith, l)), λ b. b.0))
settle_range-Sends (at a) (at e) len o = elim (Bool-cases (leb len e)) [
  | inl t ↦
      rw (t, settle_range)
        (within_body-Sends (Asked (at a) (at e) len) a (len - 1) len
          (λ l. (omega (arith, l), omega (arith, l)))
          (λ i l. (λ x. (x.0, omega (arith, l)), λ b. (b.0, ground (arith, t, l)))))
  | inr t ↦
      rw (t, settle_range)
        (within_body-Sends (Asked (at a) (at e) len) a e len (λ l. (o.0, ground (arith, t)))
          (λ i l. (λ x. x, λ b. b)))
]
