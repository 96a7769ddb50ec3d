-- ===== src/IdxPointer/Tests.antt =====
-- Runs of utils/idx_pointer.h, and the theorems at a table with two pointers.
use olivehc.Prelude.{
  ℕ, zero, suc, ◌<◌, ◌≡◌, ◌≢◌, Option, none, some, arith, replicate, length-replicate, get_or,
}
use olivehc.IdxPointer.{
  IdxPointer, overrun, ipt_array_size, idx_pointer_init, idx_pointer_get, idx_pointer_add,
  idx_pointer_delete,
}
use olivehc.IdxPointer.Lowest.{
  IsValid, IsFull, Adds, init-IsValid, idx_pointer_add-Adds, delete-IsValid, add-overrun,
}

idx_pointer_add-Adds_example : Adds idx_pointer_init 70 (idx_pointer_add idx_pointer_init 70)
idx_pointer_add-Adds_example = idx_pointer_add-Adds idx_pointer_init 70 init-IsValid

delete-IsValid_example : IsValid (idx_pointer_delete idx_pointer_init 3)
delete-IsValid_example = delete-IsValid idx_pointer_init 3 init-IsValid

-- All 4096 entries are taken, and the last insertion filled entry 5.
abbrev refilled : IdxPointer
refilled = record { lowest = 6; array = replicate ipt_array_size (some 70) }

entry_taken : (n i : ℕ) → i < n → get_or {A = Option ℕ} (replicate n (some 70)) i none ≢ none
entry_taken zero i h e = absurd (omega arith)
entry_taken (suc n) zero h e = cc
entry_taken (suc n) (suc i) h e = entry_taken n i (omega arith) e

refilled-IsFull : IsFull refilled
unfolding idx_pointer_get
refilled-IsFull = entry_taken ipt_array_size

refilled-IsValid : IsValid refilled
refilled-IsValid = record {
  width = length-replicate {A = Option ℕ} ipt_array_size (some 70);
  taken = λ i h. entry_taken ipt_array_size i (omega arith);
}

add-overrun_example : idx_pointer_add refilled 71 ≡ overrun
add-overrun_example = add-overrun refilled 71 refilled-IsValid refilled-IsFull (omega arith)
