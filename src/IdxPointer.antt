-- ===== src/IdxPointer.antt =====
-- The table of utils/idx_pointer.h that turns pointers into short indices. A pointer is a number
-- and NULL is `none`. The capacity `IPT_ARRAY_SIZE` is the length of the array.
pub mod Lowest
mod Tests
use olivehc.Prelude.{
  ℕ, zero, suc, ◌+◌, Option, none, some, List, [], ◌∷◌, length, get_elem?, get_or, set, drop,
  replicate, leb, ltb, if◌then◌else◌,
}

abbrev pub ipt_array_size : ℕ
ipt_array_size = 4096

-- `idx_pointer_t`
pub record IdxPointer : Type 0 where
  pub lowest : ℕ
  pub array : List (Option ℕ)

-- `IDX_POINTER_INIT()`
unfoldable pub idx_pointer_init : IdxPointer
idx_pointer_init = record { lowest = 0; array = replicate ipt_array_size none }

unfoldable pub idx_pointer_get : IdxPointer → ℕ → Option ℕ
idx_pointer_get ipt index = get_or ipt.array index none

-- What `idx_pointer_add` does: it returns -1, it stores the pointer at an index, or its loop
-- reads behind the end of the array, since the loop has no bound of its own.
pub data Added : Type 0 where
  full : Added
  stored : ℕ → IdxPointer → Added
  overrun : Added

-- `while(ipt->array[index] != NULL) index++`, over the rest of the array from `index` on.
unfoldable pub first_null : ℕ → List (Option ℕ) → Option ℕ
first_null index [] = none
first_null index (none ∷ a) = some index
first_null index (some p ∷ a) = first_null (suc index) a

unfoldable pub idx_pointer_add : IdxPointer → ℕ → Added
unfolding first_null
idx_pointer_add ipt pointer =
    if leb ipt_array_size ipt.lowest
    then full
    else elim (first_null ipt.lowest (drop ipt.lowest ipt.array)) [
      | none ↦ overrun
      | some index ↦
          stored index (record { lowest = index + 1; array = set ipt.array index (some pointer) })
    ]

unfoldable pub idx_pointer_delete : IdxPointer → ℕ → IdxPointer
idx_pointer_delete ipt index = record {
  lowest = if ltb index ipt.lowest then index else ipt.lowest;
  array = set ipt.array index none;
}
