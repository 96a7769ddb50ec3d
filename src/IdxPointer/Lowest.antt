-- ===== src/IdxPointer/Lowest.antt =====
-- The invariant of utils/idx_pointer.h: no index below `lowest` is free.
use olivehc.Prelude.{
  ℕ, zero, suc, ◌+◌, ◌-◌, get_or-drop, length-drop, sym, ap, ◌<◌, ◌≡◌, ◌≢◌, Option, none, some,
  List, [], ◌∷◌, length, get_or, set, drop, leb, if◌then◌else◌, arith, length-set, length-replicate,
  get_or-set_ne, get_or-set, leb→le, Bool-cases, refl, ◌∙◌, inl, inr, ◌==◌,
}
use native.Mathlib.Decide.{dec_lt}
use olivehc.IdxPointer.{
  IdxPointer, Added, full, stored, overrun, ipt_array_size, idx_pointer_init, idx_pointer_get,
  idx_pointer_add, idx_pointer_delete, first_null,
}

pub record IsValid (ipt : IdxPointer) : Type 0 where
  pub width : length ipt.array ≡ ipt_array_size
  pub taken : (i : ℕ) → i < ipt.lowest → get_or ipt.array i none ≢ none

pub init-IsValid : IsValid idx_pointer_init
unfolding idx_pointer_init
init-IsValid = record {
  width = length-replicate {A = Option ℕ} ipt_array_size none;
  taken = λ i h. absurd (omega arith);
}

-- The first free index from `k` on, of an array whose part from `k` on is `rest`.
abbrev FirstNull : ℕ → List (Option ℕ) → Option ℕ → Type 0
FirstNull k rest none = (i : ℕ) → i < length rest → get_or rest i none ≢ none
FirstNull k rest (some j) =
    (m : ℕ) × (j ≡ k + m)
    × (m < length rest)
    × (get_or rest m none ≡ none)
    × ((i : ℕ) → i < m → get_or rest i none ≢ none)

first_null-FirstNull : (k : ℕ) (rest : List (Option ℕ)) → FirstNull k rest (first_null k rest)
unfolding first_null
first_null-FirstNull k [] = λ i h. absurd (omega arith)
first_null-FirstNull k (none ∷ a) = (0, omega arith, omega arith, refl, λ i h. absurd (omega arith))
first_null-FirstNull k (some p ∷ a) = later (first_null (suc k) a) (first_null-FirstNull (suc k) a)
  where
    shift :
        (m : ℕ)
        → ((i : ℕ) → i < m → get_or a i none ≢ none)
        → (i : ℕ) → i < suc m
        → get_or (some p ∷ a) i none ≢ none
    shift m f zero h = λ e. cc
    shift m f (suc i) h = f i (omega arith)

    later : (o : Option ℕ) → FirstNull (suc k) a o → FirstNull k (some p ∷ a) o
    later none f = shift (length a) f
    later (some j) (m, e, l, n, f) = (suc m, omega arith, omega arith, n, shift m f)

-- A table in which every index is taken.
abbrev pub IsFull : IdxPointer → Type 0
IsFull ipt = (i : ℕ) → i < ipt_array_size → idx_pointer_get ipt i ≢ none

-- What an insertion of `p` does to `ipt`.
abbrev pub Adds : IdxPointer → ℕ → Added → Type 0
Adds ipt p full = IsFull ipt
Adds ipt p overrun = IsFull ipt
Adds ipt p (stored j after) =
    (j < ipt_array_size)
    × (idx_pointer_get ipt j ≡ none)
    × ((i : ℕ) → i < j → idx_pointer_get ipt i ≢ none)
    × IsValid after
    × ((i : ℕ) → idx_pointer_get after i ≡ (if i == j then some p else idx_pointer_get ipt i))

module _ (ipt : IdxPointer) (p : ℕ) (v : IsValid ipt) where
  -- The entries below the first free one are those below `lowest` and those that the loop passed.
  below_free :
      (m : ℕ)
      → ((i : ℕ) → i < m → get_or (drop ipt.lowest ipt.array) i none ≢ none)
      → (i : ℕ) → i < ipt.lowest + m
      → get_or ipt.array i none ≢ none
  below_free m f i h = elim (dec_lt i ipt.lowest) [
    | yes l ↦ v.taken i l
    | no l ↦
        let d = i - ipt.lowest in
        let e : ipt.lowest + d ≡ i = omega arith in
        rw (← e, ← get_or-drop ipt.lowest d ipt.array none) (f d (omega arith))
  ]

  add_stored :
      (j m : ℕ)
      → j ≡ ipt.lowest + m
      → m < length (drop ipt.lowest ipt.array)
      → get_or (drop ipt.lowest ipt.array) m none ≡ none
      → ((i : ℕ) → i < m → get_or (drop ipt.lowest ipt.array) i none ≢ none)
      → Adds ipt p (stored j (record { lowest = j + 1; array = set ipt.array j (some p) }))
  unfolding idx_pointer_get
  add_stored j m e l n f =
      let inside : j < length ipt.array = omega (arith, length-drop ipt.lowest ipt.array) in
      let earlier = below_free m f in
      let kept = λ (i : ℕ). get_or-set ipt.array j i (some p) none inside in
      (
        omega (arith, v.width),
        ap (λ i. get_or ipt.array i none) e ∙ sym (get_or-drop ipt.lowest m ipt.array none) ∙ n,
        λ i h. earlier i (omega arith),
        record {
          width = length-set ipt.array j (some p) ∙ v.width;
          taken = λ i h z. ground (arith, kept i, earlier i);
        },
        kept,
      )

  add_found :
      (o : Option ℕ)
      → (ipt.lowest < ipt_array_size)
      → FirstNull ipt.lowest (drop ipt.lowest ipt.array) o
      → Adds ipt p (elim o [
        | none ↦ overrun
        | some index ↦
            stored index (record { lowest = index + 1; array = set ipt.array index (some p) })
      ])
  unfolding idx_pointer_get
  add_found none l f = λ i h.
      below_free (length (drop ipt.lowest ipt.array)) f i
        (omega (arith, length-drop ipt.lowest ipt.array, v.width))
  add_found (some j) l (m, e, g, n, f) = add_stored j m e g n f

  taken_below : (i : ℕ) → i < ipt.lowest → idx_pointer_get ipt i ≢ none
  unfolding idx_pointer_get
  taken_below i l = v.taken i l

  -- On a table of 4096 entries whose entries below `lowest` are all taken, `idx_pointer_add`
  -- stores the pointer in the first free entry and nowhere else and keeps that invariant;
  -- where it returns -1 or runs over the end of the array, every entry is taken.
  pub idx_pointer_add-Adds : Adds ipt p (idx_pointer_add ipt p)
  unfolding idx_pointer_add
  idx_pointer_add-Adds = elim (Bool-cases (leb ipt_array_size ipt.lowest)) [
    | inl h ↦ rw h (λ i l. taken_below i (omega (arith, leb→le _ _ h)))
    | inr h ↦ rw h (
        add_found (first_null ipt.lowest (drop ipt.lowest ipt.array)) (ground arith)
          (first_null-FirstNull ipt.lowest (drop ipt.lowest ipt.array)))
  ]

-- Freeing an index clears that entry and no other, and keeps the invariant, so that a later
-- insertion has a free entry to find.
pub delete-IsValid : (ipt : IdxPointer) (j : ℕ) → IsValid ipt → IsValid (idx_pointer_delete ipt j)
unfolding idx_pointer_delete
delete-IsValid ipt j v = record {
  width = length-set ipt.array j none ∙ v.width;
  taken =
      λ i h. rw (get_or-set_ne ipt.array j i none none (ground arith)) (v.taken i (ground arith));
}

-- `idx_pointer_delete` of an index of a valid table clears that entry and no other.
pub delete_lem :
    (ipt : IdxPointer) (j : ℕ)
    → IsValid ipt
    → j < ipt_array_size
    → (i : ℕ)
    → idx_pointer_get (idx_pointer_delete ipt j) i
      ≡ (if i == j then none else idx_pointer_get ipt i)
unfolding idx_pointer_delete idx_pointer_get
delete_lem ipt j v h i = get_or-set ipt.array j i none none (omega (arith, v.width))

-- Where all entries are taken but `lowest` is not at the end of the array, `idx_pointer_add`
-- does not return -1: its loop runs over the end of the array.
pub add-overrun :
    (ipt : IdxPointer) (p : ℕ)
    → IsValid ipt
    → IsFull ipt
    → ipt.lowest < ipt_array_size
    → idx_pointer_add ipt p ≡ overrun
unfolding idx_pointer_add
add-overrun ipt p v f l =
    search_fails (first_null ipt.lowest (drop ipt.lowest ipt.array))
      (first_null-FirstNull ipt.lowest (drop ipt.lowest ipt.array)) refl
  where
    search_fails :
        (o : Option ℕ)
        → FirstNull ipt.lowest (drop ipt.lowest ipt.array) o
        → first_null ipt.lowest (drop ipt.lowest ipt.array) ≡ o
        → idx_pointer_add ipt p ≡ overrun
    search_fails none t e = ground arith
    search_fails (some j) t e = let r = add_found ipt p v (some j) l t in absurd (f j r.0 r.1)
