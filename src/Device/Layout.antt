-- ===== src/Device/Layout.antt =====
-- The order list of a device of device.c: segments by offset that do not overlap, and no two
-- free blocks that touch.
use olivehc.Prelude.{
  ℕ, suc, ◌+◌, ◌-◌, ◌*◌, ◌^◌, ◌≤◌, ◌<◌, ◌≡◌, Bool, true, false, List, [], ◌∷◌, arith, subst,
}
use olivehc.SizeClass.{ipbucket_block_size}
use olivehc.Device.{Segment, free, item, rev_onto}

-- A whole number of sectors of 512 bytes, not 0.
abbrev pub IsSectors : ℕ → Type 0
IsSectors n = (c : ℕ) × (n ≡ suc c * 512)

-- The length of an item, a `uint32_t` that is not 0: an item has headers.
abbrev pub IsLength : ℕ → Type 0
IsLength n = (0 < n) × (n < 2 ^ 32)

-- A segment that begins after `lo`, or right at `lo` unless it and the one before are free.
abbrev pub Begins : Bool → ℕ → ℕ → Type 0
Begins true lo offset = lo < offset
Begins false lo offset = lo ≤ offset

-- The segments lie between `lo` and `hi`; `f` says whether a free block ends at `lo`.
abbrev pub Layout : ℕ → Bool → List Segment → ℕ → Type 0
Layout lo f [] hi = lo ≤ hi
Layout lo f (free h offset size ∷ xs) hi =
    Begins f lo offset × IsSectors size × Layout (offset + size) true xs hi
Layout lo f (item i offset length ∷ xs) hi =
    (lo ≤ offset) × IsLength length × Layout (offset + ipbucket_block_size length) false xs hi

-- What follows a free block may follow an item that ends there.
pub Layout-after_item :
    (lo : ℕ) (f : Bool) (xs : List Segment) (hi : ℕ) → Layout lo f xs hi → Layout lo false xs hi
Layout-after_item lo f [] hi l = l
Layout-after_item lo true (free h offset size ∷ xs) hi l = (omega arith, l.1, l.2)
Layout-after_item lo false (free h offset size ∷ xs) hi l = l
Layout-after_item lo f (item i offset length ∷ xs) hi l = l

-- The rear of a list is replaced by one that fits behind whatever the old one did.
pub Layout-rev_onto :
    (bs old new : List Segment) (lo : ℕ) (f : Bool) (hi : ℕ)
    → ((m : ℕ) (g : Bool) → Layout m g old hi → Layout m g new hi)
    → Layout lo f (rev_onto bs old) hi
    → Layout lo f (rev_onto bs new) hi
Layout-rev_onto [] old new lo f hi fits l = fits lo f l
Layout-rev_onto (free h o s ∷ bs) old new lo f hi fits l =
    Layout-rev_onto bs (free h o s ∷ old) (free h o s ∷ new) lo f hi
      (λ m g k. (k.0, k.1, fits (o + s) true k.2)) l
Layout-rev_onto (item i o n ∷ bs) old new lo f hi fits l =
    Layout-rev_onto bs (item i o n ∷ old) (item i o n ∷ new) lo f hi
      (λ m g k. (k.0, k.1, fits (o + ipbucket_block_size n) false k.2)) l

-- Without a free block what stood behind it still fits.
pub Layout-drop_free :
    (m : ℕ) (g : Bool) (h o s : ℕ) (xs : List Segment) (hi : ℕ)
    → Layout m g (free h o s ∷ xs) hi
    → Layout m g xs hi
Layout-drop_free m true h o s [] hi l = omega (arith, l.0, l.2)
Layout-drop_free m false h o s [] hi l = omega (arith, l.0, l.2)
Layout-drop_free m true h o s (free k p t ∷ xs) hi l = (omega (arith, l.0, l.2.0), l.2.1, l.2.2)
Layout-drop_free m false h o s (free k p t ∷ xs) hi l = (omega (arith, l.0, l.2.0), l.2.1, l.2.2)
Layout-drop_free m true h o s (item k p t ∷ xs) hi l = (omega (arith, l.0, l.2.0), l.2.1, l.2.2)
Layout-drop_free m false h o s (item k p t ∷ xs) hi l = (omega (arith, l.0, l.2.0), l.2.1, l.2.2)

-- An item in the place of a block of its size.
pub Layout-fit :
    (m : ℕ) (g : Bool) (h o s i n : ℕ) (xs : List Segment) (hi : ℕ)
    → IsLength n
    → s ≡ ipbucket_block_size n
    → Layout m g (free h o s ∷ xs) hi
    → Layout m g (item i o n ∷ xs) hi
Layout-fit m true h o s i n xs hi c e l = (
  omega (arith, l.0),
  c,
  Layout-after_item _ true xs hi (subst (λ t. Layout (o + t) true xs hi) e l.2),
)
Layout-fit m false h o s i n xs hi c e l = (
  omega (arith, l.0),
  c,
  Layout-after_item _ true xs hi (subst (λ t. Layout (o + t) true xs hi) e l.2),
)

-- An item in the rear of a larger block.
pub Layout-cut :
    (m : ℕ) (g : Bool) (h o s i n : ℕ) (xs : List Segment) (hi : ℕ)
    → IsLength n
    → IsSectors (s - ipbucket_block_size n)
    → ipbucket_block_size n < s
    → Layout m g (free h o s ∷ xs) hi
    → Layout m g
        (free h o (s - ipbucket_block_size n) ∷ item i (o + s - ipbucket_block_size n) n ∷ xs)
        hi
Layout-cut m g h o s i n xs hi q c lt l =
    let b = ipbucket_block_size n in
    let e : o + s ≡ o + s - b + b = omega arith in
    (
      l.0,
      c,
      (omega arith, q, Layout-after_item _ true xs hi (subst (λ t. Layout t true xs hi) e l.2)),
    )

-- A block on the list is a whole number of sectors.
pub Layout-IsSectors :
    (bs : List Segment) (h o s : ℕ) (xs : List Segment) (lo : ℕ) (f : Bool) (hi : ℕ)
    → Layout lo f (rev_onto bs (free h o s ∷ xs)) hi
    → IsSectors s
Layout-IsSectors bs h o s xs lo f hi l = inner bs (free h o s ∷ xs) (λ m g k. k.1) l
  where
    inner :
        (bs mid : List Segment)
        → ((m : ℕ) (g : Bool) → Layout m g mid hi → IsSectors s)
        → Layout lo f (rev_onto bs mid) hi
        → IsSectors s
    inner [] mid here l = here lo f l
    inner (free k p t ∷ bs) mid here l =
        inner bs (free k p t ∷ mid) (λ m g u. here (p + t) true u.2) l
    inner (item k p t ∷ bs) mid here l =
        inner bs (item k p t ∷ mid) (λ m g u. here (p + ipbucket_block_size t) false u.2) l
