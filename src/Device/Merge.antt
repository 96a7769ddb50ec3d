-- ===== src/Device/Merge.antt =====
-- What the merging of blocks in `device_return_free_block` of device.c does to an order list.
use olivehc.Prelude.{
  ℕ, suc, ◌+◌, ◌-◌, ◌≤◌, ◌<◌, ◌≡◌, ◌≢◌, Bool, true, false, none, some, List, [], ◌∷◌, arith, subst,
  ◌==◌, refl, if◌then◌else◌,
}
use olivehc.SizeClass.{ipbucket_block_size}
use olivehc.SizeClass.Rounding.{block_size-sectors, block_size_bounds}
use olivehc.Device.{Segment, free, item, rev_onto}
use olivehc.Device.Layout.{IsSectors, IsLength, Begins, Layout, Layout-rev_onto}
use olivehc.Device.Recycle.{Block, touching_prev, touching_next}

-- The segment before is the free block `p`, which ends at `offset`.
pub record EndsAt (bs : List Segment) (offset : ℕ) (p : Block) : Type 0 where
  pub stands : bs ≡ free p.handle p.offset p.size ∷ p.beyond
  pub touches : p.offset + p.size ≡ offset

pub record BeginsAt (xs : List Segment) (end : ℕ) (n : Block) : Type 0 where
  pub stands : xs ≡ free n.handle n.offset n.size ∷ n.beyond
  pub touches : n.offset ≡ end

-- What the result of a test tells of the test.
module _ {A : Type 0} (x y : A) where
  some_if : (b : Bool) → (if b then some x else none) ≡ some y → (b ≡ true) × (x ≡ y)
  some_if true e = (refl, cc)
  some_if false e = cc

none_if : {A : Type 0} (x : A) (b : Bool) → (if b then some x else none) ≡ none → b ≡ false
none_if x true e = cc
none_if x false e = refl

pub touching_prev-EndsAt :
    (bs : List Segment) (offset : ℕ) (p : Block)
    → touching_prev bs offset ≡ some p
    → EndsAt bs offset p
unfolding touching_prev
touching_prev-EndsAt [] offset p e = cc
touching_prev-EndsAt (item k o n ∷ bs) offset p e = cc
touching_prev-EndsAt (free k o s ∷ bs) offset p e =
    let here : Block = record { handle = k; offset = o; size = s; beyond = bs } in
    let (t, same) = some_if here p (o + s == offset) e in
    subst (EndsAt (free k o s ∷ bs) offset) same record { stands = refl; touches = ground arith }

pub touching_next-BeginsAt :
    (xs : List Segment) (end : ℕ) (n : Block) → touching_next xs end ≡ some n → BeginsAt xs end n
unfolding touching_next
touching_next-BeginsAt [] end p e = cc
touching_next-BeginsAt (item k o n ∷ xs) end p e = cc
touching_next-BeginsAt (free k o s ∷ xs) end p e =
    let here : Block = record { handle = k; offset = o; size = s; beyond = xs } in
    let (t, same) = some_if here p (o == end) e in
    subst (BeginsAt (free k o s ∷ xs) end) same record { stands = refl; touches = ground arith }

pub untouched :
    (lo : ℕ) (xs : List Segment) (hi : ℕ)
    → touching_next xs lo ≡ none
    → Layout lo false xs hi
    → Layout lo true xs hi
unfolding touching_next
untouched lo [] hi e l = l
untouched lo (item k o n ∷ xs) hi e l = l
untouched lo (free k o s ∷ xs) hi e l =
    let here : Block = record { handle = k; offset = o; size = s; beyond = xs } in
    let apart : lo ≢ o = λ d. ground (arith, none_if here (o == lo) e, d) in
    (ground (arith, apart, l.0), l.1, l.2)

-- A rear that fits where no free block ends at `offset`.
pub Layout-behind :
    (bs old new : List Segment) (lo offset hi : ℕ)
    → touching_prev bs offset ≡ none
    → ((m : ℕ) (g : Bool) → (g ≡ true → m ≢ offset) → Layout m g old hi → Layout m g new hi)
    → Layout lo false (rev_onto bs old) hi
    → Layout lo false (rev_onto bs new) hi
unfolding touching_prev
Layout-behind [] old new lo offset hi e fits l = fits lo false (λ c. cc) l
Layout-behind (item k o n ∷ bs) old new lo offset hi e fits l =
    Layout-rev_onto bs (item k o n ∷ old) (item k o n ∷ new) lo false hi
      (λ m g q. (q.0, q.1, fits (o + ipbucket_block_size n) false (λ c. cc) q.2)) l
Layout-behind (free k o s ∷ bs) old new lo offset hi e fits l =
    Layout-rev_onto bs (free k o s ∷ old) (free k o s ∷ new) lo false hi
      (λ m g q. (
        q.0,
        q.1,
        fits (o + s) true (λ c d. ground (arith, d, none_if here (o + s == offset) e)) q.2,
      ))
      l
  where
    here : Block
    here = record { handle = k; offset = o; size = s; beyond = bs }

-- A free block from where an item begins on, with what follows it, in place of the item and
-- what follows that.
pub Rear : ℕ → ℕ → List Segment → ℕ → List Segment → Type 0
Rear o n xs s ys =
    (hi : ℕ)
    → Layout (o + ipbucket_block_size n) false xs hi
    → IsSectors s × Layout (o + s) true ys hi

pub IsSectors-length : (n : ℕ) → IsLength n → IsSectors (ipbucket_block_size n)
IsSectors-length n l =
    let (c, e) = block_size-sectors n (omega arith) in
    let (b, _) = block_size_bounds n (omega arith) in (c - 1, omega arith)

pub alone-Rear :
    (o n : ℕ) (xs : List Segment)
    → IsLength n
    → touching_next xs (o + ipbucket_block_size n) ≡ none
    → Rear o n xs (ipbucket_block_size n) xs
unfolding Rear
alone-Rear o n xs l e hi k = (IsSectors-length n l, untouched _ xs hi e k)

pub next-Rear :
    (o n : ℕ) (xs : List Segment) (b : Block)
    → IsLength n
    → BeginsAt xs (o + ipbucket_block_size n) b
    → Rear o n xs (ipbucket_block_size n + b.size) b.beyond
unfolding Rear
next-Rear o n xs b l t hi k =
    let k' = subst (λ t. Layout (o + ipbucket_block_size n) false t hi) t.stands k in
    let (c, e) = IsSectors-length n l in
    let (c', e') = k'.1 in
    let at : b.offset + b.size ≡ o + (ipbucket_block_size n + b.size) = omega (arith, t.touches) in
    ((suc (c + c'), omega arith), subst (λ t. Layout t true b.beyond hi) at k'.2)

module _ (o n s : ℕ) (xs ys : List Segment) (r : Rear o n xs s ys) (hi : ℕ) where
  -- The block before grows.
  pub Layout-grow :
      (p : Block) (k : ℕ)
      → p.offset + p.size ≡ o
      → Layout 0 false (rev_onto p.beyond (free p.handle p.offset p.size ∷ item k o n ∷ xs)) hi
      → Layout 0 false (rev_onto p.beyond (free p.handle p.offset (p.size + s) ∷ ys)) hi
  unfolding Rear
  Layout-grow p k e =
      Layout-rev_onto p.beyond (free p.handle p.offset p.size ∷ item k o n ∷ xs)
        (free p.handle p.offset (p.size + s) ∷ ys) 0 false hi
        (λ m g q.
          let (c, u) = q.1 in
          let ((c', u'), behind) = r hi q.2.2 in
          let at : o + s ≡ p.offset + (p.size + s) = omega (arith, e) in
          (q.0, (suc (c + c'), omega arith), subst (λ t. Layout t true ys hi) at behind))

  -- A block takes the item's place.
  pub Layout-take :
      (bs : List Segment) (h k : ℕ)
      → touching_prev bs o ≡ none
      → Layout 0 false (rev_onto bs (item k o n ∷ xs)) hi
      → Layout 0 false (rev_onto bs (free h o s ∷ ys)) hi
  unfolding Rear
  Layout-take bs h k e =
      Layout-behind bs (item k o n ∷ xs) (free h o s ∷ ys) 0 o hi e
        (λ m g away q. let (c, behind) = r hi q.2 in (begins m g away q.0, c, behind))
    where
      begins : (m : ℕ) (g : Bool) → (g ≡ true → m ≢ o) → m ≤ o → Begins g m o
      begins m true away l = ground (arith, away refl)
      begins m false away l = l

Layout-le : (lo : ℕ) (f : Bool) (xs : List Segment) (hi : ℕ) → Layout lo f xs hi → lo ≤ hi
Layout-le lo f [] hi l = l
Layout-le lo true (free h o s ∷ xs) hi l = omega (arith, l.0, Layout-le (o + s) true xs hi l.2)
Layout-le lo false (free h o s ∷ xs) hi l = omega (arith, l.0, Layout-le (o + s) true xs hi l.2)
Layout-le lo f (item h o n ∷ xs) hi l =
    omega (arith, l.0, Layout-le (o + ipbucket_block_size n) false xs hi l.2)

-- What holds of the rear of a list wherever it is laid out.
pub Layout-rear :
    {P : Type 0} (bs xs : List Segment) (lo : ℕ) (f : Bool) (hi : ℕ)
    → ((m : ℕ) (g : Bool) → Layout m g xs hi → P)
    → Layout lo f (rev_onto bs xs) hi
    → P
Layout-rear [] xs lo f hi here l = here lo f l
Layout-rear (free k o s ∷ bs) xs lo f hi here l =
    Layout-rear bs (free k o s ∷ xs) lo f hi (λ m g q. here (o + s) true q.2) l
Layout-rear (item k o n ∷ bs) xs lo f hi here l =
    Layout-rear bs (item k o n ∷ xs) lo f hi (λ m g q. here (o + ipbucket_block_size n) false q.2) l

-- The size of a block on the list, and its end.
pub Layout-block :
    (bs : List Segment) (h o s : ℕ) (xs : List Segment) (hi : ℕ)
    → Layout 0 false (rev_onto bs (free h o s ∷ xs)) hi
    → (512 ≤ s) × (o + s ≤ hi)
Layout-block bs h o s xs hi =
    Layout-rear bs (free h o s ∷ xs) 0 false hi
      (λ m g q. (omega (arith, q.1), Layout-le (o + s) true xs hi q.2))

-- A list that is laid out further behind.
Layout-lower :
    (m lo : ℕ) (g : Bool) (xs : List Segment) (hi : ℕ)
    → m < lo
    → Layout lo false xs hi
    → Layout m g xs hi
Layout-lower m lo g [] hi a l = omega (arith, l)
Layout-lower m lo true (free h o s ∷ xs) hi a l = (omega (arith, l.0), l.1, l.2)
Layout-lower m lo false (free h o s ∷ xs) hi a l = (omega (arith, l.0), l.1, l.2)
Layout-lower m lo g (item h o n ∷ xs) hi a l = (omega (arith, l.0), l.1, l.2)

-- Without an item what stood behind it still fits.
pub Layout-drop_item :
    (bs : List Segment) (k o n : ℕ) (xs : List Segment) (hi : ℕ)
    → Layout 0 false (rev_onto bs (item k o n ∷ xs)) hi
    → Layout 0 false (rev_onto bs xs) hi
Layout-drop_item bs k o n xs hi = Layout-rev_onto bs (item k o n ∷ xs) xs 0 false hi (λ m g q.
    let (c, e) = IsSectors-length n q.1 in
    Layout-lower m (o + ipbucket_block_size n) g xs hi (omega (arith, q.0)) q.2)
