-- ===== src/Server/Accounts.antt =====
-- What the counters of the servers of server.c count.
use olivehc.Prelude.{
  ℕ, ◌+◌, ◌≡◌, false, some, List, [], ◌∷◌, ◌==◌, if◌then◌else◌, arith, refl, ap, subst, sym,
  Bool-cases, inl, inr,
}
use olivehc.SizeClass.{ipbucket_block_size}
use olivehc.Ipbucket.{Handle}
use olivehc.Server.{
  Item, Server, World, find_item, change_item, free_item, on_server, link_lru, unlink, unlink_lru,
}

-- A sum over the items with a key.
module _ (key : Item → ℕ) (v : Item → ℕ) (i : ℕ) where
  abbrev pub share : Item → ℕ
  share x = if key x == i then v x else 0

  abbrev pub total : List Item → ℕ
  total [] = 0
  total (x ∷ xs) = share x + total xs

abbrev pub server_of : Item → ℕ
server_of x = x.server_index

abbrev pub handle_of : Item → ℕ
handle_of x = x.handle

abbrev pub block_bytes : Item → ℕ
block_bytes x = ipbucket_block_size x.length

abbrev pub body_bytes : Item → ℕ
body_bytes x = x.length

abbrev pub one : Item → ℕ
one x = 1

-- The counters of a server are right for a list of items.
pub record Balanced (i : ℕ) (items : List Item) (s : Server) : Type 0 where
  pub consumed : s.consumed ≡ total server_of block_bytes i items
  pub content : s.content ≡ total server_of body_bytes i items
  pub item_nr : s.item_nr ≡ total server_of one i items

abbrev pub Accounts : {D : Type 0} → World D → Type 0
Accounts w = (i : ℕ) → Balanced i w.items (w.servers i)

pub total-change :
    (key : Item → ℕ) (v : Item → ℕ) (i : ℕ) (f : Item → Item) (h : Handle) (xs : List Item)
    → ((x : Item) → share key v i (f x) ≡ share key v i x)
    → total key v i (change_item f h xs) ≡ total key v i xs
unfolding change_item
total-change key v i f h [] e = refl
total-change key v i f h (x ∷ xs) e = elim (Bool-cases (x.handle == h)) [
  | inl t ↦ rw (t, change_item) (omega (arith, e x))
  | inr t ↦ rw (t, change_item) (omega (arith, total-change key v i f h xs e))
]

pub total-free :
    (key : Item → ℕ) (v : Item → ℕ) (i : ℕ) (h : Handle) (xs : List Item) (y : Item)
    → find_item xs h ≡ some y
    → total key v i (free_item h xs) + share key v i y ≡ total key v i xs
unfolding find_item free_item
total-free key v i h [] y e = cc
total-free key v i h (x ∷ xs) y e = elim (Bool-cases (x.handle == h)) [
  | inl t ↦
      let same : x ≡ y = ground (arith, t, e) in
      rw (t, free_item) (omega (arith, ap (share key v i) same))
  | inr t ↦
      let e' : find_item xs h ≡ some y = ground (arith, t, e) in
      rw (t, free_item) (omega (arith, total-free key v i h xs y e'))
]

-- The item that is found has the handle.
pub find_item-handle :
    (xs : List Item) (h : Handle) (y : Item) → find_item xs h ≡ some y → y.handle ≡ h
unfolding find_item
find_item-handle [] h y e = cc
find_item-handle (x ∷ xs) h y e = elim (Bool-cases (x.handle == h)) [
  | inl t ↦ let same : x ≡ y = ground (arith, t, e) in subst (λ z. z.handle ≡ h) same (ground arith)
  | inr t ↦ find_item-handle xs h y (ground (arith, t, e))
]

-- Two lists that are the same for the counters of a server.
abbrev pub SameTotals : ℕ → List Item → List Item → Type 0
SameTotals i ys xs =
    (total server_of block_bytes i ys ≡ total server_of block_bytes i xs)
    × (total server_of body_bytes i ys ≡ total server_of body_bytes i xs)
    × (total server_of one i ys ≡ total server_of one i xs)

-- A change of flags of an item.
pub change_item-SameTotals :
    (i : ℕ) (f : Item → Item) (h : Handle) (xs : List Item)
    → ((x : Item) → ((f x).server_index ≡ x.server_index) × ((f x).length ≡ x.length))
    → SameTotals i (change_item f h xs) xs
change_item-SameTotals i f h xs e = (
  total-change server_of block_bytes i f h xs (λ x. let (p, q) = e x in rw (p, q)),
  total-change server_of body_bytes i f h xs (λ x. let (p, q) = e x in rw (p, q)),
  total-change server_of one i f h xs (λ x. let (p, q) = e x in rw p),
)

-- The counters of a server that keeps them, with any other items of the same totals.
pub Balanced-keeps :
    (i : ℕ) (xs ys : List Item) (s s' : Server)
    → Balanced i xs s
    → SameTotals i ys xs
    → s'.consumed ≡ s.consumed
    → s'.content ≡ s.content
    → s'.item_nr ≡ s.item_nr
    → Balanced i ys s'
Balanced-keeps i xs ys s s' v e a b c = record {
  consumed = omega (arith, v.consumed, e.0, a);
  content = omega (arith, v.content, e.1, b);
  item_nr = omega (arith, v.item_nr, e.2, c);
}

module _ {D : Type 0} where
  -- A change of one server and of its items.
  pub charge-Accounts :
      (w : World D) (i : ℕ) (f : Server → Server) (ys : List Item)
      → Accounts w
      → ((s : Server) → Balanced i w.items s → Balanced i ys (f s))
      → ((j : ℕ) → (j == i) ≡ false → SameTotals j ys w.items)
      → (j : ℕ) → Balanced j ys ((on_server w i f).servers j)
  unfolding on_server
  charge-Accounts w i f ys a same other j = elim (Bool-cases (j == i)) [
    | inl t ↦
        let e : j ≡ i = ground arith in
        rw t (subst (λ k. Balanced k ys (f (w.servers i))) (sym e) (same (w.servers i) (a i)))
    | inr t ↦
        rw t
          (Balanced-keeps j w.items ys (w.servers j) (w.servers j) (a j) (other j t) refl refl refl)
  ]

  -- A change of one server that leaves its counters.
  pub on_server-Accounts :
      (w : World D) (i : ℕ) (f : Server → Server)
      → ((s : Server)
          → ((f s).consumed ≡ s.consumed)
            × ((f s).content ≡ s.content)
            × ((f s).item_nr ≡ s.item_nr))
      → Accounts w
      → Accounts (on_server w i f)
  unfolding on_server
  on_server-Accounts w i f same a j =
      charge-Accounts w i f w.items a
        (λ s v.
          let (p, q, r) = same s in
          Balanced-keeps i w.items w.items s (f s) v (refl, refl, refl) p q r)
        (λ k n. (refl, refl, refl)) j

  pub unlink_lru-Accounts :
      (w : World D) (i : ℕ) (h : Handle) → Accounts w → Accounts (unlink_lru w i h)
  unfolding unlink_lru
  unlink_lru-Accounts w i h a =
      on_server-Accounts w i (λ s. record s { lru = unlink h s.lru }) (λ s. (refl, refl, refl)) a

  pub link_lru-Accounts :
      (w : World D) (i : ℕ) (h : Handle) → Accounts w → Accounts (link_lru w i h)
  unfolding link_lru
  link_lru-Accounts w i h a = elim (Bool-cases ((w.servers i).capacity == 0)) [
    | inl t ↦ rw t a
    | inr t ↦
        rw t
          (on_server-Accounts w i (λ s. record s { lru = h ∷ s.lru }) (λ s. (refl, refl, refl)) a)
  ]
