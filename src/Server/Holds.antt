-- ===== src/Server/Holds.antt =====
-- server.c: the requests that hold an item, and the marks of the item that count them.
use olivehc.Prelude.{
  ℕ, ◌+◌, ◌^◌, ◌<◌, ◌≤◌, ◌≡◌, true, not, ◌||◌, Option, none, some, List, [], ◌∷◌, ◌==◌, arith, refl,
  ap, subst, ◌∙◌, Bool-cases, inl, inr, to_nat, count,
}
use olivehc.Ipbucket.{Handle}
use olivehc.Server.{Blocks, Item, World, find_item, change_item, free_item, unlink}
use olivehc.Server.Accounts.{
  share, total, handle_of, one, total-change, total-free, find_item-handle,
}
use olivehc.Server.Remove.{erase_item, drop_item, unhash, server_item_delete}
use olivehc.Server.Delete.{unhash-items}

-- What an item says of the requests that hold it.
abbrev pub uses : Item → ℕ
uses x = x.used + to_nat x.putting

abbrev pub holds : Handle → List Handle → ℕ
holds k hs = count (λ x. x == k) hs

-- No two items have a handle, and each item counts its holders.
pub record Held (hs : List Handle) (items : List Item) : Type 0 where
  pub counted : (k : Handle) → total handle_of uses k items ≡ holds k hs
  pub alone : (k : Handle) → total handle_of one k items ≤ 1

-- Fewer requests hold an item than the 16 bits of `used` count.
abbrev pub Few : List Handle → Type 0
Few hs = (k : Handle) → holds k hs + 1 < 2 ^ 16

-- Items are deleted of which no request holds one.
pub record Pruned (ys xs : List Item) : Type 0 where
  pub counted : (k : Handle) → total handle_of uses k ys ≡ total handle_of uses k xs
  pub alone : (k : Handle) → total handle_of one k ys ≤ total handle_of one k xs

pub Pruned-Held : (hs : List Handle) (xs ys : List Item) → Pruned ys xs → Held hs xs → Held hs ys
Pruned-Held hs xs ys p v = record {
  counted = λ k. p.counted k ∙ v.counted k;
  alone = λ k. omega (arith, p.alone k, v.alone k);
}

pub total-none :
    (v : Item → ℕ) (k : Handle) (xs : List Item)
    → total handle_of one k xs ≡ 0
    → total handle_of v k xs ≡ 0
total-none v k [] e = refl
total-none v k (x ∷ xs) e = elim (Bool-cases (x.handle == k)) [
  | inl t ↦ ground (arith, t, e)
  | inr t ↦
      let rest : total handle_of one k xs ≡ 0 = ground (arith, t, e) in
      ground (arith, t, total-none v k xs rest)
]

-- An item that is not found has no part in a sum.
pub find_item-none :
    (v : Item → ℕ) (k : Handle) (xs : List Item)
    → find_item xs k ≡ none
    → total handle_of v k xs ≡ 0
unfolding find_item
find_item-none v k [] e = refl
find_item-none v k (x ∷ xs) e = elim (Bool-cases (x.handle == k)) [
  | inl t ↦ ground (arith, t, e)
  | inr t ↦
      let rest : find_item xs k ≡ none = ground (arith, t, e) in
      ground (arith, t, find_item-none v k xs rest)
]

-- The share of the item that is found.
pub found-share :
    (v : Item → ℕ) (h : Handle) (xs : List Item) (y : Item)
    → find_item xs h ≡ some y
    → share handle_of v h y ≡ v y
found-share v h xs y e = let same : y.handle ≡ h = find_item-handle xs h y e in ground (arith, same)

-- The only item of its handle makes up the whole sum.
pub found-total :
    (v : Item → ℕ) (h : Handle) (xs : List Item) (y : Item)
    → find_item xs h ≡ some y
    → total handle_of one h xs ≤ 1
    → total handle_of v h xs ≡ v y
found-total v h xs y e single =
    let ones = total-free handle_of one h h xs y e in
    let left : total handle_of one h (free_item h xs) ≡ 0 =
      omega (arith, ones, single, found-share one h xs y e) in
    omega (
      arith,
      total-free handle_of v h h xs y e,
      found-share v h xs y e,
      total-none v h (free_item h xs) left,
    )

-- The sum with the found item changed.
pub total-change_found :
    (v : Item → ℕ) (k : Handle) (f : Item → Item) (h : Handle) (xs : List Item) (y : Item)
    → find_item xs h ≡ some y
    → total handle_of v k (change_item f h xs) + share handle_of v k y
      ≡ total handle_of v k xs + share handle_of v k (f y)
unfolding find_item change_item
total-change_found v k f h [] y e = cc
total-change_found v k f h (x ∷ xs) y e = elim (Bool-cases (x.handle == h)) [
  | inl t ↦
      let same : x ≡ y = ground (arith, t, e) in
      rw (t, change_item)
        (subst
          (λ z.
            share handle_of v k (f x) + total handle_of v k xs + share handle_of v k z
            ≡ share handle_of v k x + total handle_of v k xs + share handle_of v k (f z))
          same (omega arith))
  | inr t ↦
      let e' : find_item xs h ≡ some y = ground (arith, t, e) in
      rw (t, change_item) (omega (arith, total-change_found v k f h xs y e'))
]

pub holds-unlink :
    (h k : Handle) (hs : List Handle)
    → 0 < holds h hs
    → holds k (unlink h hs) + to_nat (h == k) ≡ holds k hs
unfolding unlink
holds-unlink h k [] p = omega (arith, p)
holds-unlink h k (x ∷ hs) p = elim (Bool-cases (x == h)) [
  | inl t ↦ let same : x ≡ h = ground (arith, t) in rw (t, unlink) (rw same (omega arith))
  | inr t ↦
      let p' : 0 < holds h hs = ground (arith, t, p) in
      rw (t, unlink) (omega (arith, holds-unlink h k hs p'))
]

module _ (b : Blocks) where
  drop_item-Pruned :
      (w : World b.D) (item : Item)
      → find_item w.items item.handle ≡ some item
      → Pruned (drop_item b w item).items w.items
  unfolding drop_item erase_item
  drop_item-Pruned w item e = elim (Bool-cases (item.putting || not (item.used == 0))) [
    | inl t ↦
        let mark = λ (x : Item). record x { deleted = true } in
        rw t record {
          counted = λ k. total-change handle_of uses k mark item.handle w.items (λ x. refl);
          alone =
              λ k. omega (arith, total-change handle_of one k mark item.handle w.items (λ x. refl));
        }
    | inr t ↦
        let unused : uses item ≡ 0 = ground (arith, t) in
        let freed =
          λ (v : Item → ℕ) (k : Handle). total-free handle_of v k item.handle w.items item e in
        rw t record {
          counted = λ k. ground (arith, freed uses k, unused);
          alone = λ k. omega (arith, freed one k);
        }
  ]

  pub item_delete-Pruned :
      (w : World b.D) (h : Handle) → Pruned (server_item_delete b w h).items w.items
  unfolding server_item_delete
  item_delete-Pruned w h = on_item (find_item w.items h) refl
    where
      on_item :
          (o : Option Item)
          → find_item w.items h ≡ o
          → Pruned
              (elim o as (λ _. World b.D) [
                | none ↦ w
                | some item ↦ drop_item b (unhash b w item) item
              ]).items
              w.items
      on_item none e = record { counted = λ k. refl; alone = λ k. omega arith }
      on_item (some item) e =
          let same : item.handle ≡ h = find_item-handle w.items h item e in
          let still : find_item (unhash b w item).items item.handle ≡ some item =
            ap (λ xs. find_item xs item.handle) (unhash-items b w item)
            ∙ ap (find_item w.items) same
            ∙ e in
          subst (Pruned (drop_item b (unhash b w item) item).items) (unhash-items b w item)
            (drop_item-Pruned (unhash b w item) item still)
