-- ===== src/Server/Release.antt =====
-- server.c: the end of a request that holds an item.
use olivehc.Prelude.{
  ℕ, ◌+◌, ◌-◌, ◌%◌, ◌^◌, ◌<◌, ◌≡◌, Bool, true, false, ◌&&◌, ◌||◌, Option, none, some, List, ltb,
  ◌==◌, if◌then◌else◌, arith, refl, ap, subst, sym, ◌∙◌, Bool-cases, inl, inr, to_nat, Bytes,
}
use olivehc.Ipbucket.{Handle}
use olivehc.Hash.{HashId}
use olivehc.Server.{Blocks, Item, World, find_item, change_item, unlink}
use olivehc.Server.Accounts.{
  share, handle_of, one, Balanced-keeps, change_item-SameTotals, find_item-handle, total-change,
}
use olivehc.Server.Holds.{
  uses, holds, Held, Few, total-change_found, found-total, find_item-none, holds-unlink,
}
use olivehc.Server.Sound.{Sound, item_delete-Sound}
use olivehc.Server.Request.{finish_item, server_request_finalize}

-- A sum that loses one holder of an item, with the count of the holders.
one_less :
    (x y : Item) (k : Handle) (after before left held : ℕ)
    → y.handle ≡ x.handle
    → uses y + 1 ≡ uses x
    → after + share handle_of uses k x ≡ before + share handle_of uses k y
    → left + to_nat (x.handle == k) ≡ held
    → before ≡ held
    → after ≡ left
one_less x y k after before left held same less changed gone was =
    elim (Bool-cases (x.handle == k)) [
      | inl t ↦
          let u : (y.handle == k) ≡ true = rw same t in
          ground (arith, t, u, less, changed, gone, was)
      | inr t ↦
          let u : (y.handle == k) ≡ false = rw same t in
          ground (arith, t, u, less, changed, gone, was)
    ]

-- The marks of an item that a request leaves.
abbrev released : Item → Bool → Item → Item
released item disk_error x =
    let y =
      if item.putting
      then record x { putting = false }
      else record x { used = (x.used + 2 ^ 16 - 1) % 2 ^ 16 } in
    if disk_error then record y { badblock = true } else y

module _ (item : Item) (disk_error : Bool) where
  released-same :
      (x : Item)
      → ((released item disk_error x).server_index ≡ x.server_index)
        × ((released item disk_error x).length ≡ x.length)
  released-same x = elim (Bool-cases item.putting) [
    | inl t ↦ elim (Bool-cases disk_error) [
      | inl u ↦ rw (t, u) (refl, refl)
      | inr u ↦ rw (t, u) (refl, refl)
    ]
    | inr t ↦ elim (Bool-cases disk_error) [
      | inl u ↦ rw (t, u) (refl, refl)
      | inr u ↦ rw (t, u) (refl, refl)
    ]
  ]

  released-handle : (x : Item) → (released item disk_error x).handle ≡ x.handle
  released-handle x = elim (Bool-cases item.putting) [
    | inl t ↦ elim (Bool-cases disk_error) [ inl u ↦ rw (t, u) refl | inr u ↦ rw (t, u) refl ]
    | inr t ↦ elim (Bool-cases disk_error) [ inl u ↦ rw (t, u) refl | inr u ↦ rw (t, u) refl ]
  ]

  released-uses :
      0 < uses item → uses item < 2 ^ 16 → uses (released item disk_error item) + 1 ≡ uses item
  released-uses p q = elim (Bool-cases item.putting) [
    | inl t ↦ elim (Bool-cases disk_error) [
      | inl u ↦ ground (arith, t, u, p, q)
      | inr u ↦ ground (arith, t, u, p, q)
    ]
    | inr t ↦ elim (Bool-cases disk_error) [
      | inl u ↦ ground (arith, t, u, p, q)
      | inr u ↦ ground (arith, t, u, p, q)
    ]
  ]

  release-Held :
      (hs : List Handle) (xs : List Item)
      → find_item xs item.handle ≡ some item
      → 0 < holds item.handle hs
      → Few hs
      → Held hs xs
      → Held (unlink item.handle hs) (change_item (released item disk_error) item.handle xs)
  release-Held hs xs e held few v =
      let h = item.handle in
      let in_use : 0 < uses item =
        omega (arith, held, v.counted h, found-total uses h xs item e (v.alone h)) in
      let small : uses item < 2 ^ 16 =
        omega (arith, few h, v.counted h, found-total uses h xs item e (v.alone h)) in
      let less = released-uses in_use small in
      let kept = released-handle item in
      record {
        counted = λ k.
            let changed = total-change_found uses k (released item disk_error) h xs item e in
            let left = holds-unlink h k hs held in
            let was = v.counted k in
            one_less item (released item disk_error item) k _ _ _ _ kept less changed left was;
        alone = λ k.
            let same =
              total-change handle_of one k (released item disk_error) h xs
                (λ x. let p = released-handle x in rw p refl) in
            omega (arith, same, v.alone k);
      }

module _ (b : Blocks) (md5 : Bytes → HashId) (hs : List Handle) where
  finish_item-Sound :
      (w : World b.D) (item : Item) (disk_error : Bool) (process_size : ℕ)
      → find_item w.items item.handle ≡ some item
      → 0 < holds item.handle hs
      → Few hs
      → Sound hs w
      → Sound (unlink item.handle hs) (finish_item b md5 w item disk_error process_size)
  unfolding finish_item
  finish_item-Sound w item disk_error process_size e held few v =
      elim (Bool-cases
        (disk_error || (item.deleted || (item.putting && ltb process_size item.length)))) [
          | inl t ↦
              rw (t, finish_item) (item_delete-Sound b (unlink item.handle hs) w1 item.handle left)
          | inr t ↦ rw (t, finish_item) left
        ]
    where
      ys : List Item
      ys = change_item (released item disk_error) item.handle w.items

      w1 : World b.D
      w1 = record w { blocks = b.leave_device w.blocks item.handle; items = ys }

      left : Sound (unlink item.handle hs) w1
      left = record {
        accounts = λ j.
            Balanced-keeps j w.items ys (w.servers j) (w.servers j) (v.accounts j)
              (change_item-SameTotals j (released item disk_error) item.handle w.items
                (released-same item disk_error))
              refl refl refl;
        held = release-Held item disk_error hs w.items e held few v.held;
      }

  pub finalize-Sound :
      (w : World b.D) (h : Handle) (disk_error : Bool) (process_size : ℕ)
      → 0 < holds h hs
      → Few hs
      → Sound hs w
      → Sound (unlink h hs) (server_request_finalize b md5 w (some h) disk_error process_size)
  unfolding server_request_finalize
  finalize-Sound w h disk_error process_size held few v = on_item (find_item w.items h) refl
    where
      on_item :
          (o : Option Item)
          → find_item w.items h ≡ o
          → Sound (unlink h hs) (elim o as (λ _. World b.D) [
            | none ↦ w
            | some item ↦ finish_item b md5 w item disk_error process_size
          ])
      on_item none e =
          let no_uses = find_item-none uses h w.items e in
          let was = v.held.counted h in omega (arith, no_uses, was, held)
      on_item (some item) e =
          let same : item.handle ≡ h = find_item-handle w.items h item e in
          subst (λ k. Sound (unlink k hs) (finish_item b md5 w item disk_error process_size)) same
            (finish_item-Sound w item disk_error process_size (ap (find_item w.items) same ∙ e)
              (subst (λ k. 0 < holds k hs) (sym same) held) few v)
