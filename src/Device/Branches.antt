-- ===== src/Device/Branches.antt =====
-- The four branches of `device_return_free_block` of device.c that merge the block of an item,
-- and the two that do not use it again.
use olivehc.Prelude.{
  ℕ, ◌+◌, ◌-◌, ◌*◌, ◌/◌, ◌≡◌, Bool, true, false, Option, none, some, List, ◌∷◌, set, get_elem?,
  arith, to_nat, if◌then◌else◌, ◌==◌, ltb, inl, inr, refl, Option-cases, ap, subst, sym, ◌∙◌,
}
use olivehc.SizeClass.{ipbucket_block_size}
use olivehc.Ipbucket.{Handle}
use olivehc.Ipbucket.Filed.{IsBlockSize}
use olivehc.Device.{Segment, free, item, Device, Store, rev_onto, is_item}
use olivehc.Device.Layout.{Layout, IsLength}
use olivehc.Device.Weight.{total, total_all, total-rev_onto}
use olivehc.Device.Blocks.{a_block, an_item, item_bytes, DeviceIsValid, blocks_of, StoreIsValid}
use olivehc.Device.Recycle.{
  Block, touching_prev, touching_next, merge, recycle, retire_block, forget_item,
}
use olivehc.Device.Merge.{
  IsSectors-length, touching_prev-EndsAt, touching_next-BeginsAt, alone-Rear, next-Rear,
  Layout-grow, Layout-take, Layout-block, Layout-drop_item, Layout-rear,
}
use olivehc.Device.Rear.{
  was, now, d-IsValid, old_total, kept-IsValid, added-IsValid, grown-IsValid, merged-IsValid,
}

abbrev pub item_mark : Handle → Segment → ℕ
item_mark x s = to_nat (is_item x s)

-- The item with the handle `k` is gone, and no other, from a store that stays well formed.
pub record Returned (k : Handle) (before after : Store) : Type 0 where
  pub valid : StoreIsValid after
  pub items :
      (x : Handle)
      → total_all (item_mark x) after.devices + to_nat (k == x)
        ≡ total_all (item_mark x) before.devices

-- A handle that `slab_alloc` gives is not in use.
abbrev pub IsFresh : Store → Option Handle → Type 0
IsFresh st none = Unit {0}
IsFresh st (some h) = blocks_of st.devices h ≡ 0

-- An item on the order list of a device.
module _ (st : Store) (v : StoreIsValid st) (index : ℕ) (d : Device)
    (at : get_elem? st.devices index ≡ some d) (bs xs : List Segment) (k o n : ℕ)
    (whole : rev_onto bs (item k o n ∷ xs) ≡ d.order) where
  abbrev bsize : ℕ
  bsize = ipbucket_block_size n

  d-Valid : DeviceIsValid d
  d-Valid = d-IsValid st v index d at bs (item k o n ∷ xs) whole

  old-Layout : Layout 0 false (rev_onto bs (item k o n ∷ xs)) d.capacity
  old-Layout = subst (λ t. Layout 0 false t d.capacity) (sym whole) d-Valid.laid_out

  item-IsLength : IsLength n
  item-IsLength = Layout-rear bs (item k o n ∷ xs) 0 false d.capacity (λ m g q. q.1) old-Layout

  block-IsBlockSize :
      (cs : List Segment) (h offset size : ℕ) (ys : List Segment)
      → Layout 0 false (rev_onto cs (free h offset size ∷ ys)) d.capacity
      → IsBlockSize size
  block-IsBlockSize cs h offset size ys l =
      let (a, b) = Layout-block cs h offset size ys d.capacity l in
      (a, omega (arith, b, d-Valid.small))

  -- The device after the block was used again.
  abbrev recycled : ℕ → List Segment → Device
  recycled nr order = record d {
    item_nr = d.item_nr - 1;
    fblock_nr = nr;
    consumed = d.consumed - bsize;
    order = order;
  }

  recycled-IsValid :
      (cs old new : List Segment) (nr : ℕ)
      → rev_onto cs old ≡ d.order
      → Layout 0 false (rev_onto cs new) d.capacity
      → (d.fblock_nr ≡ total a_block cs + total a_block old
          → nr ≡ total a_block cs + total a_block new)
      → total an_item old ≡ 1 + total an_item new
      → total item_bytes old ≡ bsize + total item_bytes new
      → DeviceIsValid (recycled nr (rev_onto cs new))
  recycled-IsValid cs old new nr w l fb it by =
      let sum : (u : Segment → ℕ) → total u d.order ≡ total u cs + total u old =
        λ u. old_total st v index d at cs old w u in
      record {
        laid_out = l;
        small = d-Valid.small;
        fblocks = fb (d-Valid.fblocks ∙ sum a_block) ∙ sym (total-rev_onto a_block cs new);
        items =
            λ a b. omega (arith, d-Valid.items a b, sum an_item, it, total-rev_onto an_item cs new);
        bytes = λ a.
            omega (arith, d-Valid.bytes a, sum item_bytes, by, total-rev_onto item_bytes cs new);
      }

  module _ (fresh : Option Handle) (unused : IsFresh st fresh) where
    abbrev Recycled : Type 0
    Recycled = Returned k st (recycle st index d bs o bsize xs fresh)

    -- "backward" alone
    case_next :
        (q : Block) → touching_prev bs o ≡ none → touching_next xs (o + bsize) ≡ some q → Recycled
    unfolding recycle merge
    case_next q ep en =
        let t = touching_next-BeginsAt xs (o + bsize) q en in
        let old = item k o n ∷ free q.handle q.offset q.size ∷ q.beyond in
        let w : rev_onto bs old ≡ d.order =
          ap (λ u. rev_onto bs (item k o n ∷ u)) (sym t.stands) ∙ whole in
        let start : o ≡ q.offset - bsize = omega (arith, t.touches) in
        let size : bsize + q.size ≡ q.size + bsize = omega arith in
        let new = free q.handle (q.offset - bsize) (q.size + bsize) ∷ q.beyond in
        let l : Layout 0 false (rev_onto bs new) d.capacity =
          subst
            (λ u.
              Layout 0 false (rev_onto bs (free q.handle u (q.size + bsize) ∷ q.beyond)) d.capacity)
            start
            (subst (λ u. Layout 0 false (rev_onto bs (free q.handle o u ∷ q.beyond)) d.capacity)
              size
              (Layout-take o n (bsize + q.size) xs q.beyond (next-Rear o n xs q item-IsLength t)
                d.capacity bs q.handle k ep old-Layout)) in
        let d' = recycled d.fblock_nr (rev_onto bs new) in
        let ok : DeviceIsValid d' =
          recycled-IsValid bs old new d.fblock_nr w l (λ e. omega (arith, e)) (omega arith)
            (omega arith) in
        rw (ep, en, recycle)
          record {
            valid =
                grown-IsValid st v index d at bs old w d' new refl ok q.handle (q.size + bsize)
                  (q.offset - bsize) q.beyond refl
                  (block-IsBlockSize bs q.handle (q.offset - bsize) (q.size + bsize) q.beyond l)
                  (λ x. ground arith) (λ x e. ground (arith, e));
            items = λ x. omega (
              arith,
              was st v index d at bs old w (item_mark x),
              now st v index d at bs old w d' new refl ok (item_mark x),
            );
          }

    -- "forward" alone
    case_prev :
        (p : Block) → touching_prev bs o ≡ some p → touching_next xs (o + bsize) ≡ none → Recycled
    unfolding recycle merge
    case_prev p ep en =
        let t = touching_prev-EndsAt bs o p ep in
        let old = free p.handle p.offset p.size ∷ item k o n ∷ xs in
        let w : rev_onto p.beyond old ≡ d.order =
          ap (λ u. rev_onto u (item k o n ∷ xs)) (sym t.stands) ∙ whole in
        let new = free p.handle p.offset (p.size + bsize) ∷ xs in
        let l : Layout 0 false (rev_onto p.beyond new) d.capacity =
          Layout-grow o n bsize xs xs (alone-Rear o n xs item-IsLength en) d.capacity p k t.touches
            (subst (λ u. Layout 0 false u d.capacity) (sym w) d-Valid.laid_out) in
        let d' = recycled d.fblock_nr (rev_onto p.beyond new) in
        let ok : DeviceIsValid d' =
          recycled-IsValid p.beyond old new d.fblock_nr w l (λ e. omega (arith, e)) (omega arith)
            (omega arith) in
        rw (ep, en, recycle)
          record {
            valid =
                grown-IsValid st v index d at p.beyond old w d' new refl ok p.handle
                  (p.size + bsize) p.offset xs refl
                  (block-IsBlockSize p.beyond p.handle p.offset (p.size + bsize) xs l)
                  (λ x. ground arith) (λ x e. ground (arith, e));
            items = λ x. omega (
              arith,
              was st v index d at p.beyond old w (item_mark x),
              now st v index d at p.beyond old w d' new refl ok (item_mark x),
            );
          }

    -- "forward" and "backward"
    case_both :
        (p q : Block)
        → touching_prev bs o ≡ some p
        → touching_next xs (o + bsize) ≡ some q
        → Recycled
    unfolding recycle merge
    case_both p q ep en =
        let t = touching_prev-EndsAt bs o p ep in
        let t' = touching_next-BeginsAt xs (o + bsize) q en in
        let old =
          free p.handle p.offset p.size ∷ item k o n ∷ free q.handle q.offset q.size ∷ q.beyond in
        let w' : rev_onto p.beyond (free p.handle p.offset p.size ∷ item k o n ∷ xs) ≡ d.order =
          ap (λ u. rev_onto u (item k o n ∷ xs)) (sym t.stands) ∙ whole in
        let w : rev_onto p.beyond old ≡ d.order =
          ap (λ u. rev_onto p.beyond (free p.handle p.offset p.size ∷ item k o n ∷ u))
            (sym t'.stands)
          ∙ w' in
        let size = p.size + (bsize + q.size) in
        let new = free p.handle p.offset size ∷ q.beyond in
        let l : Layout 0 false (rev_onto p.beyond new) d.capacity =
          Layout-grow o n (bsize + q.size) xs q.beyond (next-Rear o n xs q item-IsLength t')
            d.capacity p k t.touches
            (subst (λ u. Layout 0 false u d.capacity) (sym w') d-Valid.laid_out) in
        let d' = recycled (d.fblock_nr - 1) (rev_onto p.beyond new) in
        let ok : DeviceIsValid d' =
          recycled-IsValid p.beyond old new (d.fblock_nr - 1) w l (λ e. omega (arith, e))
            (omega arith) (omega arith) in
        rw (ep, en, recycle)
          record {
            valid =
                merged-IsValid st v index d at p.beyond old w d' new refl ok p.handle size p.offset
                  q.beyond refl (block-IsBlockSize p.beyond p.handle p.offset size q.beyond l)
                  q.handle (λ x. ground arith) (λ x e e'. ground (arith, e, e'));
            items = λ x. omega (
              arith,
              was st v index d at p.beyond old w (item_mark x),
              now st v index d at p.beyond old w d' new refl ok (item_mark x),
            );
          }

  -- The item leaves the list, and no block changes.
  dropped-Returned :
      (d' : Device)
      → d'.order ≡ rev_onto bs xs
      → DeviceIsValid d'
      → Returned k st (record { free_blocks = st.free_blocks; devices = set st.devices index d' })
  dropped-Returned d' e ok =
      let old = item k o n ∷ xs in
      record {
        valid =
            kept-IsValid st v index d at bs old whole d' xs e ok (λ x. omega arith)
              (λ x. omega arith);
        items = λ x. omega (
          arith,
          was st v index d at bs old whole (item_mark x),
          now st v index d at bs old whole d' xs e ok (item_mark x),
        );
      }

  dropped-Layout : Layout 0 false (rev_onto bs xs) d.capacity
  dropped-Layout = Layout-drop_item bs k o n xs d.capacity old-Layout

  -- Neither, with memory for a block of its own and without.
  case_alone :
      (fresh : Option Handle)
      → IsFresh st fresh
      → touching_prev bs o ≡ none
      → touching_next xs (o + bsize) ≡ none
      → Returned k st (recycle st index d bs o bsize xs fresh)
  unfolding recycle merge
  case_alone none u ep en =
      rw (ep, en, recycle)
        (dropped-Returned (recycled d.fblock_nr (rev_onto bs xs)) refl (
          recycled-IsValid bs (item k o n ∷ xs) xs d.fblock_nr whole dropped-Layout
            (λ e. omega (arith, e)) (omega arith) (omega arith)))
  case_alone (some h) u ep en =
      let old = item k o n ∷ xs in
      let new = free h o bsize ∷ xs in
      let l : Layout 0 false (rev_onto bs new) d.capacity =
        Layout-take o n bsize xs xs (alone-Rear o n xs item-IsLength en) d.capacity bs h k ep
          old-Layout in
      let d' = recycled (d.fblock_nr + 1) (rev_onto bs new) in
      let ok : DeviceIsValid d' =
        recycled-IsValid bs old new (d.fblock_nr + 1) whole l (λ e. omega (arith, e)) (omega arith)
          (omega arith) in
      rw (ep, en, recycle)
        record {
          valid =
              added-IsValid st v index d at bs old whole d' new refl ok h bsize o xs refl
                (block-IsBlockSize bs h o bsize xs l) u (λ x. omega arith) (λ x. omega arith);
          items = λ x. omega (
            arith,
            was st v index d at bs old whole (item_mark x),
            now st v index d at bs old whole d' new refl ok (item_mark x),
          );
        }

  pub recycle-Returned :
      (fresh : Option Handle)
      → IsFresh st fresh
      → Returned k st (recycle st index d bs o bsize xs fresh)
  recycle-Returned fresh u = elim (Option-cases (touching_prev bs o)) [
    | inl ep ↦ elim (Option-cases (touching_next xs (o + bsize))) [
      | inl en ↦ case_alone fresh u ep en
      | inr (q, en) ↦ case_next fresh u q ep en
    ]
    | inr (p, ep) ↦ elim (Option-cases (touching_next xs (o + bsize))) [
      | inl en ↦ case_prev fresh u p ep en
      | inr (q, en) ↦ case_both fresh u p q ep en
    ]
  ]

  pub retire-Returned :
      (percent : ℕ) (mem : Bool)
      → d.deleted ≡ false
      → Returned k st (retire_block percent mem st index d bs bsize xs)
  unfolding retire_block
  retire-Returned percent mem alive =
      let badblock = d.badblock + bsize in
      let kicked = if ltb percent (badblock * 100 / d.capacity) then mem else false in
      let sum : (u : Segment → ℕ) → total u d.order ≡ total u bs + total u (item k o n ∷ xs) =
        λ u. old_total st v index d at bs (item k o n ∷ xs) whole u in
      let some_bytes = IsSectors-length n item-IsLength in
      dropped-Returned (record d { deleted = kicked; badblock = badblock; order = rev_onto bs xs })
        refl
        record {
          laid_out = dropped-Layout;
          small = d-Valid.small;
          fblocks = omega (arith, d-Valid.fblocks, sum a_block, total-rev_onto a_block bs xs);
          items = λ a b. absurd (omega (arith, b, some_bytes));
          bytes = λ a.
              omega (arith, d-Valid.bytes alive, sum item_bytes, total-rev_onto item_bytes bs xs);
        }

  pub forget-Returned : d.deleted ≡ true → Returned k st (forget_item st index d bs xs)
  unfolding forget_item
  forget-Returned gone =
      let sum : (u : Segment → ℕ) → total u d.order ≡ total u bs + total u (item k o n ∷ xs) =
        λ u. old_total st v index d at bs (item k o n ∷ xs) whole u in
      dropped-Returned (record d { order = rev_onto bs xs }) refl
        record {
          laid_out = dropped-Layout;
          small = d-Valid.small;
          fblocks = omega (arith, d-Valid.fblocks, sum a_block, total-rev_onto a_block bs xs);
          items = λ a b. cc (a, gone);
          bytes = λ a. cc (a, gone);
        }
