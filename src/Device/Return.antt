-- ===== src/Device/Return.antt =====
-- `device_return_free_block` of device.c on a well-formed store: the item is gone, and the store
-- stays well formed.
use olivehc.Prelude.{
  ℕ, ◌≡◌, Bool, true, false, Option, none, some, List, ◌∷◌, get_elem?, arith, if◌then◌else◌, refl,
  ap, subst, sym, ◌∙◌,
}
use olivehc.SizeClass.{ipbucket_block_size}
use olivehc.Ipbucket.{Handle}
use olivehc.Device.{Segment, free, item, Device, Store, Place, rev_onto, is_item, find_device}
use olivehc.Device.Weight.{total_all, FoundOn, SoughtOn, find_device-SoughtOn, found_device}
use olivehc.Device.Blocks.{StoreIsValid}
use olivehc.Device.Recycle.{recycle, retire_block, forget_item, return_at, device_return_free_block}
use olivehc.Device.Branches.{
  item_mark, Returned, IsFresh, recycle-Returned, retire-Returned, forget-Returned,
}

-- What `device_return_free_block` gives: nothing, where no device has the item, or the size of
-- the block at which an item with the handle stood, and the store without it.
abbrev pub ReturnOk : Handle → Store → Option (ℕ × Store) → Type 0
ReturnOk it st none = total_all (item_mark it) st.devices ≡ 0
ReturnOk it st (some (bsize, after)) =
    Returned it st after
    × ((d : Device) × (index : ℕ) × (before rest : List Segment) × (offset length : ℕ) × (get_elem?
            st.devices index
          ≡ some d)
        × (d.order ≡ rev_onto before (item it offset length ∷ rest))
        × (bsize ≡ ipbucket_block_size length))

renamed : {st : Store} {k it : Handle} → k ≡ it → (s : Store) → Returned k st s → Returned it st s
renamed {st} e s r = subst (λ t. Returned t st s) e r

module _ (st : Store) (v : StoreIsValid st) (percent : ℕ) (mem bad : Bool) (fresh : Option Handle)
    (u : IsFresh st fresh) where
  on_segment :
      (it : Handle) (index : ℕ) (d : Device) (bs xs : List Segment) (x : Segment)
      → FoundOn (is_item it) 0 st.devices (index, d, record { before = bs; here = x; after = xs })
      → ReturnOk it st (
          return_at percent mem st bad fresh index d
            (record { before = bs; here = x; after = xs })
            x)
  unfolding return_at
  on_segment it index d bs xs (free k o n) f = cc f.place.passes
  on_segment it index d bs xs (item k o n) f =
      let e : k ≡ it = ground (arith, f.place.passes) in
      let at = found_device f in
      let w : rev_onto bs (item k o n ∷ xs) ≡ d.order = f.place.whole in
      (
        renamed e _ (by_flags d.deleted refl bad at w),
        (d, index, bs, xs, o, n, at, sym w ∙ ap (λ t. rev_onto bs (item t o n ∷ xs)) e, refl),
      )
    where
      by_flags :
          (gone : Bool)
          → d.deleted ≡ gone
          → (b : Bool) → get_elem? st.devices index ≡ some d
          → rev_onto bs (item k o n ∷ xs) ≡ d.order
          → Returned k st (
              if gone
              then forget_item st index d bs xs
              else if b
              then retire_block percent mem st index d bs (ipbucket_block_size n) xs
              else recycle st index d bs o (ipbucket_block_size n) xs fresh)
      by_flags true e b at w = forget-Returned st v index d at bs xs k o n w e
      by_flags false e true at w = retire-Returned st v index d at bs xs k o n w percent mem e
      by_flags false e false at w = recycle-Returned st v index d at bs xs k o n w fresh u

-- On a well-formed store, where the handle for a new block is not in use,
-- `device_return_free_block` of an item gives nothing only where no device has the item; else
-- it gives the rounded length of an item with that handle on some device, takes that item and
-- no other off the order lists, and leaves a well-formed store, in which no two free blocks
-- touch, whether the block is merged with the free block before it, with the one behind it,
-- with both or with none, the device is deleted, the block is bad, or memory is missing.
pub return_free_block-ReturnOk :
    (st : Store) (percent : ℕ) (mem bad : Bool) (fresh : Option Handle) (it : Handle)
    → StoreIsValid st
    → IsFresh st fresh
    → ReturnOk it st (device_return_free_block percent mem st it bad fresh)
unfolding device_return_free_block
return_free_block-ReturnOk st percent mem bad fresh it v u =
    on_found (find_device (is_item it) 0 st.devices)
      (find_device-SoughtOn (is_item it) 0 st.devices)
  where
    on_found :
        (o : Option (ℕ × Device × Place))
        → SoughtOn (is_item it) 0 st.devices o
        → ReturnOk it st (elim o [
          | none ↦ none
          | some (index, d, z) ↦ return_at percent mem st bad fresh index d z z.here
        ])
    on_found none s = s
    on_found (some (index, d, z)) s =
        on_segment st v percent mem bad fresh u it index d z.before z.after z.here s
