-- ===== src/Device/Get.antt =====
-- `device_get_free_block` of device.c on a well-formed store: no "oops", no dangling handle, and
-- the store stays well formed.
use olivehc.Prelude.{
  ℕ, zero, suc, ◌≡◌, Bool, true, false, Option, none, some, List, length, arith, if◌then◌else◌,
  refl, subst,
}
use olivehc.Ipbucket.{Handle, Ipbucket, ipbucket_get}
use olivehc.Ipbucket.Filed.{Served, Serves, ipbucket_get-Served, IsBlockSize}
use olivehc.Device.{
  Segment, free, item, Device, Store, Place, is_free, find_device, GetResult, no_block, dangling,
  place_item, discard_block, get_round, get_rounds, device_get_free_block, loop_limit,
}
use olivehc.Device.Layout.{IsLength}
use olivehc.Device.Weight.{FoundOn, SoughtOn, find_device-SoughtOn}
use olivehc.Device.Blocks.{size_of, StoreIsValid}
use olivehc.Device.Taken.{GetOk, size_here, discard-IsValid, place-GetOk}

-- One round, where what follows the removal of a deleted device's block is right.
module _ (st : Store) (v : StoreIsValid st) (it length : ℕ) (short : IsLength length)
    (retry : Store → GetResult)
    (next : (s : Store) → StoreIsValid s → GetOk it length (retry s)) where
  on_segment :
      (h : Handle) (rest : Ipbucket)
      → Serves (size_of st.devices) length st.free_blocks (h, rest)
      → (index : ℕ) (d : Device) (bs xs : List Segment) (x : Segment)
      → FoundOn (is_free h) 0 st.devices (index, d, record { before = bs; here = x; after = xs })
      → let z : Place = record { before = bs; here = x; after = xs } in
        GetOk it length (
          if d.deleted
          then retry (discard_block st rest index d z)
          else place_item st rest index d z x it length)
  on_segment h rest s index d bs xs (item k o n) f = cc f.place.passes
  on_segment h rest s index d bs xs (free k o n) f =
      let e : h ≡ k = ground (arith, f.place.passes) in
      let s' = subst (λ t. Serves (size_of st.devices) length st.free_blocks (t, rest)) e s in
      let f' =
        subst
          (λ t.
            FoundOn (is_free t) 0 st.devices
              (index, d, record { before = bs; here = free k o n; after = xs }))
          e f in
      let here = size_here st v k o n rest bs xs index d s'.taken s'.rest f' in
      let dropped = discard-IsValid st v k o n rest bs xs index d s'.taken s'.rest f' in
      let placed = λ (alive : d.deleted ≡ false).
        place-GetOk st v k o n rest bs xs index d s'.taken s'.rest f' it length alive short
          (subst IsBlockSize here s'.sized) (omega (arith, here, s'.fits)) in
      by_deleted d.deleted _ _ (λ _. next _ dropped) placed refl
    where
      by_deleted :
          (b : Bool) (gone kept : GetResult)
          → (d.deleted ≡ true → GetOk it length gone)
          → (d.deleted ≡ false → GetOk it length kept)
          → d.deleted ≡ b
          → GetOk it length (if b then gone else kept)
      by_deleted true gone kept p q e = p e
      by_deleted false gone kept p q e = q e

  on_found :
      (h : Handle) (rest : Ipbucket)
      → Serves (size_of st.devices) length st.free_blocks (h, rest)
      → (o : Option (ℕ × Device × Place)) → SoughtOn (is_free h) 0 st.devices o
      → GetOk it length (elim o [
        | none ↦ dangling
        | some (index, d, z) ↦
            if d.deleted
            then retry (discard_block st rest index d z)
            else place_item st rest index d z z.here it length
      ])
  on_found h rest s none f = ground (arith, s.taken h, v.listed h)
  on_found h rest s (some (index, d, z)) f = on_segment h rest s index d z.before z.after z.here f

  round-GetOk : GetOk it length (get_round st it length retry)
  unfolding get_round
  round-GetOk =
      on_served (ipbucket_get st.free_blocks length)
        (ipbucket_get-Served (size_of st.devices) st.free_blocks length (omega arith) v.filed)
    where
      on_served :
          (o : Option (Handle × Ipbucket))
          → Served (size_of st.devices) length st.free_blocks o
          → GetOk it length (elim o [
            | none ↦ no_block st
            | some (h, rest) ↦ elim (find_device (is_free h) 0 st.devices) [
              | none ↦ dangling
              | some (index, d, z) ↦
                  if d.deleted
                  then retry (discard_block st rest index d z)
                  else place_item st rest index d z z.here it length
            ]
          ])
      on_served none s = v
      on_served (some (h, rest)) s =
          on_found h rest s (find_device (is_free h) 0 st.devices)
            (find_device-SoughtOn (is_free h) 0 st.devices)

rounds-GetOk :
    (tries : ℕ) (st : Store) (it length : ℕ)
    → StoreIsValid st
    → IsLength length
    → GetOk it length (get_rounds tries st it length)
unfolding get_rounds
rounds-GetOk zero st it length v short = round-GetOk st v it length short no_block (λ s w. w)
rounds-GetOk (suc tries) st it length v short =
    round-GetOk st v it length short (λ s. get_rounds tries s it length)
      (λ s w. rounds-GetOk tries s it length w short)

-- On a well-formed store (each device's order list laid out without overlap up to its capacity,
-- its counters right with bad blocks as consumed, each free block linked once and in the bucket
-- of its size), `device_get_free_block` of a length of 1 up to 2 ^ 32 - 1 bytes neither ends in
-- "oops!" nor meets a handle that no device has; it leaves a well-formed store, and where it
-- gives a block, that is the rounded length, on a device that is not deleted, where the item
-- now stands at the offset that is given.
pub get_free_block-GetOk :
    (st : Store) (it length : ℕ)
    → StoreIsValid st
    → IsLength length
    → GetOk it length (device_get_free_block st it length)
unfolding device_get_free_block
get_free_block-GetOk st it length v short = rounds-GetOk loop_limit st it length v short
