-- ===== src/Device.antt =====
-- The free blocks of device.c: the order list of each device and the global bucketed free list.
-- An order list holds free blocks and items by increasing offset. The `device_index` of a block
-- or item is the index of the device on whose order list it stands, so that `device_of_fblock`
-- and `device_of_item` search for the handle.
pub mod Layout
pub mod Weight
pub mod Blocks
pub mod Taken
pub mod Get
pub mod Recycle
pub mod Merge
pub mod Rear
pub mod Branches
pub mod Return
mod Tests
use olivehc.Prelude.{
  ℕ, zero, suc, ◌+◌, ◌-◌, ◌*◌, ◌/◌, Bool, true, false, Option, none, some, List, [], ◌∷◌, set, leb,
  ltb, ◌==◌, if◌then◌else◌, ◌&&◌,
}
use olivehc.SizeClass.{ipbucket_block_size}
use olivehc.Ipbucket.{Handle, Ipbucket, ipbucket_add, ipbucket_del, ipbucket_update, ipbucket_get}

-- `ohc_free_block_t` (handle, offset, block size) and, of `ohc_item_t`, what an order list
-- shows of an item (handle, offset, length).
pub data Segment : Type 0 where
  free : Handle → ℕ → ℕ → Segment
  item : Handle → ℕ → ℕ → Segment

-- `ohc_device_s`, as far as the blocks go.
pub record Device : Type 0 where
  pub deleted : Bool
  pub item_nr : ℕ
  pub fblock_nr : ℕ
  pub capacity : ℕ
  pub consumed : ℕ
  pub badblock : ℕ
  pub order : List Segment

-- The module's variables `free_blocks` and, by index, the devices.
pub record Store : Type 0 where
  pub free_blocks : Ipbucket
  pub devices : List Device

abbrev pub loop_limit : ℕ
loop_limit = 1000

abbrev pub is_free : Handle → Segment → Bool
is_free h (free k offset size) = k == h
is_free h (item k offset length) = false

abbrev pub is_item : Handle → Segment → Bool
is_item h (free k offset size) = false
is_item h (item k offset length) = k == h

-- A place on an order list: what stands before it, from the nearest on, and after it.
pub record Place : Type 0 where
  pub before : List Segment
  pub here : Segment
  pub after : List Segment

-- The list whose part before a place is given from the nearest on.
abbrev pub rev_onto : List Segment → List Segment → List Segment
rev_onto [] xs = xs
rev_onto (b ∷ bs) xs = rev_onto bs (b ∷ xs)

unfoldable pub find_segment : (Segment → Bool) → List Segment → List Segment → Option Place
find_segment p before [] = none
find_segment p before (x ∷ xs) =
    if p x
    then some (record { before = before; here = x; after = xs })
    else find_segment p (x ∷ before) xs

-- The device, with its index, and the place of the segment with a handle.
unfoldable pub find_device : (Segment → Bool) → ℕ → List Device → Option (ℕ × Device × Place)
unfolding find_segment
find_device p index [] = none
find_device p index (d ∷ ds) = elim (find_segment p [] d.order) [
  | some z ↦ some (index, d, z)
  | none ↦ find_device p (suc index) ds
]

-- How `device_get_free_block` ends: no block (the result 0); a block of a size, on a device, at
-- an offset; `exit(1)` after "oops!"; or a handle that no device has.
pub data GetResult : Type 0 where
  no_block : Store → GetResult
  block : ℕ → ℕ → ℕ → Store → GetResult
  oops : GetResult
  dangling : GetResult

-- The block is larger than needed, and the rear of it is cut off.
unfoldable pub cut_rear :
    Store → Ipbucket → ℕ → Device → Place → Handle → ℕ → ℕ → ℕ → Handle → ℕ → Store
cut_rear st rest index d z h offset size bsize it length = record {
  free_blocks = ipbucket_add rest h (size - bsize);
  devices = set st.devices index (record d {
    item_nr = d.item_nr + 1;
    consumed = d.consumed + bsize;
    order =
        rev_onto z.before
          (free h offset (size - bsize) ∷ item it (offset + size - bsize) length ∷ z.after);
  });
}

-- The block fits exactly: the item takes its place, and the block is deleted.
unfoldable pub fit_exactly : Store → Ipbucket → ℕ → Device → Place → ℕ → ℕ → Handle → ℕ → Store
fit_exactly st rest index d z offset bsize it length = record {
  free_blocks = rest;
  devices = set st.devices index (record d {
    item_nr = d.item_nr + 1;
    fblock_nr = d.fblock_nr - 1;
    consumed = d.consumed + bsize;
    order = rev_onto z.before (item it offset length ∷ z.after);
  });
}

-- The part of `device_get_free_block` on the block that was found.
unfoldable pub place_item : Store → Ipbucket → ℕ → Device → Place → Segment → Handle → ℕ → GetResult
unfolding cut_rear fit_exactly
place_item st rest index d z (item k offset len) it length = dangling
place_item st rest index d z (free h offset size) it length =
    let bsize = ipbucket_block_size length in
    if ltb bsize size
    then block bsize index (offset + size - bsize)
        (cut_rear st rest index d z h offset size bsize it length)
    else if size == bsize
    then block bsize index offset (fit_exactly st rest index d z offset bsize it length)
    else oops

-- `device_fblock_delete` of a block that was just taken from its bucket, so that its
-- `ipbucket_del` does nothing.
unfoldable pub discard_block : Store → Ipbucket → ℕ → Device → Place → Store
discard_block st rest index d z = record {
  free_blocks = rest;
  devices =
      set st.devices index
        (record d { fblock_nr = d.fblock_nr - 1; order = rev_onto z.before z.after });
}

-- One round from `try_again` on; `retry` is what follows the removal of a deleted device's block.
unfoldable pub get_round : Store → Handle → ℕ → (Store → GetResult) → GetResult
unfolding place_item discard_block find_device
get_round st it length retry = elim (ipbucket_get st.free_blocks length) [
  | none ↦ no_block st
  | some (h, rest) ↦ elim (find_device (is_free h) 0 st.devices) [
    | none ↦ dangling
    | some (index, d, z) ↦
        if d.deleted
        then retry (discard_block st rest index d z)
        else place_item st rest index d z z.here it length
  ]
]

-- `device_get_free_block` with `tries` more rounds allowed.
unfoldable pub get_rounds : ℕ → Store → Handle → ℕ → GetResult
unfolding get_round
get_rounds zero st it length = get_round st it length no_block
get_rounds (suc tries) st it length = get_round st it length (λ s. get_rounds tries s it length)

unfoldable pub device_get_free_block : Store → Handle → ℕ → GetResult
unfolding get_rounds
device_get_free_block st it length = get_rounds loop_limit st it length
