-- ===== src/Device/Recycle.antt =====
-- `device_return_free_block` of device.c: the block of an item that is deleted is merged with the
-- free blocks that touch it.
use olivehc.Prelude.{
  ℕ, ◌+◌, ◌-◌, ◌*◌, ◌/◌, Bool, false, Option, none, some, List, [], ◌∷◌, set, ltb, ◌==◌,
  if◌then◌else◌,
}
use olivehc.SizeClass.{ipbucket_block_size}
use olivehc.Ipbucket.{Handle, Ipbucket, ipbucket_add, ipbucket_del, ipbucket_update}
use olivehc.Device.{Segment, free, item, Device, Store, Place, rev_onto, is_item, find_device}

-- `forward`: the segment before is a free block that ends at `offset`. The block that is given
-- is its handle, offset and size, with the segments further before.
pub record Block : Type 0 where
  pub handle : Handle
  pub offset : ℕ
  pub size : ℕ
  pub beyond : List Segment

unfoldable pub touching_prev : List Segment → ℕ → Option Block
touching_prev [] offset = none
touching_prev (item k o n ∷ bs) offset = none
touching_prev (free k o s ∷ bs) offset =
    if o + s == offset
    then some (record { handle = k; offset = o; size = s; beyond = bs })
    else none

-- `backward`: the segment behind is a free block that begins at `end`.
unfoldable pub touching_next : List Segment → ℕ → Option Block
touching_next [] end = none
touching_next (item k o n ∷ xs) end = none
touching_next (free k o s ∷ xs) end =
    if o == end then some (record { handle = k; offset = o; size = s; beyond = xs }) else none

-- What the four branches do to the order list, the bucketed list and the number of free blocks.
pub record Merged : Type 0 where
  pub order : List Segment
  pub blocks : Ipbucket
  pub fblock_nr : ℕ

-- `fresh` is the handle that `slab_alloc` gives, if it does, for a block of its own.
unfoldable pub merge :
    Option Block
    → Option Block
    → Ipbucket
    → ℕ
    → List Segment
    → ℕ
    → ℕ
    → List Segment
    → Option Handle
    → Merged
merge (some p) (some n) blocks nr before offset bsize after fresh = record {
  order = rev_onto p.beyond (free p.handle p.offset (p.size + (bsize + n.size)) ∷ n.beyond);
  blocks = ipbucket_del (ipbucket_update blocks p.handle (p.size + (bsize + n.size))) n.handle;
  fblock_nr = nr - 1;
}
merge (some p) none blocks nr before offset bsize after fresh = record {
  order = rev_onto p.beyond (free p.handle p.offset (p.size + bsize) ∷ after);
  blocks = ipbucket_update blocks p.handle (p.size + bsize);
  fblock_nr = nr;
}
merge none (some n) blocks nr before offset bsize after fresh = record {
  order = rev_onto before (free n.handle (n.offset - bsize) (n.size + bsize) ∷ n.beyond);
  blocks = ipbucket_update blocks n.handle (n.size + bsize);
  fblock_nr = nr;
}
merge none none blocks nr before offset bsize after (some h) = record {
  order = rev_onto before (free h offset bsize ∷ after);
  blocks = ipbucket_add blocks h bsize;
  fblock_nr = nr + 1;
}
merge none none blocks nr before offset bsize after none = record {
  order = rev_onto before after;
  blocks = blocks;
  fblock_nr = nr;
}

-- The part from "ok, now recycle the item's block" on.
unfoldable pub recycle :
    Store → ℕ → Device → List Segment → ℕ → ℕ → List Segment → Option Handle → Store
unfolding merge touching_prev touching_next
recycle st index d before offset bsize after fresh =
    let m =
      merge (touching_prev before offset) (touching_next after (offset + bsize)) st.free_blocks
        d.fblock_nr before offset bsize after fresh in
    record {
      free_blocks = m.blocks;
      devices = set st.devices index (record d {
        item_nr = d.item_nr - 1;
        fblock_nr = m.fblock_nr;
        consumed = d.consumed - bsize;
        order = m.order;
      });
    }

-- A bad block is not used again, and one too many of them kicks the device. Of `device_kick`
-- this is what becomes of the device itself; `mem` says whether `malloc` finds memory for the
-- copy that stays for the status report.
unfoldable pub retire_block :
    ℕ → Bool → Store → ℕ → Device → List Segment → ℕ → List Segment → Store
retire_block percent mem st index d before bsize after =
    let badblock = d.badblock + bsize in
    let kicked = if ltb percent (badblock * 100 / d.capacity) then mem else false in
    record st {
      devices =
          set st.devices index
            (record d { deleted = kicked; badblock = badblock; order = rev_onto before after });
    }

-- The item of a deleted device just leaves the list.
unfoldable pub forget_item : Store → ℕ → Device → List Segment → List Segment → Store
forget_item st index d before after = record st {
  devices = set st.devices index (record d { order = rev_onto before after });
}

unfoldable pub return_at :
    ℕ → Bool → Store → Bool → Option Handle → ℕ → Device → Place → Segment → Option (ℕ × Store)
unfolding recycle retire_block forget_item
return_at percent mem st bad fresh index d z (free k o s) = none
return_at percent mem st bad fresh index d z (item k offset length) =
    let bsize = ipbucket_block_size length in
    some (
      bsize,
      if d.deleted
          then forget_item st index d z.before z.after
          else if bad
          then retire_block percent mem st index d z.before bsize z.after
          else recycle st index d z.before offset bsize z.after fresh,
    )

-- The item by its handle; `none` where no device has it.
unfoldable pub device_return_free_block :
    ℕ → Bool → Store → Handle → Bool → Option Handle → Option (ℕ × Store)
unfolding return_at find_device
device_return_free_block percent mem st it bad fresh =
    elim (find_device (is_item it) 0 st.devices) [
      | none ↦ none
      | some (index, d, z) ↦ return_at percent mem st bad fresh index d z z.here
    ]
