-- ===== src/Device/Blocks.antt =====
-- When a store of device.c is well formed: each device's list is laid out, its counters are
-- right, and the bucketed list links each free block once, in the bucket of its size.
use olivehc.Prelude.{
  ◌+◌, ℕ, suc, ◌≤◌, ◌<◌, ◌≡◌, false, some, List, [], ◌∷◌, length, arith, to_nat, if◌then◌else◌,
  ◌==◌, refl, subst, All,
}
use olivehc.SizeClass.{ipbucket_block_size, ipbucket_index}
use olivehc.Ipbucket.{Handle, Ipbucket}
use olivehc.Ipbucket.Filed.{IsBlockSize, Filed, FiledFrom, linked, occurrences, Belongs}
use olivehc.Device.{Segment, free, item, Device, Store, is_free}
use olivehc.Device.Layout.{Layout}
use olivehc.Device.Weight.{total, total_all}

-- The size of the free block with a handle; 0 for any other segment.
abbrev pub free_size : Handle → Segment → ℕ
free_size h (free k offset size) = if k == h then size else 0
free_size h (item k offset length) = 0

abbrev pub free_mark : Handle → Segment → ℕ
free_mark h x = to_nat (is_free h x)

abbrev pub a_block : Segment → ℕ
a_block (free k offset size) = 1
a_block (item k offset length) = 0

abbrev pub an_item : Segment → ℕ
an_item (free k offset size) = 0
an_item (item k offset length) = 1

-- The bytes that an item takes.
abbrev pub item_bytes : Segment → ℕ
item_bytes (free k offset size) = 0
item_bytes (item k offset length) = ipbucket_block_size length

-- `sendfile` supports no more than this.
abbrev pub max_capacity : ℕ
max_capacity = 0x4020010000

-- A bad block that an item returned stays in `consumed`; the number of items is right as long as
-- there is none.
pub record DeviceIsValid (d : Device) : Type 0 where
  pub laid_out : Layout 0 false d.order d.capacity
  pub small : d.capacity ≤ max_capacity
  pub fblocks : d.fblock_nr ≡ total a_block d.order
  pub items : d.deleted ≡ false → d.badblock ≡ 0 → d.item_nr ≡ total an_item d.order
  pub bytes : d.deleted ≡ false → d.consumed ≡ total item_bytes d.order + d.badblock

-- The size of the free block with a handle, over all devices.
abbrev pub size_of : List Device → Handle → ℕ
size_of ds h = total_all (free_size h) ds

abbrev pub blocks_of : List Device → Handle → ℕ
blocks_of ds h = total_all (free_mark h) ds

pub record StoreIsValid (st : Store) : Type 0 where
  pub filed : Filed (size_of st.devices) st.free_blocks
  pub listed : (h : Handle) → linked h st.free_blocks ≡ blocks_of st.devices h
  pub once : (h : Handle) → blocks_of st.devices h ≤ 1
  pub devices : All DeviceIsValid st.devices

-- A handle that no free block has has the size 0.
pub size_none :
    (h : Handle) (xs : List Segment) → total (free_mark h) xs ≡ 0 → total (free_size h) xs ≡ 0
size_none h [] e = refl
size_none h (free k o s ∷ xs) e = ground (arith, size_none h xs)
size_none h (item k o n ∷ xs) e = omega (arith, size_none h xs (omega (arith, e)))

pub size_of_none : (h : Handle) (ds : List Device) → blocks_of ds h ≡ 0 → size_of ds h ≡ 0
size_of_none h [] e = refl
size_of_none h (d ∷ ds) e =
    omega (arith, size_none h d.order (omega arith), size_of_none h ds (omega arith))

-- A list of which the sizes of all linked blocks are the same under two readings.
module _ (f g : Handle → ℕ) where
  queue_same :
      (j : ℕ) (q : List Handle)
      → ((x : Handle) → 0 < occurrences x q → f x ≡ g x)
      → All (Belongs f j) q
      → All (Belongs g j) q
  queue_same j [] e a = tt
  queue_same j (h ∷ q) e a =
      let s : f h ≡ g h = e h (ground arith) in
      (
        subst (λ t. IsBlockSize t × (ipbucket_index t false ≡ some j)) s a.0,
        queue_same j q (λ x l. e x (omega (arith, l))) a.1,
      )

  FiledFrom-same :
      (j : ℕ) (qs : Ipbucket)
      → ((x : Handle) → 0 < linked x qs → f x ≡ g x)
      → FiledFrom f j qs
      → FiledFrom g j qs
  FiledFrom-same j [] e a = tt
  FiledFrom-same j (q ∷ qs) e a = (
    queue_same j q (λ x l. e x (omega (arith, l))) a.0,
    FiledFrom-same (suc j) qs (λ x l. e x (omega (arith, l))) a.1,
  )

  pub Filed-same :
      (ipb : Ipbucket) → ((x : Handle) → 0 < linked x ipb → f x ≡ g x) → Filed f ipb → Filed g ipb
  Filed-same ipb e v = record { width = v.width; filed = FiledFrom-same 0 ipb e v.filed }
