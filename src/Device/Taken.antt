-- ===== src/Device/Taken.antt =====
-- A free block of device.c that `ipbucket_get` has taken from its bucket: what the branches of
-- `device_get_free_block` do with it.
use olivehc.Prelude.{
  ℕ, ◌+◌, ◌-◌, ◌≤◌, ◌<◌, ◌≡◌, true, false, some, List, ◌∷◌, set, get_elem?, length, arith,
  if◌then◌else◌, ◌==◌, ltb, Bool-cases, inl, inr, refl, ap, subst, sym, ◌∙◌, All-set, All-get_elem?,
  get_elem?-set_self,
}
use olivehc.SizeClass.{ipbucket_block_size}
use olivehc.SizeClass.Rounding.{block_size-sectors}
use olivehc.Ipbucket.{Handle, Ipbucket, ipbucket_add}
use olivehc.Ipbucket.Filed.{Filed, linked, IsBlockSize, add-Filed}
use olivehc.Ipbucket.Count.{linked-add}
use olivehc.Device.{
  Segment, free, item, Device, Store, Place, rev_onto, is_free, GetResult, no_block, block, oops,
  dangling, cut_rear, fit_exactly, place_item, discard_block,
}
use olivehc.Device.Layout.{
  Layout, IsSectors, IsLength, Layout-rev_onto, Layout-drop_free, Layout-fit, Layout-cut,
  Layout-IsSectors,
}
use olivehc.Device.Weight.{total, total_all, total_all-place, total-rev_onto, FoundOn, found_device}
use olivehc.Device.Blocks.{
  free_size, free_mark, a_block, an_item, item_bytes, DeviceIsValid, size_of, blocks_of,
  StoreIsValid, size_of_none, Filed-same,
}

-- The block that was handed out: the rounded length, on a device that is not deleted, where the
-- item now stands.
pub record Gives (it length bsize index offset : ℕ) (after : Store) : Type 0 where
  pub valid : StoreIsValid after
  pub size : bsize ≡ ipbucket_block_size length
  pub stands :
      (d : Device) × (before rest : List Segment) × (get_elem? after.devices index ≡ some d)
      × (d.deleted ≡ false)
      × (d.order ≡ rev_onto before (item it offset length ∷ rest))

abbrev pub GetOk : Handle → ℕ → GetResult → Type 0
GetOk it length (no_block after) = StoreIsValid after
GetOk it length (block bsize index offset after) = Gives it length bsize index offset after
GetOk it length oops = ⊥
GetOk it length dangling = ⊥

-- A free block that was taken from its bucket, and the place where it stands.
module _ (st : Store) (v : StoreIsValid st) (h offset size : ℕ) (rest : Ipbucket)
    (bs xs : List Segment) (index : ℕ) (d : Device)
    (taken : (x : Handle) → linked x st.free_blocks ≡ linked x rest + (if h == x then 1 else 0))
    (filed : Filed (size_of st.devices) rest)
    (f : FoundOn
      (is_free h)
      0
      st.devices
      (index, d, record { before = bs; here = free h offset size; after = xs })) where
  abbrev spot : ℕ × Device × Place
  spot = (index, d, record { before = bs; here = free h offset size; after = xs })

  d-IsValid : DeviceIsValid d
  d-IsValid = All-get_elem? DeviceIsValid st.devices index v.devices (found_device f)

  -- The block is taken from the list altogether.
  gone : linked h rest ≡ 0
  gone = ground (arith, taken h, v.listed h, v.once h)

  -- The totals of a store in which `new` stands in place of the block and what is behind it.
  swapped :
      (w : Segment → ℕ) (d' : Device) (new : List Segment)
      → d'.order ≡ rev_onto bs new
      → total_all w (set st.devices index d') + w (free h offset size) + total w xs
        ≡ total_all w st.devices + total w new
  swapped w d' new e = total_all-place w st.devices spot f d' new e

  whole_order : rev_onto bs (free h offset size ∷ xs) ≡ d.order
  whole_order = f.place.whole

  old_total :
      (w : Segment → ℕ) → total w d.order ≡ total w bs + (w (free h offset size) + total w xs)
  old_total w = sym (ap (total w) whole_order) ∙ total-rev_onto w bs (free h offset size ∷ xs)

  old-Layout : Layout 0 false (rev_onto bs (free h offset size ∷ xs)) d.capacity
  old-Layout = subst (λ t. Layout 0 false t d.capacity) (sym whole_order) d-IsValid.laid_out

  -- The size that the bucketed list knows is the one on the order list.
  pub size_here : size_of st.devices h ≡ size
  size_here =
      let d' : Device = record d { order = rev_onto bs xs } in
      let none_left : blocks_of (set st.devices index d') h ≡ 0 =
        ground (arith, swapped (free_mark h) d' xs refl, v.once h) in
      ground (
        arith,
        swapped (free_size h) d' xs refl,
        size_of_none h (set st.devices index d') none_left,
      )

  -- The block is gone, and `new` holds the free blocks that stood behind it.
  module _ (d' : Device) (new : List Segment) (e : d'.order ≡ rev_onto bs new)
      (marks : (x : Handle) → total (free_mark x) new ≡ total (free_mark x) xs)
      (sizes : (x : Handle) → total (free_size x) new ≡ total (free_size x) xs)
      (ok : DeviceIsValid d') where
    without : Store
    without = record { free_blocks = rest; devices = set st.devices index d' }

    without-IsValid : StoreIsValid without
    unfolding without
    without-IsValid = record {
      filed =
          Filed-same (size_of st.devices) (size_of (set st.devices index d')) rest
            (λ x l. ground (arith, swapped (free_size x) d' new e, sizes x, gone)) filed;
      listed = λ x. ground (arith, swapped (free_mark x) d' new e, marks x, taken x, v.listed x);
      once = λ x. ground (arith, swapped (free_mark x) d' new e, marks x, v.once x);
      devices = All-set DeviceIsValid st.devices index d' v.devices ok;
    }

  pub discard-IsValid : StoreIsValid (discard_block st rest index d spot.2)
  unfolding discard_block without
  discard-IsValid =
      let d' : Device = record d { fblock_nr = d.fblock_nr - 1; order = rev_onto bs xs } in
      without-IsValid d' xs refl (λ x. refl) (λ x. refl)
        record {
          laid_out =
              Layout-rev_onto bs (free h offset size ∷ xs) xs 0 false d.capacity
                (λ m g l. Layout-drop_free m g h offset size xs d.capacity l) old-Layout;
          small = d-IsValid.small;
          fblocks =
              omega (arith, d-IsValid.fblocks, old_total a_block, total-rev_onto a_block bs xs);
          items = λ a b.
              omega (arith, d-IsValid.items a b, old_total an_item, total-rev_onto an_item bs xs);
          bytes = λ a.
              omega
                (arith, d-IsValid.bytes a, old_total item_bytes, total-rev_onto item_bytes bs xs);
        }

  fit-Gives :
      (it length : ℕ)
      → d.deleted ≡ false
      → IsLength length
      → size ≡ ipbucket_block_size length
      → Gives it length
          (ipbucket_block_size length)
          index
          offset
          (fit_exactly st rest index d spot.2 offset (ipbucket_block_size length) it length)
  unfolding fit_exactly without
  fit-Gives it length alive short same =
      let bsize = ipbucket_block_size length in
      let new = item it offset length ∷ xs in
      let d' : Device = record d {
        item_nr = d.item_nr + 1;
        fblock_nr = d.fblock_nr - 1;
        consumed = d.consumed + bsize;
        order = rev_onto bs new;
      } in
      record {
        valid =
            without-IsValid d' new refl (λ x. omega arith) (λ x. omega arith)
              record {
                laid_out =
                    Layout-rev_onto bs (free h offset size ∷ xs) new 0 false d.capacity
                      (λ m g l. Layout-fit m g h offset size it length xs d.capacity short same l)
                      old-Layout;
                small = d-IsValid.small;
                fblocks =
                    omega
                      (arith, d-IsValid.fblocks, old_total a_block, total-rev_onto a_block bs new);
                items = λ a b.
                    omega (
                      arith,
                      d-IsValid.items a b,
                      old_total an_item,
                      total-rev_onto an_item bs new,
                    );
                bytes = λ a. omega (
                  arith,
                  d-IsValid.bytes a,
                  old_total item_bytes,
                  total-rev_onto item_bytes bs new,
                );
              };
        size = refl;
        stands = (d', bs, xs, get_elem?-set_self st.devices index d' (found_device f), alive, refl);
      }

  module _ (it length : ℕ) (alive : d.deleted ≡ false) (short : IsLength length)
      (larger : ipbucket_block_size length < size) (sized : IsBlockSize size) where
    abbrev bsize : ℕ
    bsize = ipbucket_block_size length

    IsSectors-left : IsSectors (size - bsize)
    IsSectors-left =
        let (c, e) = Layout-IsSectors bs h offset size xs 0 false d.capacity old-Layout in
        let (k, b) = block_size-sectors length (omega arith) in (c - k, omega arith)

    abbrev cut_segments : List Segment
    cut_segments = free h offset (size - bsize) ∷ item it (offset + size - bsize) length ∷ xs

    abbrev cut_device : Device
    cut_device = record d {
      item_nr = d.item_nr + 1;
      consumed = d.consumed + bsize;
      order = rev_onto bs cut_segments;
    }

    cut_device-IsValid : DeviceIsValid cut_device
    cut_device-IsValid = record {
      laid_out =
          Layout-rev_onto bs (free h offset size ∷ xs) cut_segments 0 false d.capacity
            (λ m g l.
              Layout-cut m g h offset size it length xs d.capacity short IsSectors-left larger l)
            old-Layout;
      small = d-IsValid.small;
      fblocks =
          omega
            (arith, d-IsValid.fblocks, old_total a_block, total-rev_onto a_block bs cut_segments);
      items = λ a b.
          omega
            (arith, d-IsValid.items a b, old_total an_item, total-rev_onto an_item bs cut_segments);
      bytes = λ a. omega (
        arith,
        d-IsValid.bytes a,
        old_total item_bytes,
        total-rev_onto item_bytes bs cut_segments,
      );
    }

    abbrev cut_devices : List Device
    cut_devices = set st.devices index cut_device

    cut_size : size_of cut_devices h ≡ size - bsize
    cut_size = ground (arith, swapped (free_size h) cut_device cut_segments refl, size_here)

    cut_marks : (x : Handle) → blocks_of cut_devices x ≡ blocks_of st.devices x
    cut_marks x = omega (arith, swapped (free_mark x) cut_device cut_segments refl)

    cut-Filed : Filed (size_of cut_devices) (ipbucket_add rest h (size - bsize))
    cut-Filed =
        let kept =
          Filed-same (size_of st.devices) (size_of cut_devices) rest
            (λ x l. ground (arith, swapped (free_size x) cut_device cut_segments refl, gone))
            filed in
        let fits : IsBlockSize (size_of cut_devices h) =
          ground (arith, IsSectors-left.1, cut_size) in
        subst (λ t. Filed (size_of cut_devices) (ipbucket_add rest h t)) cut_size
          (add-Filed (size_of cut_devices) rest h fits kept)

    cut-Gives :
        Gives it length bsize index
          (offset + size - bsize)
          (cut_rear st rest index d spot.2 h offset size bsize it length)
    unfolding cut_rear
    cut-Gives = record {
      valid = record {
        filed = cut-Filed;
        listed = λ x. omega (
          arith,
          linked-add rest h (size - bsize) x filed.width,
          cut_marks x,
          taken x,
          v.listed x,
        );
        once = λ x. omega (arith, cut_marks x, v.once x);
        devices = All-set DeviceIsValid st.devices index cut_device v.devices cut_device-IsValid;
      };
      size = refl;
      stands = (
        cut_device,
        free h offset (size - bsize) ∷ bs,
        xs,
        get_elem?-set_self st.devices index cut_device (found_device f),
        alive,
        refl,
      );
    }

  -- The three cases of `place_item`, of which the last is ruled out.
  pub place-GetOk :
      (it length : ℕ)
      → d.deleted ≡ false
      → IsLength length
      → IsBlockSize size
      → ipbucket_block_size length ≤ size
      → GetOk it length (place_item st rest index d spot.2 (free h offset size) it length)
  unfolding place_item
  place-GetOk it length alive short sized enough =
      elim (Bool-cases (ltb (ipbucket_block_size length) size)) [
        | inl l ↦ rw l (cut-Gives it length alive short (ground arith) sized)
        | inr l ↦
            let e : size ≡ ipbucket_block_size length = ground arith in
            let t : (size == ipbucket_block_size length) ≡ true = ground arith in
            rw (l, t) (fit-Gives it length alive short e)
      ]
