-- ===== src/Device/Tests.antt =====
-- Runs of the free blocks of device.c on a device of 8192 bytes, and the theorems at it.
use olivehc.Prelude.{◌≡◌, some, true, false, List, [], ◌∷◌, arith, refl}
use olivehc.SizeClass.{bit_highest, ipbucket_block_size, ipbucket_index}
use olivehc.Ipbucket.{ipbucket_update, Handle, ipbucket_init, ipbucket_add, ipbucket_get}
use olivehc.Ipbucket.Filed.{linked, init-Filed, add-Filed}
use olivehc.Ipbucket.Count.{linked-add}
use olivehc.Device.{free, item, Device, Store, block, device_get_free_block}
use olivehc.Device.Blocks.{StoreIsValid, size_of}
use olivehc.Device.Recycle.{device_return_free_block}
use olivehc.Device.Return.{ReturnOk, return_free_block-ReturnOk}
use olivehc.Device.Get.{get_free_block-GetOk}
use olivehc.Device.Taken.{GetOk}

abbrev small_device : Device
small_device = record {
  deleted = false;
  item_nr = 1;
  fblock_nr = 1;
  capacity = 8192;
  consumed = 1024;
  badblock = 0;
  order = free 1 0 4096 ∷ item 2 4096 1000 ∷ [];
}

abbrev one_device : List Device
one_device = small_device ∷ []

abbrev one_block : Store
one_block = record { free_blocks = ipbucket_add ipbucket_init 1 4096; devices = one_device }

linked_init : (h : Handle) → linked h ipbucket_init ≡ 0
unfolding ipbucket_init
linked_init h = refl

one_block-IsValid : StoreIsValid one_block
unfolding ipbucket_block_size bit_highest
one_block-IsValid = record {
  filed = add-Filed (size_of one_device) ipbucket_init 1 (omega arith) (init-Filed _);
  listed = λ h. ground (
    arith,
    linked_init h,
    linked-add ipbucket_init 1 4096 h (init-Filed (size_of one_device)).width,
  );
  once = λ h. ground arith;
  devices = (
    record {
      laid_out = (omega arith, (7, refl), (omega arith, (omega arith, omega arith), omega arith));
      small = omega arith;
      fblocks = refl;
      items = λ e b. refl;
      bytes = λ e. refl;
    },
    tt,
  );
}

get_free_block-GetOk_example : GetOk 3 2000 (device_get_free_block one_block 3 2000)
get_free_block-GetOk_example =
    get_free_block-GetOk one_block 3 2000 one_block-IsValid (omega arith, omega arith)

-- The rear 2048 bytes of the free block become the item's.
get_runs :
    device_get_free_block one_block 3 2000
    ≡ block 2048 0 2048 (record {
      free_blocks = ipbucket_add ipbucket_init 1 2048;
      devices =
          record small_device {
            item_nr = 2;
            consumed = 3072;
            order = free 1 0 2048 ∷ item 3 2048 2000 ∷ item 2 4096 1000 ∷ [];
          }
          ∷ [];
    })
unfolding device_get_free_block ipbucket_init ipbucket_add ipbucket_index ipbucket_block_size
    bit_highest ipbucket_get
get_runs = refl

-- Item 2 is returned: its block joins the free block before it.
return_free_block-ReturnOk_example :
    ReturnOk 2 one_block (device_return_free_block 1 true one_block 2 false (some 9))
return_free_block-ReturnOk_example =
    return_free_block-ReturnOk one_block 1 true false (some 9) 2 one_block-IsValid refl

return_runs :
    device_return_free_block 1 true one_block 2 false (some 9)
    ≡ some (
      1024,
      record {
        free_blocks = ipbucket_add ipbucket_init 1 5120;
        devices =
            record small_device { item_nr = 0; consumed = 0; order = free 1 0 5120 ∷ [] } ∷ [];
      },
    )
unfolding device_return_free_block ipbucket_init ipbucket_add ipbucket_update ipbucket_index
    ipbucket_block_size bit_highest
return_runs = refl
