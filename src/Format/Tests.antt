-- ===== src/Format/Tests.antt =====
-- A device with two items, which is stored and loaded.
use olivehc.Prelude.{ℕ, ◌≡◌, Bool, true, false, some, List, [], ◌∷◌, refl}
use olivehc.Server.{server_item_valid}
use olivehc.Server.Sample.{pool, empty, an_item}
use olivehc.Format.{
  DeviceFile, Extent, free_extent, item_extent, StoreIo, LoadIo, clear_magic, rejected, loaded,
  format_store_device, format_load_device,
}
use olivehc.Format.Dump.{dumped, reload}
use olivehc.Format.Again.{load-store, load-interrupted}

abbrev blank : DeviceFile
blank = record {
  superblock = record { magic = 7; version = 0; padding = 0; checksum = 0; item_nr = 0 };
  ports = [];
  entries = [];
}

abbrev all_stored : StoreIo
all_stored = record {
  opened = true;
  ports_written = true;
  written = λ i. true;
  superblock_written = true;
  flushed = true;
  padding = 99;
}

abbrev all_loaded : LoadIo
all_loaded = record { opened = true; info_read = true; seek_items = true; magic_cleared = true }

-- The server 0 listens on port 80; the second item has expired.
abbrev ports : List ℕ
ports = 80 ∷ 0 ∷ 0 ∷ 0 ∷ []

abbrev order : List Extent
order =
    item_extent an_item 9000
    ∷ free_extent
    ∷ item_extent (record an_item { handle = 8; expire = 10 }) 10000
    ∷ []

abbrev dump_file : Bool × DeviceFile
dump_file = format_store_device pool all_stored empty (λ i. true) ports order blank

stored_ok : dump_file.0 ≡ true
unfolding format_store_device server_item_valid
stored_ok = refl

load-store_example :
    format_load_device pool all_loaded true
      (λ i. some 9)
      (λ d. d)
      0
      ((80, 3) ∷ [])
      dump_file.1
      empty
    ≡ loaded
        (reload pool true
          (λ i. some 9)
          0
          ((80, 3) ∷ [])
          ports
          8264
          1000
          (dumped pool empty (λ i. true) order)
          empty)
        (clear_magic dump_file.1)
unfolding format_store_device server_item_valid
load-store_example =
    load-store pool true (λ i. some 9) (λ d. d) 0 ((80, 3) ∷ []) all_stored empty (λ i. true) ports
      order blank dump_file.1 all_loaded empty refl refl (refl, tt)
      record { opened = refl; info_read = refl; seek_items = refl }

-- The last write fails.
abbrev last_fails : StoreIo
last_fails = record all_stored { superblock_written = false }

load-interrupted_example :
    format_load_device pool all_loaded true
      (λ i. some 9)
      (λ d. d)
      0
      ((80, 3) ∷ [])
      (format_store_device pool last_fails empty (λ i. true) ports order (clear_magic blank)).1
      empty
    ≡ rejected
unfolding format_store_device server_item_valid
load-interrupted_example =
    load-interrupted pool true (λ i. some 9) (λ d. d) 0 ((80, 3) ∷ []) last_fails empty (λ i. true)
      ports order blank
      (format_store_device pool last_fails empty (λ i. true) ports order (clear_magic blank)).1
      all_loaded empty refl
