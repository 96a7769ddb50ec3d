-- ===== src/Format/Again.antt =====
-- format.c: a device is loaded as it was stored, or not at all.
use olivehc.Prelude.{
  ℕ, ◌+◌, ◌*◌, ◌≡◌, Bool, true, false, not, ◌||◌, Option, List, ◌++◌, ◌==◌, if◌then◌else◌, length,
  map, length-map, arith, refl, ap, sym, subst, ◌∙◌,
}
use olivehc.Ipbucket.{Handle}
use olivehc.Server.{Blocks, Item, World}
use olivehc.Format.{
  ohc_fm_magic, ohc_fm_version, ohc_fm_chs_feed, Superblock, Entry, DeviceFile, Extent, StoreIo,
  LoadIo, xor, format_checksum, superblock_words, port_words, entry_of, overlay, entry_slot,
  override_of, through, Loaded, rejected, loaded, clear_magic, store_items, format_store_device,
  load_entries, format_load_device,
}
use olivehc.Format.Checksum.{stored-checksum}
use olivehc.Format.Dump.{
  stored, last_case, dumped, store_items-dumped, Ported, reload, load_entries-reload,
}

-- No call on the file fails, but the last may.
pub record AllRead (io : LoadIo) : Type 0 where
  pub opened : io.opened ≡ true
  pub info_read : io.info_read ≡ true
  pub seek_items : io.seek_items ≡ true

-- The superblock without and with its checksum.
abbrev unsummed : ℕ → ℕ → Superblock
unsummed padding n = record {
  magic = ohc_fm_magic;
  version = ohc_fm_version;
  padding = padding;
  checksum = 0;
  item_nr = n;
}

abbrev summed : List ℕ → ℕ → ℕ → Superblock
summed ports padding n = record (unsummed padding n) {
  checksum =
      xor 64
        (xor 64 (xor 64 0 (format_checksum (superblock_words (unsummed padding n))))
          (format_checksum (port_words ports)))
        ohc_fm_chs_feed;
}

abbrev file_of : List ℕ → ℕ → List Entry → List Entry → DeviceFile
file_of ports padding entries old = record {
  superblock = summed ports padding (length entries);
  ports = ports;
  entries = overlay entries old;
}

written_of : (x y : Bool) → not x || y ≡ false → x ≡ true
written_of true y e = refl
written_of false y e = ground (arith, e)

module _ (b : Blocks) (mem : Bool) (fresh : ℕ → Option Handle) (load_post : b.D → b.D) (device : ℕ)
    (servers : List (ℕ × ℕ)) where
  -- What is loaded from a file with the right superblock.
  load-file :
      (io : LoadIo) (file : DeviceFile) (w v : World b.D)
      → AllRead io
      → file.superblock.magic ≡ ohc_fm_magic
      → file.superblock.version ≡ ohc_fm_version
      → format_checksum (superblock_words file.superblock ++ port_words file.ports)
        ≡ ohc_fm_chs_feed
      → load_entries b mem fresh device
          (entry_slot servers file.ports (override_of file.superblock.item_nr) w.now)
          file.superblock.item_nr
          file.entries
          w
        ≡ through v
      → format_load_device b io mem fresh load_post device servers file w
        ≡ loaded
            (record v { blocks = load_post v.blocks })
            (if io.magic_cleared then clear_magic file else file)
  unfolding format_load_device
  load-file io file w v all magic version sum walk =
      let m : (file.superblock.magic == ohc_fm_magic) ≡ true = ap (λ x. x == ohc_fm_magic) magic in
      let n : (file.superblock.version == ohc_fm_version) ≡ true =
        ap (λ x. x == ohc_fm_version) version in
      let s : (format_checksum (superblock_words file.superblock ++ port_words file.ports)
            == ohc_fm_chs_feed)
          ≡ true =
        ap (λ x. x == ohc_fm_chs_feed) sum in
      rw (all.opened, all.info_read, all.seek_items, m, n, s, walk, format_load_device) refl

  -- Where `format_store_device` returns `OHC_OK`, `fclose` has flushed the file, and the
  -- ports that are stored for the servers of the stored items are not 0, `format_load_device`
  -- of that file, if it can be read, accepts it and gives to `server_load_fm_item`, in order,
  -- just the items of the order list that, when they were stored, were of a device and a
  -- server that are not deleted, not cleared since, not expired and of a server with
  -- `server_dump`, whose offset is not below the end of the stored entries, which have not
  -- expired at the time of the loading, and on whose server's old port a server listens, the
  -- first such, each with its id, offset, length, expiry and length of headers, and for that
  -- server; then it calls `device_load_post`, and clears the magic or fails to.
  pub load-store :
      (io : StoreIo) (w : World b.D) (dump : ℕ → Bool) (ports : List ℕ) (order : List Extent)
      (old file : DeviceFile) (again : LoadIo) (v : World b.D)
      → format_store_device b io w dump ports order old ≡ (true, file)
      → io.flushed ≡ true
      → Ported ports (dumped b w dump order)
      → AllRead again
      → format_load_device b again mem fresh load_post device servers file v ≡ (
          let xs = dumped b w dump order in
          let u = reload b mem fresh device servers ports (8224 + length xs * 40) v.now xs v in
          loaded
            (record u { blocks = load_post u.blocks })
            (if again.magic_cleared then clear_magic file else file))
  unfolding format_store_device
  load-store io w dump ports order old file again v stored flushed ported all =
      subst
        (λ f.
          format_load_device b again mem fresh load_post device servers f v
          ≡ loaded (record u { blocks = load_post u.blocks })
              (if again.magic_cleared then clear_magic f else f))
        (sym (
          parts.1
          ∙ ap (λ t. if t then file_of ports io.padding es.1 old.entries else part) flushed
          ∙ ap (λ es. file_of ports io.padding es old.entries) entries_are))
        (load-file again (file_of ports io.padding (map (λ x. entry_of x.0 x.1) xs) old.entries) v u
          all refl refl
          (stored-checksum (unsummed io.padding (length (map (λ x. entry_of x.0 x.1) xs)))
            (port_words ports))
          (subst
            (λ n.
              load_entries b mem fresh device (entry_slot servers ports (override_of n) v.now) n
                (overlay (map (λ x. entry_of x.0 x.1) xs) old.entries) v
              ≡ through u)
            (sym (length-map xs (λ x. entry_of x.0 x.1)))
            (load_entries-reload b mem fresh device servers ports (8224 + length xs * 40) v.now xs _
              v ported)))
    where
      xs : List (Item × ℕ)
      xs = dumped b w dump order

      u : World b.D
      u = reload b mem fresh device servers ports (8224 + length xs * 40) v.now xs v

      es : Bool × List Entry
      es = store_items b w dump io.written order 0

      part : DeviceFile
      part = record old { ports = ports; entries = overlay es.1 old.entries }

      parts :
          (not es.0 || length es.1 == 0 ≡ false)
          × (file ≡ (if io.flushed then file_of ports io.padding es.1 old.entries else part))
      parts =
          last_case (not io.opened || not io.ports_written) (not es.0 || length es.1 == 0)
            (not io.superblock_written) old part
            (if io.flushed then file_of ports io.padding es.1 old.entries else part) file stored

      all_written : es.0 ≡ true
      all_written = written_of es.0 (length es.1 == 0) parts.0

      entries_are : es.1 ≡ map (λ x. entry_of x.0 x.1) xs
      entries_are = store_items-dumped b w dump io.written order 0 all_written

  -- A file whose magic is not the one of a dump is not loaded.
  load-other :
      (io : LoadIo) (file : DeviceFile) (v : World b.D)
      → (file.superblock.magic == ohc_fm_magic) ≡ false
      → format_load_device b io mem fresh load_post device servers file v ≡ rejected
  unfolding format_load_device
  load-other io file v e = rw (e, format_load_device) (on_test (not io.opened || not io.info_read))
    where
      on_test : (x : Bool) → ◌≡◌ {A = Loaded b.D} (if x then rejected else rejected) rejected
      on_test true = refl
      on_test false = refl

  -- Where the magic of a device's file was cleared by a loading, and `format_store_device` on
  -- it then fails at any of its calls, or has no item to store, nothing is loaded from the
  -- file.
  pub load-interrupted :
      (io : StoreIo) (w : World b.D) (dump : ℕ → Bool) (ports : List ℕ) (order : List Extent)
      (before file : DeviceFile) (again : LoadIo) (v : World b.D)
      → format_store_device b io w dump ports order (clear_magic before) ≡ (false, file)
      → format_load_device b again mem fresh load_post device servers file v ≡ rejected
  unfolding format_store_device
  load-interrupted io w dump ports order before file again v e =
      load-other again file v
        (ap (λ s. s.magic == ohc_fm_magic) (error_case x y z old part new file e refl))
    where
      es : Bool × List Entry
      es = store_items b w dump io.written order 0

      x : Bool
      x = not io.opened || not io.ports_written

      y : Bool
      y = not es.0 || length es.1 == 0

      z : Bool
      z = not io.superblock_written

      old : DeviceFile
      old = clear_magic before

      part : DeviceFile
      part = record old { ports = ports; entries = overlay es.1 old.entries }

      new : DeviceFile
      new = if io.flushed then file_of ports io.padding es.1 old.entries else part

      error_case :
          (x y z : Bool) (old part new f : DeviceFile)
          → stored x y z old part new ≡ (false, f)
          → part.superblock ≡ old.superblock
          → f.superblock ≡ old.superblock
      error_case true y z old part new f e s = sym (ap (λ p. p.1.superblock) e)
      error_case false true z old part new f e s = sym (ap (λ p. p.1.superblock) e) ∙ s
      error_case false false true old part new f e s = sym (ap (λ p. p.1.superblock) e) ∙ s
      error_case false false false old part new f e s = ground (arith, ap (λ p. p.0) e)
