-- ===== src/Format.antt =====
-- format.c: the items of a device that are stored on it at the end and loaded at the start. A
-- structure on the disk is a record; its words are what the checksum reads.
pub mod Checksum
pub mod Dump
pub mod Again
mod Tests
use olivehc.Prelude.{
  ℕ, zero, suc, ◌+◌, ◌*◌, ◌/◌, ◌%◌, ◌^◌, Bool, true, false, not, ◌||◌, Option, none, some, List, [],
  ◌∷◌, ◌++◌, ◌==◌, leb, ltb, if◌then◌else◌, length, get_or, set, replicate, drop,
}
use olivehc.Ipbucket.{Handle}
use olivehc.Server.{Blocks, Item, World, server_item_valid}
use olivehc.Server.Load.{FormatItem, server_load_fm_item}

abbrev pub ohc_fm_magic : ℕ
ohc_fm_magic = 2396838889328823375

abbrev pub ohc_fm_version : ℕ
ohc_fm_version = 1

abbrev pub ohc_fm_chs_feed : ℕ
ohc_fm_chs_feed = 6335169734438204517

-- `ohc_superblock_t`; the four bytes between the version and the checksum are not set.
pub record Superblock : Type 0 where
  pub magic : ℕ
  pub version : ℕ
  pub padding : ℕ
  pub checksum : ℕ
  pub item_nr : ℕ

-- `ohc_format_item_t`
pub record Entry : Type 0 where
  pub item : FormatItem
  pub server_index : ℕ

pub record DeviceFile : Type 0 where
  pub superblock : Superblock
  pub ports : List ℕ
  pub entries : List Entry

-- An element of `order_head`: a free block, or an item with its offset.
pub data Extent : Type 0 where
  free_extent : Extent
  item_extent : Item → ℕ → Extent

-- The exclusive or of the last bits of two numbers, as many as the first argument.
unfoldable pub xor : ℕ → ℕ → ℕ → ℕ
xor zero a b = 0
xor (suc w) a b = (a + b) % 2 + 2 * xor w (a / 2) (b / 2)

-- `checksum ^= p[i]`, for 64-bit words.
unfoldable pub checksum_from : ℕ → List ℕ → ℕ
unfolding xor
checksum_from checksum [] = checksum
checksum_from checksum (p ∷ ps) = checksum_from (xor 64 checksum p) ps

abbrev pub format_checksum : List ℕ → ℕ
format_checksum words = checksum_from 0 words

abbrev pub superblock_words : Superblock → List ℕ
superblock_words s = s.magic ∷ (s.version + 2 ^ 32 * s.padding) ∷ s.checksum ∷ s.item_nr ∷ []

-- Four ports of 16 bits make a word.
abbrev pub port_words : List ℕ → List ℕ
port_words (a ∷ b ∷ c ∷ d ∷ ps) = (a + 2 ^ 16 * b + 2 ^ 32 * c + 2 ^ 48 * d) ∷ port_words ps
port_words _ = []

-- Which of the calls on the file succeed; `written i` is the `fwrite` of an item after `i` others.
-- The superblock reaches the file as `fclose` flushes it, whose result the code does not read.
pub record StoreIo : Type 0 where
  pub opened : Bool
  pub ports_written : Bool
  pub written : ℕ → Bool
  pub superblock_written : Bool
  pub flushed : Bool
  pub padding : ℕ

pub record LoadIo : Type 0 where
  pub opened : Bool
  pub info_read : Bool
  pub seek_items : Bool
  pub magic_cleared : Bool

-- The items that are written, and whether all are.
abbrev pub with_entry : Entry → Bool × List Entry → Bool × List Entry
with_entry e (ok, es) = (ok, e ∷ es)

abbrev pub entry_of : Item → ℕ → Entry
entry_of item offset = record {
  item = record {
    id = item.id;
    offset = offset;
    length = item.length;
    expire = item.expire;
    headers_len = item.headers_len;
  };
  server_index = item.server_index;
}

-- The new entries stand over the old ones.
abbrev pub overlay : List Entry → List Entry → List Entry
overlay new old = new ++ drop (length new) old

-- `server_search_port`, over the ports and indexes of the servers.
unfoldable pub server_search_port : List (ℕ × ℕ) → ℕ → Option ℕ
server_search_port [] port = none
server_search_port ((p, i) ∷ ps) port =
    let rest = server_search_port ps port in if p == port then some i else rest

-- `disk_servers[i]`: not set, set to NULL, or a server. An entry that is passed over is `gone`.
pub data Slot : Type 0 where
  unset gone : Slot
  known : ℕ → Slot

unfoldable pub disk_server : List (ℕ × ℕ) → List ℕ → ℕ → Slot
unfolding server_search_port
disk_server servers ports i =
    if get_or ports i 0 == 0
    then unset
    else elim (server_search_port servers (get_or ports i 0)) [ none ↦ gone | some s ↦ known s ]

-- The loop of `server_dump_ports`.
unfoldable pub dump_ports : List (ℕ × ℕ) → List ℕ → List ℕ
dump_ports [] ports = ports
dump_ports ((port, i) ∷ ss) ports = dump_ports ss (set ports i port)

unfoldable pub server_dump_ports : List (ℕ × ℕ) → List ℕ
unfolding dump_ports
server_dump_ports servers = dump_ports servers (replicate 4096 0)

-- What becomes of an entry at a time.
unfoldable pub entry_slot : List (ℕ × ℕ) → List ℕ → ℕ → ℕ → Entry → Slot
unfolding disk_server
entry_slot servers ports override now e =
    if ltb e.item.offset override || leb e.item.expire now
    then gone
    else disk_server servers ports e.server_index

-- The offset behind `n` entries: `OHC_FM_INFO_SIZE` is 32 + 2 * 4096, an entry has 40 bytes.
abbrev pub override_of : ℕ → ℕ
override_of n = 8224 + n * 40

-- How the loop over the entries ends: the file is too short; a slot is read that was not set; or
-- all are read.
pub data Walk (D : Type 0) : Type 0 where
  cut_off astray through : World D → Walk D

-- How the loading ends: nothing is loaded; the loop does not end well; or all is loaded, and the
-- file is left.
pub data Loaded (D : Type 0) : Type 0 where
  rejected : Loaded D
  stopped : World D → Loaded D
  wild : World D → Loaded D
  loaded : World D → DeviceFile → Loaded D

-- The first bytes become "FeiLiWuShi".
abbrev pub clear_magic : DeviceFile → DeviceFile
clear_magic f = record f {
  superblock = record f.superblock {
    magic = 6013808987188323654;
    version = 26984 + 2 ^ 16 * (f.superblock.version / 2 ^ 16);
  };
}

module _ (b : Blocks) where
  -- The loop over the order list, with the count of the items before.
  unfoldable pub store_items :
      World b.D → (ℕ → Bool) → (ℕ → Bool) → List Extent → ℕ → Bool × List Entry
  store_items w dump written [] nr = (true, [])
  store_items w dump written (free_extent ∷ es) nr = store_items w dump written es nr
  store_items w dump written (item_extent item offset ∷ es) nr =
      let without = store_items w dump written es nr in
      let rest = store_items w dump written es (nr + 1) in
      if not (server_item_valid b w item)
      then without
      else if not (dump item.server_index)
      then without
      else if written nr
      then with_entry (entry_of item offset) rest
      else (false, [])

  -- `dump` is the setting `server_dump` of a server.
  unfoldable pub format_store_device :
      StoreIo → World b.D → (ℕ → Bool) → List ℕ → List Extent → DeviceFile → Bool × DeviceFile
  unfolding store_items checksum_from
  format_store_device io w dump ports order old =
      let stored = store_items w dump io.written order 0 in
      let entries = stored.1 in
      let file = record old { ports = ports; entries = overlay entries old.entries } in
      let superb : Superblock = record {
        magic = ohc_fm_magic;
        version = ohc_fm_version;
        padding = io.padding;
        checksum = 0;
        item_nr = length entries;
      } in
      let checksum =
        xor 64
          (xor 64 (xor 64 0 (format_checksum (superblock_words superb)))
            (format_checksum (port_words ports)))
          ohc_fm_chs_feed in
      if not io.opened || not io.ports_written
      then (false, old)
      else if not stored.0 || length entries == 0
      then (false, file)
      else if not io.superblock_written
      then (false, file)
      else (
        true,
        if io.flushed
            then record file { superblock = record superb { checksum = checksum } }
            else file,
      )

  -- The loop over the entries, as many as the superblock says. `fresh n` is what `slab_alloc` gives
  -- where `n` entries are left.
  unfoldable pub load_entries :
      Bool → (ℕ → Option Handle) → ℕ → (Entry → Slot) → ℕ → List Entry → World b.D → Walk b.D
  unfolding server_load_fm_item
  load_entries mem fresh device slot zero es w = through w
  load_entries mem fresh device slot (suc n) [] w = cut_off w
  load_entries mem fresh device slot (suc n) (e ∷ es) w = elim (slot e) [
    | unset ↦ astray w
    | gone ↦ load_entries mem fresh device slot n es w
    | known s ↦
        load_entries mem fresh device slot n es
          (server_load_fm_item b mem w s device e.item (fresh n)).1
  ]

  -- `device_load_post` is an argument, and so are the ports and indexes of the servers.
  unfoldable pub format_load_device :
      LoadIo
      → Bool
      → (ℕ → Option Handle)
      → (b.D → b.D)
      → ℕ
      → List (ℕ × ℕ)
      → DeviceFile
      → World b.D
      → Loaded b.D
  unfolding load_entries entry_slot checksum_from
  format_load_device io mem fresh device_load_post device servers file w =
      let s = file.superblock in
      let override = override_of s.item_nr in
      if not io.opened || not io.info_read
      then rejected
      else if not (s.magic == ohc_fm_magic) || not (s.version == ohc_fm_version)
      then rejected
      else if not (format_checksum (superblock_words s ++ port_words file.ports) == ohc_fm_chs_feed)
      then rejected
      else if not io.seek_items
      then rejected
      else elim (load_entries mem fresh device (entry_slot servers file.ports override w.now)
          s.item_nr file.entries w) [
            | cut_off w' ↦ stopped w'
            | astray w' ↦ wild w'
            | through w' ↦
                loaded (record w' { blocks = device_load_post w'.blocks })
                  (if io.magic_cleared then clear_magic file else file)
          ]
