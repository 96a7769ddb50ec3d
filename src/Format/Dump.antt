-- ===== src/Format/Dump.antt =====
-- format.c: what was stored on a device is what is loaded from it.
use olivehc.Prelude.{
  ℕ, ◌+◌, ◌≡◌, subst, Bool, true, false, not, ◌&&◌, ◌||◌, Option, none, some, List, [], ◌∷◌, ◌++◌,
  ◌==◌, leb, ltb, if◌then◌else◌, length, get_or, map, arith, refl, ap, sym, ◌∙◌,
}
use olivehc.Ipbucket.{Handle}
use olivehc.Server.{Blocks, Item, World, server_item_valid}
use olivehc.Server.Load.{server_load_fm_item}
use olivehc.Format.{
  Entry, DeviceFile, Extent, free_extent, item_extent, with_entry, entry_of, server_search_port,
  Slot, unset, gone, known, disk_server, entry_slot, Walk, through, store_items, load_entries,
}

abbrev pub stored : Bool → Bool → Bool → DeviceFile → DeviceFile → DeviceFile → Bool × DeviceFile
stored x y z old file new =
    if x
    then (false, old)
    else if y
    then (false, file)
    else if z
    then (false, file)
    else (true, new)

-- Of three tests that lead to an error, none holds where the result is no error.
pub last_case :
    (x y z : Bool) (old file new f : DeviceFile)
    → stored x y z old file new ≡ (true, f)
    → (y ≡ false) × (f ≡ new)
last_case true y z old file new f e = ground (arith, ap (λ p. p.0) e)
last_case false true z old file new f e = ground (arith, ap (λ p. p.0) e)
last_case false false true old file new f e = ground (arith, ap (λ p. p.0) e)
last_case false false false old file new f e = (refl, sym (ap (λ p. p.1) e))

module _ (b : Blocks) (w : World b.D) (dump : ℕ → Bool) where
  -- An item that is stored: of a device and a server that are not deleted, not cleared since it was
  -- put, not expired, and of a server that is dumped.
  abbrev pub is_dumped : Item → Bool
  is_dumped item =
      (not (b.device_deleted w.blocks item.handle)
        && not (w.servers item.server_index).deleted
        && item.clear == (w.servers item.server_index).clear
        && ltb w.now item.expire)
      && dump item.server_index

  -- These items, with their offsets.
  abbrev pub dumped : List Extent → List (Item × ℕ)
  dumped [] = []
  dumped (free_extent ∷ es) = dumped es
  dumped (item_extent item offset ∷ es) =
      let rest = dumped es in if is_dumped item then (item, offset) ∷ rest else rest

  abbrev entry_at : Item × ℕ → Entry
  entry_at (item, offset) = entry_of item offset

  pub store_items-dumped :
      (written : ℕ → Bool) (es : List Extent) (nr : ℕ)
      → (store_items b w dump written es nr).0 ≡ true
      → (store_items b w dump written es nr).1 ≡ map entry_at (dumped es)
  unfolding store_items server_item_valid
  store_items-dumped written [] nr ok = refl
  store_items-dumped written (free_extent ∷ es) nr ok = store_items-dumped written es nr ok
  store_items-dumped written (item_extent item offset ∷ es) nr ok =
      on_tests (server_item_valid b w item) (dump item.server_index) (written nr)
        (store_items-dumped written es nr) (store_items-dumped written es (nr + 1)) ok
    where
      at : (x y z : Bool) → Bool × List Entry
      at x y z =
          if not x
          then store_items b w dump written es nr
          else if not y
          then store_items b w dump written es nr
          else if z
          then with_entry (entry_of item offset) (store_items b w dump written es (nr + 1))
          else (false, [])

      on_tests :
          (x y z : Bool)
          → ((store_items b w dump written es nr).0 ≡ true
              → (store_items b w dump written es nr).1 ≡ map entry_at (dumped es))
          → ((store_items b w dump written es (nr + 1)).0 ≡ true
              → (store_items b w dump written es (nr + 1)).1 ≡ map entry_at (dumped es))
          → (at x y z).0 ≡ true
          → (at x y z).1 ≡ map entry_at (if x && y then (item, offset) ∷ dumped es else dumped es)
      on_tests false y z same more ok = same ok
      on_tests true false z same more ok = same ok
      on_tests true true false same more ok = ground (arith, ok)
      on_tests true true true same more ok = ap (λ xs. entry_of item offset ∷ xs) (more ok)

-- The servers of the items have ports.
abbrev pub Ported : List ℕ → List (Item × ℕ) → Type 0
Ported ports [] = Unit {0}
Ported ports ((item, offset) ∷ xs) =
    ((get_or ports item.server_index 0 == 0) ≡ false) × Ported ports xs

-- The first server that listens on a port.
abbrev pub listening : List (ℕ × ℕ) → ℕ → Option ℕ
listening [] port = none
listening ((p, i) ∷ ps) port = if p == port then some i else listening ps port

search_port-listening :
    (servers : List (ℕ × ℕ)) (port : ℕ) → server_search_port servers port ≡ listening servers port
unfolding server_search_port
search_port-listening [] port = refl
search_port-listening ((p, i) ∷ ps) port =
    ap (λ o. if p == port then some i else o) (search_port-listening ps port)

module _ (b : Blocks) (mem : Bool) (fresh : ℕ → Option Handle) (device : ℕ) (servers : List (ℕ × ℕ))
    (ports : List ℕ) (override now : ℕ) where
  -- The server that an item comes back to.
  abbrev pub returns_to : Item → ℕ → Option ℕ
  returns_to item offset =
      if ltb offset override || leb item.expire now
      then none
      else listening servers (get_or ports item.server_index 0)

  abbrev pub reload_one : Option ℕ → Option Handle → Item → ℕ → World b.D → World b.D
  reload_one none new item offset w = w
  reload_one (some s) new item offset w =
      (server_load_fm_item b mem w s device
        record {
          id = item.id;
          offset = offset;
          length = item.length;
          expire = item.expire;
          headers_len = item.headers_len;
        }
        new).1

  -- The items are loaded one by one, each by the server that listens on its port now, with its id,
  -- offset, length, time and length of headers.
  abbrev pub reload : List (Item × ℕ) → World b.D → World b.D
  reload [] w = w
  reload ((item, offset) ∷ xs) w =
      reload xs (reload_one (returns_to item offset) (fresh (length xs)) item offset w)

  abbrev slot_of : Option ℕ → Slot
  slot_of none = gone
  slot_of (some s) = known s

  slot-returns_to :
      (item : Item) (offset : ℕ)
      → (get_or ports item.server_index 0 == 0) ≡ false
      → entry_slot servers ports override now (entry_of item offset)
        ≡ slot_of (returns_to item offset)
  unfolding entry_slot disk_server
  slot-returns_to item offset set =
      subst
        (λ o.
          entry_slot servers ports override now (entry_of item offset)
          ≡ slot_of (if ltb offset override || leb item.expire now then none else o))
        (search_port-listening servers (get_or ports item.server_index 0))
        (on_test (ltb offset override || leb item.expire now)
          (get_or ports item.server_index 0 == 0) set
          (server_search_port servers (get_or ports item.server_index 0)))
    where
      on_test :
          (x y : Bool)
          → y ≡ false
          → (o : Option ℕ)
          → (if x
              then gone
              else if y
              then unset
              else elim o as (λ _. Slot) [ none ↦ gone | some s ↦ known s ])
            ≡ slot_of (if x then none else o)
      on_test true y e o = refl
      on_test false true e o = ground (arith, e)
      on_test false false e none = refl
      on_test false false e (some s) = refl

  pub load_entries-reload :
      (xs : List (Item × ℕ)) (old : List Entry) (w : World b.D)
      → Ported ports xs
      → load_entries b mem fresh device
          (entry_slot servers ports override now)
          (length xs)
          (map (λ x. entry_of x.0 x.1) xs ++ old)
          w
        ≡ through (reload xs w)
  unfolding load_entries
  load_entries-reload [] old w p = refl
  load_entries-reload ((item, offset) ∷ xs) old w p =
      ap go (slot-returns_to item offset p.0)
      ∙ on_server (returns_to item offset) (λ v. load_entries-reload xs old v p.1)
    where
      rest : World b.D → Walk b.D
      rest v =
          load_entries b mem fresh device (entry_slot servers ports override now) (length xs)
            (map (λ x. entry_of x.0 x.1) xs ++ old) v

      go : Slot → Walk b.D
      go s = elim s [
        | unset ↦ Walk.astray w
        | gone ↦ rest w
        | known s ↦
            rest
              (server_load_fm_item b mem w s device (entry_of item offset).item
                (fresh (length xs))).1
      ]

      on_server :
          (o : Option ℕ)
          → ((v : World b.D) → rest v ≡ through (reload xs v))
          → go (slot_of o) ≡ through (reload xs (reload_one o (fresh (length xs)) item offset w))
      on_server none f = f w
      on_server (some s) f =
          f (server_load_fm_item b mem w s device (entry_of item offset).item (fresh (length xs))).1
