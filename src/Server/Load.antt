-- ===== src/Server/Load.antt =====
-- server.c: an item that was dumped on a device is loaded as the program starts.
use olivehc.Prelude.{
  ℕ, ◌+◌, ◌≡◌, Bool, true, false, Option, none, some, ◌∷◌, ◌==◌, if◌then◌else◌, List, arith, refl,
  Bool-cases, inl, inr,
}
use olivehc.SizeClass.{ipbucket_block_size}
use olivehc.Ipbucket.{Handle}
use olivehc.Hash.{HashId, hash_add}
use olivehc.Server.{Blocks, Item, World, on_server, link_lru}
use olivehc.Server.Link.{charge_item-Accounts}
use olivehc.Server.Sound.{Sound, Fresh, held_more}

-- `ohc_format_item_t`; the index of the server stands for the caller, who looks it up.
pub record FormatItem : Type 0 where
  pub id : HashId
  pub offset : ℕ
  pub length : ℕ
  pub expire : ℕ
  pub headers_len : ℕ

module _ (b : Blocks) where
  -- The part behind `device_cut_free_block`, with the block's size.
  unfoldable pub load_item : Bool → World b.D → ℕ → Item → ℕ → World b.D
  unfolding on_server link_lru
  load_item mem w i item size =
      let linked =
        link_lru
          (on_server w i (λ s. record s {
            hash =
                hash_add (λ x. item.id) mem s.hash (record { handle = item.handle; id = item.id })
                  none;
          }))
          i item.handle in
      record (on_server linked i (λ s. record s {
        consumed = s.consumed + size;
        content = s.content + item.length;
        item_nr = s.item_nr + 1;
      })) { items = item ∷ w.items }

  -- For a device of an index; `fresh` is what `slab_alloc` gives.
  unfoldable pub server_load_fm_item :
      Bool → World b.D → ℕ → ℕ → FormatItem → Option Handle → Bool × World b.D
  unfolding load_item
  server_load_fm_item mem w i device fm none = (false, w)
  server_load_fm_item mem w i device fm (some h) =
      let (size, blocks) = b.cut_free_block w.blocks h device fm.length fm.offset in
      if size == 0 then (false, w) else (
        true,
        load_item mem (record w { blocks = blocks }) i
            (record {
              handle = h;
              id = fm.id;
              server_index = i;
              length = fm.length;
              headers_len = fm.headers_len;
              expire = fm.expire;
              clear = 0;
              used = 0;
              putting = false;
              deleted = false;
              badblock = false;
            })
            size,
      )

module _ (b : Blocks) (hs : List Handle) where
  load_item-Sound :
      (mem : Bool) (w : World b.D) (i : ℕ) (item : Item) (size : ℕ)
      → Fresh b hs (some item.handle) w
      → item.server_index ≡ i
      → item.putting ≡ false
      → item.used ≡ 0
      → size ≡ ipbucket_block_size item.length
      → Sound hs w
      → Sound hs (load_item b mem w i item size)
  unfolding load_item on_server
  load_item-Sound mem w i item size new at putting unused size_is v = record {
    accounts =
        charge_item-Accounts mem w i item size
          (λ s. record s {
            consumed = s.consumed + size;
            content = s.content + item.length;
            item_nr = s.item_nr + 1;
          })
          at size_is (λ s. (refl, refl, refl)) v.accounts;
    held = record {
      counted = λ k. ground (arith, v.held.counted k, putting, unused);
      alone = λ k. held_more w.items item k (v.held.alone k) (new item.handle refl);
    };
  }

  pub load_fm_item-Sound :
      (mem : Bool) (w : World b.D) (i device : ℕ) (fm : FormatItem) (fresh : Option Handle)
      → Fresh b hs fresh w
      → Sound hs w
      → Sound hs (server_load_fm_item b mem w i device fm fresh).1
  unfolding server_load_fm_item
  load_fm_item-Sound mem w i device fm none new v = v
  load_fm_item-Sound mem w i device fm (some h) new v =
      elim (Bool-cases ((b.cut_free_block w.blocks h device fm.length fm.offset).0 == 0)) [
        | inl t ↦ rw (t, server_load_fm_item) v
        | inr t ↦
            rw (t, server_load_fm_item)
              (load_item-Sound mem
                (record w { blocks = (b.cut_free_block w.blocks h device fm.length fm.offset).1 }) i
                (record {
                  handle = h;
                  id = fm.id;
                  server_index = i;
                  length = fm.length;
                  headers_len = fm.headers_len;
                  expire = fm.expire;
                  clear = 0;
                  used = 0;
                  putting = false;
                  deleted = false;
                  badblock = false;
                })
                (b.cut_free_block w.blocks h device fm.length fm.offset).0 new refl refl refl
                (elim (b.cut_size w.blocks h device fm.length fm.offset) [
                  | inl z ↦ ground (arith, z, t)
                  | inr s ↦ s
                ])
                (record { accounts = v.accounts; held = v.held }))
      ]
