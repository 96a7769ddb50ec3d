-- ===== src/Server/Link.antt =====
-- server.c: the item that the handler of PUT has stored is counted.
use olivehc.Prelude.{ℕ, ◌+◌, ◌≡◌, Bool, none, ◌∷◌, ◌==◌, arith, refl, subst, Bool-cases, inl, inr}
use olivehc.SizeClass.{ipbucket_block_size}
use olivehc.Ipbucket.{Handle}
use olivehc.Hash.{hash_add}
use olivehc.Server.{Blocks, Item, Server, World, on_server, link_lru}
use olivehc.Server.Request.{bump}
use olivehc.Server.Request.Space.{link_item}
use olivehc.Server.Accounts.{
  Balanced, Accounts, charge-Accounts, on_server-Accounts, link_lru-Accounts,
}

pub link_lru-items :
    {D : Type 0} (w : World D) (i : ℕ) (h : Handle) → (link_lru w i h).items ≡ w.items
unfolding link_lru on_server
link_lru-items w i h = elim (Bool-cases ((w.servers i).capacity == 0)) [
  | inl t ↦ rw t refl
  | inr t ↦ rw t refl
]

-- An item is filed in the hash table and on its list.
abbrev pub file_item : {D : Type 0} → Bool → World D → ℕ → Item → World D
file_item mem w i item =
    link_lru
      (on_server w i (λ s. record s {
        hash =
            hash_add (λ x. item.id) mem s.hash (record { handle = item.handle; id = item.id }) none;
      }))
      i item.handle

module _ {D : Type 0} (mem : Bool) where
  -- A server's counters take in an item with a block of a size.
  pub charge_item-Accounts :
      (w : World D) (i : ℕ) (item : Item) (size : ℕ) (f : Server → Server)
      → item.server_index ≡ i
      → size ≡ ipbucket_block_size item.length
      → ((s : Server)
          → ((f s).consumed ≡ s.consumed + size)
            × ((f s).content ≡ s.content + item.length)
            × ((f s).item_nr ≡ s.item_nr + 1))
      → Accounts w
      → (j : ℕ) → Balanced j (item ∷ w.items) ((on_server (file_item mem w i item) i f).servers j)
  unfolding on_server
  charge_item-Accounts w i item size f at size_is more a =
      let file = λ (s : Server). record s {
        hash =
            hash_add (λ x. item.id) mem s.hash (record { handle = item.handle; id = item.id }) none;
      } in
      let filed = on_server w i file in
      let linked = link_lru filed i item.handle in
      let same : linked.items ≡ w.items = link_lru-items filed i item.handle in
      charge-Accounts linked i f (item ∷ w.items)
        (link_lru-Accounts filed i item.handle
          (on_server-Accounts w i file (λ s. (refl, refl, refl)) a))
        (λ s v. charged s (subst (λ xs. Balanced i xs s) same v))
        (λ j n. rw same (ground (arith, n, at), ground (arith, n, at), ground (arith, n, at)))
    where
      charged : (s : Server) → Balanced i w.items s → Balanced i (item ∷ w.items) (f s)
      charged s v =
          let (c, d, e) = more s in
          record {
            consumed = ground (arith, at, v.consumed, size_is, c);
            content = ground (arith, at, v.content, d);
            item_nr = ground (arith, at, v.item_nr, e);
          }

module _ (b : Blocks) (mem : Bool) where
  pub link_item-Accounts :
      (w : World b.D) (i : ℕ) (item : Item) (size : ℕ)
      → item.server_index ≡ i
      → size ≡ ipbucket_block_size item.length
      → Accounts w
      → Accounts (link_item b mem w i item size)
  unfolding link_item on_server
  link_item-Accounts w i item size at size_is a =
      charge_item-Accounts mem w i item size
        (λ s. record (bump (λ t. record t { stores = t.stores + 1 }) s) {
          consumed = s.consumed + size;
          content = s.content + item.length;
          item_nr = s.item_nr + 1;
        })
        at size_is (λ s. (refl, refl, refl)) a
