-- ===== src/Ipbucket.antt =====
-- The bucketed free list of utils/ipbucket.h. A queue is the list of the blocks linked on it,
-- from `next` of its head to `prev`; a block is known by its handle (the pointer). The intrusive
-- lists themselves are utils/list.h, copied from Linux: `list_add` is `∷`, `list_add_tail`
-- appends, `list_del` takes the handle out of the queue where it stands.
pub mod Filed
pub mod Count
mod Tests
use mathlib.Core.Option
use olivehc.Prelude.{
  ℕ, zero, suc, ◌+◌, ◌≡◌, Bool, true, false, Option, none, some, List, [], ◌∷◌, ◌++◌, map, set,
  get_or, replicate, ◌==◌, if◌then◌else◌,
}
use olivehc.SizeClass.{ipb_buckets, ipbucket_block_size, ipbucket_index}

abbrev pub Handle : Type 0
Handle = ℕ

-- `ohc_ipbucket_t`
abbrev pub Ipbucket : Type 0
Ipbucket = List (List Handle)

unfoldable pub ipbucket_init : Ipbucket
ipbucket_init = replicate ipb_buckets []

-- `list_del`
unfoldable pub unlink : Handle → List Handle → List Handle
unlink h [] = []
unlink h (x ∷ q) = if x == h then q else x ∷ unlink h q

-- An exact size goes to the front of its queue. A block that is filed has an index, so the
-- case of no index changes nothing.
unfoldable pub ipbucket_add : Ipbucket → Handle → ℕ → Ipbucket
ipbucket_add ipb h size = elim (ipbucket_index size false) [
  | none ↦ ipb
  | some i ↦ set ipb i (
      if size == ipbucket_block_size size then h ∷ get_or ipb i [] else get_or ipb i [] ++ (h ∷ []))
]

-- A handle that is not linked (`node->prev` is null) stands in no queue.
unfoldable pub ipbucket_del : Ipbucket → Handle → Ipbucket
unfolding unlink
ipbucket_del ipb h = map (unlink h) ipb

unfoldable pub ipbucket_update : Ipbucket → Handle → ℕ → Ipbucket
unfolding ipbucket_del ipbucket_add
ipbucket_update ipb h size = ipbucket_add (ipbucket_del ipb h) h size

-- The loop `for(; index < IPB_BUCKETS; index++)`: the queues before `index` are passed over.
unfoldable pub take_from : ℕ → Ipbucket → Option (Handle × Ipbucket)
take_from i [] = none
take_from (suc i) (q ∷ qs) = Option.map (λ r. (r.0, q ∷ r.1)) (take_from i qs)
take_from zero ([] ∷ qs) = Option.map (λ r. (r.0, [] ∷ r.1)) (take_from zero qs)
take_from zero ((h ∷ q) ∷ qs) = some (h, q ∷ qs)

unfoldable pub ipbucket_get : Ipbucket → ℕ → Option (Handle × Ipbucket)
unfolding take_from
ipbucket_get ipb size = elim (ipbucket_index size true) [ none ↦ none | some i ↦ take_from i ipb ]

-- `queue.prev` of its head
unfoldable pub last_of : List Handle → Option Handle
last_of [] = none
last_of (h ∷ []) = some h
last_of (h ∷ x ∷ q) = last_of (x ∷ q)

-- The loop from the last queue down, as a search of the later queues first.
unfoldable pub ipbucket_biggest : Ipbucket → Option Handle
unfolding last_of
ipbucket_biggest [] = none
ipbucket_biggest (q ∷ qs) = elim (ipbucket_biggest qs) [ some h ↦ some h | none ↦ last_of q ]
