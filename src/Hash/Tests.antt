-- ===== src/Hash/Tests.antt =====
-- Runs of utils/hash.c with a toy digest, and the theorems at small tables.
use olivehc.Prelude.{
  ℕ, zero, suc, ◌≡◌, true, none, some, List, [], ◌∷◌, refl, arith, length, replicate, get_or,
}
use olivehc.Hash.{Hash, HashId, HashNode, Bucket, hash_expansion, hash_add, hash_get, hash_del}
use olivehc.Hash.Bucket.{has_id, replicate-PlacedFrom}
use olivehc.Hash.Split.{IsValid, Keeps, nodes, hash_expansion-Keeps}
use olivehc.Hash.Lookup.{Found, Adds, hash_get-Found, hash_add-Adds, get-add, filed_node}
use olivehc.Hash.Delete.{Deletes, has_handle, hash_del-Deletes}
use olivehc.Hash.Finish.{expansions, expansions-finish}

-- A digest that tells keys of different lengths apart.
abbrev toy_md5 : List ℕ → HashId
toy_md5 str = record { low = length str; high = 7 }

abbrev blank : HashId
blank = record { low = 0; high = 0 }

-- `hash_init` has doubled: 32 buckets, and none of the previous 16 is split.
abbrev expanding : Hash
expanding = record {
  buckets = replicate 32 [];
  bucket_size = 32;
  items = 0;
  prev_buckets = some (replicate 16 []);
  split = 0;
}

none_empty : (n i : ℕ) → get_or {A = Bucket} (replicate n []) i [] ≡ []
none_empty zero i = refl
none_empty (suc n) zero = refl
none_empty (suc n) (suc i) = none_empty n i

expanding-IsValid : IsValid expanding
expanding-IsValid = record {
  sized = (5, refl, omega arith, omega arith);
  width = refl;
  placed = replicate-PlacedFrom 32 32 0;
  prev = (4, refl, refl, replicate-PlacedFrom 16 16 0, omega arith, λ i h. none_empty 16 i);
  counted = refl;
}

-- The key "ab" under handle 9.
abbrev with_ab : Hash
with_ab = hash_add toy_md5 true expanding (record { handle = 9; id = blank }) (some (97 ∷ 98 ∷ []))

hash_add-Adds_example :
    Adds toy_md5 true expanding expanding-IsValid
      (filed_node toy_md5 true expanding expanding-IsValid
        (record { handle = 9; id = blank })
        (some (97 ∷ 98 ∷ [])))
      with_ab
hash_add-Adds_example =
    hash_add-Adds toy_md5 true expanding expanding-IsValid (record { handle = 9; id = blank })
      (some (97 ∷ 98 ∷ []))

hash_expansion-Keeps_example : Keeps expanding (hash_expansion true expanding)
hash_expansion-Keeps_example = hash_expansion-Keeps true expanding expanding-IsValid

hash_get-Found_example :
    let (found, id, after) = hash_get toy_md5 true with_ab (97 ∷ 98 ∷ []) in
    (id ≡ toy_md5 (97 ∷ 98 ∷ []))
    × Found (λ p. nodes p with_ab) (toy_md5 (97 ∷ 98 ∷ [])) found
    × Keeps with_ab after
hash_get-Found_example =
    hash_get-Found toy_md5 true with_ab hash_add-Adds_example.valid (97 ∷ 98 ∷ [])

get-add_example :
    (m : HashNode) × ((hash_get toy_md5 true with_ab (97 ∷ 98 ∷ [])).0 ≡ some m)
    × (m.handle ≡ 9)
    × (has_id (toy_md5 (97 ∷ 98 ∷ [])) m ≡ true)
get-add_example =
    get-add toy_md5 true true expanding (record { handle = 9; id = blank }) (97 ∷ 98 ∷ [])
      expanding-IsValid refl

hash_del-Deletes_example : Deletes with_ab 9 (hash_del with_ab 9)
hash_del-Deletes_example =
    hash_del-Deletes with_ab 9 hash_add-Adds_example.valid
      (hash_add-Adds_example.same (has_handle 9))

expansions-finish_example : (expansions 16 true expanding).prev_buckets ≡ none
expansions-finish_example =
    expansions-finish 16 true expanding (replicate 16 []) refl refl (omega arith)
