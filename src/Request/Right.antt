-- ===== src/Request/Right.antt =====
-- request.c: what every step of the program keeps: the connections and the items they hold.
use olivehc.Prelude.{
  ℕ, suc, ◌+◌, ◌≤◌, ◌≡◌, Bool, Option, none, some, List, [], ◌∷◌, ◌++◌, ◌==◌, length, count, arith,
  refl, ◌∙◌,
}
use olivehc.Ipbucket.{Handle}
use olivehc.Server.{World}
use olivehc.Server.Holds.{holds}
use olivehc.Server.Sound.{Sound}
use olivehc.Request.State.{Connection, Site}
use olivehc.Request.Finish.{no_item, no_page, bad_parse, bad_range, stray_event}
use olivehc.Request.Ends.{hold, Placed}
use olivehc.Request.System.{System, running, crashed, items_of}

abbrev pub of_server : ℕ → Connection → Bool
of_server i c = c.server == i

abbrev pub EveryPlaced : List Connection → Type 0
EveryPlaced [] = Unit {0}
EveryPlaced (c ∷ cs) = Placed c × EveryPlaced cs

-- The site's world is sound for the items that the connections hold, every connection's handler has
-- what it needs, and the connections are counted.
pub record Right {D : Type 0} (fds : ℕ) (cs : List Connection) (s : Site D) : Type 0 where
  pub sound : Sound (items_of cs) s.world
  pub placed : EveryPlaced cs
  pub connections : (i : ℕ) → s.connections i ≡ count (of_server i) cs
  pub total : s.connections_total ≡ length cs
  pub few : length cs ≤ fds

-- The program does not look for an item that a request does not have.
abbrev pub RightSystem : {D : Type 0} → ℕ → System D → Type 0
RightSystem fds (running cs s) = Right fds cs s
RightSystem fds (crashed no_item) = ⊥
RightSystem fds (crashed no_page) = Unit {0}
RightSystem fds (crashed bad_parse) = Unit {0}
RightSystem fds (crashed bad_range) = Unit {0}
RightSystem fds (crashed stray_event) = Unit {0}

-- A connection in the middle counts as one at the head.
pub length-middle :
    (xs : List Connection) (c : Connection) (ys : List Connection)
    → length (xs ++ c ∷ ys) ≡ length (xs ++ ys) + 1
length-middle [] c ys = ground arith
length-middle (x ∷ xs) c ys = let rest = length-middle xs c ys in ground (arith, rest)

pub count-middle :
    (p : Connection → Bool) (xs : List Connection) (c : Connection) (ys : List Connection)
    → count p (xs ++ c ∷ ys) ≡ count p (c ∷ xs ++ ys)
count-middle p [] c ys = refl
count-middle p (x ∷ xs) c ys = let rest = count-middle p xs c ys in ground (arith, rest)

holds-hold :
    (k : Handle) (o : Option Handle) (hs gs : List Handle)
    → holds k hs ≡ holds k gs
    → holds k (hold o hs) ≡ holds k (hold o gs)
holds-hold k none hs gs e = e
holds-hold k (some h) hs gs e = ground (arith, e)

holds-swap :
    (k : Handle) (o p : Option Handle) (hs : List Handle)
    → holds k (hold o (hold p hs)) ≡ holds k (hold p (hold o hs))
holds-swap k none p hs = refl
holds-swap k (some h) none hs = refl
holds-swap k (some h) (some g) hs = ground arith

pub holds-middle :
    (k : Handle) (xs : List Connection) (c : Connection) (ys : List Connection)
    → holds k (items_of (xs ++ c ∷ ys)) ≡ holds k (hold c.item (items_of (xs ++ ys)))
holds-middle k [] c ys = refl
holds-middle k (x ∷ xs) c ys =
    holds-hold k x.item (items_of (xs ++ c ∷ ys)) (hold c.item (items_of (xs ++ ys)))
      (holds-middle k xs c ys)
    ∙ holds-swap k x.item c.item (items_of (xs ++ ys))

pub holds-length : (k : Handle) (cs : List Connection) → holds k (items_of cs) ≤ length cs
holds-length k [] = omega arith
holds-length k (c ∷ cs) = on_item c.item (holds-length k cs)
  where
    on_item :
        (o : Option Handle)
        → holds k (items_of cs) ≤ length cs
        → holds k (hold o (items_of cs)) ≤ suc (length cs)
    on_item none l = omega (arith, l)
    on_item (some h) l = ground (arith, l)

pub EveryPlaced-middle :
    (xs : List Connection) (c : Connection) (ys : List Connection)
    → EveryPlaced (xs ++ c ∷ ys)
    → Placed c × EveryPlaced (xs ++ ys)
EveryPlaced-middle [] c ys p = p
EveryPlaced-middle (x ∷ xs) c ys p =
    let rest = EveryPlaced-middle xs c ys p.1 in (rest.0, (p.0, rest.1))

pub EveryPlaced-put :
    (xs : List Connection) (c : Connection) (ys : List Connection)
    → Placed c
    → EveryPlaced (xs ++ ys)
    → EveryPlaced (xs ++ c ∷ ys)
EveryPlaced-put [] c ys q p = (q, p)
EveryPlaced-put (x ∷ xs) c ys q p = (p.0, EveryPlaced-put xs c ys q p.1)

-- Only how often a handle is held counts.
pub holders-Sound :
    {D : Type 0} (hs gs : List Handle) (w : World D)
    → ((k : Handle) → holds k hs ≡ holds k gs)
    → Sound hs w
    → Sound gs w
holders-Sound hs gs w e v = record {
  accounts = v.accounts;
  held = record { counted = λ k. v.held.counted k ∙ e k; alone = v.held.alone };
}
