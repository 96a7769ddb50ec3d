-- ===== src/Server/History.antt =====
-- server.c: what a server goes through, request by request.
use olivehc.Prelude.{
  ℕ, ◌+◌, ◌%◌, ◌^◌, ◌<◌, ◌≤◌, ◌≡◌, Bool, Option, some, List, [], ◌∷◌, arith, refl, Option-cases,
  inl, inr, Bytes,
}
use olivehc.Ipbucket.{Handle}
use olivehc.Hash.{HashId}
use olivehc.Http.Headers.{HttpRequest}
use olivehc.Server.{Blocks, Item, World, find_item, unlink}
use olivehc.Server.Holds.{uses, holds, Few, find_item-none}
use olivehc.Server.Sound.{Sound, item_delete-Sound, Answer, Fresh, Sound-Kept, put_handler-Answer}
use olivehc.Server.Serve.{get_handler-Answer, delete_handler-Answer}
use olivehc.Server.Load.{FormatItem, server_load_fm_item, load_fm_item-Sound}
use olivehc.Server.Release.{finalize-Sound}
use olivehc.Server.Remove.{server_item_delete}
use olivehc.Server.Request.{
  Status, ok, done, error, no_space, decline, server_request_get_handler,
  server_request_delete_handler, server_request_finalize, server_clear,
}
use olivehc.Server.Request.Space.{server_request_put_handler}

-- The items that requests hold (`r->item`), with the world.
abbrev pub Moment : Type 0 → Type 0
Moment D = List Handle × World D

abbrev pub next : {D : Type 0} → List Handle → Status × World D → Moment D
next hs (ok h, w) = (h ∷ hs, w)
next hs (done, w) = (hs, w)
next hs (error, w) = (hs, w)
next hs (no_space, w) = (hs, w)
next hs (decline reason, w) = (hs, w)

-- A request begins, by one of three handlers; a request that holds an item ends; a dumped item is
-- loaded; the devices, the settings of a server and the clock change.
pub data Step (b : Blocks) (md5 : Bytes → HashId) : Moment b.D → Moment b.D → Type 0 where
  put :
      (hs : List Handle) (w : World b.D) (mem : Bool) (i : ℕ) (r : HttpRequest)
      (passby fresh : Option Handle)
      → Fresh b hs fresh w
      → Step b md5 (hs, w) (next hs (server_request_put_handler b md5 mem w i r passby fresh))
  get :
      (hs : List Handle) (w : World b.D) (mem : Bool) (i : ℕ) (r : HttpRequest)
      → Few hs
      → Step b md5 (hs, w) (next hs (server_request_get_handler b md5 mem w i r))
  delete :
      (hs : List Handle) (w : World b.D) (mem : Bool) (i : ℕ) (r : HttpRequest)
      → Step b md5 (hs, w) (next hs (server_request_delete_handler b md5 mem w i r))
  finalize :
      (hs : List Handle) (w : World b.D) (h : Handle) (disk_error : Bool) (process_size : ℕ)
      → 0 < holds h hs
      → Few hs
      → Step b md5
          (hs, w)
          (unlink h hs, server_request_finalize b md5 w (some h) disk_error process_size)
  load :
      (hs : List Handle) (w : World b.D) (mem : Bool) (i device : ℕ) (fm : FormatItem)
      (fresh : Option Handle)
      → Fresh b hs fresh w
      → Step b md5 (hs, w) (hs, (server_load_fm_item b mem w i device fm fresh).1)
  clear : (hs : List Handle) (w : World b.D) (i : ℕ) → Step b md5 (hs, w) (hs, server_clear w i)
  device :
      (hs : List Handle) (w : World b.D) (d : b.D)
      → Step b md5 (hs, w) (hs, record w { blocks = d })
  tick :
      (hs : List Handle) (w : World b.D) (n : ℕ)
      → w.now ≤ n
      → Step b md5 (hs, w) (hs, record w { now = n })

pub data History (b : Blocks) (md5 : Bytes → HashId) : Moment b.D → Moment b.D → Type 0 where
  start : (m : Moment b.D) → History b md5 m m
  more : {m n o : Moment b.D} → History b md5 m n → Step b md5 n o → History b md5 m o

-- The server as it starts: no items, and counters of 0.
pub record Started {D : Type 0} (w : World D) : Type 0 where
  pub items : w.items ≡ []
  pub consumed : (i : ℕ) → (w.servers i).consumed ≡ 0
  pub content : (i : ℕ) → (w.servers i).content ≡ 0
  pub item_nr : (i : ℕ) → (w.servers i).item_nr ≡ 0

-- What a moment is, for `Sound`.
abbrev pub SoundMoment : {D : Type 0} → Moment D → Type 0
SoundMoment (hs, w) = Sound hs w

pub Started-Sound : {D : Type 0} (w : World D) → Started w → Sound [] w
Started-Sound w s = record {
  accounts = λ i. record {
    consumed = rw s.items (s.consumed i);
    content = rw s.items (s.content i);
    item_nr = rw s.items (s.item_nr i);
  };
  held = record { counted = λ k. rw s.items refl; alone = λ k. rw s.items (omega arith) };
}

Answer-SoundMoment :
    {D : Type 0} (hs : List Handle) (x : Status × World D) → Answer hs x → SoundMoment (next hs x)
Answer-SoundMoment hs (ok h, w) a = a
Answer-SoundMoment hs (done, w) a = a
Answer-SoundMoment hs (error, w) a = a
Answer-SoundMoment hs (no_space, w) a = a
Answer-SoundMoment hs (decline reason, w) a = a

module _ (b : Blocks) (md5 : Bytes → HashId) where
  pub clear-Sound :
      (hs : List Handle) (w : World b.D) (i : ℕ) → Sound hs w → Sound hs (server_clear w i)
  unfolding server_clear
  clear-Sound hs w i v =
      (Sound-Kept b hs).server w i (λ s. record s { clear = (s.clear + 1) % 2 ^ 16 })
        (λ s. (refl, refl, refl)) v

  Step-SoundMoment : (m n : Moment b.D) → Step b md5 m n → SoundMoment m → SoundMoment n
  Step-SoundMoment _ _ (put hs w mem i r passby fresh new) v =
      Answer-SoundMoment hs _ (put_handler-Answer b hs md5 mem w i r passby fresh new v)
  Step-SoundMoment _ _ (get hs w mem i r few) v =
      Answer-SoundMoment hs _ (get_handler-Answer b md5 mem hs w i r few v)
  Step-SoundMoment _ _ (delete hs w mem i r) v =
      Answer-SoundMoment hs _ (delete_handler-Answer b md5 mem hs w i r v)
  Step-SoundMoment _ _ (finalize hs w h disk_error process_size held few) v =
      finalize-Sound b md5 hs w h disk_error process_size held few v
  Step-SoundMoment _ _ (load hs w mem i index fm fresh new) v =
      load_fm_item-Sound b hs mem w i index fm fresh new v
  Step-SoundMoment _ _ (clear hs w i) v = clear-Sound hs w i v
  Step-SoundMoment _ _ (device hs w d) v = (Sound-Kept b hs).device w d v
  Step-SoundMoment _ _ (tick hs w n later) v = record { accounts = v.accounts; held = v.held }

  History-SoundMoment : (m n : Moment b.D) → History b md5 m n → SoundMoment m → SoundMoment n
  History-SoundMoment m _ (start _) v = v
  History-SoundMoment m o (more {m = _} {n = n} p s) v =
      Step-SoundMoment n o s (History-SoundMoment m n p v)

  -- From a server without items and with counters of 0, after any sequence of PUT, GET and
  -- DELETE requests that begin, of requests that end, of items that are loaded from a dump,
  -- of changes of the devices, of clearings of a server and of advances of the clock,
  -- `consumed`, `content` and `item_nr` of every server are the sums of the block sizes, of
  -- the lengths and the number of its items; each item has its own handle, and its `used` and
  -- `putting` count the requests that hold it. The handle of a new item is not that of
  -- another item, and where a GET begins and where a request ends, fewer than 2 ^ 16 - 1
  -- requests hold any item.
  pub History-Sound :
      (w w' : World b.D) (hs : List Handle)
      → Started w
      → History b md5 ([], w) (hs, w')
      → Sound hs w'
  History-Sound w w' hs s p = History-SoundMoment ([], w) (hs, w') p (Started-Sound w s)

  pub held-Found :
      (w : World b.D) (hs : List Handle) (h : Handle)
      → Sound hs w
      → 0 < holds h hs
      → (item : Item) × (find_item w.items h ≡ some item)
  held-Found w hs h v held = elim (Option-cases (find_item w.items h)) [
    | inl e ↦
        let no : ⊥ = omega (arith, held, v.held.counted h, find_item-none uses h w.items e) in
        elim no [ ]
    | inr e ↦ e
  ]

  -- After any such sequence from a server without items, an item that a request holds is
  -- still there after `server_item_delete` of any item, itself included.
  pub held-Spared :
      (w w' : World b.D) (hs : List Handle) (h k : Handle)
      → Started w
      → History b md5 ([], w) (hs, w')
      → 0 < holds h hs
      → (item : Item) × (find_item (server_item_delete b w' k).items h ≡ some item)
  held-Spared w w' hs h k s p held =
      held-Found (server_item_delete b w' k) hs h
        (item_delete-Sound b hs w' k (History-Sound w w' hs s p)) held
