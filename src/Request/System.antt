-- ===== src/Request/System.antt =====
-- request.c, server.c: all connections of the program, and the turns of their handlers.
use olivehc.Prelude.{
  ℕ, ◌<◌, ◌≤◌, ◌≡◌, Bool, true, false, ◌&&◌, ◌||◌, Option, some, List, [], ◌∷◌, ◌++◌, length, Bytes,
}
use olivehc.Ipbucket.{Handle}
use olivehc.Hash.{HashId}
use olivehc.Server.{Blocks}
use olivehc.Server.Sound.{Fresh}
use olivehc.Server.Load.{FormatItem, server_load_fm_item}
use olivehc.Server.Request.{server_clear}
use olivehc.Request.State.{Connection, Settings, Site, is_watched, is_set}
use olivehc.Request.Finish.{Inputs, Fault, stray_event, Outcome, kept, closed, fault}
use olivehc.Request.Run.{run, request_break, request_process_entry}
use olivehc.Request.Ends.{hold}

-- The connections, or what went wrong.
pub data System (D : Type 0) : Type 0 where
  running : List Connection → Site D → System D
  crashed : Fault → System D

-- The items that connections hold.
abbrev pub items_of : List Connection → List Handle
items_of [] = []
items_of (c ∷ cs) = hold c.item (items_of cs)

-- After the turn of the connection between these.
abbrev pub after : {D : Type 0} → List Connection → List Connection → Outcome D → System D
after xs ys (kept c s) = running (xs ++ c ∷ ys) s
after xs ys (closed s) = running (xs ++ ys) s
after xs ys (fault f) = crashed f

-- A request is in a pipe, or epoll watches its socket, for its events or since a timer has failed.
abbrev pub ready : Connection → Bool
ready c = c.queued || (is_watched c.events || (c.stray && is_set c.handler))

-- One step: a connection is accepted, while fewer than `fds` are open; a handler has its turn; what a
-- timer that failed has left goes wrong, since there is no handler, another thread has the request,
-- too, or a node is taken out of no list; a request that is in no pipe times out or is cleaned; a
-- dumped item is loaded; a server is cleared; the devices change; the clock advances.
pub data Step (b : Blocks) (md5 : Bytes → HashId) (settings : Settings) (fds : ℕ)
    : System b.D → System b.D → Type 0 where
  entry :
      (cs : List Connection) (s : Site b.D) (mem : Bool) (k : Inputs) (i : ℕ) (o : Outcome b.D)
      → length cs < fds
      → Fresh b (items_of cs) k.fresh s.world
      → request_process_entry b md5 settings mem k i s ≡ some o
      → Step b md5 settings fds (running cs s) (after [] cs o)
  turn :
      (xs : List Connection) (c : Connection) (ys : List Connection) (s : Site b.D) (k : Inputs)
      → ready c ≡ true
      → Fresh b (items_of (xs ++ ys)) k.fresh s.world
      → Step b md5 settings fds (running (xs ++ c ∷ ys) s) (after xs ys (run b md5 settings k c s))
  stray_turn :
      (xs : List Connection) (c : Connection) (ys : List Connection) (s : Site b.D) (k : Inputs)
      → c.stray ≡ true
      → Step b md5 settings fds (running (xs ++ c ∷ ys) s) (crashed stray_event)
  break :
      (xs : List Connection) (c : Connection) (ys : List Connection) (s : Site b.D) (k : Inputs)
      → c.queued ≡ false
      → Step b md5 settings fds
          (running (xs ++ c ∷ ys) s)
          (after xs ys (request_break b md5 settings k c s))
  load :
      (cs : List Connection) (s : Site b.D) (mem : Bool) (i device : ℕ) (fm : FormatItem)
      (new : Option Handle)
      → Fresh b (items_of cs) new s.world
      → Step b md5 settings fds
          (running cs s)
          (running cs (record s { world = (server_load_fm_item b mem s.world i device fm new).1 }))
  clear :
      (cs : List Connection) (s : Site b.D) (i : ℕ)
      → Step b md5 settings fds
          (running cs s)
          (running cs (record s { world = server_clear s.world i }))
  device :
      (cs : List Connection) (s : Site b.D) (d : b.D)
      → Step b md5 settings fds
          (running cs s)
          (running cs (record s { world = record s.world { blocks = d } }))
  tick :
      (cs : List Connection) (s : Site b.D) (n : ℕ)
      → s.world.now ≤ n
      → Step b md5 settings fds
          (running cs s)
          (running cs (record s { world = record s.world { now = n } }))

pub data Steps (b : Blocks) (md5 : Bytes → HashId) (settings : Settings) (fds : ℕ)
    : System b.D → System b.D → Type 0 where
  start : (m : System b.D) → Steps b md5 settings fds m m
  more :
      {m n o : System b.D}
      → Steps b md5 settings fds m n
      → Step b md5 settings fds n o
      → Steps b md5 settings fds m o
