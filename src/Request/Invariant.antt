-- ===== src/Request/Invariant.antt =====
-- request.c: the invariant of the whole program's connections, kept by every step.
use olivehc.Prelude.{ℕ, ◌≡◌, Bytes}
use olivehc.Hash.{HashId}
use olivehc.Server.{Blocks}
use olivehc.Server.History.{Started}
use olivehc.Request.State.{Settings, Site}
use olivehc.Request.Ends.{Ends}
use olivehc.Request.System.{System}
use olivehc.Request.Right.{Right}

module _ (b : Blocks) (md5 : Bytes → HashId) (settings : Settings) (fds : ℕ) where
  -- Nothing was accepted yet.
  pub record Unused (s : Site b.D) : Type 0 where
    pub world : Started s.world
    pub connections : (i : ℕ) → s.connections i ≡ 0
    pub total : s.connections_total ≡ 0
