-- ===== src/Request/Alike.antt =====
-- request.c: what the transfers of bytes leave of a connection.
use olivehc.Prelude.{ℕ, ◌≡◌, Bool, true, false, Option, none, some, List, [], ◌∷◌, arith, refl, ◌∙◌}
use olivehc.Ipbucket.{Handle}
use olivehc.Request.State.{Connection}
use olivehc.Request.Transfer.{
  Send, send_interrupted, send_whole, send_short, FileSend, file_interrupted, file_io_error,
  file_failed, moved, request_send_buffer, request_send_file, write_to, request_write_disk,
}

-- Neither the item nor the place of the request has changed.
pub record Alike (c d : Connection) : Type 0 where
  pub item : d.item ≡ c.item
  pub server : d.server ≡ c.server
  pub worker : d.worker ≡ c.worker
  pub queued : d.queued ≡ c.queued
  pub events : d.events ≡ c.events
  pub handler : d.handler ≡ c.handler

-- Field by field.
pub Alike-of :
    {c d : Connection}
    → d.item ≡ c.item
    → d.server ≡ c.server
    → d.worker ≡ c.worker
    → d.queued ≡ c.queued
    → d.events ≡ c.events
    → d.handler ≡ c.handler
    → Alike c d
Alike-of item server worker queued events handler = record {
  item = item;
  server = server;
  worker = worker;
  queued = queued;
  events = events;
  handler = handler;
}

pub Alike-same : (c : Connection) → Alike c c
Alike-same c = Alike-of refl refl refl refl refl refl

pub Alike-trans : {c d e : Connection} → Alike c d → Alike d e → Alike c e
Alike-trans p q = record {
  item = q.item ∙ p.item;
  server = q.server ∙ p.server;
  worker = q.worker ∙ p.worker;
  queued = q.queued ∙ p.queued;
  events = q.events ∙ p.events;
  handler = q.handler ∙ p.handler;
}

pub send_buffer-Alike :
    (ss : List Send) (c : Connection) (n : ℕ) → Alike c (request_send_buffer ss c n).2
unfolding request_send_buffer
send_buffer-Alike [] c n = Alike-of refl refl refl refl refl refl
send_buffer-Alike (send_interrupted ∷ ss) c n = send_buffer-Alike ss c n
send_buffer-Alike (send_whole ∷ ss) c n = Alike-of refl refl refl refl refl refl
send_buffer-Alike (send_short ∷ ss) c n = Alike-of refl refl refl refl refl refl

pub send_file-Alike :
    (fs : List FileSend) (c : Connection) (start n : ℕ) → Alike c (request_send_file fs c start n).2
unfolding request_send_file
send_file-Alike [] c start n = Alike-same c
send_file-Alike (file_interrupted ∷ fs) c start n = send_file-Alike fs c start n
send_file-Alike (file_io_error ∷ fs) c start n = Alike-of refl refl refl refl refl refl
send_file-Alike (file_failed ∷ fs) c start n = Alike-of refl refl refl refl refl refl
send_file-Alike (moved m ∷ fs) c start n = ground arith

pub write_disk-Alike : (ok : Bool) (c : Connection) (n : ℕ) → Alike c (request_write_disk ok c n).1
unfolding request_write_disk write_to
write_disk-Alike ok c n = on_item c.item ok
  where
    on_item : (o : Option Handle) (k : Bool) → Alike c (write_to o k c n).1
    on_item none k = Alike-of refl refl refl refl refl refl
    on_item (some h) true = Alike-of refl refl refl refl refl refl
    on_item (some h) false = Alike-of refl refl refl refl refl refl
