-- ===== src/Request/Loop.antt =====
-- request.c: the loop over a body leaves the request in its place.
use olivehc.Prelude.{
  ℕ, ◌+◌, ◌-◌, Bool, true, false, List, [], ◌∷◌, ltb, if◌then◌else◌, refl, Bool-cases, inl, inr,
  length, take,
}
use olivehc.Request.State.{Connection}
use olivehc.Request.Transfer.{request_write_disk}
use olivehc.Request.Finish.{Recv, recv_interrupted, recv_failed, recv_closed, received}
use olivehc.Request.Body.{Ended, waits, finishes, item_len, recv_buf_size, put_packet, body_loop}
use olivehc.Request.Alike.{Alike, Alike-of, Alike-same, Alike-trans, write_disk-Alike}

-- How the loop over the body ends.
abbrev pub EndedAlike : Connection → Ended → Type 0
EndedAlike c (waits d) = Alike c d
EndedAlike c (finishes d) = Alike c d

ended_trans : {c d : Connection} (e : Ended) → Alike c d → EndedAlike d e → EndedAlike c e
ended_trans (waits f) p q = Alike-trans p q
ended_trans (finishes f) p q = Alike-trans p q

if_ended :
    (t : Bool) (c : Connection) (x y : Ended)
    → EndedAlike c x
    → EndedAlike c y
    → EndedAlike c (if t then x else y)
if_ended true c x y p q = p
if_ended false c x y p q = q

packet-Alike :
    (c : Connection) (n : ℕ) (ok : Bool) (go : Connection → Ended)
    → ((d : Connection) → EndedAlike d (go d))
    → EndedAlike c (put_packet c n ok go)
unfolding put_packet
packet-Alike c n ok go f = elim (Bool-cases (ltb (item_len c.request - c.process_size) n)) [
  | inl t ↦ rw (t, put_packet) (Alike-of refl refl refl refl refl refl)
  | inr t ↦ rw (t, put_packet) (on_write (request_write_disk ok c' n) same)
]
  where
    c' : Connection
    c' = record c { input_size = c.input_size + n }

    same : Alike c (request_write_disk ok c' n).1
    same = Alike-trans {d = c'} (Alike-of refl refl refl refl refl refl) (write_disk-Alike ok c' n)

    on_write :
        (x : Bool × Connection) → Alike c x.1 → EndedAlike c (if x.0 then go x.1 else finishes x.1)
    on_write (true, d) a = ended_trans (go d) a (f d)
    on_write (false, d) a = a

pub body_loop-Alike : (ks : List (Recv × Bool)) (c : Connection) → EndedAlike c (body_loop ks c)
unfolding body_loop
body_loop-Alike [] c = if_ended _ c (waits c) (finishes c) (Alike-same c) (Alike-same c)
body_loop-Alike ((recv_interrupted, x) ∷ ks) c =
    if_ended _ c (body_loop ks c) (finishes c) (body_loop-Alike ks c) (Alike-same c)
body_loop-Alike ((recv_failed, x) ∷ ks) c =
    if_ended _ c (finishes (record c { broken = true })) (finishes c)
      (Alike-of refl refl refl refl refl refl) (Alike-same c)
body_loop-Alike ((recv_closed, x) ∷ ks) c =
    if_ended _ c (finishes (record c { broken = true })) (finishes c)
      (Alike-of refl refl refl refl refl refl) (Alike-same c)
body_loop-Alike ((received bytes, x) ∷ ks) c =
    if_ended _ c _ (finishes c)
      (packet-Alike c (length (take recv_buf_size bytes)) x (body_loop ks) (body_loop-Alike ks))
      (Alike-same c)
