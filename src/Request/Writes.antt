-- ===== src/Request/Writes.antt =====
-- request.c: what a PUT writes, packet by packet.
use olivehc.Prelude.{
  ℕ, ◌+◌, ◌-◌, ◌<◌, ◌≤◌, ◌≡◌, ◌⊎◌, Bool, true, false, Option, none, some, List, [], ◌∷◌, ltb,
  if◌then◌else◌, arith, refl, ap, sym, subst, ◌∙◌, Bool-cases, inl, inr, length, take,
}
use olivehc.Ipbucket.{Handle}
use olivehc.Request.State.{Connection}
use olivehc.Request.Transfer.{write_to, request_write_disk}
use olivehc.Request.Finish.{Recv, recv_interrupted, recv_failed, recv_closed, received}
use olivehc.Request.Body.{Ended, waits, finishes, item_len, recv_buf_size, put_packet, body_loop}
use olivehc.Request.Alike.{Alike, Alike-of, Alike-same, Alike-trans}

-- Parts of an item, the last first, that lie end to end.
abbrev pub Covers : List (ℕ × ℕ) → ℕ → ℕ → Type 0
Covers [] start end = end ≡ start
Covers ((at, n) ∷ ps) start end = (end ≡ at + n) × Covers ps start at

-- What a PUT has written is the item up to `process_size`.
abbrev pub Written : Connection → Type 0
Written c = (h : Handle) → c.item ≡ some h → Covers c.written 0 c.process_size

-- How the loop over a body ends, of a request with a length.
pub record BodyEnd (c d : Connection) : Type 0 where
  pub alike : Alike c d
  pub length : item_len d.request ≡ item_len c.request
  pub more : c.process_size ≤ d.process_size
  pub within : d.process_size ≤ item_len d.request
  pub written : Written d

abbrev pub BodyOk : Connection → Ended → Type 0
BodyOk c (waits d) = BodyEnd c d × (d.process_size < item_len d.request)
BodyOk c (finishes d) =
    BodyEnd c d
    × ((d.process_size ≡ item_len d.request)
        ⊎ ((d.broken ≡ true) ⊎ ((d.disk_error ≡ true) ⊎ (d.request.http_code ≡ 400))))

body_trans : {c d : Connection} (e : Ended) → BodyEnd c d → BodyOk d e → BodyOk c e
body_trans (waits f) p (q, l) = (
  record {
    alike = Alike-trans p.alike q.alike;
    length = q.length ∙ p.length;
    more = omega (arith, p.more, q.more);
    within = q.within;
    written = q.written;
  },
  l,
)
body_trans (finishes f) p (q, l) = (
  record {
    alike = Alike-trans p.alike q.alike;
    length = q.length ∙ p.length;
    more = omega (arith, p.more, q.more);
    within = q.within;
    written = q.written;
  },
  l,
)

-- A `pwrite`, in order behind what was written.
abbrev pub WriteOk : Connection → ℕ → Bool × Connection → Type 0
WriteOk c n (true, d) =
    Alike c d
    × (d.request ≡ c.request)
    × (d.process_size ≡ c.process_size + n)
    × ((h : Handle) → c.item ≡ some h → d.written ≡ (c.process_size, n) ∷ c.written)
WriteOk c n (false, d) =
    Alike c d
    × (item_len d.request ≡ item_len c.request)
    × (d.process_size ≡ c.process_size)
    × (d.written ≡ c.written)
    × (d.disk_error ≡ true)

pub write_disk-WriteOk :
    (ok : Bool) (c : Connection) (n : ℕ) → WriteOk c n (request_write_disk ok c n)
unfolding request_write_disk
write_disk-WriteOk ok c n = on_item c.item ok refl
  where
    on_item : (o : Option Handle) (k : Bool) → c.item ≡ o → WriteOk c n (write_to o k c n)
    on_item none k e = ((Alike-of refl refl refl refl refl refl), refl, refl, λ h f. cc)
    on_item (some h) true e = ((Alike-of refl refl refl refl refl refl), refl, refl, λ k f. refl)
    on_item (some h) false e = ((Alike-of refl refl refl refl refl refl), refl, refl, refl, refl)

module _ (c : Connection) (w : Written c) (l : c.process_size ≤ item_len c.request) where
  body_here : BodyEnd c c
  body_here = record {
    alike = Alike-same c;
    length = refl;
    more = omega arith;
    within = l;
    written = w;
  }

  body_broken : BodyEnd c (record c { broken = true })
  body_broken = record {
    alike = Alike-of refl refl refl refl refl refl;
    length = refl;
    more = omega arith;
    within = l;
    written = w;
  }

  -- A packet that fits and is written.
  written-BodyEnd :
      (n : ℕ) (d : Connection)
      → n ≤ item_len c.request - c.process_size
      → Alike c d
      → item_len d.request ≡ item_len c.request
      → d.process_size ≡ c.process_size + n
      → ((h : Handle) → c.item ≡ some h → d.written ≡ (c.process_size, n) ∷ c.written)
      → BodyEnd c d
  written-BodyEnd n d fits a same size ws = record {
    alike = a;
    length = same;
    more = omega (arith, size);
    within = omega (arith, same, size, fits, l);
    written = λ h e.
        let e' : c.item ≡ some h = sym a.item ∙ e in
        subst (λ ps. Covers ps 0 d.process_size) (sym (ws h e')) (size, w h e');
  }

  packet-BodyOk :
      (n : ℕ) (ok : Bool) (go : Connection → Ended)
      → ((d : Connection) → BodyEnd c d → BodyOk d (go d))
      → BodyOk c (put_packet c n ok go)
  unfolding put_packet
  packet-BodyOk n ok go f = elim (Bool-cases (ltb (item_len c.request - c.process_size) n)) [
    | inl t ↦
        rw (t, put_packet)
          (
            record {
              alike = Alike-of refl refl refl refl refl refl;
              length = refl;
              more = omega arith;
              within = l;
              written = w;
            },
            inr (inr (inr refl)),
          )
    | inr t ↦
        rw (t, put_packet)
          (on_write (ground (arith, t)) (request_write_disk ok c' n) (write_disk-WriteOk ok c' n))
  ]
    where
      c' : Connection
      c' = record c { input_size = c.input_size + n }

      again : {d : Connection} → Alike c' d → Alike c d
      again a = record {
        item = a.item;
        server = a.server;
        worker = a.worker;
        queued = a.queued;
        events = a.events;
        handler = a.handler;
      }

      on_write :
          n ≤ item_len c.request - c.process_size
          → (x : Bool × Connection) → WriteOk c' n x
          → BodyOk c (if x.0 then go x.1 else finishes x.1)
      on_write fits (true, d) (a, r, p, ws) =
          let e = written-BodyEnd n d fits (again a) (ap item_len r) p ws in
          body_trans (go d) e (f d e)
      on_write fits (false, d) (a, r, p, ws, bad) = (
        record {
          alike = again a;
          length = r;
          more = omega (arith, p);
          within = omega (arith, p, r, l);
          written = λ h e. let e' : c.item ≡ some h = sym a.item ∙ e in rw (ws, p) (w h e');
        },
        inr (inr (inl bad)),
      )

-- A PUT that has written the item's first `process_size` bytes, at most the item's length, and
-- then reads its body, packet by packet, writes the packets end to end behind them and never
-- beyond the length; it waits only for bytes that are missing, and it finishes only with the
-- whole length, a broken connection, a disk error or the code 400.
pub body_loop-BodyOk :
    (ks : List (Recv × Bool)) (c : Connection)
    → Written c
    → c.process_size ≤ item_len c.request
    → BodyOk c (body_loop ks c)
unfolding body_loop
body_loop-BodyOk [] c w l = elim (Bool-cases (ltb c.process_size (item_len c.request))) [
  | inl t ↦ rw (t, body_loop) (body_here c w l, ground (arith, t))
  | inr t ↦ rw (t, body_loop) (body_here c w l, inl (ground (arith, t, l)))
]
body_loop-BodyOk ((recv_interrupted, x) ∷ ks) c w l =
    elim (Bool-cases (ltb c.process_size (item_len c.request))) [
      | inl t ↦ rw (t, body_loop) (body_loop-BodyOk ks c w l)
      | inr t ↦ rw (t, body_loop) (body_here c w l, inl (ground (arith, t, l)))
    ]
body_loop-BodyOk ((recv_failed, x) ∷ ks) c w l =
    elim (Bool-cases (ltb c.process_size (item_len c.request))) [
      | inl t ↦ rw (t, body_loop) (body_broken c w l, inr (inl refl))
      | inr t ↦ rw (t, body_loop) (body_here c w l, inl (ground (arith, t, l)))
    ]
body_loop-BodyOk ((recv_closed, x) ∷ ks) c w l =
    elim (Bool-cases (ltb c.process_size (item_len c.request))) [
      | inl t ↦ rw (t, body_loop) (body_broken c w l, inr (inl refl))
      | inr t ↦ rw (t, body_loop) (body_here c w l, inl (ground (arith, t, l)))
    ]
body_loop-BodyOk ((received bytes, x) ∷ ks) c w l =
    elim (Bool-cases (ltb c.process_size (item_len c.request))) [
      | inl t ↦
          rw (t, body_loop)
            (packet-BodyOk c w l (length (take recv_buf_size bytes)) x (body_loop ks)
              (λ d e. body_loop-BodyOk ks d e.written e.within))
      | inr t ↦ rw (t, body_loop) (body_here c w l, inl (ground (arith, t, l)))
    ]
