-- ===== src/Worker/Ring.antt =====
-- worker.c: the workers that a configuration adds, and those that a rollback takes away.
use olivehc.Prelude.{
  true, ℕ, zero, suc, ◌+◌, ◌-◌, ◌≡◌, ◌≢◌, false, List, [], ◌∷◌, ◌++◌, ◌==◌, length, length-append,
  arith, refl, ap, sym, ◌∙◌,
}
use olivehc.Worker.{
  Worker, Pool, Creation, not_prepared, no_thread, started, new_worker, worker_create, delete_next,
  worker_delete, create_loop, worker_conf_check, worker_conf_rollback,
}

-- The ring is that of `current_worker`, then these; and `workers` is this.
pub record Has (c : Worker) (ws : List Worker) (n : ℕ) (p : Pool) : Type 0 where
  pub ring : p.ring ≡ c ∷ ws
  pub workers : p.workers ≡ n

delete-Has :
    (c : Worker) (k quit_time n : ℕ) (us ws : List Worker) (p : Pool)
    → length us ≡ k
    → Has c (us ++ ws) (n + k) p
    → Has c ws n (worker_delete k quit_time p)
unfolding worker_delete delete_next
delete-Has c zero q n [] ws p l v = record { ring = v.ring; workers = omega (arith, v.workers) }
delete-Has c zero q n (u ∷ us) ws p l v = ground (arith, l)
delete-Has c (suc k) q n [] ws p l v = ground (arith, l)
delete-Has c (suc k) q n (u ∷ us) ws p l v =
    delete-Has c k q n us ws (delete_next q p) (ground (arith, l)) record {
      ring = rw (v.ring, delete_next) refl;
      workers = rw (v.ring, delete_next) (omega (arith, v.workers));
    }

-- These workers were created, after `i` others, and counted in `new_workers`.
pub record Created (c : Worker) (ws : List Worker) (n i : ℕ) (q : Pool) : Type 0 where
  pub news : List Worker
  pub has : Has c (news ++ ws) (n + length news) q
  pub new_workers : q.new_workers ≡ i + length news

append_one :
    (us : List Worker) (w : Worker) (ws : List Worker) → us ++ w ∷ ws ≡ (us ++ w ∷ []) ++ ws
append_one [] w ws = refl
append_one (u ∷ us) w ws = ap (λ xs. u ∷ xs) (append_one us w ws)

-- The first of them is counted with the others.
more-Created :
    (c w : Worker) (ws : List Worker) (n i : ℕ) (q : Pool)
    → Created c (w ∷ ws) (n + 1) (i + 1) q
    → Created c ws n i q
more-Created c w ws n i q v = record {
  news = v.news ++ w ∷ [];
  has = record {
    ring = v.has.ring ∙ ap (λ xs. c ∷ xs) (append_one v.news w ws);
    workers = omega (arith, v.has.workers, length-append v.news (w ∷ []));
  };
  new_workers = omega (arith, v.new_workers, length-append v.news (w ∷ []));
}

none-Created :
    (c : Worker) (ws : List Worker) (n i : ℕ) (q : Pool)
    → Has c ws n q
    → q.new_workers ≡ i
    → Created c ws n i q
none-Created c ws n i q v e = record {
  news = [];
  has = record { ring = v.ring; workers = omega (arith, v.workers) };
  new_workers = omega (arith, e);
}

create_loop-Created :
    (c : Worker) (k : ℕ) (ks : List Creation) (i n : ℕ) (ws : List Worker) (p : Pool)
    → Has c ws n p
    → p.new_workers ≡ i + k
    → Created c ws n i (create_loop k ks i p).1
unfolding create_loop worker_create
create_loop-Created c zero ks i n ws p v e = none-Created c ws n i p v (omega (arith, e))
create_loop-Created c (suc k) [] i n ws p v e =
    none-Created c ws n i (record p { new_workers = i })
      record { ring = v.ring; workers = v.workers } refl
create_loop-Created c (suc k) (not_prepared ∷ ks) i n ws p v e =
    none-Created c ws n i (record p { new_workers = i })
      record { ring = v.ring; workers = v.workers } refl
create_loop-Created c (suc k) (no_thread ∷ ks) i n ws p v e =
    none-Created c ws n i (record p { new_workers = i })
      record { ring = v.ring; workers = v.workers } refl
create_loop-Created c (suc k) (started h ∷ ks) i n ws p v e =
    let w = new_worker h in
    let q : Pool = record p { ring = c ∷ w ∷ ws; workers = p.workers + 1 } in
    let made : worker_create (started h) p ≡ (true, q) = rw (v.ring, worker_create) refl in
    rw (made, create_loop)
      (more-Created c w ws n i (create_loop k ks (i + 1) q).1 (
        create_loop-Created c k ks (i + 1) (n + 1) (w ∷ ws) q
          record { ring = refl; workers = omega (arith, v.workers) } (omega (arith, e))))

check-Created :
    (c : Worker) (threads : ℕ) (ks : List Creation) (ws : List Worker) (p : Pool)
    → threads ≢ 0
    → p.ring ≡ c ∷ ws
    → Created c ws p.workers 0 (worker_conf_check threads ks p).1
unfolding worker_conf_check
check-Created c threads ks ws p some_thread ring =
    let not_none : (threads == 0) ≡ false = ground (arith, some_thread) in
    rw (not_none, worker_conf_check)
      (create_loop-Created c (threads - p.workers) ks 0 p.workers ws
        (record p { new_workers = threads - p.workers }) record { ring = ring; workers = refl }
        (omega arith))

-- Where a worker is in the ring and some threads are wanted, `worker_conf_rollback` after
-- `worker_conf_check`, whether or not this created all workers, leaves the ring and the count
-- of workers as they were before.
pub rollback-check :
    (threads : ℕ) (ks : List Creation) (c : Worker) (ws : List Worker) (p : Pool)
    → threads ≢ 0
    → p.ring ≡ c ∷ ws
    → ((worker_conf_rollback (worker_conf_check threads ks p).1).ring ≡ p.ring)
      × ((worker_conf_rollback (worker_conf_check threads ks p).1).workers ≡ p.workers)
unfolding worker_conf_rollback
rollback-check threads ks c ws p some_thread ring =
    let q = (worker_conf_check threads ks p).1 in
    let v = check-Created c threads ks ws p some_thread ring in
    let u =
      delete-Has c q.new_workers 0 p.workers v.news ws q (omega (arith, v.new_workers))
        record { ring = v.has.ring; workers = omega (arith, v.has.workers, v.new_workers) } in
    (u.ring ∙ sym ring, u.workers)
