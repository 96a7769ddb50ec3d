-- ===== src/Worker/Turns.antt =====
-- worker.c: the requests are dispatched to the workers in turn.
use olivehc.Prelude.{
  ◌+◌, ◌≡◌, ◌≢◌, true, false, List, [], ◌∷◌, ◌++◌, ◌==◌, length, map, arith, refl, ap, sym, ◌∙◌,
}
use olivehc.Worker.{Worker, Pool, choose_worker, choose_workers}

-- A worker with one more request.
abbrev pub with_request : Worker → Worker
with_request w = record w { request_nr = w.request_nr + 1 }

append_nil : (ws : List Worker) → ws ++ [] ≡ ws
append_nil [] = refl
append_nil (w ∷ ws) = ap (λ xs. w ∷ xs) (append_nil ws)

append-append : (xs ys zs : List Worker) → (xs ++ ys) ++ zs ≡ xs ++ (ys ++ zs)
append-append [] ys zs = refl
append-append (x ∷ xs) ys zs = ap (λ ws. x ∷ ws) (append-append xs ys zs)

-- After as many requests as there are workers in the first part.
choose-ring :
    (xs ys : List Worker) (p : Pool)
    → p.workers ≢ 0
    → p.ring ≡ xs ++ ys
    → (choose_workers (length xs) p).ring ≡ ys ++ map with_request xs
unfolding choose_workers choose_worker
choose-ring [] ys p some_worker ring = ring ∙ sym (append_nil ys)
choose-ring (x ∷ xs) ys p some_worker ring =
    let not_none : (p.workers == 0) ≡ false = ground (arith, some_worker) in
    let q : Pool = record p { ring = (xs ++ ys) ++ with_request x ∷ [] } in
    let next : (choose_worker true p).1 ≡ q = rw (not_none, choose_worker, ring) refl in
    ap (λ r. (choose_workers (length xs) r).ring) next
    ∙ choose-ring xs (ys ++ with_request x ∷ []) q some_worker
        (append-append xs ys (with_request x ∷ []))
    ∙ append-append ys (with_request x ∷ []) (map with_request xs)

-- Where there are workers, as many requests as the ring has workers, one after another and all
-- taken, add one request to each worker, and leave the ring in its order.
pub choose_workers-map :
    (p : Pool) → p.workers ≢ 0 → (choose_workers (length p.ring) p).ring ≡ map with_request p.ring
choose_workers-map p some_worker = choose-ring p.ring [] p some_worker (sym (append_nil p.ring))
