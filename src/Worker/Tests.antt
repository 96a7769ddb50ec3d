-- ===== src/Worker/Tests.antt =====
-- Two workers, of which one is added by a configuration that fails.
use olivehc.Prelude.{true, false, ◌≡◌, List, [], ◌∷◌, map, length, arith, refl}
use olivehc.Worker.{
  Pool, Creation, no_thread, started, new_worker, worker_conf_check, worker_create, worker_delete,
  worker_conf_rollback, choose_workers,
}
use olivehc.Worker.Ring.{rollback-check}
use olivehc.Worker.Turns.{with_request, choose_workers-map}

abbrev two : Pool
two = record {
  ring = new_worker 1 ∷ new_worker 2 ∷ [];
  leaving = [];
  workers = 2;
  new_workers = 0;
  crashed = false;
}

-- Four workers are wanted, and the second new one has no thread.
abbrev creations : List Creation
creations = started 3 ∷ no_thread ∷ []

checked :
    (worker_conf_check 4 creations two).1.ring ≡ new_worker 1 ∷ new_worker 3 ∷ new_worker 2 ∷ []
unfolding worker_conf_check
checked = refl

rollback-check_example :
    ((worker_conf_rollback (worker_conf_check 4 creations two).1).ring ≡ two.ring)
    × ((worker_conf_rollback (worker_conf_check 4 creations two).1).workers ≡ 2)
rollback-check_example =
    rollback-check 4 creations (new_worker 1) (new_worker 2 ∷ []) two (ground arith) refl

choose_workers-map_example : (choose_workers (length two.ring) two).ring ≡ map with_request two.ring
choose_workers-map_example = choose_workers-map two (ground arith)

-- After all workers are deleted, another one makes the program follow NULL.
lost : (worker_create (started 5) (worker_delete 2 0 two)).1.crashed ≡ true
unfolding worker_create worker_delete
lost = refl
