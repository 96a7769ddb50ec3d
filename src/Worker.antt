-- ===== src/Worker.antt =====
-- worker.c: the worker threads, which are added and deleted with the configuration, and the choice
-- of a worker for a request.

pub mod Ring
pub mod Turns
mod Tests
use olivehc.Prelude.{
  ℕ, zero, suc, ◌+◌, ◌-◌, ◌*◌, Bool, true, false, Option, none, some, List, [], ◌∷◌, ◌++◌, ◌==◌,
  if◌then◌else◌,
}

-- `ohc_worker_t`, without its pipes and its lists; a worker is named by its handle.
pub record Worker : Type 0 where
  pub handle : ℕ
  pub request_nr : ℕ
  pub quit_time : ℕ

-- The ring of the workers, from `current_worker` on; those that were deleted from it, the last first;
-- and `workers` and `new_workers`, of which a negative one counts as 0. `current_worker` is NULL where
-- there is neither a worker nor a deleted one. Without a worker but with a deleted one it is the one
-- that was deleted last, whose links are NULL, and `crashed` says that the program has followed NULL.
pub record Pool : Type 0 where
  pub ring : List Worker
  pub leaving : List Worker
  pub workers : ℕ
  pub new_workers : ℕ
  pub crashed : Bool

-- `worker_create`: a call before that of `pthread_create` fails, or this one does, or the worker
-- has this handle.
pub data Creation : Type 0 where
  not_prepared no_thread : Creation
  started : ℕ → Creation

abbrev pub big_time : ℕ
big_time = 3638880000

abbrev pub new_worker : ℕ → Worker
new_worker handle = record { handle = handle; request_nr = 0; quit_time = 0 }

-- Whether `worker_create` returns OHC_OK. A worker stands behind `current_worker`, or is the first. A first worker without a thread stays `current_worker`,
-- though it is freed.
unfoldable pub worker_create : Creation → Pool → Bool × Pool
worker_create not_prepared p = (false, p)
worker_create no_thread p = (false, p)
worker_create (started handle) p = elim p.ring [
  | [] ↦ elim p.leaving [
    | [] ↦ (true, record p { ring = new_worker handle ∷ []; workers = p.workers + 1 })
    | l ∷ ls ↦ (false, record p { crashed = true })
  ]
  | c ∷ ws ↦ (true, record p { ring = c ∷ new_worker handle ∷ ws; workers = p.workers + 1 })
]

-- `current_worker->next`, which is `current_worker` where it is alone.
unfoldable pub delete_next : ℕ → Pool → Pool
delete_next quit_time p = elim p.ring [
  | [] ↦ record p { crashed = true }
  | c ∷ ws ↦ elim ws [
    | [] ↦ record p {
      ring = [];
      leaving = record c { quit_time = if quit_time == 0 then big_time else quit_time } ∷ p.leaving;
      workers = p.workers - 1;
    }
    | w ∷ rest ↦ record p {
      ring = c ∷ rest;
      leaving = record w { quit_time = if quit_time == 0 then big_time else quit_time } ∷ p.leaving;
      workers = p.workers - 1;
    }
  ]
]

unfoldable pub worker_delete : ℕ → ℕ → Pool → Pool
unfolding delete_next
worker_delete zero quit_time p = p
worker_delete (suc num) quit_time p = worker_delete num quit_time (delete_next quit_time p)

-- The loop of `worker_conf_check`, with the number of the workers that were created; how the next
-- creations end is a list, and the memory ends with it.
unfoldable pub create_loop : ℕ → List Creation → ℕ → Pool → Bool × Pool
unfolding worker_create
create_loop zero ks i p = (true, p)
create_loop (suc n) [] i p = (false, record p { new_workers = i })
create_loop (suc n) (k ∷ ks) i p =
    let (ok, q) = worker_create k p in
    if ok then create_loop n ks (i + 1) q else (false, record q { new_workers = i })

unfoldable pub worker_conf_check : ℕ → List Creation → Pool → Bool × Pool
unfolding create_loop
worker_conf_check threads ks p =
    if threads == 0
    then (false, p)
    else create_loop (threads - p.workers) ks 0 (record p { new_workers = threads - p.workers })

unfoldable pub worker_conf_load : ℕ → Pool → Pool
unfolding worker_delete
worker_conf_load threads p = record (worker_delete (p.workers - threads) 0 p) { new_workers = 0 }

unfoldable pub worker_conf_rollback : Pool → Pool
unfolding worker_delete
worker_conf_rollback p = worker_delete p.new_workers 0 p

unfoldable pub worker_quit : ℕ → Pool → Pool
unfolding worker_delete
worker_quit quit_time p = worker_delete p.workers quit_time p

-- The choice of `worker_request_dispatch`, and the count of the worker, if the pipe takes the
-- request.
unfoldable pub choose_worker : Bool → Pool → Option ℕ × Pool
choose_worker taken p = if p.workers == 0 then (none, p) else elim p.ring [
  | [] ↦ (none, p)
  | c ∷ ws ↦
      if taken
      then (
        some c.handle,
        record p { ring = ws ++ record c { request_nr = c.request_nr + 1 } ∷ [] },
      )
      else (none, record p { ring = ws ++ c ∷ [] })
]

-- Requests that are dispatched one after another.
unfoldable pub choose_workers : ℕ → Pool → Pool
unfolding choose_worker
choose_workers zero p = p
choose_workers (suc n) p = choose_workers n (choose_worker true p).1
