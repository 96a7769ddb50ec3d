-- ===== src/Request/Tests.antt =====
-- Ranges of a body of 10 bytes.
use olivehc.Prelude.{◌≡◌, arith, refl}
use olivehc.Http.Range.{no_set, at}
use olivehc.Request.{window, not_satisfiable, settle_range}
use olivehc.Request.Range.{Asked, Sends, settle_range-Sends}

settle_range-Sends_example : Sends (Asked no_set (at 4) 10) 10 (settle_range no_set (at 4) 10)
settle_range-Sends_example = settle_range-Sends no_set (at 4) 10 (omega arith)

last_four : settle_range no_set (at 4) 10 ≡ window 6 9
unfolding settle_range
last_four = refl

last_none : settle_range no_set (at 0) 10 ≡ not_satisfiable
unfolding settle_range
last_none = refl

of_empty : settle_range no_set (at 5) 0 ≡ not_satisfiable
unfolding settle_range
of_empty = refl

to_end : settle_range (at 3) (at 99) 10 ≡ window 3 9
unfolding settle_range
to_end = refl
