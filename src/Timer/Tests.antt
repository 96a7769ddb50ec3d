-- ===== src/Timer/Tests.antt =====
-- Runs of utils/timer.c on two groups, and the theorems at them.
use olivehc.Prelude.{◌≡◌, true, [], ◌∷◌, arith, refl}
use olivehc.Timer.{TimerNode, Timer, timer_expire, timer_closest, timer_add, in_group, timer_update}
use olivehc.Timer.Order.{TimerIsValid}
use olivehc.Timer.Expire.{Expires, Closest, timer_expire-Expires, timer_closest-Closest}
use olivehc.Timer.Change.{AddOk, new_timeout, timer_add-AddOk}
use olivehc.Timer.Update.{UpdatesTo, timer_update-UpdatesTo}

abbrev two_groups : Timer
two_groups = record {
  groups =
      record {
        timeout = 10;
        nodes =
            record { handle = 1; timeout = 105; group = 10 }
            ∷ record { handle = 2; timeout = 110; group = 10 }
            ∷ [];
      }
      ∷ record { timeout = 60; nodes = record { handle = 3; timeout = 150; group = 60 } ∷ [] }
      ∷ [];
  expires = [];
  now = 100;
}

two_groups-IsValid : TimerIsValid two_groups
two_groups-IsValid = record {
  groups = (
    record { sorted = (omega arith, (omega arith, tt)); due = (omega arith, (omega arith, tt)) },
    (record { sorted = (omega arith, tt); due = (omega arith, tt) }, tt),
  );
}

timer_expire-Expires_example : Expires 107 two_groups (timer_expire 107 two_groups)
timer_expire-Expires_example = timer_expire-Expires two_groups 107 two_groups-IsValid (omega arith)

timer_closest-Closest_example : Closest 102 two_groups (timer_closest 102 two_groups)
timer_closest-Closest_example =
    timer_closest-Closest two_groups 102 two_groups-IsValid (omega arith)

-- The node of timeout 105 comes first.
closest_runs : (timer_closest 102 two_groups).0 ≡ 3
unfolding timer_closest
closest_runs = refl

timer_add-AddOk_example : AddOk true two_groups 4 10 (timer_add true two_groups 4 10)
timer_add-AddOk_example = timer_add-AddOk true two_groups 4 10 two_groups-IsValid

abbrev first_node : TimerNode
first_node = record { handle = 1; timeout = 105; group = 10 }

timer_update-UpdatesTo_example :
    UpdatesTo true two_groups first_node
      (new_timeout first_node 30)
      (timer_update true two_groups first_node 30)
unfolding in_group
timer_update-UpdatesTo_example =
    timer_update-UpdatesTo true two_groups first_node 30 two_groups-IsValid refl (omega arith)
