-- ===== src/Tasks/InProcess/Tests.antt =====
-- go/internal/tasks/inprocess.go: interleavings of a small pool.
use automation_agent.Common.{◌≤◌, ◌≡◌, refl, true, false, List, [], ◌∷◌}
use automation_agent.Tasks.InProcess.{
  Pool, new_pool, Action, take_slot, register, release, finish, shut, drain, act, Runs, stop, step,
}
use automation_agent.Tasks.InProcess.Bounds.{executing-bounded, drained-idle, Drains, closed-Drains}

running : Unit {0}
unfolding new_pool act
running = tt

-- A dispatch starts, the pool is closed while a second call holds a slot, and that call backs out.
abbrev late_call : List Action
late_call = take_slot ∷ register ∷ take_slot ∷ shut ∷ register ∷ []

abbrev one_left : Pool
one_left = record {
  capacity = 2;
  sem = 1;
  wg = 1;
  closed = true;
  drained = false;
  pending = 0;
  executing = 1;
  releasing = 0;
}

late_call-Runs : Runs (new_pool 2) late_call one_left
unfolding running
late_call-Runs = step refl (step refl (step refl (step refl (step refl stop))))

abbrev end_of_pool : List Action
end_of_pool = release ∷ finish ∷ drain ∷ []

abbrev drained_pool : Pool
drained_pool = record one_left { sem = 0; wg = 0; drained = true; executing = 0 }

all_of_it : Runs (new_pool 2) (take_slot ∷ register ∷ shut ∷ end_of_pool) drained_pool
unfolding running
all_of_it = step refl (step refl (step refl (step refl (step refl (step refl stop)))))

abbrev late_pool : Pool
late_pool = record drained_pool { sem = 1; pending = 1 }

late_slot : Runs drained_pool (take_slot ∷ []) late_pool
unfolding running
late_slot = step refl stop

executing-bounded_example : one_left.executing ≤ 2
executing-bounded_example = executing-bounded 2 late_call one_left late_call-Runs

drained-idle_example :
    (late_pool.executing ≡ 0) × (late_pool.releasing ≡ 0) × (late_pool.closed ≡ true)
drained-idle_example =
    drained-idle 2 (take_slot ∷ register ∷ shut ∷ end_of_pool) (take_slot ∷ []) drained_pool
      late_pool all_of_it refl late_slot

closed-Drains_example : Drains one_left
closed-Drains_example = closed-Drains 2 late_call one_left late_call-Runs refl
