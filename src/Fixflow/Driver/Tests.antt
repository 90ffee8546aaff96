-- ===== src/Fixflow/Driver/Tests.antt =====
-- go/internal/agent/fixflow/driver.go: the driver over the memory store, in a small world.
use automation_agent.Common.{
  ◌++◌, ◌≡◌, ◌≤◌, refl, true, false, none, some, List, [], ◌∷◌, length, codes, eq_text, text_eq,
  pos, arith, lookup, insert, remove, decimal, atoi,
}
use automation_agent.ParkStore.{eq_key, key_eq}
use automation_agent.ParkStore.Memory.{
  MemoryStore, empty_store, drop_stale, displace, put, claim_locked, resolve_by_pr_key, delete,
}
use automation_agent.ParkStore.Memory.Laws.{
  memory_park_store, memory-ParkStoreLaws, empty_store-Holds,
}
use automation_agent.Fixflow.Keys.{before, after, pr_key, split_pr_key, split_pr_key-pr_key}
use automation_agent.Fixflow.Driver.{
  RunParams, Notice, Kickoff, Spec, Deps, number, DriveResult, node_apply_fix, DriverState, World,
  ResumeInput, kickoff, resume, sweep_timeouts, sweep_orphans, Event, kicks_off, reports,
  run_events, step, node_output,
}
use automation_agent.Fixflow.Driver.Attempts.{IsBounded}
use automation_agent.Fixflow.Driver.Bounded.{run_events-IsBounded}
use automation_agent.Fixflow.Driver.Notices.{AreTimeouts, sweeps_notices}

split_pr_key-pr_key_example : split_pr_key (pr_key (codes "o/r") 17) ≡ (codes "o/r", pos 17)
split_pr_key-pr_key_example = split_pr_key-pr_key (codes "o/r") 17 (ground arith) (omega arith)

abbrev lint : Spec
lint = record {
  name = codes "lint";
  check_name = codes "lint-check";
  success_title = codes "Lint fixed";
  review_title = codes "Lint needs review";
  clean_title = codes "Nothing to fix";
}

abbrev two_attempts : Deps
two_attempts = record { has_notifier = true; max_iter = 2; ci_timeout = 60; orphan_ttl = 600 }

abbrev parked : DriveResult
parked = record {
  parked_call_id = codes "call";
  node_outputs =
      record { node = node_apply_fix; error = none; clean = false; pr_number = some (number 7) }
      ∷ [];
}

abbrev params : RunParams
params = record {
  owner = codes "o";
  repo = codes "r";
  full_repo = codes "o/r";
  base = codes "main";
  report = [];
  feedback = [];
}

-- Every run parks on pull request 7, and everything else succeeds.
abbrev world : World MemoryStore
world = record {
  now = λ st. 100;
  new_session_id = λ st. codes "s1";
  default_branch = λ st owner name. some (codes "main");
  start = λ st sid. some parked;
  resume = λ st sid call conclusion output. some parked;
  delete_session = λ st sid. true;
  notify = λ st n. true;
  compare = λ st rp. none;
  marshal = λ rp. some (codes "params");
  unmarshal = λ t. some params;
}

-- The same, but no run can be driven.
abbrev stuck_world : World MemoryStore
stuck_world = record world { start = λ st sid. none }

abbrev idle : DriverState MemoryStore
idle = record { store = empty_store; timers = []; deleted = []; notices = [] }

abbrev lint_kickoff : Kickoff
lint_kickoff = record {
  repo = codes "o/r";
  owner = codes "o";
  name = codes "r";
  base = [];
  report_text = codes "unused variable";
}

abbrev red : ResumeInput
red = record {
  full_repo = codes "o/r";
  pr_number = 7;
  conclusion = codes "failure";
  output_text = codes "still red";
}

abbrev MemoryEvent : Type 0
MemoryEvent = Event memory_park_store world lint two_attempts

abbrev two_reds : List MemoryEvent
two_reds = kicks_off lint_kickoff ∷ reports red ∷ reports red ∷ reports red ∷ []

idle-IsBounded : IsBounded memory_park_store memory-ParkStoreLaws world lint two_attempts idle
idle-IsBounded = empty_store-Holds (λ r. r.attempts ≤ 2)

running : Unit {0}
unfolding run_events put drop_stale displace resolve_by_pr_key claim_locked delete lookup insert
    remove eq_key eq_text step kickoff resume pr_key node_output decimal atoi before after
running = tt

-- The second red result ends the run, and the third finds nothing: one notice in all.
two_reds_notices :
    length (run_events memory_park_store world lint two_attempts idle two_reds).notices ≡ 1
unfolding running
two_reds_notices = refl

run_events-IsBounded_example :
    IsBounded memory_park_store memory-ParkStoreLaws world lint two_attempts
      (run_events memory_park_store world lint two_attempts idle two_reds)
run_events-IsBounded_example =
    run_events-IsBounded memory_park_store memory-ParkStoreLaws world lint two_attempts two_reds
      idle (omega arith) idle-IsBounded

abbrev one_parked : DriverState MemoryStore
one_parked = (kickoff memory_park_store world lint two_attempts idle lint_kickoff).1

sweeps_notices_example :
    ((ns : List Notice) × ((sweep_timeouts memory_park_store world lint two_attempts
          one_parked).1.notices
        ≡ one_parked.notices ++ ns)
      × AreTimeouts memory_park_store world lint two_attempts
          (memory_park_store.sweep one_parked.store (codes "lint") 40).0.0
          ns)
    × ((sweep_orphans memory_park_store world lint two_attempts one_parked).1.notices
        ≡ one_parked.notices)
sweeps_notices_example = sweeps_notices memory_park_store world lint two_attempts one_parked refl
