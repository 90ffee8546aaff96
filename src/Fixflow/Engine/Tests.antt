-- ===== src/Fixflow/Engine/Tests.antt =====
-- go/internal/agent/fixflow/engine.go and envelope.go: the guards on small inputs.
use automation_agent.Common.{
  ℕ, ◌≡◌, ◌⊎◌, refl, true, false, none, some, List, [], ◌∷◌, Text, codes, eq_text,
}
use automation_agent.ParkStore.Memory.{MemoryStore, empty_store}
use automation_agent.ParkStore.Memory.Laws.{memory_park_store}
use automation_agent.Fixflow.Keys.{before, after}
use automation_agent.Fixflow.Driver.{Spec, Deps, DriverState, World}
use automation_agent.Fixflow.Engine.{
  KickoffBody, CheckEvent, split_repo, is_blank, cap_work, engine_kickoff, engine_resume,
  parse_kickoff, repo_allowed, refused, not_allowed,
}
use automation_agent.Fixflow.Engine.Guards.{
  IsGuarded, engine_kickoff-IsGuarded, IsOwn, engine_resume-IsOwn,
}

running : Unit {0}
unfolding split_repo before after cap_work engine_kickoff engine_resume parse_kickoff repo_allowed
    is_blank eq_text
running = tt

split_example : split_repo (codes "octo/hello") ≡ some (codes "octo", codes "hello")
unfolding running
split_example = refl

abbrev three_files : List ℕ
three_files = 7 ∷ 8 ∷ 9 ∷ []

abbrev lint : Spec
lint = record {
  name = codes "lint";
  check_name = codes "lint-check";
  success_title = codes "Lint fixed";
  review_title = codes "Lint needs review";
  clean_title = codes "Nothing to fix";
}

abbrev deps : Deps
deps = record { has_notifier = false; max_iter = 3; ci_timeout = 60; orphan_ttl = 600 }

-- The runner answers nothing and no PR is parked.
abbrev world : World MemoryStore
world = record {
  now = λ st. 100;
  new_session_id = λ st. codes "s1";
  default_branch = λ st owner name. none;
  start = λ st sid. none;
  resume = λ st sid call conclusion output. none;
  delete_session = λ st sid. true;
  notify = λ st n. true;
  compare = λ st rp. none;
  marshal = λ rp. some (codes "params");
  unmarshal = λ t. none;
}

abbrev idle : DriverState MemoryStore
idle = record { store = empty_store; timers = []; deleted = []; notices = [] }

abbrev foreign_repo : KickoffBody
foreign_repo = record {
  repo = codes "evil/repo";
  base = codes "main";
  report = codes "x";
  report_text = codes "x";
}

abbrev own_repos : List Text
own_repos = codes "octo/hello" ∷ []

foreign_repo_refused :
    engine_kickoff memory_park_store world lint deps own_repos idle (some foreign_repo)
    ≡ (refused not_allowed, idle)
unfolding running
foreign_repo_refused = refl

engine_kickoff-IsGuarded_example :
    IsGuarded memory_park_store world lint deps own_repos idle
      (some foreign_repo)
      (engine_kickoff memory_park_store world lint deps own_repos idle (some foreign_repo))
engine_kickoff-IsGuarded_example =
    engine_kickoff-IsGuarded memory_park_store world lint deps own_repos idle (some foreign_repo)

abbrev coverage_check : CheckEvent
coverage_check = record {
  repo_full_name = codes "octo/hello";
  pr_number = 7;
  check_name = codes "coverage-check";
  status = codes "completed";
  conclusion = codes "failure";
  output_text = [];
}

engine_resume-IsOwn_example :
    ((engine_resume memory_park_store world lint deps idle (some coverage_check)).1 ≡ idle)
    ⊎ IsOwn memory_park_store world lint deps coverage_check
engine_resume-IsOwn_example =
    engine_resume-IsOwn memory_park_store world lint deps idle coverage_check
