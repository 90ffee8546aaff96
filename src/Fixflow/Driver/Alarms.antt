-- ===== src/Fixflow/Driver/Alarms.antt =====
-- go/internal/agent/fixflow/driver.go: no run vanishes without a word.
use automation_agent.Common.{◌≡◌, true, [], Text, pos}
use automation_agent.ParkStore.Interface.{ParkStore}
use automation_agent.Fixflow.Driver.{World, Spec, Deps, State, SummaryInput, no_comparison, clean}

module _ (s : ParkStore) (w : World s.State) (spec : Spec) (d : Deps)
    (notifier : d.has_notifier ≡ true) where
  abbrev St : Type 0
  St = State s w spec d

  abbrev clean_input : Text → SummaryInput
  clean_input repo = record {
    outcome = clean;
    workflow = spec.name;
    full_repo = repo;
    pr_number = pos 0;
    attempts = 0;
    report = [];
    last_output = [];
    changed = no_comparison;
  }
