-- ===== src/ParkStore/Memory/Tests.antt =====
-- go/internal/agent/setup/parkstore.go: runs of the memory store on small inputs.
use automation_agent.Common.{ℕ, ◌≡◌, refl, Text, codes, eq_text, lookup, insert, remove, [], ◌∷◌}
use automation_agent.ParkStore.{ParkRecord, key, eq_key, unpark}
use automation_agent.ParkStore.Memory.{
  MemoryStore, empty_store, drop_stale, displace, put, get, claim_locked, resolve_by_pr_key, sweep,
  delete, sweep_orphans,
}
use automation_agent.ParkStore.Memory.Invariant.{IsWf, empty-IsWf, get-put}
use automation_agent.ParkStore.Memory.Refinement.{put-IsWf, Resolved, resolve_by_pr_key-Resolved}
use automation_agent.ParkStore.Memory.Sweeps.{IsSwept, sweep-IsSwept}
use automation_agent.ParkStore.View.{after_put}

running : Unit {0}
unfolding put drop_stale displace resolve_by_pr_key claim_locked sweep delete lookup insert remove
    eq_key eq_text sweep_orphans
running = tt

abbrev run_at : Text → Text → Text → ℕ → ParkRecord
run_at sid workflow pr time = record {
  session_id = sid;
  workflow = workflow;
  pr_key = pr;
  call_id = codes "c";
  attempts = 1;
  params = [];
  updated_at = time;
}

abbrev lint_run : ParkRecord
lint_run = run_at (codes "s1") (codes "lint") (codes "o/r#7") 10

abbrev coverage_run : ParkRecord
coverage_run = run_at (codes "s2") (codes "coverage") (codes "o/r#7") 20

-- The kickoff of the first run, delivered again.
abbrev newer_run : ParkRecord
newer_run = run_at (codes "s3") (codes "lint") (codes "o/r#7") 30

abbrev two_runs : MemoryStore
two_runs = put (put empty_store lint_run) coverage_run

two_runs-IsWf : IsWf two_runs
two_runs-IsWf = put-IsWf _ coverage_run (put-IsWf _ lint_run empty-IsWf)

swept_lint : (sweep two_runs (codes "lint") 15).0 ≡ lint_run ∷ []
unfolding running
swept_lint = refl

displaced_lint : sweep_orphans (put two_runs newer_run) (codes "lint") 15 ≡ unpark lint_run ∷ []
unfolding running
displaced_lint = refl

put-IsWf_example : IsWf (put two_runs newer_run)
put-IsWf_example = put-IsWf two_runs newer_run two_runs-IsWf

get-put_example :
    get (put two_runs newer_run) (codes "s1") ≡ after_put newer_run (get two_runs) (codes "s1")
get-put_example = get-put two_runs two_runs-IsWf newer_run (codes "s1")

resolve_by_pr_key-Resolved_example :
    Resolved two_runs (key lint_run) (resolve_by_pr_key two_runs (codes "lint") (codes "o/r#7"))
resolve_by_pr_key-Resolved_example =
    resolve_by_pr_key-Resolved two_runs (codes "lint") (codes "o/r#7") two_runs-IsWf

sweep-IsSwept_example : IsSwept (codes "lint") 15 two_runs (sweep two_runs (codes "lint") 15)
sweep-IsSwept_example = sweep-IsSwept two_runs (codes "lint") 15 two_runs-IsWf
