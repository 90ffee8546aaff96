-- ===== src/Root/Tests.antt =====
-- go/internal/agent/root: a dispatcher with two workflows.
use automation_agent.Common.{◌≡◌, refl, true, false, none, some, [], ◌∷◌, insert, eq_text}
use automation_agent.Ingest.{kind_cron_daily, kind_ci, kind_lint, kind_coverage, kind_review}
use automation_agent.Root.{
  Handler, Dispatcher, Deps, register, register_some, register_fixes, register_summary, built,
  build_root_dispatcher, IsSent, build_root_dispatcher-IsSent,
}

abbrev succeeds : Handler
succeeds e = true

abbrev fails : Handler
fails e = false

abbrev two_workflows : Deps
two_workflows = record {
  summary_daily = none;
  summary_builds = true;
  lint_kickoff = some succeeds;
  coverage_kickoff = none;
  ci_resume = some fails;
  review_kickoff = none;
}

abbrev two_handlers : Dispatcher
two_handlers = (kind_lint, succeeds) ∷ (kind_ci, fails) ∷ []

two_workflows-built : build_root_dispatcher two_workflows ≡ some two_handlers
unfolding build_root_dispatcher built register_summary register_fixes register_some register insert
    eq_text
two_workflows-built = refl

build_root_dispatcher-IsSent_example :
    IsSent two_handlers kind_cron_daily none
    × IsSent two_handlers kind_lint (some succeeds)
    × IsSent two_handlers kind_coverage none
    × IsSent two_handlers kind_ci (some fails)
    × IsSent two_handlers kind_review none
build_root_dispatcher-IsSent_example =
    build_root_dispatcher-IsSent two_workflows two_handlers two_workflows-built
