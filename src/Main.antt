-- ===== src/Main.antt =====
-- go/cmd/agent/main.go: how the parts are made of the configuration and composed.
pub mod Deployed
mod Tests
use automation_agent.Common.{
  ℕ, ◌*◌, ◌^◌, Bool, true, ◌&&◌, List, [], ◌∷◌, leb, if◌then◌else◌, eq_text, ℤ, pos, negsuc,
}
use automation_agent.Config.Settings.{Config, cloudtasks}
use automation_agent.Tasks.CloudTasks.{CloudTasks, new_cloud_tasks}
use automation_agent.Tasks.InProcess.{Pool, new_pool, default_max_concurrent}
use automation_agent.Fixflow.Driver
use automation_agent.Reviewer.Filter.{new_file_filter}
use automation_agent.Reviewer.Intake.{ReviewEngine}
use automation_agent.Webhook.{Server}

pub data Transport : Type 0 where
  cloud_tasks : CloudTasks → Transport
  in_process : Pool → Transport

abbrev pub nat_or : ℕ → ℤ → ℕ
nat_or def (pos n) = if leb 1 n then n else def
nat_or def (negsuc n) = def

module _ {F : Type 0} (c : Config F) where
  unfoldable pub build_transport : Transport
  build_transport =
      if eq_text c.tasks_backend cloudtasks
      then cloud_tasks (
          new_cloud_tasks c.tasks_project c.tasks_location c.tasks_queue c.dispatch_url
            c.internal_token c.tasks_dispatch_deadline)
      else in_process (new_pool default_max_concurrent)

  -- The options of `webhook.New`.
  unfoldable pub server_of : Server
  server_of = record {
    secret = c.github_webhook_secret;
    internal_token = c.internal_token;
    has_sweep = true;
    has_dispatch = true;
  }

  -- The dependencies of a fix engine, with the defaults of `NewEngine`: times are in nanoseconds.
  unfoldable pub fix_deps : Bool → Driver.Deps
  fix_deps has_notifier = record {
    has_notifier = has_notifier;
    max_iter = nat_or 3 c.max_iterations;
    ci_timeout = nat_or (90 * 60 * 10 ^ 9) c.ci_timeout;
    orphan_ttl = nat_or (24 * 3600 * 10 ^ 9) c.orphan_ttl;
  }

  -- The reviewer's engine: a cap that is not positive is off.
  unfoldable pub review_engine : ReviewEngine
  review_engine = record {
    enabled = c.review_enabled;
    has_client = true;
    has_models = true;
    skip_drafts = c.review_skip_drafts;
    filter = new_file_filter c.review_exclude_globs;
    max_files = nat_or 0 c.review_max_files;
    max_diff_bytes = nat_or 0 c.review_max_diff_bytes;
  }

-- The engines one after another, each on the state that the one before it has left: whether none of
-- them returned an error. `ciResumeHandler`, and the sweeps, do not stop at one.
unfoldable pub for_all_engines : {S : Type 0} → List (S → Bool × S) → S → Bool × S
for_all_engines [] s = (true, s)
for_all_engines (f ∷ fs) s =
    let (fine, s1) = f s in let (rest, s2) = for_all_engines fs s1 in (fine && rest, s2)
