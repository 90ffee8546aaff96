-- ===== src/Config/Validate.antt =====
-- go/internal/config/config.go, `Validate`: the checks in their order, each with the variable that
-- its error names.
pub mod Checks
use automation_agent.Common.{
  ℕ, ◌*◌, ◌^◌, Bool, true, false, not, ◌&&◌, ◌||◌, Option, none, some, List, [], ◌∷◌, any, Text,
  codes, eq_text, is_empty, trim_space, ℤ, if◌then◌else◌,
}
use automation_agent.Config.Settings.{
  Config, Url, Outside, app_mode, between, at_least, less, cloudtasks, dispatch_path,
}
use automation_agent.Config.Env.{Error, parse_int}

-- strings.HasSuffix(s, t)
abbrev pub has_suffix : Text → Text → Bool
has_suffix [] t = is_empty t
has_suffix (c ∷ s) t = eq_text (c ∷ s) t || has_suffix s t

abbrev pub one_of : List Text → Text → Bool
one_of values v = any (eq_text v) values

abbrev pub good_url : Option Url → Bool
good_url none = false
good_url (some u) =
    eq_text u.scheme (codes "https") && not (is_empty u.host) && has_suffix u.path dispatch_path

abbrev valid_port : Option ℤ → Bool
valid_port none = false
valid_port (some n) = between 1 65535 n

abbrev is_nil : List Text → Bool
is_nil [] = true
is_nil (x ∷ xs) = false

abbrev pub fifteen_seconds : ℕ
fifteen_seconds = 15 * 10 ^ 9

abbrev pub thirty_minutes : ℕ
thirty_minutes = 30 * 60 * 10 ^ 9

module _ {F : Type 0} (o : Outside F) where
  -- Nothing is missing of what TASKS_BACKEND=cloudtasks requires.
  unfoldable pub complete_cloudtasks : Config F → Bool
  complete_cloudtasks c =
      not (is_empty c.tasks_project)
      && not (is_empty c.tasks_location)
      && not (is_empty c.tasks_queue)
      && (not (is_empty c.dispatch_url) && good_url (o.parse_url c.dispatch_url))
      && not (is_empty c.internal_token)
      && between fifteen_seconds thirty_minutes c.tasks_dispatch_deadline
      && not (is_empty c.github_webhook_secret)

  unfoldable pub valid_tasks : Config F → Bool
  unfolding complete_cloudtasks
  valid_tasks c =
      if eq_text c.tasks_backend (codes "inprocess")
      then true
      else eq_text c.tasks_backend cloudtasks && complete_cloudtasks c

  unfoldable pub valid_exporter : Config F → Bool
  valid_exporter c =
      if one_of (codes "none" ∷ codes "console" ∷ codes "gcp" ∷ []) c.otel_traces_exporter
      then true
      else eq_text c.otel_traces_exporter (codes "otlp")
        && not (is_empty (trim_space c.otel_exporter_otlp_endpoint))

  unfoldable pub checks : Config F → List (Bool × Error)
  unfolding valid_tasks valid_exporter
  checks c =
      (one_of (codes "ollama" ∷ codes "gemini" ∷ []) c.llm_provider, codes "LLM_PROVIDER")
      ∷ (one_of (codes "slack" ∷ codes "teams" ∷ []) c.notify_provider, codes "NOTIFY_PROVIDER")
      ∷ (
        one_of (codes "memory" ∷ codes "sqlite" ∷ codes "firestore" ∷ []) c.session_backend,
        codes "SESSION_BACKEND",
      )
      ∷ (one_of (codes "https" ∷ codes "ssh" ∷ []) c.git_transport, codes "GIT_TRANSPORT")
      ∷ (
        one_of (codes "drop" ∷ codes "nitpick" ∷ []) c.review_uncited_mode,
        codes "REVIEW_UNCITED_MODE",
      )
      ∷ (valid_tasks c, codes "TASKS_BACKEND")
      ∷ (valid_exporter c, codes "OTEL_TRACES_EXPORTER")
      ∷ (at_least 1 c.max_iterations, codes "MAX_ITERATIONS")
      ∷ (at_least 1 c.ci_timeout, codes "CI_TIMEOUT")
      ∷ (less c.tasks_dispatch_deadline c.orphan_ttl, codes "ORPHAN_TTL")
      ∷ (valid_port (parse_int c.port), codes "PORT")
      ∷ (not (app_mode c && is_nil c.repos), codes "REPOS")
      ∷ []

  unfoldable pub first_error : List (Bool × Error) → Option Error
  first_error [] = none
  first_error ((fine, e) ∷ rest) = let later = first_error rest in if fine then later else some e

  -- `none`, or the variable of the error.
  unfoldable pub validate : Config F → Option Error
  unfolding first_error checks
  validate c = first_error (checks c)
