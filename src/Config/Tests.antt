-- ===== src/Config/Tests.antt =====
-- A deployment on Cloud Tasks that is loaded, with the default budget.
use automation_agent.Common.{
  ℕ, ◌*◌, ◌^◌, ◌≡◌, refl, true, false, none, some, codes, eq_text, trim_space, atoi, digits,
  digits_from, pos, if◌then◌else◌, Result, ok, err,
}
use automation_agent.Config.Settings.{Config, Outside, dispatch_path, app_mode, cloudtasks}
use automation_agent.Config.Env.{
  Lookup, get_or, is_set, parse_bool, parse_int, get_parsed, get_required, split_list,
}
use automation_agent.Config.App.{resolve_github_app, resolve_values}
use automation_agent.Config.Validate.{
  validate, first_error, checks, valid_exporter, valid_tasks, complete_cloudtasks,
}
use automation_agent.Config.Load.{
  load, load_from, with_token, accepted, settings, read_times, read_confidence, read_byte_caps,
  read_switches, read_model_limits, limited, default_llm_max_concurrent, default_standards_bytes,
  default_review_bytes, window_bytes,
}
use automation_agent.Config.Load.Valid.{IsLoaded, load-IsLoaded}

abbrev pub IsOk : {E A : Type 0} → Result E A → Type 0
IsOk (ok a) = Unit
IsOk (err e) = ⊥

abbrev pub value : {E A : Type 0} (r : Result E A) → IsOk r → A
value (ok a) h = a
value (err e) h = absurd h

pub value_lem : {E A : Type 0} (r : Result E A) (h : IsOk r) → r ≡ ok (value r h)
value_lem (ok a) h = refl
value_lem (err e) h = absurd h

abbrev pub outside : Outside ℕ
outside = record {
  parse_duration =
      λ t. some (pos (if eq_text t (codes "24h") then 24 * 3600 * 10 ^ 9 else 30 * 60 * 10 ^ 9));
  parse_float = λ t. none;
  default_confidence = 50;
  in_unit = λ f. true;
  parse_url =
      λ t. some (record { scheme = codes "https"; host = codes "agent"; path = dispatch_path });
  read_file = λ t. none;
  is_rsa_key = λ t. false;
  gh_token = codes "gho";
}

abbrev pub deployed : Lookup
deployed key =
    if eq_text key (codes "TASKS_BACKEND")
    then some (codes "cloudtasks")
    else if eq_text key (codes "TASKS_PROJECT")
    then some (codes "p")
    else if eq_text key (codes "TASKS_LOCATION")
    then some (codes "l")
    else if eq_text key (codes "TASKS_QUEUE")
    then some (codes "q")
    else if eq_text key (codes "DISPATCH_URL")
    then some (codes "https://agent/internal/dispatch")
    else if eq_text key (codes "INTERNAL_TOKEN")
    then some (codes "t")
    else if eq_text key (codes "GITHUB_WEBHOOK_SECRET")
    then some (codes " s ")
    else none

pub loads : IsOk (load outside deployed)
unfolding load load_from with_token accepted settings read_times read_confidence read_byte_caps
    read_switches read_model_limits limited default_llm_max_concurrent default_standards_bytes
    default_review_bytes window_bytes validate first_error checks valid_exporter valid_tasks
    complete_cloudtasks resolve_github_app resolve_values get_or is_set parse_bool parse_int
    get_parsed get_required split_list trim_space eq_text atoi digits digits_from app_mode
loads = tt

abbrev pub loaded : Config ℕ
loaded = value (load outside deployed) loads

pub loaded_lem : load outside deployed ≡ ok loaded
loaded_lem = value_lem (load outside deployed) loads

pub loaded-backend : loaded.tasks_backend ≡ cloudtasks
unfolding load load_from with_token accepted settings read_times read_confidence read_byte_caps
    read_switches read_model_limits limited default_llm_max_concurrent default_standards_bytes
    default_review_bytes window_bytes validate first_error checks valid_exporter valid_tasks
    complete_cloudtasks resolve_github_app resolve_values get_or is_set parse_bool parse_int
    get_parsed get_required split_list trim_space eq_text atoi digits digits_from app_mode
loaded-backend = refl

load-IsLoaded_example : IsLoaded outside loaded
load-IsLoaded_example = load-IsLoaded outside deployed loaded loaded_lem
