-- ===== src/Config/Settings.antt =====
-- go/internal/config/config.go: the settings. Floats are a type `F`; durations are nanoseconds.
use automation_agent.Common.{
  ◌==◌, ◌&&◌, ℕ, Bool, true, false, not, Option, List, [], Text, codes, ℤ, pos, negsuc, leb, ltb,
}

pub record GitHubApp : Type 0 where
  pub app_id : ℤ
  pub installation_id : ℤ
  pub private_key_pem : Text

abbrev pub no_app : GitHubApp
no_app = record { app_id = pos 0; installation_id = pos 0; private_key_pem = [] }

pub record Config (F : Type 0) : Type 0 where
  pub llm_provider : Text
  pub ollama_host : Text
  pub ollama_model : Text
  pub gemini_model : Text
  pub ollama_code_model : Text
  pub gemini_code_model : Text
  pub ollama_num_ctx : ℤ
  pub llm_max_concurrent : ℤ
  pub session_backend : Text
  pub sqlite_dsn : Text
  pub firestore_project : Text
  pub firestore_collection : Text
  pub repos : List Text
  pub github_token : Text
  pub github_app : GitHubApp
  pub git_transport : Text
  pub git_ssh_key : Text
  pub notify_provider : Text
  pub slack_webhook_url : Text
  pub teams_webhook_url : Text
  pub port : Text
  pub max_iterations : ℤ
  pub ci_timeout : ℤ
  pub orphan_ttl : ℤ
  pub github_webhook_secret : Text
  pub internal_token : Text
  pub agent_pr_label : Text
  pub fix_max_files : ℤ
  pub review_enabled : Bool
  pub review_skip_drafts : Bool
  pub review_exclude_globs : List Text
  pub review_max_files : ℤ
  pub review_max_diff_bytes : ℤ
  pub review_standards : Bool
  pub review_standards_globs : List Text
  pub review_standards_max_bytes : ℤ
  pub review_uncited_mode : Text
  pub review_min_confidence : F
  pub review_debounce : ℤ
  pub tasks_backend : Text
  pub tasks_project : Text
  pub tasks_location : Text
  pub tasks_queue : Text
  pub dispatch_url : Text
  pub tasks_dispatch_deadline : ℤ
  pub otel_traces_exporter : Text
  pub git_user_agent_extra : Text
  pub otel_traces_exporter_set : Bool
  pub otel_service_name : Text
  pub otel_exporter_otlp_endpoint : Text
  pub otel_exporter_otlp_headers : Text
  pub otel_traces_sampler : Text
  pub otel_capture_message_content : Bool

abbrev pub ollama : Text
ollama = codes "ollama"

abbrev pub cloudtasks : Text
cloudtasks = codes "cloudtasks"

abbrev pub dispatch_path : Text
dispatch_path = codes "/internal/dispatch"

-- What net/url reads in a URL.
pub record Url : Type 0 where
  pub scheme : Text
  pub host : Text
  pub path : Text

abbrev is_zero : ℤ → Bool
is_zero (pos n) = n == 0
is_zero (negsuc n) = false

-- `AppMode`
unfoldable pub app_mode : {F : Type 0} → Config F → Bool
app_mode c = not (is_zero c.github_app.app_id)

-- What other packages read: numbers, URLs, durations, files and keys.
pub record Outside (F : Type 0) : Type 0 where
  pub parse_duration : Text → Option ℤ
  pub parse_float : Text → Option F
  pub default_confidence : F
  pub in_unit : F → Bool
  pub parse_url : Text → Option Url
  pub read_file : Text → Option Text
  pub is_rsa_key : Text → Bool
  pub gh_token : Text

-- `min <= z && z <= max`
abbrev pub between : ℕ → ℕ → ℤ → Bool
between min max (pos n) = leb min n && leb n max
between min max (negsuc n) = false

abbrev pub at_least : ℕ → ℤ → Bool
at_least min (pos n) = leb min n
at_least min (negsuc n) = false

-- `y < z`
abbrev pub less : ℤ → ℤ → Bool
less (pos m) (pos n) = ltb m n
less (pos m) (negsuc n) = false
less (negsuc m) (pos n) = true
less (negsuc m) (negsuc n) = ltb n m
