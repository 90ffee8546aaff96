-- ===== src/Config/Load.antt =====
-- go/internal/config/config.go, `Load`: every setting is read, in the order of the code, and the
-- result is validated.
pub mod Valid
pub mod Budget
use automation_agent.Common.{
  ℕ, ◌+◌, ◌-◌, ◌*◌, ◌/◌, ◌^◌, Bool, true, false, not, ◌&&◌, Option, none, some, [], ◌++◌, Text,
  codes, eq_text, is_empty, ltb, ℤ, pos, negsuc, signed_64, if◌then◌else◌, Result, ok, err, ◌>>=◌,
}
use automation_agent.Config.Settings.{
  Config, GitHubApp, Outside, ollama, app_mode, between, at_least,
}
use automation_agent.Config.Env.{
  Lookup, Error, get_or, is_set, get_parsed, get_required, parse_int, parse_bool, split_list,
}
use automation_agent.Config.App.{resolve_github_app}
use automation_agent.Config.Validate.{validate}

abbrev pub max_ollama_num_ctx : ℕ
max_ollama_num_ctx = 2 ^ 24

abbrev word : ℤ → ℕ
word (pos n) = n
word (negsuc n) = 2 ^ 64 - 1 - n

-- Division by two, toward zero.
abbrev halve : ℤ → ℤ
halve (pos n) = pos (n / 2)
halve (negsuc n) = if ltb n 1 then pos 0 else negsuc ((n + 1) / 2 - 1)

-- `ctx * approxBytesPerToken * promptBudgetNumerator / promptBudgetDenominator` in an int64.
unfoldable pub window_bytes : ℤ → ℤ
window_bytes ctx = halve (signed_64 (word ctx * 4 * 1))

-- The diff that the size gate admits, and the bytes of the standards, by default.
unfoldable pub default_review_bytes : Text → ℤ → ℤ
unfolding window_bytes
default_review_bytes provider ctx =
    if eq_text provider ollama then window_bytes ctx else pos (1024 * 1024)

unfoldable pub default_standards_bytes : Text → ℤ → ℤ
unfolding window_bytes
default_standards_bytes provider ctx =
    if eq_text provider ollama then window_bytes ctx else pos (512 * 1024)

unfoldable pub default_llm_max_concurrent : Text → ℤ
default_llm_max_concurrent provider = if eq_text provider ollama then pos 2 else pos 8

abbrev checked : {A : Type 0} → Error → A → Bool → Result Error A
checked key a true = ok a
checked key a false = err key

-- The value, if it passes the check that stands behind its reading.
unfoldable pub limited : {A : Type 0} → (A → Bool) → Error → Result Error A → Result Error A
limited p key r = do a ← r; checked key a (p a)

abbrev default_review_exclude_globs : Text
default_review_exclude_globs =
    codes "go.sum,go.work.sum,package-lock.json,yarn.lock,pnpm-lock.yaml,"
    ++ codes "npm-shrinkwrap.json,Cargo.lock,poetry.lock,Pipfile.lock,Gemfile.lock,composer.lock,"
    ++ codes
        "gradle.lockfile,*.min.js,*.min.css,*.map,*.snap,*.pb.go,*_pb2.py,*.gen.go,*_generated.go,"
    ++ codes "vendor/**,node_modules/**,third_party/**,dist/**,build/**,__snapshots__/**,"
    ++ codes "*.png,*.jpg,*.jpeg,*.gif,*.webp,*.ico,*.pdf,*.woff,*.woff2,*.ttf,*.eot,"
    ++ codes "*.zip,*.gz,*.tar,*.jar,*.bin,*.so,*.dylib,*.dll,*.exe"

abbrev default_review_standards_globs : Text
default_review_standards_globs =
    codes "AGENTS.md,**/AGENTS.md,CLAUDE.md,**/CLAUDE.md,GEMINI.md,**/GEMINI.md,"
    ++ codes ".cursor/rules/**,.cursorrules,.claude/**,.github/copilot-instructions.md,"
    ++ codes
        ".windsurfrules,.windsurf/rules/**,.agents/standards/**,okf/standards/**,CONTRIBUTING.md,"
    ++ codes ".editorconfig,.golangci.yml,.golangci.yaml"

pub record ModelLimits : Type 0 where
  pub num_ctx : ℤ
  pub max_concurrent : ℤ

pub record Switches : Type 0 where
  pub fix_files : ℤ
  pub enabled : Bool
  pub skip_drafts : Bool
  pub max_files : ℤ

pub record ByteCaps : Type 0 where
  pub diff_bytes : ℤ
  pub standards : Bool
  pub standards_bytes : ℤ

pub record Times : Type 0 where
  pub debounce : ℤ
  pub iterations : ℤ
  pub ci : ℤ
  pub ttl : ℤ
  pub deadline : ℤ
  pub capture : Bool

unfoldable pub read_model_limits : Lookup → Text → Result Error ModelLimits
unfolding limited
read_model_limits get provider = do
  num_ctx ←
      limited (between 1 max_ollama_num_ctx) (codes "OLLAMA_NUM_CTX")
        (get_parsed parse_int get (codes "OLLAMA_NUM_CTX") (pos 32768))
  concurrent ←
      limited (at_least 1) (codes "LLM_MAX_CONCURRENT") (
        get_parsed parse_int get (codes "LLM_MAX_CONCURRENT") (default_llm_max_concurrent provider))
  ok (record { num_ctx = num_ctx; max_concurrent = concurrent })

unfoldable pub read_switches : Lookup → Result Error Switches
read_switches get = do
  fix_files ← get_parsed parse_int get (codes "FIX_MAX_FILES") (pos 50)
  enabled ← get_parsed parse_bool get (codes "REVIEW_ENABLED") false
  skip_drafts ← get_parsed parse_bool get (codes "REVIEW_SKIP_DRAFTS") true
  max_files ← get_parsed parse_int get (codes "REVIEW_MAX_FILES") (pos 50)
  ok (record {
    fix_files = fix_files;
    enabled = enabled;
    skip_drafts = skip_drafts;
    max_files = max_files;
  })

unfoldable pub read_byte_caps : Lookup → Text → ℤ → Result Error ByteCaps
unfolding limited
read_byte_caps get provider num_ctx = do
  diff_bytes ← limited (at_least 1) (codes "REVIEW_MAX_DIFF_BYTES") (
      get_parsed parse_int get (codes "REVIEW_MAX_DIFF_BYTES")
        (default_review_bytes provider num_ctx))
  standards ← get_parsed parse_bool get (codes "REVIEW_STANDARDS") true
  standards_bytes ← limited (at_least 1) (codes "REVIEW_STANDARDS_MAX_BYTES") (
      get_parsed parse_int get (codes "REVIEW_STANDARDS_MAX_BYTES")
        (default_standards_bytes provider num_ctx))
  ok (record { diff_bytes = diff_bytes; standards = standards; standards_bytes = standards_bytes })

module _ {F : Type 0} (o : Outside F) where
  unfoldable pub read_confidence : Lookup → Result Error F
  unfolding limited
  read_confidence get =
      limited o.in_unit (codes "REVIEW_MIN_CONFIDENCE")
        (get_parsed o.parse_float get (codes "REVIEW_MIN_CONFIDENCE") o.default_confidence)

  unfoldable pub read_times : Lookup → Result Error Times
  read_times get = do
    debounce ← get_required o.parse_duration get (codes "REVIEW_DEBOUNCE") (codes "30s")
    iterations ← get_required parse_int get (codes "MAX_ITERATIONS") (codes "3")
    ci ← get_required o.parse_duration get (codes "CI_TIMEOUT") (codes "90m")
    ttl ← get_required o.parse_duration get (codes "ORPHAN_TTL") (codes "24h")
    deadline ← get_required o.parse_duration get (codes "TASKS_DISPATCH_DEADLINE") (codes "30m")
    capture ←
        get_parsed parse_bool get (codes "OTEL_INSTRUMENTATION_GENAI_CAPTURE_MESSAGE_CONTENT") false
    ok (record {
      debounce = debounce;
      iterations = iterations;
      ci = ci;
      ttl = ttl;
      deadline = deadline;
      capture = capture;
    })

  abbrev base_if_empty : Text → Text → Text
  base_if_empty code base = if is_empty code then base else code

  -- The settings, from the values that were parsed and those that are read as they are.
  unfoldable pub settings :
      Lookup → ModelLimits → Switches → ByteCaps → F → Times → GitHubApp → Config F
  settings get m s b confidence t app = record {
    llm_provider = get_or get (codes "LLM_PROVIDER") ollama;
    ollama_host = get_or get (codes "OLLAMA_HOST") (codes "http://localhost:11434");
    ollama_model = get_or get (codes "OLLAMA_MODEL") (codes "gemma4:12b");
    gemini_model = get_or get (codes "GEMINI_MODEL") [];
    ollama_code_model =
        base_if_empty (get_or get (codes "OLLAMA_CODE_MODEL") (codes "gemma4:26b"))
          (get_or get (codes "OLLAMA_MODEL") (codes "gemma4:12b"));
    gemini_code_model =
        base_if_empty (get_or get (codes "GEMINI_CODE_MODEL") [])
          (get_or get (codes "GEMINI_MODEL") []);
    ollama_num_ctx = m.num_ctx;
    llm_max_concurrent = m.max_concurrent;
    session_backend = get_or get (codes "SESSION_BACKEND") (codes "memory");
    sqlite_dsn =
        get_or get (codes "SQLITE_DSN")
          (codes "file:automation-agent.db?_pragma=busy_timeout(5000)");
    firestore_project = get_or get (codes "FIRESTORE_PROJECT") [];
    firestore_collection = get_or get (codes "FIRESTORE_COLLECTION") (codes "automation_agent");
    repos = split_list (get_or get (codes "REPOS") []);
    github_token = get_or get (codes "GITHUB_TOKEN") (get_or get (codes "GH_TOKEN") []);
    github_app = app;
    git_transport = get_or get (codes "GIT_TRANSPORT") (codes "https");
    git_ssh_key = get_or get (codes "GIT_SSH_KEY") [];
    notify_provider = get_or get (codes "NOTIFY_PROVIDER") (codes "slack");
    slack_webhook_url = get_or get (codes "SLACK_WEBHOOK_URL") [];
    teams_webhook_url = get_or get (codes "TEAMS_WEBHOOK_URL") [];
    port = get_or get (codes "PORT") (codes "8080");
    max_iterations = t.iterations;
    ci_timeout = t.ci;
    orphan_ttl = t.ttl;
    github_webhook_secret = get_or get (codes "GITHUB_WEBHOOK_SECRET") [];
    internal_token = get_or get (codes "INTERNAL_TOKEN") [];
    agent_pr_label = get_or get (codes "AGENT_PR_LABEL") (codes "automation-agent");
    fix_max_files = s.fix_files;
    review_enabled = s.enabled;
    review_skip_drafts = s.skip_drafts;
    review_exclude_globs =
        split_list (get_or get (codes "REVIEW_EXCLUDE_GLOBS") default_review_exclude_globs);
    review_max_files = s.max_files;
    review_max_diff_bytes = b.diff_bytes;
    review_standards = b.standards;
    review_standards_globs =
        split_list (get_or get (codes "REVIEW_STANDARDS_GLOBS") default_review_standards_globs);
    review_standards_max_bytes = b.standards_bytes;
    review_uncited_mode = get_or get (codes "REVIEW_UNCITED_MODE") (codes "nitpick");
    review_min_confidence = confidence;
    review_debounce = t.debounce;
    tasks_backend = get_or get (codes "TASKS_BACKEND") (codes "inprocess");
    tasks_project =
        get_or get (codes "TASKS_PROJECT") (get_or get (codes "GOOGLE_CLOUD_PROJECT") []);
    tasks_location = get_or get (codes "TASKS_LOCATION") [];
    tasks_queue = get_or get (codes "TASKS_QUEUE") [];
    dispatch_url = get_or get (codes "DISPATCH_URL") [];
    tasks_dispatch_deadline = t.deadline;
    otel_traces_exporter = get_or get (codes "OTEL_TRACES_EXPORTER") (codes "none");
    git_user_agent_extra = get_or get (codes "GO_GIT_USER_AGENT_EXTRA") [];
    otel_traces_exporter_set = is_set get (codes "OTEL_TRACES_EXPORTER");
    otel_service_name = get_or get (codes "OTEL_SERVICE_NAME") (codes "automation-agent");
    otel_exporter_otlp_endpoint = get_or get (codes "OTEL_EXPORTER_OTLP_ENDPOINT") [];
    otel_exporter_otlp_headers = get_or get (codes "OTEL_EXPORTER_OTLP_HEADERS") [];
    otel_traces_sampler = get_or get (codes "OTEL_TRACES_SAMPLER") (codes "parentbased_always_on");
    otel_capture_message_content = t.capture;
  }

  unfoldable pub accepted : Config F → Option Error → Result Error (Config F)
  accepted c none = ok c
  accepted c (some e) = err e

  unfoldable pub load_from : Lookup → Result Error (Config F)
  unfolding read_model_limits read_switches read_byte_caps read_confidence read_times settings
      accepted
  load_from get = do
    let provider = get_or get (codes "LLM_PROVIDER") ollama
    m ← read_model_limits get provider
    s ← read_switches get
    b ← read_byte_caps get provider m.num_ctx
    confidence ← read_confidence get
    t ← read_times get
    app ← resolve_github_app o get
    let c = settings get m s b confidence t app
    accepted c (validate o c)

  unfoldable pub with_token : Config F → Config F
  with_token c =
      if not (app_mode c) && is_empty c.github_token
      then record c { github_token = o.gh_token }
      else c

  -- Without an App and without a token, the token of the command line tool is taken.
  unfoldable pub load : Lookup → Result Error (Config F)
  unfolding load_from with_token
  load get = do c ← load_from get; ok (with_token c)
