-- ===== src/Config/Validate/Checks.antt =====
-- go/internal/config/config.go, `Validate`: what the checks say of a configuration.
use automation_agent.Common.{
  ℕ, ◌≤◌, ◌≡◌, ◌≢◌, ◌⊎◌, inl, inr, refl, sym, ap, Bool, true, false, not, ◌&&◌, Option, none, some,
  List, [], ◌∷◌, ◌++◌, In, is_empty-nil, trim_space, Text, codes, eq_text, eq_text_iff, is_empty, ℤ,
  pos, negsuc, All, Bool-cases, arith,
}
use automation_agent.Config.Settings.{
  Config, Url, Outside, cloudtasks, dispatch_path, app_mode, between, at_least, less,
}
use automation_agent.Config.Env.{Error, parse_int}
use automation_agent.Config.Validate.{
  validate, checks, first_error, complete_cloudtasks, fifteen_seconds, thirty_minutes, valid_tasks,
  valid_port, is_nil, one_of, has_suffix, good_url, valid_exporter,
}

-- The number lies between the bounds.
abbrev pub Within : ℕ → ℕ → ℤ → Type 0
Within min max z = (n : ℕ) × (z ≡ pos n) × (min ≤ n) × (n ≤ max)

-- The number is positive.
abbrev pub IsPositive : ℤ → Type 0
IsPositive z = (n : ℕ) × (z ≡ pos n) × (1 ≤ n)

pub between-Within : (min max : ℕ) (z : ℤ) → between min max z ≡ true → Within min max z
between-Within min max (pos n) h = (n, refl, ground (arith, h), ground (arith, h))
between-Within min max (negsuc n) h = cc

pub at_least-IsPositive : (z : ℤ) → at_least 1 z ≡ true → IsPositive z
at_least-IsPositive (pos n) h = (n, refl, ground (arith, h))
at_least-IsPositive (negsuc n) h = cc

and_left : (a b : Bool) → (a && b) ≡ true → a ≡ true
and_left a b h = ground (arith, h)

and_right : (a b : Bool) → (a && b) ≡ true → b ≡ true
and_right a b h = ground (arith, h)

not_empty : (t : Text) → not (is_empty t) ≡ true → t ≢ []
not_empty [] h = cc
not_empty (c ∷ t) h = λ e. cc

not_nil : (xs : List Text) → is_nil xs ≡ false → xs ≢ []
not_nil [] h = cc
not_nil (c ∷ t) h = λ e. cc

one_of-In : (values : List Text) (v : Text) → one_of values v ≡ true → In v values
one_of-In [] v h = cc
one_of-In (x ∷ values) v h = elim (Bool-cases (eq_text v x)) [
  | inl same ↦ inl (sym ((eq_text_iff v x).0 same))
  | inr other ↦ inr (one_of-In values v (rw other at h))
]

has_suffix-append :
    (s t : Text) → t ≢ [] → has_suffix s t ≡ true → (front : Text) × (s ≡ front ++ t)
has_suffix-append [] t full h = absurd (full (is_empty-nil t h))
has_suffix-append (c ∷ s) t full h = elim (Bool-cases (eq_text (c ∷ s) t)) [
  | inl same ↦ ([], (eq_text_iff (c ∷ s) t).0 same)
  | inr other ↦
      let (front, e) = has_suffix-append s t full (rw other at h) in (c ∷ front, ap (λ r. c ∷ r) e)
]

-- An https URL with a host, whose path ends in the route that runs tasks.
abbrev IsRoute : Option Url → Type 0
IsRoute o =
    (u : Url) × (o ≡ some u)
    × (u.scheme ≡ codes "https")
    × (u.host ≢ [])
    × ((front : Text) × (u.path ≡ front ++ dispatch_path))

good_url-IsRoute : (u : Option Url) → good_url u ≡ true → IsRoute u
good_url-IsRoute none h = cc
good_url-IsRoute (some u) h = (
  u,
  refl,
  (eq_text_iff u.scheme (codes "https")).0 (ground (arith, h)),
  not_empty u.host (ground (arith, h)),
  has_suffix-append u.path dispatch_path (λ e. cc) (ground (arith, h)),
)

module _ {F : Type 0} (o : Outside F) where
  -- What a deployment on Cloud Tasks has: a token and a secret, so that nothing is open, a queue, an
  -- https URL of the route that runs tasks, and a deadline that Cloud Tasks accepts.
  pub record IsDeployed (c : Config F) : Type 0 where
    pub token : c.internal_token ≢ []
    pub secret : c.github_webhook_secret ≢ []
    pub url :
        (u : Url) × (o.parse_url c.dispatch_url ≡ some u)
        × (u.scheme ≡ codes "https")
        × (u.host ≢ [])
        × ((front : Text) × (u.path ≡ front ++ dispatch_path))
    pub queue : (c.tasks_project ≢ []) × (c.tasks_location ≢ []) × (c.tasks_queue ≢ [])
    pub deadline : Within fifteen_seconds thirty_minutes c.tasks_dispatch_deadline

  pub record IsValid (c : Config F) : Type 0 where
    pub backend :
        (c.tasks_backend ≡ codes "inprocess") ⊎ ((c.tasks_backend ≡ cloudtasks) × IsDeployed c)
    pub provider : In c.llm_provider (codes "ollama" ∷ codes "gemini" ∷ [])
    pub notifier : In c.notify_provider (codes "slack" ∷ codes "teams" ∷ [])
    pub sessions : In c.session_backend (codes "memory" ∷ codes "sqlite" ∷ codes "firestore" ∷ [])
    pub transport : In c.git_transport (codes "https" ∷ codes "ssh" ∷ [])
    pub uncited : In c.review_uncited_mode (codes "drop" ∷ codes "nitpick" ∷ [])
    pub exporter :
        In c.otel_traces_exporter (codes "none" ∷ codes "console" ∷ codes "gcp" ∷ [])
        ⊎ ((c.otel_traces_exporter ≡ codes "otlp")
            × (trim_space c.otel_exporter_otlp_endpoint ≢ []))
    pub iterations : IsPositive c.max_iterations
    pub ci : IsPositive c.ci_timeout
    pub ttl : less c.tasks_dispatch_deadline c.orphan_ttl ≡ true
    pub listens : (n : ℕ) × (parse_int c.port ≡ some (pos n)) × (1 ≤ n) × (n ≤ 65535)
    pub allowlist : app_mode c ≡ true → c.repos ≢ []

  first_error-All : (cs : List (Bool × Error)) → first_error o cs ≡ none → All (λ e. e.0 ≡ true) cs
  unfolding first_error
  first_error-All [] h = tt
  first_error-All ((true, e) ∷ cs) h = (refl, first_error-All cs h)
  first_error-All ((false, e) ∷ cs) h = cc

  complete-IsDeployed : (c : Config F) → complete_cloudtasks o c ≡ true → IsDeployed c
  unfolding complete_cloudtasks
  complete-IsDeployed c h = record {
    token = not_empty c.internal_token (ground (arith, h));
    secret = not_empty c.github_webhook_secret (ground (arith, h));
    url = good_url-IsRoute (o.parse_url c.dispatch_url) (ground (arith, h));
    queue = (
      not_empty c.tasks_project (ground (arith, h)),
      not_empty c.tasks_location (ground (arith, h)),
      not_empty c.tasks_queue (ground (arith, h)),
    );
    deadline =
        between-Within fifteen_seconds thirty_minutes c.tasks_dispatch_deadline (ground (arith, h));
  }

  valid_port-listens :
      (p : Option ℤ) → valid_port p ≡ true → (n : ℕ) × (p ≡ some (pos n)) × (1 ≤ n) × (n ≤ 65535)
  valid_port-listens none h = cc
  valid_port-listens (some z) h =
      let (n, e, a, b) = between-Within 1 65535 z h in (n, ap some e, a, b)

  valid_tasks-cases :
      (c : Config F)
      → valid_tasks o c ≡ true
      → (c.tasks_backend ≡ codes "inprocess") ⊎ ((c.tasks_backend ≡ cloudtasks) × IsDeployed c)
  unfolding valid_tasks
  valid_tasks-cases c h = elim (Bool-cases (eq_text c.tasks_backend (codes "inprocess"))) [
    | inl e ↦ inl ((eq_text_iff c.tasks_backend (codes "inprocess")).0 e)
    | inr e ↦
        let k : (eq_text c.tasks_backend cloudtasks && complete_cloudtasks o c) ≡ true =
          rw e at h in
        inr (
          (eq_text_iff c.tasks_backend cloudtasks).0 (and_left _ (complete_cloudtasks o c) k),
          complete-IsDeployed c (and_right (eq_text c.tasks_backend cloudtasks) _ k),
        )
  ]

  valid_exporter-cases :
      (c : Config F)
      → valid_exporter o c ≡ true
      → In c.otel_traces_exporter (codes "none" ∷ codes "console" ∷ codes "gcp" ∷ [])
        ⊎ ((c.otel_traces_exporter ≡ codes "otlp")
            × (trim_space c.otel_exporter_otlp_endpoint ≢ []))
  unfolding valid_exporter
  valid_exporter-cases c h =
      let local = codes "none" ∷ codes "console" ∷ codes "gcp" ∷ [] in
      elim (Bool-cases (one_of local c.otel_traces_exporter)) [
        | inl e ↦ inl (one_of-In local c.otel_traces_exporter e)
        | inr e ↦
            let full = not (is_empty (trim_space c.otel_exporter_otlp_endpoint)) in
            let k : (eq_text c.otel_traces_exporter (codes "otlp") && full) ≡ true = rw e at h in
            inr (
              (eq_text_iff c.otel_traces_exporter (codes "otlp")).0 (and_left _ full k),
              not_empty (trim_space c.otel_exporter_otlp_endpoint) (and_right _ full k),
            )
      ]

  -- A configuration that passes has these properties.
  pub validate-IsValid : (c : Config F) → validate o c ≡ none → IsValid c
  unfolding validate checks valid_tasks
  validate-IsValid c h =
      let a = first_error-All (checks o c) h in
      let tasks = a.1.1.1.1.1 in
      record {
        backend = valid_tasks-cases c tasks.0;
        provider = one_of-In (codes "ollama" ∷ codes "gemini" ∷ []) c.llm_provider a.0;
        notifier = one_of-In (codes "slack" ∷ codes "teams" ∷ []) c.notify_provider a.1.0;
        sessions =
            one_of-In (codes "memory" ∷ codes "sqlite" ∷ codes "firestore" ∷ []) c.session_backend
              a.1.1.0;
        transport = one_of-In (codes "https" ∷ codes "ssh" ∷ []) c.git_transport a.1.1.1.0;
        uncited = one_of-In (codes "drop" ∷ codes "nitpick" ∷ []) c.review_uncited_mode a.1.1.1.1.0;
        exporter = valid_exporter-cases c tasks.1.0;
        iterations = at_least-IsPositive c.max_iterations tasks.1.1.0;
        ci = at_least-IsPositive c.ci_timeout tasks.1.1.1.0;
        ttl = tasks.1.1.1.1.0;
        listens = valid_port-listens (parse_int c.port) tasks.1.1.1.1.1.0;
        allowlist = λ m. not_nil c.repos (ground (arith, m, tasks.1.1.1.1.1.1.0));
      }
