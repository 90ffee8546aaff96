-- ===== src/Config/Load/Valid.antt =====
-- go/internal/config/config.go: what holds of every configuration that is loaded.
use automation_agent.Common.{
  ◌≡◌, inl, inr, refl, Bool, true, false, not, ◌&&◌, Option, none, some, Text, codes, is_empty, ℤ,
  pos, Result, ok, err, Bool-cases, Ends, Ends-bind, Ends-any, Ends-ok,
}
use automation_agent.Config.Settings.{Config, Outside, ollama, app_mode, between, at_least}
use automation_agent.Config.Env.{Lookup, Error, get_or, get_parsed, parse_int, parse_bool}
use automation_agent.Config.App.{resolve_github_app}
use automation_agent.Config.Validate.{validate}
use automation_agent.Config.Validate.Checks.{
  Within, IsPositive, between-Within, at_least-IsPositive, IsValid, validate-IsValid,
}
use automation_agent.Config.Load.{
  max_ollama_num_ctx, default_review_bytes, default_standards_bytes, default_llm_max_concurrent,
  checked, limited, ModelLimits, ByteCaps, read_model_limits, read_switches, read_byte_caps,
  read_confidence, read_times, settings, accepted, load_from, with_token, load,
}

checked-Ends :
    {A : Type 0} (p : A → Bool) (key : Error) (a : A) (fine : Bool)
    → p a ≡ fine
    → Ends (λ b. p b ≡ true) (checked key a fine)
checked-Ends p key a true h = h
checked-Ends p key a false h = tt

limited-Ends :
    {A : Type 0} (p : A → Bool) (key : Error) (r : Result Error A)
    → Ends (λ a. p a ≡ true) (limited p key r)
unfolding limited
limited-Ends p key (ok a) = checked-Ends p key a (p a) refl
limited-Ends p key (err e) = tt

-- The window and the number of calls are in range.
abbrev InRange : ModelLimits → Type 0
InRange m = Within 1 max_ollama_num_ctx m.num_ctx × IsPositive m.max_concurrent

-- The caps of a review are on.
abbrev AreOn : ByteCaps → Type 0
AreOn b = IsPositive b.diff_bytes × IsPositive b.standards_bytes

read_model_limits-Ends :
    (get : Lookup) (provider : Text) → Ends InRange (read_model_limits get provider)
unfolding read_model_limits
read_model_limits-Ends get provider =
    let window : Result Error ℤ = get_parsed parse_int get (codes "OLLAMA_NUM_CTX") (pos 32768) in
    let calls : Result Error ℤ =
      get_parsed parse_int get (codes "LLM_MAX_CONCURRENT") (default_llm_max_concurrent provider) in
    Ends-bind (λ n. between 1 max_ollama_num_ctx n ≡ true) InRange
      (limited (between 1 max_ollama_num_ctx) (codes "OLLAMA_NUM_CTX") window) _
      (limited-Ends (between 1 max_ollama_num_ctx) (codes "OLLAMA_NUM_CTX") window)
      λ n w.
        Ends-bind (λ c. at_least 1 c ≡ true) InRange
          (limited (at_least 1) (codes "LLM_MAX_CONCURRENT") calls) _
          (limited-Ends (at_least 1) (codes "LLM_MAX_CONCURRENT") calls)
          λ c p. (between-Within 1 max_ollama_num_ctx n w, at_least-IsPositive c p)

read_byte_caps-Ends :
    (get : Lookup) (provider : Text) (ctx : ℤ) → Ends AreOn (read_byte_caps get provider ctx)
unfolding read_byte_caps
read_byte_caps-Ends get provider ctx =
    let diff : Result Error ℤ =
      get_parsed parse_int get (codes "REVIEW_MAX_DIFF_BYTES")
        (default_review_bytes provider ctx) in
    let switch : Result Error Bool = get_parsed parse_bool get (codes "REVIEW_STANDARDS") true in
    let docs : Result Error ℤ =
      get_parsed parse_int get (codes "REVIEW_STANDARDS_MAX_BYTES")
        (default_standards_bytes provider ctx) in
    Ends-bind (λ n. at_least 1 n ≡ true) AreOn
      (limited (at_least 1) (codes "REVIEW_MAX_DIFF_BYTES") diff) _
      (limited-Ends (at_least 1) (codes "REVIEW_MAX_DIFF_BYTES") diff)
      λ n w.
        Ends-bind (λ b. Unit {0}) AreOn switch _ (Ends-any switch)
          λ s u.
            Ends-bind (λ c. at_least 1 c ≡ true) AreOn
              (limited (at_least 1) (codes "REVIEW_STANDARDS_MAX_BYTES") docs) _
              (limited-Ends (at_least 1) (codes "REVIEW_STANDARDS_MAX_BYTES") docs)
              λ c p. (at_least-IsPositive n w, at_least-IsPositive c p)

module _ {F : Type 0} (o : Outside F) where
  -- The configuration passes `Validate`, its window and its number of calls are in range, the caps of
  -- a review are on, and the confidence is a probability.
  pub record IsLoaded (c : Config F) : Type 0 where
    pub valid : IsValid o c
    pub window : Within 1 max_ollama_num_ctx c.ollama_num_ctx
    pub concurrency : IsPositive c.llm_max_concurrent
    pub caps : IsPositive c.review_max_diff_bytes × IsPositive c.review_standards_max_bytes
    pub probability : o.in_unit c.review_min_confidence ≡ true

  accepted-Ends :
      (c : Config F) (e : Option Error) → (e ≡ none → IsLoaded c) → Ends IsLoaded (accepted o c e)
  unfolding accepted
  accepted-Ends c none h = h refl
  accepted-Ends c (some e) h = tt

  read_confidence-Ends : (get : Lookup) → Ends (λ f. o.in_unit f ≡ true) (read_confidence o get)
  unfolding read_confidence
  read_confidence-Ends get =
      limited-Ends o.in_unit (codes "REVIEW_MIN_CONFIDENCE")
        (get_parsed o.parse_float get (codes "REVIEW_MIN_CONFIDENCE") o.default_confidence)

  load_from-Ends : (get : Lookup) → Ends IsLoaded (load_from o get)
  unfolding load_from settings
  load_from-Ends get =
      let provider = get_or get (codes "LLM_PROVIDER") ollama in
      Ends-bind InRange IsLoaded (read_model_limits get provider) _
        (read_model_limits-Ends get provider)
        λ m bounds.
          Ends-bind (λ s. Unit {0}) IsLoaded (read_switches get) _ (Ends-any (read_switches get))
            λ s u.
              Ends-bind AreOn IsLoaded (read_byte_caps get provider m.num_ctx) _
                (read_byte_caps-Ends get provider m.num_ctx)
                λ b caps.
                  Ends-bind (λ f. o.in_unit f ≡ true) IsLoaded (read_confidence o get) _
                    (read_confidence-Ends get)
                    λ f unit.
                      Ends-bind (λ t. Unit {0}) IsLoaded (read_times o get) _
                        (Ends-any (read_times o get))
                        λ t v.
                          Ends-bind (λ a. Unit {0}) IsLoaded (resolve_github_app o get) _
                            (Ends-any (resolve_github_app o get))
                            λ app x.
                              accepted-Ends (settings o get m s b f t app)
                                (validate o (settings o get m s b f t app))
                                λ passes. record {
                                  valid = validate-IsValid o (settings o get m s b f t app) passes;
                                  window = bounds.0;
                                  concurrency = bounds.1;
                                  caps = caps;
                                  probability = unit;
                                }

  with_token-IsLoaded : (c : Config F) → IsLoaded c → IsLoaded (with_token o c)
  unfolding with_token app_mode
  with_token-IsLoaded c l = elim (Bool-cases (not (app_mode c) && is_empty c.github_token)) [
    | inl e ↦ rw e (record {
      valid = record {
        backend = elim l.valid.backend [
          | inl here ↦ inl here
          | inr (e, d) ↦ inr (
            e,
            record {
              token = d.token;
              secret = d.secret;
              url = d.url;
              queue = d.queue;
              deadline = d.deadline;
            },
          )
        ];
        provider = l.valid.provider;
        notifier = l.valid.notifier;
        sessions = l.valid.sessions;
        transport = l.valid.transport;
        uncited = l.valid.uncited;
        exporter = l.valid.exporter;
        iterations = l.valid.iterations;
        ci = l.valid.ci;
        ttl = l.valid.ttl;
        listens = l.valid.listens;
        allowlist = l.valid.allowlist;
      };
      window = l.window;
      concurrency = l.concurrency;
      caps = l.caps;
      probability = l.probability;
    })
    | inr e ↦ rw e l
  ]

  -- Every configuration that is loaded has the properties of `IsLoaded`, and with it those of `IsValid`
  -- and, on Cloud Tasks, of `IsDeployed`, whatever the environment and the parsers of durations, floats
  -- and URLs answer.
  pub load-IsLoaded : (get : Lookup) (c : Config F) → load o get ≡ ok c → IsLoaded c
  unfolding load
  load-IsLoaded get c h =
      Ends-ok IsLoaded (load o get) c
        (Ends-bind IsLoaded IsLoaded (load_from o get) _ (load_from-Ends get)
          (λ d l. with_token-IsLoaded d l))
        h
