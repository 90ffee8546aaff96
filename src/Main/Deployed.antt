-- ===== src/Main/Deployed.antt =====
-- go/cmd/agent/main.go: what the checks of the configuration mean for the service that is made of it.
use automation_agent.Common.{
  ℕ, ◌≤◌, ◌≡◌, ◌≢◌, ◌⊎◌, inl, inr, refl, sym, ap, subst, ◌∙◌, false-true, Bool, none, some, List,
  [], ◌∷◌, ◌++◌, Text, codes, eq_text, eq_text_iff, ℤ, pos, lookup, text_eq, ok, arith,
}
use automation_agent.Ingest.{Envelope, CodecLaws}
use automation_agent.Config.Settings.{Config, Outside, cloudtasks}
use automation_agent.Config.Env.{Lookup}
use automation_agent.Config.Validate.Checks.{IsDeployed, IsPositive}
use automation_agent.Config.Load.{load}
use automation_agent.Config.Load.Valid.{IsLoaded, load-IsLoaded}
use automation_agent.Tasks.Options
use automation_agent.Tasks.CloudTasks.{CloudTasks, new_cloud_tasks, Task, task_of}
use automation_agent.Tasks.CloudTasks
use automation_agent.Tasks.CloudTasks.Delivery.{Delivers, task_of-dispatches}
use automation_agent.ParkStore.Interface.{ParkStore, ParkStoreLaws}
use automation_agent.Fixflow.Driver
use automation_agent.Fixflow.Driver.{Event, run_events}
use automation_agent.Fixflow.Driver.Attempts.{IsBounded}
use automation_agent.Fixflow.Driver.Bounded.{run_events-IsBounded}
use automation_agent.Webhook
use automation_agent.Webhook.{
  Request, Route, health, lint, coverage, github, cron_daily, sweep, dispatch, dispatches, serve,
  bytes,
}
use automation_agent.Webhook.Guards.{IsTrusted, IsSigned, BearsToken, serve-IsTrusted}
use automation_agent.Main.{cloud_tasks, build_transport, server_of, fix_deps, nat_or}

backends_differ : codes "inprocess" ≡ cloudtasks → ⊥
unfolding eq_text
backends_differ e = false-true ((eq_text_iff (codes "inprocess") cloudtasks).1 e)

pos_injective : {m n : ℕ} → pos m ≡ pos n → m ≡ n
pos_injective e = cc

cloud_tasks_injective : {a b : CloudTasks} → cloud_tasks a ≡ cloud_tasks b → a ≡ b
cloud_tasks_injective e = cc

nat_or-positive : (def : ℕ) (z : ℤ) → IsPositive z → pos (nat_or def z) ≡ z
nat_or-positive def z (n, e, h) = rw e (ground (arith, h))

one_or_more : (m : ℕ) (z : ℤ) → pos m ≡ z → IsPositive z → 1 ≤ m
one_or_more m z same (n, e, h) = subst (λ k. 1 ≤ k) (sym (pos_injective (same ∙ e))) h

module _ {F : Type 0} (o : Outside F) where
  deployed : (c : Config F) → IsLoaded o c → c.tasks_backend ≡ cloudtasks → IsDeployed o c
  deployed c l e = elim l.valid.backend [
    | inr (same, d) ↦ d
    | inl other ↦ absurd (backends_differ (sym other ∙ e))
  ]

  abbrev IsHashed : Config F → Webhook.World → Request → Type 0
  IsHashed c v r =
      (body : Text) × (r.body ≡ bytes body)
      × (c.github_webhook_secret ≢ [])
      × (r.signature ≡ codes "sha256=" ++ v.hmac_hex c.github_webhook_secret body)

  token_lem :
      (c : Config F) (ct : CloudTasks)
      → c.tasks_backend ≡ cloudtasks
      → build_transport c ≡ cloud_tasks ct
      → ct.token ≡ c.internal_token
  unfolding build_transport new_cloud_tasks
  token_lem c ct backend built = sym (
      ap (λ x. x.token)
        (cloud_tasks_injective (rw ((eq_text_iff c.tasks_backend cloudtasks).1 backend) at built)))

  -- The body is signed with the secret, or the request bears the token, neither of which is empty.
  abbrev pub IsAuthenticated : Config F → Webhook.World → Route → Request → Type 0
  IsAuthenticated c v health r = ⊥
  IsAuthenticated c v lint r = IsHashed c v r
  IsAuthenticated c v coverage r = IsHashed c v r
  IsAuthenticated c v github r = IsHashed c v r
  IsAuthenticated c v cron_daily r = BearsToken (server_of c) v r
  IsAuthenticated c v sweep r = BearsToken (server_of c) v r
  IsAuthenticated c v dispatch r = BearsToken (server_of c) v r

  hashed :
      (c : Config F) (v : Webhook.World) (r : Request)
      → c.github_webhook_secret ≢ []
      → IsSigned (server_of c) v r
      → IsHashed c v r
  unfolding server_of
  hashed c v r full (body, same, inl blank) = absurd (full blank)
  hashed c v r full (body, same, inr signature) = (body, same, full, signature)

  authenticated_lem :
      (c : Config F) (v : Webhook.World) (route : Route) (r : Request)
      → c.github_webhook_secret ≢ []
      → IsTrusted (server_of c) v route r
      → IsAuthenticated c v route r
  authenticated_lem c v health r full t = t
  authenticated_lem c v lint r full t = hashed c v r full t
  authenticated_lem c v coverage r full t = hashed c v r full t
  authenticated_lem c v github r full t = hashed c v r full t
  authenticated_lem c v cron_daily r full t = t
  authenticated_lem c v sweep r full t = t
  authenticated_lem c v dispatch r full t = t

  -- The server of a loaded configuration on Cloud Tasks makes no call for a request that is not
  -- authenticated, on any route: neither the secret nor the token can be missing there.
  pub deployed-IsAuthenticated :
      (get : Lookup) (c : Config F) (v : Webhook.World) (route : Route) (r : Request)
      → load o get ≡ ok c
      → c.tasks_backend ≡ cloudtasks
      → ((serve (server_of c) v route r).calls ≡ []) ⊎ IsAuthenticated c v route r
  deployed-IsAuthenticated get c v route r loaded backend =
      elim (serve-IsTrusted (server_of c) v route r) [
        | inl quiet ↦ inl quiet
        | inr trusted ↦ inr (
            authenticated_lem c v route r (deployed c (load-IsLoaded o get c loaded) backend).secret
              trusted)
      ]

  -- Under such a configuration the transport is Cloud Tasks, and a task that it makes of an envelope
  -- is accepted by the configuration's server, which runs that envelope, once: the token of the two
  -- is the same and is there, and the limits of their bodies agree.
  pub deployed-dispatches :
      (get : Lookup) (c : Config F) (w : CloudTasks.World) (v : Webhook.World) (ct : CloudTasks)
      (e : Envelope) (opts : List Options.Option) (t : Task) (r : Request)
      → load o get ≡ ok c
      → c.tasks_backend ≡ cloudtasks
      → build_transport c ≡ cloud_tasks ct
      → CodecLaws w.codec
      → v.codec ≡ w.codec
      → lookup (codes "Authorization") w.inject ≡ none
      → task_of w ct e opts ≡ some t
      → Delivers t r
      → (serve (server_of c) v dispatch r).calls ≡ dispatches e ∷ []
  unfolding server_of
  deployed-dispatches get c w v ct e opts t r loaded backend built laws same free made delivers =
      let d = deployed c (load-IsLoaded o get c loaded) backend in
      let token : ct.token ≡ c.internal_token = token_lem c ct backend built in
      task_of-dispatches w ct (server_of c) v e opts t r laws same
        (λ empty. d.token (sym token ∙ empty)) (sym token) refl free made delivers

  -- A fix engine of a loaded configuration runs with the number of iterations that was set, and no
  -- sequence of events records a run with more attempts.
  pub loaded-IsBounded :
      (get : Lookup) (c : Config F) (has_notifier : Bool) (s : ParkStore) (laws : ParkStoreLaws s)
      (w : Driver.World s.State) (spec : Driver.Spec)
      (es : List (Event s w spec (fix_deps c has_notifier)))
      (st : Driver.State s w spec (fix_deps c has_notifier))
      → load o get ≡ ok c
      → IsBounded s laws w spec (fix_deps c has_notifier) st
      → (pos (fix_deps c has_notifier).max_iter ≡ c.max_iterations)
        × IsBounded s laws w spec
            (fix_deps c has_notifier)
            (run_events s w spec (fix_deps c has_notifier) st es)
  unfolding fix_deps
  loaded-IsBounded get c has_notifier s laws w spec es st loaded bounded =
      let positive = (load-IsLoaded o get c loaded).valid.iterations in
      let same = nat_or-positive 3 c.max_iterations positive in
      (
        same,
        run_events-IsBounded s laws w spec (fix_deps c has_notifier) es st
            (one_or_more (nat_or 3 c.max_iterations) c.max_iterations same positive) bounded,
      )
