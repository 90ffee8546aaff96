-- ===== src/Reviewer/Intake.antt =====
-- go/internal/agent/reviewer/reviewer.go: what becomes of a pull request event. A step returns its
-- result and the history behind it; the reasons of a decision are not kept.
pub mod Guarded
mod Tests
use automation_agent.Common.{
  ℕ, Bool, true, false, not, ◌&&◌, ◌||◌, Option, none, some, List, [], ◌∷◌, ◌==◌, any,
  if◌then◌else◌, Text, codes, eq_text, is_empty, has_prefix, length,
}
use automation_agent.Fixflow.Keys.{before, after}
use automation_agent.Reviewer.Hunks.{PrFile, oversize}
use automation_agent.Reviewer.Filter.{FileFilter, filtered}
use automation_agent.Reviewer.Hub.{
  Pr, PullRequestEvent, asks_files, asks_head, discovers, reviews, History, ReviewRun, overtaken,
  broken, reviewed, ReviewWorld,
}
use automation_agent.Reviewer.Publish.{PublishMeta, publish, publish_deny}

-- A cap of 0 is off.
pub record ReviewEngine : Type 0 where
  pub enabled : Bool
  pub has_client : Bool
  pub has_models : Bool
  pub skip_drafts : Bool
  pub filter : FileFilter
  pub max_files : ℕ
  pub max_diff_bytes : ℕ

pub data Decision : Type 0 where
  skipped : Decision
  denied reviewable : (files : List PrFile) → (diff_bytes : ℕ) → Decision
  undecided : Decision

abbrev is_slash : ℕ → Bool
is_slash c = c == b'/'

unfoldable pub split_full_name : Text → Option (Text × Text)
split_full_name full =
    if not (any is_slash full)
      || is_empty (before b'/' full)
      || is_empty (after b'/' full)
      || any is_slash (after b'/' full)
    then none
    else some (before b'/' full, after b'/' full)

unfoldable pub is_dependency_bot : Text → Bool
is_dependency_bot login =
    eq_text login (codes "dependabot[bot]") || eq_text login (codes "renovate[bot]")

abbrev pub own_branch_prefix : Text
own_branch_prefix = codes "automation-agent/"

unfoldable pub is_trigger : Text → Bool
is_trigger action =
    any (eq_text action)
      (codes "opened" ∷ codes "reopened" ∷ codes "synchronize" ∷ codes "ready_for_review" ∷ [])

-- A newer push, from the answer on the current head: an error and an empty answer are not one.
abbrev differs : Text → Option Text → Bool
differs sha none = false
differs sha (some current) = not (is_empty current) && not (eq_text current sha)

module _ (w : ReviewWorld) (e : ReviewEngine) where
  -- The rules in front of the first call.
  unfoldable pub passes_rules : PullRequestEvent → Bool
  passes_rules ev =
      is_trigger ev.action
      && not (e.skip_drafts && ev.draft && not (eq_text ev.action (codes "ready_for_review")))
      && not (has_prefix ev.head_ref own_branch_prefix)
      && not (any (λ l. eq_text l (codes "skip-review")) ev.labels)
      && not (is_dependency_bot ev.author_login)

  pub by_size : List PrFile × ℕ → Decision
  by_size ([], diff_bytes) = skipped
  by_size (f ∷ fs, diff_bytes) =
      if oversize (length (f ∷ fs)) diff_bytes e.max_files e.max_diff_bytes
      then denied (f ∷ fs) diff_bytes
      else reviewable (f ∷ fs) diff_bytes

  of_files : Option (List PrFile) → Decision
  unfolding by_size
  of_files none = undecided
  of_files (some files) = by_size (filtered e.filter files)

  of_repo : History → ℕ → Option (Text × Text) → Decision × History
  unfolding of_files
  of_repo h number none = (undecided, h)
  of_repo h number (some (owner, repo)) =
      let pr : Pr = record { owner = owner; repo = repo; number = number } in
      (of_files (w.list_pr_files h pr), asks_files pr ∷ h)

  pub decide : PullRequestEvent → History → Decision × History
  unfolding of_repo
  decide ev h =
      let out = of_repo h ev.number (split_full_name ev.repo_full_name) in
      if passes_rules ev then out else (skipped, h)

  pub superseded : Pr → Text → History → Bool × History
  superseded pr sha h =
      if is_empty sha
      then (false, h)
      else (differs sha (w.pull_request_head_sha h pr), asks_head pr ∷ h)

  unless_stale : Bool × History → (History → Bool × History) → Bool × History
  unless_stale (true, h) act = (true, h)
  unless_stale (false, h) act = act h

  after_review : PublishMeta → ReviewRun → History → Bool × History
  unfolding superseded unless_stale
  after_review meta overtaken h = (true, h)
  after_review meta broken h = (false, h)
  after_review meta (reviewed card findings) h =
      unless_stale (superseded meta.pr meta.head_sha h) (publish w meta card findings)

  run_review : PublishMeta → History → Bool × History
  unfolding superseded unless_stale after_review
  run_review meta h =
      unless_stale (superseded meta.pr meta.head_sha (discovers meta.pr ∷ h))
        λ k. after_review meta (w.review k meta.pr meta.files) (reviews meta.pr ∷ k)

  abbrev pr_of : PullRequestEvent → Pr
  pr_of ev = record {
    owner = before b'/' ev.repo_full_name;
    repo = after b'/' ev.repo_full_name;
    number = ev.number;
  }

  abbrev meta_of : PullRequestEvent → List PrFile → PublishMeta
  meta_of ev files = record { pr = pr_of ev; head_sha = ev.head_sha; files = files }

  after_decision : PullRequestEvent → Decision × History → Bool × History
  unfolding superseded unless_stale run_review
  after_decision ev (undecided, h) = (false, h)
  after_decision ev (skipped, h) = (true, h)
  after_decision ev (denied files diff_bytes, h) =
      unless_stale (superseded (pr_of ev) ev.head_sha h)
        (publish_deny w (meta_of ev files) diff_bytes)
  after_decision ev (reviewable files diff_bytes, h) =
      unless_stale (superseded (pr_of ev) ev.head_sha h)
        (λ k. if e.has_models then run_review (meta_of ev files) k else (false, k))

  after_parse : Option PullRequestEvent → History → Bool × History
  unfolding decide after_decision
  after_parse none h = (false, h)
  after_parse (some ev) h = after_decision ev (decide ev h)

  -- `Engine.Kickoff`: whether it returns no error.
  pub review_kickoff : Text → History → Bool × History
  unfolding after_parse
  review_kickoff raw h =
      if not e.enabled
      then (true, h)
      else if not e.has_client
      then (false, h)
      else after_parse (w.parse_pull_request_event raw) h
