-- ===== src/Fixflow/Engine.antt =====
-- go/internal/agent/fixflow/engine.go and envelope.go: what an engine lets through to its driver,
-- and the cap on the files of one attempt. JSON has been decoded: `none` is a body that it refuses.
pub mod Guards
mod Tests
use automation_agent.Common.{
  is_space, ℕ, ◌-◌, Bool, true, not, ◌&&◌, ◌||◌, Option, none, some, List, [], ◌∷◌, leb, ◌==◌,
  if◌then◌else◌, Text, eq_text, is_empty, any, take, length, codes, Result, ok, err,
}
use automation_agent.ParkStore.Interface.{ParkStore}
use automation_agent.Fixflow.Keys.{before, after}
use automation_agent.Fixflow.Driver.{
  World, Spec, Deps, State, Done, done, Kickoff, ResumeInput, kickoff, resume,
}

-- `ReportText` of the body is the text that the decoder unquotes.
pub record KickoffBody : Type 0 where
  pub repo : Text
  pub base : Text
  pub report : Text
  pub report_text : Text

pub record CheckEvent : Type 0 where
  pub repo_full_name : Text
  pub pr_number : ℕ
  pub check_name : Text
  pub status : Text
  pub conclusion : Text
  pub output_text : Text

pub is_blank : Text → Bool
is_blank s = not (any (λ c. not (is_space c)) s)

pub split_repo : Text → Option (Text × Text)
split_repo s =
    if any (λ c. c == b'/') s && not (is_empty (before b'/' s)) && not (is_empty (after b'/' s))
    then some (before b'/' s, after b'/' s)
    else none

pub data Refusal : Type 0 where
  undecodable repo_required repo_malformed report_required not_allowed : Refusal

-- An answer of the driver, or a refusal in front of it.
pub data Answer : Type 0 where
  driven : Done → Answer
  refused : Refusal → Answer

abbrev kickoff_of : KickoffBody → Text × Text → Kickoff
kickoff_of b parts = record {
  repo = b.repo;
  owner = parts.0;
  name = parts.1;
  base = b.base;
  report_text = b.report_text;
}

-- The end of `Validate`, at the parts of the repository.
checked : KickoffBody → Option (Text × Text) → Result Refusal Kickoff
checked b none = err repo_malformed
checked b (some parts) = if is_empty b.report then err report_required else ok (kickoff_of b parts)

pub parse_kickoff : Option KickoffBody → Result Refusal Kickoff
unfolding checked
parse_kickoff none = err undecodable
parse_kickoff (some b) =
    if is_blank b.repo then err repo_required else checked b (split_repo b.repo)

-- An empty list of repositories allows them all.
pub repo_allowed : List Text → Text → Bool
repo_allowed [] repo = true
repo_allowed (r ∷ repos) repo = any (λ x. eq_text x repo) (r ∷ repos)

-- The files that an attempt keeps of its work, and how many it drops. No cap is written as 0.
pub cap_work : {A : Type 0} → ℕ → List A → List A × ℕ
cap_work max_files work =
    if max_files == 0 || leb (length work) max_files
    then (work, 0)
    else (take max_files work, length work - max_files)

abbrev pub input_of : CheckEvent → ResumeInput
input_of ev = record {
  full_repo = ev.repo_full_name;
  pr_number = ev.pr_number;
  conclusion = ev.conclusion;
  output_text = ev.output_text;
}

module _ (s : ParkStore) (w : World s.State) (spec : Spec) (d : Deps) (repos : List Text) where
  start_allowed : State s w spec d → Result Refusal Kickoff → Answer × State s w spec d
  start_allowed st (err e) = (refused e, st)
  start_allowed st (ok k) =
      let (out, st') = kickoff s w spec d st k in
      if repo_allowed repos k.repo then (driven out, st') else (refused not_allowed, st)

  pub engine_kickoff : State s w spec d → Option KickoffBody → Answer × State s w spec d
  unfolding start_allowed
  engine_kickoff st body = start_allowed st (parse_kickoff body)

module _ (s : ParkStore) (w : World s.State) (spec : Spec) (d : Deps) where
  pub engine_resume : State s w spec d → Option CheckEvent → Answer × State s w spec d
  engine_resume st none = (refused undecodable, st)
  engine_resume st (some ev) =
      let (out, st') = resume s w spec d st (input_of ev) in
      if not (eq_text ev.check_name spec.check_name) || not (eq_text ev.status (codes "completed"))
      then (driven done, st)
      else (driven out, st')
