-- ===== src/Fixflow/Driver.antt =====
-- go/internal/agent/fixflow/driver.go: the driver of one engine, over any park store. Its state is
-- the store, the armed timers, the sessions that were deleted and the notices that were sent, in
-- the order of sending. The ADK runner, GitHub, the notifier, JSON and the clock answer as
-- functions of the driver's state; an operation runs to its end before the next one starts.
pub mod Attempts
pub mod Bounded
pub mod Notices
pub mod Accounts
pub mod Alarms
mod Tests
use automation_agent.Common.{
  ℕ, ◌+◌, ◌-◌, Bool, true, false, not, ◌&&◌, Option, none, some, List, [], ◌∷◌, ◌++◌, leb, ◌==◌,
  if◌then◌else◌, Text, codes, eq_text, is_empty, keep, ℤ, pos,
}
use automation_agent.ParkStore.{ParkRecord, zero_record}
use automation_agent.ParkStore.Interface.{ParkStore}
use automation_agent.Fixflow.Keys.{pr_key, split_pr_key}

pub record RunParams : Type 0 where
  pub owner : Text
  pub repo : Text
  pub full_repo : Text
  pub base : Text
  pub report : Text
  pub feedback : Text

-- What `parseKickoff` has read: the owner and the name are the parts of `repo`.
pub record Kickoff : Type 0 where
  pub repo : Text
  pub owner : Text
  pub name : Text
  pub base : Text
  pub report_text : Text

pub record Spec : Type 0 where
  pub name : Text
  pub check_name : Text
  pub success_title : Text
  pub review_title : Text
  pub clean_title : Text

pub record Deps : Type 0 where
  pub has_notifier : Bool
  pub max_iter : ℕ
  pub ci_timeout : ℕ
  pub orphan_ttl : ℕ

pub data TerminalOutcome : Type 0 where
  success exhausted timeout clean : TerminalOutcome

pub record Comparison : Type 0 where
  pub total_commits : ℕ
  pub files : List Text

abbrev no_comparison : Comparison
no_comparison = record { total_commits = 0; files = [] }

-- `summaryInput`, from which the text of a summary is made.
pub record SummaryInput : Type 0 where
  pub outcome : TerminalOutcome
  pub workflow : Text
  pub full_repo : Text
  pub pr_number : ℤ
  pub attempts : ℕ
  pub report : Text
  pub last_output : Text
  pub changed : Comparison

pub data Body : Type 0 where
  summary : SummaryInput → Body
  not_applied : Text → Text → Body

pub record Notice : Type 0 where
  pub title : Text
  pub body : Body

-- The dynamic types that `prNumberFrom` looks for under "pr_number".
pub data PrValue : Type 0 where
  number : ℕ → PrValue
  other : PrValue

-- A map-typed node output: its tag, and the keys that the driver reads.
pub record NodeOutput : Type 0 where
  pub node : Text
  pub error : Option Text
  pub clean : Bool
  pub pr_number : Option PrValue

pub record DriveResult : Type 0 where
  pub parked_call_id : Text
  pub node_outputs : List NodeOutput

abbrev node_apply_fix : Text
node_apply_fix = codes "apply_fix"

-- The last output with the tag: the loop goes from the end.
unfoldable pub node_output : Text → List NodeOutput → Option NodeOutput
node_output node [] = none
node_output node (o ∷ os) =
    let later = node_output node os in
    elim later [ some l ↦ some l | none ↦ if eq_text o.node node then some o else none ]

pub pr_number_from : Option NodeOutput → ℕ
pr_number_from none = 0
pr_number_from (some o) = elim o.pr_number [ some (number n) ↦ n | _ ↦ 0 ]

pub data Error : Type 0 where
  missing_pr base_unresolved store_failed params_failed notify_failed : Error
  apply_failed : Text → Error

pub data Done : Type 0 where
  done : Done
  failed : Error → Done

pub record DriverState (S : Type 0) : Type 0 where
  pub store : S
  pub timers : List Text
  pub deleted : List Text
  pub notices : List Notice

pub record World (S : Type 0) : Type 0 where
  pub now : DriverState S → ℕ
  pub new_session_id : DriverState S → Text
  pub default_branch : DriverState S → Text → Text → Option Text
  pub start : DriverState S → Text → Option DriveResult
  pub resume : DriverState S → Text → Text → Text → Text → Option DriveResult
  pub delete_session : DriverState S → Text → Bool
  pub notify : DriverState S → Notice → Bool
  pub compare : DriverState S → RunParams → Option Comparison
  pub marshal : RunParams → Option Text
  pub unmarshal : Text → Option RunParams

pub record ResumeInput : Type 0 where
  pub full_repo : Text
  pub pr_number : ℕ
  pub conclusion : Text
  pub output_text : Text

abbrev pub is_success : Text → Bool
is_success c = eq_text c (codes "success")

abbrev pub is_failure : Text → Bool
is_failure c = eq_text c (codes "failure")

module _ (s : ParkStore) (w : World s.State) (spec : Spec) (d : Deps) where
  abbrev pub State : Type 0
  State = DriverState s.State

  abbrev pub Step : Type 0
  Step = Done × State

  pub engine_notify : State → Notice → Bool × State
  engine_notify st n =
      if d.has_notifier
      then (w.notify st n, record st { notices = st.notices ++ n ∷ [] })
      else (true, st)

  abbrev notify_done : Bool → Done
  notify_done true = done
  notify_done false = failed notify_failed

  pub delete_record : State → Text → State
  delete_record st sid = record st { store = (s.delete st.store sid).1 }

  -- The session goes first; if that fails the record stays for the orphan sweep.
  pub clear : State → Text → State
  unfolding delete_record
  clear st sid =
      if w.delete_session st sid
      then delete_record (record st { deleted = sid ∷ st.deleted }) sid
      else st

  pub put_record : State → ParkRecord → Bool × State
  put_record st r =
      let (fine, store) = s.put st.store (record r { updated_at = w.now st }) in
      (fine, record st { store = store })

  pub arm_timer : State → Text → State
  arm_timer st key = record st { timers = key ∷ keep (λ k. not (eq_text k key)) st.timers }

  pub stop_timer : State → Text → State
  stop_timer st key = record st { timers = keep (λ k. not (eq_text k key)) st.timers }

  pub fail_apply : State → Text → Text → Text → Step
  unfolding clear engine_notify
  fail_apply st sid full_repo reason =
      let (_, st') =
        engine_notify (clear st sid)
          (record { title = spec.review_title; body = not_applied full_repo reason }) in
      (failed (apply_failed reason), st')

  pub finish_clean : State → Text → Text → Step
  unfolding clear engine_notify
  finish_clean st sid full_repo =
      let input : SummaryInput = record {
        outcome = clean;
        workflow = spec.name;
        full_repo = full_repo;
        pr_number = pos 0;
        attempts = 0;
        report = [];
        last_output = [];
        changed = no_comparison;
      } in
      let (sent, st') =
        engine_notify (clear st sid) (record { title = spec.clean_title; body = summary input }) in
      (notify_done sent, st')

  abbrev or_comparison : Option Comparison → Comparison
  or_comparison none = no_comparison
  or_comparison (some c) = c

  -- The report and the comparison of the run, where its params can be decoded.
  abbrev pub with_params : SummaryInput → State → Option RunParams → SummaryInput
  with_params input st none = input
  with_params input st (some rp) = record input {
    report = rp.report;
    changed = or_comparison (w.compare st rp);
  }

  pub terminal_notify : State → TerminalOutcome → Text → ParkRecord → Text → ℤ → Text → Bool × State
  unfolding engine_notify
  terminal_notify st outcome title run full_repo pr last_output =
      let input : SummaryInput = record {
        outcome = outcome;
        workflow = spec.name;
        full_repo = full_repo;
        pr_number = pr;
        attempts = run.attempts;
        report = [];
        last_output = last_output;
        changed = no_comparison;
      } in
      engine_notify st
        (record { title = title; body = summary (with_params input st (w.unmarshal run.params)) })

  -- A terminal summary, and then the cleanup whether or not it was sent.
  pub finish : State → TerminalOutcome → Text → ParkRecord → Text → ℤ → Text → Step
  unfolding terminal_notify clear
  finish st outcome title run full_repo pr last_output =
      let (sent, st') = terminal_notify st outcome title run full_repo pr last_output in
      (notify_done sent, clear st' run.session_id)

  abbrev or_new : Text → Option ParkRecord → ParkRecord
  or_new sid none = record zero_record { session_id = sid }
  or_new sid (some r) = r

  abbrev parked_as : ParkRecord → Text → Text → ℕ → ParkRecord
  parked_as r key call_id attempt = record r {
    workflow = spec.name;
    pr_key = key;
    call_id = call_id;
    attempts = attempt;
  }

  abbrev new_run : Text → Text → ParkRecord
  new_run sid blob = record zero_record { session_id = sid; workflow = spec.name; params = blob }

  -- The write of `park` and, if it succeeds, the timer.
  pub park_record : State → Text → ParkRecord → Bool × State
  unfolding put_record arm_timer
  park_record st key r =
      let (fine, st') = put_record st r in if fine then (true, arm_timer st' key) else (false, st')

  pub park : State → Text → Text → Text → ℕ → Bool × State
  unfolding park_record
  park st sid key call_id attempt = elim (s.get st.store sid) [
    | none ↦ (false, st)
    | some found ↦ park_record st key (parked_as (or_new sid found) key call_id attempt)
  ]

  park_or_fail : Text → Text → Bool × State → Step
  unfolding fail_apply
  park_or_fail sid full_repo (true, st) = (done, st)
  park_or_fail sid full_repo (false, st) =
      fail_apply st sid full_repo (codes "could not record parked run")

  -- The end of `afterDrive`, where the attempt neither failed nor found nothing to do.
  pub after_apply : State → Text → Text → DriveResult → ℕ → ℕ → Step
  unfolding park_or_fail park fail_apply
  after_apply st sid full_repo res pr attempt =
      if is_empty res.parked_call_id
      then fail_apply st sid full_repo (codes "run did not park on CI wait")
      else if pr == 0
      then fail_apply st sid full_repo (codes "parked without a PR number")
      else park_or_fail sid full_repo (park st sid (pr_key full_repo pr) res.parked_call_id attempt)

  pub after_drive : State → Text → Text → DriveResult → ℕ → Step
  unfolding after_apply fail_apply finish_clean pr_number_from
  after_drive st sid full_repo res attempt =
      let apply = node_output node_apply_fix res.node_outputs in
      let go_on = after_apply st sid full_repo res (pr_number_from apply) attempt in
      elim apply [
        | none ↦ go_on
        | some o ↦ elim o.error [
          | some msg ↦ fail_apply st sid full_repo msg
          | none ↦ if o.clean then finish_clean st sid full_repo else go_on
        ]
      ]

  -- `none` is an error, of the store or of the encoding.
  pub put_params : State → Text → RunParams → Bool × State
  unfolding put_record
  put_params st sid rp = elim (w.marshal rp) [
    | none ↦ (false, st)
    | some blob ↦ put_record st (new_run sid blob)
  ]

  pub resolve_base : State → Kickoff → Option Text
  resolve_base st k = if is_empty k.base then w.default_branch st k.owner k.name else some k.base

  drive_kickoff : State → Text → Text → Option DriveResult → Step
  unfolding after_drive
  drive_kickoff st sid repo none = fail_apply st sid repo (codes "the fix run could not be driven")
  drive_kickoff st sid repo (some res) = after_drive st sid repo res 1

  start_run : Text → Text → Bool × State → Step
  unfolding drive_kickoff
  start_run sid repo (false, st) = (failed params_failed, st)
  start_run sid repo (true, st) = drive_kickoff st sid repo (w.start st sid)

  pub kickoff : State → Kickoff → Step
  unfolding resolve_base put_params start_run
  kickoff st k = elim (resolve_base st k) [
    | none ↦ (failed base_unresolved, st)
    | some base ↦
        let sid = w.new_session_id st in
        start_run sid k.repo (
          put_params st sid (record {
            owner = k.owner;
            repo = k.name;
            full_repo = k.repo;
            base = base;
            report = k.report_text;
            feedback = [];
          }))
  ]

  abbrev retried : RunParams → Text → RunParams
  retried rp feedback = record rp {
    feedback = codes "The previous attempt failed CI with:\n" ++ feedback;
  }

  -- The new params of a run that is driven again.
  write_feedback : State → ParkRecord → RunParams → Text → Bool × State
  unfolding put_record
  write_feedback st r rp feedback = elim (w.marshal (retried rp feedback)) [
    | none ↦ (false, st)
    | some blob ↦ put_record st (record r { params = blob })
  ]

  pub update_for_retry : State → Text → Text → Bool × State
  unfolding write_feedback
  update_for_retry st sid feedback = elim (s.get st.store sid) [
    | none ↦ (false, st)
    | some none ↦ (true, st)
    | some (some r) ↦ elim (w.unmarshal r.params) [
      | none ↦ (false, st)
      | some rp ↦ write_feedback st r rp feedback
    ]
  ]

  drive_resume : State → ParkRecord → Text → Option DriveResult → Step
  unfolding after_drive
  drive_resume st run full_repo none =
      fail_apply st run.session_id full_repo (codes "the retry could not be driven")
  drive_resume st run full_repo (some res) =
      after_drive st run.session_id full_repo res (run.attempts + 1)

  retry : ParkRecord → ResumeInput → Bool × State → Step
  unfolding drive_resume
  retry run input (false, st) =
      fail_apply st run.session_id input.full_repo (codes "the retry could not be prepared")
  retry run input (true, st) =
      drive_resume st run input.full_repo
        (w.resume st run.session_id run.call_id input.conclusion input.output_text)

  -- What `Resume` does with the run that it has claimed.
  pub resume_run : State → ParkRecord → ResumeInput → Step
  unfolding finish update_for_retry retry
  resume_run st run input =
      if is_success input.conclusion
      then finish st success spec.success_title run input.full_repo (pos input.pr_number) []
      else if leb d.max_iter run.attempts
      then finish st exhausted spec.review_title run input.full_repo (pos input.pr_number)
          input.output_text
      else retry run input (update_for_retry st run.session_id input.output_text)

  with_store : State → s.State → State
  with_store st store = record st { store = store }

  claimed : State → Text → Option (Option ParkRecord) → (State → ParkRecord → Step) → Step
  unfolding stop_timer
  claimed st key none act = (failed store_failed, st)
  claimed st key (some none) act = (done, st)
  claimed st key (some (some run)) act = act (stop_timer st key) run

  -- `ResolveByPRKey` and, for the run that it claims, the stop of its timer and `act`.
  pub claim_then : State → Text → (State → ParkRecord → Step) → Step
  unfolding claimed with_store
  claim_then st key act =
      let (found, store) = s.resolve_by_pr_key st.store spec.name key in
      claimed (with_store st store) key found act

  pub resume : State → ResumeInput → Step
  unfolding claim_then resume_run
  resume st input =
      if input.pr_number == 0
      then (failed missing_pr, st)
      else if not (is_success input.conclusion) && not (is_failure input.conclusion)
      then (done, st)
      else claim_then st (pr_key input.full_repo input.pr_number)
          (λ st' run. resume_run st' run input)

  -- The notice and the cleanup of a run that timed out, on the PR that its key names.
  pub time_out : State → Text → ParkRecord → State
  unfolding finish
  time_out st key run =
      let (full_repo, pr) = split_pr_key key in
      (finish st timeout spec.review_title run full_repo pr []).1

  pub on_timeout : State → Text → State
  unfolding claim_then time_out
  on_timeout st key = (claim_then st key (λ st' run. (done, time_out st' key run))).1

  time_out_all : List ParkRecord → State → State
  unfolding time_out stop_timer
  time_out_all [] st = st
  time_out_all (run ∷ runs) st =
      time_out_all runs (time_out (stop_timer st run.pr_key) run.pr_key run)

  abbrev fault : Bool → Done
  fault true = done
  fault false = failed store_failed

  -- Every record that was claimed is reported, also where the store returns an error with them.
  pub sweep_timeouts : State → Step
  unfolding time_out_all with_store
  sweep_timeouts st =
      let ((swept, fine), store) = s.sweep st.store spec.name (w.now st - d.ci_timeout) in
      (fault fine, time_out_all swept (with_store st store))

  clear_all : List ParkRecord → State → State
  unfolding clear
  clear_all [] st = st
  clear_all (run ∷ runs) st = clear_all runs (clear st run.session_id)

  pub sweep_orphans : State → Step
  unfolding clear_all
  sweep_orphans st =
      let (orphans, fine) = s.sweep_orphans st.store spec.name (w.now st - d.orphan_ttl) in
      (fault fine, clear_all orphans st)

  -- What reaches the driver: a kickoff, a CI result, a timer that fires, the two sweeps.
  pub data Event : Type 0 where
    kicks_off : Kickoff → Event
    reports : ResumeInput → Event
    fires : Text → Event
    sweeps reaps : Event

  pub step : State → Event → State
  unfolding kickoff resume on_timeout sweep_timeouts sweep_orphans
  step st (kicks_off k) = (kickoff st k).1
  step st (reports input) = (resume st input).1
  step st (fires key) = on_timeout st key
  step st sweeps = (sweep_timeouts st).1
  step st reaps = (sweep_orphans st).1

  pub run_events : State → List Event → State
  run_events st [] = st
  run_events st (e ∷ es) = run_events (step st e) es
