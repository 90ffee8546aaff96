-- ===== src/Fixflow/Driver/Bounded.antt =====
-- go/internal/agent/fixflow/driver.go: the retry bound over every sequence of events.
use automation_agent.Common.{
  ◌+◌, ◌-◌, ◌≤◌, inl, inr, Bool, true, false, Option, none, some, List, [], ◌∷◌, leb, ◌==◌, Text,
  arith, not, ◌&&◌, Bool-cases,
}
use automation_agent.ParkStore.{ParkRecord}
use automation_agent.ParkStore.Interface.{ParkStore, ParkStoreLaws}
use automation_agent.Fixflow.Driver.{
  World, Spec, Deps, DriveResult, ResumeInput, Step, State, timeout, stop_timer, drive_resume,
  retry, resume_run, claimed, claim_then, with_store, resume, time_out, on_timeout, time_out_all,
  sweep_timeouts, clear_all, sweep_orphans, is_success, is_failure, Event, kicks_off, reports,
  fires, sweeps, reaps, step, run_events,
}
use automation_agent.Fixflow.Driver.Attempts.{
  IsBounded, Within, Within-unpark, clear-IsBounded, fail_apply-IsBounded, finish-IsBounded,
  after_drive-IsBounded, kickoff-IsBounded, update_for_retry-IsBounded,
}

module _ (s : ParkStore) (laws : ParkStoreLaws s) (w : World s.State) (spec : Spec) (d : Deps) where
  abbrev St : Type 0
  St = State s w spec d

  abbrev Ok : St → Type 0
  Ok = IsBounded s laws w spec d

  drive_resume-IsBounded :
      (st : St) (run : ParkRecord) (repo : Text) (out : Option DriveResult)
      → run.attempts + 1 ≤ d.max_iter
      → Ok st
      → Ok (drive_resume s w spec d st run repo out).1
  unfolding drive_resume
  drive_resume-IsBounded st run repo none a h =
      fail_apply-IsBounded s laws w spec d st run.session_id repo _ h
  drive_resume-IsBounded st run repo (some res) a h =
      after_drive-IsBounded s laws w spec d st run.session_id repo res (run.attempts + 1) a h

  retry-IsBounded :
      (run : ParkRecord) (input : ResumeInput) (out : Bool × St)
      → run.attempts + 1 ≤ d.max_iter
      → Ok out.1
      → Ok (retry s w spec d run input out).1
  unfolding retry
  retry-IsBounded run input (false, st) a h =
      fail_apply-IsBounded s laws w spec d st run.session_id input.full_repo _ h
  retry-IsBounded run input (true, st) a h = drive_resume-IsBounded st run input.full_repo _ a h

  resume_run-IsBounded :
      (st : St) (run : ParkRecord) (input : ResumeInput)
      → Ok st
      → Ok (resume_run s w spec d st run input).1
  unfolding resume_run
  resume_run-IsBounded st run input h = elim (Bool-cases (is_success input.conclusion)) [
    | inl passed ↦ rw passed (finish-IsBounded s laws w spec d st _ _ run _ _ _ h)
    | inr red ↦ elim (Bool-cases (leb d.max_iter run.attempts)) [
      | inl spent ↦ rw (red, spent) (finish-IsBounded s laws w spec d st _ _ run _ _ _ h)
      | inr left ↦
          rw (red, left)
            (retry-IsBounded run input _ (ground (arith, left))
              (update_for_retry-IsBounded s laws w spec d st run.session_id input.output_text h))
    ]
  ]

  claimed-IsBounded :
      (st : St) (key : Text) (found : Option (Option ParkRecord))
      (act : St → ParkRecord → Step s w spec d)
      → ((st' : St) (run : ParkRecord) → Ok st' → Ok (act st' run).1)
      → Ok st
      → Ok (claimed s w spec d st key found act).1
  unfolding claimed stop_timer
  claimed-IsBounded st key none act a h = h
  claimed-IsBounded st key (some none) act a h = h
  claimed-IsBounded st key (some (some run)) act a h = a _ run h

  claim_then-IsBounded :
      (st : St) (key : Text) (act : St → ParkRecord → Step s w spec d)
      → ((st' : St) (run : ParkRecord) → Ok st' → Ok (act st' run).1)
      → Ok st
      → Ok (claim_then s w spec d st key act).1
  unfolding claim_then with_store
  claim_then-IsBounded st key act a h = claimed-IsBounded _ key _ act a (
    laws.resolve_valid st.store spec.name key h.0,
    laws.resolve_holds (Within s laws w spec d) st.store spec.name key
        (Within-unpark s laws w spec d) h.0 h.1,
  )

  resume-IsBounded : (st : St) (input : ResumeInput) → Ok st → Ok (resume s w spec d st input).1
  unfolding resume
  resume-IsBounded st input h = elim (Bool-cases (input.pr_number == 0)) [
    | inl no_pr ↦ rw no_pr h
    | inr pr ↦
        elim (Bool-cases (not (is_success input.conclusion) && not (is_failure input.conclusion))) [
          | inl other ↦ rw (pr, other) h
          | inr acts ↦
              rw (pr, acts)
                (claim_then-IsBounded st _ _ (λ st' run k. resume_run-IsBounded st' run input k) h)
        ]
  ]

  time_out-IsBounded :
      (st : St) (key : Text) (run : ParkRecord) → Ok st → Ok (time_out s w spec d st key run)
  unfolding time_out
  time_out-IsBounded st key run h =
      finish-IsBounded s laws w spec d st timeout spec.review_title run _ _ [] h

  time_out_all-IsBounded :
      (runs : List ParkRecord) (st : St) → Ok st → Ok (time_out_all s w spec d runs st)
  unfolding time_out_all stop_timer
  time_out_all-IsBounded [] st h = h
  time_out_all-IsBounded (run ∷ runs) st h =
      time_out_all-IsBounded runs _ (time_out-IsBounded _ run.pr_key run h)

  clear_all-IsBounded :
      (runs : List ParkRecord) (st : St) → Ok st → Ok (clear_all s w spec d runs st)
  unfolding clear_all
  clear_all-IsBounded [] st h = h
  clear_all-IsBounded (run ∷ runs) st h =
      clear_all-IsBounded runs _ (clear-IsBounded s laws w spec d st run.session_id h)

  -- One event keeps every recorded run within `MaxIter` attempts, which is at least 1.
  pub step-IsBounded :
      (st : St) (e : Event s w spec d) → 1 ≤ d.max_iter → Ok st → Ok (step s w spec d st e)
  unfolding step on_timeout sweep_timeouts sweep_orphans with_store
  step-IsBounded st (kicks_off k) a h = kickoff-IsBounded s laws w spec d st k a h
  step-IsBounded st (reports input) a h = resume-IsBounded st input h
  step-IsBounded st (fires key) a h =
      claim_then-IsBounded st key _ (λ st' run k. time_out-IsBounded st' key run k) h
  step-IsBounded st sweeps a h =
      let cutoff = w.now st - d.ci_timeout in
      let out = s.sweep st.store spec.name cutoff in
      time_out_all-IsBounded out.0.0 (with_store s w spec d st out.1) (
        laws.sweep_valid st.store spec.name cutoff h.0,
        laws.sweep_holds (Within s laws w spec d) st.store spec.name cutoff
            (Within-unpark s laws w spec d) h.0 h.1,
      )
  step-IsBounded st reaps a h =
      clear_all-IsBounded (s.sweep_orphans st.store spec.name (w.now st - d.orphan_ttl)).0 st h

-- Over any store that keeps its laws, and whatever the runner, GitHub, the notifier and the clock
-- do: no sequence of kickoffs, CI results, timers and sweeps records a run with more than
-- `max_iter` attempts, if `max_iter` is at least 1 and no run is recorded so at the start.
pub run_events-IsBounded :
    (s : ParkStore) (laws : ParkStoreLaws s) (w : World s.State) (spec : Spec) (d : Deps)
    (es : List (Event s w spec d)) (st : State s w spec d)
    → 1 ≤ d.max_iter
    → IsBounded s laws w spec d st
    → IsBounded s laws w spec d (run_events s w spec d st es)
unfolding run_events
run_events-IsBounded s laws w spec d [] st a h = h
run_events-IsBounded s laws w spec d (e ∷ es) st a h =
    run_events-IsBounded s laws w spec d es (step s w spec d st e) a
      (step-IsBounded s laws w spec d st e a h)
