-- ===== src/Fixflow/Driver/Attempts.antt =====
-- go/internal/agent/fixflow/driver.go: no run is ever recorded with more than `MaxIter` attempts.
use automation_agent.Common.{
  ℕ, ◌≤◌, ◌≡◌, sym, subst, inl, inr, Bool, true, false, Option, none, some, ◌==◌, Text, arith,
  Bool-cases, Option-cases, is_empty,
}
use automation_agent.ParkStore.{ParkRecord, unpark}
use automation_agent.ParkStore.Interface.{ParkStore, ParkStoreLaws, Holds}
use automation_agent.Fixflow.Keys.{pr_key}
use automation_agent.Fixflow.Driver.{
  DriverState, World, Spec, Deps, Kickoff, DriveResult, RunParams, TerminalOutcome, State,
  engine_notify, clear, put_record, arm_timer, fail_apply, finish_clean, terminal_notify, finish,
  park_record, park, park_or_fail, after_apply, after_drive, put_params, drive_kickoff, start_run,
  kickoff, resolve_base, write_feedback, update_for_retry, node_output, node_apply_fix, parked_as,
  new_run, retried, or_new,
}

module _ (s : ParkStore) (laws : ParkStoreLaws s) (w : World s.State) (spec : Spec) (d : Deps) where
  abbrev pub Within : ParkRecord → Type 0
  Within r = r.attempts ≤ d.max_iter

  abbrev IsBoundedStore : s.State → Type 0
  IsBoundedStore store = laws.IsValid store × Holds Within (laws.view store)

  abbrev pub IsBounded : DriverState s.State → Type 0
  IsBounded st = IsBoundedStore st.store

  pub Within-unpark : (r : ParkRecord) → Within r → Within (unpark r)
  Within-unpark r h = h

  abbrev St : Type 0
  St = State s w spec d

  pub clear-IsBounded : (st : St) (sid : Text) → IsBounded st → IsBounded (clear s w spec d st sid)
  unfolding clear
  clear-IsBounded st sid h =
      ground (
        arith,
        h,
        laws.delete_valid st.store sid h.0,
        laws.delete_holds Within st.store sid h.0 h.1,
      )

  put_record-IsBounded :
      (st : St) (r : ParkRecord)
      → Within r
      → IsBounded st
      → IsBounded (put_record s w spec d st r).1
  unfolding put_record
  put_record-IsBounded st r a h = (
    laws.put_valid st.store (record r { updated_at = w.now st }) h.0,
    laws.put_holds Within st.store (record r { updated_at = w.now st }) Within-unpark h.0 h.1 a,
  )

  pub fail_apply-IsBounded :
      (st : St) (sid repo reason : Text)
      → IsBounded st
      → IsBounded (fail_apply s w spec d st sid repo reason).1
  unfolding fail_apply engine_notify
  fail_apply-IsBounded st sid repo reason h = ground (arith, clear-IsBounded st sid h)

  finish_clean-IsBounded :
      (st : St) (sid repo : Text) → IsBounded st → IsBounded (finish_clean s w spec d st sid repo).1
  unfolding finish_clean engine_notify
  finish_clean-IsBounded st sid repo h = ground (arith, clear-IsBounded st sid h)

  pub finish-IsBounded :
      (st : St) (outcome : TerminalOutcome) (title : Text) (run : ParkRecord) (repo : Text) (pr : _)
      (out : Text)
      → IsBounded st
      → IsBounded (finish s w spec d st outcome title run repo pr out).1
  unfolding finish terminal_notify engine_notify
  finish-IsBounded st outcome title run repo pr out h = elim (Bool-cases d.has_notifier) [
    | inl yes' ↦ rw yes' (clear-IsBounded _ run.session_id h)
    | inr no' ↦ rw no' (clear-IsBounded _ run.session_id h)
  ]

  store-park_record :
      (st : St) (key : Text) (r : ParkRecord)
      → (park_record s w spec d st key r).1.store ≡ (put_record s w spec d st r).1.store
  unfolding park_record arm_timer
  store-park_record st key r = ground arith

  park-IsBounded :
      (st : St) (sid key call_id : Text) (attempt : ℕ)
      → attempt ≤ d.max_iter
      → IsBounded st
      → IsBounded (park s w spec d st sid key call_id attempt).1
  unfolding park
  park-IsBounded st sid key call_id attempt a h = elim (Option-cases (s.get st.store sid)) [
    | inl e ↦ rw (e, park) h
    | inr (found, e) ↦
        rw (e, park)
          (subst IsBoundedStore (sym (store-park_record st key (run found)))
            (put_record-IsBounded st (run found) a h))
  ]
    where
      run : Option ParkRecord → ParkRecord
      run found = parked_as s w spec d (or_new s w spec d sid found) key call_id attempt

  park_or_fail-IsBounded :
      (sid repo : Text) (out : Bool × St)
      → IsBounded out.1
      → IsBounded (park_or_fail s w spec d sid repo out).1
  unfolding park_or_fail
  park_or_fail-IsBounded sid repo (true, st) h = h
  park_or_fail-IsBounded sid repo (false, st) h = fail_apply-IsBounded st sid repo _ h

  after_apply-IsBounded :
      (st : St) (sid repo : Text) (res : DriveResult) (pr attempt : ℕ)
      → attempt ≤ d.max_iter
      → IsBounded st
      → IsBounded (after_apply s w spec d st sid repo res pr attempt).1
  unfolding after_apply
  after_apply-IsBounded st sid repo res pr attempt a h =
      elim (Bool-cases (is_empty res.parked_call_id)) [
        | inl no_call ↦ rw no_call (fail_apply-IsBounded st sid repo _ h)
        | inr call ↦ elim (Bool-cases (pr == 0)) [
          | inl no_pr ↦ rw (call, no_pr) (fail_apply-IsBounded st sid repo _ h)
          | inr some_pr ↦
              rw (call, some_pr)
                (park_or_fail-IsBounded sid repo _
                  (park-IsBounded st sid (pr_key repo pr) res.parked_call_id attempt a h))
        ]
      ]

  pub after_drive-IsBounded :
      (st : St) (sid repo : Text) (res : DriveResult) (attempt : ℕ)
      → attempt ≤ d.max_iter
      → IsBounded st
      → IsBounded (after_drive s w spec d st sid repo res attempt).1
  unfolding after_drive
  after_drive-IsBounded st sid repo res attempt a h =
      elim (Option-cases (node_output node_apply_fix res.node_outputs)) [
        | inl e ↦ rw (e, after_drive) (after_apply-IsBounded st sid repo res _ attempt a h)
        | inr (o, e) ↦ elim (Option-cases o.error) [
          | inr (msg, bad) ↦
              rw (e, after_drive) (rw (bad, after_drive) (fail_apply-IsBounded st sid repo msg h))
          | inl fine ↦ elim (Bool-cases o.clean) [
            | inl tidy ↦
                rw (e, after_drive)
                  (rw (fine, after_drive) (rw tidy (finish_clean-IsBounded st sid repo h)))
            | inr dirty ↦
                rw (e, after_drive)
                  (rw (fine, after_drive)
                    (rw dirty (after_apply-IsBounded st sid repo res _ attempt a h)))
          ]
        ]
      ]

  put_params-IsBounded :
      (st : St) (sid : Text) (rp : RunParams)
      → IsBounded st
      → IsBounded (put_params s w spec d st sid rp).1
  unfolding put_params
  put_params-IsBounded st sid rp h = elim (Option-cases (w.marshal rp)) [
    | inl e ↦ rw (e, put_params) h
    | inr (blob, e) ↦
        rw (e, put_params) (put_record-IsBounded st (new_run s w spec d sid blob) (omega arith) h)
  ]

  start_run-IsBounded :
      (sid repo : Text) (out : Bool × St)
      → 1 ≤ d.max_iter
      → IsBounded out.1
      → IsBounded (start_run s w spec d sid repo out).1
  unfolding start_run drive_kickoff
  start_run-IsBounded sid repo (false, st) a h = h
  start_run-IsBounded sid repo (true, st) a h = elim (Option-cases (w.start st sid)) [
    | inl e ↦ rw (e, drive_kickoff) (fail_apply-IsBounded st sid repo _ h)
    | inr (res, e) ↦ rw (e, drive_kickoff) (after_drive-IsBounded st sid repo res 1 a h)
  ]

  pub kickoff-IsBounded :
      (st : St) (k : Kickoff)
      → 1 ≤ d.max_iter
      → IsBounded st
      → IsBounded (kickoff s w spec d st k).1
  unfolding kickoff
  kickoff-IsBounded st k a h = elim (Option-cases (resolve_base s w spec d st k)) [
    | inl e ↦ rw (e, kickoff) h
    | inr (base, e) ↦
        rw (e, kickoff) (start_run-IsBounded _ k.repo _ a (put_params-IsBounded st _ _ h))
  ]

  write_feedback-IsBounded :
      (st : St) (r : ParkRecord) (rp : RunParams) (feedback : Text)
      → Within r
      → IsBounded st
      → IsBounded (write_feedback s w spec d st r rp feedback).1
  unfolding write_feedback
  write_feedback-IsBounded st r rp feedback a h =
      elim (Option-cases (w.marshal (retried s w spec d rp feedback))) [
        | inl e ↦ rw (e, write_feedback) h
        | inr (blob, e) ↦
            rw (e, write_feedback) (put_record-IsBounded st (record r { params = blob }) a h)
      ]

  pub update_for_retry-IsBounded :
      (st : St) (sid feedback : Text)
      → IsBounded st
      → IsBounded (update_for_retry s w spec d st sid feedback).1
  unfolding update_for_retry
  update_for_retry-IsBounded st sid feedback h = elim (Option-cases (s.get st.store sid)) [
    | inl e ↦ rw (e, update_for_retry) h
    | inr (none, e) ↦ rw (e, update_for_retry) h
    | inr (some r, e) ↦ elim (Option-cases (w.unmarshal r.params)) [
      | inl bad ↦ rw (e, update_for_retry) (rw (bad, update_for_retry) h)
      | inr (rp, fine) ↦
          rw (e, update_for_retry)
            (rw (fine, update_for_retry)
              (write_feedback-IsBounded st r rp feedback
                (h.1 sid r (laws.get_view st.store sid (some r) e)) h))
    ]
  ]
