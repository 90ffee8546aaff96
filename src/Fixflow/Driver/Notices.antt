-- ===== src/Fixflow/Driver/Notices.antt =====
-- go/internal/agent/fixflow/driver.go: who is told what, and when a record may go.
use automation_agent.Common.{
  ◌-◌, ◌≡◌, ◌≢◌, ◌==◌, not, ◌&&◌, refl, ap, ◌∙◌, ◌⊎◌, inl, inr, true, false, List, [], ◌∷◌, ◌++◌,
  sym, Option, none, some, Text, arith, Bool-cases, ℤ,
}
use automation_agent.ParkStore.{ParkRecord}
use automation_agent.ParkStore.Interface.{ParkStore}
use automation_agent.Fixflow.Keys.{split_pr_key}
use automation_agent.Fixflow.Driver.{
  World, Spec, Deps, State, Notice, SummaryInput, summary, RunParams, no_comparison, with_params,
  TerminalOutcome, timeout, stop_timer, finish, terminal_notify, engine_notify, delete_record,
  clear, with_store, time_out, time_out_all, sweep_timeouts, clear_all, sweep_orphans, resume,
  ResumeInput, is_success, is_failure,
}

append_nil : (ns : List Notice) → ns ++ [] ≡ ns
append_nil [] = refl
append_nil (n ∷ ns) = ap (λ r. n ∷ r) (append_nil ns)

append_assoc : (ks ns os : List Notice) → (ks ++ ns) ++ os ≡ ks ++ (ns ++ os)
append_assoc [] ns os = refl
append_assoc (k ∷ ks) ns os = ap (λ r. k ∷ r) (append_assoc ks ns os)

module _ (s : ParkStore) (w : World s.State) (spec : Spec) (d : Deps) where
  abbrev St : Type 0
  St = State s w spec d

  -- `clear` deletes the record only behind its session: if the session cannot be deleted nothing
  -- changes, and else the session is gone and the store is what its `Delete` leaves.
  pub clear_order :
      (st : St) (sid : Text)
      → ((w.delete_session st sid ≡ false) × (clear s w spec d st sid ≡ st))
        ⊎ ((w.delete_session st sid ≡ true)
            × ((clear s w spec d st sid).deleted ≡ sid ∷ st.deleted)
            × ((clear s w spec d st sid).store ≡ (s.delete st.store sid).1))
  unfolding clear delete_record
  clear_order st sid = elim (Bool-cases (w.delete_session st sid)) [
    | inl e ↦ inr (e, rw e refl, rw e refl)
    | inr e ↦ inl (e, rw e refl)
  ]

  pub notices-clear : (st : St) (sid : Text) → (clear s w spec d st sid).notices ≡ st.notices
  unfolding clear delete_record
  notices-clear st sid = ground arith

  notices-clear_all :
      (runs : List ParkRecord) (st : St) → (clear_all s w spec d runs st).notices ≡ st.notices
  unfolding clear_all
  notices-clear_all [] st = refl
  notices-clear_all (run ∷ runs) st = notices-clear_all runs _ ∙ notices-clear st run.session_id

  -- The notice says of the run that it timed out, on the pull request that its key names.
  abbrev pub IsTimeoutOf : ParkRecord → Notice → Type 0
  IsTimeoutOf run n =
      (n.title ≡ spec.review_title)
      × ((input : SummaryInput) × (n.body ≡ summary input)
          × (input.outcome ≡ timeout)
          × (input.workflow ≡ spec.name)
          × (input.full_repo ≡ (split_pr_key run.pr_key).0)
          × (input.pr_number ≡ (split_pr_key run.pr_key).1)
          × (input.attempts ≡ run.attempts))

  -- The notices report the runs, each once and in their order.
  abbrev pub AreTimeouts : List ParkRecord → List Notice → Type 0
  AreTimeouts [] [] = Unit {0}
  AreTimeouts [] (n ∷ ns) = ⊥
  AreTimeouts (run ∷ runs) [] = ⊥
  AreTimeouts (run ∷ runs) (n ∷ ns) = IsTimeoutOf run n × AreTimeouts runs ns

  pub notices-engine_notify :
      (st : St) (n : Notice)
      → d.has_notifier ≡ true
      → (engine_notify s w spec d st n).1.notices ≡ st.notices ++ n ∷ []
  unfolding engine_notify
  notices-engine_notify st n h = rw h refl

  abbrev pub input_of : TerminalOutcome → ParkRecord → Text → ℤ → Text → SummaryInput
  input_of outcome run repo pr out = record {
    outcome = outcome;
    workflow = spec.name;
    full_repo = repo;
    pr_number = pr;
    attempts = run.attempts;
    report = [];
    last_output = out;
    changed = no_comparison;
  }

  -- The summary that `finish` sends.
  abbrev pub input_with : St → TerminalOutcome → ParkRecord → Text → ℤ → Text → SummaryInput
  input_with st outcome run repo pr out =
      with_params s w spec d (input_of outcome run repo pr out) st (w.unmarshal run.params)

  pub notices-finish :
      (st : St) (outcome : TerminalOutcome) (title : Text) (run : ParkRecord) (repo : Text) (pr : ℤ)
      (out : Text)
      → d.has_notifier ≡ true
      → (finish s w spec d st outcome title run repo pr out).1.notices
        ≡ st.notices
          ++ record { title = title; body = summary (input_with st outcome run repo pr out) } ∷ []
  unfolding finish terminal_notify
  notices-finish st outcome title run repo pr out h =
      notices-clear _ run.session_id ∙ notices-engine_notify st _ h

  pub with_params-kept :
      (input : SummaryInput) (st : St) (rp : Option RunParams)
      → let i = with_params s w spec d input st rp in
        (i.outcome ≡ input.outcome)
        × (i.workflow ≡ input.workflow)
        × (i.full_repo ≡ input.full_repo)
        × (i.pr_number ≡ input.pr_number)
        × (i.attempts ≡ input.attempts)
  with_params-kept input st none = (refl, refl, refl, refl, refl)
  with_params-kept input st (some rp) = (refl, refl, refl, refl, refl)

  time_out-IsTimeoutOf :
      (st : St) (run : ParkRecord)
      → d.has_notifier ≡ true
      → (n : Notice) × ((time_out s w spec d st run.pr_key run).notices ≡ st.notices ++ n ∷ [])
        × IsTimeoutOf run n
  unfolding time_out
  time_out-IsTimeoutOf st run h =
      let (repo, pr) = split_pr_key run.pr_key in
      let input = input_with st timeout run repo pr [] in
      let (outcome, workflow, full_repo, number, attempts) =
        with_params-kept (input_of timeout run repo pr []) st (w.unmarshal run.params) in
      (
        record { title = spec.review_title; body = summary input },
        notices-finish st timeout spec.review_title run repo pr [] h,
        (refl, (input, refl, outcome, workflow, full_repo, number, attempts)),
      )

  time_out_all-AreTimeouts :
      (runs : List ParkRecord) (st : St)
      → d.has_notifier ≡ true
      → (ns : List Notice) × ((time_out_all s w spec d runs st).notices ≡ st.notices ++ ns)
        × AreTimeouts runs ns
  unfolding time_out_all stop_timer
  time_out_all-AreTimeouts [] st h = ([], sym (append_nil st.notices), tt)
  time_out_all-AreTimeouts (run ∷ runs) st h =
      let stopped = stop_timer s w spec d st run.pr_key in
      let (n, first, about) = time_out-IsTimeoutOf stopped run h in
      let (ns, rest, others) =
        time_out_all-AreTimeouts runs (time_out s w spec d stopped run.pr_key run) h in
      (
        n ∷ ns,
        rest ∙ ap (λ l. l ++ ns) first ∙ append_assoc st.notices (n ∷ []) ns,
        (about, others),
      )

  -- With a notifier, a timeout sweep reports the records that the store has claimed, each once and in
  -- their order, also where the store returns an error with them: a notice has the title for a review,
  -- and says that the run of this workflow timed out, after how many attempts, and on which pull
  -- request. An orphan sweep sends no notice.
  pub sweeps_notices :
      (st : St)
      → d.has_notifier ≡ true
      → ((ns : List Notice) × ((sweep_timeouts s w spec d st).1.notices ≡ st.notices ++ ns)
          × AreTimeouts (s.sweep st.store spec.name (w.now st - d.ci_timeout)).0.0 ns)
        × ((sweep_orphans s w spec d st).1.notices ≡ st.notices)
  unfolding sweep_timeouts sweep_orphans with_store
  sweeps_notices st h = (
    time_out_all-AreTimeouts (s.sweep st.store spec.name (w.now st - d.ci_timeout)).0.0 _ h,
    notices-clear_all (s.sweep_orphans st.store spec.name (w.now st - d.orphan_ttl)).0 st,
  )

-- A CI result leaves the driver as it was, or it names a pull request and concludes in success or failure.
pub resume-acts :
    (s : ParkStore) (w : World s.State) (spec : Spec) (d : Deps) (st : State s w spec d)
    (input : ResumeInput)
    → ((resume s w spec d st input).1 ≡ st)
      ⊎ ((input.pr_number ≢ 0)
          × ((is_success input.conclusion ≡ true) ⊎ (is_failure input.conclusion ≡ true)))
unfolding resume
resume-acts s w spec d st input = elim (Bool-cases (input.pr_number == 0)) [
  | inl no_pr ↦ inl (rw no_pr refl)
  | inr pr ↦
      elim (Bool-cases (not (is_success input.conclusion) && not (is_failure input.conclusion))) [
        | inl other ↦ inl (rw (pr, other) refl)
        | inr acts ↦ inr (ground (arith, pr), ground (arith, acts))
      ]
]
