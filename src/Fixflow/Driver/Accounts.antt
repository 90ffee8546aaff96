-- ===== src/Fixflow/Driver/Accounts.antt =====
-- go/internal/agent/fixflow/driver.go: how a run may end, and the steps that tell nobody.
use automation_agent.Common.{
  ℕ, ◌≡◌, ◌≢◌, ◌⊎◌, inl, inr, refl, subst, true, false, none, some, List, [], ◌∷◌, ◌++◌, Text,
  Bool-cases, Option-cases, In,
}
use automation_agent.ParkStore.{ParkRecord}
use automation_agent.ParkStore.Interface.{ParkStore}
use automation_agent.Fixflow.Keys.{pr_key}
use automation_agent.Fixflow.Driver.{
  World, Spec, Deps, RunParams, ResumeInput, Step, State, Notice, not_applied, summary,
  SummaryInput, failed, apply_failed, base_unresolved, params_failed, TerminalOutcome, success,
  exhausted, timeout, clean, put_record, put_params, park, park_record, write_feedback,
  update_for_retry, retried, parked_as, or_new, arm_timer, is_success, is_failure,
}

module _ (s : ParkStore) (w : World s.State) (spec : Spec) (d : Deps) where
  abbrev St : Type 0
  St = State s w spec d

  -- The title that goes with an outcome.
  abbrev pub title_of : TerminalOutcome → Text
  title_of success = spec.success_title
  title_of exhausted = spec.review_title
  title_of timeout = spec.review_title
  title_of clean = spec.clean_title

  -- The last notice asks for a review of the repository and gives the reason that is returned.
  abbrev pub IsAlarmed : Text → List Notice → Step s w spec d → Type 0
  IsAlarmed repo earlier out =
      (reason : Text) × (out.0 ≡ failed (apply_failed reason))
      × (out.1.notices
          ≡ earlier ++ record { title = spec.review_title; body = not_applied repo reason } ∷ [])

  -- The last notice is a summary for the repository, under the title of its outcome.
  abbrev pub IsSummarised : Text → List Notice → Step s w spec d → Type 0
  IsSummarised repo earlier out =
      (input : SummaryInput) × (input.full_repo ≡ repo)
      × (out.1.notices
          ≡ earlier ++ record { title = title_of input.outcome; body = summary input } ∷ [])

  -- Nobody is told, no session is deleted, and a timer runs for a pull request of the repository.
  abbrev pub IsWaiting : Text → List Notice → List Text → Step s w spec d → Type 0
  IsWaiting repo earlier gone out =
      (pr : ℕ) × (pr ≢ 0)
      × (out.1.notices ≡ earlier)
      × (out.1.deleted ≡ gone)
      × In (pr_key repo pr) out.1.timers

  abbrev pub IsAccounted : Text → List Notice → List Text → Step s w spec d → Type 0
  IsAccounted repo earlier gone out =
      IsAlarmed repo earlier out ⊎ IsSummarised repo earlier out ⊎ IsWaiting repo earlier gone out

  -- The notices and the deleted sessions are the same.
  abbrev pub IsQuiet : St → St → Type 0
  IsQuiet st st' = (st'.notices ≡ st.notices) × (st'.deleted ≡ st.deleted)

  pub IsQuiet-account :
      (repo : Text) (st st' : St) (out : Step s w spec d)
      → IsQuiet st st'
      → IsAccounted repo st'.notices st'.deleted out
      → IsAccounted repo st.notices st.deleted out
  IsQuiet-account repo st st' out (same, kept) a =
      subst (λ gone. IsAccounted repo st.notices gone out) kept
        (subst (λ ns. IsAccounted repo ns st'.deleted out) same a)

  put_record-IsQuiet : (st : St) (r : ParkRecord) → IsQuiet st (put_record s w spec d st r).1
  unfolding put_record
  put_record-IsQuiet st r = (refl, refl)

  pub put_params-IsQuiet :
      (st : St) (sid : Text) (rp : RunParams) → IsQuiet st (put_params s w spec d st sid rp).1
  unfolding put_params put_record
  put_params-IsQuiet st sid rp = elim (Option-cases (w.marshal rp)) [
    | inl e ↦ rw (e, put_params) (refl, refl)
    | inr (blob, e) ↦ rw (e, put_params) (refl, refl)
  ]

  write_feedback-IsQuiet :
      (st : St) (r : ParkRecord) (rp : RunParams) (feedback : Text)
      → IsQuiet st (write_feedback s w spec d st r rp feedback).1
  unfolding write_feedback put_record
  write_feedback-IsQuiet st r rp feedback =
      elim (Option-cases (w.marshal (retried s w spec d rp feedback))) [
        | inl e ↦ rw (e, write_feedback) (refl, refl)
        | inr (blob, e) ↦ rw (e, write_feedback) (refl, refl)
      ]

  pub update_for_retry-IsQuiet :
      (st : St) (sid feedback : Text) → IsQuiet st (update_for_retry s w spec d st sid feedback).1
  unfolding update_for_retry
  update_for_retry-IsQuiet st sid feedback = elim (Option-cases (s.get st.store sid)) [
    | inl e ↦ rw (e, update_for_retry) (refl, refl)
    | inr (none, e) ↦ rw (e, update_for_retry) (refl, refl)
    | inr (some r, e) ↦ elim (Option-cases (w.unmarshal r.params)) [
      | inl f ↦ rw (e, update_for_retry) (rw (f, update_for_retry) (refl, refl))
      | inr (rp, f) ↦
          rw (e, update_for_retry)
            (rw (f, update_for_retry) (write_feedback-IsQuiet st r rp feedback))
    ]
  ]

  -- A run that was parked waits, and one that could not be parked has told nobody.
  park_record-waits :
      (st : St) (key : Text) (r : ParkRecord)
      → let out = park_record s w spec d st key r in
        IsQuiet st out.1 × (out.0 ≡ true → In key out.1.timers)
  unfolding park_record arm_timer
  park_record-waits st key r = elim (Bool-cases (put_record s w spec d st r).0) [
    | inl fine ↦ rw fine (put_record-IsQuiet st r, λ h. inl refl)
    | inr bad ↦ rw bad (put_record-IsQuiet st r, λ h. cc)
  ]

  pub park-waits :
      (st : St) (sid key call_id : Text) (attempt : ℕ)
      → let out = park s w spec d st sid key call_id attempt in
        IsQuiet st out.1 × (out.0 ≡ true → In key out.1.timers)
  unfolding park
  park-waits st sid key call_id attempt = elim (Option-cases (s.get st.store sid)) [
    | inl e ↦ rw (e, park) ((refl, refl), λ h. cc)
    | inr (found, e) ↦
        rw (e, park)
          (park_record-waits st key
            (parked_as s w spec d (or_new s w spec d sid found) key call_id attempt))
  ]

  -- No run was begun: the base could not be resolved, or the params could not be written.
  abbrev pub IsUnbegun : St → Step s w spec d → Type 0
  IsUnbegun st out =
      ((out.0 ≡ failed base_unresolved) ⊎ (out.0 ≡ failed params_failed)) × IsQuiet st out.1

  -- No run was claimed: the CI result names no pull request, is not conclusive, or finds no run.
  abbrev pub IsUnclaimed : St → ResumeInput → Step s w spec d → Type 0
  IsUnclaimed st input out =
      ((input.pr_number ≡ 0)
        ⊎ ((is_success input.conclusion ≡ false) × (is_failure input.conclusion ≡ false))
        ⊎ ((run : ParkRecord)
            → (s.resolve_by_pr_key st.store spec.name (pr_key input.full_repo input.pr_number)).0
              ≢ some (some run)))
      × IsQuiet st out.1
