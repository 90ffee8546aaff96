-- ===== src/Reviewer/Intake/Guarded.antt =====
-- go/internal/agent/reviewer/reviewer.go: when anything is written on a pull request.
use automation_agent.Common.{
  is_empty-nil, eq_text, eq_text_iff, none-some, some-injective, is_empty, false-true, sym, ◌∙◌, ℕ,
  ◌≡◌, ◌⊎◌, inl, inr, refl, sym, subst, Bool, true, false, not, Option, none, some, List, [], ◌∷◌,
  if◌then◌else◌, Text, is_empty, Bool-cases,
}
use automation_agent.Reviewer.Findings.{Finding}
use automation_agent.Reviewer.Scorecard.{Scorecard}
use automation_agent.Reviewer.Hunks.{PrFile}
use automation_agent.Reviewer.Hub.{
  PullRequestEvent, asks_files, asks_head, discovers, reviews, History, ReviewRun, overtaken,
  broken, reviewed, ReviewWorld, IsRead, Extends, Extends-refl, Extends-cons,
}
use automation_agent.Reviewer.Publish.{publish, publish_deny}
use automation_agent.Reviewer.Intake.{
  ReviewEngine, Decision, skipped, denied, reviewable, undecided, split_full_name, passes_rules,
  of_repo, decide, superseded, unless_stale, after_review, run_review, pr_of, meta_of,
  after_decision, after_parse, review_kickoff, differs, differs,
}

-- The event names no commit, or the answer on the current head does not name another one.
abbrev pub IsCurrent : Option Text → Text → Type 0
IsCurrent answer sha =
    (sha ≡ []) ⊎ ((current : Text) → answer ≡ some current → (current ≡ []) ⊎ (current ≡ sha))

differs-false :
    (answer : Option Text) (sha : Text)
    → differs sha answer ≡ false
    → (current : Text) → answer ≡ some current
    → (current ≡ []) ⊎ (current ≡ sha)
differs-false none sha h current e = absurd (none-some e)
differs-false (some t) sha h current e =
    let same = some-injective e in
    elim (Bool-cases (is_empty t)) [
      | inl blank ↦ inl (sym same ∙ is_empty-nil t blank)
      | inr full ↦ elim (Bool-cases (eq_text t sha)) [
        | inl equal ↦ inr (sym same ∙ (eq_text_iff t sha).0 equal)
        | inr other ↦ absurd (false-true (sym (rw (full, other) at h)))
      ]
    ]

module _ (w : ReviewWorld) (e : ReviewEngine) where
  module _ (ev : PullRequestEvent) where
    -- A denial or a review of the event is published, right behind the question for the head of the
    -- pull request, of which the answer was no other commit; in front of it, nothing was written.
    abbrev pub Writes : History → Bool × History → Type 0
    Writes h out =
        (files : List PrFile) × (k : History) × Extends IsRead k h
        × IsCurrent (w.pull_request_head_sha k (pr_of w e ev)) ev.head_sha
        × (let now = (superseded w e (pr_of w e ev) ev.head_sha k).1 in
            ((n : ℕ) × (out ≡ publish_deny w (meta_of w e ev files) n now))
            ⊎ ((card : Scorecard) × (findings : List Finding) × (out
                  ≡ publish w (meta_of w e ev files) card findings now)))

    abbrev Goes : History → Bool × History → Type 0
    Goes h out = Extends IsRead out.1 h ⊎ Writes h out

    superseded-Extends :
        (k h : History)
        → Extends IsRead k h
        → Extends IsRead (superseded w e (pr_of w e ev) ev.head_sha k).1 h
    unfolding superseded
    superseded-Extends k h ext = elim (Bool-cases (is_empty ev.head_sha)) [
      | inl blank ↦ rw blank ext
      | inr sha ↦ rw sha (Extends-cons IsRead (asks_head (pr_of w e ev)) k h tt ext)
    ]

    superseded-IsCurrent :
        (k : History)
        → (superseded w e (pr_of w e ev) ev.head_sha k).0 ≡ false
        → IsCurrent (w.pull_request_head_sha k (pr_of w e ev)) ev.head_sha
    unfolding superseded
    superseded-IsCurrent k h = elim (Bool-cases (is_empty ev.head_sha)) [
      | inl blank ↦ inl (is_empty-nil ev.head_sha blank)
      | inr sha ↦
          inr (differs-false (w.pull_request_head_sha k (pr_of w e ev)) ev.head_sha (rw sha at h))
    ]

    unless_stale_cases :
        (p : Bool × History) (act : History → Bool × History)
        → (unless_stale w e p act ≡ (true, p.1))
          ⊎ ((p.0 ≡ false) × (unless_stale w e p act ≡ act p.1))
    unfolding unless_stale
    unless_stale_cases (true, k) act = inl refl
    unless_stale_cases (false, k) act = inr (refl, refl)

    -- Behind a check for a newer push, one that finds it has written nothing.
    unless_stale-Goes :
        (k h : History) (act : History → Bool × History)
        → Extends IsRead k h
        → let (stale, now) = superseded w e (pr_of w e ev) ev.head_sha k in
          (stale ≡ false → Goes h (act now))
          → Goes h (unless_stale w e (superseded w e (pr_of w e ev) ev.head_sha k) act)
    unless_stale-Goes k h act ext goes =
        elim (unless_stale_cases (superseded w e (pr_of w e ev) ev.head_sha k) act) [
          | inl same ↦ subst (Goes h) (sym same) (inl (superseded-Extends k h ext))
          | inr (fresh, same) ↦ subst (Goes h) (sym same) (goes fresh)
        ]

    after_review-Goes :
        (files : List PrFile) (run : ReviewRun) (k h : History)
        → Extends IsRead k h
        → Goes h (after_review w e (meta_of w e ev files) run k)
    unfolding after_review
    after_review-Goes files overtaken k h ext = inl ext
    after_review-Goes files broken k h ext = inl ext
    after_review-Goes files (reviewed card findings) k h ext =
        unless_stale-Goes k h (publish w (meta_of w e ev files) card findings) ext
          (λ fresh. inr (files, k, ext, superseded-IsCurrent k fresh, inr (card, findings, refl)))

    run_review-Goes :
        (files : List PrFile) (k h : History)
        → Extends IsRead k h
        → Goes h (run_review w e (meta_of w e ev files) k)
    unfolding run_review
    run_review-Goes files k h ext =
        let found = Extends-cons IsRead (discovers (pr_of w e ev)) k h tt ext in
        let now = (superseded w e (pr_of w e ev) ev.head_sha (discovers (pr_of w e ev) ∷ k)).1 in
        unless_stale-Goes (discovers (pr_of w e ev) ∷ k) h _ found λ fresh.
          after_review-Goes files (w.review now (pr_of w e ev) files) (reviews (pr_of w e ev) ∷ now)
            h
            (Extends-cons IsRead (reviews (pr_of w e ev)) now h tt
              (superseded-Extends (discovers (pr_of w e ev) ∷ k) h found))

    after_decision-Goes :
        (d : Decision) (k h : History) → Extends IsRead k h → Goes h (after_decision w e ev (d, k))
    unfolding after_decision
    after_decision-Goes undecided k h ext = inl ext
    after_decision-Goes skipped k h ext = inl ext
    after_decision-Goes (denied files n) k h ext =
        unless_stale-Goes k h (publish_deny w (meta_of w e ev files) n) ext
          (λ fresh. inr (files, k, ext, superseded-IsCurrent k fresh, inl (n, refl)))
    after_decision-Goes (reviewable files n) k h ext = unless_stale-Goes k h _ ext λ fresh.
        elim (Bool-cases e.has_models) [
          | inl models ↦ rw models (
              run_review-Goes files (superseded w e (pr_of w e ev) ev.head_sha k).1 h
                (superseded-Extends k h ext))
          | inr without ↦ rw without (inl (superseded-Extends k h ext))
        ]

    of_repo-Extends :
        (h : History) (parts : Option (Text × Text))
        → Extends IsRead (of_repo w e h ev.number parts).1 h
    unfolding of_repo
    of_repo-Extends h none = Extends-refl IsRead h
    of_repo-Extends h (some parts) = (
      asks_files (record { owner = parts.0; repo = parts.1; number = ev.number }) ∷ [],
      refl,
      (tt, tt),
    )

  -- Nothing is written on a pull request, or the reviewer is enabled, the event passes the rules, and
  -- what is published stands right behind a question for the current head that names no other commit.
  abbrev pub IsGuarded : Text → History → Bool × History → Type 0
  IsGuarded raw h out =
      Extends IsRead out.1 h
      ⊎ ((e.enabled ≡ true)
          × ((ev : PullRequestEvent) × (w.parse_pull_request_event raw ≡ some ev)
              × (passes_rules w e ev ≡ true)
              × Writes ev h out))

  after_parse-IsGuarded :
      (raw : Text) (h : History) (answer : Option PullRequestEvent)
      → e.enabled ≡ true
      → w.parse_pull_request_event raw ≡ answer
      → IsGuarded raw h (after_parse w e answer h)
  unfolding after_parse decide
  after_parse-IsGuarded raw h none on parsed = inl (Extends-refl IsRead h)
  after_parse-IsGuarded raw h (some ev) on parsed = elim (Bool-cases (passes_rules w e ev)) [
    | inr out ↦ rw out (inl (Extends-refl IsRead h))
    | inl passes ↦
        let parts = split_full_name ev.repo_full_name in
        elim (after_decision-Goes ev (of_repo w e h ev.number parts).0
          (of_repo w e h ev.number parts).1 h (of_repo-Extends ev h parts)) [
            | inl quiet ↦ rw passes (inl quiet)
            | inr writes ↦ rw passes (inr (on, (ev, parsed, passes, writes)))
          ]
  ]

  switched-IsGuarded :
      (raw : Text) (h : History) (on there : Bool)
      → e.enabled ≡ on
      → IsGuarded raw h (
          if not on
          then (true, h)
          else if not there
          then (false, h)
          else after_parse w e (w.parse_pull_request_event raw) h)
  switched-IsGuarded raw h false there is = inl (Extends-refl IsRead h)
  switched-IsGuarded raw h true false is = inl (Extends-refl IsRead h)
  switched-IsGuarded raw h true true is =
      after_parse-IsGuarded raw h (w.parse_pull_request_event raw) is refl

  -- Whatever the event and the answers are, a kickoff writes nothing on the pull request, or the
  -- reviewer is enabled, the event passes the rules, and what it publishes stands right behind a
  -- question for the current head that names no other commit.
  pub review_kickoff-IsGuarded :
      (raw : Text) (h : History) → IsGuarded raw h (review_kickoff w e raw h)
  unfolding review_kickoff
  review_kickoff-IsGuarded raw h = switched-IsGuarded raw h e.enabled e.has_client refl
