-- ===== src/Root.antt =====
-- go/internal/agent/root: which workflow an envelope goes to. A handler is its answer to an envelope.
mod Tests
use automation_agent.Common.{
  some-injective, none-some, ◌≡◌, refl, ap, subst, ◌∙◌, Bool, true, false, Option, none, some, [],
  ◌∷◌, if◌then◌else◌, Map, lookup, insert, lookup-insert, text_eq, eq_text, arith,
}
use automation_agent.Ingest.{
  Kind, Envelope, kind_cron_daily, kind_lint, kind_coverage, kind_ci, kind_review,
}

-- Whether the work succeeded.
abbrev pub Handler : Type 0
Handler = Envelope → Bool

abbrev pub Dispatcher : Type 0
Dispatcher = Map Kind Handler

pub register : Kind → Handler → Dispatcher → Dispatcher
register kind h d = insert kind h d

run_handler : Option Handler → Envelope → Bool
run_handler none e = true
run_handler (some h) e = h e

-- An envelope whose kind has no handler is ignored.
pub dispatch : Dispatcher → Envelope → Bool
unfolding run_handler
dispatch d e = run_handler (lookup e.kind d) e

pub record Deps : Type 0 where
  pub summary_daily : Option Handler
  pub summary_builds : Bool
  pub lint_kickoff : Option Handler
  pub coverage_kickoff : Option Handler
  pub ci_resume : Option Handler
  pub review_kickoff : Option Handler

pub register_some : Kind → Option Handler → Dispatcher → Dispatcher
unfolding register
register_some kind none d = d
register_some kind (some h) d = register kind h d

register_fixes : Deps → Dispatcher → Dispatcher
unfolding register_some
register_fixes deps d = register_some kind_review deps.review_kickoff (
    register_some kind_ci deps.ci_resume (
      register_some kind_coverage deps.coverage_kickoff
        (register_some kind_lint deps.lint_kickoff d)))

-- `none` where the runner of the summary cannot be built.
register_summary : Bool → Option Handler → Option Dispatcher
unfolding register
register_summary builds none = some []
register_summary true (some h) = some (register kind_cron_daily h [])
register_summary false (some h) = none

built : Deps → Option Dispatcher → Option Dispatcher
unfolding register_fixes
built deps none = none
built deps (some d) = some (register_fixes deps d)

pub build_root_dispatcher : Deps → Option Dispatcher
unfolding built register_summary
build_root_dispatcher deps = built deps (register_summary deps.summary_builds deps.summary_daily)

abbrev or_old : Option Handler → Option Handler → Option Handler
or_old none old = old
or_old (some h) old = some h

or_old-none : (o : Option Handler) → or_old o none ≡ o
or_old-none none = refl
or_old-none (some h) = refl

lookup-register_some :
    (kind k : Kind) (o : Option Handler) (d : Dispatcher)
    → lookup k (register_some kind o d)
      ≡ (if eq_text kind k then or_old o (lookup k d) else lookup k d)
unfolding register_some register
lookup-register_some kind k none d = ground arith
lookup-register_some kind k (some g) d = lookup-insert kind k g d

lookup-register_fixes :
    (deps : Deps) (k : Kind) (d : Dispatcher)
    → lookup k (register_fixes deps d) ≡ (
        let a = if eq_text kind_lint k then or_old deps.lint_kickoff (lookup k d) else lookup k d in
        let b = if eq_text kind_coverage k then or_old deps.coverage_kickoff a else a in
        let c = if eq_text kind_ci k then or_old deps.ci_resume b else b in
        if eq_text kind_review k then or_old deps.review_kickoff c else c)
unfolding register_fixes
lookup-register_fixes deps k d =
    let d1 = register_some kind_lint deps.lint_kickoff d in
    let d2 = register_some kind_coverage deps.coverage_kickoff d1 in
    let d3 = register_some kind_ci deps.ci_resume d2 in
    rw
      (
        lookup-register_some kind_review k deps.review_kickoff d3,
        lookup-register_some kind_ci k deps.ci_resume d2,
        lookup-register_some kind_coverage k deps.coverage_kickoff d1,
        lookup-register_some kind_lint k deps.lint_kickoff d,
      )
      refl

abbrev pub IsRouted : Deps → Option Handler → Dispatcher → Type 0
IsRouted deps summary d =
    (lookup kind_cron_daily d ≡ summary)
    × (lookup kind_lint d ≡ deps.lint_kickoff)
    × (lookup kind_coverage d ≡ deps.coverage_kickoff)
    × (lookup kind_ci d ≡ deps.ci_resume)
    × (lookup kind_review d ≡ deps.review_kickoff)

only_new : (o old : Option Handler) → old ≡ none → or_old o old ≡ o
only_new o old e = ap (or_old o) e ∙ or_old-none o

register_fixes-IsRouted :
    (deps : Deps) (d : Dispatcher)
    → ((k : Kind) → eq_text kind_cron_daily k ≡ false → lookup k d ≡ none)
    → IsRouted deps (lookup kind_cron_daily d) (register_fixes deps d)
unfolding eq_text
register_fixes-IsRouted deps d h = (
  lookup-register_fixes deps kind_cron_daily d,
  lookup-register_fixes deps kind_lint d
      ∙ only_new deps.lint_kickoff (lookup kind_lint d) (h kind_lint refl),
  lookup-register_fixes deps kind_coverage d
      ∙ only_new deps.coverage_kickoff (lookup kind_coverage d) (h kind_coverage refl),
  lookup-register_fixes deps kind_ci d
      ∙ only_new deps.ci_resume (lookup kind_ci d) (h kind_ci refl),
  lookup-register_fixes deps kind_review d
      ∙ only_new deps.review_kickoff (lookup kind_review d) (h kind_review refl),
)

built-IsRouted :
    (deps : Deps) (d : Dispatcher) (builds : Bool) (summary : Option Handler)
    → built deps (register_summary builds summary) ≡ some d
    → IsRouted deps summary d
unfolding built register_summary register lookup insert eq_text
built-IsRouted deps d builds none h =
    subst (IsRouted deps none) (some-injective h) (register_fixes-IsRouted deps [] (λ k e. refl))
built-IsRouted deps d true (some g) h =
    subst (IsRouted deps (some g)) (some-injective h)
      (register_fixes-IsRouted deps ((kind_cron_daily, g) ∷ []) (λ k e. rw e refl))
built-IsRouted deps d false (some g) h = absurd (none-some h)

build_root_dispatcher-IsRouted :
    (deps : Deps) (d : Dispatcher)
    → build_root_dispatcher deps ≡ some d
    → IsRouted deps deps.summary_daily d
unfolding build_root_dispatcher
build_root_dispatcher-IsRouted deps d h =
    built-IsRouted deps d deps.summary_builds deps.summary_daily h

-- An envelope of the kind is answered by the handler, and ignored without an error if there is none.
abbrev pub IsSent : Dispatcher → Kind → Option Handler → Type 0
IsSent d kind given =
    (e : Envelope)
    → e.kind ≡ kind
    → ((h : Handler) → given ≡ some h → dispatch d e ≡ h e) × (given ≡ none → dispatch d e ≡ true)

lookup-IsSent :
    (d : Dispatcher) (kind : Kind) (given : Option Handler)
    → lookup kind d ≡ given
    → IsSent d kind given
unfolding dispatch run_handler
lookup-IsSent d kind given found e same =
    let at_kind = ap (λ k. lookup k d) same ∙ found in
    (
      (λ h here. ap (λ o. run_handler o e) (at_kind ∙ here)),
      λ missing. ap (λ o. run_handler o e) (at_kind ∙ missing),
    )

-- Whatever handlers there are, the dispatcher, if it can be built, answers an envelope of each of the
-- five kinds as the handler that was given for the kind, and ignores it if none was given.
pub build_root_dispatcher-IsSent :
    (deps : Deps) (d : Dispatcher)
    → build_root_dispatcher deps ≡ some d
    → IsSent d kind_cron_daily deps.summary_daily
      × IsSent d kind_lint deps.lint_kickoff
      × IsSent d kind_coverage deps.coverage_kickoff
      × IsSent d kind_ci deps.ci_resume
      × IsSent d kind_review deps.review_kickoff
build_root_dispatcher-IsSent deps d h =
    let (daily, lint, coverage, ci, review) = build_root_dispatcher-IsRouted deps d h in
    (
      lookup-IsSent d kind_cron_daily deps.summary_daily daily,
      lookup-IsSent d kind_lint deps.lint_kickoff lint,
      lookup-IsSent d kind_coverage deps.coverage_kickoff coverage,
      lookup-IsSent d kind_ci deps.ci_resume ci,
      lookup-IsSent d kind_review deps.review_kickoff review,
    )
