-- ===== src/Reviewer/Hub.antt =====
-- go/internal/agent/reviewer/reviewer.go: what the reviewer asks of GitHub and of its lenses. A
-- history is the list of these calls, the newest first, and every answer may depend on the history,
-- so that it may change from one call to the next.
use automation_agent.Common.{
  ℕ, ◌≡◌, refl, ap, ◌∙◌, Bool, Option, List, [], ◌∷◌, ◌++◌, Text, All, All-append,
}
use automation_agent.Reviewer.Findings.{Finding}
use automation_agent.Reviewer.Scorecard.{Scorecard}
use automation_agent.Reviewer.Hunks.{PrFile}
use automation_agent.Reviewer.Reconcile.{ReviewCommentRef}

pub record Pr : Type 0 where
  pub owner : Text
  pub repo : Text
  pub number : ℕ

pub record PullRequestEvent : Type 0 where
  pub action : Text
  pub number : ℕ
  pub repo_full_name : Text
  pub head_ref : Text
  pub head_sha : Text
  pub draft : Bool
  pub labels : List Text
  pub author_login : Text

-- What the summary comment is made of.
pub data Summary : Type 0 where
  scored : Scorecard → (actionable : ℕ) → (nitpicks out_of_diff : List Finding) → Summary
  too_large : (files diff_bytes : ℕ) → Summary

pub data HubCall : Type 0 where
  asks_files asks_head asks_comments discovers reviews : Pr → HubCall
  asks_check : Pr → Text → HubCall
  posts_review : Pr → Text → List Finding → HubCall
  minimizes : Text → HubCall
  upserts : Pr → Summary → HubCall
  creates_check : Pr → Text → Text → HubCall

abbrev pub History : Type 0
History = List HubCall

pub data ReviewRun : Type 0 where
  overtaken broken : ReviewRun
  reviewed : Scorecard → List Finding → ReviewRun

pub record ReviewWorld : Type 0 where
  pub parse_pull_request_event : Text → Option PullRequestEvent
  pub list_pr_files : History → Pr → Option (List PrFile)
  pub pull_request_head_sha : History → Pr → Option Text
  pub agent_check : History → Pr → Text → Option Bool
  pub list_review_comments : History → Pr → Option (List ReviewCommentRef)
  pub create_review : History → Pr → Text → List Finding → Bool
  pub minimize_comment : History → Text → Bool
  pub upsert_marker_comment : History → Pr → Summary → Bool
  pub create_check_run : History → Pr → Text → Text → Bool
  pub review : History → Pr → List PrFile → ReviewRun

-- The calls that change nothing on the pull request.
abbrev pub IsRead : HubCall → Type 0
IsRead (posts_review pr sha fs) = ⊥
IsRead (minimizes id) = ⊥
IsRead (upserts pr s) = ⊥
IsRead (creates_check pr sha c) = ⊥
IsRead c = Unit {0}

abbrev pub IsNoCheck : HubCall → Type 0
IsNoCheck (creates_check pr sha c) = ⊥
IsNoCheck c = Unit {0}

-- The first history is the second with calls of a kind behind it.
abbrev pub Extends : (HubCall → Type 0) → History → History → Type 0
Extends P k h = (calls : List HubCall) × (k ≡ calls ++ h) × All P calls

module _ (P : HubCall → Type 0) where
  pub Extends-refl : (h : History) → Extends P h h
  Extends-refl h = ([], refl, tt)

  pub Extends-cons : (c : HubCall) (k h : History) → P c → Extends P k h → Extends P (c ∷ k) h
  Extends-cons c k h p (calls, e, all) = (c ∷ calls, ap (λ t. c ∷ t) e, (p, all))

  append_assoc : (a b h : History) → a ++ (b ++ h) ≡ (a ++ b) ++ h
  append_assoc [] b h = refl
  append_assoc (c ∷ a) b h = ap (λ t. c ∷ t) (append_assoc a b h)

  pub Extends-trans : (l k h : History) → Extends P l k → Extends P k h → Extends P l h
  Extends-trans l k h (a, e, p) (b, f, q) =
      (a ++ b, e ∙ ap (λ t. a ++ t) f ∙ append_assoc a b h, All-append P a b p q)
