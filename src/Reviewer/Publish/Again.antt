-- ===== src/Reviewer/Publish/Again.antt =====
-- go/internal/agent/reviewer/publish.go: a redelivered task, and the three classes of findings.
use automation_agent.Common.{
  ℕ, ◌≡◌, ◌⊎◌, inl, inr, refl, sym, ap, subst, ◌∙◌, Bool, true, not, ◌&&◌, Option, none, some, List,
  [], ◌∷◌, ◌++◌, Text, Bool-cases, false-true, Map, keep,
}
use automation_agent.Reviewer.Findings.{Finding}
use automation_agent.Reviewer.Scorecard.{Scorecard}
use automation_agent.Reviewer.Hub.{
  Pr, HubCall, asks_check, upserts, creates_check, History, ReviewWorld,
}
use automation_agent.Reviewer.Publish.{
  PublishMeta, classify, is_inline, is_nitpick, is_found, already_published, publish, publish_deny,
}
use automation_agent.Reviewer.Publish.Ordered.{IsOrdered, publish-IsOrdered}

-- What GitHub keeps: a lookup that does not fail finds a check run that was created, or found before,
-- whatever came in between. A lookup may fail at any time.
pub record CheckLaws (w : ReviewWorld) : Type 0 where
  pub created :
      (h : History) (pr : Pr) (sha c : Text) (later : List HubCall) (found : Bool)
      → w.create_check_run h pr sha c ≡ true
      → w.agent_check (later ++ creates_check pr sha c ∷ h) pr sha ≡ some found
      → found ≡ true
  pub kept :
      (h : History) (pr : Pr) (sha : Text) (later : List HubCall) (found : Bool)
      → w.agent_check h pr sha ≡ some true
      → w.agent_check (later ++ h) pr sha ≡ some found
      → found ≡ true

append_one : (later h : History) (c : HubCall) → (later ++ c ∷ []) ++ h ≡ later ++ c ∷ h
append_one [] h c = refl
append_one (x ∷ later) h c = ap (λ r. x ∷ r) (append_one later h c)

found_lem : (answer : Option Bool) → is_found answer ≡ true → answer ≡ some true
found_lem none h = cc
found_lem (some b) h = ap (λ x. some x) h

-- The calls ask for the check run alone.
abbrev pub IsSilent : PublishMeta → History → Bool × History → Type 0
IsSilent meta h out = out ≡ (true, asks_check meta.pr meta.head_sha ∷ h)

module _ (w : ReviewWorld) (laws : CheckLaws w) (meta : PublishMeta) where
  -- What publishes a commit: a review, or a denial.
  abbrev pub IsPublication : History → Bool × History → Type 0
  IsPublication h out =
      ((card : Scorecard) × (findings : List Finding) × (out ≡ publish w meta card findings h))
      ⊎ ((diff_bytes : ℕ) × (out ≡ publish_deny w meta diff_bytes h))

  IsPublication-IsOrdered :
      (h : History) (out : Bool × History) → IsPublication h out → IsOrdered w meta h out
  IsPublication-IsOrdered h out (inl (card, findings, e)) =
      subst (IsOrdered w meta h) (sym e) ((publish-IsOrdered w meta h).0 card findings)
  IsPublication-IsOrdered h out (inr (n, e)) =
      subst (IsOrdered w meta h) (sym e) ((publish-IsOrdered w meta h).1 n)

  abbrev Answers : History → Bool → Type 0
  Answers k found = w.agent_check k meta.pr meta.head_sha ≡ some found

  found_again :
      (h : History) (out : Bool × History) (later : List HubCall) (found : Bool)
      → IsOrdered w meta h out
      → out.0 ≡ true
      → Answers (later ++ out.1) found
      → found ≡ true
  unfolding already_published
  found_again h out later found (inl (before, e)) ok answered =
      let asked : HubCall = asks_check meta.pr meta.head_sha in
      laws.kept h meta.pr meta.head_sha (later ++ asked ∷ []) found (found_lem _ before) (
        subst (λ k. Answers k found) (ap (λ o. later ++ o.1) e ∙ sym (append_one later h asked))
          answered)
  found_again h out later found (inr (new, inl (bad, ext))) ok answered =
      absurd (false-true (sym bad ∙ ok))
  found_again h out later found (inr (new, inr (k, s, c, ext, e, fine, made))) ok answered =
      laws.created (upserts meta.pr s ∷ k) meta.pr meta.head_sha c later found (made ∙ ok)
        (subst (λ t. Answers (later ++ t) found) e answered)

  silent :
      (h : History)
      → already_published w meta h ≡ true
      → ((card : Scorecard) (findings : List Finding)
          → IsSilent meta h (publish w meta card findings h))
        × ((diff_bytes : ℕ) → IsSilent meta h (publish_deny w meta diff_bytes h))
  unfolding publish publish_deny
  silent h e = rw e ((λ card findings. refl), λ n. refl)

  -- Once a commit's review or denial has been published, a redelivered task posts nothing for that
  -- commit, whatever was called in between and whatever its lenses find, if its lookup of the check run
  -- does not fail.
  pub publish_again :
      (h : History) (out : Bool × History) (later : List HubCall) (found : Bool)
      → IsPublication h out
      → out.0 ≡ true
      → w.agent_check (later ++ out.1) meta.pr meta.head_sha ≡ some found
      → let k = later ++ out.1 in
        ((card : Scorecard) (findings : List Finding)
          → IsSilent meta k (publish w meta card findings k))
        × ((diff_bytes : ℕ) → IsSilent meta k (publish_deny w meta diff_bytes k))
  unfolding already_published
  publish_again h out later found published ok answered =
      let still =
        found_again h out later found (IsPublication-IsOrdered h out published) ok answered in
      silent (later ++ out.1) (ap is_found answered ∙ still)

module _ (index : Map Text (List ℕ)) where
  abbrev is_actionable : Finding → Bool
  is_actionable f = not (is_nitpick f.severity)

  -- Every finding is published in one of the three places: a nitpick in its list, an actionable one at
  -- its line if a comment can stand there, and in the list of the others if not. Each place keeps
  -- their order.
  pub classify-keep :
      (findings : List Finding)
      → ((classify index findings).nitpicks ≡ keep (λ f. is_nitpick f.severity) findings)
        × ((classify index findings).inline
            ≡ keep (λ f. is_actionable f && is_inline index f) findings)
        × ((classify index findings).out_of_diff
            ≡ keep (λ f. is_actionable f && not (is_inline index f)) findings)
  unfolding classify
  classify-keep [] = (refl, refl, refl)
  classify-keep (f ∷ fs) =
      let (a, b, c) = classify-keep fs in
      elim (Bool-cases (is_nitpick f.severity)) [
        | inl low ↦ rw (low, keep, a, b, c) (refl, refl, refl)
        | inr high ↦ elim (Bool-cases (is_inline index f)) [
          | inl here ↦ rw (high, here, keep, a, b, c) (refl, refl, refl)
          | inr away ↦ rw (high, away, keep, a, b, c) (refl, refl, refl)
        ]
      ]
