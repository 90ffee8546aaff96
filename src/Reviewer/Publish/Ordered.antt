-- ===== src/Reviewer/Publish/Ordered.antt =====
-- go/internal/agent/reviewer/publish.go: the order of the calls, and what a redelivered task does.
use automation_agent.Common.{
  ℕ, ◌≡◌, ◌⊎◌, inl, inr, refl, Bool, true, false, Option, none, some, List, [], ◌∷◌, Text, codes,
  Bool-cases, length,
}
use automation_agent.Reviewer.Findings.{Finding}
use automation_agent.Reviewer.Scorecard.{Scorecard}
use automation_agent.Reviewer.Reconcile.{ReviewCommentRef, reconcile}
use automation_agent.Reviewer.Hunks.{new_diff_index}
use automation_agent.Reviewer.Hub.{
  Summary, too_large, asks_check, asks_comments, posts_review, minimizes, upserts, creates_check,
  History, ReviewWorld, IsNoCheck, Extends, Extends-cons,
}
use automation_agent.Reviewer.Publish.{
  PublishMeta, Classes, classify, check_conclusion, already_published, minimize_all, post, conclude,
  after_post, with_comments, publish, publish_deny,
}

module _ (w : ReviewWorld) (meta : PublishMeta) where
  -- The last call asks for the check run, right behind a summary that was accepted, and no other
  -- call did; its outcome is the outcome of all.
  abbrev pub IsConcluded : History → Bool × History → Type 0
  IsConcluded h out =
      (k : History) × (s : Summary) × (c : Text) × Extends IsNoCheck k h
      × (out.1 ≡ creates_check meta.pr meta.head_sha c ∷ upserts meta.pr s ∷ k)
      × (w.upsert_marker_comment k meta.pr s ≡ true)
      × (w.create_check_run (upserts meta.pr s ∷ k) meta.pr meta.head_sha c ≡ out.0)

  -- The check run is found and nothing else is called, or the calls fail in front of a check run, or
  -- they end in one.
  abbrev pub IsOrdered : History → Bool × History → Type 0
  IsOrdered h out =
      ((already_published w meta h ≡ true) × (out ≡ (true, asks_check meta.pr meta.head_sha ∷ h)))
      ⊎ ((already_published w meta h ≡ false)
          × (((out.0 ≡ false) × Extends IsNoCheck out.1 h) ⊎ IsConcluded h out))

  abbrev IsEnded : History → Bool × History → Type 0
  IsEnded h out = ((out.0 ≡ false) × Extends IsNoCheck out.1 h) ⊎ IsConcluded h out

  conclude-IsEnded :
      (h k : History) (s : Summary) (c : Text)
      → Extends IsNoCheck k h
      → IsEnded h (conclude w meta s c k)
  unfolding conclude
  conclude-IsEnded h k s c ext = elim (Bool-cases (w.upsert_marker_comment k meta.pr s)) [
    | inl fine ↦ rw fine (inr (k, s, c, ext, refl, fine, refl))
    | inr bad ↦ rw bad (inl (refl, Extends-cons IsNoCheck (upserts meta.pr s) k h tt ext))
  ]

  minimize_all_lem :
      (ids : List Text) (k h : History)
      → Extends IsNoCheck k h
      → Extends IsNoCheck (minimize_all w meta ids k) h
  unfolding minimize_all
  minimize_all_lem [] k h ext = ext
  minimize_all_lem (id ∷ ids) k h ext =
      minimize_all_lem ids (minimizes id ∷ k) h (Extends-cons IsNoCheck (minimizes id) k h tt ext)

  after_post-IsEnded :
      (h : History) (s : Summary) (c : Text) (ids : List Text) (out : Bool × History)
      → Extends IsNoCheck out.1 h
      → IsEnded h (after_post w meta s c ids out)
  unfolding after_post
  after_post-IsEnded h s c ids (false, k) ext = inl (refl, ext)
  after_post-IsEnded h s c ids (true, k) ext =
      conclude-IsEnded h (minimize_all w meta ids k) s c (minimize_all_lem ids k h ext)

  post_lem :
      (fs : List Finding) (k h : History)
      → Extends IsNoCheck k h
      → Extends IsNoCheck (post w meta fs k).1 h
  unfolding post
  post_lem [] k h ext = ext
  post_lem (f ∷ fs) k h ext =
      Extends-cons IsNoCheck (posts_review meta.pr meta.head_sha (f ∷ fs)) k h tt ext

  with_comments-IsEnded :
      (card : Scorecard) (cs : Classes) (answer : Option (List ReviewCommentRef)) (k h : History)
      → Extends IsNoCheck k h
      → IsEnded h (with_comments w meta card cs answer k)
  unfolding with_comments
  with_comments-IsEnded card cs none k h ext = inl (refl, ext)
  with_comments-IsEnded card cs (some existing) k h ext =
      let rec = reconcile cs.inline existing in
      after_post-IsEnded h _ (check_conclusion card.overall) rec.to_minimize
        (post w meta rec.to_post k) (post_lem rec.to_post k h ext)

  asked : (h : History) → Extends IsNoCheck (asks_check meta.pr meta.head_sha ∷ h) h
  asked h = (asks_check meta.pr meta.head_sha ∷ [], refl, (tt, tt))

  -- A review, and a denial, ask for the check run last, and only behind a summary that was accepted.
  pub publish-IsOrdered :
      (h : History)
      → ((card : Scorecard) (findings : List Finding)
          → IsOrdered h (publish w meta card findings h))
        × ((diff_bytes : ℕ) → IsOrdered h (publish_deny w meta diff_bytes h))
  unfolding publish publish_deny
  publish-IsOrdered h = elim (Bool-cases (already_published w meta h)) [
    | inl found ↦ rw found ((λ card findings. inl (refl, refl)), (λ n. inl (refl, refl)))
    | inr new ↦ rw new (
      (λ card findings. inr (
        refl,
        with_comments-IsEnded card (classify (new_diff_index meta.files []) findings)
            (w.list_review_comments (asks_check meta.pr meta.head_sha ∷ h) meta.pr)
            (asks_comments meta.pr ∷ asks_check meta.pr meta.head_sha ∷ h) h
            (Extends-cons IsNoCheck (asks_comments meta.pr) (asks_check meta.pr meta.head_sha ∷ h) h
              tt (asked h)),
      )),
      (λ n. inr (
        refl,
        conclude-IsEnded h (asks_check meta.pr meta.head_sha ∷ h) (too_large (length meta.files) n)
            (codes "neutral") (asked h),
      )),
    )
  ]
