-- ===== src/Reviewer/Publish.antt =====
-- go/internal/agent/reviewer/publish.go: the review is posted, in the order of the code. A step
-- returns whether it succeeded and the history behind it.
pub mod Ordered
pub mod Again
use automation_agent.Common.{
  ℕ, ℤ, pos, negsuc, ◌+◌, Bool, true, false, not, ◌&&◌, Option, none, some, List, [], ◌∷◌, ltb,
  if◌then◌else◌, Text, codes, is_empty, length, Map,
}
use automation_agent.Reviewer.Findings.{Finding, Severity, nitpick}
use automation_agent.Reviewer.Scorecard.{Level, green, yellow, red, Scorecard}
use automation_agent.Reviewer.Hunks.{PrFile, new_diff_index, in_diff}
use automation_agent.Reviewer.Reconcile.{ReviewCommentRef, reconcile}
use automation_agent.Reviewer.Hub.{
  Pr, Summary, scored, too_large, asks_check, asks_comments, posts_review, minimizes, upserts,
  creates_check, History, ReviewWorld,
}

pub record PublishMeta : Type 0 where
  pub pr : Pr
  pub head_sha : Text
  pub files : List PrFile

pub record Classes : Type 0 where
  pub inline : List Finding
  pub out_of_diff : List Finding
  pub nitpicks : List Finding

abbrev pub is_nitpick : Severity → Bool
is_nitpick nitpick = true
is_nitpick s = false

line_in_diff : Map Text (List ℕ) → Text → ℤ → Bool
line_in_diff index file (pos n) = ltb 0 n && in_diff index file n
line_in_diff index file (negsuc n) = false

-- Whether the finding has a line of the diff that a comment can stand on.
pub is_inline : Map Text (List ℕ) → Finding → Bool
unfolding line_in_diff
is_inline index f = not (is_empty f.file) && line_in_diff index f.file f.line

unfoldable pub classify : Map Text (List ℕ) → List Finding → Classes
unfolding is_inline
classify index [] = record { inline = []; out_of_diff = []; nitpicks = [] }
classify index (f ∷ fs) =
    let rest = classify index fs in
    if is_nitpick f.severity
    then record rest { nitpicks = f ∷ rest.nitpicks }
    else if is_inline index f
    then record rest { inline = f ∷ rest.inline }
    else record rest { out_of_diff = f ∷ rest.out_of_diff }

abbrev pub check_conclusion : Level → Text
check_conclusion green = codes "success"
check_conclusion yellow = codes "neutral"
check_conclusion red = codes "neutral"

abbrev is_found : Option Bool → Bool
is_found none = false
is_found (some found) = found

module _ (w : ReviewWorld) (meta : PublishMeta) where
  -- An error of the lookup is read as not published.
  unfoldable pub already_published : History → Bool
  already_published h = is_found (w.agent_check h meta.pr meta.head_sha)

  unfoldable pub minimize_all : List Text → History → History
  minimize_all [] h = h
  minimize_all (id ∷ ids) h = minimize_all ids (minimizes id ∷ h)

  unfoldable pub post : List Finding → History → Bool × History
  post [] h = (true, h)
  post (f ∷ fs) h = (
    w.create_review h meta.pr meta.head_sha (f ∷ fs),
    posts_review meta.pr meta.head_sha (f ∷ fs) ∷ h,
  )

  -- The summary, and behind it the check run.
  unfoldable pub conclude : Summary → Text → History → Bool × History
  conclude summary conclusion h =
      let up = upserts meta.pr summary ∷ h in
      if w.upsert_marker_comment h meta.pr summary
      then (
        w.create_check_run up meta.pr meta.head_sha conclusion,
        creates_check meta.pr meta.head_sha conclusion ∷ up,
      )
      else (false, up)

  unfoldable pub after_post : Summary → Text → List Text → Bool × History → Bool × History
  unfolding minimize_all conclude
  after_post summary conclusion ids (false, h) = (false, h)
  after_post summary conclusion ids (true, h) = conclude summary conclusion (minimize_all ids h)

  unfoldable pub with_comments :
      Scorecard → Classes → Option (List ReviewCommentRef) → History → Bool × History
  unfolding post after_post
  with_comments card cs none h = (false, h)
  with_comments card cs (some existing) h =
      let rec = reconcile cs.inline existing in
      after_post (scored card (length cs.inline + length cs.out_of_diff) cs.nitpicks cs.out_of_diff)
        (check_conclusion card.overall) rec.to_minimize (post rec.to_post h)

  unfoldable pub publish : Scorecard → List Finding → History → Bool × History
  unfolding already_published classify with_comments
  publish card findings h =
      let asked = asks_check meta.pr meta.head_sha ∷ h in
      if already_published h
      then (true, asked)
      else with_comments card (classify (new_diff_index meta.files []) findings)
          (w.list_review_comments asked meta.pr) (asks_comments meta.pr ∷ asked)

  unfoldable pub publish_deny : ℕ → History → Bool × History
  unfolding already_published conclude
  publish_deny diff_bytes h =
      let asked = asks_check meta.pr meta.head_sha ∷ h in
      if already_published h
      then (true, asked)
      else conclude (too_large (length meta.files) diff_bytes) (codes "neutral") asked
