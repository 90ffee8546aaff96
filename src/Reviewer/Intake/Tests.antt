-- ===== src/Reviewer/Intake/Tests.antt =====
-- go/internal/agent/reviewer: one pull request, from its event to its check run.
use automation_agent.Common.{
  pos, ℕ, ◌+◌, ◌*◌, ◌≡◌, ◌≢◌, ◌↔◌, refl, sym, ◌∙◌, inl, some-injective, Bool, true, false, not,
  some, List, [], ◌∷◌, ◌++◌, map, Text, codes, any, keep, In, length, arith,
}
use automation_agent.Reviewer.Findings.{Finding, major, nitpick}
use automation_agent.Reviewer.Scorecard.{Scorecard, red}
use automation_agent.Reviewer.Hunks.{PrFile}
use automation_agent.Reviewer.Globs.{glob_to_regexp, glob_parts_from, run_then, match_string}
use automation_agent.Reviewer.Globs.Meaning.{Stands, glob_to_regexp_iff}
use automation_agent.Reviewer.Filter.{
  new_file_filter, filtered, excluded, patch_bytes, avg_diff_line_bytes,
}
use automation_agent.Reviewer.Filter.Kept.{IsExcluded, sum, filtered-exact}
use automation_agent.Reviewer.Hub.{
  PullRequestEvent, HubCall, creates_check, History, ReviewWorld, reviewed,
}
use automation_agent.Reviewer.Publish.{
  PublishMeta, classify, publish, publish_deny, already_published, with_comments, after_post, post,
  minimize_all, conclude,
}
use automation_agent.Reviewer.Reconcile.{reconcile, add_comments, outdated, sort_texts}
use automation_agent.Reviewer.Publish.Ordered.{IsOrdered, publish-IsOrdered}
use automation_agent.Reviewer.Publish.Again.{CheckLaws, IsSilent, publish_again}
use automation_agent.Reviewer.Intake.{ReviewEngine, review_kickoff}
use automation_agent.Reviewer.Intake.Guarded.{IsGuarded, review_kickoff-IsGuarded}

glob_to_regexp_iff_example :
    (match_string (glob_to_regexp (codes "vendor/**")) (codes "vendor/b/c.go") ≡ true)
    ↔ Stands (codes "vendor/**") (codes "vendor/b/c.go")
glob_to_regexp_iff_example = glob_to_regexp_iff (codes "vendor/**") (codes "vendor/b/c.go")

vendored : match_string (glob_to_regexp (codes "vendor/**")) (codes "vendor/b/c.go") ≡ true
unfolding match_string run_then glob_to_regexp glob_parts_from
vendored = refl

abbrev globs : List Text
globs = codes "go.sum" ∷ codes "vendor/**" ∷ []

abbrev code_file : PrFile
code_file = record {
  path = codes "a.go";
  additions = 1;
  deletions = 0;
  patch = codes "@@ -1 +1 @@\n+x";
}

abbrev lock_file : PrFile
lock_file = record { path = codes "sub/go.sum"; additions = 900; deletions = 0; patch = [] }

abbrev two_files : List PrFile
two_files = code_file ∷ lock_file ∷ []

filtered-exact_example :
    let out = filtered (new_file_filter globs) two_files in
    ((fl : PrFile) → In fl out.0 ↔ (In fl two_files × (IsExcluded globs fl.path → ⊥)))
    × (out.0 ≡ keep (λ fl. not (excluded (new_file_filter globs) fl.path)) two_files)
    × (out.1 ≡ sum (map patch_bytes out.0))
    × ((fl : PrFile)
        → (fl.patch ≢ [] → patch_bytes fl ≡ length fl.patch)
          × (fl.patch ≡ [] → patch_bytes fl ≡ (fl.additions + fl.deletions) * avg_diff_line_bytes))
filtered-exact_example = filtered-exact globs two_files

abbrev slow : Finding
slow = record {
  file = codes "a.go";
  line = pos 1;
  dimension = codes "performance";
  severity = major;
  message = codes "Slow loop";
}

abbrev style : Finding
style = record {
  file = codes "a.go";
  line = pos 1;
  dimension = codes "readability";
  severity = nitpick;
  message = codes "Name";
}

abbrev two_findings : List Finding
two_findings = slow ∷ style ∷ []

abbrev card : Scorecard
card = record { dims = []; overall = red; total = 2 }

abbrev event : PullRequestEvent
event = record {
  action = codes "opened";
  number = 7;
  repo_full_name = codes "o/r";
  head_ref = codes "topic";
  head_sha = codes "c1";
  draft = false;
  labels = [];
  author_login = codes "ann";
}

abbrev creates : HubCall → Bool
creates (creates_check pr sha c) = true
creates c = false

-- A GitHub with one commit.
abbrev hub : ReviewWorld
hub = record {
  parse_pull_request_event = λ raw. some event;
  list_pr_files = λ h pr. some two_files;
  pull_request_head_sha = λ h pr. some (codes "c1");
  agent_check = λ h pr sha. some (any creates h);
  list_review_comments = λ h pr. some [];
  create_review = λ h pr sha fs. true;
  minimize_comment = λ h id. true;
  upsert_marker_comment = λ h pr s. true;
  create_check_run = λ h pr sha c. true;
  review = λ h pr files. reviewed card two_findings;
}

any-append_right : (later h : History) → any creates h ≡ true → any creates (later ++ h) ≡ true
any-append_right [] h e = e
any-append_right (c ∷ later) h e = ground (arith, any-append_right later h e)

hub-CheckLaws : CheckLaws hub
hub-CheckLaws = record {
  created = λ h pr sha c later found made e.
      sym (some-injective e) ∙ any-append_right later (creates_check pr sha c ∷ h) refl;
  kept = λ h pr sha later found before e.
      sym (some-injective e) ∙ any-append_right later h (some-injective before);
}

abbrev meta : PublishMeta
meta = record {
  pr = record { owner = codes "o"; repo = codes "r"; number = 7 };
  head_sha = codes "c1";
  files = two_files;
}

publish-IsOrdered_example :
    ((card' : Scorecard) (findings : List Finding)
      → IsOrdered hub meta [] (publish hub meta card' findings []))
    × ((diff_bytes : ℕ) → IsOrdered hub meta [] (publish_deny hub meta diff_bytes []))
publish-IsOrdered_example = publish-IsOrdered hub meta []

published : (publish hub meta card [] []).0 ≡ true
unfolding publish already_published with_comments after_post post minimize_all conclude classify
    reconcile add_comments outdated sort_texts
published = refl

found_there :
    hub.agent_check ([] ++ (publish hub meta card [] []).1) meta.pr meta.head_sha ≡ some true
unfolding publish already_published with_comments after_post post minimize_all conclude classify
    reconcile add_comments outdated sort_texts
found_there = refl

publish_again_example :
    let k = [] ++ (publish hub meta card [] []).1 in
    ((card' : Scorecard) (findings' : List Finding)
      → IsSilent meta k (publish hub meta card' findings' k))
    × ((diff_bytes : ℕ) → IsSilent meta k (publish_deny hub meta diff_bytes k))
publish_again_example =
    publish_again hub hub-CheckLaws meta [] (publish hub meta card [] []) [] true
      (inl (card, [], refl)) published found_there

abbrev engine : ReviewEngine
engine = record {
  enabled = true;
  has_client = true;
  has_models = true;
  skip_drafts = true;
  filter = new_file_filter globs;
  max_files = 50;
  max_diff_bytes = 1024;
}

review_kickoff-IsGuarded_example :
    IsGuarded hub engine (codes "{}") [] (review_kickoff hub engine (codes "{}") [])
review_kickoff-IsGuarded_example = review_kickoff-IsGuarded hub engine (codes "{}") []
