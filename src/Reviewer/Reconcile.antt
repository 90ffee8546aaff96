-- ===== src/Reviewer/Reconcile.antt =====
-- go/internal/agent/reviewer/reconcile.go: this run's findings against the comments on the pull
-- request.
pub mod Sound
use automation_agent.Common.{
  Bool, true, false, not, ◌&&◌, ◌||◌, Option, none, some, List, [], ◌∷◌, ◌++◌, map, ◌==◌, ltb,
  if◌then◌else◌, Text, text_eq, eq_text, is_empty, any, keep, Map, lookup, insert,
}
use automation_agent.Reviewer.Findings.{Finding}
use automation_agent.Reviewer.Marker.{fingerprint, parse_fp_marker}

pub record ReviewCommentRef : Type 0 where
  pub node_id : Text
  pub body : Text

pub record ReconcileResult : Type 0 where
  pub to_post : List Finding
  pub to_minimize : List Text

abbrev pub or_nil : Option (List Text) → List Text
or_nil none = []
or_nil (some ids) = ids

-- `have[fp] = append(have[fp], rc.NodeID)`
abbrev pub append_id : Text → Text → Map Text (List Text) → Map Text (List Text)
append_id fp id have = insert fp (or_nil (lookup fp have) ++ id ∷ []) have

pub add_comment : ReviewCommentRef → Map Text (List Text) → Map Text (List Text)
add_comment rc have =
    if is_empty (parse_fp_marker rc.body)
    then have
    else append_id (parse_fp_marker rc.body) rc.node_id have

unfoldable pub add_comments : List ReviewCommentRef → Map Text (List Text) → Map Text (List Text)
unfolding add_comment
add_comments [] have = have
add_comments (rc ∷ rcs) have = add_comments rcs (add_comment rc have)

abbrev pub is_held : Option (List Text) → Bool
is_held none = false
is_held (some ids) = true

-- `current[fp]`
abbrev pub is_current : List Finding → Text → Bool
is_current findings fp = any (λ f. eq_text (fingerprint f) fp) findings

-- The ids under the keys, an entry being read by its key, that are not current.
unfoldable pub outdated : List Finding → Map Text (List Text) → List Text → List Text
outdated findings have [] = []
outdated findings have (fp ∷ fps) =
    let rest = outdated findings have fps in
    if is_current findings fp then rest else or_nil (lookup fp have) ++ rest

-- The order of texts, byte by byte.
less_text : Text → Text → Bool
less_text [] [] = false
less_text [] (c ∷ t) = true
less_text (b ∷ s) [] = false
less_text (b ∷ s) (c ∷ t) = let rest = less_text s t in ltb b c || (b == c && rest)

pub insert_text : Text → List Text → List Text
unfolding less_text
insert_text s [] = s ∷ []
insert_text s (r ∷ rs) =
    let rest = insert_text s rs in if less_text r s then r ∷ rest else s ∷ r ∷ rs

-- `sort.Strings`
unfoldable pub sort_texts : List Text → List Text
unfolding insert_text
sort_texts [] = []
sort_texts (s ∷ ss) = insert_text s (sort_texts ss)

unfoldable pub reconcile : List Finding → List ReviewCommentRef → ReconcileResult
unfolding add_comments outdated sort_texts
reconcile findings existing =
    let have = add_comments existing [] in
    record {
      to_post = keep (λ f. not (is_held (lookup (fingerprint f) have))) findings;
      to_minimize = sort_texts (outdated findings have (map (λ e. e.0) have));
    }
