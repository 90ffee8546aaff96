-- ===== src/Reviewer/Tests.antt =====
-- go/internal/agent/reviewer: markers and a reconciliation on small inputs.
use automation_agent.Common.{
  pos, ◌≡◌, ◌↔◌, inl, inr, subst, List, [], ◌∷◌, ◌++◌, map, Text, codes, In, has_prefix,
  drop_prefix, decimal, arith,
}
use automation_agent.Reviewer.Findings.{Finding, major}
use automation_agent.Reviewer.Marker.{
  normalize_message, join_fields, fingerprint, fp_marker, marker_suffix, IsQuiet, IsPayload,
  payload, parse_fp_marker, parse_fp_marker-fp_marker, parse_fp_marker-truncated,
}
use automation_agent.Reviewer.Reconcile.{ReviewCommentRef, reconcile}
use automation_agent.Reviewer.Reconcile.Sound.{
  newline, marked_comment, IsCarried, IsGone, reconcile-exact, reconcile_again,
}

running : Unit {0}
unfolding parse_fp_marker payload has_prefix drop_prefix fingerprint
running = tt

parse_fp_marker-fp_marker_example :
    parse_fp_marker (codes "slow\n" ++ (fp_marker (codes "a.go:3:slow") ++ codes "\n"))
    ≡ codes "a.go:3:slow"
unfolding has_prefix
parse_fp_marker-fp_marker_example =
    parse_fp_marker-fp_marker (codes "slow\n") (codes "a.go:3:slow") (codes "\n") (ground arith)
      (ground arith)

parse_fp_marker-truncated_example :
    parse_fp_marker ([] ++ (fp_marker (codes "a:1:x" ++ (marker_suffix ++ codes " y")) ++ []))
    ≡ codes "a:1:x"
unfolding has_prefix
parse_fp_marker-truncated_example =
    parse_fp_marker-truncated [] (codes "a:1:x") (codes " y") [] tt (ground arith)

abbrev slow : Finding
slow = record {
  file = codes "a.go";
  line = pos 3;
  dimension = codes "performance";
  severity = major;
  message = codes "Slow loop";
}

abbrev old_comment : ReviewCommentRef
old_comment = record { node_id = codes "n0"; body = fp_marker (codes "b.go:9:gone") }

abbrev one_old : List ReviewCommentRef
one_old = old_comment ∷ []

abbrev one_slow : List Finding
one_slow = slow ∷ []

abbrev node : Finding → Text
node f = codes "n1"

abbrev front : Finding → Text
front f = codes "slow\n\n"

slow-marked :
    IsQuiet (front slow) (fp_marker (fingerprint slow) ++ newline)
    × IsPayload (fingerprint slow) (marker_suffix ++ newline)
unfolding running normalize_message join_fields decimal
slow-marked = (ground arith, ground arith)

all_marked :
    (f : Finding)
    → In f one_slow
    → IsQuiet (front f) (fp_marker (fingerprint f) ++ newline)
      × IsPayload (fingerprint f) (marker_suffix ++ newline)
all_marked f (inl same) =
    subst
      (λ g.
        IsQuiet (front g) (fp_marker (fingerprint g) ++ newline)
        × IsPayload (fingerprint g) (marker_suffix ++ newline))
      same slow-marked
all_marked f (inr z) = absurd z

reconcile_again_example :
    let first = reconcile one_slow one_old in
    let second = reconcile one_slow (one_old ++ map (marked_comment node front) first.to_post) in
    ((f : Finding) → In f second.to_post → ⊥)
    × ((id : Text) → In id second.to_minimize → In id first.to_minimize)
reconcile_again_example = reconcile_again one_slow one_old node front all_marked

reconcile-exact_example :
    ((f : Finding)
      → In f (reconcile one_slow one_old).to_post
        ↔ (In f one_slow × (IsCarried (fingerprint f) one_old → ⊥)))
    × ((id : Text)
        → In id (reconcile one_slow one_old).to_minimize
          ↔ ((rc : ReviewCommentRef) × In rc one_old × (rc.node_id ≡ id) × IsGone one_slow rc))
reconcile-exact_example = reconcile-exact one_slow one_old
