-- ===== src/Reviewer/Hunks/Tests.antt =====
-- go/internal/agent/reviewer/hunks.go: a small patch.
use automation_agent.Common.{◌≡◌, ◌↔◌, refl, none, [], ◌∷◌, codes, In, has_prefix, atoi}
use automation_agent.Reviewer.Hunks.{line_kind, parse_hunk_new_start, walk}
use automation_agent.Reviewer.Hunks.Lines.{Hunk, IsHunk, hunk_lines, Stands, walk-hunk_lines}

running : Unit {0}
unfolding line_kind parse_hunk_new_start has_prefix atoi walk
running = tt

abbrev small_hunk : Hunk
small_hunk = record {
  header = codes "@@ -4,2 +7,2 @@";
  start = 7;
  body = codes " same" ∷ codes "-old" ∷ codes "+new" ∷ [];
}

small_lines : walk none (hunk_lines (small_hunk ∷ [])) ≡ 7 ∷ 8 ∷ []
unfolding running
small_lines = refl

small_hunk-IsHunk : IsHunk small_hunk
unfolding running
small_hunk-IsHunk = (refl, refl, (refl, (refl, (refl, tt))))

walk-hunk_lines_example :
    In 8 (walk none (hunk_lines (small_hunk ∷ [])))
    ↔ ((h : Hunk) × In h (small_hunk ∷ []) × Stands h.start h.body 8)
walk-hunk_lines_example = walk-hunk_lines (small_hunk ∷ []) none 8 (small_hunk-IsHunk, tt)
