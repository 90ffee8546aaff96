-- ===== src/Reviewer/Scorecard/Tests.antt =====
-- go/internal/agent/reviewer/scorecard.go: the grade of a small review.
use automation_agent.Common.{pos, ℕ, ◌≡◌, ◌↔◌, refl, List, [], ◌∷◌, codes, lookup, insert, eq_text}
use automation_agent.Reviewer.Findings.{Finding, major, medium}
use automation_agent.Reviewer.Scorecard.{
  red, green, score_findings, tally, scores, worst, dim_level, critical_cap,
}
use automation_agent.Reviewer.Scorecard.Grades.{IsRed, IsGreen, score_findings-graded}

running : Unit {0}
unfolding score_findings lookup insert eq_text tally scores worst dim_level critical_cap
running = tt

abbrev two_majors : List Finding
two_majors =
    record {
      file = codes "a.go";
      line = pos 3;
      dimension = codes "performance";
      severity = major;
      message = codes "slow";
    }
    ∷ record {
      file = codes "b.go";
      line = pos 9;
      dimension = codes "performance";
      severity = major;
      message = codes "loop";
    }
    ∷ record {
      file = codes "b.go";
      line = pos 2;
      dimension = codes "readability";
      severity = medium;
      message = codes "name";
    }
    ∷ []

two_majors-red : (score_findings two_majors).overall ≡ red
unfolding running
two_majors-red = refl

score_findings-graded_example :
    (((score_findings two_majors).overall ≡ red) ↔ ((d : List ℕ) × IsRed two_majors d))
    × (((score_findings two_majors).overall ≡ green) ↔ ((d : List ℕ) → IsGreen two_majors d))
score_findings-graded_example = score_findings-graded two_majors
