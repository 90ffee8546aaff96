-- ===== src/Reviewer/Gates/Tests.antt =====
-- go/internal/agent/reviewer/glue.go: two lenses that report one line, and a finding without a rule.
use automation_agent.Common.{pos, ℕ, ◌≡◌, false, List, [], ◌∷◌, codes, eq_text, leb, All, In}
use automation_agent.Reviewer.Findings.{major, medium}
use automation_agent.Reviewer.Gates.{Draft, dedupe, gate_citations}
use automation_agent.Reviewer.Gates.Unique.{
  IsUnique, IsCovered, dedupe-IsUnique, is_uncited, IsCited, gate_citations-IsCited,
}

abbrev from_safety : Draft ℕ
from_safety = record {
  finding = record {
    file = codes "a.go";
    line = pos 3;
    dimension = codes "security";
    severity = medium;
    message = codes "Unchecked";
  };
  rule_id = [];
  confidence = 80;
}

abbrev from_quality : Draft ℕ
from_quality = record {
  finding = record {
    file = codes "a.go";
    line = pos 3;
    dimension = codes "pattern_violation";
    severity = major;
    message = codes "unchecked";
  };
  rule_id = codes "R9";
  confidence = 60;
}

abbrev both : List (Draft ℕ)
both = from_safety ∷ from_quality ∷ []

dedupe-IsUnique_example :
    let out = dedupe 0 leb both in
    IsUnique out
    × ((h : Draft ℕ) → In h out → In h both)
    × ((h : Draft ℕ) → In h both → IsCovered h out)
dedupe-IsUnique_example = dedupe-IsUnique 0 leb both

gate_citations-IsCited_example :
    All (IsCited (eq_text (codes "R1")) false) (gate_citations (eq_text (codes "R1")) false both)
    × ((f : Draft ℕ)
        → is_uncited (eq_text (codes "R1")) false f ≡ false
        → In f both
        → In f (gate_citations (eq_text (codes "R1")) false both))
gate_citations-IsCited_example = gate_citations-IsCited (eq_text (codes "R1")) false both
