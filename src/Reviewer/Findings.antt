-- ===== src/Reviewer/Findings.antt =====
-- go/internal/agent/reviewer/findings.go: what a lens reports.
use automation_agent.Common.{ℤ, Bool, Text, codes, eq_text, ◌||◌}

pub data Severity : Type 0 where
  critical major medium nitpick : Severity

-- A text, which is one of the known names once it is normalized.
abbrev pub Dimension : Type 0
Dimension = Text

abbrev pub dim_security : Dimension
dim_security = codes "security"

abbrev pub dim_runtime_safety : Dimension
dim_runtime_safety = codes "runtime_safety"

-- `criticalDimensions`
abbrev pub is_critical_dimension : Dimension → Bool
is_critical_dimension d = eq_text d dim_security || eq_text d dim_runtime_safety

-- The rule and the confidence stand in the `Draft` of Gates; the suggestion and the fix prompt are not read.
pub record Finding : Type 0 where
  pub file : Text
  pub line : ℤ
  pub dimension : Dimension
  pub severity : Severity
  pub message : Text
