-- ===== src/Reviewer/Reports.antt =====
-- go/internal/agent/reviewer/findings.go: what is read from the answer of a lens. The decoder of JSON is
-- a function that reads one list at the start of a text, and a confidence is a float of a type `F`, of
-- which only the two comparisons and the three constants are used.
pub mod Usable
mod Tests
use automation_agent.Common.{
  ℕ, ℤ, Bool, ◌||◌, Option, none, some, List, [], ◌∷◌, map, any, ◌==◌, if◌then◌else◌, Text, codes,
  eq_text, is_empty, trim_space,
}
use automation_agent.Reviewer.Findings.{
  Severity, critical, major, medium, nitpick, Dimension, dim_security, dim_runtime_safety,
}
use automation_agent.Reviewer.Marker.{lower}
use automation_agent.Reviewer.Gates.{Draft}

-- `findingWire`, without the suggestion and the fix prompt.
pub record FindingWire (F : Type 0) : Type 0 where
  pub file : Text
  pub line : ℤ
  pub dimension : Text
  pub severity : Text
  pub message : Text
  pub rule_id : Text
  pub confidence : F

-- The switch on a severity that is trimmed and in lower case.
unfoldable severity_of : Text → Severity
severity_of s =
    if eq_text s (codes "critical")
    then critical
    else if eq_text s (codes "major")
    then major
    else if eq_text s (codes "medium")
    then medium
    else nitpick

unfoldable pub normalize_severity : Text → Severity
unfolding severity_of
normalize_severity s = severity_of (map lower (trim_space s))

abbrev pub dim_other : Dimension
dim_other = codes "other"

abbrev pub known_dimensions : List Dimension
known_dimensions =
    dim_runtime_safety
    ∷ codes "error_handling"
    ∷ dim_security
    ∷ codes "performance"
    ∷ codes "pattern_violation"
    ∷ codes "maintainability"
    ∷ codes "readability"
    ∷ codes "documentation"
    ∷ codes "accessibility"
    ∷ codes "architectural_alignment"
    ∷ codes "testability"
    ∷ codes "test_coverage"
    ∷ dim_other
    ∷ []

unfoldable pub is_known : Dimension → Bool
is_known d = any (eq_text d) known_dimensions

-- A space and a hyphen become an underscore.
abbrev pub folded : ℕ → ℕ
folded c = if c == b' ' || c == b'-' then b'_' else c

-- The lookup in the table of the known dimensions.
unfoldable pub or_other : Dimension → Dimension
or_other d = if is_known d then d else dim_other

unfoldable pub normalize_dimension : Text → Dimension
normalize_dimension s = or_other (map folded (map lower (trim_space s)))

module _ {F : Type 0} (zero_confidence half one : F) (at_most less : F → F → Bool) where
  unfoldable pub clamp_confidence : F → F
  clamp_confidence c = if at_most c zero_confidence then half else if less one c then one else c

  unfoldable pub clamp_threshold : F → F
  clamp_threshold c =
      if at_most zero_confidence c then if less one c then one else c else zero_confidence

  unfoldable pub finding_of : FindingWire F → Text → Draft F
  finding_of w msg = record {
    finding = record {
      file = trim_space w.file;
      line = w.line;
      dimension = normalize_dimension w.dimension;
      severity = normalize_severity w.severity;
      message = msg;
    };
    rule_id = trim_space w.rule_id;
    confidence = clamp_confidence w.confidence;
  }

  unfoldable pub to_findings : List (FindingWire F) → List (Draft F)
  to_findings [] = []
  to_findings (w ∷ wires) =
      let out = to_findings wires in
      let msg = trim_space w.message in if is_empty msg then out else finding_of w msg ∷ out

  module _ (decode : Text → Option (List (FindingWire F))) where
    -- The findings of a list that was decoded, and none of a text that does not decode.
    unfoldable pub found_in : Option (List (FindingWire F)) → List (Draft F)
    found_in none = []
    found_in (some wires) = to_findings wires

    unfoldable pub or_later : List (Draft F) → List (Draft F) → List (Draft F)
    or_later [] later = later
    or_later (f ∷ out) later = f ∷ out

    unfoldable pub parse_findings : Text → List (Draft F)
    parse_findings [] = []
    parse_findings (c ∷ rest) =
        let later = parse_findings rest in
        if c == b'[' then or_later (found_in (decode (c ∷ rest))) later else later
