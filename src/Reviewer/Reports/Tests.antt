-- ===== src/Reviewer/Reports/Tests.antt =====
-- go/internal/agent/reviewer/findings.go: an answer with a phrase and a foreign list in front of the
-- findings.
use automation_agent.Common.{
  pos, ℕ, ◌≡◌, ◌↔◌, refl, true, false, Option, none, some, List, [], ◌∷◌, Text, codes, All, ltb,
  leb, has_prefix, eq_text, trim_space, length,
}
use automation_agent.Reviewer.Findings.{major}
use automation_agent.Reviewer.Reports.{
  FindingWire, severity_of, normalize_severity, normalize_dimension, or_other, is_known,
  parse_findings, found_in, or_later, to_findings, finding_of,
}
use automation_agent.Reviewer.Reports.Usable.{IsUsable, IsSilent, parse_findings-IsUsable_iff}

abbrev blank_record : FindingWire ℕ
blank_record = record {
  file = [];
  line = pos 0;
  dimension = [];
  severity = [];
  message = [];
  rule_id = [];
  confidence = 0;
}

abbrev unchecked_error : FindingWire ℕ
unchecked_error = record {
  file = codes "a.go";
  line = pos 3;
  dimension = codes "Error-Handling";
  severity = codes " Major";
  message = codes " Unchecked ";
  rule_id = [];
  confidence = 0;
}

abbrev decode_lists : Text → Option (List (FindingWire ℕ))
decode_lists s = elim (has_prefix s (codes "[0")) [
  | true ↦ some (blank_record ∷ [])
  | false ↦ elim (has_prefix s (codes "[1")) [
    | true ↦ some (blank_record ∷ unchecked_error ∷ [])
    | false ↦ none
  ]
]

abbrev lens_answer : Text
lens_answer = codes "see [x]: [0] [1]"

answer_dimension : normalize_dimension (codes " Error-Handling") ≡ codes "error_handling"
unfolding normalize_dimension or_other is_known trim_space eq_text
answer_dimension = refl

answer_severity : normalize_severity (codes " Major") ≡ major
unfolding normalize_severity severity_of trim_space eq_text
answer_severity = refl

answer_count : length (parse_findings 0 50 100 leb ltb decode_lists lens_answer) ≡ 1
unfolding parse_findings found_in or_later to_findings finding_of trim_space has_prefix
answer_count = refl

parse_findings-IsUsable_iff_example :
    All IsUsable (parse_findings 0 50 100 leb ltb decode_lists lens_answer)
    × ((parse_findings 0 50 100 leb ltb decode_lists lens_answer ≡ [])
        ↔ IsSilent 0 50 100 leb ltb decode_lists lens_answer)
parse_findings-IsUsable_iff_example =
    parse_findings-IsUsable_iff 0 50 100 leb ltb decode_lists lens_answer
