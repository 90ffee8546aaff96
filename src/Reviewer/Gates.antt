-- ===== src/Reviewer/Gates.antt =====
-- go/internal/agent/reviewer/glue.go, and the gate of standards.go: what becomes of the findings of the
-- lenses before they are scored. A confidence is a float of a type `F`, of which only the comparison
-- and zero are used.
pub mod Unique
mod Tests
use automation_agent.Common.{
  ℕ, Bool, true, false, not, ◌&&◌, ◌||◌, List, [], ◌∷◌, map, keep, ltb, ◌==◌, if◌then◌else◌, Text,
  codes, eq_text, text_eq,
}
use automation_agent.Reviewer.Findings.{
  Finding, Severity, critical, major, medium, nitpick, Dimension,
}
use automation_agent.Reviewer.Marker.{fingerprint}

-- A finding with the fields that the gates read.
pub record Draft (F : Type 0) : Type 0 where
  pub finding : Finding
  pub rule_id : Text
  pub confidence : F

abbrev pub severity_rank : Severity → ℕ
severity_rank critical = 4
severity_rank major = 3
severity_rank medium = 2
severity_rank nitpick = 1

-- `conformanceDimensions`
abbrev pub is_conformance : Dimension → Bool
is_conformance d =
    eq_text d (codes "pattern_violation") || eq_text d (codes "architectural_alignment")

module _ {F : Type 0} where
  abbrev pub fingerprint_of : Draft F → Text
  fingerprint_of f = fingerprint f.finding

  abbrev pub demoted : Draft F → Draft F
  demoted f = record f { finding = record f.finding { severity = nitpick } }

  pub demote_to_nitpick : List (Draft F) → List (Draft F)
  demote_to_nitpick = map demoted

  -- A conformance finding that cites no rule is dropped, or demoted: `uncited` and `drop_uncited`.
  unfoldable pub gate_one : Bool → Bool → Draft F → List (Draft F) → List (Draft F)
  gate_one false drop_uncited f rest = f ∷ rest
  gate_one true true f rest = rest
  gate_one true false f rest = demoted f ∷ rest

  unfoldable pub gate_citations :
      (valid_id : Text → Bool) → (drop_uncited : Bool) → List (Draft F) → List (Draft F)
  unfolding gate_one
  gate_citations valid_id drop_uncited [] = []
  gate_citations valid_id drop_uncited (f ∷ fs) =
      gate_one (is_conformance f.finding.dimension && not (valid_id f.rule_id)) drop_uncited f
        (gate_citations valid_id drop_uncited fs)

module _ {F : Type 0} (zero_confidence : F) (at_most : F → F → Bool) where
  pub drop_low_confidence : F → List (Draft F) → List (Draft F)
  drop_low_confidence threshold findings =
      if at_most threshold zero_confidence
      then findings
      else keep (λ f. at_most threshold f.confidence) findings

  unfoldable pub better : Draft F → Draft F → Bool
  better a b =
      let ra = severity_rank a.finding.severity in
      let rb = severity_rank b.finding.severity in
      if not (ra == rb) then ltb rb ra else not (at_most a.confidence b.confidence)

  -- The finding takes the place of the one with its fingerprint, which it has to be better than; where
  -- there is none, it comes last.
  unfoldable pub place : Draft F → List (Draft F) → List (Draft F)
  unfolding better
  place f [] = f ∷ []
  place f (g ∷ out) =
      let rest = place f out in
      if eq_text (fingerprint_of g) (fingerprint_of f)
      then (if better f g then f ∷ out else g ∷ out)
      else g ∷ rest

  unfoldable pub dedupe_onto : List (Draft F) → List (Draft F) → List (Draft F)
  unfolding place
  dedupe_onto [] out = out
  dedupe_onto (f ∷ fs) out = dedupe_onto fs (place f out)

  unfoldable pub dedupe : List (Draft F) → List (Draft F)
  unfolding dedupe_onto
  dedupe findings = dedupe_onto findings []

  -- The end of `review`: the findings of the lenses and of the glue pass, gated. `gated` says whether
  -- there are standards to cite.
  pub gated_findings :
      F
      → (gated : Bool) → (valid_id : Text → Bool) → (drop_uncited : Bool) → List (Draft F)
      → List (Draft F)
  unfolding drop_low_confidence gate_citations dedupe
  gated_findings threshold gated valid_id drop_uncited all =
      let sure = drop_low_confidence threshold all in
      dedupe (if gated then gate_citations valid_id drop_uncited sure else sure)
