-- ===== src/Reviewer/Scorecard.antt =====
-- go/internal/agent/reviewer/scorecard.go: the histogram of the findings and its grades.
pub mod Grades
mod Tests
use automation_agent.Common.{
  ℕ, ◌+◌, Bool, true, false, ◌&&◌, ◌||◌, Option, none, some, List, [], ◌∷◌, map, leb, if◌then◌else◌,
  Map, lookup, insert, Text, text_eq, length, ltb, ◌==◌, any, keep, eq_text,
}
use automation_agent.Reviewer.Findings.{
  Finding, Severity, critical, major, medium, nitpick, Dimension, is_critical_dimension,
}

pub data Level : Type 0 where
  green yellow red : Level

-- `a > b` on levels, where worse is greater.
abbrev pub is_worse : Level → Level → Bool
is_worse red red = false
is_worse red b = true
is_worse yellow green = true
is_worse yellow b = false
is_worse green b = false

pub record DimScore : Type 0 where
  pub dimension : Dimension
  pub criticals : ℕ
  pub majors : ℕ
  pub mediums : ℕ
  pub nitpicks : ℕ
  pub level : Level

pub record Scorecard : Type 0 where
  pub dims : List DimScore
  pub overall : Level
  pub total : ℕ

pub dim_level : DimScore → Level
dim_level s =
    if leb 1 s.criticals || leb 2 s.majors
    then red
    else if leb 1 s.majors || leb 3 s.mediums
    then yellow
    else green

abbrev pub new_score : Dimension → DimScore
new_score d = record {
  dimension = d;
  criticals = 0;
  majors = 0;
  mediums = 0;
  nitpicks = 0;
  level = green;
}

-- `byDim[f.Dimension]`, made where it is missing.
abbrev pub or_score : Dimension → Option DimScore → DimScore
or_score d none = new_score d
or_score d (some s) = s

abbrev pub bump : Severity → DimScore → DimScore
bump critical s = record s { criticals = s.criticals + 1 }
bump major s = record s { majors = s.majors + 1 }
bump medium s = record s { mediums = s.mediums + 1 }
bump nitpick s = record s { nitpicks = s.nitpicks + 1 }

pub tally : List Finding → Map Dimension DimScore → Map Dimension DimScore
tally [] by_dim = by_dim
tally (f ∷ fs) by_dim =
    tally fs (
      insert f.dimension (bump f.severity (or_score f.dimension (lookup f.dimension by_dim)))
        by_dim)

abbrev pub is_critical : Severity → Bool
is_critical critical = true
is_critical s = false

-- `criticalCap`
pub critical_cap : List Finding → Bool
critical_cap = any (λ f. is_critical f.severity && is_critical_dimension f.dimension)

abbrev pub graded : DimScore → DimScore
graded s = record s { level = dim_level s }

-- The graded scores, in the order of the map: an entry is read by its key.
pub scores : Map Dimension DimScore → List DimScore
scores by_dim = map (λ e. graded (or_score e.0 (lookup e.0 by_dim))) by_dim

pub worst : List DimScore → Level
worst [] = green
worst (s ∷ ss) = let w = worst ss in if is_worse s.level w then s.level else w

-- The order of texts, byte by byte.
less_text : Text → Text → Bool
less_text [] [] = false
less_text [] (c ∷ t) = true
less_text (b ∷ s) [] = false
less_text (b ∷ s) (c ∷ t) = let rest = less_text s t in ltb b c || (b == c && rest)

insert_score : DimScore → List DimScore → List DimScore
unfolding less_text
insert_score s [] = s ∷ []
insert_score s (r ∷ rs) =
    let rest = insert_score s rs in
    if less_text s.dimension r.dimension then s ∷ r ∷ rs else r ∷ rest

-- The keys of a map are distinct, so a sort has one outcome.
sort_scores : List DimScore → List DimScore
unfolding insert_score
sort_scores [] = []
sort_scores (s ∷ ss) = insert_score s (sort_scores ss)

pub score_findings : List Finding → Scorecard
unfolding sort_scores scores worst tally critical_cap
score_findings findings =
    let by_dim = tally findings [] in
    let dims = scores by_dim in
    record {
      dims = sort_scores dims;
      overall = if critical_cap findings then red else worst dims;
      total = length findings;
    }

owned : List Dimension → List DimScore → List DimScore
owned own = keep (λ s. any (λ d. eq_text s.dimension d) own)

-- The worst level among the scores of the dimensions that a lens owns.
pub lens_level : Scorecard → List Dimension → Level
unfolding owned worst
lens_level card own = worst (owned own card.dims)
