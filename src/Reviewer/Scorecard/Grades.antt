-- ===== src/Reviewer/Scorecard/Grades.antt =====
-- go/internal/agent/reviewer/scorecard.go: the grades against a count of the findings.
use automation_agent.Common.{
  ℕ, ◌+◌, ◌≤◌, ◌≡◌, ◌⊎◌, ◌↔◌, inl, inr, refl, sym, ap, ◌∙◌, Bool, true, false, ◌&&◌, some, List, [],
  ◌∷◌, if◌then◌else◌, Map, lookup, insert, lookup-insert, text_eq, eq_text, eq_text_iff,
  eq_text_refl, In, In-map, In-map_inverse, arith, Bool-cases, Option-cases,
}
use automation_agent.Reviewer.Findings.{
  Finding, Severity, critical, major, medium, nitpick, Dimension,
}
use automation_agent.Reviewer.Scorecard.{
  Level, green, yellow, red, is_worse, DimScore, dim_level, new_score, or_score, bump, tally,
  is_critical, critical_cap, graded, scores, worst, score_findings,
}

-- The number of findings of a dimension at a severity.
abbrev pub at_severity : Severity → Severity → Bool
at_severity critical critical = true
at_severity major major = true
at_severity medium medium = true
at_severity nitpick nitpick = true
at_severity s r = false

abbrev pub count : Severity → Dimension → List Finding → ℕ
count s d [] = 0
count s d (f ∷ fs) =
    (if at_severity s f.severity && eq_text f.dimension d then 1 else 0) + count s d fs

-- The score's counts are the given ones with those of the findings added.
abbrev Adds : Dimension → List Finding → DimScore → DimScore → Type 0
Adds d fs before after =
    (after.criticals ≡ before.criticals + count critical d fs)
    × (after.majors ≡ before.majors + count major d fs)
    × (after.mediums ≡ before.mediums + count medium d fs)
    × (after.nitpicks ≡ before.nitpicks + count nitpick d fs)

-- One finding of the dimension, by its severity.
abbrev one : Severity → Severity → ℕ
one s r = if at_severity s r then 1 else 0

bump_lem :
    (r : Severity) (s : DimScore)
    → ((bump r s).criticals ≡ s.criticals + one critical r)
      × ((bump r s).majors ≡ s.majors + one major r)
      × ((bump r s).mediums ≡ s.mediums + one medium r)
      × ((bump r s).nitpicks ≡ s.nitpicks + one nitpick r)
bump_lem critical s = omega arith
bump_lem major s = omega arith
bump_lem medium s = omega arith
bump_lem nitpick s = omega arith

abbrev bumped : Finding → Map Dimension DimScore → Map Dimension DimScore
bumped f m = insert f.dimension (bump f.severity (or_score f.dimension (lookup f.dimension m))) m

or_score-bumped :
    (d : Dimension) (f : Finding) (m : Map Dimension DimScore)
    → or_score d (lookup d (bumped f m)) ≡ (
        if eq_text f.dimension d
        then bump f.severity (or_score d (lookup d m))
        else or_score d (lookup d m))
or_score-bumped d f m = elim (Bool-cases (eq_text f.dimension d)) [
  | inl e ↦
      rw
        (
          lookup-insert f.dimension d
              (bump f.severity (or_score f.dimension (lookup f.dimension m))) m,
          e,
        )
        (ap (λ k. bump f.severity (or_score k (lookup k m))) ((eq_text_iff f.dimension d).0 e))
  | inr e ↦
      rw
        (
          lookup-insert f.dimension d
              (bump f.severity (or_score f.dimension (lookup f.dimension m))) m,
          e,
        )
        refl
]

bumped-Adds :
    (d : Dimension) (f : Finding) (m : Map Dimension DimScore)
    → Adds d (f ∷ []) (or_score d (lookup d m)) (or_score d (lookup d (bumped f m)))
bumped-Adds d f m = rw (or_score-bumped d f m) (elim (Bool-cases (eq_text f.dimension d)) [
  | inl e ↦ rw e (ground (arith, bump_lem f.severity (or_score d (lookup d m))))
  | inr e ↦ rw e (ground arith)
])

tally-Adds :
    (d : Dimension) (fs : List Finding) (m : Map Dimension DimScore)
    → Adds d fs (or_score d (lookup d m)) (or_score d (lookup d (tally fs m)))
unfolding tally
tally-Adds d [] m = omega arith
tally-Adds d (f ∷ fs) m = omega (arith, bumped-Adds d f m, tally-Adds d fs (bumped f m))

In-lookup :
    (d : Dimension) (m : Map Dimension DimScore) (s : DimScore) → lookup d m ≡ some s → In (d, s) m
unfolding lookup
In-lookup d [] s e = cc
In-lookup d ((k, v) ∷ m) s e = ground (arith, e, eq_text_iff k d, In-lookup d m s)

-- The score of a dimension, in the scores of the findings.
abbrev score_in : List Finding → Dimension → DimScore
score_in fs d = graded (or_score d (lookup d (tally fs [])))

-- Each score is that of its key.
In-scores :
    (fs : List Finding) (s : DimScore)
    → In s (scores (tally fs []))
    → (d : Dimension) × (s ≡ score_in fs d)
unfolding scores
In-scores fs s h =
    let (e, _, same) = In-map_inverse (λ e. score_in fs e.0) s (tally fs []) h in (e.0, sym same)

-- A dimension that is not among the scores has the empty score.
In-scores_or_empty :
    (fs : List Finding) (d : Dimension)
    → In (score_in fs d) (scores (tally fs [])) ⊎ (score_in fs d ≡ graded (new_score d))
unfolding scores
In-scores_or_empty fs d = elim (Option-cases (lookup d (tally fs []))) [
  | inl e ↦ inr (ap (λ o. graded (or_score d o)) e)
  | inr (s, e) ↦
      inl (In-map (λ e. score_in fs e.0) (d, s) (tally fs []) (In-lookup d (tally fs []) s e))
]

-- The counts of a score are those of the findings.
score_in-counts : (fs : List Finding) (d : Dimension) → Adds d fs (new_score d) (score_in fs d)
unfolding lookup
score_in-counts fs d = tally-Adds d fs []

worse-red : (a b : Level) → ((if is_worse a b then a else b) ≡ red) ↔ ((a ≡ red) ⊎ (b ≡ red))
worse-red green b = ground arith
worse-red yellow green = ground arith
worse-red yellow yellow = ground arith
worse-red yellow red = ground arith
worse-red red green = ground arith
worse-red red yellow = ground arith
worse-red red red = ground arith

worse-green :
    (a b : Level) → ((if is_worse a b then a else b) ≡ green) ↔ ((a ≡ green) × (b ≡ green))
worse-green green b = ground arith
worse-green yellow green = ground arith
worse-green yellow yellow = ground arith
worse-green yellow red = ground arith
worse-green red green = ground arith
worse-green red yellow = ground arith
worse-green red red = ground arith

worst-red_iff :
    (ss : List DimScore) → (worst ss ≡ red) ↔ ((s : DimScore) × In s ss × (s.level ≡ red))
unfolding worst
worst-red_iff [] = ((λ h. cc), λ h. absurd h.1)
worst-red_iff (s ∷ ss) = (
  λ h. elim ((worse-red s.level (worst ss)).0 h) [
    | inl here ↦ (s, inl refl, here)
    | inr there ↦ let (r, i, e) = (worst-red_iff ss).0 there in (r, inr i, e)
  ],
  λ (r, i, e). elim i [
    | inl same ↦ (worse-red s.level (worst ss)).1 (inl (ap (λ x. x.level) same ∙ e))
    | inr later ↦ (worse-red s.level (worst ss)).1 (inr ((worst-red_iff ss).1 (r, later, e)))
  ],
)

worst-green_iff :
    (ss : List DimScore) → (worst ss ≡ green) ↔ ((s : DimScore) → In s ss → s.level ≡ green)
unfolding worst
worst-green_iff [] = ((λ h s i. absurd i), λ h. refl)
worst-green_iff (s ∷ ss) = (
  λ h r i.
      let (here, there) = (worse-green s.level (worst ss)).0 h in
      elim i [
        | inl same ↦ sym (ap (λ x. x.level) same) ∙ here
        | inr later ↦ (worst-green_iff ss).0 there r later
      ],
  λ h.
      (worse-green s.level (worst ss)).1
        (h s (inl refl), (worst-green_iff ss).1 (λ r i. h r (inr i))),
)

-- The dimension has a critical finding or two major ones.
abbrev pub IsRed : List Finding → Dimension → Type 0
IsRed fs d = (1 ≤ count critical d fs) ⊎ (2 ≤ count major d fs)

-- The dimension has neither, no major one, and at most two medium ones.
abbrev pub IsGreen : List Finding → Dimension → Type 0
IsGreen fs d = (count critical d fs ≡ 0) × (count major d fs ≡ 0) × (count medium d fs ≤ 2)

score_in-red_iff : (fs : List Finding) (d : Dimension) → ((score_in fs d).level ≡ red) ↔ IsRed fs d
unfolding dim_level
score_in-red_iff fs d = ground (arith, score_in-counts fs d)

score_in-green_iff :
    (fs : List Finding) (d : Dimension) → ((score_in fs d).level ≡ green) ↔ IsGreen fs d
unfolding dim_level
score_in-green_iff fs d = ground (arith, score_in-counts fs d)

is_critical_lem : (s : Severity) → is_critical s ≡ true → s ≡ critical
is_critical_lem critical h = refl
is_critical_lem major h = cc
is_critical_lem medium h = cc
is_critical_lem nitpick h = cc

critical_cap-count :
    (fs : List Finding) → critical_cap fs ≡ true → (d : Dimension) × (1 ≤ count critical d fs)
unfolding critical_cap
critical_cap-count [] h = cc
critical_cap-count (f ∷ fs) h = elim (Bool-cases (is_critical f.severity)) [
  | inl e ↦ (f.dimension, ground (arith, is_critical_lem f.severity e, eq_text_refl f.dimension))
  | inr e ↦ let (d, c) = critical_cap-count fs (ground (arith, h, e)) in (d, omega (arith, c))
]

red-green : red ≡ green → ⊥
red-green h = cc

new_score-green : (d : Dimension) → (graded (new_score d)).level ≡ green
unfolding dim_level
new_score-green d = refl

zero_or_more : {n : ℕ} → n ≡ 0 → 1 ≤ n → ⊥
zero_or_more e h = omega (arith, e, h)

worst-some_red :
    (fs : List Finding) (d : Dimension) → IsRed fs d → worst (scores (tally fs [])) ≡ red
unfolding dim_level
worst-some_red fs d h = elim (In-scores_or_empty fs d) [
  | inl i ↦ (worst-red_iff (scores (tally fs []))).1 (score_in fs d, i, (score_in-red_iff fs d).1 h)
  | inr e ↦ absurd (red-green (sym ((score_in-red_iff fs d).1 h) ∙ ap (λ s. s.level) e))
]

-- The review is red exactly where some dimension has a critical finding or two major ones, and
-- green exactly where every dimension has none of either and at most two medium ones.
pub score_findings-graded :
    (fs : List Finding)
    → (((score_findings fs).overall ≡ red) ↔ ((d : Dimension) × IsRed fs d))
      × (((score_findings fs).overall ≡ green) ↔ ((d : Dimension) → IsGreen fs d))
unfolding score_findings
score_findings-graded fs = elim (Bool-cases (critical_cap fs)) [
  | inl capped ↦ rw capped (
      let (d, c) = critical_cap-count fs capped in
      (
        ((λ h. (d, inl c)), λ h. refl),
        ((λ h. absurd (red-green h)), λ h. absurd (zero_or_more (h d).0 c)),
      ))
  | inr no_cap ↦ rw no_cap (
    (
      (λ h.
          let (s, i, e) = (worst-red_iff (scores (tally fs []))).0 h in
          let (d, same) = In-scores fs s i in
          (d, (score_in-red_iff fs d).0 (sym (ap (λ x. x.level) same) ∙ e))),
      λ (d, h). worst-some_red fs d h,
    ),
    (
      (λ h d. elim (In-scores_or_empty fs d) [
        | inl i ↦
            (score_in-green_iff fs d).0
              ((worst-green_iff (scores (tally fs []))).0 h (score_in fs d) i)
        | inr e ↦ (score_in-green_iff fs d).0 (ap (λ x. x.level) e ∙ new_score-green d)
      ]),
      λ h. (worst-green_iff (scores (tally fs []))).1 (λ s i.
          let (d, same) = In-scores fs s i in
          ap (λ x. x.level) same ∙ (score_in-green_iff fs d).1 (h d)),
    ),
  )
]
