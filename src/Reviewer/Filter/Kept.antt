-- ===== src/Reviewer/Filter/Kept.antt =====
-- go/internal/agent/reviewer/filter.go: what the filter keeps.
use automation_agent.Common.{
  ℕ, ◌+◌, ◌*◌, ◌≡◌, ◌≢◌, ◌⊎◌, ◌↔◌, ◌==◌, ==_iff, any, inl, inr, refl, ap, subst, ◌∙◌, sym, Bool,
  true, false, not, List, [], ◌∷◌, keep, map, In-keep_iff, false-true, keep-true, keep-false,
  length, In, Text, ltb, is_empty, trim_space, if◌then◌else◌, Bool-cases, arith,
}
use automation_agent.Reviewer.Globs.{match_string}
use automation_agent.Reviewer.Globs.Meaning.{Stands, glob_to_regexp_iff}
use automation_agent.Reviewer.Hunks.{PrFile}
use automation_agent.Reviewer.Filter.{
  base, FileFilter, GlobPattern, pattern_of, new_file_filter, target, excluded, patch_bytes,
  filtered, avg_diff_line_bytes,
}

-- A glob with a slash stands for the path, and one without for the path's last element.
abbrev pub Covers : Text → Text → Type 0
Covers g p = (In b'/' g × Stands g p) ⊎ ((In b'/' g → ⊥) × Stands g (base p))

-- Some glob, which is not blank, covers the path; the white space around it does not count.
abbrev pub IsExcluded : List Text → Text → Type 0
IsExcluded globs p =
    (g : Text) × In g globs × (is_empty (trim_space g) ≡ false) × Covers (trim_space g) p

abbrev matches : Text → GlobPattern → Bool
matches p pat = match_string pat.re (target pat p)

abbrev has_slash : Text → Bool
has_slash = any (λ c. c == b'/')

has_slash_iff : (g : Text) → (has_slash g ≡ true) ↔ In b'/' g
has_slash_iff [] = ((λ h. cc), λ i. absurd i)
has_slash_iff (c ∷ g) =
    let (to, from) = has_slash_iff g in
    (
      (λ h. elim (Bool-cases (c == b'/')) [
        | inl here ↦ inl ((==_iff c b'/').0 here)
        | inr other ↦ inr (to (rw other at h))
      ]),
      λ i. elim i [
        | inl e ↦ rw ((==_iff c b'/').1 e) refl
        | inr later ↦ rw (from later) (ground arith)
      ],
    )

matches_iff : (g p : Text) → (matches p (pattern_of g) ≡ true) ↔ Covers g p
unfolding pattern_of target
matches_iff g p = elim (Bool-cases (has_slash g)) [
  | inl slash ↦
      let (to, from) = glob_to_regexp_iff g p in
      rw slash (
        (λ h. inl ((has_slash_iff g).0 slash, to h)),
        λ c. elim c [
          | inl (i, stands) ↦ from stands
          | inr (free, stands) ↦ absurd (free ((has_slash_iff g).0 slash))
        ],
      )
  | inr none_there ↦
      let (to, from) = glob_to_regexp_iff g (base p) in
      rw none_there (
        (λ h. inr ((λ i. false-true (sym none_there ∙ (has_slash_iff g).1 i)), to h)),
        λ c. elim c [
          | inl (i, stands) ↦ absurd (false-true (sym none_there ∙ (has_slash_iff g).1 i))
          | inr (free, stands) ↦ from stands
        ],
      )
]

later : (g : Text) (gs : List Text) (p : Text) → IsExcluded gs p → IsExcluded (g ∷ gs) p
later g gs p (h, i, full, d) = (h, inr i, full, d)

excluded_sound :
    (globs : List Text) (p : Text) → excluded (new_file_filter globs) p ≡ true → IsExcluded globs p
unfolding excluded new_file_filter
excluded_sound [] p h = cc
excluded_sound (g ∷ gs) p h = elim (Bool-cases (is_empty (trim_space g))) [
  | inl blank ↦ later g gs p (excluded_sound gs p (rw blank at h))
  | inr full ↦ elim (Bool-cases (matches p (pattern_of (trim_space g)))) [
    | inl here ↦ (g, inl refl, full, (matches_iff (trim_space g) p).0 here)
    | inr other ↦ later g gs p (excluded_sound gs p (rw other at (rw full at h)))
  ]
]

excluded_complete :
    (globs : List Text) (p : Text) → IsExcluded globs p → excluded (new_file_filter globs) p ≡ true
unfolding excluded new_file_filter
excluded_complete [] p (g, i, full, d) = absurd i
excluded_complete (g ∷ gs) p (h, inl e, full, d) =
    let at_g =
      subst
        (λ t. (is_empty (trim_space t) ≡ false) × (matches p (pattern_of (trim_space t)) ≡ true))
        (sym e) (full, (matches_iff (trim_space h) p).1 d) in
    rw at_g.0 (rw at_g.1 refl)
excluded_complete (g ∷ gs) p (h, inr i, full, d) =
    let rest = excluded_complete gs p (h, i, full, d) in
    elim (Bool-cases (is_empty (trim_space g))) [
      | inl blank ↦ rw blank rest
      | inr present ↦ rw present (rw rest (ground arith))
    ]

-- The filter excludes exactly the paths that some glob stands for.
pub excluded_iff :
    (globs : List Text) (p : Text)
    → (excluded (new_file_filter globs) p ≡ true) ↔ IsExcluded globs p
excluded_iff globs p = (excluded_sound globs p, excluded_complete globs p)

pub sum : List ℕ → ℕ
sum [] = 0
sum (n ∷ ns) = n + sum ns

abbrev is_kept : FileFilter → PrFile → Bool
is_kept f fl = not (excluded f fl.path)

filtered-keep :
    (f : FileFilter) (files : List PrFile)
    → filtered f files ≡ (keep (is_kept f) files, sum (map patch_bytes (keep (is_kept f) files)))
unfolding filtered sum
filtered-keep f [] = refl
filtered-keep f (fl ∷ fls) = elim (Bool-cases (excluded f fl.path)) [
  | inl out ↦ rw (out, filtered-keep f fls, keep-false (is_kept f) fl fls (ap not out)) refl
  | inr here ↦ rw (here, filtered-keep f fls, keep-true (is_kept f) fl fls (ap not here)) refl
]

charged_lem :
    (patch : Text) (lines : ℕ)
    → let n =
        if not (is_empty patch)
        then length patch
        else if ltb 0 lines
        then lines * avg_diff_line_bytes
        else 0 in
      (patch ≢ [] → n ≡ length patch) × (patch ≡ [] → n ≡ lines * avg_diff_line_bytes)
charged_lem [] lines = ((λ full. absurd (full refl)), λ e. ground arith)
charged_lem (c ∷ s) lines = ((λ full. refl), λ e. cc)

patch_bytes_lem :
    (fl : PrFile)
    → (fl.patch ≢ [] → patch_bytes fl ≡ length fl.patch)
      × (fl.patch ≡ [] → patch_bytes fl ≡ (fl.additions + fl.deletions) * avg_diff_line_bytes)
unfolding patch_bytes
patch_bytes_lem fl = charged_lem fl.patch (fl.additions + fl.deletions)

kept_lem :
    (globs : List Text) (files : List PrFile) (fl : PrFile)
    → In fl (keep (is_kept (new_file_filter globs)) files)
      ↔ (In fl files × (IsExcluded globs fl.path → ⊥))
kept_lem globs files fl =
    let f = new_file_filter globs in
    let (to, from) = In-keep_iff (is_kept f) fl files in
    let iff = excluded_iff globs fl.path in
    (
      (λ i. let (j, kept) = to i in (j, λ x. false-true (sym (ap not (iff.1 x)) ∙ kept))),
      (λ (j, free). from (
        j,
        elim (Bool-cases (excluded f fl.path)) [
          | inl out ↦ absurd (free (iff.0 out))
          | inr here ↦ ap not here
        ],
      )),
    )

-- The files that are kept are those that no glob covers, in the order they came in, and the size of
-- their diff is the sum of their charges: a file is charged the bytes of its diff, and one whose diff
-- is left out 50 bytes for each changed line. A glob with a slash covers the paths that it stands for,
-- and one without a slash the paths whose last element it stands for.
pub filtered-exact :
    (globs : List Text) (files : List PrFile)
    → let out = filtered (new_file_filter globs) files in
      ((fl : PrFile) → In fl out.0 ↔ (In fl files × (IsExcluded globs fl.path → ⊥)))
      × (out.0 ≡ keep (λ fl. not (excluded (new_file_filter globs) fl.path)) files)
      × (out.1 ≡ sum (map patch_bytes out.0))
      × ((fl : PrFile)
          → (fl.patch ≢ [] → patch_bytes fl ≡ length fl.patch)
            × (fl.patch ≡ []
                → patch_bytes fl ≡ (fl.additions + fl.deletions) * avg_diff_line_bytes))
filtered-exact globs files =
    let f = new_file_filter globs in
    rw (filtered-keep f files) ((λ fl. kept_lem globs files fl), refl, refl, patch_bytes_lem)
