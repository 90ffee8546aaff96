-- ===== src/Reviewer/Filter.antt =====
-- go/internal/agent/reviewer/filter.go: which changed files are reviewed, and how long their diff is.
pub mod Kept
use automation_agent.Common.{
  ℕ, ◌+◌, ◌*◌, Bool, true, false, not, List, [], ◌∷◌, ◌==◌, ltb, any, if◌then◌else◌, Text, codes,
  is_empty, trim_space, length,
}
use automation_agent.Reviewer.Globs.{Part, glob_to_regexp, match_string}
use automation_agent.Reviewer.Hunks.{PrFile}

pub record GlobPattern : Type 0 where
  pub re : List Part
  pub basename : Bool

abbrev pub FileFilter : Type 0
FileFilter = List GlobPattern

unfoldable pub pattern_of : Text → GlobPattern
pattern_of g = record { re = glob_to_regexp g; basename = not (any (λ c. c == b'/') g) }

unfoldable pub new_file_filter : List Text → FileFilter
new_file_filter [] = []
new_file_filter (g ∷ gs) =
    let rest = new_file_filter gs in
    if is_empty (trim_space g) then rest else pattern_of (trim_space g) ∷ rest

-- path.Base(p): the slashes at the end are dropped, and the last element is left.
abbrev drop_slashes : Text → Text
drop_slashes [] = []
drop_slashes (c ∷ s) =
    let rest = drop_slashes s in
    elim (c == b'/') [
      | true ↦ (elim (is_empty rest) [ true ↦ [] | false ↦ c ∷ rest ])
      | false ↦ c ∷ rest
    ]

-- What stands behind the last slash.
abbrev last_element : Text → Text
last_element [] = []
last_element (c ∷ s) = if any (λ d. d == b'/') (c ∷ s) then last_element s else c ∷ s

unfoldable pub base : Text → Text
base p =
    if is_empty p
    then codes "."
    else if is_empty (last_element (drop_slashes p))
    then codes "/"
    else last_element (drop_slashes p)

unfoldable pub target : GlobPattern → Text → Text
target pat p = if pat.basename then base p else p

unfoldable pub excluded : FileFilter → Text → Bool
unfolding target
excluded f p = any (λ pat. match_string pat.re (target pat p)) f

abbrev pub avg_diff_line_bytes : ℕ
avg_diff_line_bytes = 50

unfoldable pub patch_bytes : PrFile → ℕ
patch_bytes fl =
    if not (is_empty fl.patch)
    then length fl.patch
    else if ltb 0 (fl.additions + fl.deletions)
    then (fl.additions + fl.deletions) * avg_diff_line_bytes
    else 0

-- The files that are kept, and the size of their diff.
unfoldable pub filtered : FileFilter → List PrFile → List PrFile × ℕ
unfolding excluded patch_bytes
filtered f [] = ([], 0)
filtered f (fl ∷ fls) =
    let (kept, diff_bytes) = filtered f fls in
    if excluded f fl.path then (kept, diff_bytes) else (fl ∷ kept, patch_bytes fl + diff_bytes)
