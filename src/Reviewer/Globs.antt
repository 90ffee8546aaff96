-- ===== src/Reviewer/Globs.antt =====
-- go/internal/agent/reviewer/filter.go: a glob as the regular expression it is compiled to, here the
-- list of the expression's parts, and the matcher on it. The elements of a text are characters.
pub mod Decides
pub mod Meaning
use automation_agent.Common.{
  ℕ, Bool, true, false, not, ◌&&◌, ◌||◌, List, [], ◌∷◌, ◌==◌, if◌then◌else◌, Text,
}

-- `.*`, `[^/]*`, `[^/]`, and a character, which is escaped where it has to be.
pub data Part : Type 0 where
  any_run segment_run segment_char : Part
  literal : ℕ → Part

abbrev pub part_of : ℕ → Part
part_of c = if c == b'?' then segment_char else literal c

-- The loop of `globToRegexp`: `held` says that a star was read whose successor is still to be seen.
unfoldable pub glob_parts_from : Bool → Text → List Part
glob_parts_from false [] = []
glob_parts_from true [] = segment_run ∷ []
glob_parts_from false (c ∷ g) = elim (c == b'*') [
  | true ↦ glob_parts_from true g
  | false ↦ part_of c ∷ glob_parts_from false g
]
glob_parts_from true (c ∷ g) = elim (c == b'*') [
  | true ↦ any_run ∷ glob_parts_from false g
  | false ↦ segment_run ∷ part_of c ∷ glob_parts_from false g
]

unfoldable pub glob_to_regexp : Text → List Part
unfolding glob_parts_from
glob_to_regexp glob = glob_parts_from false glob

-- A dot does not match a new line.
abbrev pub in_line : ℕ → Bool
in_line c = not (c == 10)

abbrev pub in_segment : ℕ → Bool
in_segment c = not (c == b'/')

-- A run of characters that pass, and then the rest.
unfoldable pub run_then : (ℕ → Bool) → (Text → Bool) → Text → Bool
run_then ok rest [] = rest []
run_then ok rest (c ∷ s) = let more = run_then ok rest s in rest (c ∷ s) || (ok c && more)

abbrev one_then : (ℕ → Bool) → (Text → Bool) → Text → Bool
one_then ok rest [] = false
one_then ok rest (c ∷ s) = ok c && rest s

abbrev at_end : Text → Bool
at_end [] = true
at_end (c ∷ s) = false

-- `MatchString` of the expression, which is anchored at both ends.
unfoldable pub match_string : List Part → Text → Bool
unfolding run_then
match_string [] s = at_end s
match_string (any_run ∷ ps) s = run_then in_line (match_string ps) s
match_string (segment_run ∷ ps) s = run_then in_segment (match_string ps) s
match_string (segment_char ∷ ps) s = one_then in_segment (match_string ps) s
match_string (literal c ∷ ps) s = one_then (λ d. d == c) (match_string ps) s
