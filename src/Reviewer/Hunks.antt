-- ===== src/Reviewer/Hunks.antt =====
-- go/internal/agent/reviewer/hunks.go and sizegate.go: the lines of a patch that a comment can stand
-- on, and the gate on the size of a diff. A set of lines is a list.
pub mod Lines
mod Tests
use automation_agent.Common.{
  ℕ, ◌+◌, Bool, false, ◌&&◌, ◌||◌, Option, none, some, List, [], ◌∷◌, ◌++◌, any, leb, ltb, ◌==◌,
  if◌then◌else◌, Text, codes, atoi, has_prefix, Map, lookup, insert, text_eq,
}

-- strings.Split(s, "\n"), the first line apart from the others.
cons_line : ℕ → Text × List Text → Text × List Text
cons_line c (line, lines) = if c == 10 then ([], line ∷ lines) else (c ∷ line, lines)

split_first : Text → Text × List Text
unfolding cons_line
split_first [] = ([], [])
split_first (c ∷ s) = cons_line c (split_first s)

pub split_lines : Text → List Text
unfolding split_first
split_lines s = let (line, lines) = split_first s in line ∷ lines

-- What stands behind the first `+`.
behind_plus : Text → Option Text
behind_plus [] = none
behind_plus (c ∷ s) = let rest = behind_plus s in if c == b'+' then some s else rest

-- What stands in front of the first blank or comma.
up_to_break : Text → Text
up_to_break [] = []
up_to_break (c ∷ s) = let rest = up_to_break s in if c == 32 || c == b',' then [] else c ∷ rest

-- `n <= 0` is refused: the word of a negative number is from 2 ^ 63 on.
positive : Option ℕ → Option ℕ
positive none = none
positive (some n) = if leb 1 n && ltb n (9223372036854775808) then some n else none

start_of : Option Text → Option ℕ
unfolding positive up_to_break
start_of none = none
start_of (some rest) = positive (atoi (up_to_break rest))

-- The first new line of a hunk, `none` where the header cannot be parsed.
pub parse_hunk_new_start : Text → Option ℕ
unfolding start_of behind_plus
parse_hunk_new_start header = start_of (behind_plus header)

pub data LineKind : Type 0 where
  hunk_header added removed context metadata unexpected : LineKind

pub line_kind : Text → LineKind
line_kind line =
    if has_prefix line (codes "@@")
    then hunk_header
    else if has_prefix line (codes "+")
    then added
    else if has_prefix line (codes "-")
    then removed
    else if has_prefix line (codes " ")
    then context
    else if has_prefix line (codes "\\")
    then metadata
    else unexpected

-- The state of the loop is the number of the next new line, `none` outside a hunk.
abbrev pub after_line : Text → LineKind → Option ℕ → Option ℕ
after_line line hunk_header at' = parse_hunk_new_start line
after_line line k none = none
after_line line added (some n) = some (n + 1)
after_line line removed (some n) = some n
after_line line context (some n) = some (n + 1)
after_line line metadata (some n) = some n
after_line line unexpected (some n) = none

abbrev pub line_of : LineKind → Option ℕ → List ℕ
line_of added (some n) = n ∷ []
line_of context (some n) = n ∷ []
line_of k at' = []

pub walk : Option ℕ → List Text → List ℕ
unfolding line_kind
walk at' [] = []
walk at' (line ∷ lines) =
    let rest = walk (after_line line (line_kind line) at') lines in
    line_of (line_kind line) at' ++ rest

pub commentable_lines : Text → List ℕ
unfolding walk split_lines
commentable_lines patch = walk none (split_lines patch)

pub record PrFile : Type 0 where
  pub path : Text
  pub additions : ℕ
  pub deletions : ℕ
  pub patch : Text

pub new_diff_index : List PrFile → Map Text (List ℕ) → Map Text (List ℕ)
unfolding commentable_lines
new_diff_index [] index = index
new_diff_index (f ∷ fs) index = new_diff_index fs (insert f.path (commentable_lines f.patch) index)

holds_line : Option (List ℕ) → ℕ → Bool
holds_line none line = false
holds_line (some lines) line = any (λ n. n == line) lines

pub in_diff : Map Text (List ℕ) → Text → ℕ → Bool
unfolding holds_line
in_diff index file line = holds_line (lookup file index) line

-- Whether a review is denied. A cap that is not positive is off.
pub oversize : ℕ → ℕ → ℕ → ℕ → Bool
oversize file_count diff_bytes max_files max_diff_bytes =
    (leb 1 max_files && ltb max_files file_count)
    || (leb 1 max_diff_bytes && ltb max_diff_bytes diff_bytes)
