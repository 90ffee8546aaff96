-- ===== src/Fixflow/Keys.antt =====
-- go/internal/agent/fixflow/driver.go: the text by which a parked run is found from its PR.
use automation_agent.Common.{
  ℕ, ◌^◌, ◌<◌, ◌≡◌, ◌≢◌, [], ◌∷◌, ◌++◌, ◌==◌, if◌then◌else◌, Text, atoi_value, atoi_value-decimal,
  decimal, ℤ, pos, arith,
}

-- strings.Cut(s, sep) at one byte: what stands before the first `sep` and behind it.
unfoldable pub before : ℕ → Text → Text
before sep [] = []
before sep (c ∷ s) = let rest = before sep s in if c == sep then [] else c ∷ rest

unfoldable pub after : ℕ → Text → Text
after sep [] = []
after sep (c ∷ s) = let rest = after sep s in if c == sep then s else rest

unfoldable pub pr_key : Text → ℕ → Text
pr_key full_repo number = full_repo ++ b'#' ∷ decimal number

-- The error of `Atoi` is dropped, and what it returns beside the error is kept.
pub split_pr_key : Text → Text × ℤ
split_pr_key key = (before b'#' key, atoi_value (after b'#' key))

-- The byte does not occur in the text.
abbrev pub IsFree : ℕ → Text → Type 0
IsFree sep [] = Unit {0}
IsFree sep (c ∷ s) = (c ≢ sep) × IsFree sep s

pub before-append : (sep : ℕ) (s t : Text) → IsFree sep s → before sep (s ++ sep ∷ t) ≡ s
unfolding before
before-append sep [] t h = ground arith
before-append sep (c ∷ s) t h = ground (arith, h, before-append sep s t h.1)

pub after-append : (sep : ℕ) (s t : Text) → IsFree sep s → after sep (s ++ sep ∷ t) ≡ t
unfolding after
after-append sep [] t h = ground arith
after-append sep (c ∷ s) t h = ground (arith, h, after-append sep s t h.1)

-- A timed-out run is reported on the repository and the PR that its key was made from, if the
-- repository's name has no `#` and the number is an int64.
pub split_pr_key-pr_key :
    (full_repo : Text) (number : ℕ)
    → IsFree b'#' full_repo
    → number < 2 ^ 63
    → split_pr_key (pr_key full_repo number) ≡ (full_repo, pos number)
unfolding split_pr_key pr_key
split_pr_key-pr_key full_repo number h l = rw (
  before-append b'#' full_repo (decimal number) h,
  after-append b'#' full_repo (decimal number) h,
  atoi_value-decimal number l,
)
