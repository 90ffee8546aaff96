-- ===== src/Reviewer/Standards.antt =====
-- go/internal/agent/reviewer/standards.go: the rules of a repository, and the cache of distilled rules,
-- of which the most recently used entry stands first. Its map and its list hold the same entries.
pub mod Cache
mod Tests
use automation_agent.Common.{
  ℕ, Bool, true, false, ◌&&◌, ◌||◌, Option, none, some, List, [], ◌∷◌, any, keep, take,
  if◌then◌else◌, Text, codes, eq_text, text_eq, is_empty, trim_space, Map, lookup, insert, remove,
}
use automation_agent.Reviewer.Findings.{Dimension}
use automation_agent.Reviewer.Filter.{excluded, new_file_filter}

pub record Rule : Type 0 where
  pub id : Text
  pub dimension : Dimension
  pub summary : Text
  pub source : Text

pub record Standards : Type 0 where
  pub rules : List Rule
  pub by_id : Map Text Rule
  pub docs : Map Text Text
  pub sources : List Text

index_rules : List Rule → Map Text Rule → Map Text Rule
index_rules [] m = m
index_rules (r ∷ rs) m = index_rules rs (insert r.id r m)

-- `buildStandards`: without rules there are no standards. `sort` is `sort.Strings`.
pub build_standards :
    (List Text → List Text) → List Rule → Map Text Text → List Text → Option Standards
unfolding index_rules
build_standards sort [] docs sources = none
build_standards sort (r ∷ rs) docs sources = some (record {
  rules = r ∷ rs;
  by_id = index_rules (r ∷ rs) [];
  docs = docs;
  sources = sort sources;
})

abbrev is_there : Option Rule → Bool
is_there none = false
is_there (some r) = true

-- `validID`, with no standards too.
pub valid_id : Option Standards → Text → Bool
valid_id none id = false
valid_id (some s) id = is_there (lookup id s.by_id)

-- What the distiller emits, and `parseRules` on it: a rule needs an id that is new, and a summary.
-- `normalize` is `normalizeDimension`.
pub rules_of : (Text → Dimension) → List Text → List Rule → List Rule
rules_of normalize seen [] = []
rules_of normalize seen (w ∷ ws) =
    let id = trim_space w.id in
    let fresh = rules_of normalize (id ∷ seen) ws in
    let rest = rules_of normalize seen ws in
    if is_empty id || is_empty (trim_space w.summary) || any (eq_text id) seen
    then rest
    else record {
      id = id;
      dimension = normalize w.dimension;
      summary = trim_space w.summary;
      source = trim_space w.source;
    }
      ∷ fresh

pub record TreeEntry : Type 0 where
  pub path : Text
  pub kind : Text
  pub sha : Text

-- `matchStandards` in front of its sort: the globs are compiled and matched like those of the filter.
pub match_standards : List TreeEntry → List Text → List TreeEntry
match_standards entries globs =
    keep (λ en. eq_text en.kind (codes "blob") && excluded (new_file_filter globs) en.path) entries

abbrev pub standards_cache_max : ℕ
standards_cache_max = 32

module _ {V : Type 0} where
  touched : Text → Option V → Map Text V → Option V × Map Text V
  touched key none c = (none, c)
  touched key (some v) c = (some v, (key, v) ∷ remove key c)

  pub cache_get : Text → Map Text V → Option V × Map Text V
  unfolding touched
  cache_get key c = touched key (lookup key c) c

  abbrev is_held : Option V → Bool
  is_held none = false
  is_held (some v) = true

  -- A new entry pushes out the entries at the back that are too many.
  pub cache_put : ℕ → Text → V → Map Text V → Map Text V
  cache_put max key v c =
      if is_held (lookup key c) then (key, v) ∷ remove key c else take max ((key, v) ∷ c)

pub data CacheCall (V : Type 0) : Type 0 where
  gets : Text → CacheCall V
  puts : Text → V → CacheCall V

module _ {V : Type 0} where
  cache_step : ℕ → CacheCall V → Map Text V → Map Text V
  unfolding cache_get cache_put
  cache_step max (gets key) c = (cache_get key c).1
  cache_step max (puts key v) c = cache_put max key v c

  pub run_cache : ℕ → List (CacheCall V) → Map Text V → Map Text V
  unfolding cache_step
  run_cache max [] c = c
  run_cache max (call ∷ calls) c = run_cache max calls (cache_step max call c)
