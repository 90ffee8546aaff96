-- ===== src/Reviewer/Standards/Tests.antt =====
-- go/internal/agent/reviewer/standards.go: three rule sets in a cache of two.
use automation_agent.Common.{ℕ, ◌≤◌, ◌≡◌, some, List, [], ◌∷◌, length, codes, arith}
use automation_agent.Reviewer.Standards.{CacheCall, gets, puts, cache_get, cache_put, run_cache}
use automation_agent.Reviewer.Standards.Cache.{run_cache-IsBounded}

abbrev three_calls : List (CacheCall ℕ)
three_calls = puts (codes "a") 1 ∷ puts (codes "b") 2 ∷ gets (codes "a") ∷ puts (codes "c") 3 ∷ []

run_cache-IsBounded_example :
    let c = run_cache 2 three_calls [] in
    (length c ≤ 2) × ((cache_get (codes "b") (cache_put 2 (codes "b") 9 c)).0 ≡ some 9)
run_cache-IsBounded_example = run_cache-IsBounded 2 three_calls (codes "b") 9 (omega arith)
