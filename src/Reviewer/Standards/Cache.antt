-- ===== src/Reviewer/Standards/Cache.antt =====
-- go/internal/agent/reviewer/standards.go: the cache is bounded, and finds what was put last.
use automation_agent.Common.{
  ℕ, zero, suc, ◌≤◌, ◌≡◌, inl, inr, refl, sym, subst, ◌∙◌, Option, none, some, List, [], ◌∷◌, take,
  length, length-take, if◌then◌else◌, Text, eq_text, eq_text_refl, text_eq, Map, lookup, remove,
  Bool-cases, none-some, arith,
}
use automation_agent.Reviewer.Standards.{
  touched, cache_get, is_held, cache_put, CacheCall, gets, puts, cache_step, run_cache,
}

not_one : 1 ≤ 0 → ⊥
not_one h = omega (arith, h)

module _ {V : Type 0} where
  length-remove : (key : Text) (c : Map Text V) → length (remove key c) ≤ length c
  unfolding remove
  length-remove key [] = omega arith
  length-remove key ((k, v) ∷ c) = ground (arith, length-remove key c)

  -- An entry that is held is removed.
  length-remove_held :
      (key : Text) (v : V) (c : Map Text V)
      → lookup key c ≡ some v
      → suc (length (remove key c)) ≤ length c
  unfolding remove lookup
  length-remove_held key v [] e = absurd (none-some e)
  length-remove_held key v ((k, u) ∷ c) e = elim (Bool-cases (eq_text k key)) [
    | inl here ↦ rw here (ground (arith, length-remove key c))
    | inr other ↦ rw other (ground (arith, length-remove_held key v c (rw other at e)))
  ]

  touched-bounded :
      (max : ℕ) (key : Text) (o : Option V) (c : Map Text V)
      → lookup key c ≡ o
      → length c ≤ max
      → length (touched key o c).1 ≤ max
  unfolding touched
  touched-bounded max key none c e h = h
  touched-bounded max key (some v) c e h = omega (arith, length-remove_held key v c e, h)

  cache_put-bounded :
      (max : ℕ) (key : Text) (v : V) (o : Option V) (c : Map Text V)
      → lookup key c ≡ o
      → length c ≤ max
      → length (if is_held o then (key, v) ∷ remove key c else take max ((key, v) ∷ c)) ≤ max
  cache_put-bounded max key v none c e h =
      subst (λ n. n ≤ max) (sym (length-take max ((key, v) ∷ c))) (omega arith)
  cache_put-bounded max key v (some u) c e h = omega (arith, length-remove_held key u c e, h)

  cache_step-bounded :
      (max : ℕ) (call : CacheCall V) (c : Map Text V)
      → length c ≤ max
      → length (cache_step max call c) ≤ max
  unfolding cache_step cache_get cache_put
  cache_step-bounded max (gets key) c h = touched-bounded max key (lookup key c) c refl h
  cache_step-bounded max (puts key v) c h = cache_put-bounded max key v (lookup key c) c refl h

  run_cache-bounded :
      (max : ℕ) (calls : List (CacheCall V)) (c : Map Text V)
      → length c ≤ max
      → length (run_cache max calls c) ≤ max
  unfolding run_cache
  run_cache-bounded max [] c h = h
  run_cache-bounded max (call ∷ calls) c h =
      run_cache-bounded max calls (cache_step max call c) (cache_step-bounded max call c h)

  get_behind :
      (max : ℕ) (key : Text) (v : V) (o : Option V) (c : Map Text V)
      → 1 ≤ max
      → lookup key (if is_held o then (key, v) ∷ remove key c else take max ((key, v) ∷ c)) ≡ some v
  unfolding lookup
  get_behind zero key v o c h = absurd (not_one h)
  get_behind (suc max) key v none c h = rw (eq_text_refl key) refl
  get_behind (suc max) key v (some u) c h = rw (eq_text_refl key) refl

  touched-first : (key : Text) (o : Option V) (c : Map Text V) → (touched key o c).0 ≡ o
  unfolding touched
  touched-first key none c = refl
  touched-first key (some v) c = refl

  -- Over every sequence of calls on an empty cache: it never holds more entries than its maximum, and,
  -- if that is at least 1, what was put last is found.
  pub run_cache-IsBounded :
      (max : ℕ) (calls : List (CacheCall V)) (key : Text) (v : V)
      → 1 ≤ max
      → let c = run_cache max calls [] in
        (length c ≤ max) × ((cache_get key (cache_put max key v c)).0 ≡ some v)
  unfolding cache_get cache_put
  run_cache-IsBounded max calls key v h =
      let c = run_cache max calls [] in
      (
        run_cache-bounded max calls [] (omega arith),
        touched-first key (lookup key (cache_put max key v c)) (cache_put max key v c)
            ∙ get_behind max key v (lookup key c) c h,
      )
