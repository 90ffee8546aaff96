-- ===== src/Reviewer/Globs/Decides.antt =====
-- go/internal/agent/reviewer/filter.go: what the parts of an expression stand for, and that the matcher decides it.
use automation_agent.Common.{
  ℕ, ◌≡◌, ◌↔◌, inl, inr, refl, ap, subst, sym, Bool, true, List, [], ◌∷◌, ◌++◌, ◌==◌, Text, All,
  Bool-cases, arith,
}
use automation_agent.Reviewer.Globs.{
  Part, any_run, segment_run, segment_char, literal, in_line, in_segment, run_then, one_then,
  at_end, match_string,
}

abbrev pub Passes : (ℕ → Bool) → Text → Type 0
Passes ok s = All (λ c. ok c ≡ true) s

-- The text splits into a run of characters that pass and a rest.
abbrev pub Run : (ℕ → Bool) → (Text → Type 0) → Text → Type 0
Run ok Rest s = (front : Text) × (rest : Text) × (s ≡ front ++ rest) × Passes ok front × Rest rest

-- The text is a character that passes and a rest.
abbrev pub One : (ℕ → Bool) → (Text → Type 0) → Text → Type 0
One ok Rest s = (c : ℕ) × (rest : Text) × (s ≡ c ∷ rest) × (ok c ≡ true) × Rest rest

-- The texts that the parts stand for, one after another.
abbrev pub Denotes : List Part → Text → Type 0
Denotes [] s = s ≡ []
Denotes (any_run ∷ ps) s = Run in_line (Denotes ps) s
Denotes (segment_run ∷ ps) s = Run in_segment (Denotes ps) s
Denotes (segment_char ∷ ps) s = One in_segment (Denotes ps) s
Denotes (literal c ∷ ps) s = One (λ d. d == c) (Denotes ps) s

module _ (ok : ℕ → Bool) (rest : Text → Bool) (Rest : Text → Type 0)
    (decides : (s : Text) → (rest s ≡ true) ↔ Rest s) where
  longer : (c : ℕ) (s : Text) → ok c ≡ true → Run ok Rest s → Run ok Rest (c ∷ s)
  longer c s passes (front, back, e, all, r) =
      (c ∷ front, back, ap (λ t. c ∷ t) e, (passes, all), r)

  run_then-Run : (s : Text) → run_then ok rest s ≡ true → Run ok Rest s
  unfolding run_then
  run_then-Run [] h = ([], [], refl, tt, (decides []).0 h)
  run_then-Run (c ∷ s) h = elim (Bool-cases (rest (c ∷ s))) [
    | inl here ↦ ([], c ∷ s, refl, tt, (decides (c ∷ s)).0 here)
    | inr no_rest ↦
        longer c s (ground (arith, h, no_rest)) (run_then-Run s (ground (arith, h, no_rest)))
  ]

  run_then_append :
      (front back : Text) → Passes ok front → Rest back → run_then ok rest (front ++ back) ≡ true
  unfolding run_then
  run_then_append [] [] all r = (decides []).1 r
  run_then_append [] (c ∷ s) all r = rw ((decides (c ∷ s)).1 r) refl
  run_then_append (c ∷ front) back all r =
      let more = run_then_append front back all.1 r in ground (arith, more, all.0)

  run_then_iff : (s : Text) → (run_then ok rest s ≡ true) ↔ Run ok Rest s
  run_then_iff s =
      (run_then-Run s, λ (front, back, e, all, r). rw e (run_then_append front back all r))

  one_then_iff : (s : Text) → (one_then ok rest s ≡ true) ↔ One ok Rest s
  one_then_iff [] = ((λ h. cc), λ (c, back, e, passes, r). cc)
  one_then_iff (c ∷ s) = (
    (λ h. (c, s, refl, ground (arith, h), (decides s).0 (ground (arith, h)))),
    λ (d, back, e, passes, r).
        subst (λ t. one_then ok rest t ≡ true) (sym e) (rw (passes, (decides back).1 r) refl),
  )

at_end_iff : (s : Text) → (at_end s ≡ true) ↔ (s ≡ [])
at_end_iff [] = ((λ h. refl), λ h. refl)
at_end_iff (c ∷ s) = ((λ h. cc), λ h. cc)

-- The matcher accepts exactly the texts that the parts stand for.
pub match_string_iff : (ps : List Part) (s : Text) → (match_string ps s ≡ true) ↔ Denotes ps s
unfolding match_string
match_string_iff [] s = at_end_iff s
match_string_iff (any_run ∷ ps) s =
    run_then_iff in_line (match_string ps) (Denotes ps) (match_string_iff ps) s
match_string_iff (segment_run ∷ ps) s =
    run_then_iff in_segment (match_string ps) (Denotes ps) (match_string_iff ps) s
match_string_iff (segment_char ∷ ps) s =
    one_then_iff in_segment (match_string ps) (Denotes ps) (match_string_iff ps) s
match_string_iff (literal c ∷ ps) s =
    one_then_iff (λ d. d == c) (match_string ps) (Denotes ps) (match_string_iff ps) s
