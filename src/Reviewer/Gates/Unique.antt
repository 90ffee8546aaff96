-- ===== src/Reviewer/Gates/Unique.antt =====
-- go/internal/agent/reviewer/glue.go and standards.go: what the gates leave.
use automation_agent.Common.{
  ◌≤◌, ◌≡◌, ◌≢◌, ◌⊎◌, inl, inr, refl, sym, ap, subst, ◌∙◌, Bool, true, false, not, ◌&&◌, List, [],
  ◌∷◌, In, All, Text, eq_text, eq_text_iff, Bool-cases, if◌then◌else◌, arith, false-true,
}
use automation_agent.Reviewer.Findings.{nitpick}
use automation_agent.Reviewer.Gates.{
  Draft, severity_rank, is_conformance, fingerprint_of, gate_one, gate_citations, better, place,
  dedupe_onto, dedupe,
}

module _ {F : Type 0} where
  -- No fingerprint stands twice.
  abbrev pub IsFresh : Text → List (Draft F) → Type 0
  IsFresh fp [] = Unit {0}
  IsFresh fp (g ∷ out) = (fingerprint_of g ≢ fp) × IsFresh fp out

  abbrev pub IsUnique : List (Draft F) → Type 0
  IsUnique [] = Unit {0}
  IsUnique (g ∷ out) = IsFresh (fingerprint_of g) out × IsUnique out

  -- Some finding of the list has the fingerprint, and is at least as severe.
  abbrev pub IsCovered : Draft F → List (Draft F) → Type 0
  IsCovered f out =
      (g : Draft F) × In g out
      × (fingerprint_of g ≡ fingerprint_of f)
      × (severity_rank f.finding.severity ≤ severity_rank g.finding.severity)

  behind : (f h g : Draft F) (out : List (Draft F)) → In h (f ∷ out) → (f ≡ h) ⊎ In h (g ∷ out)
  behind f h g out (inl e) = inl e
  behind f h g out (inr i) = inr (inr i)

  passed :
      (f h g : Draft F) (out rest : List (Draft F))
      → (In h rest → (f ≡ h) ⊎ In h out)
      → In h (g ∷ rest)
      → (f ≡ h) ⊎ In h (g ∷ out)
  passed f h g out rest k (inl e) = inr (inl e)
  passed f h g out rest k (inr i) = elim (k i) [ inl e ↦ inl e | inr j ↦ inr (inr j) ]

  only_left : (h : Draft F) (fs : List (Draft F)) → In h fs ⊎ In h [] → In h fs
  only_left h fs (inl i) = i
  only_left h fs (inr i) = absurd i

  IsCovered-later : (h g : Draft F) (out : List (Draft F)) → IsCovered h out → IsCovered h (g ∷ out)
  IsCovered-later h g out (x, i, fp, rank) = (x, inr i, fp, rank)

  IsCovered-passed :
      (g h : Draft F) (out rest : List (Draft F))
      → (IsCovered h out → IsCovered h rest)
      → IsCovered h (g ∷ out)
      → IsCovered h (g ∷ rest)
  IsCovered-passed g h out rest keeps (x, inl e, fp, rank) = (x, inl e, fp, rank)
  IsCovered-passed g h out rest keeps (x, inr i, fp, rank) =
      IsCovered-later h g rest (keeps (x, i, fp, rank))

  IsCovered-replaced :
      (f g h : Draft F) (out : List (Draft F))
      → fingerprint_of g ≡ fingerprint_of f
      → severity_rank g.finding.severity ≤ severity_rank f.finding.severity
      → IsCovered h (g ∷ out)
      → IsCovered h (f ∷ out)
  IsCovered-replaced f g h out same rank (x, inl e, fp, less) = (
    f,
    inl refl,
    sym same ∙ ap (λ d. fingerprint_of d) e ∙ fp,
    omega (
      arith,
      rank,
      subst (λ d. severity_rank h.finding.severity ≤ severity_rank d.finding.severity) (sym e) less,
    ),
  )
  IsCovered-replaced f g h out same rank (x, inr i, fp, less) = (x, inr i, fp, less)

module _ {F : Type 0} (zero_confidence : F) (at_most : F → F → Bool) where
  better_rank :
      (f g : Draft F) (b : Bool)
      → better zero_confidence at_most f g ≡ b
      → (if b
          then severity_rank g.finding.severity ≤ severity_rank f.finding.severity
          else severity_rank f.finding.severity ≤ severity_rank g.finding.severity)
  unfolding better
  better_rank f g true h = ground (arith, h)
  better_rank f g false h = ground (arith, h)

  abbrev put_in : Draft F → List (Draft F) → List (Draft F)
  put_in = place zero_confidence at_most

  -- The three outcomes at the head: replaced, kept, or passed by.
  place_cases :
      (f g : Draft F) (out : List (Draft F))
      → ((fingerprint_of g ≡ fingerprint_of f)
          × (severity_rank g.finding.severity ≤ severity_rank f.finding.severity)
          × (put_in f (g ∷ out) ≡ f ∷ out))
        ⊎ (((fingerprint_of g ≡ fingerprint_of f)
              × (severity_rank f.finding.severity ≤ severity_rank g.finding.severity)
              × (put_in f (g ∷ out) ≡ g ∷ out))
            ⊎ ((fingerprint_of g ≢ fingerprint_of f) × (put_in f (g ∷ out) ≡ g ∷ put_in f out)))
  unfolding place
  place_cases f g out = elim (Bool-cases (eq_text (fingerprint_of g) (fingerprint_of f))) [
    | inl same ↦ elim (Bool-cases (better zero_confidence at_most f g)) [
      | inl wins ↦ inl (
        (eq_text_iff (fingerprint_of g) (fingerprint_of f)).0 same,
        better_rank f g true wins,
        rw (same, wins) refl,
      )
      | inr loses ↦ inr (
          inl (
            (eq_text_iff (fingerprint_of g) (fingerprint_of f)).0 same,
            better_rank f g false loses,
            rw (same, loses) refl,
          ))
    ]
    | inr differs ↦ inr (
        inr (
          (λ e. false-true (sym differs ∙ (eq_text_iff (fingerprint_of g) (fingerprint_of f)).1 e)),
          rw differs refl,
        ))
  ]

  place-IsFresh :
      (fp : Text) (f : Draft F) (out : List (Draft F))
      → fingerprint_of f ≢ fp
      → IsFresh fp out
      → IsFresh fp (put_in f out)
  unfolding place
  place-IsFresh fp f [] other fresh = (other, tt)
  place-IsFresh fp f (g ∷ out) other (apart, fresh) = elim (place_cases f g out) [
    | inl (same, rank, e) ↦ subst (IsFresh fp) (sym e) (other, fresh)
    | inr (inl (same, rank, e)) ↦ subst (IsFresh fp) (sym e) (apart, fresh)
    | inr (inr (differs, e)) ↦
        subst (IsFresh fp) (sym e) (apart, place-IsFresh fp f out other fresh)
  ]

  place-IsUnique : (f : Draft F) (out : List (Draft F)) → IsUnique out → IsUnique (put_in f out)
  unfolding place
  place-IsUnique f [] unique = (tt, tt)
  place-IsUnique f (g ∷ out) (fresh, unique) = elim (place_cases f g out) [
    | inl (same, rank, e) ↦ subst IsUnique (sym e) (subst (λ fp. IsFresh fp out) same fresh, unique)
    | inr (inl (same, rank, e)) ↦ subst IsUnique (sym e) (fresh, unique)
    | inr (inr (differs, e)) ↦ subst IsUnique (sym e) (
      place-IsFresh (fingerprint_of g) f out (λ same. differs (sym same)) fresh,
      place-IsUnique f out unique,
    )
  ]

  place-In : (f h : Draft F) (out : List (Draft F)) → In h (put_in f out) → (f ≡ h) ⊎ In h out
  unfolding place
  place-In f h [] i = i
  place-In f h (g ∷ out) i = elim (place_cases f g out) [
    | inl (same, rank, e) ↦ behind f h g out (subst (In h) e i)
    | inr (inl (same, rank, e)) ↦ inr (subst (In h) e i)
    | inr (inr (differs, e)) ↦ passed f h g out (put_in f out) (place-In f h out) (subst (In h) e i)
  ]

  -- What was covered stays covered, and the finding that is placed is covered.
  place-IsCovered :
      (f h : Draft F) (out : List (Draft F))
      → (IsCovered h out → IsCovered h (put_in f out)) × IsCovered f (put_in f out)
  unfolding place
  place-IsCovered f h [] = ((λ c. absurd c.1), (f, inl refl, refl, omega arith))
  place-IsCovered f h (g ∷ out) = elim (place_cases f g out) [
    | inl (same, rank, e) ↦
        subst (λ l. (IsCovered h (g ∷ out) → IsCovered h l) × IsCovered f l) (sym e)
          (IsCovered-replaced f g h out same rank, (f, inl refl, refl, omega arith))
    | inr (inl (same, rank, e)) ↦
        subst (λ l. (IsCovered h (g ∷ out) → IsCovered h l) × IsCovered f l) (sym e)
          ((λ c. c), (g, inl refl, same, rank))
    | inr (inr (differs, e)) ↦
        let (keeps, new) = place-IsCovered f h out in
        subst (λ l. (IsCovered h (g ∷ out) → IsCovered h l) × IsCovered f l) (sym e)
          (IsCovered-passed g h out (put_in f out) keeps, IsCovered-later f g (put_in f out) new)
  ]

  dedupe_onto-IsUnique :
      (fs out : List (Draft F))
      → IsUnique out
      → IsUnique (dedupe_onto zero_confidence at_most fs out)
  unfolding dedupe_onto
  dedupe_onto-IsUnique [] out unique = unique
  dedupe_onto-IsUnique (f ∷ fs) out unique =
      dedupe_onto-IsUnique fs (put_in f out) (place-IsUnique f out unique)

  dedupe_onto-In :
      (fs out : List (Draft F)) (h : Draft F)
      → In h (dedupe_onto zero_confidence at_most fs out)
      → In h fs ⊎ In h out
  unfolding dedupe_onto
  dedupe_onto-In [] out h i = inr i
  dedupe_onto-In (f ∷ fs) out h i = elim (dedupe_onto-In fs (put_in f out) h i) [
    | inl later ↦ inl (inr later)
    | inr placed ↦ elim (place-In f h out placed) [ inl is ↦ inl (inl is) | inr old ↦ inr old ]
  ]

  dedupe_onto-IsCovered :
      (fs out : List (Draft F)) (h : Draft F)
      → In h fs ⊎ IsCovered h out
      → IsCovered h (dedupe_onto zero_confidence at_most fs out)
  unfolding dedupe_onto
  dedupe_onto-IsCovered [] out h (inl i) = absurd i
  dedupe_onto-IsCovered [] out h (inr c) = c
  dedupe_onto-IsCovered (f ∷ fs) out h (inl (inl is)) =
      dedupe_onto-IsCovered fs (put_in f out) h
        (inr (subst (λ x. IsCovered x (put_in f out)) is (place-IsCovered f h out).1))
  dedupe_onto-IsCovered (f ∷ fs) out h (inl (inr later)) =
      dedupe_onto-IsCovered fs (put_in f out) h (inl later)
  dedupe_onto-IsCovered (f ∷ fs) out h (inr c) =
      dedupe_onto-IsCovered fs (put_in f out) h (inr ((place-IsCovered f h out).0 c))

  -- The findings that are left are among those of the lenses, no two of them have one fingerprint, and
  -- every finding of the lenses has one of its fingerprint left that is at least as severe.
  pub dedupe-IsUnique :
      (findings : List (Draft F))
      → let out = dedupe zero_confidence at_most findings in
        IsUnique out
        × ((h : Draft F) → In h out → In h findings)
        × ((h : Draft F) → In h findings → IsCovered h out)
  unfolding dedupe
  dedupe-IsUnique findings = (
    dedupe_onto-IsUnique findings [] tt,
    (λ h i. only_left h findings (dedupe_onto-In findings [] h i)),
    (λ h i. dedupe_onto-IsCovered findings [] h (inl i)),
  )

module _ {F : Type 0} (valid_id : Text → Bool) (drop_uncited : Bool) where
  abbrev pub is_uncited : Draft F → Bool
  is_uncited f = is_conformance f.finding.dimension && not (valid_id f.rule_id)

  -- A conformance finding that is more than a nitpick cites a rule.
  abbrev pub IsCited : Draft F → Type 0
  IsCited f = (is_uncited f ≡ false) ⊎ (f.finding.severity ≡ nitpick)

  kept_first :
      (g f : Draft F) (gs rest : List (Draft F))
      → (In f gs → In f rest)
      → In f (g ∷ gs)
      → In f (g ∷ rest)
  kept_first g f gs rest k (inl e) = inl e
  kept_first g f gs rest k (inr i) = inr (k i)

  -- What is cited is not the finding that is not.
  other_than :
      (g f : Draft F) (gs : List (Draft F))
      → is_uncited g ≡ true
      → is_uncited f ≡ false
      → In f (g ∷ gs)
      → In f gs
  other_than g f gs uncited cited (inl e) =
      absurd (false-true (sym cited ∙ ap is_uncited (sym e) ∙ uncited))
  other_than g f gs uncited cited (inr i) = i

  abbrev IsGated : List (Draft F) → List (Draft F) → Type 0
  IsGated gs rest = All IsCited rest × ((f : Draft F) → is_uncited f ≡ false → In f gs → In f rest)

  gate_one_lem :
      (g : Draft F) (gs rest : List (Draft F)) (uncited drops : Bool)
      → is_uncited g ≡ uncited
      → IsGated gs rest
      → IsGated (g ∷ gs) (gate_one uncited drops g rest)
  unfolding gate_one
  gate_one_lem g gs rest false drops e (all, passes) =
      ((inl e, all), λ f h i. kept_first g f gs rest (passes f h) i)
  gate_one_lem g gs rest true true e (all, passes) =
      (all, λ f h i. passes f h (other_than g f gs e h i))
  gate_one_lem g gs rest true false e (all, passes) =
      ((inr refl, all), λ f h i. inr (passes f h (other_than g f gs e h i)))

  -- Behind the gate every conformance finding that is more than a nitpick cites a rule that there is,
  -- and a finding that is no conformance finding, or cites such a rule, passes as it is.
  pub gate_citations-IsCited :
      (findings : List (Draft F))
      → All IsCited (gate_citations valid_id drop_uncited findings)
        × ((f : Draft F)
            → is_uncited f ≡ false
            → In f findings
            → In f (gate_citations valid_id drop_uncited findings))
  unfolding gate_citations
  gate_citations-IsCited [] = (tt, λ f h i. absurd i)
  gate_citations-IsCited (g ∷ gs) =
      gate_one_lem g gs (gate_citations valid_id drop_uncited gs) (is_uncited g) drop_uncited refl
        (gate_citations-IsCited gs)
