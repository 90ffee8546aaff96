-- ===== src/Reviewer/Reports/Usable.antt =====
-- go/internal/agent/reviewer/findings.go: which findings are read from the answer of a lens.
use automation_agent.Common.{
  ◌≡◌, ◌≢◌, ◌↔◌, refl, sym, ap, ◌∙◌, Bool, true, false, Option, none, some, List, [], ◌∷◌, ◌++◌,
  map, eq_text, ◌==◌, ==_iff, if◌then◌else◌, All, Text, is_empty, is_empty-nil, is_empty-cons,
  trim_space, false-true, some-injective, none-some, subst,
}
use automation_agent.Reviewer.Findings.{Dimension}
use automation_agent.Reviewer.Marker.{lower}
use automation_agent.Reviewer.Gates.{Draft}
use automation_agent.Reviewer.Reports.{
  FindingWire, dim_other, folded, is_known, or_other, normalize_dimension, finding_of, to_findings,
  found_in, or_later, parse_findings,
}

known_or :
    (d : Dimension) (b : Bool) → is_known d ≡ b → is_known (if b then d else dim_other) ≡ true
unfolding is_known eq_text
known_or d true e = e
known_or d false e = refl

normalize_dimension-known : (s : Text) → is_known (normalize_dimension s) ≡ true
unfolding normalize_dimension or_other
normalize_dimension-known s =
    let d = map folded (map lower (trim_space s)) in known_or d (is_known d) refl

nil-cons : {A : Type 0} {x : A} {xs : List A} → x ∷ xs ≡ [] → ⊥
nil-cons e = cc

head-equal : {A : Type 0} {x y : A} {xs ys : List A} → x ∷ xs ≡ y ∷ ys → x ≡ y
head-equal e = cc

tail-equal : {A : Type 0} {x y : A} {xs ys : List A} → x ∷ xs ≡ y ∷ ys → xs ≡ ys
tail-equal e = cc

module _ {F : Type 0} where
  -- A finding that says something, of a dimension that the scorecard knows.
  abbrev pub IsUsable : Draft F → Type 0
  IsUsable f = (f.finding.message ≢ []) × (is_known f.finding.dimension ≡ true)

  abbrev pub IsBlank : FindingWire F → Type 0
  IsBlank w = trim_space w.message ≡ []

module _ {F : Type 0} (zero_confidence half one : F) (at_most less : F → F → Bool) where
  kept-IsUsable :
      (w : FindingWire F) (out : List (Draft F)) (m : Text) (b : Bool)
      → is_empty m ≡ b
      → All IsUsable out
      → All IsUsable (if b then out else finding_of zero_confidence half one at_most less w m ∷ out)
  unfolding finding_of
  kept-IsUsable w out m true e h = h
  kept-IsUsable w out m false e h = ((is_empty-cons m e, normalize_dimension-known w.dimension), h)

  to_findings-IsUsable :
      (ws : List (FindingWire F))
      → All IsUsable (to_findings zero_confidence half one at_most less ws)
  unfolding to_findings
  to_findings-IsUsable [] = tt
  to_findings-IsUsable (w ∷ ws) =
      kept-IsUsable w (to_findings zero_confidence half one at_most less ws) (trim_space w.message)
        (is_empty (trim_space w.message)) refl (to_findings-IsUsable ws)

  kept-blank :
      (w : FindingWire F) (out : List (Draft F)) (m : Text) (b : Bool)
      → is_empty m ≡ b
      → (if b then out else finding_of zero_confidence half one at_most less w m ∷ out) ≡ []
      → (m ≡ []) × (out ≡ [])
  kept-blank w out m true e h = (is_empty-nil m e, h)
  kept-blank w out m false e h = absurd (nil-cons h)

  to_findings-IsBlank :
      (ws : List (FindingWire F))
      → to_findings zero_confidence half one at_most less ws ≡ []
      → All IsBlank ws
  unfolding to_findings
  to_findings-IsBlank [] h = tt
  to_findings-IsBlank (w ∷ ws) h =
      let both =
        kept-blank w (to_findings zero_confidence half one at_most less ws) (trim_space w.message)
          (is_empty (trim_space w.message)) refl h in
      (both.0, to_findings-IsBlank ws both.1)

  IsBlank-to_findings :
      (ws : List (FindingWire F))
      → All IsBlank ws
      → to_findings zero_confidence half one at_most less ws ≡ []
  unfolding to_findings
  IsBlank-to_findings [] h = refl
  IsBlank-to_findings (w ∷ ws) h = rw (h.0) (IsBlank-to_findings ws h.1)

  module _ (decode : Text → Option (List (FindingWire F))) where
    -- Every list that stands at a bracket of the text decodes to blank records only.
    abbrev pub IsSilent : Text → Type 0
    IsSilent raw =
        (before rest : Text) (ws : List (FindingWire F))
        → raw ≡ before ++ (b'[' ∷ rest)
        → decode (b'[' ∷ rest) ≡ some ws
        → All IsBlank ws

    or_later-IsUsable :
        (out later : List (Draft F))
        → All IsUsable out
        → All IsUsable later
        → All IsUsable (or_later zero_confidence half one at_most less decode out later)
    unfolding or_later
    or_later-IsUsable [] later h k = k
    or_later-IsUsable (f ∷ out) later h k = h

    found_in-IsUsable :
        (o : Option (List (FindingWire F)))
        → All IsUsable (found_in zero_confidence half one at_most less decode o)
    unfolding found_in
    found_in-IsUsable none = tt
    found_in-IsUsable (some ws) = to_findings-IsUsable ws

    at_bracket :
        (b : Bool) (out later : List (Draft F))
        → All IsUsable out
        → All IsUsable later
        → All IsUsable
            (if b then or_later zero_confidence half one at_most less decode out later else later)
    at_bracket true out later h k = or_later-IsUsable out later h k
    at_bracket false out later h k = k

    parse_findings-IsUsable :
        (raw : Text)
        → All IsUsable (parse_findings zero_confidence half one at_most less decode raw)
    unfolding parse_findings
    parse_findings-IsUsable [] = tt
    parse_findings-IsUsable (c ∷ rest) =
        at_bracket (c == b'[')
          (found_in zero_confidence half one at_most less decode (decode (c ∷ rest)))
          (parse_findings zero_confidence half one at_most less decode rest)
          (found_in-IsUsable (decode (c ∷ rest))) (parse_findings-IsUsable rest)

    or_later-nil :
        (out later : List (Draft F))
        → or_later zero_confidence half one at_most less decode out later ≡ []
        → (out ≡ []) × (later ≡ [])
    unfolding or_later
    or_later-nil [] later h = (refl, h)
    or_later-nil (f ∷ out) later h = absurd (nil-cons h)

    later-nil :
        (b : Bool) (out later : List (Draft F))
        → (if b then or_later zero_confidence half one at_most less decode out later else later)
          ≡ []
        → later ≡ []
    later-nil true out later h = (or_later-nil out later h).1
    later-nil false out later h = h

    found-nil :
        (b : Bool) (out later : List (Draft F))
        → b ≡ true
        → (if b then or_later zero_confidence half one at_most less decode out later else later)
          ≡ []
        → out ≡ []
    found-nil true out later e h = (or_later-nil out later h).0
    found-nil false out later e h = absurd (false-true e)

    found_in-IsBlank :
        (o : Option (List (FindingWire F))) (ws : List (FindingWire F))
        → found_in zero_confidence half one at_most less decode o ≡ []
        → o ≡ some ws
        → All IsBlank ws
    unfolding found_in
    found_in-IsBlank none ws h e = absurd (none-some e)
    found_in-IsBlank (some vs) ws h e =
        subst (All IsBlank) (some-injective e) (to_findings-IsBlank vs h)

    nothing-IsSilent :
        (raw : Text)
        → parse_findings zero_confidence half one at_most less decode raw ≡ []
        → IsSilent raw
    unfolding parse_findings
    nothing-IsSilent [] h [] rest ws e d = absurd (nil-cons (sym e))
    nothing-IsSilent [] h (x ∷ before) rest ws e d = absurd (nil-cons (sym e))
    nothing-IsSilent (c ∷ r) h [] rest ws e d =
        found_in-IsBlank (decode (c ∷ r)) ws
          (found-nil (c == b'[')
            (found_in zero_confidence half one at_most less decode (decode (c ∷ r)))
            (parse_findings zero_confidence half one at_most less decode r)
            ((==_iff c b'[').1 (head-equal e)) h)
          (ap decode e ∙ d)
    nothing-IsSilent (c ∷ r) h (x ∷ before) rest ws e d =
        nothing-IsSilent r
          (later-nil (c == b'[')
            (found_in zero_confidence half one at_most less decode (decode (c ∷ r)))
            (parse_findings zero_confidence half one at_most less decode r) h)
          before rest ws (tail-equal e) d

    found_in-nil :
        (o : Option (List (FindingWire F)))
        → ((ws : List (FindingWire F)) → o ≡ some ws → All IsBlank ws)
        → found_in zero_confidence half one at_most less decode o ≡ []
    unfolding found_in
    found_in-nil none h = refl
    found_in-nil (some ws) h = IsBlank-to_findings ws (h ws refl)

    neither :
        (b : Bool) (out later : List (Draft F))
        → (b ≡ true → out ≡ [])
        → later ≡ []
        → (if b then or_later zero_confidence half one at_most less decode out later else later)
          ≡ []
    unfolding or_later
    neither true out later h k = rw (h refl) k
    neither false out later h k = k

    IsSilent-nothing :
        (raw : Text)
        → IsSilent raw
        → parse_findings zero_confidence half one at_most less decode raw ≡ []
    unfolding parse_findings
    IsSilent-nothing [] h = refl
    IsSilent-nothing (c ∷ r) h =
        neither (c == b'[') (found_in zero_confidence half one at_most less decode (decode (c ∷ r)))
          (parse_findings zero_confidence half one at_most less decode r)
          (λ e. found_in-nil (decode (c ∷ r)) (λ ws d.
            let same = (==_iff c b'[').0 e in
            h [] r ws (ap (λ x. x ∷ r) same) (ap (λ x. decode (x ∷ r)) (sym same) ∙ d)))
          (IsSilent-nothing r (λ before rest ws e d. h (c ∷ before) rest ws (ap (λ t. c ∷ t) e) d))

    -- Every finding that is read from an answer has a message and a known dimension. Nothing is read
    -- exactly when no list of findings that stands at a bracket of the answer has a record with a message,
    -- whatever stands in front of the bracket.
    pub parse_findings-IsUsable_iff :
        (raw : Text)
        → All IsUsable (parse_findings zero_confidence half one at_most less decode raw)
          × ((parse_findings zero_confidence half one at_most less decode raw ≡ []) ↔ IsSilent raw)
    parse_findings-IsUsable_iff raw =
        (parse_findings-IsUsable raw, (nothing-IsSilent raw, IsSilent-nothing raw))
