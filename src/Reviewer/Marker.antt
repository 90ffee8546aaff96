-- ===== src/Reviewer/Marker.antt =====
-- go/internal/agent/reviewer/findings.go and reconcile.go: the fingerprint of a finding, and the
-- hidden marker that carries it in a comment. Texts are bytes: letters and white space are ASCII's.
use automation_agent.Common.{
  is_space, ℕ, ◌+◌, ◌≡◌, ◌≢◌, refl, ap, sym, ◌∙◌, Bool, true, false, ◌&&◌, Option, none, some, [],
  ◌∷◌, ◌++◌, map, leb, ◌==◌, if◌then◌else◌, Text, codes, has_prefix, drop_prefix, has_prefix-append,
  drop_prefix-append, decimal_int, arith,
}
use automation_agent.Reviewer.Findings.{Finding}

abbrev pub lower : ℕ → ℕ
lower c = if leb b'A' c && leb c b'Z' then c + 32 else c

-- The fields, joined by one space: whether a field was seen, and whether there is a gap behind it.
unfoldable pub join_fields : Bool → Bool → Text → Text
join_fields started gap [] = []
join_fields started gap (c ∷ s) =
    let later = join_fields started true s in
    let rest = join_fields true false s in
    if is_space c then later else if started && gap then 32 ∷ c ∷ rest else c ∷ rest

unfoldable pub normalize_message : Text → Text
unfolding join_fields
normalize_message s = join_fields false false (map lower s)

unfoldable pub fingerprint : Finding → Text
fingerprint f = f.file ++ (b':' ∷ (decimal_int f.line ++ (b':' ∷ normalize_message f.message)))

abbrev pub marker_prefix : Text
marker_prefix = codes "<!-- ar-fp:"

abbrev pub marker_suffix : Text
marker_suffix = codes " -->"

abbrev pub fp_marker : Text → Text
fp_marker fp = marker_prefix ++ (fp ++ marker_suffix)

abbrev cons_payload : ℕ → Option Text → Option Text
cons_payload c none = none
cons_payload c (some s) = some (c ∷ s)

-- `(.+?) -->`: the shortest text of one byte or more, on one line, in front of the suffix.
unfoldable pub payload : Text → Option Text
payload [] = none
payload (c ∷ s) =
    let rest = payload s in
    if c == 10
    then none
    else if has_prefix s marker_suffix
    then some (c ∷ [])
    else cons_payload c rest

abbrev or_else : Option Text → Text → Text
or_else none t = t
or_else (some s) t = s

-- The payload of the leftmost match of the pattern, empty where there is none.
unfoldable pub parse_fp_marker : Text → Text
unfolding payload
parse_fp_marker [] = []
parse_fp_marker (c ∷ s) =
    let rest = parse_fp_marker s in
    if has_prefix (c ∷ s) marker_prefix
    then or_else (payload (drop_prefix (c ∷ s) marker_prefix)) rest
    else rest

no_prefix : has_prefix [] marker_prefix ≡ true → ⊥
unfolding has_prefix
no_prefix h = cc

-- The text is not empty and on one line, and in front of `rest` no suffix starts inside it behind
-- its first byte.
abbrev pub IsPayload : Text → Text → Type 0
IsPayload [] rest = ⊥
IsPayload (c ∷ []) rest = c ≢ 10
IsPayload (c ∷ (b ∷ s)) rest =
    (c ≢ 10) × (has_prefix (b ∷ (s ++ rest)) marker_suffix ≡ false) × IsPayload (b ∷ s) rest

-- In front of `rest` no marker starts inside the text.
abbrev pub IsQuiet : Text → Text → Type 0
IsQuiet [] rest = Unit {0}
IsQuiet (c ∷ s) rest = (has_prefix (c ∷ (s ++ rest)) marker_prefix ≡ false) × IsQuiet s rest

payload-last :
    (c : ℕ) (s : Text)
    → c ≢ 10
    → has_prefix s marker_suffix ≡ true
    → payload (c ∷ s) ≡ some (c ∷ [])
unfolding payload
payload-last c s n h = rw h (ground (arith, n))

payload-cons :
    (c : ℕ) (s p : Text)
    → c ≢ 10
    → has_prefix s marker_suffix ≡ false
    → payload s ≡ some p
    → payload (c ∷ s) ≡ some (c ∷ p)
unfolding payload
payload-cons c s p n h e = rw (h, e) (ground (arith, n))

payload_lem :
    (fp rest : Text)
    → IsPayload fp (marker_suffix ++ rest)
    → payload (fp ++ (marker_suffix ++ rest)) ≡ some fp
payload_lem [] rest h = absurd h
payload_lem (c ∷ []) rest h =
    payload-last c (marker_suffix ++ rest) h (has_prefix-append marker_suffix rest)
payload_lem (c ∷ (b ∷ s)) rest h =
    payload-cons c (b ∷ (s ++ (marker_suffix ++ rest))) (b ∷ s) h.0 h.1
      (payload_lem (b ∷ s) rest h.2)

parse_fp_marker-here :
    (s p : Text)
    → has_prefix s marker_prefix ≡ true
    → payload (drop_prefix s marker_prefix) ≡ some p
    → parse_fp_marker s ≡ p
unfolding parse_fp_marker
parse_fp_marker-here [] p h e = absurd (no_prefix h)
parse_fp_marker-here (c ∷ s) p h e = rw (h, e) refl

parse_fp_marker-skip :
    (c : ℕ) (s : Text)
    → has_prefix (c ∷ s) marker_prefix ≡ false
    → parse_fp_marker (c ∷ s) ≡ parse_fp_marker s
unfolding parse_fp_marker
parse_fp_marker-skip c s h = rw h refl

parse_fp_marker-quiet :
    (front s : Text) → IsQuiet front s → parse_fp_marker (front ++ s) ≡ parse_fp_marker s
parse_fp_marker-quiet [] s q = refl
parse_fp_marker-quiet (c ∷ front) s q =
    parse_fp_marker-skip c (front ++ s) q.0 ∙ parse_fp_marker-quiet front s q.1

append_assoc : (s t u : Text) → (s ++ t) ++ u ≡ s ++ (t ++ u)
append_assoc [] t u = refl
append_assoc (c ∷ s) t u = ap (λ r. c ∷ r) (append_assoc s t u)

fp_marker-append :
    (fp rest : Text) → fp_marker fp ++ rest ≡ marker_prefix ++ (fp ++ (marker_suffix ++ rest))
fp_marker-append fp rest =
    append_assoc marker_prefix (fp ++ marker_suffix) rest
    ∙ ap (λ r. marker_prefix ++ r) (append_assoc fp marker_suffix rest)

parse_fp_marker_lem :
    (fp rest : Text)
    → IsPayload fp (marker_suffix ++ rest)
    → parse_fp_marker (fp_marker fp ++ rest) ≡ fp
parse_fp_marker_lem fp rest h =
    ap parse_fp_marker (fp_marker-append fp rest)
    ∙ parse_fp_marker-here (marker_prefix ++ (fp ++ (marker_suffix ++ rest))) fp
        (has_prefix-append marker_prefix (fp ++ (marker_suffix ++ rest)))
        (ap payload (drop_prefix-append marker_prefix (fp ++ (marker_suffix ++ rest)))
          ∙ payload_lem fp rest h)

-- A comment is read back as the fingerprint that its marker was made from, if no other marker
-- starts in front of it, the fingerprint is one line, and ` -->` does not start inside it behind its
-- first byte.
pub parse_fp_marker-fp_marker :
    (front fp rest : Text)
    → IsQuiet front (fp_marker fp ++ rest)
    → IsPayload fp (marker_suffix ++ rest)
    → parse_fp_marker (front ++ (fp_marker fp ++ rest)) ≡ fp
parse_fp_marker-fp_marker front fp rest q h =
    parse_fp_marker-quiet front (fp_marker fp ++ rest) q ∙ parse_fp_marker_lem fp rest h

-- A fingerprint that has ` -->` in it is read back without what stands from there on.
pub parse_fp_marker-truncated :
    (front fp more rest : Text)
    → IsQuiet front (fp_marker (fp ++ (marker_suffix ++ more)) ++ rest)
    → IsPayload fp (marker_suffix ++ (more ++ (marker_suffix ++ rest)))
    → parse_fp_marker (front ++ (fp_marker (fp ++ (marker_suffix ++ more)) ++ rest)) ≡ fp
parse_fp_marker-truncated front fp more rest q h =
    parse_fp_marker-quiet front (fp_marker (fp ++ (marker_suffix ++ more)) ++ rest) q
    ∙ ap parse_fp_marker (
        fp_marker-append (fp ++ (marker_suffix ++ more)) rest
        ∙ ap (λ r. marker_prefix ++ r)
            (append_assoc fp (marker_suffix ++ more) (marker_suffix ++ rest)
              ∙ ap (λ r. fp ++ r) (append_assoc marker_suffix more (marker_suffix ++ rest)))
        ∙ sym (fp_marker-append fp (more ++ (marker_suffix ++ rest))))
    ∙ parse_fp_marker_lem fp (more ++ (marker_suffix ++ rest)) h
