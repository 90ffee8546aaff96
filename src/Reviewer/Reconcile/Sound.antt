-- ===== src/Reviewer/Reconcile/Sound.antt =====
-- go/internal/agent/reviewer/reconcile.go: what is posted, what is minimized, and that a second
-- run over the same findings does neither.
use automation_agent.Common.{
  false-true, ℕ, ◌≡◌, ◌≢◌, ◌⊎◌, ◌↔◌, inl, inr, refl, sym, ap, ◌∙◌, subst, Bool, true, false, ◌&&◌,
  ◌||◌, not, List, [], ◌∷◌, ◌++◌, map, Map, lookup, lookup-insert, Text, codes, text_eq, eq_text,
  eq_text_iff, eq_text_refl, is_empty, In, In-append_left, In-append_right, In-append_cases,
  In-keep_iff, In-map, In-map_inverse, any, arith, Bool-cases,
}
use automation_agent.Reviewer.Findings.{Finding}
use automation_agent.Reviewer.Marker.{
  fingerprint, fp_marker, marker_suffix, parse_fp_marker, IsQuiet, IsPayload,
  parse_fp_marker-fp_marker,
}
use automation_agent.Reviewer.Reconcile.{
  ReviewCommentRef, or_nil, add_comment, add_comments, is_held, is_current, outdated, insert_text,
  sort_texts, reconcile,
}

false_of : {b : Bool} → (b ≡ true → ⊥) → b ≡ false
false_of {b = true} h = absurd (h refl)
false_of {b = false} h = refl

not-both : {b : Bool} → b ≡ true → not b ≡ true → ⊥
not-both h k = ground (arith, h, k)

not-of_false : {b : Bool} → (b ≡ true → ⊥) → not b ≡ true
not-of_false {b = true} h = absurd (h refl)
not-of_false {b = false} h = refl

-- The comment carries the fingerprint.
abbrev carries : Text → ReviewCommentRef → Bool
carries fp rc = not (is_empty (parse_fp_marker rc.body)) && eq_text (parse_fp_marker rc.body) fp

-- Some comment carries the fingerprint.
abbrev pub IsCarried : Text → List ReviewCommentRef → Type 0
IsCarried fp rcs = (rc : ReviewCommentRef) × In rc rcs × (parse_fp_marker rc.body ≡ fp)

is_held-add_comment :
    (fp : Text) (rc : ReviewCommentRef) (have : Map Text (List Text))
    → is_held (lookup fp (add_comment rc have)) ≡ (carries fp rc || is_held (lookup fp have))
unfolding add_comment
is_held-add_comment fp rc have = elim (Bool-cases (is_empty (parse_fp_marker rc.body))) [
  | inl e ↦ rw e refl
  | inr e ↦
      rw
        (
          e,
          lookup-insert (parse_fp_marker rc.body) fp
              (or_nil (lookup (parse_fp_marker rc.body) have) ++ rc.node_id ∷ []) have,
        )
        (elim (Bool-cases (eq_text (parse_fp_marker rc.body) fp)) [
          | inl k ↦ rw k refl
          | inr k ↦ rw k refl
        ])
]

is_held-add_comments :
    (fp : Text) (rcs : List ReviewCommentRef) (have : Map Text (List Text))
    → is_held (lookup fp (add_comments rcs have))
      ≡ (any (carries fp) rcs || is_held (lookup fp have))
unfolding add_comments
is_held-add_comments fp [] have = refl
is_held-add_comments fp (rc ∷ rcs) have =
    ground
      (arith, is_held-add_comment fp rc have, is_held-add_comments fp rcs (add_comment rc have))

In-snoc_iff : (x y : Text) (xs : List Text) → In x (xs ++ y ∷ []) ↔ (In x xs ⊎ (y ≡ x))
In-snoc_iff x y xs = (
  λ h. elim (In-append_cases x xs (y ∷ []) h) [
    | inl i ↦ inl i
    | inr (inl e) ↦ inr e
    | inr (inr z) ↦ absurd z
  ],
  λ h. elim h [
    | inl i ↦ In-append_left x xs (y ∷ []) i
    | inr e ↦ In-append_right x xs (y ∷ []) (inl e)
  ],
)

abbrev Ids : Text → Text → Map Text (List Text) → Type 0
Ids id fp have = In id (or_nil (lookup fp have))

-- A comment keeps the ids of every fingerprint, and adds its own id to those of the one it carries.
In-add_comment :
    (id fp : Text) (rc : ReviewCommentRef) (have : Map Text (List Text))
    → Ids id fp (add_comment rc have)
      ↔ (Ids id fp have ⊎ ((carries fp rc ≡ true) × (rc.node_id ≡ id)))
unfolding add_comment
In-add_comment id fp rc have = elim (Bool-cases (is_empty (parse_fp_marker rc.body))) [
  | inl e ↦ rw e ((λ h. inl h), λ h. elim h [ inl i ↦ i | inr (c, _) ↦ absurd (false-true c) ])
  | inr e ↦
      rw
        (
          e,
          lookup-insert (parse_fp_marker rc.body) fp
              (or_nil (lookup (parse_fp_marker rc.body) have) ++ rc.node_id ∷ []) have,
        )
        (elim (Bool-cases (eq_text (parse_fp_marker rc.body) fp)) [
          | inr k ↦
              rw k ((λ h. inl h), λ h. elim h [ inl i ↦ i | inr (c, _) ↦ absurd (false-true c) ])
          | inl k ↦
              let snoc =
                subst
                  (λ q.
                    In id (or_nil (lookup (parse_fp_marker rc.body) have) ++ rc.node_id ∷ [])
                    ↔ (Ids id q have ⊎ (rc.node_id ≡ id)))
                  ((eq_text_iff (parse_fp_marker rc.body) fp).0 k)
                  (In-snoc_iff id rc.node_id (or_nil (lookup (parse_fp_marker rc.body) have))) in
              rw k (
                (λ h. elim (snoc.0 h) [ inl i ↦ inl i | inr n ↦ inr (refl, n) ]),
                λ h. snoc.1 (elim h [ inl i ↦ inl i | inr (_, n) ↦ inr n ]),
              )
        ])
]

-- The ids under a fingerprint are those of the comments that carry it.
In-add_comments :
    (id fp : Text) (rcs : List ReviewCommentRef) (have : Map Text (List Text))
    → Ids id fp (add_comments rcs have) ↔ (
        Ids id fp have
        ⊎ ((rc : ReviewCommentRef) × In rc rcs × (carries fp rc ≡ true) × (rc.node_id ≡ id)))
unfolding add_comments
In-add_comments id fp [] have =
    ((λ h. inl h), λ h. elim h [ inl i ↦ i | inr (_, z, _, _) ↦ absurd z ])
In-add_comments id fp (rc ∷ rcs) have =
    let (there, back) = In-add_comments id fp rcs (add_comment rc have) in
    let (one, own) = In-add_comment id fp rc have in
    (
      λ h. elim (there h) [
        | inr (r, i, c, n) ↦ inr (r, inr i, c, n)
        | inl i ↦ elim (one i) [ inl k ↦ inl k | inr (c, n) ↦ inr (rc, inl refl, c, n) ]
      ],
      λ h. back (elim h [
        | inl i ↦ inl (own (inl i))
        | inr (r, inl same, c, n) ↦
            inl (own (inr (ap (carries fp) same ∙ c, ap (λ x. x.node_id) same ∙ n)))
        | inr (r, inr i, c, n) ↦ inr (r, i, c, n)
      ]),
    )

any-In :
    {A : Type 0} (p : A → Bool) (xs : List A)
    → (any p xs ≡ true) ↔ ((x : A) × In x xs × (p x ≡ true))
any-In p [] = ((λ h. cc), λ h. absurd h.1)
any-In p (x ∷ xs) = (
  λ h. elim (Bool-cases (p x)) [
    | inl e ↦ (x, inl refl, e)
    | inr e ↦ let (y, i, k) = (any-In p xs).0 (ground (arith, h, e)) in (y, inr i, k)
  ],
  λ (y, i, k). elim i [
    | inl same ↦ ground (arith, ap p same, k)
    | inr later ↦ ground (arith, (any-In p xs).1 (y, later, k))
  ],
)

is_empty-cons : (s t : Text) (c : ℕ) → is_empty (s ++ (c ∷ t)) ≡ false
is_empty-cons [] t c = refl
is_empty-cons (b ∷ s) t c = refl

is_empty-fingerprint : (f : Finding) → is_empty (fingerprint f) ≡ false
unfolding fingerprint
is_empty-fingerprint f = is_empty-cons f.file _ b':'

carries_iff :
    (fp : Text) (rc : ReviewCommentRef)
    → is_empty fp ≡ false
    → (carries fp rc ≡ true) ↔ (parse_fp_marker rc.body ≡ fp)
carries_iff fp rc n = (
  λ h. (eq_text_iff (parse_fp_marker rc.body) fp).0 (ground (arith, h)),
  λ e. rw (e, n) (eq_text_refl fp),
)

is_held_iff :
    (fp : Text) (rcs : List ReviewCommentRef)
    → is_empty fp ≡ false
    → (is_held (lookup fp (add_comments rcs [])) ≡ true) ↔ IsCarried fp rcs
unfolding lookup
is_held_iff fp rcs n =
    let holds = is_held-add_comments fp rcs [] in
    (
      λ h.
          let (rc, i, c) = (any-In (carries fp) rcs).0 (ground (arith, h, holds)) in
          (rc, i, (carries_iff fp rc n).0 c),
      λ (rc, i, e).
          ground (arith, holds, (any-In (carries fp) rcs).1 (rc, i, (carries_iff fp rc n).1 e)),
    )

-- A finding is posted exactly where it is one of this run's and no comment carries its fingerprint.
pub In-to_post_iff :
    (findings : List Finding) (existing : List ReviewCommentRef) (f : Finding)
    → In f (reconcile findings existing).to_post
      ↔ (In f findings × (IsCarried (fingerprint f) existing → ⊥))
unfolding reconcile
In-to_post_iff findings existing f =
    let held = is_held_iff (fingerprint f) existing (is_empty-fingerprint f) in
    let (there, back) =
      In-keep_iff (λ g. not (is_held (lookup (fingerprint g) (add_comments existing [])))) f
        findings in
    (
      λ h. let (i, k) = there h in (i, λ c. not-both (held.1 c) k),
      λ (i, free). back (i, not-of_false (λ e. free (held.0 e))),
    )

In-lookup :
    (fp : Text) (have : Map Text (List Text)) (id : Text)
    → Ids id fp have
    → In fp (map (λ e. e.0) have)
unfolding lookup
In-lookup fp [] id h = h
In-lookup fp ((k, ids) ∷ have) id h = elim (Bool-cases (eq_text k fp)) [
  | inl e ↦ inl ((eq_text_iff k fp).0 e)
  | inr e ↦ inr (In-lookup fp have id (rw e at h))
]

In-outdated_iff :
    (findings : List Finding) (have : Map Text (List Text)) (fps : List Text) (id : Text)
    → In id (outdated findings have fps)
      ↔ ((fp : Text) × In fp fps × (is_current findings fp ≡ false) × Ids id fp have)
unfolding outdated
In-outdated_iff findings have [] id = ((λ h. absurd h), λ h. absurd h.1)
In-outdated_iff findings have (fp ∷ fps) id = elim (Bool-cases (is_current findings fp)) [
  | inl e ↦ rw e (
    (λ h. let (k, i, c, d) = (In-outdated_iff findings have fps id).0 h in (k, inr i, c, d)),
    λ (k, i, c, d). elim i [
      | inl same ↦ absurd (false-true (sym c ∙ ap (is_current findings) (sym same) ∙ e))
      | inr later ↦ (In-outdated_iff findings have fps id).1 (k, later, c, d)
    ],
  )
  | inr e ↦ rw e (
    (λ h. elim (In-append_cases id (or_nil (lookup fp have)) (outdated findings have fps) h) [
      | inl here ↦ (fp, inl refl, e, here)
      | inr there ↦
          let (k, i, c, d) = (In-outdated_iff findings have fps id).0 there in (k, inr i, c, d)
    ]),
    λ (k, i, c, d). elim i [
      | inl same ↦
          In-append_left id (or_nil (lookup fp have)) (outdated findings have fps)
            (subst (λ q. Ids id q have) (sym same) d)
      | inr later ↦
          In-append_right id (or_nil (lookup fp have)) (outdated findings have fps)
            ((In-outdated_iff findings have fps id).1 (k, later, c, d))
    ],
  )
]

In-insert_text_iff : (x s : Text) (ss : List Text) → In x (insert_text s ss) ↔ ((s ≡ x) ⊎ In x ss)
unfolding insert_text
In-insert_text_iff x s [] = ((λ h. h), λ h. h)
In-insert_text_iff x s (r ∷ rs) = ground (arith, In-insert_text_iff x s rs)

In-sort_texts_iff : (x : Text) (ss : List Text) → In x (sort_texts ss) ↔ In x ss
unfolding sort_texts
In-sort_texts_iff x [] = ((λ h. h), λ h. h)
In-sort_texts_iff x (s ∷ ss) =
    ground (arith, In-insert_text_iff x s (sort_texts ss), In-sort_texts_iff x ss)

-- The comment carries a fingerprint, and it is none of this run's.
abbrev pub IsGone : List Finding → ReviewCommentRef → Type 0
IsGone findings rc =
    (is_empty (parse_fp_marker rc.body) ≡ false)
    × ((f : Finding) → In f findings → fingerprint f ≢ parse_fp_marker rc.body)

is_current_iff :
    (findings : List Finding) (fp : Text)
    → (is_current findings fp ≡ false) ↔ ((f : Finding) → In f findings → fingerprint f ≢ fp)
is_current_iff findings fp = (
  λ h f i e. false-true (
      sym h
      ∙ (any-In (λ g. eq_text (fingerprint g) fp) findings).1
          (f, i, (eq_text_iff (fingerprint f) fp).1 e)),
  λ h. false_of (λ c.
      let (f, i, e) = (any-In (λ g. eq_text (fingerprint g) fp) findings).0 c in
      h f i ((eq_text_iff (fingerprint f) fp).0 e)),
)

carries-parts :
    (fp : Text) (rc : ReviewCommentRef)
    → carries fp rc ≡ true
    → (is_empty (parse_fp_marker rc.body) ≡ false) × (parse_fp_marker rc.body ≡ fp)
carries-parts fp rc h =
    (ground (arith, h), (eq_text_iff (parse_fp_marker rc.body) fp).0 (ground (arith, h)))

-- An id is minimized exactly where it is that of a comment whose fingerprint is none of this run's:
-- comments without a marker are left alone.
pub In-to_minimize_iff :
    (findings : List Finding) (existing : List ReviewCommentRef) (id : Text)
    → In id (reconcile findings existing).to_minimize
      ↔ ((rc : ReviewCommentRef) × In rc existing × (rc.node_id ≡ id) × IsGone findings rc)
unfolding reconcile lookup
In-to_minimize_iff findings existing id =
    let have = add_comments existing [] in
    let fps : List Text = map (λ e. e.0) have in
    (
      λ h.
          let (fp, _, old, ids) =
            (In-outdated_iff findings have fps id).0
              ((In-sort_texts_iff id (outdated findings have fps)).0 h) in
          elim ((In-add_comments id fp existing []).0 ids) [
            | inl z ↦ absurd z
            | inr (rc, i, c, n) ↦
                let (full, same) = carries-parts fp rc c in
                (rc, i, n, (full, λ f j e. (is_current_iff findings fp).0 old f j (e ∙ same)))
          ],
      λ (rc, i, n, (full, gone)).
          let fp = parse_fp_marker rc.body in
          let ids =
            (In-add_comments id fp existing []).1
              (inr (rc, i, rw (full, eq_text_refl fp) refl, n)) in
          (In-sort_texts_iff id (outdated findings have fps)).1 (
            (In-outdated_iff findings have fps id).1
              (fp, In-lookup fp have id ids, (is_current_iff findings fp).1 gone, ids)),
    )

abbrev pub newline : Text
newline = codes "\n"

-- The comment of a finding: `inlineCommentBody` ends in the marker and a line break.
abbrev pub marked_comment : (Finding → Text) → (Finding → Text) → Finding → ReviewCommentRef
marked_comment node front f = record {
  node_id = node f;
  body = front f ++ (fp_marker (fingerprint f) ++ newline);
}

reconcile_read :
    (findings : List Finding) (existing : List ReviewCommentRef)
    (comment : Finding → ReviewCommentRef)
    → ((f : Finding) → In f findings → parse_fp_marker (comment f).body ≡ fingerprint f)
    → let first = reconcile findings existing in
      let second = reconcile findings (existing ++ map comment first.to_post) in
      ((f : Finding) → In f second.to_post → ⊥)
      × ((id : Text) → In id second.to_minimize → In id first.to_minimize)
reconcile_read findings existing comment read = (
  λ f h.
      let posted = (reconcile findings existing).to_post in
      let (i, free) = (In-to_post_iff findings (existing ++ map comment posted) f).0 h in
      let before : IsCarried (fingerprint f) existing → ⊥ =
        λ (rc, j, e). free (rc, In-append_left rc existing (map comment posted) j, e) in
      free (
        comment f,
        In-append_right (comment f) existing (map comment posted)
            (In-map comment f posted ((In-to_post_iff findings existing f).1 (i, before))),
        read f i,
      ),
  λ id h.
      let posted = (reconcile findings existing).to_post in
      let (rc, i, n, (full, gone)) =
        (In-to_minimize_iff findings (existing ++ map comment posted) id).0 h in
      elim (In-append_cases rc existing (map comment posted) i) [
        | inl old ↦ (In-to_minimize_iff findings existing id).1 (rc, old, n, (full, gone))
        | inr new ↦
            let (f, j, same) = In-map_inverse comment rc posted new in
            let k = ((In-to_post_iff findings existing f).0 j).0 in
            absurd (gone f k (sym (read f k) ∙ ap (λ c. parse_fp_marker c.body) same))
      ],
)

-- A second run over the same findings, after comments for the posted ones were added, posts nothing
-- and minimizes nothing new. A comment is a text and behind it the marker of its finding; no marker
-- starts in the text, and the fingerprint is one line in which ` -->` does not start behind its first
-- byte.
pub reconcile_again :
    (findings : List Finding) (existing : List ReviewCommentRef) (node front : Finding → Text)
    → ((f : Finding)
        → In f findings
        → IsQuiet (front f) (fp_marker (fingerprint f) ++ newline)
          × IsPayload (fingerprint f) (marker_suffix ++ newline))
    → let first = reconcile findings existing in
      let second = reconcile findings (existing ++ map (marked_comment node front) first.to_post) in
      ((f : Finding) → In f second.to_post → ⊥)
      × ((id : Text) → In id second.to_minimize → In id first.to_minimize)
reconcile_again findings existing node front marked =
    reconcile_read findings existing (marked_comment node front) λ f i.
      let (quiet, payload) = marked f i in
      parse_fp_marker-fp_marker (front f) (fingerprint f) newline quiet payload

-- A finding is posted exactly where it is one of this run's and no comment carries its fingerprint, and
-- a comment is minimized exactly where it carries a fingerprint that is none of this run's.
pub reconcile-exact :
    (findings : List Finding) (existing : List ReviewCommentRef)
    → ((f : Finding)
        → In f (reconcile findings existing).to_post
          ↔ (In f findings × (IsCarried (fingerprint f) existing → ⊥)))
      × ((id : Text)
          → In id (reconcile findings existing).to_minimize
            ↔ ((rc : ReviewCommentRef) × In rc existing × (rc.node_id ≡ id) × IsGone findings rc))
reconcile-exact findings existing =
    (In-to_post_iff findings existing, In-to_minimize_iff findings existing)
