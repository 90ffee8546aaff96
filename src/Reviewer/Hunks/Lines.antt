-- ===== src/Reviewer/Hunks/Lines.antt =====
-- go/internal/agent/reviewer/hunks.go: the commentable lines of a patch are the new lines of its hunks.
use automation_agent.Common.{
  ℕ, ◌+◌, ◌≡◌, ◌⊎◌, ◌↔◌, inl, inr, refl, sym, ap, ◌∙◌, subst, Bool, true, false, Option, some, List,
  [], ◌∷◌, ◌++◌, Text, In, All, if◌then◌else◌, arith, Bool-cases,
}
use automation_agent.Reviewer.Hunks.{
  LineKind, hunk_header, added, removed, context, metadata, unexpected, line_kind,
  parse_hunk_new_start, walk,
}

pub record Hunk : Type 0 where
  pub header : Text
  pub start : ℕ
  pub body : List Text

-- The line stands in the new file.
abbrev pub new_side : LineKind → Bool
new_side added = true
new_side context = true
new_side k = false

abbrev in_body : LineKind → Bool
in_body hunk_header = false
in_body unexpected = false
in_body k = true

-- The header can be parsed, and the body has the lines of a body.
abbrev pub IsHunk : Hunk → Type 0
IsHunk h =
    (line_kind h.header ≡ hunk_header)
    × (parse_hunk_new_start h.header ≡ some h.start)
    × All (λ l. in_body (line_kind l) ≡ true) h.body

abbrev pub hunk_lines : List Hunk → List Text
hunk_lines [] = []
hunk_lines (h ∷ hs) = h.header ∷ (h.body ++ hunk_lines hs)

-- The lines of the new file among these.
abbrev pub new_count : List Text → ℕ
new_count [] = 0
new_count (l ∷ ls) = (if new_side (line_kind l) then 1 else 0) + new_count ls

-- The number is that of a new line of the body, counted from the start.
abbrev pub Stands : ℕ → List Text → ℕ → Type 0
Stands start body n =
    (front : List Text) × (line : Text) × (back : List Text) × (body ≡ front ++ (line ∷ back))
    × (new_side (line_kind line) ≡ true)
    × (n ≡ start + new_count front)

cons-head : {x y : Text} {xs ys : List Text} → ◌≡◌ {A = List Text} (x ∷ xs) (y ∷ ys) → x ≡ y
cons-head e = cc

cons-tail : {x y : Text} {xs ys : List Text} → ◌≡◌ {A = List Text} (x ∷ xs) (y ∷ ys) → xs ≡ ys
cons-tail e = cc

Stands-cons_iff :
    (start n : ℕ) (l : Text) (ls : List Text)
    → Stands start (l ∷ ls) n ↔ (
        ((new_side (line_kind l) ≡ true) × (n ≡ start))
        ⊎ Stands (start + (if new_side (line_kind l) then 1 else 0)) ls n)
Stands-cons_iff start n l ls = (
  λ (front, line, back, e, new, at'). cons_cases front line back e new at',
  λ h. elim h [
    | inl (new, e) ↦ ([], l, ls, refl, new, omega (arith, e))
    | inr (front, line, back, e, new, at') ↦
        (l ∷ front, line, back, ap (λ r. l ∷ r) e, new, omega (arith, at'))
  ],
)
  where
    cons_cases :
        (front : List Text) (line : Text) (back : List Text)
        → l ∷ ls ≡ front ++ (line ∷ back)
        → new_side (line_kind line) ≡ true
        → n ≡ start + new_count front
        → ((new_side (line_kind l) ≡ true) × (n ≡ start))
          ⊎ Stands (start + (if new_side (line_kind l) then 1 else 0)) ls n
    cons_cases [] line back e new at' =
        inl (ap (λ x. new_side (line_kind x)) (cons-head e) ∙ new, omega (arith, at'))
    cons_cases (f ∷ front) line back e new at' =
        inr (front, line, back, cons-tail e, new, at' ∙ (rw (cons-head e) (omega arith)))

walk-header :
    (at' : Option ℕ) (h : Text) (start : ℕ) (ls : List Text)
    → line_kind h ≡ hunk_header
    → parse_hunk_new_start h ≡ some start
    → walk at' (h ∷ ls) ≡ walk (some start) ls
unfolding walk
walk-header at' h start ls e p = rw (e, p) refl

-- One line of a body.
walk-line :
    (start : ℕ) (l : Text) (ls : List Text) (k : LineKind)
    → line_kind l ≡ k
    → in_body k ≡ true
    → walk (some start) (l ∷ ls) ≡ (
        if new_side (line_kind l)
        then start ∷ walk (some (start + (if new_side (line_kind l) then 1 else 0))) ls
        else walk (some (start + (if new_side (line_kind l) then 1 else 0))) ls)
unfolding walk
walk-line start l ls hunk_header e h = cc
walk-line start l ls unexpected e h = cc
walk-line start l ls added e h = rw e refl
walk-line start l ls context e h = rw e refl
walk-line start l ls removed e h = rw e (ap (λ s. walk (some s) ls) (omega arith))
walk-line start l ls metadata e h = rw e (ap (λ s. walk (some s) ls) (omega arith))

Stands-nil : (start n : ℕ) → Stands start [] n → ⊥
Stands-nil start n ([], line, back, e, new, at') = cc
Stands-nil start n (f ∷ front, line, back, e, new, at') = cc

abbrev one_if_new : Text → ℕ
one_if_new l = if new_side (line_kind l) then 1 else 0

In-walk_line :
    (start n : ℕ) (l : Text) (ls : List Text)
    → in_body (line_kind l) ≡ true
    → In n (walk (some start) (l ∷ ls)) ↔ (
        ((new_side (line_kind l) ≡ true) × (n ≡ start))
        ⊎ In n (walk (some (start + one_if_new l)) ls))
In-walk_line start n l ls h =
    rw (walk-line start l ls (line_kind l) refl h) (elim (Bool-cases (new_side (line_kind l))) [
      | inl e ↦ rw e (
        (λ i. elim i [ inl same ↦ inl (refl, sym same) | inr k ↦ inr k ]),
        λ i. elim i [ inl (_, same) ↦ inl (sym same) | inr k ↦ inr k ],
      )
      | inr e ↦ rw e ((λ i. inr i), λ i. elim i [ inl (c, _) ↦ cc | inr k ↦ k ])
    ])

In-walk_body :
    (start n : ℕ) (body tail : List Text)
    → All (λ l. in_body (line_kind l) ≡ true) body
    → In n (walk (some start) (body ++ tail))
      ↔ (Stands start body n ⊎ In n (walk (some (start + new_count body)) tail))
In-walk_body start n [] tail a = (
  λ h. inr (subst (λ s. In n (walk (some s) tail)) (omega arith) h),
  λ h. elim h [
    | inl s ↦ absurd (Stands-nil start n s)
    | inr k ↦ subst (λ s. In n (walk (some s) tail)) (omega arith) k
  ],
)
In-walk_body start n (l ∷ ls) tail (b, a) =
    let (there, back) = In-walk_line start n l (ls ++ tail) b in
    let (apart, join) = Stands-cons_iff start n l ls in
    let (onto, from) = In-walk_body (start + one_if_new l) n ls tail a in
    let same : start + one_if_new l + new_count ls ≡ start + new_count (l ∷ ls) = omega arith in
    (
      λ h. elim (there h) [
        | inl here ↦ inl (join (inl here))
        | inr later ↦ elim (onto later) [
          | inl s ↦ inl (join (inr s))
          | inr k ↦ inr (subst (λ s. In n (walk (some s) tail)) same k)
        ]
      ],
      λ h. back (elim h [
        | inl s ↦ elim (apart s) [ inl here ↦ inl here | inr later ↦ inr (from (inl later)) ]
        | inr k ↦ inr (from (inr (subst (λ s. In n (walk (some s) tail)) (sym same) k)))
      ]),
    )

-- A line can be commented on exactly where it is a new line of one of the hunks: an added line or one
-- of the context, counted from the start in the hunk's header.
pub walk-hunk_lines :
    (hs : List Hunk) (at' : Option ℕ) (n : ℕ)
    → All IsHunk hs
    → In n (walk at' (hunk_lines hs)) ↔ ((h : Hunk) × In h hs × Stands h.start h.body n)
unfolding walk
walk-hunk_lines [] at' n a = ((λ h. absurd h), λ h. absurd h.1)
walk-hunk_lines (h ∷ hs) at' n ((e, p, b), a) =
    let next = some (h.start + new_count h.body) in
    let (there, back) = In-walk_body h.start n h.body (hunk_lines hs) b in
    let (onto, from) = walk-hunk_lines hs next n a in
    rw (walk-header at' h.header h.start (h.body ++ hunk_lines hs) e p) (
      (λ i. elim (there i) [
        | inl s ↦ (h, inl refl, s)
        | inr k ↦ let (g, j, s) = onto k in (g, inr j, s)
      ]),
      λ (g, j, s). elim j [
        | inl same ↦ back (inl (subst (λ x. Stands x.start x.body n) (sym same) s))
        | inr later ↦ back (inr (from (g, later, s)))
      ],
    )
