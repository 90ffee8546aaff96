-- ===== src/Fixflow/Engine/Guards.antt =====
-- go/internal/agent/fixflow/engine.go and envelope.go: the guards in front of the driver.
use automation_agent.Common.{
  ℕ, ◌+◌, ◌≤◌, ◌<◌, ◌≡◌, ◌≢◌, ◌↔◌, ◌⊎◌, inl, inr, refl, sym, ap, ◌∙◌, Bool, true, false, not, ◌||◌,
  Option, none, some, List, [], ◌∷◌, ◌++◌, leb, ◌==◌, Text, codes, eq_text, eq_text_iff, is_empty,
  any, take, drop, length, length-take, take-append-drop, In, Bool-cases, arith, Result, ok, err,
}
use automation_agent.ParkStore.Interface.{ParkStore}
use automation_agent.Fixflow.Keys.{before, after, before-append, after-append, IsFree}
use automation_agent.Fixflow.Driver.{World, Spec, Deps, State, Done, Kickoff, kickoff}
use automation_agent.Fixflow.Driver.Notices.{resume-acts}
use automation_agent.Fixflow.Engine.{
  KickoffBody, CheckEvent, split_repo, is_blank, checked, parse_kickoff, repo_allowed, cap_work,
  start_allowed, engine_kickoff, engine_resume, Answer, driven, refused, Refusal, kickoff_of,
  input_of,
}

abbrev has : ℕ → Text → Bool
has sep = any (λ c. c == sep)

cut-append : (sep : ℕ) (s : Text) → has sep s ≡ true → s ≡ before sep s ++ sep ∷ after sep s
unfolding before after
cut-append sep [] h = cc
cut-append sep (c ∷ s) h = ground (arith, h, cut-append sep s)

before-IsFree : (sep : ℕ) (s : Text) → IsFree sep (before sep s)
unfolding before
before-IsFree sep [] = tt
before-IsFree sep (c ∷ s) = elim (Bool-cases (c == sep)) [
  | inl e ↦ rw (e, before) tt
  | inr e ↦ rw (e, before) (ground (arith, e), before-IsFree sep s)
]

has-append : (sep : ℕ) (s t : Text) → has sep (s ++ sep ∷ t) ≡ true
has-append sep [] t = ground arith
has-append sep (c ∷ s) t = ground (arith, has-append sep s t)

is_empty-none : (s : Text) → (is_empty s ≡ false) ↔ (s ≢ [])
is_empty-none [] = ground arith
is_empty-none (c ∷ s) = ((λ h. cc), (λ h. refl))

split_repo-parts :
    (s owner name : Text)
    → split_repo s ≡ some (owner, name)
    → (has b'/' s ≡ true)
      × (before b'/' s ≡ owner)
      × (after b'/' s ≡ name)
      × (is_empty owner ≡ false)
      × (is_empty name ≡ false)
unfolding split_repo
split_repo-parts s owner name h = ground arith

-- A name is split exactly where it is an owner and a repository, both not empty, around its first
-- slash.
pub split_repo_iff :
    (s owner name : Text)
    → (split_repo s ≡ some (owner, name))
      ↔ ((s ≡ owner ++ b'/' ∷ name) × IsFree b'/' owner × (owner ≢ []) × (name ≢ []))
unfolding split_repo
split_repo_iff s owner name = (
  λ h.
      let (slash, front, back, o, n) = split_repo-parts s owner name h in
      (
        rw (sym front, sym back) (cut-append b'/' s slash),
        rw (sym front) (before-IsFree b'/' s),
        (is_empty-none owner).0 o,
        (is_empty-none name).0 n,
      ),
  λ (e, free, o, n).
      rw
        (
          e,
          before-append b'/' owner name free,
          after-append b'/' owner name free,
          has-append b'/' owner name,
          (is_empty-none owner).1 o,
          (is_empty-none name).1 n,
        )
        refl,
)

-- The repository may be targeted: there is no list, or it is on the list.
abbrev pub IsAllowed : List Text → Text → Type 0
IsAllowed repos repo = (repos ≡ []) ⊎ In repo repos

In-any : (x : Text) (xs : List Text) → any (λ y. eq_text y x) xs ≡ true → In x xs
In-any x [] h = cc
In-any x (y ∷ ys) h = ground (arith, h, eq_text_iff y x, In-any x ys)

repo_allowed-IsAllowed :
    (repos : List Text) (repo : Text) → repo_allowed repos repo ≡ true → IsAllowed repos repo
unfolding repo_allowed
repo_allowed-IsAllowed [] repo h = inl refl
repo_allowed-IsAllowed (r ∷ repos) repo h = inr (In-any repo (r ∷ repos) h)

append-drop-length : {A : Type 0} (xs : List A) → xs ++ drop (length xs) xs ≡ xs
append-drop-length [] = refl
append-drop-length (x ∷ xs) = λ i. x ∷ append-drop-length xs i

-- The kept files are the first ones and the others are counted, no more are kept than the cap
-- where there is one, and nothing is dropped where all fit.
pub cap_work-exact :
    {A : Type 0} (max_files : ℕ) (work : List A)
    → let (kept, dropped) = cap_work max_files work in
      (kept ++ drop (length kept) work ≡ work)
      × (length kept + dropped ≡ length work)
      × (0 < max_files → length kept ≤ max_files)
      × (length work ≤ max_files → dropped ≡ 0)
unfolding cap_work
cap_work-exact max_files work = elim (Bool-cases (max_files == 0 || leb (length work) max_files)) [
  | inl all ↦ rw all (append-drop-length work, omega arith, ground (arith, all), λ h. refl)
  | inr some_left ↦
      let full : length (take max_files work) ≡ max_files =
        ground (arith, some_left, length-take max_files work) in
      rw some_left (
        rw full (take-append-drop max_files work),
        ground (arith, some_left, full),
        (λ h. omega (arith, full)),
        ground (arith, some_left),
      )
]

ok-injective : {E A : Type 0} {x y : A} → ◌≡◌ {A = Result E A} (ok x) (ok y) → x ≡ y
ok-injective h = cc

driven-injective : {x y : Done} → driven x ≡ driven y → x ≡ y
driven-injective h = cc

err-ok : {E A : Type 0} {e : E} {a : A} → ◌≡◌ {A = Result E A} (err e) (ok a) → ⊥
err-ok h = cc

checked_sound :
    (b : KickoffBody) (found : Option (Text × Text)) (k : Kickoff)
    → split_repo b.repo ≡ found
    → checked b found ≡ ok k
    → (c : KickoffBody) × (parts : Text × Text) × (◌≡◌ {A = Option KickoffBody} (some b) (some c))
      × (split_repo c.repo ≡ some parts)
      × (c.report ≢ [])
      × (k ≡ kickoff_of c parts)
unfolding checked
checked_sound b none k e h = absurd (err-ok h)
checked_sound b (some parts) k e h = elim (Bool-cases (is_empty b.report)) [
  | inl empty ↦ absurd (err-ok (rw empty at h))
  | inr full ↦
      (b, parts, refl, e, (is_empty-none b.report).0 full, sym (ok-injective (rw full at h)))
]

parse_kickoff_sound :
    (body : Option KickoffBody) (k : Kickoff)
    → parse_kickoff body ≡ ok k
    → (b : KickoffBody) × (parts : Text × Text) × (body ≡ some b)
      × (split_repo b.repo ≡ some parts)
      × (b.report ≢ [])
      × (k ≡ kickoff_of b parts)
unfolding parse_kickoff checked
parse_kickoff_sound none k h = cc
parse_kickoff_sound (some b) k h = elim (Bool-cases (is_blank b.repo)) [
  | inl blank ↦ absurd (err-ok (rw blank at h))
  | inr named ↦ checked_sound b (split_repo b.repo) k refl (rw named at h)
]

module _ (s : ParkStore) (w : World s.State) (spec : Spec) (d : Deps) where
  abbrev St : Type 0
  St = State s w spec d

  -- The body is what the driver was called with: it is well formed and its repository allowed.
  abbrev pub IsAdmitted : List Text → St → Option KickoffBody → Done × St → Type 0
  IsAdmitted repos st body out =
      (b : KickoffBody) × (parts : Text × Text) × (body ≡ some b)
      × IsAllowed repos b.repo
      × (split_repo b.repo ≡ some parts)
      × (b.report ≢ [])
      × (kickoff s w spec d st (kickoff_of b parts) ≡ out)

  abbrev pub IsGuarded : List Text → St → Option KickoffBody → Answer × St → Type 0
  IsGuarded repos st body out =
      ((e : Refusal) → out.0 ≡ refused e → out.1 ≡ st)
      × ((o : Done) → out.0 ≡ driven o → IsAdmitted repos st body (o, out.1))

  start_allowed-IsGuarded :
      (repos : List Text) (st : St) (body : Option KickoffBody) (parsed : Result Refusal Kickoff)
      → parse_kickoff body ≡ parsed
      → IsGuarded repos st body (start_allowed s w spec d repos st parsed)
  unfolding start_allowed
  start_allowed-IsGuarded repos st body (err e) p = ((λ e' h. refl), λ o h. cc)
  start_allowed-IsGuarded repos st body (ok k) p = elim (Bool-cases (repo_allowed repos k.repo)) [
    | inr out ↦ rw out ((λ e' h. refl), λ o h. cc)
    | inl free ↦ rw free (
      (λ e' h. cc),
      λ o h.
          let (b, parts, same, split, report, made) = parse_kickoff_sound body k p in
          (
            b,
            parts,
            same,
            repo_allowed-IsAllowed repos b.repo (rw made at free),
            split,
            report,
            ap (kickoff s w spec d st) (sym made)
                ∙ (λ i. (driven-injective h i, (kickoff s w spec d st k).1)),
          ),
    )
  ]

  -- A kickoff that is refused leaves the engine as it was; one that is not names an owner and a
  -- repository that is allowed, has a report, and does what the driver's kickoff does.
  pub engine_kickoff-IsGuarded :
      (repos : List Text) (st : St) (body : Option KickoffBody)
      → IsGuarded repos st body (engine_kickoff s w spec d repos st body)
  unfolding engine_kickoff start_allowed
  engine_kickoff-IsGuarded repos st body =
      start_allowed-IsGuarded repos st body (parse_kickoff body) refl

  -- What the code requires of a check run before it acts on it.
  abbrev pub IsOwn : CheckEvent → Type 0
  IsOwn ev =
      (ev.check_name ≡ spec.check_name)
      × (ev.status ≡ codes "completed")
      × (ev.pr_number ≢ 0)
      × ((ev.conclusion ≡ codes "success") ⊎ (ev.conclusion ≡ codes "failure"))

  -- A check run leaves the engine as it was, or it is completed, is the engine's own check, names a
  -- pull request, and concludes in success or failure.
  pub engine_resume-IsOwn :
      (st : St) (ev : CheckEvent) → ((engine_resume s w spec d st (some ev)).1 ≡ st) ⊎ IsOwn ev
  unfolding engine_resume
  engine_resume-IsOwn st ev =
      elim (Bool-cases (
        not (eq_text ev.check_name spec.check_name)
        || not (eq_text ev.status (codes "completed")))) [
          | inl foreign ↦ inl (rw foreign refl)
          | inr own ↦ rw own (elim (resume-acts s w spec d st (input_of ev)) [
            | inl same ↦ inl same
            | inr (pr, conclusion) ↦ inr (
              ground (arith, own, eq_text_iff ev.check_name spec.check_name),
              ground (arith, own, eq_text_iff ev.status (codes "completed")),
              pr,
              ground (
                arith,
                conclusion,
                eq_text_iff ev.conclusion (codes "success"),
                eq_text_iff ev.conclusion (codes "failure"),
              ),
            )
          ])
        ]
