-- ===== src/Reviewer/Enqueue/Coalesced.antt =====
-- go/internal/agent/reviewer/enqueue.go: two names are the same only for one window of one pull request.
use automation_agent.Common.{
  subst, some-injective, Option, some, decimal_from, ℕ, zero, suc, ◌+◌, ◌-◌, ◌/◌, ◌%◌, ◌^◌, ◌<◌,
  ◌≤◌, ◌≡◌, inl, inr, refl, sym, ap, ◌∙◌, [], ◌∷◌, ◌++◌, ltb, Text, codes, decimal, atoi_value,
  atoi_value-decimal, pos, arith, Bool-cases,
}
use native.Mathlib.Nat.{mod-lt}
use automation_agent.Reviewer.Hub.{PullRequestEvent}
use automation_agent.Fixflow.Keys.{IsFree}
use automation_agent.Reviewer.Enqueue.{coalesce_key, bucket_of, format_int, zero_time}

cons-injective : {c d : ℕ} {s t : Text} → ◌≡◌ {A = Text} (c ∷ s) (d ∷ t) → (c ≡ d) × (s ≡ t)
cons-injective e = (cc, cc)

nil-cons : {c : ℕ} {s : Text} → ◌≡◌ {A = Text} [] (c ∷ s) → ⊥
nil-cons e = cc

append_cancel : (p s t : Text) → p ++ s ≡ p ++ t → s ≡ t
append_cancel [] s t e = e
append_cancel (c ∷ p) s t e = append_cancel p s t (cons-injective e).1

append_assoc : (a b c : Text) → a ++ (b ++ c) ≡ (a ++ b) ++ c
append_assoc [] b c = refl
append_assoc (x ∷ a) b c = ap (λ t. x ∷ t) (append_assoc a b c)

not-IsFree : (sep : ℕ) (s t : Text) → IsFree sep (s ++ sep ∷ t) → ⊥
not-IsFree sep [] t (apart, rest) = apart refl
not-IsFree sep (c ∷ s) t (apart, rest) = not-IsFree sep s t rest

-- The text behind the last separator, and what stands in front of it, are determined.
last_part :
    (sep : ℕ) (s1 s2 t1 t2 : Text)
    → IsFree sep t1
    → IsFree sep t2
    → s1 ++ sep ∷ t1 ≡ s2 ++ sep ∷ t2
    → (s1 ≡ s2) × (t1 ≡ t2)
last_part sep [] [] t1 t2 f1 f2 e = (refl, (cons-injective e).1)
last_part sep [] (c ∷ s2) t1 t2 f1 f2 e =
    absurd (not-IsFree sep s2 t2 (subst (IsFree sep) (cons-injective e).1 f1))
last_part sep (c ∷ s1) [] t1 t2 f1 f2 e =
    absurd (not-IsFree sep s1 t1 (subst (IsFree sep) (sym (cons-injective e).1) f2))
last_part sep (c ∷ s1) (d ∷ s2) t1 t2 f1 f2 e =
    let (same, rest) = last_part sep s1 s2 t1 t2 f1 f2 (cons-injective e).1 in
    (λ i. (cons-injective e).0 i ∷ same i, rest)

-- A number is printed without a dash.
decimal_from-IsFree :
    (fuel n : ℕ) (rest : Text) → IsFree b'-' rest → IsFree b'-' (decimal_from fuel n rest)
unfolding decimal_from
decimal_from-IsFree zero n rest h = h
decimal_from-IsFree (suc fuel) n rest h = elim (Bool-cases (ltb n 10)) [
  | inl small ↦ rw small ((λ e. omega (arith, e)), h)
  | inr large ↦
      rw large
        (decimal_from-IsFree fuel (n / 10) ((b'0' + n % 10) ∷ rest) ((λ e. omega (arith, e)), h))
]

decimal-IsFree : (n : ℕ) → IsFree b'-' (decimal n)
unfolding decimal
decimal-IsFree n = decimal_from-IsFree (suc n) n [] tt

pos_injective : {m n : ℕ} → pos m ≡ pos n → m ≡ n
pos_injective e = cc

decimal-injective : (m n : ℕ) → m < 2 ^ 63 → n < 2 ^ 63 → decimal m ≡ decimal n → m ≡ n
decimal-injective m n hm hn e =
    pos_injective (sym (atoi_value-decimal m hm) ∙ ap atoi_value e ∙ atoi_value-decimal n hn)

-- Base64 is decoded to what was encoded, so that tasks of two pull requests, or of two windows of one,
-- never have one name; numbers and times are int64 that are not negative.
coalesce_key-injective :
    (base64url : Text → Text) (decoded : Text → Option Text)
    (parse : Text → Option PullRequestEvent) (ev1 ev2 : PullRequestEvent) (b1 b2 : ℕ)
    → ((t : Text) → decoded (base64url t) ≡ some t)
    → ev1.number < 2 ^ 63
    → ev2.number < 2 ^ 63
    → b1 < 2 ^ 63
    → b2 < 2 ^ 63
    → coalesce_key base64url parse ev1 (pos b1) ≡ coalesce_key base64url parse ev2 (pos b2)
    → (ev1.repo_full_name ≡ ev2.repo_full_name) × (ev1.number ≡ ev2.number) × (b1 ≡ b2)
unfolding coalesce_key format_int
coalesce_key-injective base64url decoded parse ev1 ev2 b1 b2 inverse n1 n2 h1 h2 e =
    let r1 = base64url ev1.repo_full_name in
    let r2 = base64url ev2.repo_full_name in
    let d1 = decimal ev1.number in
    let d2 = decimal ev2.number in
    let tail = append_cancel (codes "review-") _ _ e in
    let (front, bucket) =
      last_part b'-' (r1 ++ b'-' ∷ d1) (r2 ++ b'-' ∷ d2) (decimal b1) (decimal b2)
        (decimal-IsFree b1) (decimal-IsFree b2)
        (sym (append_assoc r1 (b'-' ∷ d1) (b'-' ∷ decimal b1))
          ∙ tail
          ∙ append_assoc r2 (b'-' ∷ d2) (b'-' ∷ decimal b2)) in
    let (repo, number) =
      last_part b'-' r1 r2 d1 d2 (decimal-IsFree ev1.number) (decimal-IsFree ev2.number) front in
    (
      some-injective
          (sym (inverse ev1.repo_full_name) ∙ ap decoded repo ∙ inverse ev2.repo_full_name),
      decimal-injective ev1.number ev2.number n1 n2 number,
      decimal-injective b1 b2 h1 h2 bucket,
    )

since_1970 : (t d : ℕ) → 0 < d → d ≤ t → bucket_of t d ≡ pos (t - (t + zero_time) % d)
unfolding bucket_of
since_1970 t d h l = ground (arith, mod-lt (t + zero_time) h, l)

-- Two pushes whose tasks have one name are of one pull request, and less than a debounce apart.
pub coalesce_key-window :
    (base64url : Text → Text) (decoded : Text → Option Text)
    (parse : Text → Option PullRequestEvent) (ev1 ev2 : PullRequestEvent) (t1 t2 d : ℕ)
    → ((t : Text) → decoded (base64url t) ≡ some t)
    → ev1.number < 2 ^ 63
    → ev2.number < 2 ^ 63
    → 0 < d
    → d ≤ t1
    → d ≤ t2
    → t1 < 2 ^ 63
    → t2 < 2 ^ 63
    → coalesce_key base64url parse ev1 (bucket_of t1 d)
      ≡ coalesce_key base64url parse ev2 (bucket_of t2 d)
    → (ev1.repo_full_name ≡ ev2.repo_full_name)
      × (ev1.number ≡ ev2.number)
      × (t1 < t2 + d)
      × (t2 < t1 + d)
coalesce_key-window base64url decoded parse ev1 ev2 t1 t2 d inverse n1 n2 h l1 l2 s1 s2 e =
    let r1 = (t1 + zero_time) % d in
    let r2 = (t2 + zero_time) % d in
    let same =
      ap (coalesce_key base64url parse ev1) (sym (since_1970 t1 d h l1))
      ∙ e
      ∙ ap (coalesce_key base64url parse ev2) (since_1970 t2 d h l2) in
    let (repo, number, floor) =
      coalesce_key-injective base64url decoded parse ev1 ev2 (t1 - r1) (t2 - r2) inverse n1 n2
        (omega (arith, s1)) (omega (arith, s2)) same in
    let m1 = mod-lt (t1 + zero_time) h in
    let m2 = mod-lt (t2 + zero_time) h in
    (repo, number, omega (arith, floor, m1, m2, l1, l2), omega (arith, floor, m1, m2, l1, l2))
