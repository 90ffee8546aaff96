-- ===== src/Reviewer/Globs/Meaning.antt =====
-- go/internal/agent/reviewer/filter.go: what a glob stands for, read off the glob itself, and that its
-- translation keeps it.
use automation_agent.Common.{
  ℕ, ◌≡◌, ◌≢◌, ◌↔◌, inl, inr, refl, sym, ap, subst, ◌∙◌, Bool, true, false, [], ◌∷◌, ◌++◌, ◌==◌,
  ==_iff, Text, All, Bool-cases, false-true, arith,
}
use automation_agent.Reviewer.Globs.{
  segment_run, literal, part_of, glob_parts_from, glob_to_regexp, in_line, in_segment, match_string,
}
use automation_agent.Reviewer.Globs.Decides.{Run, One, Denotes, match_string_iff}

-- Two stars stand for any run of characters on one line, a star that no star follows for a run inside
-- one segment of a path, a question mark for one character of a segment, and another character for
-- itself. Stars are read in pairs, from the left.
pub data Stands : Text → Text → Type 0 where
  glob_end : {glob text : Text} → glob ≡ [] → text ≡ [] → Stands glob text
  double_star :
      {glob text : Text} (g front rest : Text)
      → glob ≡ b'*' ∷ (b'*' ∷ g)
      → text ≡ front ++ rest
      → All (λ c. c ≢ 10) front
      → Stands g rest
      → Stands glob text
  star :
      {glob text : Text} (g front rest : Text)
      → glob ≡ b'*' ∷ g
      → ((h : Text) → g ≢ b'*' ∷ h)
      → text ≡ front ++ rest
      → All (λ c. c ≢ b'/') front
      → Stands g rest
      → Stands glob text
  question :
      {glob text : Text} (g rest : Text) (c : ℕ)
      → glob ≡ b'?' ∷ g
      → text ≡ c ∷ rest
      → c ≢ b'/'
      → Stands g rest
      → Stands glob text
  letter :
      {glob text : Text} (g rest : Text) (c : ℕ)
      → glob ≡ c ∷ g
      → text ≡ c ∷ rest
      → c ≢ b'*'
      → c ≢ b'?'
      → Stands g rest
      → Stands glob text

All-weaken : {P Q : ℕ → Type 0} (s : Text) → ((c : ℕ) → P c → Q c) → All P s → All Q s
All-weaken [] f h = tt
All-weaken (c ∷ s) f h = (f c h.0, All-weaken s f h.1)

head-equal : {x y : ℕ} {xs ys : Text} → x ∷ xs ≡ y ∷ ys → x ≡ y
head-equal e = cc

head_star : (c : ℕ) (g h : Text) → (c == b'*') ≡ false → c ∷ g ≢ b'*' ∷ h
head_star c g h other e = false-true (sym other ∙ (==_iff c b'*').1 (head-equal e))

-- A star whose successor is not a star is a run of a segment.
lone_star :
    (g : Text)
    → ((h : Text) → g ≢ b'*' ∷ h)
    → glob_parts_from true g ≡ segment_run ∷ glob_parts_from false g
unfolding glob_parts_from
lone_star [] lone = refl
lone_star (c ∷ g) lone = elim (Bool-cases (c == b'*')) [
  | inl is_star ↦ absurd (lone g (ap (λ x. x ∷ g) ((==_iff c b'*').0 is_star)))
  | inr other ↦ rw (other, glob_parts_from) refl
]

plain_parts :
    (c : ℕ) (g : Text)
    → (c == b'*') ≡ false
    → glob_parts_from false (c ∷ g) ≡ part_of c ∷ glob_parts_from false g
unfolding glob_parts_from
plain_parts c g other = rw (other, glob_parts_from) refl

differs : (c d : ℕ) → c ≢ d → (c == d) ≡ false
differs c d h = ground (arith, h)

part_of-literal : (c : ℕ) → c ≢ b'?' → part_of c ≡ literal c
part_of-literal c h = rw (differs c b'?' h) refl

same_parts :
    {glob g : Text} (text : Text)
    → glob ≡ g
    → Denotes (glob_parts_from false g) text
    → Denotes (glob_parts_from false glob) text
same_parts text e h = subst (λ k. Denotes (glob_parts_from false k) text) (sym e) h

Stands-Denotes : {glob text : Text} → Stands glob text → Denotes (glob_parts_from false glob) text
unfolding glob_parts_from
Stands-Denotes (glob_end e s) = same_parts _ e s
Stands-Denotes (double_star g front rest e s line stands) =
    same_parts _ e
      (front, rest, s, All-weaken front (λ c h. ground (arith, h)) line, Stands-Denotes stands)
Stands-Denotes {text = text} (star g front rest e lone s segment stands) = same_parts _ e (
    subst (λ ps. Denotes ps text) (sym (lone_star g lone))
      (front, rest, s, All-weaken front (λ c h. ground (arith, h)) segment, Stands-Denotes stands))
Stands-Denotes (question g rest c e s other stands) =
    same_parts _ e (c, rest, s, ground (arith, other), Stands-Denotes stands)
Stands-Denotes {text = text} (letter g rest c e s no_star no_mark stands) = same_parts _ e (
    subst (λ ps. Denotes ps text)
      (sym (
        plain_parts c g (differs c b'*' no_star)
        ∙ ap (λ p. p ∷ glob_parts_from false g) (part_of-literal c no_mark)))
      (c, rest, s, ground arith, Stands-Denotes stands))

-- The glob whose translation goes on with `g`: a star is still to be read, or nothing.
abbrev held_glob : Bool → Text → Text
held_glob true g = b'*' ∷ g
held_glob false g = g

plain-Stands :
    (c : ℕ) (g text : Text)
    → (c == b'*') ≡ false
    → ((rest : Text) → Denotes (glob_parts_from false g) rest → Stands g rest)
    → Denotes (part_of c ∷ glob_parts_from false g) text
    → Stands (c ∷ g) text
plain-Stands c g text other later h = elim (Bool-cases (c == b'?')) [
  | inl mark ↦
      let (d, rest, s, ok, more) : One in_segment (Denotes (glob_parts_from false g)) text =
        rw mark at h in
      question g rest d (ap (λ x. x ∷ g) ((==_iff c b'?').0 mark)) s (ground (arith, ok))
        (later rest more)
  | inr plain ↦
      let (d, rest, s, ok, more) : One (λ d. d == c) (Denotes (glob_parts_from false g)) text =
        rw plain at h in
      letter g rest c refl (s ∙ ap (λ x. x ∷ rest) ((==_iff d c).0 ok)) (ground (arith, other))
        (ground (arith, plain)) (later rest more)
]

Denotes-Stands :
    (held : Bool) (g text : Text)
    → Denotes (glob_parts_from held g) text
    → Stands (held_glob held g) text
unfolding glob_parts_from
Denotes-Stands false [] text h = glob_end refl h
Denotes-Stands true [] text (front, rest, s, all, more) =
    star [] front rest refl (λ h e. cc) s (All-weaken front (λ c h. ground (arith, h)) all)
      (glob_end refl more)
Denotes-Stands false (c ∷ g) text h = elim (Bool-cases (c == b'*')) [
  | inl is_star ↦
      subst (λ k. Stands (k ∷ g) text) (sym ((==_iff c b'*').0 is_star))
        (Denotes-Stands true g text (rw (is_star, glob_parts_from) at h))
  | inr other ↦
      plain-Stands c g text other (Denotes-Stands false g) (rw (other, glob_parts_from) at h)
]
Denotes-Stands true (c ∷ g) text h = elim (Bool-cases (c == b'*')) [
  | inl is_star ↦
      let (front, rest, s, all, more) : Run in_line (Denotes (glob_parts_from false g)) text =
        rw (is_star, glob_parts_from) at h in
      double_star g front rest (ap (λ k. b'*' ∷ (k ∷ g)) ((==_iff c b'*').0 is_star)) s
        (All-weaken front (λ c h. ground (arith, h)) all) (Denotes-Stands false g rest more)
  | inr other ↦
      let (front, rest, s, all, more) : Run in_segment
          (Denotes (part_of c ∷ glob_parts_from false g)) text =
        rw (other, glob_parts_from) at h in
      star (c ∷ g) front rest refl (λ h. head_star c g h other) s
        (All-weaken front (λ c h. ground (arith, h)) all)
        (plain-Stands c g rest other (Denotes-Stands false g) more)
]

-- The expression that a glob is compiled to accepts exactly the texts that the glob stands for.
pub glob_to_regexp_iff :
    (glob text : Text) → (match_string (glob_to_regexp glob) text ≡ true) ↔ Stands glob text
unfolding glob_to_regexp
glob_to_regexp_iff glob text =
    let (to, from) = match_string_iff (glob_parts_from false glob) text in
    ((λ h. Denotes-Stands false glob text (to h)), λ h. from (Stands-Denotes h))
