-- ===== src/ParkStore/Sqlite/Tests.antt =====
-- go/internal/agent/setup/parkstore_sqlite.go: a database that never fails, and two runs in it.
use automation_agent.Common.{
  ℕ, ◌≡◌, inl, inr, refl, sym, ap, subst, ◌≢◌, ◌∙◌, Bool, true, false, Option, none, some, List, [],
  ◌∷◌, map, keep, if◌then◌else◌, Text, codes, eq_text, eq_text_iff, Bool-cases, none-some,
  false-true, some-injective, arith, length,
}
use automation_agent.ParkStore.{ParkRecord, unpark}
use automation_agent.ParkStore.Sqlite.{
  Sql, sqlite_put, sqlite_resolve, sqlite_sweep, sqlite_delete, claim, exec_claim, claimed_row,
}
use automation_agent.ParkStore.Sqlite.Laws.{SqlLaws, IsValid, sqlite-IsValid}
use automation_agent.ParkStore.Sqlite.Races.{resolves, sweeps, claims, tried, after_all, claim-once}
use mathlib.Core.Option

abbrev row_of : List ParkRecord → Text → Option ParkRecord
row_of [] sid = none
row_of (x ∷ xs) sid = if eq_text x.session_id sid then some x else row_of xs sid

abbrev cleared : (ParkRecord → Bool) → ParkRecord → ParkRecord
cleared p x = if p x then unpark x else x

abbrev others : Text → List ParkRecord → List ParkRecord
others sid [] = []
others sid (x ∷ xs) =
    let rest = others sid xs in if eq_text sid x.session_id then rest else x ∷ rest

abbrev chosen : (ParkRecord → Bool) → Option ParkRecord → Option ParkRecord → Option ParkRecord
chosen p none next = next
chosen p (some y) next = if p y then some y else next

abbrev first_of : (ParkRecord → Bool) → List ParkRecord → List ParkRecord → Option ParkRecord
first_of p t [] = none
first_of p t (x ∷ xs) = chosen p (row_of t x.session_id) (first_of p t xs)

abbrev counted : Option ParkRecord → ℕ → ℕ
counted none n = 0
counted (some x) n = n

abbrev small_db : Sql
small_db = record {
  Table = List ParkRecord;
  row = row_of;
  clear = λ p t. some (counted (first_of p t t) (length (keep p t)), map (cleared p) t);
  save = λ r t. some (r ∷ others r.session_id t);
  first = λ p t. some (first_of p t t);
  find = λ p t. some (keep p t);
  delete_row = λ gone t. some (others gone t);
}

row_of-key :
    (t : List ParkRecord) (sid : Text) (x : ParkRecord) → row_of t sid ≡ some x → x.session_id ≡ sid
row_of-key [] sid x e = absurd (none-some e)
row_of-key (y ∷ t) sid x e = elim (Bool-cases (eq_text y.session_id sid)) [
  | inl here ↦
      ap (λ z. z.session_id) (sym (some-injective (rw here at e)))
      ∙ (eq_text_iff y.session_id sid).0 here
  | inr other ↦ row_of-key t sid x (rw other at e)
]

cleared-session_id :
    (p : ParkRecord → Bool) (x : ParkRecord) (b : Bool)
    → p x ≡ b
    → (cleared p x).session_id ≡ x.session_id
cleared-session_id p x true e = rw e refl
cleared-session_id p x false e = rw e refl

row_of-cleared :
    (p : ParkRecord → Bool) (t : List ParkRecord) (sid : Text)
    → row_of (map (cleared p) t) sid ≡ Option.map (cleared p) (row_of t sid)
row_of-cleared p [] sid = refl
row_of-cleared p (x ∷ t) sid =
    rw (cleared-session_id p x (p x) refl) (elim (Bool-cases (eq_text x.session_id sid)) [
      | inl here ↦ rw here refl
      | inr other ↦ rw other (row_of-cleared p t sid)
    ])

row_of-others :
    (gone : Text) (t : List ParkRecord) (sid : Text)
    → row_of (others gone t) sid ≡ (if eq_text gone sid then none else row_of t sid)
row_of-others gone [] sid = ground arith
row_of-others gone (x ∷ t) sid = ground (
  arith,
  row_of-others gone t sid,
  eq_text_iff gone x.session_id,
  eq_text_iff x.session_id sid,
  eq_text_iff gone sid,
)

chosen-some :
    (p : ParkRecord → Bool) (t : List ParkRecord) (sid : Text) (o next : Option ParkRecord)
    (x : ParkRecord)
    → row_of t sid ≡ o
    → (next ≡ some x → (s : Text) × (row_of t s ≡ some x) × (p x ≡ true))
    → chosen p o next ≡ some x
    → (s : Text) × (row_of t s ≡ some x) × (p x ≡ true)
chosen-some p t sid none next x at_sid later e = later e
chosen-some p t sid (some y) next x at_sid later e = elim (Bool-cases (p y)) [
  | inl good ↦
      let same = some-injective (rw good at e) in
      (sid, at_sid ∙ ap (λ z. some z) same, sym (ap p same) ∙ good)
  | inr bad ↦ later (rw bad at e)
]

first_of-some :
    (p : ParkRecord → Bool) (t xs : List ParkRecord) (x : ParkRecord)
    → first_of p t xs ≡ some x
    → (sid : Text) × (row_of t sid ≡ some x) × (p x ≡ true)
first_of-some p t [] x e = absurd (none-some e)
first_of-some p t (y ∷ ys) x e =
    chosen-some p t y.session_id (row_of t y.session_id) (first_of p t ys) x refl
      (λ k. first_of-some p t ys x k) e

chosen-none :
    (p : ParkRecord → Bool) (x : ParkRecord) (next : Option ParkRecord)
    → chosen p (some x) next ≡ none
    → p x ≡ false
chosen-none p x next e = elim (Bool-cases (p x)) [
  | inl good ↦ absurd (none-some (sym (rw good at e)))
  | inr bad ↦ bad
]

chosen-later :
    (p : ParkRecord → Bool) (o next : Option ParkRecord) → chosen p o next ≡ none → next ≡ none
chosen-later p none next e = e
chosen-later p (some y) next e = elim (Bool-cases (p y)) [
  | inl good ↦ absurd (none-some (sym (rw good at e)))
  | inr bad ↦ rw bad at e
]

cleared_table :
    (p : ParkRecord → Bool) (t t' : List ParkRecord) (n : ℕ)
    → ◌≡◌ {A = Option (ℕ × List ParkRecord)}
        (some (counted (first_of p t t) (length (keep p t)), map (cleared p) t))
        (some (n, t'))
    → map (cleared p) t ≡ t'
cleared_table p t t' n e = ap (λ o. o.1) (some-injective e)

counted-none :
    (p : ParkRecord → Bool) (t : List ParkRecord) (n : ℕ) (o : Option ParkRecord)
    → first_of p t t ≡ o
    → ((sid : Text) (x : ParkRecord) → row_of t sid ≡ some x → p x ≡ false)
    → counted o n ≡ 0
counted-none p t n none e miss = refl
counted-none p t n (some x) e miss =
    let (sid, found, hit) = first_of-some p t t x e in
    absurd (false-true (sym (miss sid x found) ∙ hit))

saved_row :
    (r : ParkRecord) (t : List ParkRecord) (sid : Text)
    → row_of (r ∷ others r.session_id t) sid
      ≡ (if eq_text r.session_id sid then some r else row_of t sid)
saved_row r t sid = ground (arith, row_of-others r.session_id t sid)

first_of-none :
    (p : ParkRecord → Bool) (t xs : List ParkRecord) (sid : Text) (x z : ParkRecord)
    → first_of p t xs ≡ none
    → row_of xs sid ≡ some z
    → row_of t sid ≡ some x
    → p x ≡ false
first_of-none p t [] sid x z e h found = absurd (none-some h)
first_of-none p t (y ∷ ys) sid x z e h found = elim (Bool-cases (eq_text y.session_id sid)) [
  | inl here ↦ chosen-none p x (first_of p t ys) (
      subst (λ o. chosen p o (first_of p t ys) ≡ none)
        (ap (λ s. row_of t s) ((eq_text_iff y.session_id sid).0 here) ∙ found) e)
  | inr other ↦
      first_of-none p t ys sid x z (chosen-later p (row_of t y.session_id) (first_of p t ys) e)
        (rw other at h) found
]

small_db-SqlLaws : SqlLaws small_db
small_db-SqlLaws = record {
  row_key = row_of-key;
  clear_row = λ p t t' n sid e.
      ap (λ u. row_of u sid) (sym (cleared_table p t t' n e)) ∙ row_of-cleared p t sid;
  clear_none = λ p t t' n e miss.
      sym (ap (λ o. o.0) (some-injective e))
      ∙ counted-none p t (length (keep p t)) (first_of p t t) refl miss;
  save_row = λ r t t' sid e. ap (λ u. row_of u sid) (sym (some-injective e)) ∙ saved_row r t sid;
  first_some = λ p t x e. first_of-some p t t x (some-injective e);
  first_none = λ p t sid x e found. first_of-none p t t sid x x (some-injective e) found found;
  row_deleted =
      λ gone t t' sid e. ap (λ u. row_of u sid) (sym (some-injective e)) ∙ row_of-others gone t sid;
}

abbrev parked_run : ParkRecord
parked_run = record {
  session_id = codes "s1";
  workflow = codes "lint";
  pr_key = codes "o/r#7";
  call_id = codes "c";
  attempts = 1;
  params = [];
  updated_at = 10;
}

abbrev one_run : List ParkRecord
one_run = parked_run ∷ []

one_run-sid : (sid : Text) (x : ParkRecord) → row_of one_run sid ≡ some x → codes "s1" ≡ sid
one_run-sid sid x e = elim (Bool-cases (eq_text (codes "s1") sid)) [
  | inl here ↦ (eq_text_iff (codes "s1") sid).0 here
  | inr other ↦ absurd (none-some (rw other at e))
]

one_run-IsValid : IsValid small_db small_db-SqlLaws one_run
one_run-IsValid s1 s2 x y e1 e2 parked same = sym (one_run-sid s1 x e1) ∙ one_run-sid s2 y e2

sqlite-IsValid_example :
    ((r : ParkRecord) → IsValid small_db small_db-SqlLaws (sqlite_put small_db one_run r).1)
    × ((w k : Text) → IsValid small_db small_db-SqlLaws (sqlite_resolve small_db one_run w k).1)
    × ((w : Text) (cutoff : ℕ)
        → IsValid small_db small_db-SqlLaws (sqlite_sweep small_db one_run w cutoff).1)
    × ((gone : Text) → IsValid small_db small_db-SqlLaws (sqlite_delete small_db one_run gone).1)
sqlite-IsValid_example = sqlite-IsValid small_db small_db-SqlLaws one_run one_run-IsValid

won : (tried small_db one_run (resolves parked_run)).0 ≡ some (some (unpark parked_run))
unfolding claim exec_claim claimed_row eq_text
won = refl

claim-once_example :
    (tried small_db
      (after_all small_db
        (claims (sweeps 50 parked_run) ∷ [])
        (tried small_db one_run (resolves parked_run)).1)
      (sweeps 50 parked_run)).0
    ≢ some (some parked_run)
claim-once_example =
    claim-once small_db small_db-SqlLaws (resolves parked_run) (sweeps 50 parked_run) one_run
      (claims (sweeps 50 parked_run) ∷ []) (unpark parked_run) parked_run refl refl refl won
