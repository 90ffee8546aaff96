-- ===== src/ParkStore/Sqlite/Races.antt =====
-- go/internal/agent/setup/parkstore_sqlite.go: callers whose reads and claims interleave. A caller has
-- read its row at some time before, by `First` or `Find`; its claim is one UPDATE.
use automation_agent.Common.{
  ℕ, zero, suc, ◌≡◌, ◌≢◌, inl, inr, refl, sym, ap, subst, ◌∙◌, Bool, true, false, not, ◌&&◌, Option,
  none, some, List, [], ◌∷◌, ltb, Text, eq_text_iff, is_empty, if◌then◌else◌, Bool-cases,
  Option-cases, none-some, some-injective, false-true, arith,
}
use automation_agent.ParkStore.{ParkRecord, is_parked, unpark}
use automation_agent.ParkStore.Sqlite.{
  Sql, claimed_row, exec_claim, is_row, claim, claim_stale, sqlite_delete,
}
use automation_agent.ParkStore.Sqlite.Laws.{
  SqlLaws, Later, Later-refl, Later-trans, claimed_row-Later, delete-Later,
}
use mathlib.Core.Option

-- The claim of a resolve, or that of a sweep with its cutoff, for a row that was read before.
pub data Claim : Type 0 where
  resolves : ParkRecord → Claim
  sweeps : ℕ → ParkRecord → Claim

abbrev pub row_of_claim : Claim → ParkRecord
row_of_claim (resolves row) = row
row_of_claim (sweeps cutoff row) = row

pub data Meanwhile : Type 0 where
  claims : Claim → Meanwhile
  deletes : Text → Meanwhile

module _ (db : Sql) where
  -- What a claim returns, and the table behind it.
  abbrev pub tried : db.Table → Claim → Option (Option ParkRecord) × db.Table
  tried t (resolves row) = claim db t row
  tried t (sweeps cutoff row) = claim_stale db cutoff t row

  abbrev pub after_all : List Meanwhile → db.Table → db.Table
  after_all [] t = t
  after_all (claims c ∷ ms) t = after_all ms (tried t c).1
  after_all (deletes sid ∷ ms) t = after_all ms (sqlite_delete db t sid).1

  -- The WHERE clause of a claim.
  abbrev where_of : Claim → ParkRecord → Bool
  where_of (resolves row) x = is_row db row x
  where_of (sweeps cutoff row) x = is_row db row x && ltb x.updated_at cutoff

  tried_lem :
      (t : db.Table) (c : Claim)
      → tried t c ≡ claimed_row db t (row_of_claim c) (db.clear (where_of c) t)
  unfolding claim claim_stale exec_claim
  tried_lem t (resolves row) = refl
  tried_lem t (sweeps cutoff row) = refl

  where_of-row :
      (c : Claim) (x : ParkRecord)
      → where_of c x ≡ true
      → (x.session_id ≡ (row_of_claim c).session_id) × (x.pr_key ≡ (row_of_claim c).pr_key)
  where_of-row (resolves row) x h = (
    (eq_text_iff x.session_id row.session_id).0 (ground (arith, h)),
    (eq_text_iff x.pr_key row.pr_key).0 (ground (arith, h)),
  )
  where_of-row (sweeps cutoff row) x h = (
    (eq_text_iff x.session_id row.session_id).0 (ground (arith, h)),
    (eq_text_iff x.pr_key row.pr_key).0 (ground (arith, h)),
  )

module _ (db : Sql) (laws : SqlLaws db) where
  -- The row of the session, if there is one, does not hold the key.
  abbrev IsFree : Text → Text → db.Table → Type 0
  IsFree sid k t = (x : ParkRecord) → db.row t sid ≡ some x → x.pr_key ≢ k

  Later-IsFree :
      (sid k : Text) (t t' : db.Table)
      → k ≢ []
      → Later db laws t t'
      → IsFree sid k t
      → IsFree sid k t'
  Later-IsFree sid k t t' full later free x' found same =
      let (x, at_x, from_x) = later sid x' found in
      elim from_x [
        | inl kept ↦ free x at_x (sym (ap (λ r. r.pr_key) kept) ∙ same)
        | inr cleared ↦ full (sym same ∙ ap (λ r. r.pr_key) cleared)
      ]

  tried-Later : (t : db.Table) (c : Claim) → Later db laws t (tried db t c).1
  tried-Later t c =
      subst (λ out. Later db laws t out.1) (sym (tried_lem db t c))
        (claimed_row-Later db laws (where_of db c) t (row_of_claim c) (db.clear (where_of db c) t)
          refl)

  after_all-Later : (ms : List Meanwhile) (t : db.Table) → Later db laws t (after_all db ms t)
  after_all-Later [] t = Later-refl db laws t
  after_all-Later (claims c ∷ ms) t =
      Later-trans db laws t (tried db t c).1 (after_all db ms (tried db t c).1) (tried-Later t c)
        (after_all-Later ms (tried db t c).1)
  after_all-Later (deletes sid ∷ ms) t =
      let t1 = (sqlite_delete db t sid).1 in
      Later-trans db laws t t1 (after_all db ms t1) (delete-Later db laws t sid)
        (after_all-Later ms t1)

  -- No row passes the WHERE clause, if the row of the session does not.
  nothing_else :
      (c : Claim) (t : db.Table)
      → ((x : ParkRecord) → db.row t (row_of_claim c).session_id ≡ some x → where_of db c x ≡ false)
      → (sid : Text) (x : ParkRecord) → db.row t sid ≡ some x
      → where_of db c x ≡ false
  nothing_else c t own sid x found = elim (Bool-cases (where_of db c x)) [
    | inr other ↦ other
    | inl hit ↦
        let named = (where_of-row db c x hit).0 in
        own x (ap (λ s. db.row t s) (sym named ∙ laws.row_key t sid x found) ∙ found)
  ]

  not_won :
      (c : Claim) (t : db.Table) (o : Option (ℕ × db.Table)) (r : ParkRecord)
      → db.clear (where_of db c) t ≡ o
      → ((x : ParkRecord) → db.row t (row_of_claim c).session_id ≡ some x → where_of db c x ≡ false)
      → (claimed_row db t (row_of_claim c) o).0 ≢ some (some r)
  unfolding claimed_row
  not_won c t none r e own won = none-some won
  not_won c t (some (zero, t')) r e own won = none-some (some-injective won)
  not_won c t (some (suc n, t')) r e own won =
      let counted = laws.clear_none (where_of db c) t t' (suc n) e (nothing_else c t own) in
      omega (arith, counted)

  freed :
      (c : Claim) (t : db.Table) (o : Option (ℕ × db.Table)) (r y : ParkRecord)
      → (row_of_claim c).pr_key ≢ []
      → db.clear (where_of db c) t ≡ o
      → db.row t (row_of_claim c).session_id ≡ some y
      → where_of db c y ≡ true
      → (claimed_row db t (row_of_claim c) o).0 ≡ some (some r)
      → IsFree
          (row_of_claim c).session_id
          (row_of_claim c).pr_key
          (claimed_row db t (row_of_claim c) o).1
  unfolding claimed_row
  freed c t none r y full e found hit won x at_x same = absurd (none-some won)
  freed c t (some (zero, t')) r y full e found hit won x at_x same =
      absurd (none-some (some-injective won))
  freed c t (some (suc n, t')) r y full e found hit won x at_x same =
      let sid = (row_of_claim c).session_id in
      let cleared =
        laws.clear_row (where_of db c) t t' (suc n) sid e
        ∙ ap (λ q. Option.map (λ z. if where_of db c z then unpark z else z) q) found in
      let is_y : (if where_of db c y then unpark y else y) ≡ x =
        some-injective (sym cleared ∙ at_x) in
      full (sym same ∙ ap (λ z. z.pr_key) (sym (rw hit at is_y)))

  won-IsFree :
      (c : Claim) (t : db.Table) (r : ParkRecord)
      → (row_of_claim c).pr_key ≢ []
      → (tried db t c).0 ≡ some (some r)
      → IsFree (row_of_claim c).session_id (row_of_claim c).pr_key (tried db t c).1
  won-IsFree c t r full won =
      let sid = (row_of_claim c).session_id in
      let o = db.clear (where_of db c) t in
      let won' : (claimed_row db t (row_of_claim c) o).0 ≡ some (some r) =
        sym (ap (λ out. out.0) (tried_lem db t c)) ∙ won in
      elim (Option-cases (db.row t sid)) [
        | inl missing ↦
            absurd (not_won c t o r refl (λ x found. absurd (none-some (sym missing ∙ found))) won')
        | inr (y, found) ↦ elim (Bool-cases (where_of db c y)) [
          | inl hit ↦
              subst (λ out. IsFree sid (row_of_claim c).pr_key out.1) (sym (tried_lem db t c))
                (freed c t o r y full refl found hit won')
          | inr miss ↦ absurd (
              not_won c t o r refl
                (λ x at_x. ap (where_of db c) (some-injective (sym at_x ∙ found)) ∙ miss) won')
        ]
      ]

  IsFree-not_won :
      (c : Claim) (t : db.Table) (r : ParkRecord)
      → IsFree (row_of_claim c).session_id (row_of_claim c).pr_key t
      → (tried db t c).0 ≢ some (some r)
  IsFree-not_won c t r free won =
      not_won c t (db.clear (where_of db c) t) r refl
        (λ x found. elim (Bool-cases (where_of db c x)) [
          | inl hit ↦ absurd (free x found (where_of-row db c x hit).1)
          | inr miss ↦ miss
        ])
        (sym (ap (λ out. out.0) (tried_lem db t c)) ∙ won)

  -- Of two callers that have read the same parked row at any time, each for a resolve or for a sweep, at
  -- most one is handed the record, whatever other callers claim or delete in between, as long as no one
  -- parks the run again.
  pub claim-once :
      (first second : Claim) (t : db.Table) (between : List Meanwhile) (r x : ParkRecord)
      → is_parked (row_of_claim first) ≡ true
      → (row_of_claim second).session_id ≡ (row_of_claim first).session_id
      → (row_of_claim second).pr_key ≡ (row_of_claim first).pr_key
      → (tried db t first).0 ≡ some (some r)
      → (tried db (after_all db between (tried db t first).1) second).0 ≢ some (some x)
  claim-once first second t between r x parked same_sid same_key won =
      let sid = (row_of_claim first).session_id in
      let k = (row_of_claim first).pr_key in
      let t1 = (tried db t first).1 in
      let t2 = after_all db between t1 in
      let full : k ≢ [] = λ e. false-true (sym (ap (λ q. not (is_empty q)) e) ∙ parked) in
      let free =
        Later-IsFree sid k t1 t2 full (after_all-Later between t1)
          (won-IsFree first t r full won) in
      IsFree-not_won second t2 x (
        subst (λ j. IsFree (row_of_claim second).session_id j t2) (sym same_key)
          (subst (λ z. IsFree z k t2) (sym same_sid) free))
