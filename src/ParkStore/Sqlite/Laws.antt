-- ===== src/ParkStore/Sqlite/Laws.antt =====
-- go/internal/agent/setup/parkstore_sqlite.go: over a database that keeps the promises of SQL, the
-- store keeps the laws that the fix driver relies on.
use automation_agent.Common.{
  ℕ, zero, suc, ◌≡◌, ◌≢◌, ◌⊎◌, inl, inr, refl, sym, ap, subst, ◌∙◌, Bool, true, false, not, ◌&&◌,
  Option, none, some, List, [], ◌∷◌, ltb, if◌then◌else◌, Text, eq_text, eq_text_iff, eq_text_refl,
  is_empty, Bool-cases, Option-cases, none-some, some-injective, false-true, arith,
}
use automation_agent.ParkStore.{ParkRecord, key, is_parked, unpark}
use automation_agent.ParkStore.Interface.{ParkStore, ParkStoreLaws, IsClosed, Holds}
use automation_agent.ParkStore.Sqlite.{
  Sql, or_same, holds_key, save_behind, sqlite_put, sqlite_get, claimed_row, exec_claim, is_row,
  claim, claim_stale, claim_found, is_under, sqlite_resolve, sweep_rows, sweep_found, sqlite_sweep,
  sqlite_sweep_orphans, sqlite_delete,
}
use mathlib.Core.Option

-- What SQL promises of a statement that does not fail.
pub record SqlLaws (db : Sql) : Type 0 where
  pub row_key :
      (t : db.Table) (sid : Text) (x : ParkRecord) → db.row t sid ≡ some x → x.session_id ≡ sid
  pub clear_row :
      (p : ParkRecord → Bool) (t t' : db.Table) (n : ℕ) (sid : Text)
      → db.clear p t ≡ some (n, t')
      → db.row t' sid ≡ Option.map (λ x. if p x then unpark x else x) (db.row t sid)
  pub clear_none :
      (p : ParkRecord → Bool) (t t' : db.Table) (n : ℕ)
      → db.clear p t ≡ some (n, t')
      → ((sid : Text) (x : ParkRecord) → db.row t sid ≡ some x → p x ≡ false)
      → n ≡ 0
  pub save_row :
      (r : ParkRecord) (t t' : db.Table) (sid : Text)
      → db.save r t ≡ some t'
      → db.row t' sid ≡ (if eq_text r.session_id sid then some r else db.row t sid)
  pub first_some :
      (p : ParkRecord → Bool) (t : db.Table) (x : ParkRecord)
      → db.first p t ≡ some (some x)
      → (sid : Text) × (db.row t sid ≡ some x) × (p x ≡ true)
  pub first_none :
      (p : ParkRecord → Bool) (t : db.Table) (sid : Text) (x : ParkRecord)
      → db.first p t ≡ some none
      → db.row t sid ≡ some x
      → p x ≡ false
  pub row_deleted :
      (gone : Text) (t t' : db.Table) (sid : Text)
      → db.delete_row gone t ≡ some t'
      → db.row t' sid ≡ (if eq_text gone sid then none else db.row t sid)

pub sqlite_park_store : Sql → ParkStore
sqlite_park_store db = record {
  State = db.Table;
  put = sqlite_put db;
  get = sqlite_get db;
  resolve_by_pr_key = sqlite_resolve db;
  delete = sqlite_delete db;
  sweep = sqlite_sweep db;
  sweep_orphans = sqlite_sweep_orphans db;
}

module _ (db : Sql) (laws : SqlLaws db) where
  -- A key has one parked row at most.
  abbrev pub IsValid : db.Table → Type 0
  IsValid t =
      (s1 s2 : Text) (x y : ParkRecord)
      → db.row t s1 ≡ some x
      → db.row t s2 ≡ some y
      → is_parked x ≡ true
      → key x ≡ key y
      → s1 ≡ s2

  -- Every row of the second table is one of the first, with its key or without.
  abbrev pub Later : db.Table → db.Table → Type 0
  Later t t' =
      (sid : Text) (x' : ParkRecord)
      → db.row t' sid ≡ some x'
      → (x : ParkRecord) × (db.row t sid ≡ some x) × ((x' ≡ x) ⊎ (x' ≡ unpark x))

  pub Later-refl : (t : db.Table) → Later t t
  Later-refl t sid x e = (x, e, inl refl)

  composed :
      (x y z : ParkRecord)
      → (y ≡ x) ⊎ (y ≡ unpark x)
      → (z ≡ y) ⊎ (z ≡ unpark y)
      → (z ≡ x) ⊎ (z ≡ unpark x)
  composed x y z (inl a) (inl b) = inl (b ∙ a)
  composed x y z (inr a) (inl b) = inr (b ∙ a)
  composed x y z (inl a) (inr b) = inr (b ∙ ap (λ r. unpark r) a)
  composed x y z (inr a) (inr b) = inr (b ∙ ap (λ r. unpark r) a)

  pub Later-trans : (t u v : db.Table) → Later t u → Later u v → Later t v
  Later-trans t u v a b sid z e =
      let (y, at_y, from_y) = b sid z e in
      let (x, at_x, from_x) = a sid y at_y in (x, at_x, composed x y z from_x from_y)

  still_parked : (x x' : ParkRecord) → (x' ≡ x) ⊎ (x' ≡ unpark x) → is_parked x' ≡ true → x' ≡ x
  still_parked x x' (inl same) parked = same
  still_parked x x' (inr same) parked =
      absurd (false-true (sym (ap (λ r. is_parked r) same) ∙ parked))

  Later-IsValid : (t t' : db.Table) → Later t t' → IsValid t → IsValid t'
  Later-IsValid t t' later valid s1 s2 x' y' e1 e2 parked same =
      let (x, at_x, from_x) = later s1 x' e1 in
      let (y, at_y, from_y) = later s2 y' e2 in
      let same_x = still_parked x x' from_x parked in
      let same_y =
        still_parked y y' from_y (sym (ap (λ k. not (is_empty k.pr_key)) same) ∙ parked) in
      valid s1 s2 x y at_x at_y (sym (ap (λ r. is_parked r) same_x) ∙ parked)
        (sym (ap (λ r. key r) same_x) ∙ same ∙ ap (λ r. key r) same_y)

  kept :
      (P : ParkRecord → Type 0)
      → IsClosed P
      → (x x' : ParkRecord) → (x' ≡ x) ⊎ (x' ≡ unpark x)
      → P x
      → P x'
  kept P closed x x' (inl same) h = subst P (sym same) h
  kept P closed x x' (inr same) h = subst P (sym same) (closed x h)

  Later-Holds :
      (P : ParkRecord → Type 0) (t t' : db.Table)
      → IsClosed P
      → Later t t'
      → Holds P (db.row t)
      → Holds P (db.row t')
  Later-Holds P t t' closed later h sid x' e =
      let (x, at_x, from_x) = later sid x' e in kept P closed x x' from_x (h sid x at_x)

  unparked_if :
      (p : Bool) (x x' : ParkRecord) → (if p then unpark x else x) ≡ x' → (x' ≡ x) ⊎ (x' ≡ unpark x)
  unparked_if true x x' e = inr (sym e)
  unparked_if false x x' e = inl (sym e)

  mapped :
      (p : ParkRecord → Bool) (o : Option ParkRecord) (x' : ParkRecord)
      → Option.map (λ x. if p x then unpark x else x) o ≡ some x'
      → (x : ParkRecord) × (o ≡ some x) × ((if p x then unpark x else x) ≡ x')
  mapped p none x' e = absurd (none-some e)
  mapped p (some x) x' e = (x, refl, some-injective e)

  clear-Later :
      (p : ParkRecord → Bool) (t t' : db.Table) (n : ℕ) → db.clear p t ≡ some (n, t') → Later t t'
  clear-Later p t t' n e sid x' at' =
      let (x, found, same) =
        mapped p (db.row t sid) x' (sym (laws.clear_row p t t' n sid e) ∙ at') in
      (x, found, unparked_if (p x) x x' same)

  after_or_same :
      (Q : db.Table → Type 0) (t : db.Table) (o : Option db.Table)
      → Q t
      → ((t' : db.Table) → o ≡ some t' → Q t')
      → Q (or_same db t o).1
  after_or_same Q t none old new = old
  after_or_same Q t (some t') old new = new t' refl

  after_clear :
      (Q : db.Table → Type 0) (r : ParkRecord) (t : db.Table) (o : Option (ℕ × db.Table))
      → Q t
      → ((n : ℕ) (t1 : db.Table) → o ≡ some (n, t1) → Q t1)
      → ((n : ℕ) (t1 t2 : db.Table) → o ≡ some (n, t1) → db.save r t1 ≡ some t2 → Q t2)
      → Q (save_behind db r t o).1
  unfolding save_behind
  after_clear Q r t none old cleared new = old
  after_clear Q r t (some (n, t1)) old cleared new =
      after_or_same Q t1 (db.save r t1) (cleared n t1 refl) (λ t2 e. new n t1 t2 refl e)

  -- No other row is parked under the key of the record.
  abbrev IsSole : ParkRecord → db.Table → Type 0
  IsSole r t =
      (sid : Text) (x : ParkRecord)
      → db.row t sid ≡ some x
      → is_parked r ≡ true
      → key x ≡ key r
      → r.session_id ≡ sid

  row-save :
      (r : ParkRecord) (t t' : db.Table) (sid : Text) (x : ParkRecord)
      → db.save r t ≡ some t'
      → db.row t' sid ≡ some x
      → ((r.session_id ≡ sid) × (x ≡ r)) ⊎ (db.row t sid ≡ some x)
  row-save r t t' sid x saved e = elim (Bool-cases (eq_text r.session_id sid)) [
    | inl here ↦ inl (
      (eq_text_iff r.session_id sid).0 here,
      some-injective (sym e ∙ (rw here at (laws.save_row r t t' sid saved))),
    )
    | inr other ↦ inr (sym (rw other at (laws.save_row r t t' sid saved)) ∙ e)
  ]

  save-IsValid :
      (r : ParkRecord) (t t' : db.Table)
      → db.save r t ≡ some t'
      → IsSole r t
      → IsValid t
      → IsValid t'
  save-IsValid r t t' saved sole valid s1 s2 x y e1 e2 parked same =
      elim (row-save r t t' s1 x saved e1) [
        | inl (here1, is_r1) ↦ elim (row-save r t t' s2 y saved e2) [
          | inl (here2, is_r2) ↦ sym here1 ∙ here2
          | inr old2 ↦
              sym here1
              ∙ sole s2 y old2 (sym (ap (λ r. is_parked r) is_r1) ∙ parked)
                  (sym same ∙ ap (λ r. key r) is_r1)
        ]
        | inr old1 ↦ elim (row-save r t t' s2 y saved e2) [
          | inl (here2, is_r2) ↦
              sym (
                sole s1 x old1
                  (sym (ap (λ k. not (is_empty k.pr_key)) (same ∙ ap (λ r. key r) is_r2)) ∙ parked)
                  (same ∙ ap (λ r. key r) is_r2))
              ∙ here2
          | inr old2 ↦ valid s1 s2 x y old1 old2 parked same
        ]
      ]

  save-Holds :
      (P : ParkRecord → Type 0) (r : ParkRecord) (t t' : db.Table)
      → db.save r t ≡ some t'
      → P r
      → Holds P (db.row t)
      → Holds P (db.row t')
  save-Holds P r t t' saved pr h sid x e = elim (row-save r t t' sid x saved e) [
    | inl (here, is_r) ↦ subst P (sym is_r) pr
    | inr old ↦ h sid x old
  ]

  not_held :
      (x r : ParkRecord)
      → key x ≡ key r
      → holds_key db r x ≡ false
      → eq_text x.session_id r.session_id ≡ true
  not_held x r same free =
      let w = (eq_text_iff x.workflow r.workflow).1 (ap (λ k. k.workflow) same) in
      let k = (eq_text_iff x.pr_key r.pr_key).1 (ap (λ k. k.pr_key) same) in
      ground (arith, w, k, free)

  -- The update in front of the save takes the key from every other row.
  clear-IsSole :
      (r : ParkRecord) (t t' : db.Table) (n : ℕ)
      → db.clear (holds_key db r) t ≡ some (n, t')
      → IsSole r t'
  clear-IsSole r t t' n cleared sid x e parked same =
      let (y, found, out) =
        mapped (holds_key db r) (db.row t sid) x
          (sym (laws.clear_row (holds_key db r) t t' n sid cleared) ∙ e) in
      elim (Bool-cases (holds_key db r y)) [
        | inl held ↦ absurd (
            false-true (
              ap (λ z. is_parked z) (rw held at out)
              ∙ ap (λ k. not (is_empty k.pr_key)) same
              ∙ parked))
        | inr free ↦
            let still = subst (λ z. holds_key db r z ≡ false) (rw free at out) free in
            sym ((eq_text_iff x.session_id r.session_id).0 (not_held x r same still))
            ∙ laws.row_key t' sid x e
      ]

  put-IsValid : (t : db.Table) (r : ParkRecord) → IsValid t → IsValid (sqlite_put db t r).1
  unfolding sqlite_put
  put-IsValid t r valid = elim (Bool-cases (is_parked r)) [
    | inl parked ↦ rw parked (
        after_clear IsValid r t (db.clear (holds_key db r) t) valid
          (λ n t1 e. Later-IsValid t t1 (clear-Later (holds_key db r) t t1 n e) valid)
          (λ n t1 t2 e saved.
            save-IsValid r t1 t2 saved (clear-IsSole r t t1 n e)
              (Later-IsValid t t1 (clear-Later (holds_key db r) t t1 n e) valid)))
    | inr free ↦ rw free (
        after_or_same IsValid t (db.save r t) valid (λ t' saved.
          save-IsValid r t t' saved (λ sid x e parked same. absurd (false-true (sym free ∙ parked)))
            valid))
  ]

  put-Holds :
      (P : ParkRecord → Type 0) (t : db.Table) (r : ParkRecord)
      → IsClosed P
      → Holds P (db.row t)
      → P r
      → Holds P (db.row (sqlite_put db t r).1)
  unfolding sqlite_put
  put-Holds P t r closed h pr = elim (Bool-cases (is_parked r)) [
    | inl parked ↦ rw parked (
        after_clear (λ u. Holds P (db.row u)) r t (db.clear (holds_key db r) t) h
          (λ n t1 e. Later-Holds P t t1 closed (clear-Later (holds_key db r) t t1 n e) h)
          (λ n t1 t2 e saved.
            save-Holds P r t1 t2 saved pr
              (Later-Holds P t t1 closed (clear-Later (holds_key db r) t t1 n e) h)))
    | inr free ↦ rw free (
        after_or_same (λ u. Holds P (db.row u)) t (db.save r t) h
          (λ t' saved. save-Holds P r t t' saved pr h))
  ]

  delete-row :
      (t : db.Table) (gone sid : Text) (x : ParkRecord)
      → db.row (sqlite_delete db t gone).1 sid ≡ some x
      → db.row t sid ≡ some x
  unfolding sqlite_delete
  delete-row t gone sid x =
      after_or_same (λ u. db.row u sid ≡ some x → db.row t sid ≡ some x) t (db.delete_row gone t)
        (λ e. e)
        λ t' e at'. elim (Bool-cases (eq_text gone sid)) [
          | inl here ↦
              absurd (none-some (sym (rw here at (laws.row_deleted gone t t' sid e)) ∙ at'))
          | inr other ↦ sym (rw other at (laws.row_deleted gone t t' sid e)) ∙ at'
        ]

  pub delete-Later : (t : db.Table) (gone : Text) → Later t (sqlite_delete db t gone).1
  delete-Later t gone sid x e = (x, delete-row t gone sid x e, inl refl)

  delete-Holds :
      (P : ParkRecord → Type 0) (t : db.Table) (gone : Text)
      → Holds P (db.row t)
      → Holds P (db.row (sqlite_delete db t gone).1)
  delete-Holds P t gone h sid x e = h sid x (delete-row t gone sid x e)

  pub claimed_row-Later :
      (p : ParkRecord → Bool) (t : db.Table) (row : ParkRecord) (o : Option (ℕ × db.Table))
      → db.clear p t ≡ o
      → Later t (claimed_row db t row o).1
  unfolding claimed_row
  claimed_row-Later p t row none e = Later-refl t
  claimed_row-Later p t row (some (zero, t')) e = clear-Later p t t' zero e
  claimed_row-Later p t row (some (suc n, t')) e = clear-Later p t t' (suc n) e

  claim_found-Later :
      (t : db.Table) (o : Option (Option ParkRecord)) → Later t (claim_found db t o).1
  unfolding claim_found claim exec_claim
  claim_found-Later t none = Later-refl t
  claim_found-Later t (some none) = Later-refl t
  claim_found-Later t (some (some row)) =
      claimed_row-Later (is_row db row) t row (db.clear (is_row db row) t) refl

  resolve-Later : (t : db.Table) (w k : Text) → Later t (sqlite_resolve db t w k).1
  unfolding sqlite_resolve
  resolve-Later t w k = elim (Bool-cases (is_empty k)) [
    | inl blank ↦ rw blank (Later-refl t)
    | inr full ↦ rw full (claim_found-Later t (db.first (is_under db w k) t))
  ]

  sweep_rows-Later :
      (cutoff : ℕ) (rows : List ParkRecord) (t : db.Table) → Later t (sweep_rows db cutoff rows t).1
  unfolding sweep_rows claim_stale exec_claim
  sweep_rows-Later cutoff [] t = Later-refl t
  sweep_rows-Later cutoff (row ∷ rows) t =
      let stale : ParkRecord → Bool = λ x. is_row db row x && ltb x.updated_at cutoff in
      let t1 = (claimed_row db t row (db.clear stale t)).1 in
      Later-trans t t1 (sweep_rows db cutoff rows t1).1
        (claimed_row-Later stale t row (db.clear stale t) refl) (sweep_rows-Later cutoff rows t1)

  sweep_found-Later :
      (cutoff : ℕ) (t : db.Table) (o : Option (List ParkRecord))
      → Later t (sweep_found db cutoff t o).1
  unfolding sweep_found
  sweep_found-Later cutoff t none = Later-refl t
  sweep_found-Later cutoff t (some rows) = sweep_rows-Later cutoff rows t

  sweep-Later : (t : db.Table) (w : Text) (cutoff : ℕ) → Later t (sqlite_sweep db t w cutoff).1
  unfolding sqlite_sweep
  sweep-Later t w cutoff =
      sweep_found-Later cutoff t (
        db.find (λ x. eq_text x.workflow w && not (is_empty x.pr_key) && ltb x.updated_at cutoff) t)

  get-view :
      (t : db.Table) (sid : Text) (o : Option ParkRecord)
      → sqlite_get db t sid ≡ some o
      → db.row t sid ≡ o
  unfolding sqlite_get
  get-view t sid none e = elim (Option-cases (db.row t sid)) [
    | inl missing ↦ missing
    | inr (x, found) ↦ absurd (
        false-true (
          sym (laws.first_none _ t sid x e found)
          ∙ (eq_text_iff x.session_id sid).1 (laws.row_key t sid x found)))
  ]
  get-view t sid (some x) e =
      let (s, found, same) = laws.first_some _ t x e in
      let at_sid = sym (laws.row_key t s x found) ∙ (eq_text_iff x.session_id sid).0 same in
      subst (λ z. db.row t z ≡ some x) at_sid found

  under_key :
      (x : ParkRecord) (w k : Text)
      → is_under db w k x ≡ true
      → key x ≡ record { workflow = w; pr_key = k }
  under_key x w k under = λ i. record {
    workflow = (eq_text_iff x.workflow w).0 (ground (arith, under)) i;
    pr_key = (eq_text_iff x.pr_key k).0 (ground (arith, under)) i;
  }

  -- A claim that won returns the row without its key, and the table is the one behind the update.
  abbrev IsWon : db.Table → ParkRecord → ParkRecord → db.Table → Type 0
  IsWon t row r t' = (r ≡ unpark row) × ((n : ℕ) × (db.clear (is_row db row) t ≡ some (n, t')))

  claimed_row-IsWon :
      (t : db.Table) (row r : ParkRecord) (o : Option (ℕ × db.Table))
      → db.clear (is_row db row) t ≡ o
      → (claimed_row db t row o).0 ≡ some (some r)
      → IsWon t row r (claimed_row db t row o).1
  unfolding claimed_row
  claimed_row-IsWon t row r none e won = absurd (none-some won)
  claimed_row-IsWon t row r (some (zero, t')) e won = absurd (none-some (some-injective won))
  claimed_row-IsWon t row r (some (suc n, t')) e won =
      (sym (some-injective (some-injective won)), (suc n, e))

  abbrev IsResolved : db.Table → Text → Text → ParkRecord → db.Table → Type 0
  IsResolved t w k r t' =
      (sid : Text) × (x : ParkRecord) × (db.row t sid ≡ some x)
      × (key x ≡ record { workflow = w; pr_key = k })
      × IsWon t x r t'

  claim_found-IsResolved :
      (t : db.Table) (w k : Text) (r : ParkRecord) (o : Option (Option ParkRecord))
      → db.first (is_under db w k) t ≡ o
      → (claim_found db t o).0 ≡ some (some r)
      → IsResolved t w k r (claim_found db t o).1
  unfolding claim_found claim exec_claim
  claim_found-IsResolved t w k r none e won = absurd (none-some won)
  claim_found-IsResolved t w k r (some none) e won = absurd (none-some (some-injective won))
  claim_found-IsResolved t w k r (some (some row)) e won =
      let (sid, found, under) = laws.first_some (is_under db w k) t row e in
      (
        sid,
        row,
        found,
        under_key row w k under,
        claimed_row-IsWon t row r (db.clear (is_row db row) t) refl won,
      )

  resolve_if :
      (t : db.Table) (w k : Text) (r : ParkRecord) (blank : Bool)
      → is_empty k ≡ blank
      → let out =
          if blank then (some none, t) else claim_found db t (db.first (is_under db w k) t) in
        out.0 ≡ some (some r) → (is_empty k ≡ false) × IsResolved t w k r out.1
  resolve_if t w k r true e won = absurd (none-some (some-injective won))
  resolve_if t w k r false e won =
      (e, claim_found-IsResolved t w k r (db.first (is_under db w k) t) refl won)

  -- A claim that won claims a row that is parked under the key, which is not empty.
  resolve-IsResolved :
      (t : db.Table) (w k : Text) (r : ParkRecord)
      → (sqlite_resolve db t w k).0 ≡ some (some r)
      → (is_empty k ≡ false) × IsResolved t w k r (sqlite_resolve db t w k).1
  unfolding sqlite_resolve
  resolve-IsResolved t w k r won = resolve_if t w k r (is_empty k) refl won

  cleared_self : (x : ParkRecord) → (if is_row db x x then unpark x else x) ≡ unpark x
  cleared_self x = rw (eq_text_refl x.session_id, eq_text_refl x.pr_key) refl

  -- Of two resolves of one key, one behind the other, at most one returns a record, if a key has one
  -- parked row at most.
  sqlite_resolve-once :
      (t : db.Table) (w k : Text) (r x : ParkRecord)
      → IsValid t
      → (sqlite_resolve db t w k).0 ≡ some (some r)
      → (sqlite_resolve db (sqlite_resolve db t w k).1 w k).0 ≢ some (some x)
  sqlite_resolve-once t w k r x valid won again =
      let t1 = (sqlite_resolve db t w k).1 in
      let (full, resolved) = resolve-IsResolved t w k r won in
      let (sid, x0, found, same, claimed) = resolved in
      let (n, cleared) = claimed.1 in
      let (_, resolved2) = resolve-IsResolved t1 w k x again in
      let (sid2, z, found2, same2, claimed2) = resolved2 in
      let parked : is_parked z ≡ true = ap (λ j. not (is_empty j.pr_key)) same2 ∙ ap not full in
      let (y, at_y, from_y) = resolve-Later t w k sid2 z found2 in
      let kept_y = still_parked y z from_y parked in
      let parked_x : is_parked x0 ≡ true = ap (λ j. not (is_empty j.pr_key)) same ∙ ap not full in
      let one =
        valid sid sid2 x0 y found at_y parked_x (same ∙ sym same2 ∙ ap (λ q. key q) kept_y) in
      let freed =
        laws.clear_row (is_row db x0) t t1 n sid cleared
        ∙ ap (λ o. Option.map (λ q. if is_row db x0 q then unpark q else q) o) found in
      false-true (
        sym (ap (λ q. is_parked q) (cleared_self x0))
        ∙ ap (λ q. is_parked q)
            (some-injective (sym freed ∙ subst (λ q. db.row t1 q ≡ some z) (sym one) found2))
        ∙ parked)

  -- Whichever statements fail, no operation leaves two parked rows under one key, if there were none
  -- before.
  pub sqlite-IsValid :
      (t : db.Table)
      → IsValid t
      → ((r : ParkRecord) → IsValid (sqlite_put db t r).1)
        × ((w k : Text) → IsValid (sqlite_resolve db t w k).1)
        × ((w : Text) (cutoff : ℕ) → IsValid (sqlite_sweep db t w cutoff).1)
        × ((gone : Text) → IsValid (sqlite_delete db t gone).1)
  sqlite-IsValid t valid = (
    (λ r. put-IsValid t r valid),
    (λ w k. Later-IsValid t (sqlite_resolve db t w k).1 (resolve-Later t w k) valid),
    (λ w cutoff. Later-IsValid t (sqlite_sweep db t w cutoff).1 (sweep-Later t w cutoff) valid),
    (λ gone. Later-IsValid t (sqlite_delete db t gone).1 (delete-Later t gone) valid),
  )

  -- Over any database that keeps the promises of SQL, and whichever statements fail, the store keeps
  -- the laws that the fix driver relies on.
  pub sqlite-ParkStoreLaws : ParkStoreLaws (sqlite_park_store db)
  unfolding sqlite_park_store
  sqlite-ParkStoreLaws = record {
    IsValid = IsValid;
    view = db.row;
    put_valid = put-IsValid;
    resolve_valid = λ t w k valid. (sqlite-IsValid t valid).1 w k;
    delete_valid = λ t sid valid. (sqlite-IsValid t valid).3 sid;
    sweep_valid = λ t w c valid. (sqlite-IsValid t valid).2 w c;
    put_holds = λ P t r closed valid h pr. put-Holds P t r closed h pr;
    resolve_holds = λ P t w k closed valid h.
        Later-Holds P t (sqlite_resolve db t w k).1 closed (resolve-Later t w k) h;
    delete_holds = λ P t sid valid h. delete-Holds P t sid h;
    sweep_holds = λ P t w c closed valid h.
        Later-Holds P t (sqlite_sweep db t w c).1 closed (sweep-Later t w c) h;
    get_view = get-view;
    resolve_view = λ t w k r valid won.
        let (sid, x, found, same, claimed) = (resolve-IsResolved t w k r won).1 in
        (sid, x, found, same, claimed.0);
    resolve_once = λ t w k r valid won x again. sqlite_resolve-once t w k r x valid won again;
  }
