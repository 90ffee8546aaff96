-- ===== src/ParkStore/Sqlite.antt =====
-- go/internal/agent/setup/parkstore_sqlite.go: the park store over a table of a database. The
-- statements are the fields of `Sql`: `none` is an error, and a statement that fails changes nothing.
-- An operation is its statements in their order, with no other caller between them; in Races other
-- callers come between the read of a row and its claim.
pub mod Laws
pub mod Races
mod Tests
use automation_agent.Common.{
  ℕ, zero, suc, Bool, true, false, not, ◌&&◌, Option, none, some, List, [], ◌∷◌, ltb, if◌then◌else◌,
  Text, eq_text, is_empty,
}
use automation_agent.ParkStore.{ParkRecord, is_parked, unpark}
use automation_agent.ParkStore.View.{View}
use mathlib.Core.Option

-- A predicate is a WHERE clause. `row` is the row of a primary key, which is the session id, and
-- `clear` is `UPDATE parked_runs SET pr_key = ''`, which counts the rows it changed.
pub record Sql : Type 1 where
  pub Table : Type 0
  pub row : Table → View
  pub clear : (ParkRecord → Bool) → Table → Option (ℕ × Table)
  pub save : ParkRecord → Table → Option Table
  pub first : (ParkRecord → Bool) → Table → Option (Option ParkRecord)
  pub find : (ParkRecord → Bool) → Table → Option (List ParkRecord)
  pub delete_row : Text → Table → Option Table

module _ (db : Sql) where
  abbrev T : Type 0
  T = db.Table

  -- A statement that fails leaves the table as it was.
  abbrev or_same : T → Option T → Bool × T
  or_same t none = (false, t)
  or_same t (some t') = (true, t')

  abbrev holds_key : ParkRecord → ParkRecord → Bool
  holds_key r x =
      eq_text x.workflow r.workflow
      && eq_text x.pr_key r.pr_key
      && not (eq_text x.session_id r.session_id)

  save_behind : ParkRecord → T → Option (ℕ × T) → Bool × T
  save_behind r t none = (false, t)
  save_behind r t (some (n, t')) = or_same t' (db.save r t')

  pub sqlite_put : T → ParkRecord → Bool × T
  unfolding save_behind
  sqlite_put t r =
      if is_parked r then save_behind r t (db.clear (holds_key r) t) else or_same t (db.save r t)

  pub sqlite_get : T → Text → Option (Option ParkRecord)
  sqlite_get t sid = db.first (λ x. eq_text x.session_id sid) t

  unfoldable pub claimed_row : T → ParkRecord → Option (ℕ × T) → Option (Option ParkRecord) × T
  claimed_row t row none = (none, t)
  claimed_row t row (some (zero, t')) = (some none, t')
  claimed_row t row (some (suc n, t')) = (some (some (unpark row)), t')

  -- The UPDATE of a claim.
  unfoldable pub exec_claim : (ParkRecord → Bool) → T → ParkRecord → Option (Option ParkRecord) × T
  unfolding claimed_row
  exec_claim p t row = claimed_row t row (db.clear p t)

  abbrev is_row : ParkRecord → ParkRecord → Bool
  is_row row x = eq_text x.session_id row.session_id && eq_text x.pr_key row.pr_key

  unfoldable pub claim : T → ParkRecord → Option (Option ParkRecord) × T
  unfolding exec_claim
  claim t row = exec_claim (is_row row) t row

  unfoldable pub claim_stale : ℕ → T → ParkRecord → Option (Option ParkRecord) × T
  unfolding exec_claim
  claim_stale cutoff t row = exec_claim (λ x. is_row row x && ltb x.updated_at cutoff) t row

  unfoldable pub claim_found : T → Option (Option ParkRecord) → Option (Option ParkRecord) × T
  unfolding claim
  claim_found t none = (none, t)
  claim_found t (some none) = (some none, t)
  claim_found t (some (some row)) = claim t row

  abbrev is_under : Text → Text → ParkRecord → Bool
  is_under workflow pr_key x = eq_text x.workflow workflow && eq_text x.pr_key pr_key

  unfoldable pub sqlite_resolve : T → Text → Text → Option (Option ParkRecord) × T
  unfolding claim_found
  sqlite_resolve t workflow pr_key =
      if is_empty pr_key
      then (some none, t)
      else claim_found t (db.first (is_under workflow pr_key) t)

  -- What the claim of one candidate adds: the record with its key, or an error.
  swept_with :
      ParkRecord → Option (Option ParkRecord) → List ParkRecord × Bool → List ParkRecord × Bool
  swept_with row none (out, fine) = (out, false)
  swept_with row (some none) rest = rest
  swept_with row (some (some rec)) (out, fine) = (record rec { pr_key = row.pr_key } ∷ out, fine)

  pub sweep_rows : ℕ → List ParkRecord → T → (List ParkRecord × Bool) × T
  unfolding claim_stale swept_with
  sweep_rows cutoff [] t = (([], true), t)
  sweep_rows cutoff (row ∷ rows) t =
      let (claimed, t1) = claim_stale cutoff t row in
      let (rest, t2) = sweep_rows cutoff rows t1 in (swept_with row claimed rest, t2)

  sweep_found : ℕ → T → Option (List ParkRecord) → (List ParkRecord × Bool) × T
  unfolding sweep_rows
  sweep_found cutoff t none = (([], false), t)
  sweep_found cutoff t (some rows) = sweep_rows cutoff rows t

  pub sqlite_sweep : T → Text → ℕ → (List ParkRecord × Bool) × T
  unfolding sweep_found
  sqlite_sweep t workflow cutoff = sweep_found cutoff t (
      db.find
        (λ x. eq_text x.workflow workflow && not (is_empty x.pr_key) && ltb x.updated_at cutoff) t)

  abbrev or_none : Option (List ParkRecord) → List ParkRecord × Bool
  or_none none = ([], false)
  or_none (some rows) = (rows, true)

  pub sqlite_sweep_orphans : T → Text → ℕ → List ParkRecord × Bool
  sqlite_sweep_orphans t workflow cutoff =
      or_none (
        db.find (λ x. eq_text x.workflow workflow && is_empty x.pr_key && ltb x.updated_at cutoff)
          t)

  pub sqlite_delete : T → Text → Bool × T
  sqlite_delete t sid = or_same t (db.delete_row sid t)
