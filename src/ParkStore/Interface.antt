-- ===== src/ParkStore/Interface.antt =====
-- go/internal/agent/setup/parkstore.go, the interface `ParkStore`: what the fix driver calls, an
-- error of the backend included, and what it relies on.
use automation_agent.Common.{◌≢◌, ℕ, ◌≡◌, Bool, Option, some, List, Text}
use automation_agent.ParkStore.{ParkRecord, key, unpark}
use automation_agent.ParkStore.View.{View}

-- `none`, or `false`, is an error of the backend.
pub record ParkStore : Type 1 where
  pub State : Type 0
  pub put : State → ParkRecord → Bool × State
  pub get : State → Text → Option (Option ParkRecord)
  pub resolve_by_pr_key : State → Text → Text → Option (Option ParkRecord) × State
  pub delete : State → Text → Bool × State
  pub sweep : State → Text → ℕ → (List ParkRecord × Bool) × State
  pub sweep_orphans : State → Text → ℕ → List ParkRecord × Bool

abbrev pub IsClosed : (ParkRecord → Type 0) → Type 0
IsClosed P = (r : ParkRecord) → P r → P (unpark r)

abbrev pub Holds : (ParkRecord → Type 0) → View → Type 0
Holds P v = (sid : Text) (r : ParkRecord) → v sid ≡ some r → P r

-- A store makes up no record: what holds of every record, parked or not, goes on to hold. A claim
-- returns a record that was parked under the key, and a second claim of the key returns none.
pub record ParkStoreLaws (s : ParkStore) : Type 1 where
  pub IsValid : s.State → Type 0
  pub view : s.State → View
  pub put_valid : (st : s.State) (r : ParkRecord) → IsValid st → IsValid (s.put st r).1
  pub resolve_valid :
      (st : s.State) (w k : Text) → IsValid st → IsValid (s.resolve_by_pr_key st w k).1
  pub delete_valid : (st : s.State) (sid : Text) → IsValid st → IsValid (s.delete st sid).1
  pub sweep_valid : (st : s.State) (w : Text) (c : ℕ) → IsValid st → IsValid (s.sweep st w c).1
  pub put_holds :
      (P : ParkRecord → Type 0) (st : s.State) (r : ParkRecord)
      → IsClosed P
      → IsValid st
      → Holds P (view st)
      → P r
      → Holds P (view (s.put st r).1)
  pub resolve_holds :
      (P : ParkRecord → Type 0) (st : s.State) (w k : Text)
      → IsClosed P
      → IsValid st
      → Holds P (view st)
      → Holds P (view (s.resolve_by_pr_key st w k).1)
  pub delete_holds :
      (P : ParkRecord → Type 0) (st : s.State) (sid : Text)
      → IsValid st
      → Holds P (view st)
      → Holds P (view (s.delete st sid).1)
  pub sweep_holds :
      (P : ParkRecord → Type 0) (st : s.State) (w : Text) (c : ℕ)
      → IsClosed P
      → IsValid st
      → Holds P (view st)
      → Holds P (view (s.sweep st w c).1)
  pub get_view :
      (st : s.State) (sid : Text) (o : Option ParkRecord) → s.get st sid ≡ some o → view st sid ≡ o
  pub resolve_view :
      (st : s.State) (w k : Text) (r : ParkRecord)
      → IsValid st
      → (s.resolve_by_pr_key st w k).0 ≡ some (some r)
      → (sid : Text) × (x : ParkRecord) × (view st sid ≡ some x)
        × (key x ≡ record { workflow = w; pr_key = k })
        × (r ≡ unpark x)
  pub resolve_once :
      (st : s.State) (w k : Text) (r : ParkRecord)
      → IsValid st
      → (s.resolve_by_pr_key st w k).0 ≡ some (some r)
      → (x : ParkRecord)
      → (s.resolve_by_pr_key (s.resolve_by_pr_key st w k).1 w k).0 ≢ some (some x)
