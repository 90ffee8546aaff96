-- ===== src/ParkStore/Memory/Laws.antt =====
-- go/internal/agent/setup/parkstore.go: `memoryParkStore` is a `ParkStore`. Its errors are nil.
use automation_agent.Common.{
  none-some, some-injective, sym, ◌∙◌, ℕ, ◌≡◌, ap, inl, inr, true, Option, some, Text, text_eq,
  lookup, arith, Option-cases,
}
use automation_agent.ParkStore.{ParkRecord, key, unpark}
use automation_agent.ParkStore.Interface.{ParkStore, ParkStoreLaws, IsClosed, Holds}
use automation_agent.ParkStore.Memory.{
  MemoryStore, empty_store, put, get, resolve_by_pr_key, sweep, delete, sweep_orphans,
}
use automation_agent.ParkStore.Memory.Invariant.{IsWf, empty-IsWf, get-put}
use automation_agent.ParkStore.Memory.Refinement.{
  put-IsWf, delete-IsWf, get-delete, resolve_by_pr_key-Resolved,
}
use automation_agent.ParkStore.Memory.Sweeps.{sweep-IsSwept}
use automation_agent.ParkStore.Memory.Claims.{resolve-IsWf, resolve_twice}

abbrev pub memory_park_store : ParkStore
memory_park_store = record {
  State = MemoryStore;
  put = λ m r. (true, put m r);
  get = λ m sid. some (get m sid);
  resolve_by_pr_key = λ m w k. (some (resolve_by_pr_key m w k).0, (resolve_by_pr_key m w k).1);
  delete = λ m sid. (true, delete m sid);
  sweep = λ m w c. (((sweep m w c).0, true), (sweep m w c).1);
  sweep_orphans = λ m w c. (sweep_orphans m w c, true);
}

module _ (P : ParkRecord → Type 0) (closed : IsClosed P) (m : MemoryStore) (w : IsWf m)
    (h : Holds P (get m)) where
  put-Holds : (r : ParkRecord) → P r → Holds P (get (put m r))
  put-Holds r p sid x e = elim (Option-cases (get m sid)) [
    | inl n ↦ ground (arith, e, n, get-put m w r sid, p)
    | inr (y, f) ↦ ground (arith, e, f, get-put m w r sid, p, h sid y f, closed y (h sid y f))
  ]

  resolve-Holds : (v k : Text) → Holds P (get (resolve_by_pr_key m v k).1)
  resolve-Holds v k sid x e = elim (resolve_by_pr_key-Resolved m v k w) [
    | inl (u, _) ↦ h sid x (rw u at e)
    | inr (owner, r, found, _, _, _, seen, _) ↦ elim (Option-cases (get m sid)) [
      | inl n ↦ ground (arith, e, n, seen sid)
      | inr (y, f) ↦ ground (arith, e, f, seen sid, h sid y f, closed y (h sid y f))
    ]
  ]

  sweep-Holds : (v : Text) (c : ℕ) → Holds P (get (sweep m v c).1)
  sweep-Holds v c sid x e = elim (Option-cases (get m sid)) [
    | inl n ↦ ground (arith, e, n, (sweep-IsSwept m v c w).seen sid)
    | inr (y, f) ↦
        ground (arith, e, f, (sweep-IsSwept m v c w).seen sid, h sid y f, closed y (h sid y f))
  ]

delete-Holds :
    (P : ParkRecord → Type 0) (m : MemoryStore) (sid : Text)
    → IsWf m
    → Holds P (get m)
    → Holds P (get (delete m sid))
delete-Holds P m sid w h j x e = ground (arith, e, get-delete m w sid j, h j x)

resolve-view :
    (m : MemoryStore) (v k : Text) (r : ParkRecord)
    → IsWf m
    → ◌≡◌ {A = Option (Option ParkRecord)} (some (resolve_by_pr_key m v k).0) (some (some r))
    → (sid : Text) × (x : ParkRecord) × (get m sid ≡ some x)
      × (key x ≡ record { workflow = v; pr_key = k })
      × (r ≡ unpark x)
resolve-view m v k r w e = elim (resolve_by_pr_key-Resolved m v k w) [
  | inl (u, _) ↦ ground (arith, e, ap (λ (o : Option ParkRecord × MemoryStore). o.0) u)
  | inr (sid, x, found, same, _, out, _, _) ↦ (sid, x, found, same, ground (arith, e, out))
]

resolve-once :
    (m : MemoryStore) (v k : Text) (x : ParkRecord)
    → IsWf m
    → ◌≡◌ {A = Option (Option ParkRecord)}
        (some (resolve_by_pr_key (resolve_by_pr_key m v k).1 v k).0)
        (some (some x))
    → ⊥
resolve-once m v k x w e =
    none-some (sym (ap (λ o. o.0) (resolve_twice m v k w)) ∙ some-injective e)

-- The memory backend keeps the laws that the fix driver relies on.
pub memory-ParkStoreLaws : ParkStoreLaws memory_park_store
memory-ParkStoreLaws = record {
  IsValid = IsWf;
  view = get;
  put_valid = put-IsWf;
  resolve_valid = resolve-IsWf;
  delete_valid = λ m sid w. delete-IsWf m w sid;
  sweep_valid = λ m v c w. (sweep-IsSwept m v c w).valid;
  put_holds = λ P m r closed w h. put-Holds P closed m w h r;
  resolve_holds = λ P m v k closed w h. resolve-Holds P closed m w h v k;
  delete_holds = delete-Holds;
  sweep_holds = λ P m v c closed w h. sweep-Holds P closed m w h v c;
  get_view = λ m sid o e. ground (arith, e);
  resolve_view = resolve-view;
  resolve_once = λ m v k r w e x. resolve-once m v k x w;
}

-- A store that holds no record is valid, and all its records have every property.
pub empty_store-Holds :
    (P : ParkRecord → Type 0)
    → memory-ParkStoreLaws.IsValid empty_store × Holds P (memory-ParkStoreLaws.view empty_store)
unfolding memory-ParkStoreLaws lookup
empty_store-Holds P = (empty-IsWf, λ sid r e. ground (arith, e))
