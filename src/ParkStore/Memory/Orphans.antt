-- ===== src/ParkStore/Memory/Orphans.antt =====
-- go/internal/agent/setup/parkstore.go: `SweepOrphans`, and the run that a new park displaces.
use automation_agent.Common.{
  ℕ, ◌≡◌, ◌≢◌, refl, ap, ◌∙◌, ◌↔◌, true, none, some, inl, inr, arith, Text, text_eq, eq_text,
  eq_text_iff, lookup, Option-cases, Bool-cases, List, [], ◌∷◌, In, In-keep_iff, map, Map, ltb,
}
use automation_agent.ParkStore.{ParkRecord, key, eq_key_iff, key_eq, is_parked, unpark}
use automation_agent.ParkStore.Memory.{MemoryStore, get, or_zero, put, is_orphan, sweep_orphans}
use automation_agent.ParkStore.Memory.Invariant.{IsWf, get-put}
use automation_agent.ParkStore.Memory.Refinement.{put-IsWf}

-- The values that a `range` over the sessions reads, with the lookups in the map `all`.
abbrev values : Map Text ParkRecord → Map Text ParkRecord → List ParkRecord
values all = map (λ e. or_zero (lookup e.0 all))

In-values :
    (all m : Map Text ParkRecord) (sid : Text) (x : ParkRecord)
    → lookup sid all ≡ some x
    → lookup sid m ≢ none
    → In x (values all m)
unfolding lookup
In-values all [] sid x e h = absurd (h refl)
In-values all ((j, v) ∷ m) sid x e h = elim (Bool-cases (eq_text j sid)) [
  | inl same ↦ inl (ap or_zero (ap (λ k. lookup k all) ((eq_text_iff j sid).0 same) ∙ e))
  | inr other ↦ inr (In-values all m sid x e (λ n. h (ground (arith, other, n))))
]

values_sound :
    (all m : Map Text ParkRecord) (x : ParkRecord)
    → ((sid : Text) → lookup sid m ≢ none → lookup sid all ≢ none)
    → In x (values all m)
    → (sid : Text) × (lookup sid all ≡ some x)
unfolding lookup
values_sound all [] x h i = absurd i
values_sound all ((j, v) ∷ m) x h (inl e) = elim (Option-cases (lookup j all)) [
  | inl n ↦ absurd (h j (ground (arith, eq_text_iff j j)) n)
  | inr (y, f) ↦ (j, f ∙ ground (arith, e, f))
]
values_sound all ((j, v) ∷ m) x h (inr i) =
    values_sound all m x
      (λ sid ne. h sid (elim (Bool-cases (eq_text j sid)) [
        | inl same ↦ ground (arith, same)
        | inr other ↦ ground (arith, other, ne)
      ]))
      i

-- `SweepOrphans` returns exactly the workflow's records that are not parked and were stamped
-- before the cutoff.
pub In-sweep_orphans_iff :
    (m : MemoryStore) (workflow : Text) (cutoff : ℕ) (x : ParkRecord)
    → IsWf m
    → In x (sweep_orphans m workflow cutoff)
      ↔ ((get m x.session_id ≡ some x) × (is_orphan workflow cutoff x ≡ true))
unfolding sweep_orphans
In-sweep_orphans_iff m workflow cutoff x w = (
  λ i.
      let (i', o) =
        (In-keep_iff (is_orphan workflow cutoff) x (values m.by_session m.by_session)).0 i in
      let (sid, e) = values_sound m.by_session m.by_session x (λ sid h. h) i' in
      (ap (get m) (w.listed sid x e) ∙ e, o),
  λ h.
      (In-keep_iff (is_orphan workflow cutoff) x (values m.by_session m.by_session)).1
        (In-values m.by_session m.by_session x.session_id x h.0 (λ n. ground (arith, n, h.0)), h.1),
)

-- A run that a new park displaces keeps its record without the key, so the orphan sweep finds it
-- once its last write is older than the cutoff.
pub put-displaced_orphan :
    (m : MemoryStore) (r x : ParkRecord) (cutoff : ℕ)
    → IsWf m
    → get m x.session_id ≡ some x
    → is_parked x ≡ true
    → key x ≡ key r
    → x.session_id ≢ r.session_id
    → x.updated_at ≢ 0
    → ltb x.updated_at cutoff ≡ true
    → In (unpark x) (sweep_orphans (put m r) r.workflow cutoff)
put-displaced_orphan m r x cutoff w e p same ne stamped old =
    (In-sweep_orphans_iff (put m r) r.workflow cutoff (unpark x) (put-IsWf m r w)).1 (
      ground (
        arith,
        e,
        p,
        same,
        ne,
        get-put m w r x.session_id,
        eq_text_iff r.session_id x.session_id,
        eq_key_iff (key x) (key r),
      ),
      ground (arith, same, stamped, old, eq_text_iff x.workflow r.workflow),
    )
