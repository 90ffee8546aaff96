-- ===== src/ParkStore/Memory/Claims.antt =====
-- go/internal/agent/setup/parkstore.go: a webhook, its duplicates, the timeout sweep and a new park
-- on the same PR, one after another.
use automation_agent.Common.{
  ℕ, ◌≡◌, ◌≢◌, refl, sym, ap, ◌∙◌, true, Option, none, some, inl, inr, arith, Text, text_eq,
  eq_text_iff, Option-cases, In,
}
use automation_agent.ParkStore.{ParkRecord, IndexKey, key, key_eq, is_parked, unpark}
use automation_agent.ParkStore.View.{after_claim}
use automation_agent.ParkStore.Memory.{MemoryStore, get, put, resolve_by_pr_key, sweep}
use automation_agent.ParkStore.Memory.Invariant.{IsWf, get-put}
use automation_agent.ParkStore.Memory.Refinement.{resolve_by_pr_key-Resolved, put-IsWf}
use automation_agent.ParkStore.Memory.Sweeps.{sweep-IsSwept}

-- At most one session is parked under a key.
parked_unique :
    (m : MemoryStore)
    → IsWf m
    → (i j : Text) (x y : ParkRecord) → get m i ≡ some x
    → get m j ≡ some y
    → is_parked x ≡ true
    → key x ≡ key y
    → i ≡ j
parked_unique m w i j x y e f p same = ground (arith, w.parked i x e p, w.parked j y f, same)

-- No session is parked under the key.
abbrev pub IsFree : MemoryStore → IndexKey → Type 0
IsFree m k = (sid : Text) (x : ParkRecord) → get m sid ≡ some x → is_parked x ≡ true → key x ≢ k

resolve-IsFree :
    (m : MemoryStore) (workflow pr_key : Text)
    → IsWf m
    → IsFree
        (resolve_by_pr_key m workflow pr_key).1
        (record { workflow = workflow; pr_key = pr_key })
resolve-IsFree m workflow pr_key w sid x e p same =
    elim (resolve_by_pr_key-Resolved m workflow pr_key w) [
      | inl (unchanged, free) ↦ free sid x (rw unchanged at e) p same
      | inr (owner, r, found, key_r, _, _, seen, _) ↦
          claimed owner r found key_r (sym (seen sid) ∙ e)
    ]
  where
    claimed :
        (owner : Text) (r : ParkRecord)
        → get m owner ≡ some r
        → key r ≡ record { workflow = workflow; pr_key = pr_key }
        → after_claim owner (get m) sid ≡ some x
        → ⊥
    claimed owner r found key_r h = elim (Option-cases (get m sid)) [
      | inl n ↦ ground (arith, h, n)
      | inr (y, f) ↦ ground (
        arith,
        h,
        f,
        p,
        same,
        found,
        key_r,
        eq_text_iff owner sid,
        λ (q : is_parked y ≡ true) (s : key y ≡ key r). parked_unique m w sid owner y r f found q s,
      )
    ]

resolve-none_of_IsFree :
    (m : MemoryStore) (workflow pr_key : Text)
    → IsWf m
    → IsFree m (record { workflow = workflow; pr_key = pr_key })
    → resolve_by_pr_key m workflow pr_key ≡ (none, m)
resolve-none_of_IsFree m workflow pr_key w free =
    elim (resolve_by_pr_key-Resolved m workflow pr_key w) [
      | inl (e, _) ↦ e
      | inr (sid, r, e, same, p, _, _, _) ↦ absurd (free sid r e p same)
    ]

pub resolve-IsWf :
    (m : MemoryStore) (workflow pr_key : Text)
    → IsWf m
    → IsWf (resolve_by_pr_key m workflow pr_key).1
resolve-IsWf m workflow pr_key w = elim (resolve_by_pr_key-Resolved m workflow pr_key w) [
  | inl (e, _) ↦ rw e w
  | inr (_, _, _, _, _, _, _, valid) ↦ valid
]

-- Of two resolves of one key the second finds nothing and changes nothing, whoever won the first.
pub resolve_twice :
    (m : MemoryStore) (workflow pr_key : Text)
    → IsWf m
    → let m' = (resolve_by_pr_key m workflow pr_key).1 in
      resolve_by_pr_key m' workflow pr_key ≡ (none, m')
resolve_twice m workflow pr_key w =
    resolve-none_of_IsFree _ workflow pr_key (resolve-IsWf m workflow pr_key w)
      (resolve-IsFree m workflow pr_key w)

-- A webhook after the timeout sweep finds nothing: the sweep has claimed every stale run of the
-- workflow, and the key of a swept run resolves to nothing.
pub resolve-sweep :
    (m : MemoryStore) (workflow : Text) (cutoff : ℕ) (x : ParkRecord)
    → IsWf m
    → In x (sweep m workflow cutoff).0
    → let m' = (sweep m workflow cutoff).1 in resolve_by_pr_key m' workflow x.pr_key ≡ (none, m')
resolve-sweep m workflow cutoff x w i =
    let s = sweep-IsSwept m workflow cutoff w in
    let (found, st) = s.sound x i in
    resolve-none_of_IsFree _ workflow x.pr_key s.valid λ sid y e p same.
      elim (Option-cases (get m sid)) [
        | inl n ↦ ground (arith, e, n, s.seen sid)
        | inr (z, f) ↦ ground (
          arith,
          e,
          f,
          p,
          same,
          found,
          st,
          s.seen sid,
          eq_text_iff x.workflow workflow,
          λ (q : is_parked x ≡ true) (h : key x ≡ key z).
              parked_unique m w x.session_id sid x z found f q h,
        )
      ]

-- A timeout sweep after the webhook does not return the run that the webhook claimed.
pub sweep-resolve :
    (m : MemoryStore) (workflow pr_key sweeping : Text) (cutoff : ℕ) (r x : ParkRecord)
    → IsWf m
    → (resolve_by_pr_key m workflow pr_key).0 ≡ some r
    → In x (sweep (resolve_by_pr_key m workflow pr_key).1 sweeping cutoff).0
    → x.session_id ≢ r.session_id
sweep-resolve m workflow pr_key sweeping cutoff r x w won i =
    let s = sweep-IsSwept _ sweeping cutoff (resolve-IsWf m workflow pr_key w) in
    let (found, st) = s.sound x i in
    elim (resolve_by_pr_key-Resolved m workflow pr_key w) [
      | inl (e, _) ↦ λ _. ground (arith, won, ap (λ (o : Option ParkRecord × MemoryStore). o.0) e)
      | inr (sid, c, at_sid, _, p, result, seen, _) ↦ λ same. ground (
        arith,
        won,
        result,
        found,
        st,
        same,
        seen x.session_id,
        at_sid,
        w.listed sid c at_sid,
        eq_text_iff sid x.session_id,
      )
    ]

-- A run that was just parked is the one that its PR key resolves to, whatever was parked there.
pub resolve-put :
    (m : MemoryStore) (r : ParkRecord)
    → IsWf m
    → is_parked r ≡ true
    → (resolve_by_pr_key (put m r) r.workflow r.pr_key).0 ≡ some (unpark r)
resolve-put m r w p =
    let at_r : get (put m r) r.session_id ≡ some r =
      ground (arith, get-put m w r r.session_id, eq_text_iff r.session_id r.session_id) in
    elim (resolve_by_pr_key-Resolved (put m r) r.workflow r.pr_key (put-IsWf m r w)) [
      | inl (_, free) ↦ absurd (free r.session_id r at_r p refl)
      | inr (sid, c, found, same, q, result, _, _) ↦ ground (
        arith,
        result,
        found,
        at_r,
        same,
        parked_unique (put m r) (put-IsWf m r w) sid r.session_id c r found at_r q same,
      )
    ]

-- An operation of one workflow leaves the records of every other workflow as they are.
pub other_workflow_kept :
    (m : MemoryStore) (workflow pr_key : Text) (cutoff : ℕ) (sid : Text) (x : ParkRecord)
    → IsWf m
    → get m sid ≡ some x
    → x.workflow ≢ workflow
    → (get (resolve_by_pr_key m workflow pr_key).1 sid ≡ some x)
      × (get (sweep m workflow cutoff).1 sid ≡ some x)
other_workflow_kept m workflow pr_key cutoff sid x w e ne = (
  elim (resolve_by_pr_key-Resolved m workflow pr_key w) [
    | inl (h, _) ↦ rw h e
    | inr (owner, r, found, same, _, _, seen, _) ↦
        ground (arith, e, ne, found, same, seen sid, eq_text_iff owner sid)
  ],
  ground
      (arith, e, (sweep-IsSwept m workflow cutoff w).seen sid, ne, eq_text_iff x.workflow workflow),
)
