-- ===== src/ParkStore/Memory/Refinement.antt =====
-- go/internal/agent/setup/parkstore.go: each operation of `memoryParkStore` keeps the two maps in
-- agreement and makes of the sessions what the interface `ParkStore` promises.
use automation_agent.Common.{
  [], ◌∷◌, ◌≢◌, ◌≡◌, refl, sym, ap, ◌∙◌, ◌⊎◌, true, false, Option, none, some, inl, inr, arith,
  Text, text_eq, eq_text, eq_text_iff, eq_text_refl, lookup, remove, lookup-insert, lookup-remove,
  ◌&&◌, Option-cases, Bool-cases,
}
use automation_agent.ParkStore.{
  ParkRecord, IndexKey, key, eq_key, eq_key_iff, key_eq, is_parked, unpark,
}
use automation_agent.ParkStore.View.{after_claim, after_delete}
use automation_agent.ParkStore.Memory.{
  MemoryStore, put, get, or_zero, claim_locked, claim_owner, resolve_by_pr_key, drop_index, delete,
}
use automation_agent.ParkStore.Memory.Invariant.{IsWf, without, lookup-put_index, get-put}

some_of_without :
    (sid : Text) (o : Option Text) {owner : Text}
    → without sid o ≡ some owner
    → (o ≡ some owner) × (eq_text owner sid ≡ false)
some_of_without sid none e = cc
some_of_without sid (some a) e = ground arith

-- `Put` keeps the index and the parked records in agreement.
pub put-IsWf : (m : MemoryStore) (r : ParkRecord) → IsWf m → IsWf (put m r)
put-IsWf m r w = record { listed = listed; parked = parked; indexed = indexed }
  where
    listed : (sid : Text) (x : ParkRecord) → get (put m r) sid ≡ some x → x.session_id ≡ sid
    listed sid x e = elim (Option-cases (get m sid)) [
      | inl n ↦ ground (arith, e, get-put m w r sid, n, eq_text_iff r.session_id sid)
      | inr (y, f) ↦
          ground (arith, e, get-put m w r sid, f, eq_text_iff r.session_id sid, w.listed sid y f)
    ]

    parked :
        (sid : Text) (x : ParkRecord)
        → get (put m r) sid ≡ some x
        → is_parked x ≡ true
        → lookup (key x) (put m r).index ≡ some sid
    parked sid x e p = elim (Option-cases (get m sid)) [
      | inl n ↦ ground (
        arith,
        e,
        p,
        n,
        get-put m w r sid,
        lookup-put_index m w r (key x),
        eq_text_iff r.session_id sid,
        eq_key_iff (key r) (key x),
      )
      | inr (y, f) ↦ ground (
        arith,
        e,
        p,
        f,
        get-put m w r sid,
        lookup-put_index m w r (key x),
        w.parked sid y f,
        eq_text_iff r.session_id sid,
        eq_text_iff sid r.session_id,
        eq_key_iff (key r) (key x),
        eq_key_iff (key y) (key r),
      )
    ]

    indexed :
        (k : IndexKey) (sid : Text)
        → lookup k (put m r).index ≡ some sid
        → (x : ParkRecord) × (get (put m r) sid ≡ some x) × (key x ≡ k) × (is_parked x ≡ true)
    indexed k sid e = elim (Bool-cases (is_parked r && eq_key (key r) k)) [
      | inl own ↦ (
        r,
        ground (
          arith,
          e,
          own,
          lookup-put_index m w r k,
          get-put m w r sid,
          eq_text_iff r.session_id sid,
        ),
        ground (arith, own, eq_key_iff (key r) k),
        ground (arith, own),
      )
      | inr other ↦
          let (old, ne) =
            some_of_without r.session_id (lookup k m.index)
              (sym (lookup-put_index m w r k ∙ rw other refl) ∙ e) in
          let (y, f, same, p) = w.indexed k sid old in
          (
            y,
            ground (
              arith,
              other,
              ne,
              f,
              same,
              get-put m w r sid,
              eq_text_iff r.session_id sid,
              eq_text_iff sid r.session_id,
              eq_key_iff (key y) (key r),
              eq_key_iff (key r) k,
            ),
            same,
            p,
          )
    ]

module _ (m : MemoryStore) (w : IsWf m) (k : IndexKey) (sid : Text)
    (owned : lookup k m.index ≡ some sid) where
  some_of_removed :
      (j : IndexKey) (owner : Text)
      → lookup j (remove k m.index) ≡ some owner
      → (eq_key k j ≡ false) × (lookup j m.index ≡ some owner)
  some_of_removed j owner e = ground (arith, e, lookup-remove k j m.index)

  pub fst-claim_locked : {r : ParkRecord} → get m sid ≡ some r → (claim_locked m k sid).0 ≡ unpark r
  unfolding claim_locked
  fst-claim_locked e = ap (λ o. unpark (or_zero o)) e

  -- A claim un-parks its session and touches no other.
  pub get-claim_locked : (j : Text) → get (claim_locked m k sid).1 j ≡ after_claim sid (get m) j
  unfolding claim_locked
  get-claim_locked j =
      let (r, found, same, p) = w.indexed k sid owned in
      ground (
        arith,
        found,
        lookup-insert sid j (unpark (or_zero (lookup sid m.by_session))) m.by_session,
        eq_text_iff sid j,
      )

  pub claim_locked-IsWf : IsWf (claim_locked m k sid).1
  unfolding claim_locked
  claim_locked-IsWf = record {
    listed = λ j x e. elim (Option-cases (get m j)) [
      | inl n ↦ ground (arith, e, n, get-claim_locked j)
      | inr (y, f) ↦ ground (arith, e, f, get-claim_locked j, w.listed j y f)
    ];
    parked = λ j x e p. elim (Option-cases (get m j)) [
      | inl n ↦ ground (arith, e, n, get-claim_locked j)
      | inr (y, f) ↦ ground (
        arith,
        e,
        p,
        f,
        get-claim_locked j,
        w.parked j y f,
        owned,
        lookup-remove k (key x) m.index,
        eq_key_iff k (key x),
        eq_text_iff sid j,
      )
    ];
    indexed = λ j owner e.
        let (ne, old) = some_of_removed j owner e in
        let (r, found, key_r, _) = w.indexed k sid owned in
        let (y, f, same, p) = w.indexed j owner old in
        (
          y,
          ground (
            arith,
            get-claim_locked owner,
            f,
            found,
            same,
            key_r,
            ne,
            eq_key_iff k j,
            eq_text_iff sid owner,
          ),
          same,
          p,
        );
  }

-- `Delete` removes the session and, with it, its own entry of the index only.
module _ (m : MemoryStore) (w : IsWf m) (sid : Text) where
  pub get-delete : (j : Text) → get (delete m sid) j ≡ after_delete sid (get m) j
  unfolding delete
  get-delete j = lookup-remove sid j m.by_session

  lookup-delete_index :
      (k : IndexKey) → lookup k (delete m sid).index ≡ without sid (lookup k m.index)
  unfolding delete drop_index
  lookup-delete_index k = elim (Option-cases (lookup sid m.by_session)) [
    | inl n ↦ elim (Option-cases (lookup k m.index)) [
      | inl none_k ↦ ground (arith, n, none_k)
      | inr (o, e) ↦ ground (arith, n, e, w.indexed k o e, eq_text_iff o sid)
    ]
    | inr (r, found) ↦ elim (Option-cases (lookup k m.index)) [
      | inl none_k ↦ ground (
        arith,
        found,
        none_k,
        w.parked sid r found,
        lookup-remove (key r) k m.index,
        eq_text_refl sid,
      )
      | inr (o, e) ↦ ground (
        arith,
        found,
        e,
        w.parked sid r found,
        w.indexed k o e,
        lookup-remove (key r) k m.index,
        eq_text_refl sid,
        eq_text_iff o sid,
        eq_key_iff (key r) k,
      )
    ]
  ]

  pub delete-IsWf : IsWf (delete m sid)
  delete-IsWf = record {
    listed = λ j x e. ground (arith, e, get-delete j, w.listed j x);
    parked = λ j x e p. ground (
      arith,
      e,
      p,
      get-delete j,
      w.parked j x,
      lookup-delete_index (key x),
      eq_text_iff sid j,
      eq_text_iff j sid,
    );
    indexed = λ k owner e.
        let (old, ne) = some_of_without sid (lookup k m.index) (sym (lookup-delete_index k) ∙ e) in
        let (y, f, same, p) = w.indexed k owner old in
        (
          y,
          ground (arith, get-delete owner, f, ne, eq_text_iff sid owner, eq_text_iff owner sid),
          same,
          p,
        );
  }

-- `ResolveByPRKey`: what it returns, and what it leaves.
abbrev pub Resolved : MemoryStore → IndexKey → Option ParkRecord × MemoryStore → Type 0
Resolved m k out =
    ((out ≡ (none, m))
      × ((sid : Text) (r : ParkRecord) → get m sid ≡ some r → is_parked r ≡ true → key r ≢ k))
    ⊎ ((sid : Text) × (r : ParkRecord) × (get m sid ≡ some r)
        × (key r ≡ k)
        × (is_parked r ≡ true)
        × (out.0 ≡ some (unpark r))
        × ((j : Text) → get out.1 j ≡ after_claim sid (get m) j)
        × IsWf out.1)

-- It claims the parked record of the key, if there is one: the record loses its key, no other
-- record changes, and nothing changes if no record is parked under the key.
pub resolve_by_pr_key-Resolved :
    (m : MemoryStore) (workflow pr_key : Text)
    → IsWf m
    → Resolved m
        (record { workflow = workflow; pr_key = pr_key })
        (resolve_by_pr_key m workflow pr_key)
unfolding resolve_by_pr_key
resolve_by_pr_key-Resolved m workflow [] w = inl (refl, λ sid r e p same. cc)
resolve_by_pr_key-Resolved m workflow (c ∷ cs) w = elim (Option-cases (lookup k m.index)) [
  | inl n ↦ inl (rw (n, claim_owner) refl, λ sid r e p same. cc (w.parked sid r e p))
  | inr (sid, e) ↦
      let (r, found, same, p) = w.indexed k sid e in
      inr (
        sid,
        r,
        found,
        same,
        p,
        rw (e, claim_owner) (ap some (fst-claim_locked m w k sid e found)),
        rw (e, claim_owner) (get-claim_locked m w k sid e),
        rw (e, claim_owner) (claim_locked-IsWf m w k sid e),
      )
]
  where
    k : IndexKey
    k = record { workflow = workflow; pr_key = c ∷ cs }
