-- ===== src/ParkStore/Memory/Invariant.antt =====
-- go/internal/agent/setup/parkstore.go: the two maps of `memoryParkStore` agree, and what
-- `Put` does to each of them.
use automation_agent.Common.{
  ◌≡◌, refl, true, false, Option, none, some, inl, inr, arith, if◌then◌else◌, Text, text_eq,
  eq_text, eq_text_iff, lookup, insert, lookup-insert, lookup-remove, Option-cases, Bool-cases,
  ◌&&◌, Map, sym, ◌∙◌,
}
use mathlib.Core.Option
use automation_agent.ParkStore.{
  ParkRecord, IndexKey, key, eq_key, eq_key_iff, key_eq, is_parked, unpark,
}
use automation_agent.ParkStore.View.{after_put}
use automation_agent.ParkStore.Memory.{
  MemoryStore, empty_store, drop_stale, displace, clear_key, put, get,
}

pub record IsWf (m : MemoryStore) : Type 0 where
  pub listed : (sid : Text) (r : ParkRecord) → lookup sid m.by_session ≡ some r → r.session_id ≡ sid
  pub parked :
      (sid : Text) (r : ParkRecord)
      → lookup sid m.by_session ≡ some r
      → is_parked r ≡ true
      → lookup (key r) m.index ≡ some sid
  pub indexed :
      (k : IndexKey) (sid : Text)
      → lookup k m.index ≡ some sid
      → (r : ParkRecord) × (lookup sid m.by_session ≡ some r) × (key r ≡ k) × (is_parked r ≡ true)

pub empty-IsWf : IsWf empty_store
unfolding lookup
empty-IsWf = record { listed = λ sid r e. cc; parked = λ sid r e p. cc; indexed = λ k sid e. cc }

-- The owner of a key after the session's own old entry is gone.
abbrev pub without : Text → Option Text → Option Text
without sid none = none
without sid (some owner) = if eq_text owner sid then none else some owner

module _ (r : ParkRecord) (index : Map IndexKey Text) (k : IndexKey) where
  lookup-drop_stale_other :
      (prev : Option ParkRecord)
      → ((p : ParkRecord)
          → prev ≡ some p
          → is_parked p ≡ true
          → lookup (key p) index ≡ some r.session_id)
      → (lookup k index ≡ some r.session_id
          → (p : ParkRecord) × (prev ≡ some p) × (key p ≡ k) × (is_parked p ≡ true))
      → eq_key (key r) k ≡ false
      → lookup k (drop_stale prev r index) ≡ without r.session_id (lookup k index)
  unfolding drop_stale
  lookup-drop_stale_other none parked indexed ne = elim (Option-cases (lookup k index)) [
    | inl e ↦ rw (e, without) refl
    | inr (o, e) ↦ ground (arith, eq_text_iff o r.session_id, indexed)
  ]
  lookup-drop_stale_other (some p) parked indexed ne = elim (Option-cases (lookup k index)) [
    | inl e ↦ ground (arith, lookup-remove (key p) k index)
    | inr (o, e) ↦ ground (
      arith,
      parked p refl,
      indexed,
      lookup-remove (key p) k index,
      eq_key_iff (key p) k,
      eq_key_iff (key r) k,
      eq_key_iff (key p) (key r),
      eq_text_iff o r.session_id,
    )
  ]

  lookup-drop_stale_self :
      (prev : Option ParkRecord)
      → eq_key (key r) k ≡ true
      → lookup k (drop_stale prev r index) ≡ lookup k index
  unfolding drop_stale
  lookup-drop_stale_self none e = refl
  lookup-drop_stale_self (some p) e = ground (
    arith,
    lookup-remove (key p) k index,
    eq_key_iff (key p) k,
    eq_key_iff (key r) k,
    eq_key_iff (key p) (key r),
  )

-- `displace` un-parks the owner of the key and touches no other session.
module _ (r : ParkRecord) (sessions : Map Text ParkRecord) (sid : Text) where
  lookup-displace :
      (owner : Option Text)
      → ((o : Text)
          → owner ≡ some o
          → (x : ParkRecord) × (lookup o sessions ≡ some x) × (key x ≡ key r))
      → ((x : ParkRecord)
          → lookup sid sessions ≡ some x
          → is_parked x ≡ true
          → key x ≡ key r
          → owner ≡ some sid)
      → is_parked r ≡ true
      → eq_text r.session_id sid ≡ false
      → lookup sid (displace owner r sessions)
        ≡ Option.map
            (λ x. if is_parked r && eq_key (key x) (key r) then unpark x else x)
            (lookup sid sessions)
  unfolding displace clear_key
  lookup-displace none owned parked p ne = elim (Option-cases (lookup sid sessions)) [
    | inl e ↦ rw e
    | inr (x, e) ↦ rw e (ground (arith, parked x e, p, eq_key_iff (key x) (key r)))
  ]
  lookup-displace (some o) owned parked p ne =
      let (x, found, same) = owned o refl in
      let write = lookup-insert o sid (unpark x) sessions in
      rw (found, clear_key)
        (elim (Option-cases (lookup sid sessions)) [
          | inl e ↦ ground (arith, write, e, found, eq_text_iff o sid)
          | inr (y, e) ↦ ground (
            arith,
            parked y e,
            p,
            ne,
            write,
            e,
            found,
            same,
            eq_text_iff o sid,
            eq_text_iff o r.session_id,
            eq_text_iff r.session_id sid,
            eq_key_iff (key y) (key r),
          )
        ])

module _ (m : MemoryStore) (w : IsWf m) (r : ParkRecord) where
  -- What `Put` makes of the index: the session owns its key, and owns no other.
  pub lookup-put_index :
      (k : IndexKey)
      → lookup k (put m r).index ≡ (
          if is_parked r && eq_key (key r) k
          then some r.session_id
          else without r.session_id (lookup k m.index))
  unfolding put
  lookup-put_index k = elim (Bool-cases (eq_key (key r) k)) [
    | inl same ↦ elim (Bool-cases (is_parked r)) [
      | inl p ↦ ground (arith, same, p, lookup-insert (key r) k r.session_id index)
      | inr n ↦ elim (Option-cases (lookup k m.index)) [
        | inl e ↦ ground (arith, same, n, e, self same)
        | inr (o, e) ↦ ground (arith, same, n, w.indexed k o e, eq_key_iff (key r) k)
      ]
    ]
    | inr other ↦ ground (
      arith,
      lookup-drop_stale_other r m.index k (lookup r.session_id m.by_session) (w.parked r.session_id)
          (w.indexed k r.session_id) other,
      lookup-insert (key r) k r.session_id index,
    )
  ]
    where
      index : Map IndexKey Text
      index = drop_stale (lookup r.session_id m.by_session) r m.index

      self : eq_key (key r) k ≡ true → lookup k index ≡ lookup k m.index
      self = lookup-drop_stale_self r m.index k (lookup r.session_id m.by_session)

  -- What `Put` makes of the sessions.
  pub get-put : (sid : Text) → get (put m r) sid ≡ after_put r (get m) sid
  unfolding put
  get-put sid = elim (Bool-cases (eq_text r.session_id sid)) [
    | inl same ↦ ground (arith, same, write, plain)
    | inr other ↦ elim (Bool-cases (is_parked r)) [
      | inl p ↦ ground (arith, other, p, write, displaced p other)
      | inr n ↦ ground (arith, other, n, plain, Option-cases (lookup sid m.by_session))
    ]
  ]
    where
      index : Map IndexKey Text
      index = drop_stale (lookup r.session_id m.by_session) r m.index

      sessions : Map Text ParkRecord
      sessions = displace (lookup (key r) index) r m.by_session

      write :
          lookup sid (insert r.session_id r sessions)
          ≡ (if eq_text r.session_id sid then some r else lookup sid sessions)
      write = lookup-insert r.session_id sid r sessions

      plain :
          lookup sid (insert r.session_id r m.by_session)
          ≡ (if eq_text r.session_id sid then some r else lookup sid m.by_session)
      plain = lookup-insert r.session_id sid r m.by_session

      self : lookup (key r) index ≡ lookup (key r) m.index
      self =
          lookup-drop_stale_self r m.index (key r) (lookup r.session_id m.by_session)
            ((eq_key_iff (key r) (key r)).1 refl)

      displaced :
          is_parked r ≡ true
          → eq_text r.session_id sid ≡ false
          → lookup sid sessions
            ≡ Option.map
                (λ x. if is_parked r && eq_key (key x) (key r) then unpark x else x)
                (lookup sid m.by_session)
      displaced =
          lookup-displace r m.by_session sid (lookup (key r) index)
            (λ o e.
              let (x, found, same, _) = w.indexed (key r) o (sym self ∙ e) in (x, found, same))
            (λ x e p same. self ∙ rw (← same) (w.parked sid x e p))
