-- ===== src/ParkStore/Memory/Sweeps.antt =====
-- go/internal/agent/setup/parkstore.go: the timeout sweep and the orphan sweep.
use mathlib.Core.Option
use automation_agent.Common.{
  ℕ, ◌≡◌, refl, sym, ap, ◌∙◌, ◌⊎◌, true, ◌&&◌, Option, none, some, inl, inr, arith, if◌then◌else◌,
  Text, text_eq, eq_text_iff, lookup, Option-cases, Bool-cases, List, [], ◌∷◌, any, In, All, ◌≢◌,
  Map,
}
use automation_agent.ParkStore.{
  ParkRecord, IndexKey, key, eq_key, eq_key_iff, key_eq, is_parked, unpark,
}
use automation_agent.ParkStore.View.{is_stale, after_sweep}
use automation_agent.ParkStore.Memory.{
  MemoryStore, get, claim_locked, sweep_owner, sweep_one, sweep_keys, cons_some, keys, sweep,
}
use automation_agent.ParkStore.Memory.Invariant.{IsWf}
use automation_agent.ParkStore.Memory.Refinement.{
  get-claim_locked, fst-claim_locked, claim_locked-IsWf,
}

-- What the loop's body does at a key: it claims the stale record that is parked under it.
abbrev after_key : Text → ℕ → IndexKey → ParkRecord → ParkRecord
after_key workflow cutoff k x =
    if is_stale workflow cutoff x && eq_key k (key x) then unpark x else x

record SweptAt (workflow : Text) (cutoff : ℕ) (m : MemoryStore) (k : IndexKey)
    (out : Option ParkRecord × MemoryStore) : Type 0 where
  valid : IsWf out.1
  seen : (sid : Text) → get out.1 sid ≡ Option.map (after_key workflow cutoff k) (get m sid)
  sound :
      (x : ParkRecord)
      → out.0 ≡ some x
      → (get m x.session_id ≡ some x) × (is_stale workflow cutoff x ≡ true) × (key x ≡ k)
  complete :
      (sid : Text) (x : ParkRecord)
      → get m sid ≡ some x
      → is_stale workflow cutoff x ≡ true
      → key x ≡ k
      → out.0 ≡ some x

module _ (workflow : Text) (cutoff : ℕ) (m : MemoryStore) (w : IsWf m) (k : IndexKey) where
  sweep_owner_lem :
      (sid : Text) (r : ParkRecord)
      → lookup k m.index ≡ some sid
      → lookup sid m.by_session ≡ some r
      → key r ≡ k
      → is_parked r ≡ true
      → sweep_owner workflow cutoff m k (some sid)
        ≡ (if is_stale workflow cutoff r then (some r, (claim_locked m k sid).1) else (none, m))
  unfolding sweep_owner
  sweep_owner_lem sid r e found same p =
      ground (arith, found, same, p, fst-claim_locked m w k sid e found)

  sweep_one-SweptAt : SweptAt workflow cutoff m k (sweep_one workflow cutoff m k)
  unfolding sweep_one
  sweep_one-SweptAt = elim (Option-cases (lookup k m.index)) [
    | inl n ↦
        rw (n, sweep_owner)
          (record {
            valid = w;
            seen = λ sid. elim (Option-cases (get m sid)) [
              | inl e ↦ rw e
              | inr (y, e) ↦ rw e (ground (arith, n, w.parked sid y e, eq_key_iff k (key y)))
            ];
            sound = λ x e. cc;
            complete = λ sid x e st same. ground (arith, n, st, w.parked sid x e, same);
          })
    | inr (sid, e) ↦
        let (r, found, same, p) = w.indexed k sid e in
        rw (e, sweep_owner_lem sid r e found same p)
          (elim (Bool-cases (is_stale workflow cutoff r)) [
            | inl st ↦ rw st (record {
              valid = claim_locked-IsWf m w k sid e;
              seen = λ j. elim (Option-cases (get m j)) [
                | inl n ↦ ground (arith, n, get-claim_locked m w k sid e j)
                | inr (y, f) ↦ ground (
                  arith,
                  f,
                  found,
                  same,
                  st,
                  e,
                  w.parked j y f,
                  get-claim_locked m w k sid e j,
                  eq_text_iff sid j,
                  eq_key_iff k (key y),
                )
              ];
              sound = λ x h. ground (arith, h, found, st, same, w.listed sid r found);
              complete = λ j x f st' same'. ground (arith, f, found, e, w.parked j x f, st', same');
            })
            | inr fr ↦ rw fr (record {
              valid = w;
              seen = λ j. elim (Option-cases (get m j)) [
                | inl n ↦ rw n
                | inr (y, f) ↦
                    rw f (ground (arith, f, found, e, fr, w.parked j y f, eq_key_iff k (key y)))
              ];
              sound = λ x h. cc;
              complete =
                  λ j x f st' same'. ground (arith, f, found, e, fr, w.parked j x f, st', same');
            })
          ])
  ]

-- Every record of the list was written under another session id than `sid`.
abbrev IsFresh : Text → List ParkRecord → Type 0
IsFresh sid = All (λ x. x.session_id ≢ sid)

abbrev pub IsDistinct : List ParkRecord → Type 0
IsDistinct [] = Unit {0}
IsDistinct (x ∷ xs) = IsFresh x.session_id xs × IsDistinct xs

abbrev pub after_keys : Text → ℕ → List IndexKey → ParkRecord → ParkRecord
after_keys workflow cutoff ks x =
    if is_stale workflow cutoff x && any (λ k. eq_key k (key x)) ks then unpark x else x

record SweptKeys (workflow : Text) (cutoff : ℕ) (m : MemoryStore) (ks : List IndexKey)
    (out : List ParkRecord × MemoryStore) : Type 0 where
  valid : IsWf out.1
  seen : (sid : Text) → get out.1 sid ≡ Option.map (after_keys workflow cutoff ks) (get m sid)
  sound :
      (x : ParkRecord)
      → In x out.0
      → (get m x.session_id ≡ some x) × (is_stale workflow cutoff x ≡ true)
  complete :
      (sid : Text) (x : ParkRecord)
      → get m sid ≡ some x
      → is_stale workflow cutoff x ≡ true
      → any (λ k. eq_key k (key x)) ks ≡ true
      → In x out.0
  distinct : IsDistinct out.0

In-cons_some_cases :
    {x : ParkRecord} (o : Option ParkRecord) (out : List ParkRecord)
    → In x (cons_some o out)
    → (o ≡ some x) ⊎ In x out
In-cons_some_cases none out h = inr h
In-cons_some_cases (some y) out (inl e) = inl (ap some e)
In-cons_some_cases (some y) out (inr h) = inr h

In-cons_some :
    {x : ParkRecord} (o : Option ParkRecord) (out : List ParkRecord)
    → (o ≡ some x) ⊎ In x out
    → In x (cons_some o out)
In-cons_some none out (inl e) = cc
In-cons_some none out (inr h) = h
In-cons_some (some y) out (inl e) = inl (cc)
In-cons_some (some y) out (inr h) = inr h

IsFresh-of_In :
    (sid : Text) (out : List ParkRecord)
    → ((x : ParkRecord) → In x out → x.session_id ≢ sid)
    → IsFresh sid out
IsFresh-of_In sid [] h = tt
IsFresh-of_In sid (x ∷ out) h = (h x (inl refl), IsFresh-of_In sid out (λ y i. h y (inr i)))

IsDistinct-cons_some :
    (o : Option ParkRecord) (out : List ParkRecord)
    → ((c x : ParkRecord) → o ≡ some c → In x out → x.session_id ≢ c.session_id)
    → IsDistinct out
    → IsDistinct (cons_some o out)
IsDistinct-cons_some none out h d = d
IsDistinct-cons_some (some c) out h d = (IsFresh-of_In c.session_id out (λ x i. h c x refl i), d)

module _ (workflow : Text) (cutoff : ℕ) (k : IndexKey) (ks : List IndexKey) where
  after_keys-after_key :
      (o : Option ParkRecord)
      → Option.map (after_keys workflow cutoff ks) (Option.map (after_key workflow cutoff k) o)
        ≡ Option.map (after_keys workflow cutoff (k ∷ ks)) o
  after_keys-after_key none = refl
  after_keys-after_key (some x) = ground arith

  -- A stale record of the store after one round was there before, and is not the one claimed.
  module _ (m : MemoryStore) (out : Option ParkRecord × MemoryStore)
      (one : SweptAt workflow cutoff m k out) where
    get-before :
        (x : ParkRecord)
        → get out.1 x.session_id ≡ some x
        → is_stale workflow cutoff x ≡ true
        → get m x.session_id ≡ some x
    get-before x e st = elim (Option-cases (get m x.session_id)) [
      | inl n ↦ ground (arith, n, e, one.seen x.session_id)
      | inr (y, f) ↦ ground (arith, f, e, st, one.seen x.session_id)
    ]

    claimed_ne :
        (c x : ParkRecord)
        → out.0 ≡ some c
        → get out.1 x.session_id ≡ some x
        → is_stale workflow cutoff x ≡ true
        → x.session_id ≢ c.session_id
    claimed_ne c x o e st same =
        let (f, st_c, key_c) = one.sound c o in
        ground (
          arith,
          e,
          f,
          st,
          st_c,
          key_c,
          eq_key_iff k (key c),
          rw (same, f) at (one.seen x.session_id),
        )

module _ (workflow : Text) (cutoff : ℕ) where
  sweep_keys-SweptKeys :
      (ks : List IndexKey) (m : MemoryStore)
      → IsWf m
      → SweptKeys workflow cutoff m ks (sweep_keys workflow cutoff ks m)
  unfolding sweep_keys
  sweep_keys-SweptKeys [] m w = record {
    valid = w;
    seen =
        λ sid. elim (Option-cases (get m sid)) [ inl n ↦ rw n | inr (x, e) ↦ rw e (ground arith) ];
    sound = λ x e. absurd e;
    complete = λ sid x e st c. cc;
    distinct = tt;
  }
  sweep_keys-SweptKeys (k ∷ ks) m w =
      let one = sweep_one-SweptAt workflow cutoff m w k in
      let rest = sweep_keys-SweptKeys ks (sweep_one workflow cutoff m k).1 one.valid in
      record {
        valid = rest.valid;
        seen = λ sid.
            rest.seen sid
            ∙ ap (Option.map (after_keys workflow cutoff ks)) (one.seen sid)
            ∙ after_keys-after_key workflow cutoff k ks (get m sid);
        sound = λ x e. elim (In-cons_some_cases _ _ e) [
          | inl h ↦ let (f, st, _) = one.sound x h in (f, st)
          | inr h ↦
              let (f, st) = rest.sound x h in (get-before workflow cutoff k ks m _ one x f st, st)
        ];
        complete = λ sid x e st c. In-cons_some _ _ (elim (Bool-cases (eq_key k (key x))) [
          | inl here ↦ inl (one.complete sid x e st (sym ((eq_key_iff k (key x)).0 here)))
          | inr there ↦ inr (
              rest.complete sid x (ground (arith, e, there, one.seen sid)) st
                (ground (arith, c, there)))
        ]);
        distinct =
            IsDistinct-cons_some _ _
              (λ c x o h.
                let (f, st) = rest.sound x h in claimed_ne workflow cutoff k ks m _ one c x o f st)
              rest.distinct;
      }

any-keys :
    (k : IndexKey) (sid : Text) (index : Map IndexKey Text)
    → lookup k index ≡ some sid
    → any (λ j. eq_key j k) (keys index) ≡ true
unfolding lookup
any-keys k sid [] e = cc
any-keys k sid ((j, o) ∷ index) e = ground (arith, any-keys k sid index)

-- What a sweep of the store returns and leaves.
pub record IsSwept (workflow : Text) (cutoff : ℕ) (m : MemoryStore)
    (out : List ParkRecord × MemoryStore) : Type 0 where
  pub valid : IsWf out.1
  pub seen : (sid : Text) → get out.1 sid ≡ after_sweep workflow cutoff (get m) sid
  pub sound :
      (x : ParkRecord)
      → In x out.0
      → (get m x.session_id ≡ some x) × (is_stale workflow cutoff x ≡ true)
  pub complete :
      (sid : Text) (x : ParkRecord)
      → get m sid ≡ some x
      → is_stale workflow cutoff x ≡ true
      → In x out.0
  pub distinct : IsDistinct out.0

-- A sweep claims exactly the workflow's parked records that were stamped before the cutoff: each
-- is returned once, as it was, with its PR key; it is un-parked in the store, and every other
-- record stays as it was.
pub sweep-IsSwept :
    (m : MemoryStore) (workflow : Text) (cutoff : ℕ)
    → IsWf m
    → IsSwept workflow cutoff m (sweep m workflow cutoff)
unfolding sweep
sweep-IsSwept m workflow cutoff w =
    let s = sweep_keys-SweptKeys workflow cutoff (keys m.index) m w in
    let found : (sid : Text) (x : ParkRecord)
        → get m sid ≡ some x
        → is_stale workflow cutoff x ≡ true
        → any (λ k. eq_key k (key x)) (keys m.index) ≡ true =
      (λ sid x e st. any-keys (key x) sid m.index (w.parked sid x e (ground (arith, st)))) in
    record {
      valid = s.valid;
      seen = λ sid. s.seen sid ∙ elim (Option-cases (get m sid)) [
        | inl n ↦ rw n
        | inr (x, e) ↦ rw e (ground (arith, found sid x e))
      ];
      sound = s.sound;
      complete = λ sid x e st. s.complete sid x e st (found sid x e st);
      distinct = s.distinct;
    }
