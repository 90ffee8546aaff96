-- ===== src/Tasks/InProcess/Bounds.antt =====
-- go/internal/tasks/inprocess.go: the bound on running dispatches, and what a drained pool means.
use automation_agent.Common.{
  some-injective, ℕ, zero, suc, subst, ◌∙◌, ◌+◌, ◌-◌, ◌≤◌, ◌≡◌, refl, inl, inr, Bool, true, false,
  ◌&&◌, some, List, [], ◌∷◌, ltb, ◌==◌, if◌then◌else◌, arith, Bool-cases,
}
use automation_agent.Tasks.InProcess.{
  Pool, default_max_concurrent, new_pool, Action, refuse, cancel, take_slot, register, release,
  finish, shut, drain, register_locked, guarded, act, Runs, stop, step,
}

-- The slots and the wait group count what they should, the slots are bounded, and a drained pool is
-- closed and idle.
pub record IsWf (p : Pool) : Type 0 where
  pub slots : p.sem ≡ p.pending + p.executing
  pub bound : p.sem ≤ p.capacity
  pub group : p.wg ≡ p.executing + p.releasing
  pub idle : p.drained ≡ true → (p.closed ≡ true) × (p.wg ≡ 0)

new_pool-IsWf : (n : ℕ) → IsWf (new_pool n)
unfolding new_pool
new_pool-IsWf n = record { slots = refl; bound = ground arith; group = refl; idle = λ h. cc }

register_locked-IsWf : (p : Pool) → ltb 0 p.pending ≡ true → IsWf p → IsWf (register_locked p)
unfolding register_locked
register_locked-IsWf p h w = elim (Bool-cases p.closed) [
  | inl c ↦ rw c (record {
    slots = ground (arith, h, w.slots);
    bound = ground (arith, w.bound);
    group = w.group;
    idle = ground (arith, w.idle);
  })
  | inr c ↦ rw c (record {
    slots = ground (arith, h, w.slots);
    bound = w.bound;
    group = ground (arith, w.group);
    idle = ground (arith, w.idle, c);
  })
]

guarded-holds :
    (P : Pool → Type 0) (b : Bool) (p q : Pool) → (b ≡ true → P p) → guarded b p ≡ some q → P q
guarded-holds P true p q h e = subst P (some-injective e) (h refl)
guarded-holds P false p q h e = cc

-- Every action that can be taken keeps the pool well formed.
act-IsWf : (p q : Pool) (a : Action) → act p a ≡ some q → IsWf p → IsWf q
unfolding act
act-IsWf p q refuse e w = guarded-holds IsWf p.closed p q (λ h. w) e
act-IsWf p q cancel e w = subst IsWf (some-injective e) w
act-IsWf p q take_slot e w =
    guarded-holds IsWf (ltb p.sem p.capacity) _ q
      (λ h. record {
        slots = omega (arith, w.slots);
        bound = ground (arith, h);
        group = w.group;
        idle = w.idle;
      })
      e
act-IsWf p q register e w =
    guarded-holds IsWf (ltb 0 p.pending) (register_locked p) q (λ h. register_locked-IsWf p h w) e
act-IsWf p q release e w =
    guarded-holds IsWf (ltb 0 p.executing) _ q
      (λ h. record {
        slots = ground (arith, h, w.slots);
        bound = omega (arith, w.bound);
        group = ground (arith, h, w.group);
        idle = w.idle;
      })
      e
act-IsWf p q finish e w =
    guarded-holds IsWf (ltb 0 p.releasing) _ q
      (λ h. record {
        slots = w.slots;
        bound = w.bound;
        group = ground (arith, h, w.group);
        idle = λ d. ((w.idle d).0, ground (arith, w.idle d));
      })
      e
act-IsWf p q shut e w =
    subst IsWf (some-injective e) (record {
      slots = w.slots;
      bound = w.bound;
      group = w.group;
      idle = λ d. (refl, (w.idle d).1);
    })
act-IsWf p q drain e w =
    guarded-holds IsWf (p.closed && p.wg == 0) _ q
      (λ h. record {
        slots = w.slots;
        bound = w.bound;
        group = w.group;
        idle = λ d. (ground (arith, h), ground (arith, h));
      })
      e

Runs-IsWf : {p q : Pool} {as' : List Action} → Runs p as' q → IsWf p → IsWf q
Runs-IsWf stop w = w
Runs-IsWf (step e r) w = Runs-IsWf r (act-IsWf _ _ _ e w)

-- From the first pool to the second the capacity stays, and so does a close and a drain.
abbrev IsLater : Pool → Pool → Type 0
IsLater p q =
    (q.capacity ≡ p.capacity)
    × (p.drained ≡ true → q.drained ≡ true)
    × (p.closed ≡ true → q.closed ≡ true)

register_locked-IsLater : (p : Pool) → IsLater p (register_locked p)
unfolding register_locked
register_locked-IsLater p = elim (Bool-cases p.closed) [
  | inl c ↦ rw c (refl, (λ h. h), λ h. h)
  | inr c ↦ rw c (refl, (λ h. h), λ h. h)
]

act-IsLater : (p q : Pool) (a : Action) → act p a ≡ some q → IsLater p q
unfolding act
act-IsLater p q refuse e = guarded-holds (IsLater p) p.closed p q (λ h. (refl, (λ k. k), λ k. k)) e
act-IsLater p q cancel e = subst (IsLater p) (some-injective e) (refl, (λ k. k), λ k. k)
act-IsLater p q take_slot e =
    guarded-holds (IsLater p) (ltb p.sem p.capacity) _ q (λ h. (refl, (λ k. k), λ k. k)) e
act-IsLater p q register e =
    guarded-holds (IsLater p) (ltb 0 p.pending) (register_locked p) q
      (λ h. register_locked-IsLater p) e
act-IsLater p q release e =
    guarded-holds (IsLater p) (ltb 0 p.executing) _ q (λ h. (refl, (λ k. k), λ k. k)) e
act-IsLater p q finish e =
    guarded-holds (IsLater p) (ltb 0 p.releasing) _ q (λ h. (refl, (λ k. k), λ k. k)) e
act-IsLater p q shut e = subst (IsLater p) (some-injective e) (refl, (λ k. k), λ k. refl)
act-IsLater p q drain e =
    guarded-holds (IsLater p) (p.closed && p.wg == 0) _ q (λ h. (refl, (λ k. refl), λ k. k)) e

Runs-IsLater : {p q : Pool} {as' : List Action} → Runs p as' q → IsLater p q
Runs-IsLater stop = (refl, (λ k. k), λ k. k)
Runs-IsLater (step e r) =
    let (c, d, s) = act-IsLater _ _ _ e in
    let (c', d', s') = Runs-IsLater r in (c' ∙ c, (λ k. d' (d k)), λ k. s' (s k))

-- In no interleaving do more dispatches run than the pool was made for, where 0 stands for the
-- default of 32.
pub executing-bounded :
    (n : ℕ) (as' : List Action) (p : Pool)
    → Runs (new_pool n) as' p
    → p.executing ≤ (if n == 0 then default_max_concurrent else n)
unfolding new_pool
executing-bounded n as' p r =
    let w = Runs-IsWf r (new_pool-IsWf n) in
    let (c, _, _) = Runs-IsLater r in
    subst (λ k. p.executing ≤ k) c (omega (arith, w.slots, w.bound))

-- After the wait of `Close` has returned, no dispatch runs, whatever the calls of `Enqueue` that are
-- still under way do.
pub drained-idle :
    (n : ℕ) (as' bs : List Action) (p q : Pool)
    → Runs (new_pool n) as' p
    → p.drained ≡ true
    → Runs p bs q
    → (q.executing ≡ 0) × (q.releasing ≡ 0) × (q.closed ≡ true)
drained-idle n as' bs p q r d s =
    let w = Runs-IsWf s (Runs-IsWf r (new_pool-IsWf n)) in
    let (_, stays, _) = Runs-IsLater s in
    let (c, z) = w.idle (stays d) in (omega (arith, w.group, z), omega (arith, w.group, z), c)

-- The pool drains from here.
abbrev pub Drains : Pool → Type 0
Drains p = (bs : List Action) × (q : Pool) × Runs p bs q × (q.drained ≡ true)

Drains-now : (p : Pool) → p.closed ≡ true → p.wg ≡ 0 → Drains p
unfolding act
Drains-now p c z = (drain ∷ [], record p { drained = true }, step (rw (c, z) refl) stop, refl)

Drains-after : (p q : Pool) (a : Action) → act p a ≡ some q → Drains q → Drains p
Drains-after p q a e (bs, r, runs, d) = (a ∷ bs, r, step e runs, d)

Drains-within :
    (fuel : ℕ) (p : Pool)
    → IsWf p
    → p.closed ≡ true
    → p.executing + p.executing + p.releasing ≤ fuel
    → Drains p
unfolding act
Drains-within zero p w c h = Drains-now p c (omega (arith, w.group, h))
Drains-within (suc fuel) p w c h = elim (Bool-cases (ltb 0 p.executing)) [
  | inl some_run ↦
      let q = record p {
        sem = p.sem - 1;
        executing = p.executing - 1;
        releasing = p.releasing + 1;
      } in
      let e : act p release ≡ some q = rw some_run refl in
      Drains-after p q release e
        (Drains-within fuel q (act-IsWf p q release e w) c (ground (arith, some_run, h)))
  | inr none_runs ↦ elim (Bool-cases (ltb 0 p.releasing)) [
    | inl some_end ↦
        let q = record p { wg = p.wg - 1; releasing = p.releasing - 1 } in
        let e : act p finish ≡ some q = rw some_end refl in
        Drains-after p q finish e
          (Drains-within fuel q (act-IsWf p q finish e w) c (ground (arith, some_end, h)))
    | inr none_end ↦ Drains-now p c (ground (arith, none_runs, none_end, w.group))
  ]
]

-- A pool that was closed can always drain: the dispatches that run end, and then the wait returns.
pub closed-Drains :
    (n : ℕ) (as' : List Action) (p : Pool) → Runs (new_pool n) as' p → p.closed ≡ true → Drains p
closed-Drains n as' p r c =
    Drains-within (p.executing + p.executing + p.releasing) p (Runs-IsWf r (new_pool-IsWf n)) c
      (omega arith)
