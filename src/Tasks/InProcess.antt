-- ===== src/Tasks/InProcess.antt =====
-- go/internal/tasks/inprocess.go: the pool of background dispatches. Calls of `Enqueue` and the
-- goroutines interleave: an action is one step of one of them that the others can see, and a list of
-- actions is an interleaving. The dispatch itself is not looked into.
pub mod Bounds
mod Tests
use automation_agent.Common.{
  ℕ, ◌+◌, ◌-◌, ◌≡◌, Bool, true, false, ◌&&◌, Option, none, some, List, [], ◌∷◌, ltb, ◌==◌,
  if◌then◌else◌,
}

abbrev pub default_max_concurrent : ℕ
default_max_concurrent = 32

-- `sem` and `wg` count the tokens in the channel and the wait group. `pending` calls hold a slot and
-- have not taken the lock yet; of the goroutines, `executing` ones hold a slot, and `releasing` ones
-- have given it back and have not called Done. `drained` means that `wg.Wait` of `Close` has returned.
pub record Pool : Type 0 where
  pub capacity : ℕ
  pub sem : ℕ
  pub wg : ℕ
  pub closed : Bool
  pub drained : Bool
  pub pending : ℕ
  pub executing : ℕ
  pub releasing : ℕ

pub new_pool : ℕ → Pool
new_pool max_concurrent = record {
  capacity = if max_concurrent == 0 then default_max_concurrent else max_concurrent;
  sem = 0;
  wg = 0;
  closed = false;
  drained = false;
  pending = 0;
  executing = 0;
  releasing = 0;
}

-- `refuse` and `cancel` end a call in its selects, `take_slot` is the send of the second select,
-- `register` is the section under the lock, `release` and `finish` are the deferred calls of the
-- goroutine in the order they run, and `shut` and `drain` are the two halves of `Close`.
pub data Action : Type 0 where
  refuse cancel take_slot register release finish shut drain : Action

-- The locked section of `Enqueue`: the call backs out where the pool is closed.
pub register_locked : Pool → Pool
register_locked p =
    if p.closed
    then record p { pending = p.pending - 1; sem = p.sem - 1 }
    else record p { pending = p.pending - 1; wg = p.wg + 1; executing = p.executing + 1 }

abbrev pub guarded : Bool → Pool → Option Pool
guarded true p = some p
guarded false p = none

-- The pool after the action, `none` where it cannot be taken. The second select picks any case that
-- is ready, so a slot can also be taken from a closed pool.
pub act : Pool → Action → Option Pool
unfolding register_locked
act p refuse = guarded p.closed p
act p cancel = some p
act p take_slot =
    guarded (ltb p.sem p.capacity) (record p { sem = p.sem + 1; pending = p.pending + 1 })
act p register = guarded (ltb 0 p.pending) (register_locked p)
act p release =
    guarded (ltb 0 p.executing)
      (record p { sem = p.sem - 1; executing = p.executing - 1; releasing = p.releasing + 1 })
act p finish = guarded (ltb 0 p.releasing) (record p { wg = p.wg - 1; releasing = p.releasing - 1 })
act p shut = some (record p { closed = true })
act p drain = guarded (p.closed && p.wg == 0) (record p { drained = true })

-- The interleaving leads from the first pool to the second.
pub data Runs : Pool → List Action → Pool → Type 0 where
  stop : {p : Pool} → Runs p [] p
  step :
      {p q r : Pool} {a : Action} {as' : List Action}
      → act p a ≡ some q
      → Runs q as' r
      → Runs p (a ∷ as') r
