-- ===== src/ParkStore.antt =====
-- go/internal/agent/setup/parkstore.go: the record of a suspended fix run and the key that the
-- resume index is searched by. Session ids, workflow names and PR keys are texts. A time is a
-- number of ticks, where 0 is Go's zero time; `attempts` is a Go int that never is negative.
pub mod View
pub mod Interface
pub mod Memory
pub mod Sqlite
use automation_agent.Common.{
  ℕ, ◌≡◌, ◌↔◌, Bool, true, not, ◌&&◌, arith, Eq, Text, eq_text, eq_text_iff, is_empty, [],
}

pub record ParkRecord : Type 0 where
  pub session_id : Text
  pub workflow : Text
  pub pr_key : Text
  pub call_id : Text
  pub attempts : ℕ
  pub params : Text
  pub updated_at : ℕ

-- `ParkRecord{}`, which a read of a missing map key gives.
abbrev pub zero_record : ParkRecord
zero_record = record {
  session_id = [];
  workflow = [];
  pr_key = [];
  call_id = [];
  attempts = 0;
  params = [];
  updated_at = 0;
}

pub record IndexKey : Type 0 where
  pub workflow : Text
  pub pr_key : Text

abbrev pub key : ParkRecord → IndexKey
key r = record { workflow = r.workflow; pr_key = r.pr_key }

-- Go's `==` on the struct `indexKey`.
unfoldable pub eq_key : IndexKey → IndexKey → Bool
eq_key a b = eq_text a.workflow b.workflow && eq_text a.pr_key b.pr_key

pub eq_key_iff : (a b : IndexKey) → (eq_key a b ≡ true) ↔ (a ≡ b)
unfolding eq_key
eq_key_iff a b = ground (arith, eq_text_iff a.workflow b.workflow, eq_text_iff a.pr_key b.pr_key)

instance abbrev pub key_eq : Eq IndexKey
key_eq = record { beq = eq_key; beq_iff = eq_key_iff }

-- The run waits for CI: it is found by its PR key.
abbrev pub is_parked : ParkRecord → Bool
is_parked r = not (is_empty r.pr_key)

abbrev pub unpark : ParkRecord → ParkRecord
unpark r = record r { pr_key = [] }
