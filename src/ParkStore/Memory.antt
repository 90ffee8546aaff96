-- ===== src/ParkStore/Memory.antt =====
-- go/internal/agent/setup/parkstore.go, `memoryParkStore`: the two maps that one mutex guards, so
-- an operation is one step. A `range` over the index takes the keys in the order of the list and
-- passes over a key that the loop has deleted; a `range` over the sessions reads the value at each key.
pub mod Invariant
pub mod Refinement
pub mod Sweeps
pub mod Claims
pub mod Orphans
pub mod Laws
mod Tests
use automation_agent.Common.{
  ℕ, Bool, not, ◌&&◌, Option, none, some, List, [], ◌∷◌, map, ltb, ◌==◌, if◌then◌else◌, Text,
  text_eq, eq_text, is_empty, Map, lookup, insert, remove, keep, length,
}
use automation_agent.ParkStore.{
  ParkRecord, zero_record, IndexKey, key, eq_key, key_eq, is_parked, unpark,
}

pub record MemoryStore : Type 0 where
  pub by_session : Map Text ParkRecord
  pub index : Map IndexKey Text

abbrev pub empty_store : MemoryStore
empty_store = record { by_session = []; index = [] }

-- The stale index entry of the session's last park, if that was under another key.
unfoldable pub drop_stale : Option ParkRecord → ParkRecord → Map IndexKey Text → Map IndexKey Text
drop_stale none r index = index
drop_stale (some prev) r index =
    if is_parked prev && not (eq_key (key prev) (key r)) then remove (key prev) index else index

pub clear_key : Text → Option ParkRecord → Map Text ParkRecord → Map Text ParkRecord
clear_key owner none sessions = sessions
clear_key owner (some prev) sessions = insert owner (unpark prev) sessions

-- Another session that owns the key is un-parked.
unfoldable pub displace : Option Text → ParkRecord → Map Text ParkRecord → Map Text ParkRecord
unfolding clear_key
displace none r sessions = sessions
displace (some owner) r sessions =
    if eq_text owner r.session_id
    then sessions
    else clear_key owner (lookup owner sessions) sessions

unfoldable pub put : MemoryStore → ParkRecord → MemoryStore
put m r =
    let index = drop_stale (lookup r.session_id m.by_session) r m.index in
    if is_parked r
    then record {
      by_session = insert r.session_id r (displace (lookup (key r) index) r m.by_session);
      index = insert (key r) r.session_id index;
    }
    else record { by_session = insert r.session_id r m.by_session; index = index }

abbrev pub get : MemoryStore → Text → Option ParkRecord
get m sid = lookup sid m.by_session

-- `m.bySession[sid]`, the zero record where the key is missing.
abbrev pub or_zero : Option ParkRecord → ParkRecord
or_zero none = zero_record
or_zero (some r) = r

unfoldable pub claim_locked : MemoryStore → IndexKey → Text → ParkRecord × MemoryStore
claim_locked m k sid =
    let r = unpark (or_zero (lookup sid m.by_session)) in
    (r, record { by_session = insert sid r m.by_session; index = remove k m.index })

claim_owner : MemoryStore → IndexKey → Option Text → Option ParkRecord × MemoryStore
claim_owner m k none = (none, m)
claim_owner m k (some sid) = let (r, m') = claim_locked m k sid in (some r, m')

unfoldable pub resolve_by_pr_key : MemoryStore → Text → Text → Option ParkRecord × MemoryStore
unfolding claim_owner
resolve_by_pr_key m workflow pr_key =
    let k : IndexKey = record { workflow = workflow; pr_key = pr_key } in
    if is_empty pr_key then (none, m) else claim_owner m k (lookup k m.index)

-- The body of the loop of `Sweep` at one key, and at a key that is deleted.
sweep_owner : Text → ℕ → MemoryStore → IndexKey → Option Text → Option ParkRecord × MemoryStore
sweep_owner workflow cutoff m k none = (none, m)
sweep_owner workflow cutoff m k (some sid) =
    let r = or_zero (lookup sid m.by_session) in
    let (claimed, m') = claim_locked m k sid in
    if eq_text k.workflow workflow && not (r.updated_at == 0) && ltb r.updated_at cutoff
    then (some (record claimed { pr_key = k.pr_key }), m')
    else (none, m)

pub sweep_one : Text → ℕ → MemoryStore → IndexKey → Option ParkRecord × MemoryStore
unfolding sweep_owner
sweep_one workflow cutoff m k = sweep_owner workflow cutoff m k (lookup k m.index)

abbrev pub cons_some : Option ParkRecord → List ParkRecord → List ParkRecord
cons_some none out = out
cons_some (some r) out = r ∷ out

pub sweep_keys : Text → ℕ → List IndexKey → MemoryStore → List ParkRecord × MemoryStore
sweep_keys workflow cutoff [] m = ([], m)
sweep_keys workflow cutoff (k ∷ ks) m =
    let (found, m') = sweep_one workflow cutoff m k in
    let (out, m'') = sweep_keys workflow cutoff ks m' in (cons_some found out, m'')

abbrev pub keys : Map IndexKey Text → List IndexKey
keys = map (λ e. e.0)

pub sweep : MemoryStore → Text → ℕ → List ParkRecord × MemoryStore
unfolding sweep_keys sweep_one
sweep m workflow cutoff = sweep_keys workflow cutoff (keys m.index) m

drop_owned : Text → IndexKey → Option Text → Map IndexKey Text → Map IndexKey Text
drop_owned sid k none index = index
drop_owned sid k (some owner) index = if eq_text owner sid then remove k index else index

-- The index entry goes only while it still points at the session.
drop_index : Text → Option ParkRecord → Map IndexKey Text → Map IndexKey Text
unfolding drop_owned
drop_index sid none index = index
drop_index sid (some r) index =
    if is_parked r then drop_owned sid (key r) (lookup (key r) index) index else index

unfoldable pub delete : MemoryStore → Text → MemoryStore
unfolding drop_index
delete m sid = record {
  by_session = remove sid m.by_session;
  index = drop_index sid (lookup sid m.by_session) m.index;
}

-- A record that is not parked and was last written before the cutoff.
abbrev pub is_orphan : Text → ℕ → ParkRecord → Bool
is_orphan workflow cutoff r =
    eq_text r.workflow workflow
    && is_empty r.pr_key
    && not (r.updated_at == 0)
    && ltb r.updated_at cutoff

pub sweep_orphans : MemoryStore → Text → ℕ → List ParkRecord
sweep_orphans m workflow cutoff =
    keep (is_orphan workflow cutoff) (map (λ e. or_zero (lookup e.0 m.by_session)) m.by_session)

pub parked_count : MemoryStore → Text → ℕ
parked_count m workflow = length (keep (λ k. eq_text k.workflow workflow) (keys m.index))
