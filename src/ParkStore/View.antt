-- ===== src/ParkStore/View.antt =====
-- What the park store promises, without its maps: a function from session ids to records, and
-- what each operation makes of it (the comments of the interface `ParkStore`).
use automation_agent.Common.{
  ℕ, Bool, not, ◌&&◌, Option, none, some, ltb, ◌==◌, if◌then◌else◌, Text, eq_text,
}
use automation_agent.ParkStore.{ParkRecord, key, eq_key, is_parked, unpark}
use mathlib.Core.Option

abbrev pub View : Type 0
View = Text → Option ParkRecord

-- A parked record of the workflow that was last written before the cutoff. A record that was
-- never stamped (time 0) is not stale.
abbrev pub is_stale : Text → ℕ → ParkRecord → Bool
is_stale workflow cutoff r =
    is_parked r
    && (eq_text r.workflow workflow && not (r.updated_at == 0) && ltb r.updated_at cutoff)

-- The record is written, and any other session that is parked under its key is un-parked.
abbrev pub after_put : ParkRecord → View → View
after_put r v sid =
    if eq_text r.session_id sid
    then some r
    else Option.map (λ x. if is_parked r && eq_key (key x) (key r) then unpark x else x) (v sid)

-- The session loses its key and keeps all else.
abbrev pub after_claim : Text → View → View
after_claim owner v sid = if eq_text owner sid then Option.map unpark (v sid) else v sid

abbrev pub after_sweep : Text → ℕ → View → View
after_sweep workflow cutoff v sid =
    Option.map (λ x. if is_stale workflow cutoff x then unpark x else x) (v sid)

abbrev pub after_delete : Text → View → View
after_delete gone v sid = if eq_text gone sid then none else v sid
