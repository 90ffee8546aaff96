-- ===== src/Webhook.antt =====
-- go/internal/webhook/handlers.go: the handlers, each as the status it writes and the calls it makes.
-- HMAC in hex, the envelope's codec, the clock and the outcome of the calls are the fields of a world.
pub mod Guards
pub mod Tests
use automation_agent.Common.{
  ℕ, Bool, true, false, not, Option, none, some, List, [], ◌∷◌, ltb, if◌then◌else◌, Text, codes,
  eq_text, is_empty, has_prefix, drop_prefix, length, Result, ok, err,
}
use automation_agent.Ingest.{
  Kind, Envelope, Codec, decode, kind_cron_daily, kind_lint, kind_coverage, kind_ci, kind_review,
  max_encoded_bytes, max_payload_bytes,
}

pub record Server : Type 0 where
  pub secret : Text
  pub internal_token : Text
  pub has_sweep : Bool
  pub has_dispatch : Bool

pub data Incoming : Type 0 where
  bytes : Text → Incoming
  broken : Incoming

-- The headers that the handlers read are empty where they are missing.
pub record Request : Type 0 where
  pub signature : Text
  pub authorization : Text
  pub event : Text
  pub body : Incoming

pub data Call : Type 0 where
  ingests : Envelope → Call
  dispatches : Envelope → Call
  sweeps : Call

pub record Reply : Type 0 where
  pub status : ℕ
  pub calls : List Call

pub record World : Type 0 where
  pub hmac_hex : Text → Text → Text
  pub codec : Codec
  pub now : ℕ
  pub ingest : Envelope → Bool
  pub dispatch : Envelope → Bool
  pub sweep : Bool

pub data Route : Type 0 where
  health lint coverage github cron_daily sweep dispatch : Route

abbrev pub only : ℕ → Reply
only status = record { status = status; calls = [] }

-- `readBody`: the body, or the status of its error.
pub read_body : ℕ → Incoming → Result ℕ Text
read_body limit (bytes b) = if ltb limit (length b) then err 413 else ok b
read_body limit broken = err 400

module _ (s : Server) (w : World) where
  pub verify_signature : Text → Text → Bool
  verify_signature header body =
      if has_prefix header (codes "sha256=")
      then eq_text (w.hmac_hex s.secret body) (drop_prefix header (codes "sha256="))
      else false

  pub authenticated : Request → Text → Bool
  unfolding verify_signature
  authenticated r body = if is_empty s.secret then true else verify_signature r.signature body

  -- `none`, or the status of the refusal.
  pub internal_refusal : Request → Option ℕ
  internal_refusal r =
      if is_empty s.internal_token
      then some 404
      else if not (has_prefix r.authorization (codes "Bearer "))
      then some 401
      else if not (eq_text (drop_prefix r.authorization (codes "Bearer ")) s.internal_token)
      then some 401
      else none

  -- `Server.dispatch`
  pub hand_over : Kind → Text → Text → Reply
  hand_over kind source payload =
      let e : Envelope = record {
        kind = kind;
        source = source;
        received_at = w.now;
        payload = payload;
      } in
      if w.ingest e
      then record { status = 202; calls = ingests e ∷ [] }
      else record { status = 500; calls = ingests e ∷ [] }

  -- A body that was read, on a route that checks the signature.
  signed : Request → Result ℕ Text → (Text → Reply) → Reply
  unfolding authenticated
  signed r (err status) act = only status
  signed r (ok body) act = if authenticated r body then act body else only 401

  pub handle_kickoff : Kind → Text → Request → Reply
  unfolding signed read_body hand_over
  handle_kickoff kind source r =
      signed r (read_body max_payload_bytes r.body) (λ body. hand_over kind source body)

  by_event : Text → Text → Reply
  unfolding hand_over
  by_event event body =
      if eq_text event (codes "pull_request")
      then hand_over kind_review (codes "webhook:/github") body
      else if eq_text event (codes "check_run")
      then hand_over kind_ci (codes "webhook:/github") body
      else only 200

  pub handle_github : Request → Reply
  unfolding signed read_body by_event
  handle_github r = signed r (read_body max_payload_bytes r.body) (λ body. by_event r.event body)

  allowed : Option ℕ → Reply → Reply
  allowed none act = act
  allowed (some status) act = only status

  pub handle_cron_daily : Request → Reply
  unfolding allowed internal_refusal hand_over
  handle_cron_daily r =
      allowed (internal_refusal r) (hand_over kind_cron_daily (codes "internal:/cron/daily") [])

  pub handle_sweep : Request → Reply
  unfolding allowed internal_refusal
  handle_sweep r = allowed (internal_refusal r) (
      if not s.has_sweep
      then only 501
      else if w.sweep
      then record { status = 200; calls = sweeps ∷ [] }
      else record { status = 500; calls = sweeps ∷ [] })

  run_task : Option Envelope → Reply
  run_task none = only 200
  run_task (some e) =
      if w.dispatch e
      then record { status = 200; calls = dispatches e ∷ [] }
      else record { status = 500; calls = dispatches e ∷ [] }

  take_task : Result ℕ Text → Reply
  unfolding run_task
  take_task (err status) = only status
  take_task (ok body) = run_task (decode w.codec body)

  pub handle_dispatch : Request → Reply
  unfolding allowed internal_refusal take_task read_body
  handle_dispatch r =
      allowed (internal_refusal r)
        (if not s.has_dispatch then only 501 else take_task (read_body max_encoded_bytes r.body))

  pub serve : Route → Request → Reply
  unfolding handle_kickoff handle_github handle_cron_daily handle_sweep handle_dispatch
  serve health r = only 200
  serve lint r = handle_kickoff kind_lint (codes "webhook:/lint") r
  serve coverage r = handle_kickoff kind_coverage (codes "webhook:/coverage") r
  serve github r = handle_github r
  serve cron_daily r = handle_cron_daily r
  serve sweep r = handle_sweep r
  serve dispatch r = handle_dispatch r
