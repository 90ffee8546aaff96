-- ===== src/Webhook/Tests.antt =====
-- go/internal/webhook and go/internal/ingest: requests to a small server.
use automation_agent.Common.{
  some-injective, none-some, length, ◌≤◌, ◌<◌, ◌≡◌, ◌⊎◌, inl, inr, refl, sym, ap, ◌∙◌, true, false,
  Option, none, some, [], ◌∷◌, if◌then◌else◌, Text, codes, eq_text, eq_text_iff, is_empty,
  Bool-cases, arith,
}
use automation_agent.Ingest.{
  Envelope, WireEnvelope, Codec, CodecLaws, decode, kind_lint, max_encoded_bytes,
}
use automation_agent.Webhook.{
  Server, bytes, broken, Request, dispatches, World, lint, dispatch, only, serve,
}
use automation_agent.Webhook.Guards.{IsTrusted, serve-IsTrusted, BearsToken, serve-dispatch}

-- A codec for lint envelopes without a source: the time, and then the payload.
abbrev short_form : WireEnvelope → Option Text
short_form e =
    if eq_text e.kind kind_lint
    then (if is_empty e.source then some (e.received_at ∷ e.payload) else none)
    else none

abbrev long_form : Text → Option WireEnvelope
long_form [] = none
long_form (t ∷ p) = some (record { kind = kind_lint; source = []; received_at = t; payload = p })

abbrev pub small_codec : Codec
small_codec = record {
  marshal = short_form;
  unmarshal = long_form;
  encode_base64 = λ t. t;
  decode_base64 = λ t. some t;
}

empty_nil : (t : Text) → is_empty t ≡ true → [] ≡ t
empty_nil [] h = refl
empty_nil (c ∷ t) h = cc

long_form-short_form : (e : WireEnvelope) (b : Text) → short_form e ≡ some b → long_form b ≡ some e
long_form-short_form e b h = elim (Bool-cases (eq_text e.kind kind_lint)) [
  | inr k ↦ absurd (none-some (rw k at h))
  | inl k ↦ elim (Bool-cases (is_empty e.source)) [
    | inr s ↦ absurd (none-some (rw s at (rw k at h)))
    | inl s ↦ ap long_form (sym (some-injective (rw s at (rw k at h)))) ∙ (λ i. some (record {
      kind = sym ((eq_text_iff e.kind kind_lint).0 k) i;
      source = empty_nil e.source s i;
      received_at = e.received_at;
      payload = e.payload;
    }))
  ]
]

pub small_codec-CodecLaws : CodecLaws small_codec
small_codec-CodecLaws = record {
  unmarshal_marshal = long_form-short_form;
  decode_encode = λ t. refl;
}

abbrev pub lint_event : Envelope
lint_event = record { kind = kind_lint; source = []; received_at = 5; payload = codes "{}" }

abbrev server : Server
server = record {
  secret = codes "s";
  internal_token = codes "t";
  has_sweep = true;
  has_dispatch = true;
}

-- The dispatch fails, and the signature of a body is the body.
abbrev world : World
world = record {
  hmac_hex = λ secret body. body;
  codec = small_codec;
  now = 5;
  ingest = λ e. true;
  dispatch = λ e. false;
  sweep = true;
}

abbrev task : Request
task = record {
  signature = [];
  authorization = codes "Bearer t";
  event = [];
  body = bytes (5 ∷ codes "{}");
}

serve-IsTrusted_example :
    ((serve server world lint task).calls ≡ []) ⊎ IsTrusted server world lint task
serve-IsTrusted_example = serve-IsTrusted server world lint task

task-BearsToken : BearsToken server world task
task-BearsToken = (ground arith, refl)

serve-dispatch_example :
    let reply = serve server world dispatch task in
    ((body : Text)
      → bytes (5 ∷ codes "{}") ≡ bytes body
      → (length body ≤ max_encoded_bytes
          → (decode small_codec body ≡ none → reply ≡ only 200)
            × ((e : Envelope)
                → decode small_codec body ≡ some e
                → reply ≡ record { status = 500; calls = dispatches e ∷ [] }))
        × (max_encoded_bytes < length body → reply ≡ only 413))
    × (bytes (5 ∷ codes "{}") ≡ broken → reply ≡ only 400)
serve-dispatch_example = serve-dispatch server world task refl task-BearsToken
