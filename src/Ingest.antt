-- ===== src/Ingest.antt =====
-- go/internal/ingest/envelope.go: the envelope and its wire form. JSON and base64 are the fields of
-- a codec.
use automation_agent.Common.{
  none-some, ℕ, ◌*◌, ◌^◌, ◌≡◌, refl, inl, inr, Bool, Option, none, some, [], ◌∷◌, any,
  if◌then◌else◌, Text, codes, eq_text, Bool-cases,
}

-- A text, as in JSON.
abbrev pub Kind : Type 0
Kind = Text

abbrev pub kind_cron_daily : Kind
kind_cron_daily = codes "cron.daily"

abbrev pub kind_lint : Kind
kind_lint = codes "lint"

abbrev pub kind_coverage : Kind
kind_coverage = codes "coverage"

abbrev pub kind_ci : Kind
kind_ci = codes "ci"

abbrev pub kind_review : Kind
kind_review = codes "review"

unfoldable pub is_valid : Kind → Bool
is_valid k =
    any (λ v. eq_text k v)
      (kind_cron_daily ∷ kind_lint ∷ kind_coverage ∷ kind_ci ∷ kind_review ∷ [])

-- 1 MiB, and 750 KiB.
abbrev pub max_encoded_bytes : ℕ
max_encoded_bytes = 2 ^ 20

abbrev pub max_payload_bytes : ℕ
max_payload_bytes = 750 * 2 ^ 10

pub record Envelope : Type 0 where
  pub kind : Kind
  pub source : Text
  pub received_at : ℕ
  pub payload : Text

-- `payload` is in base64.
pub record WireEnvelope : Type 0 where
  pub kind : Kind
  pub source : Text
  pub received_at : ℕ
  pub payload : Text

pub record Codec : Type 0 where
  pub marshal : WireEnvelope → Option Text
  pub unmarshal : Text → Option WireEnvelope
  pub encode_base64 : Text → Text
  pub decode_base64 : Text → Option Text

-- What Go's documentation promises: what is encoded is decoded to the same value.
pub record CodecLaws (c : Codec) : Type 0 where
  pub unmarshal_marshal :
      (w : WireEnvelope) (b : Text) → c.marshal w ≡ some b → c.unmarshal b ≡ some w
  pub decode_encode : (t : Text) → c.decode_base64 (c.encode_base64 t) ≡ some t

module _ (c : Codec) where
  unfoldable pub encode : Envelope → Option Text
  encode e =
      if is_valid e.kind
      then c.marshal (record {
        kind = e.kind;
        source = e.source;
        received_at = e.received_at;
        payload = c.encode_base64 e.payload;
      })
      else none

  with_payload : WireEnvelope → Option Text → Option Envelope
  with_payload w none = none
  with_payload w (some p) =
      some (record { kind = w.kind; source = w.source; received_at = w.received_at; payload = p })

  open_wire : Option WireEnvelope → Option Envelope
  unfolding with_payload
  open_wire none = none
  open_wire (some w) = if is_valid w.kind then with_payload w (c.decode_base64 w.payload) else none

  pub decode : Text → Option Envelope
  unfolding open_wire
  decode b = open_wire (c.unmarshal b)

  -- An envelope that could be encoded is decoded as it was.
  pub decode-encode :
      (laws : CodecLaws c) (e : Envelope) (b : Text) → encode e ≡ some b → decode b ≡ some e
  unfolding encode decode
  decode-encode laws e b h = elim (Bool-cases (is_valid e.kind)) [
    | inr bad ↦ absurd (none-some (rw bad at h))
    | inl good ↦
        rw (laws.unmarshal_marshal _ b (rw good at h), good, laws.decode_encode e.payload) refl
  ]
