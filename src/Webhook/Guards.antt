-- ===== src/Webhook/Guards.antt =====
-- go/internal/webhook/handlers.go: who may cause work, and what the task queue is told.
use automation_agent.Common.{
  is_empty-some, is_empty-nil, is_empty-cons, false-true, some-none, ℕ, ◌≤◌, ◌<◌, if◌then◌else◌,
  ◌≡◌, ◌≢◌, ◌⊎◌, inl, inr, refl, sym, ap, ◌∙◌, true, false, none, some, [], ◌∷◌, ◌++◌, ltb, Text,
  codes, eq_text, eq_text_iff, eq_text_refl, is_empty, has_prefix, drop_prefix, has_prefix-append,
  drop_prefix-append, append-drop_prefix, length, Bool-cases, Option-cases, arith,
}
use automation_agent.Ingest.{Envelope, decode, max_encoded_bytes, max_payload_bytes}
use automation_agent.Webhook.{
  Server, Incoming, bytes, broken, Request, dispatches, Reply, World, Route, health, lint, coverage,
  github, cron_daily, sweep, dispatch, only, read_body, verify_signature, authenticated,
  internal_refusal, signed, handle_kickoff, handle_github, allowed, handle_cron_daily, handle_sweep,
  run_task, take_task, handle_dispatch, serve,
}

ltb-false : {m n : ℕ} → m ≤ n → ltb n m ≡ false
ltb-false h = ground (arith, h)

ltb-true : {m n : ℕ} → m < n → ltb m n ≡ true
ltb-true h = ground (arith, h)

module _ (s : Server) (w : World) where
  -- There is no secret, or the body is signed with it.
  abbrev pub IsSigned : Request → Type 0
  IsSigned r =
      (body : Text) × (r.body ≡ bytes body)
      × ((s.secret ≡ []) ⊎ (r.signature ≡ codes "sha256=" ++ w.hmac_hex s.secret body))

  -- There is a token, and the request bears it.
  abbrev pub BearsToken : Request → Type 0
  BearsToken r = (s.internal_token ≢ []) × (r.authorization ≡ codes "Bearer " ++ s.internal_token)

  abbrev pub IsTrusted : Route → Request → Type 0
  IsTrusted health r = ⊥
  IsTrusted lint r = IsSigned r
  IsTrusted coverage r = IsSigned r
  IsTrusted github r = IsSigned r
  IsTrusted cron_daily r = BearsToken r
  IsTrusted sweep r = BearsToken r
  IsTrusted dispatch r = BearsToken r

  verify_signature_lem :
      (header body : Text)
      → verify_signature s w header body ≡ true
      → header ≡ codes "sha256=" ++ w.hmac_hex s.secret body
  unfolding verify_signature
  verify_signature_lem header body h = elim (Bool-cases (has_prefix header (codes "sha256="))) [
    | inr e ↦ absurd (false-true (rw e at h))
    | inl e ↦
        sym (append-drop_prefix header (codes "sha256=") e)
        ∙ ap (λ t. codes "sha256=" ++ t)
            (sym (
              (eq_text_iff (w.hmac_hex s.secret body) (drop_prefix header (codes "sha256="))).0
                (rw e at h)))
  ]

  authenticated_lem :
      (r : Request) (body : Text)
      → r.body ≡ bytes body
      → authenticated s w r body ≡ true
      → IsSigned r
  unfolding authenticated
  authenticated_lem r body same h = elim (Bool-cases (is_empty s.secret)) [
    | inl e ↦ (body, same, inl (is_empty-nil s.secret e))
    | inr e ↦ (body, same, inr (verify_signature_lem r.signature body (rw e at h)))
  ]

  internal_refusal_lem : (r : Request) → internal_refusal s w r ≡ none → BearsToken r
  unfolding internal_refusal
  internal_refusal_lem r h = elim (Bool-cases (is_empty s.internal_token)) [
    | inl e ↦ absurd (some-none (rw e at h))
    | inr e ↦ elim (Bool-cases (has_prefix r.authorization (codes "Bearer "))) [
      | inr p ↦ absurd (some-none (rw p at (rw e at h)))
      | inl p ↦
          elim (Bool-cases
            (eq_text (drop_prefix r.authorization (codes "Bearer ")) s.internal_token)) [
              | inr k ↦ absurd (some-none (rw k at (rw p at (rw e at h))))
              | inl k ↦ (
                is_empty-cons s.internal_token e,
                sym (append-drop_prefix r.authorization (codes "Bearer ") p)
                    ∙ ap (λ t. codes "Bearer " ++ t)
                        ((eq_text_iff (drop_prefix r.authorization (codes "Bearer "))
                            s.internal_token).0
                          k),
              )
            ]
    ]
  ]

  allowed_lem :
      (r : Request) (act : Reply)
      → ((allowed s w (internal_refusal s w r) act).calls ≡ []) ⊎ BearsToken r
  unfolding allowed
  allowed_lem r act = elim (Option-cases (internal_refusal s w r)) [
    | inl e ↦ inr (internal_refusal_lem r e)
    | inr (status, e) ↦ inl (rw e refl)
  ]

  signed_lem :
      (r : Request) (limit : ℕ) (act : Text → Reply) (body : Incoming)
      → r.body ≡ body
      → ((signed s w r (read_body limit body) act).calls ≡ []) ⊎ IsSigned r
  unfolding signed read_body
  signed_lem r limit act broken same = inl refl
  signed_lem r limit act (bytes b) same = elim (Bool-cases (ltb limit (length b))) [
    | inl long ↦ inl (rw long refl)
    | inr fits ↦ elim (Bool-cases (authenticated s w r b)) [
      | inl good ↦ inr (authenticated_lem r b same good)
      | inr bad ↦ inl (rw (fits, bad) refl)
    ]
  ]

  -- A request that makes a call is signed, on the webhook routes if a secret is set, or bears the
  -- token, on the internal ones, which are closed without a token. Without a secret a webhook route
  -- takes every request.
  pub serve-IsTrusted :
      (route : Route) (r : Request) → ((serve s w route r).calls ≡ []) ⊎ IsTrusted route r
  unfolding serve handle_kickoff handle_github handle_cron_daily handle_sweep handle_dispatch
  serve-IsTrusted health r = inl refl
  serve-IsTrusted lint r = signed_lem r max_payload_bytes _ r.body refl
  serve-IsTrusted coverage r = signed_lem r max_payload_bytes _ r.body refl
  serve-IsTrusted github r = signed_lem r max_payload_bytes _ r.body refl
  serve-IsTrusted cron_daily r = allowed_lem r _
  serve-IsTrusted sweep r = allowed_lem r _
  serve-IsTrusted dispatch r = allowed_lem r _

  internal_refusal-none : (r : Request) → BearsToken r → internal_refusal s w r ≡ none
  unfolding internal_refusal
  internal_refusal-none r (t, h) =
      rw
        (
          h,
          is_empty-some s.internal_token t,
          has_prefix-append (codes "Bearer ") s.internal_token,
          drop_prefix-append (codes "Bearer ") s.internal_token,
          eq_text_refl s.internal_token,
        )
        refl

  -- A task that bears the token and fits is dispatched once if it can be decoded: it is answered with
  -- 200 if the dispatch succeeds, and with 500, so that the queue tries again, if it fails. A task that
  -- cannot be decoded is answered with 200 and not dispatched, one that is too long with 413, and one
  -- whose body breaks off with 400.
  pub serve-dispatch :
      (r : Request)
      → s.has_dispatch ≡ true
      → BearsToken r
      → let reply = serve s w dispatch r in
        ((body : Text)
          → r.body ≡ bytes body
          → (length body ≤ max_encoded_bytes
              → (decode w.codec body ≡ none → reply ≡ only 200)
                × ((e : Envelope)
                    → decode w.codec body ≡ some e
                    → reply ≡ record {
                      status = if w.dispatch e then 200 else 500;
                      calls = dispatches e ∷ [];
                    }))
            × (max_encoded_bytes < length body → reply ≡ only 413))
        × (r.body ≡ broken → reply ≡ only 400)
  unfolding serve handle_dispatch allowed take_task run_task read_body
  serve-dispatch r has t =
      rw (internal_refusal-none r t, has)
        (
          (λ body same. rw same (
            (λ fits. rw (ltb-false fits) (
              (λ e. rw e refl),
              λ e h. rw h (elim (Bool-cases (w.dispatch e)) [
                | inl fine ↦ rw fine refl
                | inr bad ↦ rw bad refl
              ]),
            )),
            λ long. rw (ltb-true long) refl,
          )),
          λ same. rw same refl,
        )
