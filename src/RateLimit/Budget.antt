-- ===== src/RateLimit/Budget.antt =====
-- go/internal/githubapi/ratelimit.go, `RoundTrip`: the loop ends within its budget, and replays
-- nothing but a rate-limit rejection.
use automation_agent.Common.{
  ℕ, zero, suc, ◌+◌, ◌-◌, ◌≤◌, ◌<◌, ◌≡◌, refl, ◌⊎◌, inl, inr, true, false, Option, none, some, [],
  ◌∷◌, leb, ◌==◌, Text, codes, eq_text_iff, is_empty, ℤ, arith, All, length, Bool-cases,
  Option-cases, subst,
}
use automation_agent.RateLimit.{
  Response, primary_delay, retry_delay, Ending, responded, transport_error, cancelled, Transport,
  World, exceeds, Trip, after_rejection, after_response, after_attempt, round_trip_from, round_trip,
}

module _ (parse_time : Text → Option ℕ) where
  -- Only a 429 or a 403 is a rate-limit rejection, and only if it states a wait in Retry-After or
  -- says that no quota remains.
  pub retry_delay_sound :
      (resp : Response) (now : ℕ) (d : ℤ)
      → retry_delay parse_time resp now ≡ some d
      → ((resp.status ≡ 429) ⊎ (resp.status ≡ 403))
        × ((is_empty resp.retry_after ≡ false) ⊎ (resp.remaining ≡ codes "0"))
  unfolding retry_delay primary_delay
  retry_delay_sound resp now d e = ground (arith, e, eq_text_iff resp.remaining (codes "0"))

add-sub : (n : ℕ) → n + 1 - 1 ≡ n
add-sub n = omega arith

module _ (parse_time : Text → Option ℕ) (t : Transport) (w : World) where
  -- The response to attempt `i` was a rate-limit rejection.
  abbrev pub Rejected : ℕ → Type 0
  Rejected i =
      (resp : Response) × (d : ℤ) × (w.answer i ≡ some resp)
      × (retry_delay parse_time resp (w.now i) ≡ some d)

  pub record IsWithin (attempt : ℕ) (trip : Trip) : Type 0 where
    pub bounded : trip.sent ≤ t.max_retries + 1
    pub counted : length trip.waits + attempt + 1 ≡ trip.sent
    pub allowed : All (λ d. exceeds d t.max_wait ≡ false) trip.waits
    pub rejected : (i : ℕ) → attempt ≤ i → i + 1 < trip.sent → Rejected i
    pub last :
        (resp : Response) → trip.ending ≡ responded resp → w.answer (trip.sent - 1) ≡ some resp

  IsWithin-stop :
      (attempt : ℕ) (e : Ending)
      → attempt ≤ t.max_retries
      → ((resp : Response) → e ≡ responded resp → w.answer attempt ≡ some resp)
      → IsWithin attempt (record { sent = attempt + 1; waits = []; ending = e })
  IsWithin-stop attempt e h l = record {
    bounded = omega arith;
    counted = omega arith;
    allowed = tt;
    rejected = λ i a b. absurd (omega arith);
    last = λ resp q. rw (add-sub attempt) (l resp q);
  }

  IsWithin-wait :
      (attempt : ℕ) (d : ℤ) (trip : Trip)
      → exceeds d t.max_wait ≡ false
      → Rejected attempt
      → IsWithin (attempt + 1) trip
      → IsWithin attempt (record trip { waits = d ∷ trip.waits })
  IsWithin-wait attempt d trip a r v = record {
    bounded = v.bounded;
    counted = omega arith;
    allowed = (a, v.allowed);
    rejected = λ i h l. elim (Bool-cases (i == attempt)) [
      | inl same ↦ let e : i ≡ attempt = ground (arith, same) in rw e r
      | inr other ↦ v.rejected i (ground (arith, other, h)) l
    ];
    last = v.last;
  }

  abbrev Ends : ℕ → Option Trip → Type 0
  Ends attempt out = (trip : Trip) × (out ≡ some trip) × IsWithin attempt trip

  after_rejection-Ends :
      (attempt : ℕ) (resp : Response) (d : ℤ) (again : Option Trip)
      → attempt ≤ t.max_retries
      → w.answer attempt ≡ some resp
      → retry_delay parse_time resp (w.now attempt) ≡ some d
      → (attempt < t.max_retries → Ends (attempt + 1) again)
      → Ends attempt (after_rejection parse_time t w attempt resp d again)
  unfolding after_rejection
  after_rejection-Ends attempt resp d again h a r next =
      elim (Bool-cases (leb t.max_retries attempt)) [
        | inl spent ↦ rw spent stopped
        | inr left ↦ elim (Bool-cases (exceeds d t.max_wait)) [
          | inl long ↦ rw (left, long) stopped
          | inr short ↦ elim (Bool-cases (w.replayable attempt)) [
            | inr no_body ↦ rw (left, short, no_body) stopped
            | inl body ↦ elim (Bool-cases (w.slept attempt)) [
              | inr woken ↦
                  rw (left, short, body, woken)
                    (_, refl, IsWithin-stop attempt cancelled h (λ x e. cc))
              | inl slept ↦
                  let (trip, e, v) = next (ground (arith, left)) in
                  rw (left, short, body, slept, e)
                    (_, refl, IsWithin-wait attempt d trip short (resp, d, a, r) v)
            ]
          ]
        ]
      ]
    where
      stopped :
          Ends attempt (some (record { sent = attempt + 1; waits = []; ending = responded resp }))
      stopped = (_, refl, IsWithin-stop attempt (responded resp) h (λ x e. ground (arith, a, e)))

  after_attempt-Ends :
      (attempt : ℕ) (again : Option Trip)
      → attempt ≤ t.max_retries
      → (attempt < t.max_retries → Ends (attempt + 1) again)
      → Ends attempt (after_attempt parse_time t w attempt (w.answer attempt) again)
  unfolding after_attempt after_response
  after_attempt-Ends attempt again h next = elim (Option-cases (w.answer attempt)) [
    | inl failed ↦
        rw (failed, after_attempt) (_, refl, IsWithin-stop attempt transport_error h (λ x e. cc))
    | inr (resp, a) ↦ elim (Option-cases (retry_delay parse_time resp (w.now attempt))) [
      | inl plain ↦
          rw (a, after_attempt)
            (rw (plain, after_response)
              (_, refl, IsWithin-stop attempt (responded resp) h (λ x e. ground (arith, a, e))))
      | inr (d, r) ↦
          rw (a, after_attempt)
            (rw (r, after_response) (after_rejection-Ends attempt resp d again h a r next))
    ]
  ]

  round_trip_from-Ends :
      (fuel attempt : ℕ)
      → fuel + attempt ≡ t.max_retries + 1
      → attempt ≤ t.max_retries
      → Ends attempt (round_trip_from parse_time t w fuel attempt)
  unfolding round_trip_from
  round_trip_from-Ends zero attempt e h = absurd (omega arith)
  round_trip_from-Ends (suc fuel) attempt e h =
      after_attempt-Ends attempt _ h
        (λ l. round_trip_from-Ends fuel (attempt + 1) (omega arith) (omega arith))

-- Whatever GitHub answers, a request ends, and its fuel is enough: at most `max_retries` + 1
-- attempts are sent, with one wait between two of them and none longer than `max_wait`; every
-- attempt but the last was rejected for rate limiting; and a response that is returned is the
-- answer to the last attempt.
pub round_trip-IsWithin :
    (parse_time : Text → Option ℕ) (t : Transport) (w : World)
    → (trip : Trip) × (round_trip parse_time t w ≡ some trip) × IsWithin parse_time t w 0 trip
unfolding round_trip
round_trip-IsWithin parse_time t w =
    round_trip_from-Ends parse_time t w (t.max_retries + 1) 0 (omega arith) (omega arith)

-- The rejections before attempt `k`, each of which the transport waits out and replays.
abbrev pub WaitsOut : (Text → Option ℕ) → Transport → World → ℕ → Type 0
WaitsOut parse_time t w k =
    (i : ℕ)
    → i < k
    → (resp : Response) × (d : ℤ) × (w.answer i ≡ some resp)
      × (retry_delay parse_time resp (w.now i) ≡ some d)
      × (exceeds d t.max_wait ≡ false)
      × (w.replayable i ≡ true)
      × (w.slept i ≡ true)

module _ (parse_time : Text → Option ℕ) (t : Transport) (w : World) (resp : Response) (k : ℕ)
    (out : WaitsOut parse_time t w k) (a : w.answer k ≡ some resp)
    (plain : retry_delay parse_time resp (w.now k) ≡ none) where
  after_attempt_at :
      (attempt : ℕ) (again : Option Trip)
      → k ≡ attempt
      → after_attempt parse_time t w attempt (w.answer attempt) again
        ≡ some (record { sent = attempt + 1; waits = []; ending = responded resp })
  unfolding after_attempt after_response
  after_attempt_at attempt again e =
      subst
        (λ j.
          after_attempt parse_time t w j (w.answer j) again
          ≡ some (record { sent = j + 1; waits = []; ending = responded resp }))
        e (rw (a, after_attempt) (rw (plain, after_response)))

  reaches :
      (left attempt fuel : ℕ)
      → attempt + left ≡ k
      → k ≤ t.max_retries
      → left < fuel
      → (trip : Trip) × (round_trip_from parse_time t w fuel attempt ≡ some trip)
        × (trip.ending ≡ responded resp)
        × (trip.sent ≡ k + 1)
  unfolding round_trip_from after_attempt after_response after_rejection
  reaches left attempt zero e h f = elim f [ ]
  reaches zero attempt (suc fuel) e h f =
      (_, after_attempt_at attempt _ (omega arith), refl, omega arith)
  reaches (suc left) attempt (suc fuel) e h f =
      let (r, d, b, lim, short, body, slept) = out attempt (omega arith) in
      let (trip, ran, ending, sent) =
        reaches left (attempt + 1) fuel (omega arith) h (omega arith) in
      let more : leb t.max_retries attempt ≡ false = ground (arith, h, e) in
      (
        record trip { waits = d ∷ trip.waits },
        rw (b, after_attempt) (rw (lim, after_response) (rw (more, short, body, slept, ran))),
        ending,
        sent,
      )

-- A rejection that is waited out is not the end: if at most `max_retries` rejections, each with a
-- wait in the budget and a body that can be sent again, come before a response that is none, that
-- response is returned, after one attempt more than there were rejections.
pub round_trip_reaches :
    (parse_time : Text → Option ℕ) (t : Transport) (w : World) (resp : Response) (k : ℕ)
    → k ≤ t.max_retries
    → WaitsOut parse_time t w k
    → w.answer k ≡ some resp
    → retry_delay parse_time resp (w.now k) ≡ none
    → (trip : Trip) × (round_trip parse_time t w ≡ some trip)
      × (trip.ending ≡ responded resp)
      × (trip.sent ≡ k + 1)
unfolding round_trip
round_trip_reaches parse_time t w resp k h out a plain =
    reaches parse_time t w resp k out a plain k 0 (t.max_retries + 1) (omega arith) h (omega arith)
