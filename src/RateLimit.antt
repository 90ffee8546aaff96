-- ===== src/RateLimit.antt =====
-- go/internal/githubapi/ratelimit.go: the transport that replays a request which GitHub rejected
-- for rate limiting. Instants are nanoseconds since the Unix epoch and durations are Go's int64
-- nanoseconds, wrap-around written out. The base transport, `GetBody` and the context are functions
-- of the number of the attempt; `http.ParseTime` of the standard library is a parameter.
pub mod Budget
pub mod Overflow
mod Tests
use automation_agent.Common.{
  ℕ, zero, suc, ◌+◌, ◌-◌, ◌*◌, ◌^◌, Bool, false, ◌&&◌, not, Option, none, some, List, [], ◌∷◌, ltb,
  leb, ◌==◌, if◌then◌else◌, Text, codes, eq_text, is_empty, ℤ, pos, negsuc, signed_64, atoi,
}
use Prim.Native.Nat.{min}

abbrev pub second : ℕ
second = 1_000_000_000

abbrev pub max_rate_limit_wait : ℕ
max_rate_limit_wait = 60 * second

abbrev pub max_rate_limit_retries : ℕ
max_rate_limit_retries = 3

abbrev pub rate_limit_slack : ℕ
rate_limit_slack = second

-- The status and the headers that the transport reads; a missing header is the empty text.
pub record Response : Type 0 where
  pub status : ℕ
  pub retry_after : Text
  pub remaining : Text
  pub reset : Text

-- `max(d, 0)`
abbrev pub non_negative : ℤ → ℤ
non_negative (pos n) = pos n
non_negative (negsuc n) = pos 0

-- `time.Duration(secs) * time.Second`, at a number of seconds in two's complement.
abbrev pub seconds : ℕ → ℤ
seconds w = signed_64 (w * second)

-- `max(t.Sub(now), 0)` for an instant at or after the epoch: `Sub` stops at the largest int64.
abbrev pub until : ℕ → ℕ → ℕ
until at now = min (at - now) (2 ^ 63 - 1)

-- `max(time.Unix(sec, 0).Sub(now), 0)`. The seconds since the year 1 wrap around for the last
-- 62135596800 values of an int64, which makes the instant one of the far past.
pub until_unix : ℤ → ℕ → ℕ
until_unix (pos sec) now =
    if ltb (sec + 62_135_596_800) (2 ^ 63) then until (sec * second) now else 0
until_unix (negsuc n) now = 0

module _ (parse_time : Text → Option ℕ) where
  pub parse_retry_after : Text → ℕ → Option ℤ
  parse_retry_after v now = elim (atoi v) [
    | some secs ↦ some (non_negative (seconds secs))
    | none ↦ elim (parse_time v) [ some ts ↦ some (pos (until ts now)) | none ↦ none ]
  ]

  -- The wait of an exhausted primary quota.
  pub primary_delay : Response → ℕ → Option ℤ
  unfolding until_unix
  primary_delay resp now =
      if eq_text resp.remaining (codes "0")
      then elim (atoi resp.reset) [
        | some sec ↦ some (signed_64 (until_unix (signed_64 sec) now + rate_limit_slack))
        | none ↦ none
      ]
      else none

  -- `none` is a response that is no rate-limit rejection.
  pub retry_delay : Response → ℕ → Option ℤ
  unfolding primary_delay parse_retry_after
  retry_delay resp now =
      if not (resp.status == 429) && not (resp.status == 403)
      then none
      else if is_empty resp.retry_after
      then primary_delay resp now
      else elim (parse_retry_after resp.retry_after now) [
        | some d ↦ some d
        | none ↦ primary_delay resp now
      ]

-- What ends a request: a response, an error of the base transport, or the context's end.
pub data Ending : Type 0 where
  responded : Response → Ending
  transport_error : Ending
  cancelled : Ending

pub record Transport : Type 0 where
  pub max_wait : ℕ
  pub max_retries : ℕ

-- The world of one request: what the base transport answers to each attempt, at which instant,
-- whether the body can be rewound after it, and whether the sleep after it runs to its end.
pub record World : Type 0 where
  pub answer : ℕ → Option Response
  pub now : ℕ → ℕ
  pub replayable : ℕ → Bool
  pub slept : ℕ → Bool

-- `wait > t.maxWait`
abbrev pub exceeds : ℤ → ℕ → Bool
exceeds (pos n) limit = ltb limit n
exceeds (negsuc n) limit = false

-- The attempts that were sent, the waits between them, and the end.
pub record Trip : Type 0 where
  pub sent : ℕ
  pub waits : List ℤ
  pub ending : Ending

abbrev pub wait_then : ℤ → Option Trip → Option Trip
wait_then d none = none
wait_then d (some t) = some (record t { waits = d ∷ t.waits })

module _ (parse_time : Text → Option ℕ) (t : Transport) (w : World) where
  abbrev pub stop : ℕ → Ending → Option Trip
  stop attempt e = some (record { sent = attempt + 1; waits = []; ending = e })

  -- The loop's body after a rate-limit rejection; `again` is the next round.
  pub after_rejection : ℕ → Response → ℤ → Option Trip → Option Trip
  after_rejection attempt resp wait again =
      if leb t.max_retries attempt
      then stop attempt (responded resp)
      else if exceeds wait t.max_wait
      then stop attempt (responded resp)
      else if not (w.replayable attempt)
      then stop attempt (responded resp)
      else if w.slept attempt
      then wait_then wait again
      else stop attempt cancelled

  pub after_response : ℕ → Response → Option ℤ → Option Trip → Option Trip
  unfolding after_rejection
  after_response attempt resp none again = stop attempt (responded resp)
  after_response attempt resp (some wait) again = after_rejection attempt resp wait again

  pub after_attempt : ℕ → Option Response → Option Trip → Option Trip
  unfolding after_response retry_delay
  after_attempt attempt none again = stop attempt transport_error
  after_attempt attempt (some resp) again =
      after_response attempt resp (retry_delay parse_time resp (w.now attempt)) again

  -- The loop of `RoundTrip` on fuel; `none` means that the fuel ran out.
  pub round_trip_from : ℕ → ℕ → Option Trip
  round_trip_from zero attempt = none
  round_trip_from (suc fuel) attempt =
      let again = round_trip_from fuel (attempt + 1) in
      after_attempt attempt (w.answer attempt) again

  pub round_trip : Option Trip
  unfolding round_trip_from after_attempt
  round_trip = round_trip_from (t.max_retries + 1) 0
