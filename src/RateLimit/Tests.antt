-- ===== src/RateLimit/Tests.antt =====
-- go/internal/githubapi/ratelimit.go: requests against small worlds.
use automation_agent.Common.{
  ℕ, zero, suc, ◌*◌, ◌≡◌, refl, true, Option, none, some, [], ◌∷◌, Text, codes, eq_text, atoi, pos,
  arith,
}
use automation_agent.RateLimit.{
  second, max_rate_limit_wait, max_rate_limit_retries, Response, parse_retry_after, retry_delay,
  responded, Transport, World, Trip, round_trip,
}
use automation_agent.RateLimit.Budget.{IsWithin, round_trip-IsWithin, WaitsOut, round_trip_reaches}
use automation_agent.RateLimit.Overflow.{parse_retry_after_wraps}

running : Unit {0}
unfolding round_trip retry_delay eq_text atoi
running = tt

-- No text is an HTTP date.
abbrev no_dates : Text → Option ℕ
no_dates v = none

abbrev fine : Response
fine = record { status = 200; retry_after = []; remaining = codes "17"; reset = [] }

abbrev slow_down : Response
slow_down = record { status = 429; retry_after = codes "2"; remaining = []; reset = [] }

abbrev forbidden : Response
forbidden = record { status = 403; retry_after = []; remaining = codes "17"; reset = codes "99" }

abbrev exhausted : Response
exhausted = record { status = 403; retry_after = []; remaining = codes "0"; reset = codes "105" }

abbrev transport : Transport
transport = record { max_wait = max_rate_limit_wait; max_retries = max_rate_limit_retries }

-- Two rejections, then a success.
abbrev answers : ℕ → Option Response
answers zero = some slow_down
answers (suc zero) = some exhausted
answers (suc (suc n)) = some fine

abbrev world : World
world = record {
  answer = answers;
  now = λ n. 100 * second;
  replayable = λ n. true;
  slept = λ n. true;
}

two_waits :
    round_trip no_dates transport world
    ≡ some (record {
      sent = 3;
      waits = pos (2 * second) ∷ pos (6 * second) ∷ [];
      ending = responded fine;
    })
unfolding running
two_waits = refl

always_limited :
    round_trip no_dates transport (record world { answer = λ n. some slow_down })
    ≡ some (record {
      sent = 4;
      waits = pos (2 * second) ∷ pos (2 * second) ∷ pos (2 * second) ∷ [];
      ending = responded slow_down;
    })
unfolding running
always_limited = refl

permission_error : retry_delay no_dates forbidden 0 ≡ none
unfolding running
permission_error = refl

round_trip-IsWithin_example :
    (trip : Trip) × (round_trip no_dates transport world ≡ some trip)
    × IsWithin no_dates transport world 0 trip
round_trip-IsWithin_example = round_trip-IsWithin no_dates transport world

world-WaitsOut : WaitsOut no_dates transport world 2
unfolding running
world-WaitsOut zero h = (slow_down, pos (2 * second), refl, refl, refl, refl, refl)
world-WaitsOut (suc zero) h = (exhausted, pos (6 * second), refl, refl, refl, refl, refl)
world-WaitsOut (suc (suc n)) h = absurd (omega arith)

round_trip_reaches_example :
    (trip : Trip) × (round_trip no_dates transport world ≡ some trip)
    × (trip.ending ≡ responded fine)
    × (trip.sent ≡ 3)
unfolding running
round_trip_reaches_example =
    round_trip_reaches no_dates transport world fine 2 (omega arith) world-WaitsOut refl refl

parse_retry_after_wraps_example : parse_retry_after no_dates (codes "9223372037") 0 ≡ some (pos 0)
unfolding running
parse_retry_after_wraps_example =
    parse_retry_after_wraps no_dates (codes "9223372037") 0 9_223_372_037 refl (omega arith)
      (omega arith)
