-- ===== src/RateLimit/Overflow.antt =====
-- go/internal/githubapi/ratelimit.go, `parseRetryAfter`: the product of the seconds and of
-- time.Second is an int64.
use automation_agent.Common.{ℕ, ◌*◌, ◌≤◌, ◌<◌, ◌^◌, ◌≡◌, Option, some, Text, pos, atoi, arith}
use automation_agent.RateLimit.{second, parse_retry_after}

-- Up to 9223372036 seconds a Retry-After of that many seconds is read as such.
pub parse_retry_after_exact :
    (parse_time : Text → Option ℕ) (v : Text) (now secs : ℕ)
    → atoi v ≡ some secs
    → secs * second < 2 ^ 63
    → parse_retry_after parse_time v now ≡ some (pos (secs * second))
unfolding parse_retry_after
parse_retry_after_exact parse_time v now secs e h = rw (e, parse_retry_after) (ground (arith, h))

-- From 9223372037 seconds (292 years) on, up to 18446744073, the product is a negative int64, and
-- the wait that is read is no wait at all.
pub parse_retry_after_wraps :
    (parse_time : Text → Option ℕ) (v : Text) (now secs : ℕ)
    → atoi v ≡ some secs
    → 2 ^ 63 ≤ secs * second
    → secs * second < 2 ^ 64
    → parse_retry_after parse_time v now ≡ some (pos 0)
unfolding parse_retry_after
parse_retry_after_wraps parse_time v now secs e h l =
    rw (e, parse_retry_after) (ground (arith, h, l))
