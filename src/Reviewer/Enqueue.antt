-- ===== src/Reviewer/Enqueue.antt =====
-- go/internal/agent/reviewer/enqueue.go: the name and the delay of the task of a push. Times are in
-- nanoseconds; `zero_time` is how long before 1970 Go's zero time is, from which Truncate counts.
pub mod Coalesced
mod Tests
use automation_agent.Common.{
  ℕ, ◌+◌, ◌-◌, ◌*◌, ◌%◌, ◌^◌, ◌&&◌, Option, none, some, List, [], ◌∷◌, ◌++◌, leb, ltb,
  if◌then◌else◌, Text, codes, eq_text, decimal, ℤ, pos, negsuc,
}
use automation_agent.Ingest.{Envelope, kind_review}
use automation_agent.Tasks.Options
use automation_agent.Tasks.Options.{with_name, with_delay}
use automation_agent.Reviewer.Hub.{PullRequestEvent}

abbrev pub zero_time : ℕ
zero_time = 62135596800 * 10 ^ 9

-- `UnixNano` of `t.Truncate(d)`, for a time `t` after 1970.
unfoldable pub bucket_of : ℕ → ℕ → ℤ
bucket_of t d =
    let floor = (t + zero_time) - (t + zero_time) % d in
    if leb zero_time floor then pos (floor - zero_time) else negsuc (zero_time - floor - 1)

-- `strconv.FormatInt(z, 10)`
unfoldable pub format_int : ℤ → Text
format_int (pos n) = decimal n
format_int (negsuc n) = b'-' ∷ decimal (n + 1)

module _ (base64url : Text → Text) (parse : Text → Option PullRequestEvent) where
  unfoldable pub coalesce_key : PullRequestEvent → ℤ → Text
  unfolding format_int
  coalesce_key ev bucket =
      codes "review-"
      ++ (base64url ev.repo_full_name ++ b'-' ∷ (decimal ev.number ++ b'-' ∷ format_int bucket))

  options_of : ℕ → ℕ → Option PullRequestEvent → List Options.Option
  unfolding coalesce_key bucket_of
  options_of received_at d none = []
  options_of received_at d (some ev) =
      if eq_text ev.action (codes "synchronize")
      then with_name (coalesce_key ev (bucket_of received_at d)) ∷ with_delay (pos d) ∷ []
      else []

  -- A debounce that is not positive gives no options.
  pub enqueue_options : Envelope → ℤ → List Options.Option
  unfolding options_of
  enqueue_options e (negsuc d) = []
  enqueue_options e (pos d) =
      if eq_text e.kind kind_review && ltb 0 d
      then options_of e.received_at d (parse e.payload)
      else []
