-- ===== src/Reviewer/Enqueue/Tests.antt =====
-- go/internal/agent/reviewer/enqueue.go: two pushes in one window.
use automation_agent.Common.{◌+◌, ◌<◌, ◌≡◌, refl, false, some, none, [], codes, arith}
use automation_agent.Reviewer.Hub.{PullRequestEvent}
use automation_agent.Reviewer.Enqueue.{coalesce_key, bucket_of}
use automation_agent.Reviewer.Enqueue.Coalesced.{coalesce_key-window}

abbrev push : PullRequestEvent
push = record {
  action = codes "synchronize";
  number = 7;
  repo_full_name = codes "o/r-x";
  head_ref = codes "topic";
  head_sha = codes "c2";
  draft = false;
  labels = [];
  author_login = codes "ann";
}

one_bucket :
    coalesce_key (λ t. t) (λ t. none) push (bucket_of 100 30)
    ≡ coalesce_key (λ t. t) (λ t. none) push (bucket_of 105 30)
unfolding bucket_of
one_bucket = refl

coalesce_key-window_example :
    (push.repo_full_name ≡ push.repo_full_name)
    × (push.number ≡ push.number)
    × (100 < 105 + 30)
    × (105 < 100 + 30)
coalesce_key-window_example =
    coalesce_key-window (λ t. t) (λ t. some t) (λ t. none) push push 100 105 30 (λ t. refl)
      (omega arith) (omega arith) (omega arith) (omega arith) (omega arith) (omega arith)
      (omega arith) one_bucket
