-- ===== src/Lib.antt =====
-- A model of automation-agent, the service under go/ that fixes lint and coverage failures and
-- reviews pull requests.
--
-- The parts and how they interact. Config (go/internal/config/config.go) reads the environment and
-- checks it, and Main (go/cmd/agent/main.go) makes the server, the transport and the engines of it.
-- A request to the webhook server (Webhook, for go/internal/webhook/handlers.go) is checked and
-- becomes an envelope (Ingest, for go/internal/ingest/envelope.go). A task transport runs it later:
-- a pool in the process (Tasks.InProcess, for go/internal/tasks/inprocess.go) or a queue that
-- delivers it to the server again (Tasks.CloudTasks and Tasks.Options, for cloudtasks.go and
-- transport.go there). The root dispatcher (Root, for go/internal/agent/root) picks the workflow by
-- the envelope's kind. A fix engine (Fixflow.Engine, for go/internal/agent/fixflow/engine.go and
-- envelope.go) lets kickoffs and check runs through to its driver (Fixflow.Driver, for
-- go/internal/agent/fixflow/driver.go; Fixflow.Keys for the text that names a pull request). The
-- driver keeps its parked runs in a park store: ParkStore.Interface has the operations and the laws
-- that the driver relies on, ParkStore.View what each operation promises, and two backends fill the
-- laws, ParkStore.Memory (go/internal/agent/setup/parkstore.go) and ParkStore.Sqlite
-- (parkstore_sqlite.go there). RateLimit is the transport of the GitHub client that waits and tries
-- again (go/internal/githubapi/ratelimit.go). Common has the shared types and lemmas.
--
-- The reviewer is under Reviewer, for go/internal/agent/reviewer. Intake (reviewer.go) decides on a
-- pull request event and publishes by Publish (publish.go), over the calls of Hub. Filter and Globs
-- (filter.go; Globs.Meaning reads a glob without the expression) choose the files, Hunks (hunks.go,
-- sizegate.go) reads their diffs, Gates (glue.go, and parts of standards.go and review.go) cleans
-- the findings (Findings and Reports, for findings.go), Scorecard (scorecard.go) grades them,
-- Marker and Reconcile (reconcile.go) compare them with the comments that there are, Standards
-- (standards.go) has the rules of a repository and their cache, and Enqueue (enqueue.go) names the
-- tasks of rapid pushes.
--
-- How state and operations correspond. A Go function is a function of the same name in snake_case;
-- a method takes the state first and returns the new state beside its result. A map is an
-- association list whose keys are held once, a text is a list of bytes (in Globs, of characters), a
-- time is a number of seconds or of nanoseconds where the unit matters, and an error is a value, of
-- which the text is kept only where it is read: an error of the configuration is the variable that
-- it names. A loop over a map reads each entry by its key. The driver's state is the store, the
-- armed timers, and, as records of what was done, the deleted sessions and the sent notices. The
-- reviewer's state is the history of its calls, and each answer is a function of the history, so
-- that a pull request may change between two calls.
--
-- Bounds and fuel. The request loop of RateLimit runs on one more round than it has retries, which
-- is enough since each round but the last uses one up. Decimal printing of n runs on n + 1 rounds,
-- and each divides by ten. Retry-After, the budget of a prompt and the words of Atoi are int64 in
-- two's complement. `now - ttl` stops at 0, where Go's times go on; no record is older than that,
-- since a time of 0 is never stale in the memory backend. The lines and sizes of a diff are not
-- bounded.
--
-- What is not modelled. The driver's operations run one at a time, and so do those of the memory
-- store, which has a lock. An operation of the SQL store is several statements without a
-- transaction: in ParkStore.Sqlite an operation runs to its end before the next one starts, and in
-- ParkStore.Sqlite.Races other callers may come between the read of a row and its claim, but not
-- between the two statements of Put. JSON, base64, HMAC, HTTP dates, durations, floats, URLs, keys,
-- ADK runs, GitHub, the statements of SQL, the queue, the notifier and the clock answer as
-- functions that the definitions take. White space and letter case are ASCII's. Logs have no
-- effect. The Firestore backends, the text of the comments of a review, the run of its lenses and
-- the fetching of its standards, the attempt that edits files, and the clients of outside services
-- are left out.
pub mod Common
pub mod ParkStore
pub mod RateLimit
pub mod Config
pub mod Main
pub mod Fixflow
pub mod Root
pub mod Ingest
pub mod Webhook
pub mod Reviewer
pub mod Tasks
