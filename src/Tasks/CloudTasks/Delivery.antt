-- ===== src/Tasks/CloudTasks/Delivery.antt =====
-- go/internal/tasks/cloudtasks.go and go/internal/webhook: a task, from its envelope to the worker.
use automation_agent.Common.{
  is_empty-nil, some-injective, some-none, none-some, ◌≤◌, ◌≡◌, ◌≢◌, subst, inl, inr, refl, sym, ap,
  ◌∙◌, true, Option, none, some, List, [], ◌∷◌, ◌++◌, ltb, Text, codes, eq_text, is_empty, length,
  Map, lookup, insert, lookup-insert, text_eq, Bool-cases, arith,
}
use automation_agent.Ingest.{Envelope, CodecLaws, encode, decode-encode}
use automation_agent.Tasks.Options
use automation_agent.Tasks.Options.{apply}
use automation_agent.Tasks.CloudTasks.{
  CloudTasks, Task, World, headers_of, task_with, bounded, task_of, insert_all, max_task_bytes,
}
use automation_agent.Webhook.{Server, Request, bytes, dispatch, dispatches, serve}
use automation_agent.Webhook
use automation_agent.Webhook.Guards.{BearsToken, serve-dispatch}

abbrev pub or_empty : Option Text → Text
or_empty none = []
or_empty (some t) = t

-- The request is the delivery of the task: its body and its Authorization header.
abbrev pub Delivers : Task → Request → Type 0
Delivers t r =
    (r.body ≡ bytes t.body)
    × (r.authorization ≡ or_empty (lookup (codes "Authorization") t.headers))

-- Headers that do not bear a name leave it alone.
lookup-insert_all :
    (k : Text) (more m : Map Text Text)
    → lookup k more ≡ none
    → lookup k (insert_all more m) ≡ lookup k m
unfolding lookup
lookup-insert_all k [] m h = refl
lookup-insert_all k ((j, v) ∷ more) m h = elim (Bool-cases (eq_text j k)) [
  | inl e ↦ absurd (some-none (rw e at h))
  | inr e ↦ lookup-insert_all k more (insert j v m) (rw e at h) ∙ lookup-insert j k v m ∙ rw e refl
]

module _ (w : World) (c : CloudTasks) where
  task_of-bounded :
      (o : Options.Options) (encoded : Option Text) (t : Task)
      → bounded w c o encoded ≡ some t
      → (encoded ≡ some t.body) × (length t.body ≤ max_task_bytes) × (t.headers ≡ headers_of w c)
  unfolding bounded task_with
  task_of-bounded o none t h = absurd (none-some h)
  task_of-bounded o (some b) t h = elim (Bool-cases (ltb max_task_bytes (length b))) [
    | inl long ↦ absurd (none-some (rw long at h))
    | inr fits ↦
        let same = some-injective (rw fits at h) in
        (
          ap (λ u. some u.body) same,
          subst (λ u. length u.body ≤ max_task_bytes) same (ground (arith, fits)),
          sym (ap (λ u. u.headers) same),
        )
  ]

  authorization :
      c.token ≢ []
      → lookup (codes "Authorization") w.inject ≡ none
      → lookup (codes "Authorization") (headers_of w c) ≡ some (codes "Bearer " ++ c.token)
  unfolding headers_of lookup insert eq_text
  authorization full free = elim (Bool-cases (is_empty c.token)) [
    | inl e ↦ absurd (full (is_empty-nil c.token e))
    | inr e ↦ lookup-insert_all (codes "Authorization") w.inject _ free ∙ rw e refl
  ]

-- A task that was made of an envelope is accepted by the worker, whose token it bears, and runs this
-- envelope, once. The trace headers do not name Authorization.
pub task_of-dispatches :
    (w : World) (c : CloudTasks) (s : Server) (v : Webhook.World) (e : Envelope)
    (opts : List Options.Option) (t : Task) (r : Request)
    → CodecLaws w.codec
    → v.codec ≡ w.codec
    → c.token ≢ []
    → s.internal_token ≡ c.token
    → s.has_dispatch ≡ true
    → lookup (codes "Authorization") w.inject ≡ none
    → task_of w c e opts ≡ some t
    → Delivers t r
    → (serve s v dispatch r).calls ≡ dispatches e ∷ []
unfolding task_of
task_of-dispatches w c s v e opts t r laws same full token has free made (body, auth) =
    let (encoded, fits, headers) = task_of-bounded w c (apply opts) (encode w.codec e) t made in
    let bears : BearsToken s v r = (
      (λ e. full (sym token ∙ e)),
      auth
          ∙ ap (λ h. or_empty (lookup (codes "Authorization") h)) headers
          ∙ ap or_empty (authorization w c full free)
          ∙ ap (λ k. codes "Bearer " ++ k) (sym token),
    ) in
    let (answered, _) = serve-dispatch s v r has bears in
    ap (λ reply. reply.calls)
      ((((answered t.body body).0 fits).1) e
        (rw same (decode-encode w.codec laws e t.body encoded)))
