-- ===== src/Main/Tests.antt =====
-- go/cmd/agent/main.go: a deployment on Cloud Tasks, a lint task on its way, and two engines.
use automation_agent.Common.{
  ◌≡◌, ◌⊎◌, refl, true, false, Option, none, some, [], ◌∷◌, codes, eq_text, eq_text_iff, lookup,
  text_eq,
}
use automation_agent.Ingest.{encode, is_valid}
use automation_agent.Config.Settings.{cloudtasks}
use automation_agent.Config.Tests.{outside, deployed, loaded, loaded_lem, loaded-backend}
use automation_agent.Tasks.CloudTasks
use automation_agent.Tasks.CloudTasks.{Task, new_cloud_tasks, created, task_of, bounded}
use automation_agent.Tasks.CloudTasks.Delivery.{or_empty}
use automation_agent.Webhook
use automation_agent.Webhook.{Request, bytes, lint, dispatch, dispatches, serve}
use automation_agent.Webhook.Tests.{small_codec, small_codec-CodecLaws, lint_event}
use automation_agent.Main.{build_transport, server_of, cloud_tasks}
use automation_agent.Main.Deployed.{IsAuthenticated, deployed-IsAuthenticated, deployed-dispatches}

abbrev queue : CloudTasks.CloudTasks
queue =
    new_cloud_tasks loaded.tasks_project loaded.tasks_location loaded.tasks_queue
      loaded.dispatch_url loaded.internal_token loaded.tasks_dispatch_deadline

built : build_transport loaded ≡ cloud_tasks queue
unfolding build_transport
built = rw ((eq_text_iff loaded.tasks_backend cloudtasks).1 loaded-backend) refl

abbrev tasks_world : CloudTasks.World
tasks_world = record {
  codec = small_codec;
  inject = (codes "traceparent", codes "00") ∷ [];
  now = 5;
  create_task = λ path t. created;
}

abbrev IsSome : {A : Type 0} → Option A → Type 0
IsSome none = ⊥
IsSome (some a) = Unit

abbrev the : {A : Type 0} (o : Option A) → IsSome o → A
the none h = absurd h
the (some a) h = a

the_lem : {A : Type 0} (o : Option A) (h : IsSome o) → o ≡ some (the o h)
the_lem none h = absurd h
the_lem (some a) h = refl

fits : IsSome (task_of tasks_world queue lint_event [])
unfolding task_of bounded encode is_valid eq_text
fits = tt

abbrev lint_task : Task
lint_task = the (task_of tasks_world queue lint_event []) fits

abbrev delivery : Request
delivery = record {
  signature = [];
  authorization = or_empty (lookup (codes "Authorization") lint_task.headers);
  event = [];
  body = bytes lint_task.body;
}

abbrev world : Webhook.World
world = record {
  hmac_hex = λ key body. body;
  codec = small_codec;
  now = 5;
  ingest = λ e. true;
  dispatch = λ e. false;
  sweep = true;
}

deployed-IsAuthenticated_example :
    ((serve (server_of loaded) world lint delivery).calls ≡ [])
    ⊎ IsAuthenticated outside loaded world lint delivery
deployed-IsAuthenticated_example =
    deployed-IsAuthenticated outside deployed loaded world lint delivery loaded_lem loaded-backend

free : lookup (codes "Authorization") tasks_world.inject ≡ none
unfolding lookup eq_text
free = refl

deployed-dispatches_example :
    (serve (server_of loaded) world dispatch delivery).calls ≡ dispatches lint_event ∷ []
deployed-dispatches_example =
    deployed-dispatches outside deployed loaded tasks_world world queue lint_event [] lint_task
      delivery loaded_lem loaded-backend built small_codec-CodecLaws refl free
      (the_lem (task_of tasks_world queue lint_event []) fits) (refl, refl)
