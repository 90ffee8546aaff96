-- ===== src/Tasks/CloudTasks.antt =====
-- go/internal/tasks/cloudtasks.go: an envelope becomes a task of the queue. The client, the trace
-- headers, the clock and the envelope's codec are the fields of a world; times are in nanoseconds.
pub mod Delivery
use automation_agent.Common.{
  ℕ, ◌+◌, Bool, true, false, Option, none, some, List, [], ◌∷◌, ◌++◌, ltb, if◌then◌else◌, Text,
  codes, is_empty, length, ℤ, pos, negsuc, Map, insert, text_eq,
}
use automation_agent.Ingest.{Envelope, Codec, encode, max_encoded_bytes}
use automation_agent.Tasks.Options
use automation_agent.Tasks.Options.{Options, apply}

abbrev pub max_task_bytes : ℕ
max_task_bytes = max_encoded_bytes

pub record CloudTasks : Type 0 where
  pub queue_path : Text
  pub dispatch_url : Text
  pub token : Text
  pub deadline : ℤ

unfoldable pub new_cloud_tasks : Text → Text → Text → Text → Text → ℤ → CloudTasks
new_cloud_tasks project location queue url token deadline = record {
  queue_path =
      codes "projects/" ++ project ++ codes "/locations/" ++ location ++ codes "/queues/" ++ queue;
  dispatch_url = url;
  token = token;
  deadline = deadline;
}

-- The name is empty where the queue picks one; the queue's deadline is its own without one.
pub record Task : Type 0 where
  pub url : Text
  pub headers : Map Text Text
  pub body : Text
  pub dispatch_deadline : Option ℕ
  pub name : Text
  pub schedule_time : Option ℕ

pub data Created : Type 0 where
  created already_exists failed : Created

pub record World : Type 0 where
  pub codec : Codec
  pub inject : Map Text Text
  pub now : ℕ
  pub create_task : Text → Task → Created

abbrev pub positive_part : ℤ → Option ℕ
positive_part (pos n) = if ltb 0 n then some n else none
positive_part (negsuc n) = none

abbrev later : ℕ → Option ℕ → Option ℕ
later now none = none
later now (some d) = some (now + d)

abbrev pub insert_all : Map Text Text → Map Text Text → Map Text Text
insert_all [] m = m
insert_all ((k, v) ∷ more) m = insert_all more (insert k v m)

module _ (w : World) (c : CloudTasks) where
  unfoldable pub headers_of : Map Text Text
  headers_of =
      let json : Map Text Text = (codes "Content-Type", codes "application/json") ∷ [] in
      insert_all w.inject (
        if is_empty c.token
        then json
        else insert (codes "Authorization") (codes "Bearer " ++ c.token) json)

  unfoldable pub task_with : Options → Text → Task
  unfolding headers_of
  task_with o body = record {
    url = c.dispatch_url;
    headers = headers_of;
    body = body;
    dispatch_deadline = positive_part c.deadline;
    name = if is_empty o.name then [] else c.queue_path ++ codes "/tasks/" ++ o.name;
    schedule_time = later w.now (positive_part o.delay);
  }

  unfoldable pub bounded : Options → Option Text → Option Task
  unfolding task_with
  bounded o none = none
  bounded o (some body) = if ltb max_task_bytes (length body) then none else some (task_with o body)

  -- The task of an envelope, `none` where it cannot be encoded or is too long.
  unfoldable pub task_of : Envelope → List Options.Option → Option Task
  unfolding bounded
  task_of e opts = bounded (apply opts) (encode w.codec e)

  accepted : Created → Bool
  accepted created = true
  accepted already_exists = true
  accepted failed = false

  submit : Option Task → Bool × List Task
  unfolding accepted
  submit none = (false, [])
  submit (some t) = (accepted (w.create_task c.queue_path t), t ∷ [])

  -- Whether the call succeeds, and the tasks that it asks the queue for.
  pub enqueue : Envelope → List Options.Option → Bool × List Task
  unfolding submit task_of
  enqueue e opts = submit (task_of e opts)
