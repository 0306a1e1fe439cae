-- ===== src/World.antt =====
-- The state that the parts share: the database rows (src/db/models/task.py, task_approval.py,
-- task_message.py), what has been published to the subscribers of a task (src/utils/broadcaster.py,
-- src/config/constants.py), and the background work that was spawned. Ids are numbers, a fresh one
-- for each new row; time stamps are numbers that grow with it.
use saas_ai_agents_long_term.Prelude.{ℕ, String, Bool, Option, List, ◌∷◌, Eq}
use saas_ai_agents_long_term.Prelude.Dict.{Dict}
use saas_ai_agents_long_term.Prelude.Text.{Text}
use saas_ai_agents_long_term.Effect.{Exec, ok}
use saas_ai_agents_long_term.Json.{Json}

pub data TaskStatus : Type 0 where
  running awaiting_approval awaiting_user_message publishing awaiting_ci fixing : TaskStatus
  completed needs_human failed : TaskStatus

TaskStatus-discrete : Discrete TaskStatus
TaskStatus-discrete = hlevel

instance unfoldable pub status_eq : Eq TaskStatus
unfolding TaskStatus-discrete
status_eq = record { dec = TaskStatus-discrete }

pub record Task : Type 0 where
  pub id : ℕ
  pub user_id : ℕ
  pub project_id : ℕ
  pub agent_id : ℕ
  pub description : String
  pub status : TaskStatus
  pub attempt : ℕ
  pub state : Dict String Json
  pub pr_urls : Dict String String
  pub error_message : Option String
  pub sdk_session_id : Option ℕ
  pub created_at : ℕ

pub record ProjectRepo : Type 0 where
  pub url : String
  pub default_branch : String

pub record Project : Type 0 where
  pub id : ℕ
  pub user_id : ℕ
  pub repos : List ProjectRepo

pub data ApprovalStatus : Type 0 where
  pending approved denied : ApprovalStatus

ApprovalStatus-discrete : Discrete ApprovalStatus
ApprovalStatus-discrete = hlevel

instance unfoldable pub approval_status_eq : Eq ApprovalStatus
unfolding ApprovalStatus-discrete
approval_status_eq = record { dec = ApprovalStatus-discrete }

pub record TaskApproval : Type 0 where
  pub id : ℕ
  pub user_id : ℕ
  pub task_id : ℕ
  pub tool_name : String
  pub tool_input : Dict String Json
  pub status : ApprovalStatus
  pub user_response : Option (Dict String Json)
  pub created_at : ℕ

pub data MessageRole : Type 0 where
  user agent system : MessageRole

pub data MessageKind : Type 0 where
  chat approval_request approval_response status_kind error_kind : MessageKind

-- `approval_id` is the one entry of `meta` that other code reads.
pub record TaskMessage : Type 0 where
  pub user_id : ℕ
  pub task_id : ℕ
  pub role : MessageRole
  pub kind : MessageKind
  pub content : String
  pub author : Option String
  pub approval_id : Option ℕ
  pub created_at : ℕ

pub data SessionEndReason : Type 0 where
  user_closed idle_timeout hard_timeout error : SessionEndReason

-- The envelopes on a task's channel; `closed` is the marker that ends a subscriber's stream.
pub data Event : Type 0 where
  status_changed : TaskStatus → Event
  pipeline_failed : String → Event
  approval_requested : ℕ → String → Event
  approval_resolved : ℕ → Bool → Event
  agent_message user_message : String → Event
  agent_thinking turn_finished : ℕ → Event
  session_timed_out session_closed : SessionEndReason → Event
  publish_started : ℕ → Event
  publish_finished : String → Option String → Option String → ℕ → Event
  publish_failed : Option String → String → Event
  closed : Event

-- The arguments of `_run_devops_fix`.
pub record FixJob : Type 0 where
  pub task_id : ℕ
  pub user_id : ℕ
  pub task_state : Dict String Json
  pub attempt : ℕ
  pub ci_run_id : ℕ
  pub ci_repo_full_name : String

pub data Job : Type 0 where
  fix : FixJob → Job
  pipeline : ℕ → ℕ → Dict String Json → Job

pub record Db : Type 0 where
  pub tasks : List Task
  pub projects : List Project
  pub approvals : List TaskApproval
  pub messages : List TaskMessage
  pub next_id : ℕ

-- `events`, `jobs` and the tables have the newest entry first. `decisions`, `wakes` and `listening`
-- are what Redis holds for the permission gate: the keys `clyde:approval:{id}`, the wake messages
-- that were published, and the open subscriptions.
pub record World : Type 0 where
  pub db : Db
  pub events : List (ℕ × Event)
  pub jobs : List Job
  pub active_sessions : List ℕ
  pub decisions : Dict ℕ Text
  pub wakes : List ℕ
  pub listening : List ℕ

abbrev pub with_db : Db → World → World
with_db d w = record w { db = d }

-- `broadcaster.publish` and `broadcaster.close_task`
unfoldable pub publish : ℕ → Event → Exec World (Unit {0})
publish task_id e w = (ok tt, record w { events = (task_id, e) ∷ w.events })

unfoldable pub close_task : ℕ → Exec World (Unit {0})
unfolding publish
close_task task_id = publish task_id closed

-- `asyncio.create_task`
unfoldable pub spawn : Job → Exec World (Unit {0})
spawn j w = (ok tt, record w { jobs = j ∷ w.jobs })
