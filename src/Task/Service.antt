-- ===== src/Task/Service.antt =====
-- The task service (src/services/task_service.py). `uuid_text` is `str` of an id and `error_text`
-- is `str` of an exception; the orchestrator agent is an argument, an action that may raise.
use saas_ai_agents_long_term.Prelude.{
  ℕ, String, Bool, true, false, ◌&&◌, some, List, [], ◌∷◌, map, ◌==◌, nat_eq, find_first,
}
use saas_ai_agents_long_term.Prelude.Dict.{Dict}
use saas_ai_agents_long_term.Prelude.Text.{prefix_of, last_part, remove_suffix}
use saas_ai_agents_long_term.Effect.{
  Error, conflict, Exec, pure, guard, catch, transaction, ◌>>=◌, ◌>>◌,
}
use saas_ai_agents_long_term.Json.{Json, str, num, arr, nil, item, Items, object}
use saas_ai_agents_long_term.World.{
  TaskStatus, running, needs_human, failed, Task, Project, ProjectRepo, World, with_db, pipeline,
  pipeline_failed, publish, close_task, spawn,
}
use saas_ai_agents_long_term.Task.{get, create, update_status, no_patch, Patch, or_not_found}

-- `ProjectRepository.get`
unfoldable pub get_project : ℕ → ℕ → Exec World Project
get_project user_id project_id w = (
  or_not_found
      (find_first (λ (p : Project). p.id == project_id && p.user_id == user_id) w.db.projects),
  w,
)

unfoldable pub repo_name : String → String
unfolding last_part remove_suffix
repo_name url = remove_suffix ".git" (last_part b'/' url url)

unfoldable pub repo_entry : ProjectRepo → Json
unfolding repo_name object
repo_entry r = object (
    ("name", str (repo_name r.url))
    ∷ ("url", str r.url)
    ∷ ("default_branch", str r.default_branch)
    ∷ [])

abbrev items : List Json → Items
items [] = nil
items (j ∷ js) = item j (items js)

-- A task can be restarted only from these.
abbrev pub retryable : TaskStatus → Bool
retryable failed = true
retryable needs_human = true
retryable _ = false

abbrev pub db_scope {ℓ} : {A : Type ℓ} → Exec World A → Exec World A
db_scope = transaction (λ (w : World). w.db) with_db

-- Write the final status in a transaction of its own; if that raises, it is only logged.
unfoldable pub record_failure : ℕ → ℕ → Patch → Exec World (Unit {0})
record_failure user_id task_id p =
    catch (db_scope (do task ← get user_id task_id; update_status task failed p; pure tt))
      (λ e. pure tt)

module _ (uuid_text : ℕ → String) where
  unfoldable pub build_initial_state : Task → ℕ → Project → Dict String Json
  unfolding repo_entry
  build_initial_state task user_id project =
      ("task_id", str (uuid_text task.id))
      ∷ ("user_id", num user_id)
      ∷ ("agent_id", str (uuid_text task.agent_id))
      ∷ ("project_id", str (uuid_text task.project_id))
      ∷ ("description", str task.description)
      ∷ ("repos", arr (items (map repo_entry project.repos)))
      ∷ ("attempt", num 0)
      ∷ ("events", arr nil)
      ∷ []

  unfoldable pub start_pipeline : ℕ → Task → Exec World Task
  start_pipeline user_id task = do
    project ← get_project user_id task.project_id
    spawn (pipeline task.id user_id (build_initial_state task user_id project))
    pure task

  -- `TaskService.create`: the project is read first, so that a missing one creates nothing.
  unfoldable pub create_task : ℕ → ℕ → String → ℕ → Exec World Task
  create_task user_id project_id description agent_id = do
    project ← get_project user_id project_id
    task ← create user_id project_id agent_id description running
    spawn (pipeline task.id user_id (build_initial_state task user_id project))
    pure task

  unfoldable pub retry : ℕ → ℕ → Exec World Task
  retry user_id task_id = do
    task ← get user_id task_id
    guard (retryable task.status) conflict
    update_status task running no_patch
    fresh ← get user_id task_id
    start_pipeline user_id fresh

module _ (error_text : Error → String) where
  unfoldable pub run_pipeline :
      (Dict String Json → Exec World (Dict String Json))
      → ℕ
      → ℕ
      → Dict String Json
      → Exec World (Unit {0})
  run_pipeline orchestrator task_id user_id initial_state =
      catch (do orchestrator initial_state; pure tt)
        (λ e. do
          let text = prefix_of 2000 (error_text e)
          publish task_id (pipeline_failed text)
          close_task task_id
          record_failure user_id task_id (record no_patch { error_message = some text }))
