-- ===== src/Webhook.antt =====
-- The webhook service (src/services/webhook_service.py): signature, routing, the reaction to a
-- finished CI run, and the background fix. HMAC, `str` of ids and exceptions, and the two agents
-- are arguments.
pub mod Branch
pub mod Form
pub mod Attempts
pub mod Outcome
pub mod Reaction
pub mod Signature
pub mod System
mod Tests
use saas_ai_agents_long_term.Prelude.{
  ℕ, ◌+◌, String, Bool, true, false, not, ◌&&◌, ltb, Option, none, some, [], ◌∷◌, leb,
  if◌then◌else◌, ◌==◌, nat_eq, string_eq, contains,
}
use saas_ai_agents_long_term.Prelude.Dict.{Dict, lookup, merge}
use saas_ai_agents_long_term.Prelude.Text.{Text, codes, prefix_of, strip_prefix, same_text}
use saas_ai_agents_long_term.Effect.{
  Error, authentication, webhook_retry_later, foreign, value_error, Result, ok, err, Exec, pure,
  raise, lift, gets, guard, cond, catch, ◌>>=◌, ◌>>◌,
}
use saas_ai_agents_long_term.Json.{Json, str, num, obj, entries, truthy}
use saas_ai_agents_long_term.World.{
  TaskStatus, running, awaiting_ci, fixing, completed, needs_human, failed, Task, World, FixJob,
  fix, status_changed, pipeline_failed, publish, close_task, spawn,
}
use saas_ai_agents_long_term.Task.{get, update_status, no_patch, Patch}
use saas_ai_agents_long_term.Task.Service.{db_scope, record_failure}
use Branch.{find_task_for_branch}

pub data Conclusion : Type 0 where
  success failure other : Conclusion

pub record WorkflowRun : Type 0 where
  pub action : String
  pub run_id : ℕ
  pub head_branch : Text
  pub conclusion : Conclusion
  pub repo_full_name : String

pub record Settings : Type 0 where
  pub webhook_secret : Text
  pub max_fix_attempts : ℕ

abbrev announce : Task → TaskStatus → Exec World (Unit {0})
announce task status = publish task.id (status_changed status)

-- Set the final status, announce it and end the stream.
abbrev finish : Task → TaskStatus → Exec World (Unit {0})
finish task status = do update_status task status no_patch; announce task status; close_task task.id

abbrev session_active : Task → World → Bool
session_active task w = contains w.active_sessions task.id

abbrev fix_job : WorkflowRun → Task → FixJob
fix_job run task = record {
  task_id = task.id;
  user_id = task.user_id;
  task_state = task.state;
  attempt = task.attempt;
  ci_run_id = run.run_id;
  ci_repo_full_name = run.repo_full_name;
}

-- `str.isascii`
abbrev pub is_ascii : Text → Bool
is_ascii [] = true
is_ascii (c ∷ t) = ltb c 128 && is_ascii t

abbrev pub type_error : Error
type_error = foreign "comparing strings with non-ASCII characters is not supported"

module _ (settings : Settings) where
  unfoldable pub on_failure : WorkflowRun → Task → Exec World (Unit {0})
  on_failure run task = do
    active ← gets (session_active task)
    cond active (do announce task fixing; update_status task fixing no_patch; pure tt)
        (cond (leb settings.max_fix_attempts task.attempt) (finish task needs_human) (do
          update_status task fixing no_patch
          announce task fixing
          spawn (fix (fix_job run task))))

  unfoldable pub on_conclusion : Conclusion → WorkflowRun → Task → Exec World (Unit {0})
  on_conclusion success run task = finish task completed
  on_conclusion failure run task = on_failure run task
  on_conclusion other run task = pure tt

  -- The guards on the status come before the conclusion is looked at.
  unfoldable pub on_status : TaskStatus → WorkflowRun → Task → Exec World (Unit {0})
  on_status running run task = raise webhook_retry_later
  on_status completed run task = pure tt
  on_status needs_human run task = pure tt
  on_status failed run task = pure tt
  on_status fixing run task = pure tt
  on_status _ run task = on_conclusion run.conclusion run task

  abbrev pub on_task : WorkflowRun → Option Task → Exec World (Unit {0})
  on_task run none = pure tt
  on_task run (some task) = on_status task.status run task

  module _ (uuid_text : ℕ → Text) where
    unfoldable pub handle_workflow_run : WorkflowRun → Exec World (Unit {0})
    handle_workflow_run run =
        cond (run.action == "completed")
          (do
            tasks ← gets (λ w. w.db.tasks)
            on_task run (find_task_for_branch uuid_text tasks run.head_branch))
          (pure tt)

  abbrev without_label : Text → Option Text → Text
  without_label signature none = signature
  without_label signature (some digest) = digest

  -- `hmac.compare_digest` of an ASCII text and any other: it raises where that is not ASCII.
  abbrev pub compare_digest : Text → Text → Result Bool
  compare_digest expected received =
      if is_ascii received then ok (same_text expected received) else err type_error

  -- `hmac_hex secret payload` is the hexadecimal HMAC-SHA256.
  unfoldable pub verify_signature : (Text → Text → Text) → Text → Text → Result Bool
  unfolding strip_prefix same_text
  verify_signature hmac_hex payload signature =
      if same_text settings.webhook_secret []
      then ok false
      else compare_digest (hmac_hex settings.webhook_secret payload)
          (without_label signature (strip_prefix (codes "sha256=") signature))

  unfoldable pub process_github_event :
      (ℕ → Text)
      → (Text → Text → Text)
      → (Text → Result WorkflowRun)
      → Text
      → Text
      → String
      → Exec World (Unit {0})
  process_github_event uuid_text hmac_hex parse_run raw_body signature event_type = do
    guard (not (same_text signature [])) authentication
    verified ← lift (verify_signature hmac_hex raw_body signature)
    guard verified authentication
    cond (event_type == "workflow_run")
        (do run ← lift (parse_run raw_body); handle_workflow_run uuid_text run) (pure tt)

-- The column holds texts: an entry with another value, which no agent writes, is not kept.
abbrev pub url_entries : Dict String Json → Dict String String
url_entries [] = []
url_entries ((k, str u) ∷ d) = (k, u) ∷ url_entries d
url_entries ((k, _) ∷ d) = url_entries d

-- `state.get("pr_urls") or {}`; a value that is no dictionary cannot be merged into the column.
abbrev pub urls_of : Option Json → Result (Dict String Json)
urls_of none = ok []
urls_of (some (obj fs)) = ok (entries fs)
urls_of (some j) = if truthy j then err value_error else ok []

abbrev pub fix_outcome : Dict String Json → TaskStatus
fix_outcome [] = needs_human
fix_outcome (_ ∷ _) = awaiting_ci

abbrev pub fix_error : Dict String Json → Option String
fix_error [] = some "Automated fix produced no changes. CI logs require manual review."
fix_error (_ ∷ _) = none

abbrev pub fix_patch : FixJob → Dict String Json → Patch
fix_patch job urls = record {
  attempt = some (job.attempt + 1);
  error_message = fix_error urls;
  state_patch = [];
  pr_urls_patch = url_entries urls;
}

-- The end of `_run_devops_fix`: store and announce what the agents came to.
unfoldable pub record_fix : FixJob → Dict String Json → Exec World (Unit {0})
record_fix job urls = do
  fresh ← get job.user_id job.task_id
  update_status fresh (fix_outcome urls) (fix_patch job urls)
  pure tt

unfoldable pub finish_fix : FixJob → Dict String Json → Exec World (Unit {0})
finish_fix job urls = do
  db_scope (record_fix job urls)
  publish job.task_id (status_changed (fix_outcome urls))
  close_task job.task_id

-- The `except` block of `_run_devops_fix`.
unfoldable pub report_fix_failure : (Error → String) → FixJob → Error → Exec World (Unit {0})
report_fix_failure error_text job e = do
  let text = prefix_of 2000 (error_text e)
  publish job.task_id (pipeline_failed text)
  close_task job.task_id
  record_failure job.user_id job.task_id
      (record no_patch { attempt = some (job.attempt + 1); error_message = some text })

-- `_run_devops_fix`. An agent takes the pipeline state and returns its updates.
module _ (uuid_text : ℕ → String) (error_text : Error → String)
    (ci_failure_prompt : ℕ → String → ℕ → String → String)
    (orchestrator publisher : Dict String Json → Exec World (Dict String Json)) where
  unfoldable pub fix_state : FixJob → Task → Dict String Json
  unfolding merge
  fix_state job task = merge job.task_state (
      ("task_id", str (uuid_text job.task_id))
      ∷ ("user_id", num job.user_id)
      ∷ ("agent_id", str (uuid_text task.agent_id))
      ∷ ("attempt", num (job.attempt + 1))
      ∷ (
        "description",
        str (
            ci_failure_prompt job.ci_run_id job.ci_repo_full_name (job.attempt + 1)
              task.description),
      )
      ∷ [])

  unfoldable pub attempt_fix : FixJob → Exec World (Unit {0})
  attempt_fix job = do
    task ← db_scope (get job.user_id job.task_id)
    let state = fix_state job task
    planned ← orchestrator state
    let planned_state = merge state planned
    published ← publisher planned_state
    urls ← lift (urls_of (lookup "pr_urls" (merge planned_state published)))
    finish_fix job urls

  unfoldable pub run_devops_fix : FixJob → Exec World (Unit {0})
  run_devops_fix job = catch (attempt_fix job) (report_fix_failure error_text job)
