-- ===== src/Approval/Request.antt =====
-- The two callers that ask the user and block: `AskUserTool.run`
-- (src/agent_tools/custom_tools/chat/tools.py) and the PreToolUse hook (src/agents/sdk_agent.py).
-- While they wait other coroutines run: `wait` is whatever those do, with the decision it ends in
-- (Approval/Gate.antt has the wait itself). `fnmatch`, `str.strip` and `str` are arguments.
use saas_ai_agents_long_term.Prelude.{
  ℕ, String, Option, none, some, [], ◌∷◌, if◌then◌else◌, ◌==◌, nat_eq, string_eq,
}
use saas_ai_agents_long_term.Prelude.Dict.{Dict, lookup, erase}
use saas_ai_agents_long_term.Effect.{Exec, pure, cond, modify, ◌>>=◌, ◌>>◌}
use saas_ai_agents_long_term.Json.{Json, str, truthy}
use saas_ai_agents_long_term.World.{
  TaskStatus, running, awaiting_approval, agent, approval_request, World, publish,
  approval_requested, status_changed,
}
use saas_ai_agents_long_term.Task.{get, update_status, no_patch}
use saas_ai_agents_long_term.Task.Service.{db_scope}
use saas_ai_agents_long_term.Approval.{create, create_message}
use saas_ai_agents_long_term.Approval.Gate.{Decision}

pub record Asker : Type 0 where
  pub task_id : ℕ
  pub user_id : ℕ
  pub agent_name : String

-- `permission_gate.register` and `cleanup`
unfoldable pub register : ℕ → World → World
register approval_id w = record w { listening = approval_id ∷ w.listening }

unfoldable pub cleanup : ℕ → World → World
unfolding erase
cleanup approval_id w = record w { decisions = erase approval_id w.decisions }

unfoldable pub set_task_status : Asker → TaskStatus → Exec World (Unit {0})
set_task_status a status =
    db_scope (do task ← get a.user_id a.task_id; update_status task status no_patch; pure tt)

-- The row and its chat message, in one transaction.
unfoldable pub save_request : Asker → String → Dict String Json → String → Exec World ℕ
save_request a tool_name tool_input content = db_scope (do
  row ← create a.user_id a.task_id tool_name tool_input
  create_message a.user_id a.task_id agent approval_request content (some a.agent_name)
      (some row.id)
  pure row.id)

-- Up to the wait.
unfoldable pub request : Asker → String → Dict String Json → String → Exec World ℕ
request a tool_name tool_input content = do
  approval_id ← save_request a tool_name tool_input content
  set_task_status a awaiting_approval
  modify (register approval_id)
  publish a.task_id (approval_requested approval_id tool_name)
  publish a.task_id (status_changed awaiting_approval)
  pure approval_id

-- From the wait on.
unfoldable pub await_decision : (ℕ → Exec World Decision) → Asker → ℕ → Exec World Decision
await_decision wait a approval_id = do
  d ← wait approval_id
  modify (cleanup approval_id)
  set_task_status a running
  publish a.task_id (status_changed running)
  pure d

abbrev or_empty : (Json → String) → Option Json → String
or_empty to_text none = ""
or_empty to_text (some j) = if truthy j then to_text j else ""

-- `str(d.get(key) or "").strip()`
unfoldable pub text_field : (Json → String) → (String → String) → String → Dict String Json → String
text_field to_text strip key d = strip (or_empty to_text (lookup key d))

module _ (wait : ℕ → Exec World Decision) (to_text : Json → String) (strip : String → String) where
  abbrev pub or_skipped : String → String
  or_skipped answer = if answer == "" then "USER_SKIPPED" else answer

  unfoldable pub tool_answer : Decision → String
  unfolding text_field
  tool_answer d =
      if d.approved then or_skipped (text_field to_text strip "text" d.payload) else "USER_SKIPPED"

  abbrev pub question_input : Dict String Json → Dict String Json
  unfolding text_field
  question_input args =
      ("question", str (text_field to_text strip "question" args))
      ∷ ("context", str (text_field to_text strip "context" args))
      ∷ []

  unfoldable pub ask_and_wait : Asker → Dict String Json → Exec World String
  ask_and_wait a args = do
    approval_id ←
        request a "ask_user" (question_input args) (text_field to_text strip "question" args)
    d ← await_decision wait a approval_id
    pure (tool_answer d)

  -- `AskUserTool.run`, whose result is the text of its one content block.
  unfoldable pub ask_user : Asker → Dict String Json → Exec World String
  ask_user a args =
      cond (text_field to_text strip "question" args == "") (pure "ERROR: question is required")
        (ask_and_wait a args)
