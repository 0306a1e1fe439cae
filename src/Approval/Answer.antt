-- ===== src/Approval/Answer.antt =====
-- The user's answer to an approval request (`_handle_approval_response` of
-- src/api/websocket/task_stream_view.py) and what it does to Redis (`resolve` and `cleanup` of
-- src/agent_tools/permission_gate.py). `dumps` is the `json` module's.
use saas_ai_agents_long_term.Prelude.{
  ℕ, String, Bool, true, false, Option, none, some, [], ◌∷◌, ◌==◌, nat_eq,
}
use saas_ai_agents_long_term.Prelude.Dict.{Dict, insert}
use saas_ai_agents_long_term.Prelude.Text.{Text}
use saas_ai_agents_long_term.Effect.{conflict, Result, Exec, guard, lift, modify, ◌>>=◌, ◌>>◌}
use saas_ai_agents_long_term.Json.{Json, object}
use saas_ai_agents_long_term.World.{
  ApprovalStatus, approval_status_eq, pending, approved, denied, user, approval_response, World,
  publish, approval_resolved,
}
use saas_ai_agents_long_term.Task.Service.{db_scope}
use saas_ai_agents_long_term.Approval.{get, resolve, create_message}
use saas_ai_agents_long_term.Approval.Gate.{Decision, write_decision}

pub record ApprovalResponse : Type 0 where
  pub approval_id : ℕ
  pub answer : Decision

-- What the database answers when the rows are flushed and committed, and Redis to the SET and the
-- PUBLISH of the gate and the PUBLISH of the broadcaster: each may raise, and has done nothing then.
pub record Calls : Type 0 where
  pub flush : Result (Unit {0})
  pub set : Result (Unit {0})
  pub wake : Result (Unit {0})
  pub tell : Result (Unit {0})

-- `ENVELOPE.payload or None`
abbrev pub user_response : Dict String Json → Option (Dict String Json)
user_response [] = none
user_response (e ∷ p) = some (e ∷ p)

abbrev pub verdict : Bool → ApprovalStatus
verdict true = approved
verdict false = denied

module _ (dumps : Json → Text) (text_string : Text → String) where
  abbrev pub response_text : Dict String Json → String
  unfolding object
  response_text [] = ""
  response_text (e ∷ p) = text_string (dumps (object (e ∷ p)))

  -- `permission_gate.resolve`, when nothing comes between its SET and its PUBLISH.
  unfoldable pub resolve_gate : Calls → ℕ → Decision → Exec World (Unit {0})
  unfolding write_decision insert
  resolve_gate calls approval_id d = do
    lift calls.set
    modify (λ w. record w { decisions = insert approval_id (write_decision dumps d) w.decisions })
    lift calls.wake
    modify (λ w. record w { wakes = approval_id ∷ w.wakes })

  unfoldable pub decide : Calls → ℕ → ℕ → ApprovalResponse → Exec World (Unit {0})
  decide calls user_id task_id r = do
    row ← get user_id task_id r.approval_id
    guard (row.status == pending) conflict
    resolve r.approval_id (verdict r.answer.approved) (user_response r.answer.payload)
    create_message user_id task_id user approval_response (response_text r.answer.payload) none
        (some r.approval_id)
    lift calls.flush

  -- What comes after the commit.
  unfoldable pub announce_answer : Calls → ℕ → ApprovalResponse → Exec World (Unit {0})
  announce_answer calls task_id r = do
    resolve_gate calls r.approval_id r.answer
    lift calls.tell
    publish task_id (approval_resolved r.approval_id r.answer.approved)

  unfoldable pub handle_approval_response : Calls → ℕ → ℕ → ApprovalResponse → Exec World (Unit {0})
  handle_approval_response calls user_id task_id r = do
    db_scope (decide calls user_id task_id r)
    announce_answer calls task_id r
