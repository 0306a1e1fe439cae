-- ===== src/Approval/Opened.antt =====
-- What the user finds when a request is opened, and what `ask_user` tells the agent in the end.
use saas_ai_agents_long_term.Prelude.{
  ℕ, String, Bool, true, false, some, ◌∷◌, ◌≡◌, ◌≢◌, refl, Bool-cases, inl, inr, ==_refl, subst,
  sym, ◌∙◌, arith, ◌==◌, nat_eq, string_eq, find_first, find_first-holds,
}
use saas_ai_agents_long_term.Prelude.Dict.{Dict}
use saas_ai_agents_long_term.Prelude.Table.{find_first-save_self}
use saas_ai_agents_long_term.Effect.{ok, Exec, pure, cond, ◌>>=◌}
use saas_ai_agents_long_term.Effect.Inversion.{middle, pure-ok, cond-true, cond-false}
use saas_ai_agents_long_term.Json.{Json}
use saas_ai_agents_long_term.World.{
  World, Task, TaskApproval, pending, awaiting_approval, approval_requested, status_changed,
  publish,
}
use saas_ai_agents_long_term.Task.{get, owned_by, update_status, patched, store, no_patch}
use saas_ai_agents_long_term.Approval.{create, new_approval, create_message, asked_of}
use saas_ai_agents_long_term.Approval.Gate.{Decision}
use saas_ai_agents_long_term.Approval.Request.{
  Asker, request, save_request, set_task_status, register, await_decision, tool_answer, ask_user,
  or_skipped, ask_and_wait, question_input, text_field,
}

-- A request is open: its row is pending, the task waits for approval, the wake subscription is open,
-- and the clients were told.
pub record Opened (a : Asker) (tool_name : String) (approval_id : ℕ) (w w' : World) : Type 0 where
  pub row : TaskApproval
  pub found : find_first (asked_of a.user_id a.task_id approval_id) w'.db.approvals ≡ some row
  pub undecided : row.status ≡ pending
  pub names_tool : row.tool_name ≡ tool_name
  pub task : Task
  pub task_found : find_first (owned_by a.user_id a.task_id) w'.db.tasks ≡ some task
  pub waits : task.status ≡ awaiting_approval
  pub subscribed : w'.listening ≡ approval_id ∷ w.listening
  pub announced :
      w'.events
      ≡ (a.task_id, status_changed awaiting_approval)
        ∷ (a.task_id, approval_requested approval_id tool_name)
        ∷ w.events

-- A request for a task that its user still has is opened under a fresh id before the caller waits.
pub request-Opened :
    (a : Asker) (tool_name : String) (tool_input : Dict String Json) (content : String) (w : World)
    (task : Task)
    → find_first (owned_by a.user_id a.task_id) w.db.tasks ≡ some task
    → let r = request a tool_name tool_input content w in
      (r.0 ≡ ok w.db.next_id) × Opened a tool_name w.db.next_id w r.1
unfolding request save_request set_task_status register create create_message get update_status
    store publish ◌>>=◌
request-Opened a tool_name tool_input content w task h = rw h (
  refl,
  record {
    row = new_approval w.db.next_id a.user_id a.task_id tool_name tool_input;
    found = ground arith;
    undecided = refl;
    names_tool = refl;
    task = patched task awaiting_approval no_patch;
    task_found =
        find_first-save_self (λ (t : Task). t.id) (owned_by a.user_id a.task_id) task
          (patched task awaiting_approval no_patch) w.db.tasks h (unfold patched in refl)
          (unfold patched in
            ground (arith, find_first-holds (owned_by a.user_id a.task_id) w.db.tasks task h));
    waits = unfold patched in refl;
    subscribed = refl;
    announced = refl;
  },
)

module _ (wait : ℕ → Exec World Decision) (to_text : Json → String) (strip : String → String) where
  skipped-nonempty : ◌≢◌ {A = String} "USER_SKIPPED" ""
  skipped-nonempty h = cc

  question_error-nonempty : ◌≢◌ {A = String} "ERROR: question is required" ""
  question_error-nonempty h = cc

  or_skipped-nonempty : (s : String) → or_skipped wait to_text strip s ≢ ""
  or_skipped-nonempty s = elim (Bool-cases (s == "")) [
    | inl yes' ↦ rw yes' skipped-nonempty
    | inr no' ↦ rw no' (λ e. ground (arith, ==_refl {A = String} ""))
  ]

  tool_answer-nonempty : (d : Decision) → tool_answer wait to_text strip d ≢ ""
  unfolding tool_answer
  tool_answer-nonempty d = elim (Bool-cases d.approved) [
    | inl yes' ↦ rw yes' (or_skipped-nonempty (text_field to_text strip "text" d.payload))
    | inr no' ↦ rw no' skipped-nonempty
  ]

  -- Whatever the user answers, the agent is told something: its own error, the answer, or that the
  -- user skipped the question.
  pub ask_user-nonempty :
      (a : Asker) (args : Dict String Json) (w w' : World) (answer : String)
      → ask_user wait to_text strip a args w ≡ (ok answer, w')
      → answer ≢ ""
  unfolding ask_user ask_and_wait
  ask_user-nonempty a args w w' answer h =
      by_question (text_field to_text strip "question" args == "") h
    where
      by_question :
          (empty : Bool)
          → cond empty
              (pure "ERROR: question is required")
              (ask_and_wait wait to_text strip a args)
              w
            ≡ (ok answer, w')
          → answer ≢ ""
      by_question true k =
          subst (λ t. t ≢ "")
            (pure-ok {S = World} "ERROR: question is required" answer w w' (
              sym (
                cond-true (pure "ERROR: question is required")
                  (ask_and_wait wait to_text strip a args) w)
              ∙ k)).0
            question_error-nonempty
      by_question false k =
          let opened =
            middle
              (request a "ask_user" (question_input wait to_text strip args)
                (text_field to_text strip "question" args))
              _ w w' answer
              (sym (
                  cond-false (pure "ERROR: question is required")
                    (ask_and_wait wait to_text strip a args) w)
                ∙ k) in
          let decided =
            middle (await_decision wait a opened.value) _ opened.state w' answer opened.second in
          subst (λ t. t ≢ "") (pure-ok _ _ _ _ decided.second).0
            (tool_answer-nonempty decided.value)
