-- ===== src/Approval.antt =====
-- The approval and message tables (src/db/queries/task_approval_query.py, task_message_query.py).
pub mod Gate
pub mod Answer
pub mod Request
pub mod Hook
mod Tests
pub mod Opened
pub mod Decided
pub mod Permission
use saas_ai_agents_long_term.Prelude.{
  ℕ, suc, String, Bool, true, ◌&&◌, Option, none, some, List, ◌∷◌, ◌==◌, nat_eq, find_first, keep,
  reverse, take, ltb,
}
use saas_ai_agents_long_term.Prelude.Dict.{Dict}
use saas_ai_agents_long_term.Prelude.Table.{save, newest_first}
use saas_ai_agents_long_term.Effect.{ok, Exec, lift, gets, modify, ◌>>=◌, pure, ◌>>◌}
use saas_ai_agents_long_term.Json.{Json}
use saas_ai_agents_long_term.World.{
  ApprovalStatus, pending, TaskApproval, TaskMessage, MessageRole, MessageKind, World, with_db,
}
use saas_ai_agents_long_term.Task.{or_not_found}

abbrev pub new_approval : ℕ → ℕ → ℕ → String → Dict String Json → TaskApproval
new_approval id user_id task_id tool_name tool_input = record {
  id = id;
  user_id = user_id;
  task_id = task_id;
  tool_name = tool_name;
  tool_input = tool_input;
  status = pending;
  user_response = none;
  created_at = id;
}

unfoldable pub create : ℕ → ℕ → String → Dict String Json → Exec World TaskApproval
create user_id task_id tool_name tool_input w =
    let row = new_approval w.db.next_id user_id task_id tool_name tool_input in
    (
      ok row,
      with_db (record w.db { approvals = row ∷ w.db.approvals; next_id = suc w.db.next_id }) w,
    )

abbrev pub asked_of : ℕ → ℕ → ℕ → TaskApproval → Bool
asked_of user_id task_id approval_id a =
    a.id == approval_id && a.task_id == task_id && a.user_id == user_id

unfoldable pub get : ℕ → ℕ → ℕ → Exec World TaskApproval
get user_id task_id approval_id w =
    (or_not_found (find_first (asked_of user_id task_id approval_id) w.db.approvals), w)

unfoldable pub list_for_task : ℕ → ℕ → Exec World (List TaskApproval)
list_for_task user_id task_id w = (
  ok (
      reverse (
        newest_first (λ a. a.created_at)
          (keep (λ a. a.task_id == task_id && a.user_id == user_id) w.db.approvals))),
  w,
)

abbrev pub response_or :
    Option (Dict String Json) → Option (Dict String Json) → Option (Dict String Json)
response_or none old = old
response_or (some r) old = some r

abbrev pub decided : ApprovalStatus → Option (Dict String Json) → TaskApproval → TaskApproval
decided status user_response a = record a {
  status = status;
  user_response = response_or user_response a.user_response;
}

unfoldable pub save_approval : TaskApproval → World → World
unfolding save
save_approval a w =
    with_db (record w.db { approvals = save (λ (a : TaskApproval). a.id) a w.db.approvals }) w

unfoldable pub resolve : ℕ → ApprovalStatus → Option (Dict String Json) → Exec World TaskApproval
resolve approval_id status user_response = do
  rows ← gets (λ (w : World). w.db.approvals)
  row ← lift (or_not_found (find_first (λ (a : TaskApproval). a.id == approval_id) rows))
  modify (save_approval (decided status user_response row))
  pure (decided status user_response row)

-- `TaskMessageRepository`
unfoldable pub create_message :
    ℕ → ℕ → MessageRole → MessageKind → String → Option String → Option ℕ → Exec World TaskMessage
create_message user_id task_id role kind content author approval_id w =
    (ok row, with_db (record w.db { messages = row ∷ w.db.messages; next_id = suc w.db.next_id }) w)
  where
    row : TaskMessage
    row = record {
      user_id = user_id;
      task_id = task_id;
      role = role;
      kind = kind;
      content = content;
      author = author;
      approval_id = approval_id;
      created_at = w.db.next_id;
    }

abbrev before_cursor : Option ℕ → TaskMessage → Bool
before_cursor none m = true
before_cursor (some cursor) m = ltb m.created_at cursor

-- The newest messages before the cursor, oldest first.
unfoldable pub list_messages : ℕ → ℕ → ℕ → Option ℕ → Exec World (List TaskMessage)
list_messages user_id task_id limit before w = (
  ok (
      reverse (
        take limit (
          newest_first (λ m. m.created_at)
            (keep (λ m. m.task_id == task_id && m.user_id == user_id && before_cursor before m)
              w.db.messages)))),
  w,
)
