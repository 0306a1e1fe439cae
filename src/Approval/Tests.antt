-- ===== src/Approval/Tests.antt =====
-- Tests of the permission gate, the answers, and the hook.
use saas_ai_agents_long_term.Prelude.{
  ℕ, String, Bool, true, some, [], ◌∷◌, ◌≡◌, ◌≢◌, refl, ◌⊎◌, arith, string_eq, find_first, All,
  nat_eq,
}
use saas_ai_agents_long_term.Prelude.Dict.{Dict, lookup, erase}
use saas_ai_agents_long_term.Prelude.Text.{Text, codes, strip_prefix}
use saas_ai_agents_long_term.Effect.{ok, err, conflict, runtime, Exec, pure, ◌>>=◌}
use saas_ai_agents_long_term.Json.{Json, str}
use saas_ai_agents_long_term.World.{
  World, running, awaiting_approval, approval_status_eq, approval_resolved, publish,
}
use saas_ai_agents_long_term.Task.{get as get_task, update_status, store, patched}
use saas_ai_agents_long_term.Prelude.Table.{save}
use saas_ai_agents_long_term.Approval.{
  get, asked_of, decided, create, create_message, resolve, save_approval,
}
use saas_ai_agents_long_term.Approval.Gate.{
  Gate, no_gate, advance, register as register_gate, wait_for_decision, check, scheduled,
  resolve_set, resolve_publish, Reachable, initially, and_then, waiter, answer_set, answer_publish,
  Decision, write_decision, parse_decision, returned, raised,
}
use saas_ai_agents_long_term.Approval.Gate.Wake.{
  Stored, Answered, no_lost_wake_up, Reachable-never_raises, Reachable-returned,
}
use saas_ai_agents_long_term.Approval.Answer.{
  Calls, decide, ApprovalResponse, handle_approval_response, verdict, user_response,
}
use saas_ai_agents_long_term.Approval.Decided.{
  decided_once, pending_answer, refused_answer, KeyedBy, all_succeed, CommittedOnly,
}
use saas_ai_agents_long_term.Approval.Request.{
  text_field, Asker, request, ask_user, save_request, set_task_status, await_decision, register,
  cleanup,
}
use saas_ai_agents_long_term.Approval.Opened.{Opened, request-Opened}
use saas_ai_agents_long_term.Approval.Gate.Encoding.{decision_json, parse_decision-write_decision}
use saas_ai_agents_long_term.Approval.Hook.{
  Permission, hook, bash_approved, tool_approved, inner_glob, allow, auto_approved, ask_user_of,
  ask_permission, permission_of,
}
use saas_ai_agents_long_term.Approval.Permission.{
  BashMatch, bash-auto_approved, Approved, hook-allow,
}
use saas_ai_agents_long_term.Samples.{a_world, a_task, an_approval}

-- An answer that is stored before the waiter registers, and published while it waits.
abbrev a_raw : Text
a_raw = codes "yes"

abbrev set_first : Gate
set_first = resolve_set a_raw no_gate

abbrev early : Gate
early = resolve_publish 0 set_first

early_reachable : Reachable early
unfolding resolve_set
early_reachable =
    and_then set_first early (and_then no_gate set_first initially (answer_set a_raw no_gate))
      (answer_publish 0 set_first refl)

no_lost_wake_up_example : Answered early (advance (advance (advance early)))
unfolding resolve_set resolve_publish
no_lost_wake_up_example = no_lost_wake_up early early_reachable refl (omega arith)

never_raises_example : early.phase ≢ raised runtime
never_raises_example = Reachable-never_raises early runtime early_reachable

abbrev answered_gate : Gate
answered_gate = advance (advance (advance early))

answered_reachable : Reachable answered_gate
answered_reachable =
    and_then _ answered_gate
      (and_then _ (advance (advance early))
        (and_then early (advance early) early_reachable (waiter early)) (waiter (advance early)))
      (waiter (advance (advance early)))

answered_returned : answered_gate.phase ≡ returned a_raw
unfolding resolve_set resolve_publish scheduled register_gate wait_for_decision check
answered_returned = refl

returned_example : Stored a_raw answered_gate.stored
returned_example = Reachable-returned answered_gate a_raw answered_reachable answered_returned

abbrev some_text : Json → Text
some_text j = []

abbrev some_string : Text → String
some_string t = ""

abbrev a_response : ApprovalResponse
a_response = record { approval_id = 9; answer = record { approved = true; payload = [] } }

a_row_keyed :
    All (KeyedBy some_text some_string 1 7 a_response) (a_world awaiting_approval).db.approvals
a_row_keyed = (λ e. (refl, refl), tt)

-- Redis does not answer the gate after the commit.
abbrev redis_down : Calls
redis_down = record all_succeed { set = err runtime }

abbrev after_answer : World
after_answer =
    (handle_approval_response some_text some_string redis_down 1 7 a_response
      (a_world awaiting_approval)).1

pending_answer_example :
    let result =
      handle_approval_response some_text some_string all_succeed 1 7 a_response
        (a_world awaiting_approval) in
    let w' = result.1 in
    (result.0 ≡ ok tt)
    × (find_first (asked_of 1 7 9) w'.db.approvals
        ≡ some (decided (verdict true) (user_response []) an_approval))
    × (lookup 9 w'.decisions ≡ some (write_decision some_text a_response.answer))
    × (w'.wakes ≡ 9 ∷ [])
    × (w'.events ≡ (7, approval_resolved 9 true) ∷ [])
pending_answer_example =
    pending_answer some_text some_string all_succeed 1 7 a_response (a_world awaiting_approval)
      an_approval refl a_row_keyed (ground arith) refl

decided_once_example :
    handle_approval_response some_text some_string all_succeed 1 7 a_response after_answer
    ≡ (err conflict, after_answer)
decided_once_example =
    decided_once some_text some_string redis_down all_succeed 1 7 a_response
      (a_world awaiting_approval) an_approval refl a_row_keyed (ground arith) refl a_response refl

-- The flush raises after the row has been written.
abbrev database_down : Calls
database_down = record all_succeed { flush = err runtime }

flush_refused :
    handle_approval_response some_text some_string database_down 1 7 a_response
      (a_world awaiting_approval)
    ≡ (err runtime, a_world awaiting_approval)
unfolding handle_approval_response decide get resolve save_approval create_message ◌>>=◌
    approval_status_eq
flush_refused = ground arith

refused_answer_example :
    (a_world awaiting_approval ≡ a_world awaiting_approval)
    ⊎ CommittedOnly some_text some_string database_down 1 7 a_response
        (a_world awaiting_approval)
        (a_world awaiting_approval)
        runtime
refused_answer_example =
    refused_answer some_text some_string database_down 1 7 a_response (a_world awaiting_approval)
      (a_world awaiting_approval) runtime flush_refused

abbrev a_decision : Decision
a_decision = record { approved = true; payload = ("text", str "go on") ∷ [] }

parse_decision_example :
    parse_decision (λ t. some (decision_json a_decision)) (write_decision some_text a_decision)
    ≡ ok a_decision
parse_decision_example =
    parse_decision-write_decision some_text (λ t. some (decision_json a_decision)) a_decision refl

abbrev an_asker : Asker
an_asker = record { task_id = 7; user_id = 1; agent_name = "developer" }

request_example :
    let r =
      request an_asker "Write" [] "developer requests approval to use Write" (a_world running) in
    (r.0 ≡ ok 20) × Opened an_asker "Write" 20 (a_world running) r.1
request_example =
    request-Opened an_asker "Write" [] "developer requests approval to use Write" (a_world running)
      (a_task running) (ground arith)

abbrev at_once : ℕ → Exec World Decision
at_once id = pure a_decision

abbrev text_of : Json → String
text_of (str s) = s
text_of j = ""

-- A question that is empty is refused.
no_question :
    ask_user at_once text_of (λ s. s) an_asker [] (a_world running)
    ≡ (ok "ERROR: question is required", a_world running)
unfolding ask_user text_field lookup ◌>>=◌ string_eq
no_question = ground arith

abbrev same : Text → Text → Bool
same a b = true

abbrev a_command : Dict String Json
a_command = ("command", str "ls") ∷ []

command_approved : auto_approved same [] (codes "Bash(ls*)" ∷ []) "Bash" a_command ≡ ok true
unfolding auto_approved bash_approved inner_glob strip_prefix lookup string_eq
command_approved = ground arith

bash_example : BashMatch same (codes "ls") (codes "Bash(ls*)" ∷ [])
bash_example =
    bash-auto_approved same [] (codes "Bash(ls*)" ∷ []) a_command (codes "ls")
      (unfold lookup string_eq in refl) command_approved

abbrev write_hook : Exec World Permission
write_hook = hook text_of same at_once [] [] 7 "developer" (some 1) "Write" [] ""

-- No pattern lists the tool, so that the user is asked.
write_allowed : write_hook (a_world running) ≡ (ok allow, (write_hook (a_world running)).1)
unfolding hook auto_approved tool_approved string_eq ◌>>=◌ ask_user_of ask_permission request
    save_request set_task_status await_decision permission_of create create_message get_task
    update_status store patched register cleanup publish erase save
write_allowed = ground arith

hook_example :
    (auto_approved same [] [] "Write" [] ≡ ok true)
    ⊎ Approved at_once 7 "developer" (some 1) "Write" [] "" (a_world running)
hook_example =
    hook-allow text_of at_once same [] [] 7 "developer" (some 1) "Write" [] "" (a_world running)
      (write_hook (a_world running)).1 write_allowed
