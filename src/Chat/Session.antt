-- ===== src/Chat/Session.antt =====
-- A chat session (src/agents/chat/session.py). The SDK client, the callback after a turn, and what
-- other coroutines do while the session blocks on the queue are arguments: actions on the session's
-- state that may raise. The clock moves in those actions only. The loop is on fuel.
pub mod Ending
pub mod Teardown
pub mod Clock
pub mod Round
pub mod Fuel
use saas_ai_agents_long_term.Prelude.{
  ℕ, zero, suc, ◌+◌, String, Bool, true, false, Option, none, some, List, [], ◌==◌, string_eq,
  nat_eq,
}
use saas_ai_agents_long_term.Prelude.Text.{Text}
use saas_ai_agents_long_term.Effect.{
  Error, Result, ok, err, Exec, pure, gets, modify, catch, finally, cond, ◌>>=◌, ◌>>◌,
}
use saas_ai_agents_long_term.Json.{Json}
use saas_ai_agents_long_term.World.{
  MessageRole, TaskStatus, running, awaiting_user_message, completed, failed, World,
  SessionEndReason, user_closed, idle_timeout, hard_timeout, error, user, agent, chat, publish,
  close_task, status_changed, agent_thinking, turn_finished, agent_message, session_timed_out,
  session_closed,
}
use saas_ai_agents_long_term.Task.{get, update_status, no_patch}
use saas_ai_agents_long_term.Task.Service.{db_scope}
use saas_ai_agents_long_term.Approval.{create_message}
use saas_ai_agents_long_term.Chat.Lifecycle.{
  Expiry, idle, hard, Lifecycle, remaining, expired, mark_user_input,
}
use saas_ai_agents_long_term.Chat.InputQueue.{blpop_timeout, wait_for_message}

-- The session object, its queue, the clock, and the rest of the program.
pub record Chat : Type 0 where
  pub task_id : ℕ
  pub user_id : ℕ
  pub agent_name : String
  pub turn_count : ℕ
  pub close_requested : Option SessionEndReason
  pub lifecycle : Lifecycle
  pub has_client : Bool
  pub queue : List Text
  pub now : ℕ
  pub world : World

abbrev pub rejoin {ℓ} : {A : Type ℓ} → Chat → Result A × World → Result A × Chat
rejoin c (r, w) = (r, record c { world = w })

unfoldable pub on_world {ℓ} : {A : Type ℓ} → (Chat → Exec World A) → Exec Chat A
on_world m c = rejoin c (m c c.world)

unfoldable pub write_status : ℕ → ℕ → TaskStatus → Option String → Exec World (Unit {0})
write_status user_id task_id status message = db_scope (do
  task ← get user_id task_id
  update_status task status (record no_patch { error_message = message })
  pure tt)

unfoldable pub set_status : TaskStatus → Option String → Exec Chat (Unit {0})
set_status status message = on_world (λ c. do
  write_status c.user_id c.task_id status message
  publish c.task_id (status_changed status))

unfoldable pub write_message : ℕ → ℕ → MessageRole → String → Option String → Exec World (Unit {0})
write_message user_id task_id role content author =
    db_scope (do create_message user_id task_id role chat content author none; pure tt)

unfoldable pub persist_user_message : String → Exec Chat (Unit {0})
persist_user_message content = on_world (λ c. write_message c.user_id c.task_id user content none)

unfoldable pub persist_agent_message : String → Exec Chat (Unit {0})
persist_agent_message content = on_world (λ c. do
  write_message c.user_id c.task_id agent content (some c.agent_name)
  publish c.task_id (agent_message content))

-- `request_close`
unfoldable pub request_close : SessionEndReason → Chat → Chat
request_close reason c = record c { close_requested = some reason }

unfoldable pub end_session : SessionEndReason → Option String → Exec Chat SessionEndReason
end_session user_closed message = do
  on_world (λ c. publish c.task_id (session_closed user_closed))
  set_status completed none
  pure user_closed
end_session idle_timeout message = do
  on_world (λ c. publish c.task_id (session_timed_out idle_timeout))
  set_status completed none
  pure idle_timeout
end_session hard_timeout message = do
  on_world (λ c. publish c.task_id (session_timed_out hard_timeout))
  set_status completed none
  pure hard_timeout
end_session error message = do set_status failed message; pure error

abbrev pub timeout_reason : Expiry → SessionEndReason
timeout_reason idle = idle_timeout
timeout_reason hard = hard_timeout

-- `ask` sends a message and collects the text blocks of the response; `joined` is
-- `"\n".join(chunks).strip()`; `block` is what happens until BLPOP returns.
module _ (ask : String → Exec Chat (List String)) (joined : List String → String)
    (post_turn : Exec Chat (Unit {0})) (block : ℕ → Exec Chat (Unit {0}))
    (loads : Text → Option Json) (to_text : Json → String) where
  unfoldable pub run_one_turn : String → Bool → Exec Chat (Unit {0})
  run_one_turn text is_initial = do
    set_status running none
    on_world (λ c. publish c.task_id (agent_thinking (c.turn_count + 1)))
    cond is_initial (pure tt) (persist_user_message text)
    chunks ← ask text
    modify (λ c. record c { turn_count = c.turn_count + 1 })
    cond (joined chunks == "") (pure tt) (persist_agent_message (joined chunks))
    catch post_turn (λ e. pure tt)

  abbrev pub popped : Chat → Result (Option String) × List Text → Result (Option String) × Chat
  popped c (r, q) = (r, record c { queue = q })

  -- `task_input_queue.wait_for_message`
  unfoldable pub wait : ℕ → Exec Chat (Option String)
  unfolding blpop_timeout wait_for_message
  wait budget = do
    block (blpop_timeout budget)
    λ c. popped c (wait_for_message loads to_text c.queue)

  unfoldable pub take_message : Option String → Exec Chat (Unit {0})
  unfolding mark_user_input
  take_message none = pure tt
  take_message (some text) = do
    modify (λ c. record c { lifecycle = mark_user_input c.now c.lifecycle })
    run_one_turn text false

  -- One round of the loop, in which the session has not ended.
  unfoldable pub round : Exec Chat (Unit {0})
  unfolding remaining
  round = do
    set_status awaiting_user_message none
    on_world (λ c. publish c.task_id (turn_finished c.turn_count))
    budget ← gets (λ c. remaining c.lifecycle c.now)
    cond (budget == 0) (pure tt) (do message ← wait budget; take_message message)

  abbrev pub ending : Option SessionEndReason → Option Expiry → Option SessionEndReason
  ending (some reason) x = some reason
  ending none (some x) = some (timeout_reason x)
  ending none none = none

  -- Why the session ends before the next round, if it does.
  unfoldable pub why_end : Chat → Option SessionEndReason
  unfolding expired
  why_end c = ending c.close_requested (expired c.lifecycle c.now)

  -- `none` is fuel that ran out.
  unfoldable pub loop : ℕ → Exec Chat (Option SessionEndReason)
  loop zero = pure none
  loop (suc fuel) = do
    why ← gets why_end
    elim why [
      | none ↦ round >>= λ _. loop fuel
      | some reason ↦ end_session reason none >>= λ r. pure (some r)
    ]

  -- `cleared` is what Redis answers to the DEL of `task_input_queue.clear`.
  module _ (connect disconnect : Exec Chat (Unit {0})) (cleared : Result (Unit {0}))
      (error_text : Error → String) where
    abbrev without_client : Result (Unit {0}) × Chat → Chat
    without_client (r, c) = record c { has_client = false }

    abbrev left_in_queue : Result (Unit {0}) → List Text → List Text
    left_in_queue (ok u) q = []
    left_in_queue (err e) q = q

    abbrev close_client : Bool → Chat → Chat
    close_client true c = without_client (disconnect c)
    close_client false c = c

    abbrev swept : Chat → Chat
    swept c = record c {
      queue = left_in_queue cleared c.queue;
      world = (close_task c.task_id c.world).1;
    }

    -- `_teardown`; what `disconnect` or `clear` raises is only logged.
    unfoldable pub teardown : Chat → Chat
    teardown c = swept (close_client c.has_client c)

    unfoldable pub session_body : ℕ → Bool → String → Exec Chat (Option SessionEndReason)
    session_body fuel is_resumed initial_prompt = do
      cond is_resumed (pure tt) (run_one_turn initial_prompt true)
      loop fuel

    unfoldable pub run : ℕ → Bool → String → Exec Chat (Option SessionEndReason)
    run fuel is_resumed initial_prompt = do
      modify (λ c. record c { has_client = true })
      connect
      finally
          (catch (session_body fuel is_resumed initial_prompt)
            (λ e. end_session error (some (error_text e)) >>= λ r. pure (some r)))
          teardown
