-- ===== src/Chat/Session/Ending.antt =====
-- The status in which a session leaves its task.
use saas_ai_agents_long_term.Prelude.{
  ℕ, zero, suc, String, Bool, true, false, Option, none, some, List, ◌≡◌, refl, sym, ap, ◌∙◌, subst,
  arith, nat_eq, find_first, find_first-holds, inl, inr, Option-cases,
}
use saas_ai_agents_long_term.Prelude.Table.{find_first-save_self}
use saas_ai_agents_long_term.Prelude.Text.{Text}
use saas_ai_agents_long_term.Effect.{Error, not_found, Result, ok, err, Exec, recover, pure, ◌>>=◌}
use saas_ai_agents_long_term.Effect.Preserves.{Preserves}
use saas_ai_agents_long_term.Effect.Inversion.{middle, pure-ok, finally-ok, catch-recover}
use saas_ai_agents_long_term.Json.{Json}
use saas_ai_agents_long_term.World.{
  Task, TaskStatus, completed, failed, SessionEndReason, user_closed, idle_timeout, hard_timeout,
  error, publish, close_task,
}
use saas_ai_agents_long_term.Task.{no_patch, owned_by, get, update_status, patched, store}
use saas_ai_agents_long_term.Chat.Session.{
  Chat, on_world, set_status, write_status, end_session, loop, round, why_end, session_body, run,
  teardown, close_client, swept,
}

abbrev pub final_status : SessionEndReason → TaskStatus
final_status error = failed
final_status _ = completed

-- The session's task has this status.
pub record HasStatus (status : TaskStatus) (c : Chat) : Type 0 where
  pub task : Task
  pub found : find_first (owned_by c.user_id c.task_id) c.world.db.tasks ≡ some task
  pub has : task.status ≡ status

set_status-missing :
    (status : TaskStatus) (message : Option String) (c : Chat)
    → find_first (owned_by c.user_id c.task_id) c.world.db.tasks ≡ none
    → (set_status status message c).0 ≡ err not_found
unfolding set_status on_world write_status get ◌>>=◌
set_status-missing status message c missing = rw missing refl

set_status-found :
    (status : TaskStatus) (message : Option String) (c : Chat) (task : Task)
    → find_first (owned_by c.user_id c.task_id) c.world.db.tasks ≡ some task
    → HasStatus status (set_status status message c).1
unfolding set_status on_world write_status get update_status store publish ◌>>=◌
set_status-found status message c task found = rw found (record {
  task = patched task status (record no_patch { error_message = message });
  found =
      find_first-save_self (λ (t : Task). t.id) (owned_by c.user_id c.task_id) task
        (patched task status (record no_patch { error_message = message })) c.world.db.tasks found
        (unfold patched in refl)
        (unfold patched in
          ground
            (arith, find_first-holds (owned_by c.user_id c.task_id) c.world.db.tasks task found));
  has = unfold patched in refl;
})

set_status-HasStatus :
    (status : TaskStatus) (message : Option String) (c c' : Chat)
    → set_status status message c ≡ (ok tt, c')
    → HasStatus status c'
set_status-HasStatus status message c c' h =
    elim (Option-cases (find_first (owned_by c.user_id c.task_id) c.world.db.tasks)) [
      | inl missing ↦
          elim (raised (sym (set_status-missing status message c missing) ∙ ap (λ r. r.0) h)) [ ]
      | inr (task, found) ↦
          subst (HasStatus status) (ap (λ r. r.1) h) (set_status-found status message c task found)
    ]
  where
    raised : ◌≡◌ {A = Result (Unit {0})} (err not_found) (ok tt) → ⊥
    raised e = cc

some_injective : (a b : SessionEndReason) → some a ≡ some b → a ≡ b
some_injective a b e = ground arith

after_status :
    (reason reason' : SessionEndReason) (status : TaskStatus) (message : Option String)
    (c c' : Chat)
    → (set_status status message >>= λ _. pure reason) c ≡ (ok reason', c')
    → (reason ≡ reason') × HasStatus status c'
after_status reason reason' status message c c' h =
    let written = middle (set_status status message) _ c c' reason' h in
    let same = pure-ok reason reason' written.state c' written.second in
    (
      same.0,
      subst (HasStatus status) same.1
          (set_status-HasStatus status message c written.state written.first),
    )

after_event :
    (reason reason' : SessionEndReason) (m : Exec Chat (Unit {0})) (status : TaskStatus)
    (message : Option String) (c c' : Chat)
    → (m >>= λ _. set_status status message >>= λ _. pure reason) c ≡ (ok reason', c')
    → (reason ≡ reason') × HasStatus status c'
after_event reason reason' m status message c c' h =
    let told = middle m _ c c' reason' h in
    after_status reason reason' status message told.state c' told.second

end_session-HasStatus :
    (reason reason' : SessionEndReason) (message : Option String) (c c' : Chat)
    → end_session reason message c ≡ (ok reason', c')
    → (reason ≡ reason') × HasStatus (final_status reason) c'
unfolding end_session
end_session-HasStatus user_closed reason' message c c' h =
    after_event user_closed reason' _ completed none c c' h
end_session-HasStatus idle_timeout reason' message c c' h =
    after_event idle_timeout reason' _ completed none c c' h
end_session-HasStatus hard_timeout reason' message c c' h =
    after_event hard_timeout reason' _ completed none c c' h
end_session-HasStatus error reason' message c c' h =
    after_status error reason' failed message c c' h

module _ (ask : String → Exec Chat (List String)) (joined : List String → String)
    (post_turn : Exec Chat (Unit {0})) (block : ℕ → Exec Chat (Unit {0}))
    (loads : Text → Option Json) (to_text : Json → String) where
  some-HasStatus :
      (reason r : SessionEndReason) (message : Option String) (c c' : Chat)
      → (end_session reason message >>= λ r. pure (some r)) c ≡ (ok (some r), c')
      → HasStatus (final_status r) c'
  some-HasStatus reason r message c c' h =
      let ended = middle (end_session reason message) _ c c' (some r) h in
      let same = pure-ok (some ended.value) (some r) ended.state c' ended.second in
      let status = end_session-HasStatus reason ended.value message c ended.state ended.first in
      subst (λ x. HasStatus (final_status x) c') (status.0 ∙ some_injective ended.value r same.0)
        (subst (HasStatus (final_status reason)) same.1 status.1)

  loop-HasStatus :
      (fuel : ℕ) (r : SessionEndReason) (c c' : Chat)
      → loop ask joined post_turn block loads to_text fuel c ≡ (ok (some r), c')
      → HasStatus (final_status r) c'
  unfolding loop ◌>>=◌
  loop-HasStatus zero r c c' h = cc
  loop-HasStatus (suc fuel) r c c' h =
      by_why (why_end ask joined post_turn block loads to_text c) (loop-HasStatus fuel r) h
    where
      by_why :
          (w : Option SessionEndReason)
          → ((c c' : Chat)
              → loop ask joined post_turn block loads to_text fuel c ≡ (ok (some r), c')
              → HasStatus (final_status r) c')
          → elim w as (λ _. Exec Chat (Option SessionEndReason)) [
            | none ↦ round ask joined post_turn block loads to_text >>= λ _.
                loop ask joined post_turn block loads to_text fuel
            | some reason ↦ end_session reason none >>= λ r. pure (some r)
          ]
              c
            ≡ (ok (some r), c')
          → HasStatus (final_status r) c'
      by_why none ih k =
          let rounded = middle (round ask joined post_turn block loads to_text) _ c c' (some r) k in
          ih rounded.state c' rounded.second
      by_why (some reason) ih k = some-HasStatus reason r none c c' k

  module _ (connect disconnect : Exec Chat (Unit {0})) (cleared : Result (Unit {0}))
      (error_text : Error → String) where
    body-HasStatus :
        (fuel : ℕ) (is_resumed : Bool) (initial_prompt : String) (r : SessionEndReason)
        (c c' : Chat)
        → session_body ask joined post_turn block loads to_text connect disconnect cleared
            error_text fuel is_resumed initial_prompt c
          ≡ (ok (some r), c')
        → HasStatus (final_status r) c'
    unfolding session_body
    body-HasStatus fuel is_resumed initial_prompt r c c' h =
        let opened =
          middle _ (λ _. loop ask joined post_turn block loads to_text fuel) c c' (some r) h in
        loop-HasStatus fuel r opened.state c' opened.second

    caught-HasStatus :
        (result : Result (Option SessionEndReason) × Chat) (r : SessionEndReason) (c' : Chat)
        → ((t : Chat) → result ≡ (ok (some r), t) → HasStatus (final_status r) t)
        → recover result
            (λ e. end_session error (some (error_text e)) >>= λ reason. pure (some reason))
          ≡ (ok (some r), c')
        → HasStatus (final_status r) c'
    caught-HasStatus (ok a, t) r c' hb h = hb c' h
    caught-HasStatus (err e, t) r c' hb h = some-HasStatus error r (some (error_text e)) t c' h

    teardown-HasStatus :
        ((status : TaskStatus) → Preserves (HasStatus status) disconnect)
        → (status : TaskStatus) (c : Chat) → HasStatus status c
        → HasStatus status (
            teardown ask joined post_turn block loads to_text connect disconnect cleared error_text
              c)
    unfolding teardown close_task publish
    teardown-HasStatus hd status c h = go c.has_client
      where
        go :
            (b : Bool)
            → HasStatus status (
                swept ask joined post_turn block loads to_text connect disconnect cleared error_text
                  (close_client ask joined post_turn block loads to_text connect disconnect cleared
                    error_text b c))
        go true =
            let kept = (hd status).holds c h in
            record { task = kept.task; found = kept.found; has = kept.has }
        go false = record { task = h.task; found = h.found; has = h.has }

    -- A session that returns leaves its task in the status of its reason: failed after an error,
    -- completed when the user closed it or a timeout ended it. (Closing the client does not touch
    -- the task.)
    pub run-HasStatus :
        ((status : TaskStatus) → Preserves (HasStatus status) disconnect)
        → (fuel : ℕ) (is_resumed : Bool) (initial_prompt : String) (r : SessionEndReason)
          (c c' : Chat)
        → run ask joined post_turn block loads to_text connect disconnect cleared error_text fuel
            is_resumed initial_prompt c
          ≡ (ok (some r), c')
        → HasStatus (final_status r) c'
    unfolding run
    run-HasStatus hd fuel is_resumed initial_prompt r c c' h =
        let marked = middle _ _ c c' (some r) h in
        let opened = middle connect _ marked.state c' (some r) marked.second in
        let ended =
          finally-ok _
            (teardown ask joined post_turn block loads to_text connect disconnect cleared
              error_text)
            opened.state c' (some r) opened.second in
        subst (HasStatus (final_status r)) ended.2 (
          teardown-HasStatus hd (final_status r) ended.0 (
            caught-HasStatus
              (session_body ask joined post_turn block loads to_text connect disconnect cleared
                error_text fuel is_resumed initial_prompt opened.state)
              r ended.0 (λ t e. body-HasStatus fuel is_resumed initial_prompt r opened.state t e)
              (sym (catch-recover _ _ opened.state) ∙ ended.1)))
