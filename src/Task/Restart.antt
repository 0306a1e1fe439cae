-- ===== src/Task/Restart.antt =====
-- Starting, restarting and failing a task: the laws of the task service.
use saas_ai_agents_long_term.Prelude.{
  ℕ, String, Bool, true, false, ◌&&◌, Option, none, some, inl, inr, Option-cases, ◌∷◌, ◌≡◌, refl,
  arith, ◌==◌, nat_eq, find_first, find_first-holds, find_first-exists,
}
use saas_ai_agents_long_term.Prelude.Dict.{Dict}
use saas_ai_agents_long_term.Prelude.Table.{find_first-save_self}
use saas_ai_agents_long_term.Prelude.Text.{prefix_of}
use saas_ai_agents_long_term.Effect.{Error, ok, err, conflict, Exec, ◌>>=◌}
use saas_ai_agents_long_term.Json.{Json}
use saas_ai_agents_long_term.World.{
  World, Task, Project, running, failed, pipeline, pipeline_failed, closed, publish, close_task,
  spawn,
}
use saas_ai_agents_long_term.Task.{
  get, new_task, create, owned_by, update_status, patched, store, no_patch, Patch,
}
use saas_ai_agents_long_term.Task.Service.{
  retryable, retry, start_pipeline, get_project, build_initial_state, create_task, run_pipeline,
  record_failure,
}

abbrev pub project_of : ℕ → ℕ → Project → Bool
project_of user_id project_id p = p.id == project_id && p.user_id == user_id

abbrev pub failure_patch : (Error → String) → Error → Patch
failure_patch error_text e = record no_patch {
  error_message = some (prefix_of 2000 (error_text e));
}

restarted :
    (user_id task_id : ℕ) (w : World) (task : Task)
    → find_first (owned_by user_id task_id) w.db.tasks ≡ some task
    → find_first (owned_by user_id task_id) (store (patched task running no_patch) w).db.tasks
      ≡ some (patched task running no_patch)
unfolding store
restarted user_id task_id w task h =
    find_first-save_self (λ (t : Task). t.id) (owned_by user_id task_id) task
      (patched task running no_patch) w.db.tasks h (unfold patched in refl)
      (unfold patched in
        ground (arith, find_first-holds (owned_by user_id task_id) w.db.tasks task h))

module _ (uuid_text : ℕ → String) where
  -- A task that is neither failed nor waiting for a human cannot be restarted, and nothing changes.
  pub retry-refused :
      (user_id task_id : ℕ) (w : World) (task : Task)
      → find_first (owned_by user_id task_id) w.db.tasks ≡ some task
      → retryable task.status ≡ false
      → retry uuid_text user_id task_id w ≡ (err conflict, w)
  unfolding retry get ◌>>=◌
  retry-refused user_id task_id w task h r = ground arith

  -- A failed task, or one that waits for a human, is restarted if its project can be read: it runs,
  -- and one pipeline was started on its initial state. The attempts it has used and its old error
  -- message are kept.
  pub retry-restarts :
      (user_id task_id : ℕ) (w : World) (task : Task) (project : Project)
      → find_first (owned_by user_id task_id) w.db.tasks ≡ some task
      → retryable task.status ≡ true
      → find_first (project_of user_id task.project_id) w.db.projects ≡ some project
      → let fresh = patched task running no_patch in
        let r = retry uuid_text user_id task_id w in
        (r.0 ≡ ok fresh)
        × (fresh.status ≡ running)
        × (fresh.attempt ≡ task.attempt)
        × (fresh.error_message ≡ task.error_message)
        × (find_first (owned_by user_id task_id) r.1.db.tasks ≡ some fresh)
        × (r.1.jobs
            ≡ pipeline task.id user_id (build_initial_state uuid_text fresh user_id project)
              ∷ w.jobs)
  unfolding retry start_pipeline get get_project update_status store spawn ◌>>=◌
  retry-restarts user_id task_id w task project h r p =
      rw (h, r, restarted user_id task_id w task h)
        (unfold patched in
          rw p (refl, refl, refl, refl, unfold patched in restarted user_id task_id w task h, refl))

  -- A new task of a project the user has runs at once, under a fresh id and with one pipeline.
  pub create_task_lem :
      (user_id project_id agent_id : ℕ) (description : String) (w : World) (project : Project)
      → find_first (project_of user_id project_id) w.db.projects ≡ some project
      → let r = create_task uuid_text user_id project_id description agent_id w in
        (task : Task) × (r.0 ≡ ok task)
        × (task.status ≡ running)
        × (task.id ≡ w.db.next_id)
        × (find_first (owned_by user_id w.db.next_id) r.1.db.tasks ≡ some task)
        × (r.1.jobs
            ≡ pipeline task.id user_id (build_initial_state uuid_text task user_id project)
              ∷ w.jobs)
  unfolding create_task get_project create spawn ◌>>=◌
  create_task_lem user_id project_id agent_id description w project h =
      rw (h, find_first-exists (project_of user_id project_id) w.db.projects project h)
        (
          new_task w.db.next_id user_id project_id agent_id description running,
          refl,
          refl,
          refl,
          ground arith,
          refl,
        )

-- The row that `f` is written over, if there is one, is read back.
abbrev pub over : Option Task → (Task → Task) → Option Task
over none f = none
over (some t) f = some (f t)

module _ (error_text : Error → String) where
  -- The pipeline's coroutine does not raise when the orchestrator does: the clients are told and
  -- their streams end, and the task that its owner can then read is the one there was, failed with
  -- the message, or none if there was none.
  pub run_pipeline-failed :
      (orchestrator : Dict String Json → Exec World (Dict String Json)) (task_id user_id : ℕ)
      (state : Dict String Json) (w w' : World) (e : Error)
      → orchestrator state w ≡ (err e, w')
      → let r = run_pipeline error_text orchestrator task_id user_id state w in
        (r.0 ≡ ok tt)
        × (find_first (owned_by user_id task_id) r.1.db.tasks
            ≡ over
                (find_first (owned_by user_id task_id) w'.db.tasks)
                (λ t. patched t failed (failure_patch error_text e)))
        × (r.1.events
            ≡ (task_id, closed)
              ∷ (task_id, pipeline_failed (prefix_of 2000 (error_text e)))
              ∷ w'.events)
  unfolding run_pipeline record_failure get update_status store publish close_task ◌>>=◌
  run_pipeline-failed orchestrator task_id user_id state w w' e raised =
      elim (Option-cases (find_first (owned_by user_id task_id) w'.db.tasks)) [
        | inl gone ↦ rw (raised, gone) (refl, gone, refl)
        | inr (task, h) ↦
            rw (raised, h)
              (
                refl,
                find_first-save_self (λ (t : Task). t.id) (owned_by user_id task_id) task
                    (patched task failed (failure_patch error_text e)) w'.db.tasks h
                    (unfold patched in refl)
                    (unfold patched in
                      ground
                        (arith, find_first-holds (owned_by user_id task_id) w'.db.tasks task h)),
                refl,
              )
      ]
