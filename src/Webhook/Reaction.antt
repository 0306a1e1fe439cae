-- ===== src/Webhook/Reaction.antt =====
-- How the webhook reacts to a CI run: which runs it ignores, and that one failure starts one fix.
use saas_ai_agents_long_term.Prelude.{
  ℕ, ◌<◌, Bool, true, false, Option, none, some, List, [], ◌∷◌, ◌≡◌, refl, arith, All, string_eq,
  nat_eq, contains, keep-keeps,
}
use saas_ai_agents_long_term.Prelude.Table.{save, keep-save, newest_first-save, RankKept}
use saas_ai_agents_long_term.Prelude.Text.{Text, starts_with}
use saas_ai_agents_long_term.Effect.{ok, err, webhook_retry_later, ◌>>=◌}
use saas_ai_agents_long_term.World.{
  TaskStatus, running, awaiting_ci, fixing, completed, needs_human, failed, Task, World, fix,
  status_changed, publish, close_task, spawn,
}
use saas_ai_agents_long_term.Task.{update_status, patched, store, no_patch}
use saas_ai_agents_long_term.Webhook.{
  Settings, WorkflowRun, failure, handle_workflow_run, on_status, on_conclusion, on_failure,
  fix_job,
}
use saas_ai_agents_long_term.Webhook.Branch.{
  find_task_for_branch, match_branch, newest_with_prefix, first_row,
}

-- Already over, or being fixed.
abbrev pub is_settled : TaskStatus → Bool
is_settled completed = true
is_settled needs_human = true
is_settled failed = true
is_settled fixing = true
is_settled _ = false

on_status-settled :
    (settings : Settings) (s : TaskStatus) (run : WorkflowRun) (task : Task) (w : World)
    → is_settled s ≡ true
    → on_status settings s run task w ≡ (ok tt, w)
unfolding on_status ◌>>=◌
on_status-settled settings completed run task w h = refl
on_status-settled settings needs_human run task w h = refl
on_status-settled settings failed run task w h = refl
on_status-settled settings fixing run task w h = refl
on_status-settled settings _ run task w h = cc

module _ (settings : Settings) (uuid_text : ℕ → Text) where
  -- Runs for a task that is over, or that is being fixed already, change nothing.
  handle_workflow_run-settled :
      (run : WorkflowRun) (w : World) (task : Task)
      → find_task_for_branch uuid_text w.db.tasks run.head_branch ≡ some task
      → is_settled task.status ≡ true
      → handle_workflow_run settings uuid_text run w ≡ (ok tt, w)
  unfolding handle_workflow_run ◌>>=◌
  handle_workflow_run-settled run w task e h =
      ground (arith, on_status-settled settings task.status run task w h)

  -- While the first pipeline still runs, a finished run is refused so that it is delivered again.
  pub handle_workflow_run-running :
      (run : WorkflowRun) (w : World) (task : Task)
      → run.action ≡ "completed"
      → find_task_for_branch uuid_text w.db.tasks run.head_branch ≡ some task
      → task.status ≡ running
      → handle_workflow_run settings uuid_text run w ≡ (err webhook_retry_later, w)
  unfolding handle_workflow_run on_status ◌>>=◌
  handle_workflow_run-running run w task c e h = ground arith

  first_row-save :
      (b t : Task) (ts : List Task)
      → first_row ts ≡ some t
      → t.id ≡ b.id
      → first_row (save (λ (t : Task). t.id) b ts) ≡ some b
  unfolding save
  first_row-save b t [] h e = cc
  first_row-save b t (x ∷ ts) h e = ground arith

  newest-save :
      (b t : Task) (groups : Option (Text × Text)) (ts : List Task)
      → newest_with_prefix uuid_text groups ts ≡ some t
      → t.id ≡ b.id
      → All (RankKept (λ (t : Task). t.id) (λ t. t.created_at) b) ts
      → newest_with_prefix uuid_text groups (save (λ (t : Task). t.id) b ts) ≡ some b
  newest-save b t none ts h e hs = cc
  newest-save b t (some (digits, repo)) ts h e hs =
      rw
        (
          keep-save (λ (t : Task). t.id) (λ t. t.created_at) b
              (λ t. starts_with digits (uuid_text t.id)) ts (λ x same. rw same),
          newest_first-save (λ (t : Task). t.id) (λ t. t.created_at) b _
              (keep-keeps _ (λ t. starts_with digits (uuid_text t.id)) ts hs),
        )
        (first_row-save b t _ h e)

  -- After a row is written back, the branch still leads to it.
  find_task-save :
      (b t : Task) (ts : List Task) (branch : Text)
      → find_task_for_branch uuid_text ts branch ≡ some t
      → t.id ≡ b.id
      → All (RankKept (λ (t : Task). t.id) (λ t. t.created_at) b) ts
      → find_task_for_branch uuid_text (save (λ (t : Task). t.id) b ts) branch ≡ some b
  unfolding find_task_for_branch
  find_task-save b t ts branch h e hs = newest-save b t (match_branch branch) ts h e hs

  -- The world in which the fix of a run has been started.
  abbrev fix_started : WorkflowRun → Task → World → World
  fix_started run task w = record (store (patched task fixing no_patch) w) {
    events = (task.id, status_changed fixing) ∷ w.events;
    jobs = fix (fix_job run task) ∷ w.jobs;
  }

  handle-fix_started :
      (run : WorkflowRun) (w : World) (task : Task)
      → run.action ≡ "completed"
      → run.conclusion ≡ failure
      → find_task_for_branch uuid_text w.db.tasks run.head_branch ≡ some task
      → task.status ≡ awaiting_ci
      → contains w.active_sessions task.id ≡ false
      → task.attempt < settings.max_fix_attempts
      → handle_workflow_run settings uuid_text run w ≡ (ok tt, fix_started run task w)
  unfolding handle_workflow_run on_status on_conclusion on_failure update_status publish close_task
      spawn store ◌>>=◌
  handle-fix_started run w task c f e s inactive left = ground arith

  -- A failed run of a task that waits for CI starts one fix, if no chat session is open and
  -- attempts are left. Any further run of that branch that is reported in the state it leaves
  -- changes nothing. (Rows with the task's id have its creation time: ids are primary keys.)
  pub one_fix_per_failure :
      (run : WorkflowRun) (w : World) (task : Task)
      → run.action ≡ "completed"
      → run.conclusion ≡ failure
      → find_task_for_branch uuid_text w.db.tasks run.head_branch ≡ some task
      → All (RankKept (λ (t : Task). t.id) (λ t. t.created_at) task) w.db.tasks
      → task.status ≡ awaiting_ci
      → contains w.active_sessions task.id ≡ false
      → task.attempt < settings.max_fix_attempts
      → (again : WorkflowRun) → again.head_branch ≡ run.head_branch
      → let w' = (handle_workflow_run settings uuid_text run w).1 in
        (w'.jobs ≡ fix (fix_job run task) ∷ w.jobs)
        × (handle_workflow_run settings uuid_text again w' ≡ (ok tt, w'))
  unfolding store
  one_fix_per_failure run w task c f e unique s inactive left again same =
      rw (handle-fix_started run w task c f e s inactive left) (
        refl,
        handle_workflow_run-settled again (fix_started run task w) (patched task fixing no_patch)
            (rw same (
              find_task-save (patched task fixing no_patch) task w.db.tasks run.head_branch e
                (unfold patched in refl) (unfold patched in unique)))
            (unfold patched in refl),
      )
