-- ===== src/Webhook/Attempts.antt =====
-- The number of automatic fixes is bounded by `max_fix_attempts`.
pub mod Fix
use saas_ai_agents_long_term.Prelude.{
  ℕ, ◌+◌, ◌≤◌, Option, none, some, List, [], ◌∷◌, ◌≡◌, arith, All, leb, Option-cases, Bool-cases,
  inl, inr, ◌==◌, string_eq, keep-keeps, false,
}
use saas_ai_agents_long_term.Prelude.Table.{save-All, newest_first-All}
use saas_ai_agents_long_term.Prelude.Text.{Text}
use saas_ai_agents_long_term.Effect.{Exec, cond, ◌>>=◌}
use saas_ai_agents_long_term.Effect.Preserves.{Preserves, preserves_rules, transaction-Preserves}
use saas_ai_agents_long_term.World.{
  TaskStatus, running, fixing, needs_human, completed, failed, Task, World, with_db, Job, fix,
  pipeline, Event, publish, close_task, spawn,
}
use saas_ai_agents_long_term.Task.{get, update_status, patched, Patch, store, no_patch}
use saas_ai_agents_long_term.Task.Service.{db_scope}
use saas_ai_agents_long_term.Webhook.{
  Settings, WorkflowRun, Conclusion, success, failure, other, handle_workflow_run, on_task,
  on_status, on_conclusion, on_failure,
}
use saas_ai_agents_long_term.Webhook.Branch.{
  match_branch, newest_with_prefix, first_row, find_task_for_branch,
}

module _ (limit : ℕ) where
  abbrev pub JobWithin : Job → Type 0
  JobWithin (fix j) = j.attempt + 1 ≤ limit
  JobWithin (pipeline t u s) = Unit

  abbrev pub TaskWithin : Task → Type 0
  TaskWithin t = t.attempt ≤ limit

  -- No task has used more attempts than the limit, and no fix is under way that would.
  pub record AttemptsWithin (w : World) : Type 0 where
    pub tasks_within : All TaskWithin w.db.tasks
    pub jobs_within : All JobWithin w.jobs

  pub publish-AttemptsWithin : (t : ℕ) (e : Event) → Preserves AttemptsWithin (publish t e)
  unfolding publish
  publish-AttemptsWithin t e = record {
    holds = λ w h. record { tasks_within = h.tasks_within; jobs_within = h.jobs_within };
  }

  pub close_task-AttemptsWithin : (t : ℕ) → Preserves AttemptsWithin (close_task t)
  unfolding close_task
  close_task-AttemptsWithin t = record {
    holds = λ w h. record { tasks_within = h.tasks_within; jobs_within = h.jobs_within };
  }

  pub update_status-AttemptsWithin :
      (task : Task) (status : TaskStatus) (p : Patch)
      → (patched task status p).attempt ≤ limit
      → Preserves AttemptsWithin (update_status task status p)
  unfolding update_status store
  update_status-AttemptsWithin task status p le = record {
    holds = λ w h. record {
      tasks_within =
          save-All (λ (t : Task). t.id) TaskWithin (patched task status p) w.db.tasks le
            h.tasks_within;
      jobs_within = h.jobs_within;
    };
  }

  pub spawn-AttemptsWithin : (j : Job) → JobWithin j → Preserves AttemptsWithin (spawn j)
  unfolding spawn
  spawn-AttemptsWithin j le = record {
    holds = λ w h. record { tasks_within = h.tasks_within; jobs_within = (le, h.jobs_within) };
  }

  pub ruleset within_rules = (
    preserves_rules, publish-AttemptsWithin, close_task-AttemptsWithin,
    update_status-AttemptsWithin, spawn-AttemptsWithin,
  )

  pub keeps_attempt :
      (task : Task) (status : TaskStatus)
      → task.attempt ≤ limit
      → (patched task status no_patch).attempt ≤ limit
  unfolding patched
  keeps_attempt task status h = h

  module _ (settings : Settings) (same : settings.max_fix_attempts ≡ limit) where
    attempts_left :
        (task : Task)
        → leb settings.max_fix_attempts task.attempt ≡ false
        → task.attempt + 1 ≤ limit
    attempts_left task h = ground arith

    on_failure-AttemptsWithin :
        (run : WorkflowRun) (task : Task)
        → task.attempt ≤ limit
        → Preserves AttemptsWithin (on_failure settings run task)
    unfolding on_failure
    on_failure-AttemptsWithin run task le =
        search
          (
            within_rules,
            keeps_attempt task fixing le,
            keeps_attempt task needs_human le,
            attempts_left task,
          )
          depth 9

    on_conclusion-AttemptsWithin :
        (c : Conclusion) (run : WorkflowRun) (task : Task)
        → task.attempt ≤ limit
        → Preserves AttemptsWithin (on_conclusion settings c run task)
    unfolding on_conclusion
    on_conclusion-AttemptsWithin success run task le =
        search (within_rules, keeps_attempt task completed le)
    on_conclusion-AttemptsWithin failure run task le = on_failure-AttemptsWithin run task le
    on_conclusion-AttemptsWithin other run task le = search within_rules

    on_status-AttemptsWithin :
        (s : TaskStatus) (run : WorkflowRun) (task : Task)
        → task.attempt ≤ limit
        → Preserves AttemptsWithin (on_status settings s run task)
    unfolding on_status
    on_status-AttemptsWithin running run task le = search within_rules
    on_status-AttemptsWithin completed run task le = search within_rules
    on_status-AttemptsWithin needs_human run task le = search within_rules
    on_status-AttemptsWithin failed run task le = search within_rules
    on_status-AttemptsWithin fixing run task le = search within_rules
    on_status-AttemptsWithin _ run task le = on_conclusion-AttemptsWithin run.conclusion run task le

    abbrev FoundWithin : Option Task → Type 0
    FoundWithin none = Unit
    FoundWithin (some t) = TaskWithin t

    on_task-AttemptsWithin :
        (run : WorkflowRun) (found : Option Task)
        → FoundWithin found
        → Preserves AttemptsWithin (on_task settings run found)
    on_task-AttemptsWithin run none h = search within_rules
    on_task-AttemptsWithin run (some t) h = on_status-AttemptsWithin t.status run t h

    first_row-Within : (ts : List Task) → All TaskWithin ts → FoundWithin (first_row ts)
    first_row-Within [] h = tt
    first_row-Within (t ∷ ts) h = h.0

    find_task-Within :
        (uuid_text : ℕ → Text) (ts : List Task) (branch : Text)
        → All TaskWithin ts
        → FoundWithin (find_task_for_branch uuid_text ts branch)
    unfolding find_task_for_branch
    find_task-Within uuid_text ts branch h = elim (Option-cases (match_branch branch)) [
      | inl e ↦ rw (e, newest_with_prefix) tt
      | inr (groups, e) ↦
          rw (e, newest_with_prefix)
            (first_row-Within _ (newest_first-All _ TaskWithin _ (keep-keeps TaskWithin _ ts h)))
    ]

    -- A webhook keeps the number of attempts of every task, and of every fix that it starts, within
    -- the configured limit.
    pub handle_workflow_run-AttemptsWithin :
        (uuid_text : ℕ → Text) (run : WorkflowRun)
        → Preserves AttemptsWithin (handle_workflow_run settings uuid_text run)
    unfolding handle_workflow_run ◌>>=◌
    handle_workflow_run-AttemptsWithin uuid_text run =
        elim (Bool-cases (run.action == "completed")) [
          | inl e ↦
              rw (e, cond)
                (record {
                  holds = λ w h.
                      (on_task-AttemptsWithin run _ (
                          find_task-Within uuid_text w.db.tasks run.head_branch
                            h.tasks_within)).holds
                        w h;
                })
          | inr e ↦ rw (e, cond) (record { holds = λ w h. h })
        ]

  pub get-AttemptsWithin : (user_id task_id : ℕ) → Preserves AttemptsWithin (get user_id task_id)
  unfolding get
  get-AttemptsWithin user_id task_id = record { holds = λ w h. h }

  pub scope-AttemptsWithin {ℓ} :
      {A : Type ℓ} (m : Exec World A)
      → Preserves AttemptsWithin m
      → Preserves AttemptsWithin (db_scope m)
  scope-AttemptsWithin m hm =
      transaction-Preserves (λ (w : World). w.db) with_db m
        (λ s₀ s h₀ h. record { tasks_within = h₀.tasks_within; jobs_within = h.jobs_within }) hm

  -- The new count of a fix is within the limit, whatever the count of the row is by then.
  pub patched-within :
      (task : Task) (status : TaskStatus) (p : Patch) (n : ℕ)
      → p.attempt ≡ some n
      → n ≤ limit
      → (patched task status p).attempt ≤ limit
  unfolding patched
  patched-within task status p n e h = ground arith
