-- ===== src/Webhook/System.antt =====
-- Webhooks, fixes and the task service together: any sequence of deliveries, of background fixes that
-- were started, of new tasks and of restarts.
use saas_ai_agents_long_term.Prelude.{
  ℕ, ◌+◌, ◌≤◌, String, List, [], ◌∷◌, ◌++◌, ◌≡◌, refl, subst, Bool-cases, Option-cases, inl, inr,
  exists, find_first, find_first-All, ◌&&◌, ◌==◌, nat_eq, arith, All,
}
use saas_ai_agents_long_term.Prelude.Dict.{Dict}
use saas_ai_agents_long_term.Prelude.Text.{Text}
use saas_ai_agents_long_term.Effect.{Error, Exec, ◌>>=◌}
use saas_ai_agents_long_term.Effect.Preserves.{Preserves}
use saas_ai_agents_long_term.Json.{Json}
use saas_ai_agents_long_term.World.{World, Task, TaskStatus, Project, running, Job, FixJob, fix}
use saas_ai_agents_long_term.Task.{get, owned_by, create}
use saas_ai_agents_long_term.Task.Service.{get_project, create_task, retry, start_pipeline}
use saas_ai_agents_long_term.Webhook.{Settings, WorkflowRun, handle_workflow_run, run_devops_fix}
use saas_ai_agents_long_term.Webhook.Attempts.{
  AttemptsWithin, TaskWithin, keeps_attempt, JobWithin, within_rules, get-AttemptsWithin,
  handle_workflow_run-AttemptsWithin,
}
use saas_ai_agents_long_term.Webhook.Attempts.Fix.{run_devops_fix-AttemptsWithin}

module _ (settings : Settings) (uuid_text : ℕ → Text) (uuid_string : ℕ → String)
    (error_text : Error → String) (ci_failure_prompt : ℕ → String → ℕ → String → String)
    (orchestrator publisher : Dict String Json → Exec World (Dict String Json)) where
  pub data Step : World → World → Type 0 where
    delivered :
        (run : WorkflowRun) (w : World) → Step w (handle_workflow_run settings uuid_text run w).1
    fixed :
        (before after' : List Job) (job : FixJob) (w : World)
        → w.jobs ≡ before ++ fix job ∷ after'
        → Step w
            (run_devops_fix uuid_string error_text ci_failure_prompt orchestrator publisher job w).1
    created :
        (user_id project_id agent_id : ℕ) (description : String) (w : World)
        → Step w (create_task uuid_string user_id project_id description agent_id w).1
    restarted : (user_id task_id : ℕ) (w : World) → Step w (retry uuid_string user_id task_id w).1

  -- The program starts with no task and no fix under way.
  pub data Reachable : World → Type 0 where
    initially : (w : World) → w.db.tasks ≡ [] → w.jobs ≡ [] → Reachable w
    and_then : (w w' : World) → Reachable w → Step w w' → Reachable w'

module _ (limit : ℕ) where
  get_project-AttemptsWithin :
      (user_id project_id : ℕ) → Preserves (AttemptsWithin limit) (get_project user_id project_id)
  unfolding get_project
  get_project-AttemptsWithin user_id project_id = record {
    holds = λ w h. record { tasks_within = h.tasks_within; jobs_within = h.jobs_within };
  }

  create-AttemptsWithin :
      (user_id project_id agent_id : ℕ) (description : String) (status : TaskStatus)
      → Preserves (AttemptsWithin limit) (create user_id project_id agent_id description status)
  unfolding create
  create-AttemptsWithin user_id project_id agent_id description status = record {
    holds = λ w h.
        elim (Bool-cases
          (exists (λ (p : Project). p.id == project_id && p.user_id == user_id) w.db.projects)) [
            | inl has ↦ rw has (record {
              tasks_within = (omega arith, h.tasks_within);
              jobs_within = h.jobs_within;
            })
            | inr lacks ↦
                rw lacks (record { tasks_within = h.tasks_within; jobs_within = h.jobs_within })
          ];
  }

  -- A task that was read is within the limit.
  read-AttemptsWithin :
      (user_id task_id : ℕ) (f : Task → Exec World Task)
      → ((task : Task) → task.attempt ≤ limit → Preserves (AttemptsWithin limit) (f task))
      → Preserves (AttemptsWithin limit) (get user_id task_id >>= f)
  unfolding get ◌>>=◌
  read-AttemptsWithin user_id task_id f hf = record {
    holds = λ w h. elim (Option-cases (find_first (owned_by user_id task_id) w.db.tasks)) [
      | inl missing ↦ rw missing h
      | inr (task, found) ↦ rw found (
          (hf task (
              find_first-All (owned_by user_id task_id) (TaskWithin limit) w.db.tasks task
                h.tasks_within found)).holds
            w h)
    ];
  }

  create_task-AttemptsWithin :
      (uuid_string : ℕ → String) (user_id project_id agent_id : ℕ) (description : String)
      → Preserves
          (AttemptsWithin limit)
          (create_task uuid_string user_id project_id description agent_id)
  unfolding create_task
  create_task-AttemptsWithin uuid_string user_id project_id agent_id description =
      search (within_rules, get_project-AttemptsWithin, create-AttemptsWithin) depth 9

  retry-AttemptsWithin :
      (uuid_string : ℕ → String) (user_id task_id : ℕ)
      → Preserves (AttemptsWithin limit) (retry uuid_string user_id task_id)
  unfolding retry start_pipeline
  retry-AttemptsWithin uuid_string user_id task_id =
      read-AttemptsWithin user_id task_id _ (λ task le.
        search
          (
            within_rules,
            get-AttemptsWithin,
            get_project-AttemptsWithin,
            keeps_attempt limit task running le,
          )
          depth 9)

  job_within :
      (before after' : List Job) (job : FixJob)
      → All (JobWithin limit) (before ++ fix job ∷ after')
      → job.attempt + 1 ≤ limit
  job_within [] after' job h = h.0
  job_within (j ∷ before) after' job h = job_within before after' job h.1

module _ (settings : Settings) (uuid_text : ℕ → Text) (uuid_string : ℕ → String)
    (error_text : Error → String) (ci_failure_prompt : ℕ → String → ℕ → String → String)
    (orchestrator publisher : Dict String Json → Exec World (Dict String Json)) where
  -- However deliveries, fixes, new tasks and restarts follow on each other, no task ever uses more
  -- attempts than the limit, and no fix is started that would, if the agents that fixes run keep it
  -- so.
  pub Reachable-AttemptsWithin :
      ((state : Dict String Json)
        → Preserves (AttemptsWithin settings.max_fix_attempts) (orchestrator state))
      → ((state : Dict String Json)
          → Preserves (AttemptsWithin settings.max_fix_attempts) (publisher state))
      → (w : World)
      → Reachable settings uuid_text uuid_string error_text ci_failure_prompt orchestrator publisher
          w
      → AttemptsWithin settings.max_fix_attempts w
  Reachable-AttemptsWithin ho hp _ (initially w no_tasks no_jobs) = record {
    tasks_within = rw no_tasks tt;
    jobs_within = rw no_jobs tt;
  }
  Reachable-AttemptsWithin ho hp _ (and_then w w' r step) =
      kept w w' step (Reachable-AttemptsWithin ho hp w r)
    where
      kept :
          (w w' : World)
          → Step settings uuid_text uuid_string error_text ci_failure_prompt orchestrator publisher
              w w'
          → AttemptsWithin settings.max_fix_attempts w
          → AttemptsWithin settings.max_fix_attempts w'
      kept _ _ (delivered run w) h =
          (handle_workflow_run-AttemptsWithin settings.max_fix_attempts settings refl uuid_text
              run).holds
            w h
      kept _ _ (fixed before after' job w e) h =
          (run_devops_fix-AttemptsWithin settings.max_fix_attempts uuid_string error_text
              ci_failure_prompt orchestrator publisher ho hp job
              (job_within settings.max_fix_attempts before after' job
                (subst (All (JobWithin settings.max_fix_attempts)) e h.jobs_within))).holds
            w h
      kept _ _ (created user_id project_id agent_id description w) h =
          (create_task-AttemptsWithin settings.max_fix_attempts uuid_string user_id project_id
              agent_id description).holds
            w h
      kept _ _ (restarted user_id task_id w) h =
          (retry-AttemptsWithin settings.max_fix_attempts uuid_string user_id task_id).holds w h
