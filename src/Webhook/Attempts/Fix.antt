-- ===== src/Webhook/Attempts/Fix.antt =====
-- A background fix keeps the attempts within the limit.
use saas_ai_agents_long_term.Prelude.{ℕ, ◌+◌, ◌≤◌, String, some, ◌≡◌, refl, string_eq}
use saas_ai_agents_long_term.Prelude.Dict.{Dict}
use saas_ai_agents_long_term.Effect.{Error, Exec}
use saas_ai_agents_long_term.Effect.Preserves.{Preserves, bind-Preserves}
use saas_ai_agents_long_term.Json.{Json}
use saas_ai_agents_long_term.World.{TaskStatus, Task, World, FixJob}
use saas_ai_agents_long_term.Task.{Patch, no_patch}
use saas_ai_agents_long_term.Task.Service.{record_failure}
use saas_ai_agents_long_term.Webhook.{
  report_fix_failure, run_devops_fix, attempt_fix, finish_fix, fix_outcome, fix_patch, record_fix,
}
use saas_ai_agents_long_term.Webhook.Attempts.{
  AttemptsWithin, within_rules, get-AttemptsWithin, scope-AttemptsWithin, patched-within,
}

module _ (limit : ℕ) where
  record_failure-AttemptsWithin :
      (user_id task_id : ℕ) (p : Patch) (n : ℕ)
      → p.attempt ≡ some n
      → n ≤ limit
      → Preserves (AttemptsWithin limit) (record_failure user_id task_id p)
  unfolding record_failure
  record_failure-AttemptsWithin user_id task_id p n e h =
      search
        (
          within_rules,
          get-AttemptsWithin,
          scope-AttemptsWithin,
          λ (t : Task) (s : TaskStatus). patched-within limit t s p n e h,
        )
        depth 9

  record_fix-AttemptsWithin :
      (job : FixJob) (urls : Dict String Json)
      → job.attempt + 1 ≤ limit
      → Preserves (AttemptsWithin limit) (record_fix job urls)
  unfolding record_fix
  record_fix-AttemptsWithin job urls le =
      search
        (
          within_rules,
          get-AttemptsWithin,
          λ (t : Task).
              patched-within limit t (fix_outcome urls) (fix_patch job urls) (job.attempt + 1) refl
                le,
        )
        depth 9

  finish_fix-AttemptsWithin :
      (job : FixJob) (urls : Dict String Json)
      → job.attempt + 1 ≤ limit
      → Preserves (AttemptsWithin limit) (finish_fix job urls)
  unfolding finish_fix
  finish_fix-AttemptsWithin job urls le =
      bind-Preserves _ _ (scope-AttemptsWithin limit _ (record_fix-AttemptsWithin job urls le))
        (λ _. search within_rules)

  -- A background fix keeps the attempts of every task, and of every fix that is under way, within
  -- the limit, if it was started within it and the agents that it runs keep them.
  pub run_devops_fix-AttemptsWithin :
      (uuid_text : ℕ → String) (error_text : Error → String)
      (ci_failure_prompt : ℕ → String → ℕ → String → String)
      (orchestrator publisher : Dict String Json → Exec World (Dict String Json))
      → ((state : Dict String Json) → Preserves (AttemptsWithin limit) (orchestrator state))
      → ((state : Dict String Json) → Preserves (AttemptsWithin limit) (publisher state))
      → (job : FixJob) → job.attempt + 1 ≤ limit
      → Preserves
          (AttemptsWithin limit)
          (run_devops_fix uuid_text error_text ci_failure_prompt orchestrator publisher job)
  unfolding run_devops_fix report_fix_failure attempt_fix
  run_devops_fix-AttemptsWithin uuid_text error_text prompt orchestrator publisher ho hp job le =
      search
        (
          within_rules,
          get-AttemptsWithin,
          scope-AttemptsWithin,
          ho,
          hp,
          λ (urls : Dict String Json). finish_fix-AttemptsWithin job urls le,
          λ (text : String).
              record_failure-AttemptsWithin job.user_id job.task_id
                (record no_patch { attempt = some (job.attempt + 1); error_message = some text })
                (job.attempt + 1) refl le,
        )
        depth 9
