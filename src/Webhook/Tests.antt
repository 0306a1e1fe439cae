-- ===== src/Webhook/Tests.antt =====
-- Tests of the webhook and of the background fix.
use saas_ai_agents_long_term.Prelude.{
  String, some, [], ◌∷◌, ◌++◌, ◌≡◌, refl, ◌⊎◌, arith, string_eq, nat_eq,
}
use saas_ai_agents_long_term.Prelude.Dict.{Dict}
use saas_ai_agents_long_term.Prelude.Text.{Text, codes, strip_prefix}
use saas_ai_agents_long_term.Effect.{ok, err, Exec, pure, value_error}
use saas_ai_agents_long_term.Effect.Preserves.{pure-Preserves}
use saas_ai_agents_long_term.Json.{Json}
use saas_ai_agents_long_term.World.{World, TaskStatus, FixJob, fix, running, awaiting_ci, fixing}
use saas_ai_agents_long_term.Webhook.{
  Settings, WorkflowRun, Conclusion, success, failure, handle_workflow_run, fix_job, run_devops_fix,
  process_github_event,
}
use saas_ai_agents_long_term.Webhook.Branch.{
  find_task_for_branch, match_branch, hex_digits, rest_of_line,
}
use saas_ai_agents_long_term.Webhook.Attempts.{AttemptsWithin}
use saas_ai_agents_long_term.Webhook.Reaction.{one_fix_per_failure}
use saas_ai_agents_long_term.Webhook.Outcome.{EndedOrGone, run_devops_fix_lem}
use saas_ai_agents_long_term.Webhook.Signature.{
  Authentic, Refused, process_github_event-Authentic, match_branch-published,
}
use saas_ai_agents_long_term.Webhook.Form.{BranchOf, match_branch-BranchOf}
use saas_ai_agents_long_term.Task.Service.{create_task}
use saas_ai_agents_long_term.Webhook.System.{
  Reachable, initially, and_then, created, Reachable-AttemptsWithin,
}
use saas_ai_agents_long_term.Samples.{
  a_world, a_task, an_id_text, an_id_string, an_error_text, a_prompt,
}

abbrev settings : Settings
settings = record { webhook_secret = codes "s3cret"; max_fix_attempts = 3 }

abbrev a_run : Conclusion → WorkflowRun
a_run conclusion = record {
  action = "completed";
  run_id = 99;
  head_branch = codes "clyde/0a1b2c3d/site";
  conclusion = conclusion;
  repo_full_name = "acme/site";
}

found :
    (status : TaskStatus)
    → find_task_for_branch an_id_text (a_world status).db.tasks (codes "clyde/0a1b2c3d/site")
      ≡ some (a_task status)
unfolding find_task_for_branch match_branch hex_digits rest_of_line strip_prefix
found status = ground arith

one_fix_example :
    let w' = (handle_workflow_run settings an_id_text (a_run failure) (a_world awaiting_ci)).1 in
    (w'.jobs ≡ fix (fix_job (a_run failure) (a_task awaiting_ci)) ∷ [])
    × (handle_workflow_run settings an_id_text (a_run success) w' ≡ (ok tt, w'))
one_fix_example =
    one_fix_per_failure settings an_id_text (a_run failure) (a_world awaiting_ci)
      (a_task awaiting_ci) refl refl (found awaiting_ci) (λ e. refl, tt) refl refl (omega arith)
      (a_run success) refl

abbrev a_fix : FixJob
a_fix = fix_job (a_run failure) (a_task fixing)

abbrev no_update : Dict String Json → Exec World (Dict String Json)
no_update state = pure []

fix_ends_example :
    let r =
      run_devops_fix an_id_string an_error_text a_prompt no_update no_update a_fix
        (a_world fixing) in
    (r.0 ≡ ok tt) × EndedOrGone 1 7 1 r.1
fix_ends_example =
    run_devops_fix_lem an_id_string an_error_text a_prompt no_update no_update a_fix
      (a_world fixing)

abbrev no_digest : Text → Text → Text
no_digest secret body = codes "00"

process_github_event-Authentic_example :
    Refused settings no_digest (codes "sha256=é") (a_world running) (
      process_github_event settings an_id_text no_digest
        (λ b. err value_error)
        []
        (codes "sha256=é")
        "ping"
        (a_world running))
    ⊎ Authentic settings no_digest [] (codes "sha256=é")
process_github_event-Authentic_example =
    process_github_event-Authentic settings no_digest an_id_text (λ b. err value_error) []
      (codes "sha256=é") "ping" (a_world running)

branch_example :
    (match_branch (codes "clyde/" ++ codes "0a1b2c3d" ++ b'/' ∷ codes "site")
      ≡ some (codes "0a1b2c3d", codes "site"))
    × (match_branch (codes "clyde/" ++ codes "0a1b2c3d" ++ b'/' ∷ codes "site\n")
        ≡ some (codes "0a1b2c3d", codes "site"))
branch_example =
    match_branch-published (codes "0a1b2c3d") (codes "ite") b's' refl
      (refl, (refl, (refl, (refl, (refl, (refl, (refl, (refl, tt))))))))
      (ground arith, (ground arith, (ground arith, (ground arith, tt))))

a_match : match_branch (codes "clyde/0a1b2c3d/site") ≡ some (codes "0a1b2c3d", codes "site")
unfolding match_branch hex_digits rest_of_line strip_prefix
a_match = ground arith

match_branch-BranchOf_example :
    BranchOf (codes "clyde/0a1b2c3d/site") (codes "0a1b2c3d") (codes "site")
match_branch-BranchOf_example =
    match_branch-BranchOf (codes "clyde/0a1b2c3d/site") (codes "0a1b2c3d") (codes "site") a_match

abbrev blank : World
blank = record (a_world running) { db = record (a_world running).db { tasks = [] } }

abbrev with_task : World
with_task = (create_task an_id_string 1 5 "Fix it" 3 blank).1

with_task_reachable :
    Reachable settings an_id_text an_id_string an_error_text a_prompt no_update no_update with_task
with_task_reachable =
    and_then blank with_task (initially blank refl refl) (created 1 5 3 "Fix it" blank)

system_example : AttemptsWithin 3 with_task
system_example =
    Reachable-AttemptsWithin settings an_id_text an_id_string an_error_text a_prompt no_update
      no_update (λ state. pure-Preserves []) (λ state. pure-Preserves []) with_task
      with_task_reachable
