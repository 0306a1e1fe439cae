-- ===== src/Task/Tests.antt =====
-- Tests of the task repository and the task service.
use saas_ai_agents_long_term.Prelude.Text.{prefix_of}
use saas_ai_agents_long_term.Prelude.{
  String, arith, ℕ, List, none, some, [], ◌∷◌, ◌≡◌, refl, find_first, true, All, string_eq, keep,
}
use saas_ai_agents_long_term.Prelude.Dict.{Dict}
use saas_ai_agents_long_term.Effect.{ok, err, runtime, raise, ◌>>=◌}
use saas_ai_agents_long_term.Json.{Json, str}
use saas_ai_agents_long_term.World.{World, Task, running, failed, pipeline, pipeline_failed, closed}
use saas_ai_agents_long_term.Task.{get, patched, no_patch, delete, list, listed, owned_by, Patch}
use saas_ai_agents_long_term.Task.Laws.{IsPage, list_lem}
use saas_ai_agents_long_term.Task.Service.{retry, create_task, run_pipeline, build_initial_state}
use saas_ai_agents_long_term.Task.Restart.{
  over, retry-restarts, create_task_lem, run_pipeline-failed, failure_patch,
}
use saas_ai_agents_long_term.Samples.{a_world, a_task, a_project, an_id_string, an_error_text}

get_failed : get 1 7 (a_world failed) ≡ (ok (a_task failed), a_world failed)
unfolding get
get_failed = ground arith

abbrev emptied : World
emptied = record (a_world failed) { db = record (a_world failed).db { tasks = [] } }

delete_task : delete 1 7 (a_world failed) ≡ (ok tt, emptied)
unfolding delete get ◌>>=◌
delete_task = ground arith

abbrev Page : Type 0
Page =
    (page : List Task) × (total : ℕ) × (list 1 0 10 none (some failed) (a_world failed)
      ≡ (ok (page, total), a_world failed))
    × IsPage 0 10 (keep (listed 1 none (some failed)) (a_world failed).db.tasks) page total
    × All (λ t. listed 1 none (some failed) t ≡ true) page

list_example : Page
list_example = list_lem 1 0 10 none (some failed) (a_world failed)

abbrev a_patch : Patch
a_patch = record no_patch { state_patch = ("plan", str "new") ∷ [] }

retry-restarts_example :
    let fresh = patched (a_task failed) running no_patch in
    let r = retry an_id_string 1 7 (a_world failed) in
    (r.0 ≡ ok fresh)
    × (fresh.status ≡ running)
    × (fresh.attempt ≡ (a_task failed).attempt)
    × (fresh.error_message ≡ (a_task failed).error_message)
    × (find_first (owned_by 1 7) r.1.db.tasks ≡ some fresh)
    × (r.1.jobs ≡ pipeline 7 1 (build_initial_state an_id_string fresh 1 a_project) ∷ [])
retry-restarts_example =
    retry-restarts an_id_string 1 7 (a_world failed) (a_task failed) a_project (ground arith) refl
      (ground arith)

create_task_example :
    let r = create_task an_id_string 1 5 "Fix it" 3 (a_world failed) in
    (task : Task) × (r.0 ≡ ok task)
    × (task.status ≡ running)
    × (task.id ≡ 20)
    × (find_first (owned_by 1 20) r.1.db.tasks ≡ some task)
    × (r.1.jobs ≡ pipeline task.id 1 (build_initial_state an_id_string task 1 a_project) ∷ [])
create_task_example =
    create_task_lem an_id_string 1 5 3 "Fix it" (a_world failed) a_project (ground arith)

orchestrator_fails :
    raise {A = Dict String Json} runtime (a_world running) ≡ (err runtime, a_world running)
unfolding ◌>>=◌
orchestrator_fails = refl

run_pipeline_example :
    let r = run_pipeline an_error_text (λ s. raise runtime) 7 1 [] (a_world running) in
    (r.0 ≡ ok tt)
    × (find_first (owned_by 1 7) r.1.db.tasks
        ≡ over
            (find_first (owned_by 1 7) (a_world running).db.tasks)
            (λ t. patched t failed (failure_patch an_error_text runtime)))
    × (r.1.events
        ≡ (7, closed) ∷ (7, pipeline_failed (prefix_of 2000 (an_error_text runtime))) ∷ [])
run_pipeline_example =
    run_pipeline-failed an_error_text (λ s. raise runtime) 7 1 [] (a_world running)
      (a_world running) runtime orchestrator_fails
