-- ===== src/Task.antt =====
-- The task repository (src/db/queries/task_query.py). A `Task` object that a session hands out is
-- the row itself, so writing to it writes the row back.
pub mod Service
pub mod Laws
mod Tests
pub mod Restart
use saas_ai_agents_long_term.Prelude.{
  ℕ, suc, String, Bool, true, not, ◌&&◌, Option, none, some, List, [], ◌∷◌, if◌then◌else◌, ◌==◌,
  nat_eq, string_eq, find_first, keep, exists, length, take, drop,
}
use saas_ai_agents_long_term.Prelude.Dict.{Dict, merge}
use saas_ai_agents_long_term.Prelude.Table.{save, newest_first}
use saas_ai_agents_long_term.Effect.{not_found, Result, ok, err, Exec, modify, ◌>>=◌}
use saas_ai_agents_long_term.Json.{Json}
use saas_ai_agents_long_term.World.{status_eq, TaskStatus, Task, Project, World, with_db}

abbrev pub owned_by : ℕ → ℕ → Task → Bool
owned_by user_id task_id t = t.id == task_id && t.user_id == user_id

abbrev pub or_not_found {ℓ} : {A : Type ℓ} → Option A → Result A
or_not_found none = err not_found
or_not_found (some a) = ok a

unfoldable pub get : ℕ → ℕ → Exec World Task
get user_id task_id w = (or_not_found (find_first (owned_by user_id task_id) w.db.tasks), w)

-- The database fills in the id, the time stamp and the column defaults.
abbrev pub new_task : ℕ → ℕ → ℕ → ℕ → String → TaskStatus → Task
new_task id user_id project_id agent_id description status = record {
  id = id;
  user_id = user_id;
  project_id = project_id;
  agent_id = agent_id;
  description = description;
  status = status;
  attempt = 0;
  state = [];
  pr_urls = [];
  error_message = none;
  sdk_session_id = none;
  created_at = id;
}

unfoldable pub create : ℕ → ℕ → ℕ → String → TaskStatus → Exec World Task
create user_id project_id agent_id description status w =
    let task = new_task w.db.next_id user_id project_id agent_id description status in
    if exists (λ (p : Project). p.id == project_id && p.user_id == user_id) w.db.projects
    then (
      ok task,
      record w { db = record w.db { tasks = task ∷ w.db.tasks; next_id = suc w.db.next_id } },
    )
    else (err not_found, w)

abbrev matches {ℓ} : {A : Type ℓ} → (A → Bool) → Option A → Bool
matches p none = true
matches p (some a) = p a

-- Both queries of `list` have the same conditions.
abbrev pub listed : ℕ → Option ℕ → Option TaskStatus → Task → Bool
listed user_id project_id status t =
    t.user_id == user_id
    && matches (λ p. t.project_id == p) project_id
    && matches (λ s. t.status == s) status

unfoldable pub list : ℕ → ℕ → ℕ → Option ℕ → Option TaskStatus → Exec World (List Task × ℕ)
list user_id offset limit project_id status w =
    let rows = keep (listed user_id project_id status) w.db.tasks in
    (ok (take limit (drop offset (newest_first (λ t. t.created_at) rows)), length rows), w)

unfoldable pub delete : ℕ → ℕ → Exec World (Unit {0})
delete user_id task_id = do
  task ← get user_id task_id
  modify (λ w. with_db (record w.db { tasks = keep (λ t. not (t.id == task.id)) w.db.tasks }) w)

-- The arguments of `update_status` that may be left out.
pub record Patch : Type 0 where
  pub attempt : Option ℕ
  pub error_message : Option String
  pub state_patch : Dict String Json
  pub pr_urls_patch : Dict String String

abbrev pub no_patch : Patch
no_patch = record { attempt = none; error_message = none; state_patch = []; pr_urls_patch = [] }

abbrev pub given {ℓ} : {A : Type ℓ} → Option A → A → A
given none old = old
given (some a) old = a

abbrev given_some {ℓ} : {A : Type ℓ} → Option A → Option A → Option A
given_some none old = old
given_some (some a) old = some a

-- An empty patch is falsy and is skipped, which is what merging it does.
unfoldable pub patched : Task → TaskStatus → Patch → Task
unfolding merge
patched task status p = record task {
  status = status;
  attempt = given p.attempt task.attempt;
  error_message = given_some p.error_message task.error_message;
  state = merge task.state p.state_patch;
  pr_urls = merge task.pr_urls p.pr_urls_patch;
}

unfoldable pub store : Task → World → World
unfolding save
store task w = with_db (record w.db { tasks = save (λ (t : Task). t.id) task w.db.tasks }) w

unfoldable pub update_status : Task → TaskStatus → Patch → Exec World Task
update_status task status p w = (ok (patched task status p), store (patched task status p) w)
