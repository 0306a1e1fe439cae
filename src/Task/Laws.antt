-- ===== src/Task/Laws.antt =====
-- What the task repository promises: ownership, reading back what was written, and the listing.
use saas_ai_agents_long_term.Prelude.{
  ℕ, ◌-◌, min, String, true, not, Option, none, some, List, ◌++◌, ◌≡◌, refl, sym, ap, subst, ◌∙◌,
  ◌≢◌, inl, inr, arith, ◌==◌, nat_eq, string_eq, find_first, find_first-holds, find_first-keep-none,
  keep, keep-All, take-All, drop-All, length-take, length-drop, take-append-drop, length, take,
  drop, All, Option-cases,
}
use mathlib.Core.List.{Perm}
use saas_ai_agents_long_term.Prelude.Dict.{lookup, lookup-merge_absent}
use saas_ai_agents_long_term.Prelude.Table.{
  find_first-save_self, find_first-save_ne, newest_first, newest_first-All, newest_first-perm,
  length-newest_first, IsNewestFirst, newest_first-IsNewestFirst,
}
use saas_ai_agents_long_term.Effect.{◌>>=◌, ok, err, not_found}
use saas_ai_agents_long_term.World.{TaskStatus, Task, World, status_eq}
use saas_ai_agents_long_term.Task.{
  owned_by, get, list, listed, delete, Patch, patched, store, update_status,
}

-- A task that is read has the id that was asked for, belongs to the user who asked, and reading it
-- changes nothing.
pub get-owned :
    (user_id task_id : ℕ) (w w' : World) (task : Task)
    → get user_id task_id w ≡ (ok task, w')
    → (task.id ≡ task_id) × (task.user_id ≡ user_id) × (w' ≡ w)
unfolding get
get-owned user_id task_id w w' task h =
    ground (arith, find_first-holds (owned_by user_id task_id) w.db.tasks task)

pub get-found :
    (user_id task_id : ℕ) (w w' : World) (task : Task)
    → get user_id task_id w ≡ (ok task, w')
    → find_first (owned_by user_id task_id) w.db.tasks ≡ some task
unfolding get
get-found user_id task_id w w' task h = ground arith

-- Writing a task that the user owns is seen by the next read of that task.
pub get-update_status :
    (user_id task_id : ℕ) (w w' : World) (task : Task) (status : TaskStatus) (p : Patch)
    → get user_id task_id w ≡ (ok task, w')
    → let w₁ = (update_status task status p w').1 in
      get user_id task_id w₁ ≡ (ok (patched task status p), w₁)
unfolding get update_status patched store
get-update_status user_id task_id w w' task status p h = ground (
  arith,
  get-owned user_id task_id w w' task,
  find_first-save_self (λ (t : Task). t.id) (owned_by user_id task_id) task (patched task status p)
      w.db.tasks,
)

-- Writing a task leaves every read of another task as it was.
pub get-update_status_ne :
    (user_id task_id : ℕ) (w : World) (task : Task) (status : TaskStatus) (p : Patch)
    → task_id ≢ task.id
    → (get user_id task_id (update_status task status p w).1).0 ≡ (get user_id task_id w).0
unfolding get update_status patched store
get-update_status_ne user_id task_id w task status p h = ground (
  arith,
  find_first-save_ne (λ (t : Task). t.id) (owned_by user_id task_id) (patched task status p)
      w.db.tasks (λ x e. unfold patched in ground arith),
)

-- A deleted task cannot be read any more.
pub get-delete :
    (user_id task_id : ℕ) (w w' : World)
    → delete user_id task_id w ≡ (ok tt, w')
    → (get user_id task_id w').0 ≡ err not_found
unfolding delete get ◌>>=◌
get-delete user_id task_id w w' h =
    elim (Option-cases (find_first (owned_by user_id task_id) w.db.tasks)) [
      | inl missing ↦ ground arith
      | inr (task, found) ↦ ground (
        arith,
        find_first-keep-none (owned_by user_id task_id) (λ t. not (t.id == task.id)) w.db.tasks
            (λ x p.
              ground (arith, find_first-holds (owned_by user_id task_id) w.db.tasks task found)),
      )
    ]

-- The matching tasks, newest first, are those before the page, the page, and those after it.
pub record IsPage (offset limit : ℕ) (matching page : List Task) (total : ℕ) : Type 0 where
  pub before : List Task
  pub after : List Task
  pub same_rows : Perm (before ++ (page ++ after)) matching
  pub ordered : IsNewestFirst (λ t. t.created_at) (before ++ (page ++ after))
  pub skipped : length before ≡ min offset total
  pub size : length page ≡ min limit (total - offset)
  pub counted : total ≡ length matching

-- `list` changes nothing and returns the page that follows the first `offset` tasks, as long as the
-- limit and the rest allow, of the user's own tasks that meet the filters, all of them and each
-- once, newest first, and the number of all such tasks.
pub list_lem :
    (user_id offset limit : ℕ) (project_id : Option ℕ) (status : Option TaskStatus) (w : World)
    → (page : List Task) × (total : ℕ) × (list user_id offset limit project_id status w
        ≡ (ok (page, total), w))
      × IsPage offset limit (keep (listed user_id project_id status) w.db.tasks) page total
      × All (λ t. listed user_id project_id status t ≡ true) page
unfolding list
list_lem user_id offset limit project_id status w = (
  take limit (drop offset sorted),
  length rows,
  refl,
  record {
    before = take offset sorted;
    after = drop limit (drop offset sorted);
    same_rows = subst (λ xs. Perm xs rows) (sym parts) (newest_first-perm created rows);
    ordered = subst (IsNewestFirst created) (sym parts) (newest_first-IsNewestFirst created rows);
    skipped = length-take offset sorted ∙ ap (min offset) same_length;
    size =
        length-take limit (drop offset sorted)
        ∙ ap (min limit) (length-drop offset sorted ∙ ap (λ n. n - offset) same_length);
    counted = refl;
  },
  take-All _ limit _
      (drop-All _ offset sorted (newest_first-All created _ rows (keep-All _ w.db.tasks))),
)
  where
    created : Task → ℕ
    created t = t.created_at

    rows : List Task
    rows = keep (listed user_id project_id status) w.db.tasks

    sorted : List Task
    sorted = newest_first created rows

    same_length : length sorted ≡ length rows
    same_length = length-newest_first created rows

    parts :
        take offset sorted ++ (take limit (drop offset sorted) ++ drop limit (drop offset sorted))
        ≡ sorted
    parts =
        ap (λ xs. take offset sorted ++ xs) (take-append-drop limit (drop offset sorted))
        ∙ take-append-drop offset sorted

-- A patch of the state keeps the value of every key that it does not have.
pub patched_state :
    (task : Task) (status : TaskStatus) (p : Patch) (k : String)
    → lookup k p.state_patch ≡ none
    → lookup k (patched task status p).state ≡ lookup k task.state
unfolding patched
patched_state task status p k h = lookup-merge_absent k task.state p.state_patch h
