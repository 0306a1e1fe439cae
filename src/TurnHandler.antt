-- ===== src/TurnHandler.antt =====
-- What happens after a turn of the agent (src/agents/chat/turn_handler.py): each repository of the task
-- is published. The publisher is an argument: what it returns or raises for a request. `error_text` is
-- `str` of an exception.
pub mod Prior
mod Tests
use saas_ai_agents_long_term.Prelude.{
  ℕ, String, Bool, true, false, not, ◌||◌, Option, none, some, List, [], ◌∷◌, ◌==◌, string_eq,
  if◌then◌else◌,
}
use saas_ai_agents_long_term.Prelude.Dict.{Dict, lookup, insert}
use saas_ai_agents_long_term.Prelude.Text.{prefix_of}
use saas_ai_agents_long_term.Effect.{
  Error, value_error, Result, ok, err, Exec, pure, lift, catch, cond, ◌>>=◌, ◌>>◌,
}
use saas_ai_agents_long_term.Json.{
  Json, str, arr, obj, null, Items, nil, item, entries, truthy, object,
}
use saas_ai_agents_long_term.World.{
  World, TaskStatus, publishing, publish, publish_started, publish_finished, publish_failed,
  status_changed,
}
use saas_ai_agents_long_term.Task.{get, update_status, no_patch, Patch}
use saas_ai_agents_long_term.Task.Service.{db_scope}

pub record TurnResult : Type 0 where
  pub turn_index : ℕ
  pub assistant_text : String

-- What the publisher is passed.
pub record PublishRequest : Type 0 where
  pub workspace_path : Json
  pub repo_meta : Dict String Json
  pub user_id : ℕ
  pub task_id : ℕ
  pub task_description : Json
  pub branch_name : Option Json
  pub prior_pr_url : Option Json
  pub commit_summary : String

pub record PublishResult : Type 0 where
  pub did_publish : Bool
  pub branch_name : Option String
  pub pr_url : Option String

-- The branches and the pull requests of the repositories, by their names.
pub record Published : Type 0 where
  pub branches : Dict String Json
  pub pr_urls : Dict String Json

abbrev or_null : Option Json → Json
or_null none = null
or_null (some j) = j

-- `dict(value or {})`
abbrev as_dict : Json → Result (Dict String Json)
as_dict (obj fs) = ok (entries fs)
as_dict j = if truthy j then err value_error else ok []

abbrev elements : Items → List Json
elements nil = []
elements (item j js) = j ∷ elements js

-- What has no `get` raises when the loop comes to it.
abbrev pub as_meta : Json → Result (Dict String Json)
as_meta (obj fs) = ok (entries fs)
as_meta j = err value_error

-- `value or []`
abbrev as_repos : Json → Result (List Json)
as_repos (arr js) = ok (elements js)
as_repos j = if truthy j then err value_error else ok []

abbrev name_of : Option Json → String
name_of (some (str s)) = s
name_of _ = ""

abbrev set_text : String → Option String → Dict String Json → Dict String Json
set_text name none d = d
set_text name (some s) d = if s == "" then d else insert name (str s) d

abbrev texts : Dict String Json → Dict String String
texts [] = []
texts ((k, str s) ∷ d) = (k, s) ∷ texts d
texts ((k, j) ∷ d) = texts d

unfoldable pub set_status : ℕ → ℕ → TaskStatus → Exec World (Unit {0})
set_status task_id user_id status = do
  db_scope (do task ← get user_id task_id; update_status task status no_patch; pure (tt {0}))
  publish task_id (status_changed status)

module _ (publisher : PublishRequest → Result PublishResult) (error_text : Error → String)
    (task_id user_id : ℕ) (turn : TurnResult) where
  abbrev pub request_for : Dict String Json → Dict String Json → String → Published → PublishRequest
  request_for state meta name p = record {
    workspace_path = or_null (lookup "workspace_path" state);
    repo_meta = meta;
    user_id = user_id;
    task_id = task_id;
    task_description = or_null (lookup "description" state);
    branch_name = lookup name p.branches;
    prior_pr_url = lookup name p.pr_urls;
    commit_summary = turn.assistant_text;
  }

  abbrev pub noted : String → PublishResult → Published → Published
  noted name result p = record {
    branches = set_text name result.branch_name p.branches;
    pr_urls = set_text name result.pr_url p.pr_urls;
  }

  abbrev after_publish : String → Published → PublishResult → Exec World Published
  after_publish name p result =
      cond result.did_publish
        (do
          publish task_id (publish_finished name result.branch_name result.pr_url turn.turn_index)
          pure (noted name result p))
        (pure p)

  abbrev publish_repo :
      Dict String Json → Dict String Json → String → Published → Exec World Published
  publish_repo state meta name p =
      catch
        (do result ← lift (publisher (request_for state meta name p)); after_publish name p result)
        (λ e. do
          publish task_id (publish_failed (some name) (prefix_of 500 (error_text e)))
          pure p)

  -- A repository without a name is passed over; one that fails does not stop the others.
  unfoldable pub publish_repos : Dict String Json → List Json → Published → Exec World Published
  publish_repos state [] p = pure p
  publish_repos state (repo ∷ rest) p = do
    meta ← lift (as_meta repo)
    let name = name_of (lookup "name" meta)
    next ← cond (name == "") (pure p) (publish_repo state meta name p)
    publish_repos state rest next

  abbrev pub turn_patch : Published → Patch
  turn_patch p = record no_patch {
    state_patch = ("branch_names", object p.branches) ∷ [];
    pr_urls_patch = texts p.pr_urls;
  }

  -- The status is left to the session.
  unfoldable pub record_turn : Published → Exec World (Unit {0})
  record_turn p =
      db_scope
        (do task ← get user_id task_id; update_status task task.status (turn_patch p); pure tt)

  abbrev has_none : List Json → Bool
  has_none [] = true
  has_none (m ∷ ms) = false

  abbrev publish_all : Dict String Json → List Json → Exec World (Unit {0})
  publish_all state repos = do
    branches ← lift (as_dict (or_null (lookup "branch_names" state)))
    pr_urls ← lift (as_dict (or_null (lookup "pr_urls" state)))
    set_status task_id user_id publishing
    publish task_id (publish_started turn.turn_index)
    published ← publish_repos state repos (record { branches = branches; pr_urls = pr_urls })
    record_turn published

  unfoldable pub publish_turn : Exec World (Unit {0})
  publish_turn = do
    task ← db_scope (get user_id task_id)
    repos ← lift (as_repos (or_null (lookup "repos" task.state)))
    cond (has_none repos || not (truthy (or_null (lookup "workspace_path" task.state)))) (pure tt)
        (publish_all task.state repos)

  -- `_on_turn_finished`
  unfoldable pub on_turn_finished : Exec World (Unit {0})
  on_turn_finished =
      catch publish_turn (λ e. publish task_id (publish_failed none (prefix_of 500 (error_text e))))
