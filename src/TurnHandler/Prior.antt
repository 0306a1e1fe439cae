-- ===== src/TurnHandler/Prior.antt =====
-- What a turn leaves for the next one (src/agents/chat/turn_handler.py).
use saas_ai_agents_long_term.Prelude.{
  ℕ, String, none, List, [], ◌∷◌, ◌≡◌, refl, ap, subst, ◌∙◌, string_eq, nat_eq, All, find_first-All,
}
use saas_ai_agents_long_term.Prelude.Dict.{Dict, lookup, lookup-merge_absent}
use saas_ai_agents_long_term.Prelude.Table.{save-All}
use saas_ai_agents_long_term.Prelude.Text.{prefix_of}
use saas_ai_agents_long_term.Effect.{Error, Result, ok, err, Exec, continue, ◌>>=◌}
use saas_ai_agents_long_term.Effect.Preserves.{
  Preserves, preserves_rules, transaction-Preserves, catch-returns, bind-Preserves,
}
use saas_ai_agents_long_term.Json.{Json}
use saas_ai_agents_long_term.World.{
  World, Task, TaskStatus, Event, with_db, publish, publish_failed,
}
use saas_ai_agents_long_term.Task.{get, owned_by, update_status, patched, store, Patch}
use saas_ai_agents_long_term.Task.Laws.{get-found}
use saas_ai_agents_long_term.Task.Service.{db_scope}
use saas_ai_agents_long_term.TurnHandler.{
  PublishRequest, PublishResult, Published, TurnResult, set_status, publish_repos, record_turn,
  publish_turn, on_turn_finished,
}

-- A callback that is run after a turn never raises.
module _ (publisher : PublishRequest → Result PublishResult) (error_text : Error → String)
    (task_id user_id : ℕ) (turn : TurnResult) where
  -- The callback that runs after a turn returns, whatever the publisher and the database raise.
  pub on_turn_finished-returns :
      (w : World)
      → (a : Unit {0}) × ((on_turn_finished publisher error_text task_id user_id turn w).0 ≡ ok a)
  unfolding on_turn_finished publish
  on_turn_finished-returns w =
      catch-returns (publish_turn publisher error_text task_id user_id turn)
        (λ e. publish task_id (publish_failed none (prefix_of 500 (error_text e)))) w
        (λ e t. (tt, refl))

abbrev pub NoPrior : Task → Type 0
NoPrior t = lookup "pr_urls" t.state ≡ none

-- No task has pull requests in the place where a turn looks for them.
abbrev pub AllNoPrior : World → Type 0
AllNoPrior w = All NoPrior w.db.tasks

publish-NoPrior : (task_id : ℕ) (e : Event) → Preserves AllNoPrior (publish task_id e)
unfolding publish
publish-NoPrior task_id e = record { holds = λ w h. h }

get_then-NoPrior {κ} :
    {A : Type κ} (user_id task_id : ℕ) (f : Task → Exec World A)
    → ((t : Task) → NoPrior t → Preserves AllNoPrior (f t))
    → Preserves AllNoPrior (get user_id task_id >>= f)
unfolding get ◌>>=◌
get_then-NoPrior user_id task_id f hf = record {
  holds = λ w h. go w h (get user_id task_id w) refl;
}
  where
    go :
        (w : World)
        → AllNoPrior w
        → (r : Result Task × World) → get user_id task_id w ≡ r
        → AllNoPrior (continue r f).1
    go w h (ok t, w') e =
        (hf t (
            find_first-All (owned_by user_id task_id) NoPrior w.db.tasks t h
              (get-found user_id task_id w w' t e))).holds
          w' (subst AllNoPrior (ap (λ o. o.1) e) h)
    go w h (err x, w') e = subst AllNoPrior (ap (λ o. o.1) e) h

get-NoPrior : (user_id task_id : ℕ) → Preserves AllNoPrior (get user_id task_id)
unfolding get
get-NoPrior user_id task_id = record { holds = λ w h. h }

update_status-NoPrior :
    (t : Task) (status : TaskStatus) (p : Patch)
    → NoPrior t
    → lookup "pr_urls" p.state_patch ≡ none
    → Preserves AllNoPrior (update_status t status p)
unfolding update_status store patched
update_status-NoPrior t status p ht hp = record {
  holds = λ w h.
      save-All (λ (x : Task). x.id) NoPrior (patched t status p) w.db.tasks
        (lookup-merge_absent "pr_urls" t.state p.state_patch hp ∙ ht) h;
}

scope-NoPrior {ℓ} :
    {A : Type ℓ} (m : Exec World A) → Preserves AllNoPrior m → Preserves AllNoPrior (db_scope m)
scope-NoPrior m hm = transaction-Preserves (λ (w : World). w.db) with_db m (λ s₀ s h₀ h. h₀) hm

ruleset prior_rules = (preserves_rules, publish-NoPrior, get_then-NoPrior, scope-NoPrior)

-- The patches of a turn have another key.
turn_patch-key :
    (j : Json) → lookup {K = String} {V = Json} "pr_urls" (("branch_names", j) ∷ []) ≡ none
unfolding lookup string_eq
turn_patch-key j = refl

no_patch-key : lookup {K = String} {V = Json} "pr_urls" [] ≡ none
unfolding lookup
no_patch-key = refl

set_status-NoPrior :
    (task_id user_id : ℕ) (status : TaskStatus)
    → Preserves AllNoPrior (set_status task_id user_id status)
unfolding set_status
set_status-NoPrior task_id user_id status =
    search (prior_rules, update_status-NoPrior, no_patch-key) depth 14

module _ (publisher : PublishRequest → Result PublishResult) (error_text : Error → String)
    (task_id user_id : ℕ) (turn : TurnResult) where
  publish_repos-NoPrior :
      (state : Dict String Json) (repos : List Json) (p : Published)
      → Preserves AllNoPrior (publish_repos publisher error_text task_id user_id turn state repos p)
  unfolding publish_repos
  publish_repos-NoPrior state [] p = search prior_rules
  publish_repos-NoPrior state (repo ∷ rest) p = bind-Preserves _ _ (search prior_rules) (λ meta.
      bind-Preserves _ _ (search prior_rules depth 16)
        (λ next. publish_repos-NoPrior state rest next))

  record_turn-NoPrior :
      (p : Published)
      → Preserves AllNoPrior (record_turn publisher error_text task_id user_id turn p)
  unfolding record_turn
  record_turn-NoPrior p = search (prior_rules, update_status-NoPrior, turn_patch-key) depth 14

  -- A turn, whatever it publishes, writes no pull request into the state of a task, which is where
  -- the next turn looks for it: if no state has the key, none has it afterwards.
  pub on_turn_finished-AllNoPrior :
      (w : World)
      → AllNoPrior w
      → AllNoPrior (on_turn_finished publisher error_text task_id user_id turn w).1
  unfolding on_turn_finished publish_turn
  on_turn_finished-AllNoPrior w h =
      let keeps : Preserves AllNoPrior
          (on_turn_finished publisher error_text task_id user_id turn) =
        search
          (prior_rules, set_status-NoPrior, publish_repos-NoPrior, record_turn-NoPrior, get-NoPrior)
          depth 24 in
      keeps.holds w h
