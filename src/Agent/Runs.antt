-- ===== src/Agent/Runs.antt =====
-- The operations on agents and catalogs, and runs of them (src/services/agent_service.py,
-- src/db/queries/agent_query.py). A request commits what it wrote if it returns, and nothing if it raises
-- (src/db/session.py).
use saas_ai_agents_long_term.Prelude.{
  ℕ, suc, ◌<◌, String, Bool, true, false, not, Option, none, some, List, [], ◌∷◌, ◌≡◌, arith, ◌==◌,
  nat_eq, keep-keeps, All,
}
use saas_ai_agents_long_term.Effect.{
  Error, Result, ok, err, Exec, pure, gets, modify, cond, ◌>>=◌, ◌>>◌,
}
use saas_ai_agents_long_term.Effect.Preserves.{
  Preserves, preserves_rules, bind-Preserves, gets-Preserves, guard-Preserves, pure-Preserves,
  raise-Preserves,
}
use saas_ai_agents_long_term.Agent.{
  Agent, Rows, Session, with_current, flush, get_agent, get_default, list_agents, get_link,
  delete_agent, count_tasks, set_default, remove_agent,
}
use saas_ai_agents_long_term.Agent.Links.{
  link_subagent, unlink_subagent, add_mcp_to_link, remove_mcp_from_link, copy_default_mcps_for_link,
}
use saas_ai_agents_long_term.Agent.Catalog.{
  get_subagent, get_many, get_server, list_active_subagents, create_subagent,
}
use saas_ai_agents_long_term.Agent.Service.{
  link_all, clear_listed, create_with, update_with, delete_with, attach_subagent, detach_subagent,
  add_mcp, remove_mcp, obtain, or_raise_error, auto_provision_default, or_provision,
  resolve_agent_for_task, undefault_listed,
}
use saas_ai_agents_long_term.Agent.Apart.{Demotes, map-Pairwise, keep-Pairwise}
use saas_ai_agents_long_term.Agent.Sound.{
  SoundRows, Sound, Old, Held, HeldBy, HeldBy-continue, modify-Sound, flush-Sound,
  create_agent-Sound, update_agent-Sound, get_agent-HeldBy, set_default-HeldBy, map-Old, older,
}

-- Reading changes nothing.
module _ (user_id id : ℕ) where
  get_agent-Sound : Preserves Sound (get_agent user_id id)
  unfolding get_agent
  get_agent-Sound = record { holds = λ s h. h }

  get_link-Sound : Preserves Sound (get_link user_id id)
  unfolding get_link
  get_link-Sound = record { holds = λ s h. h }

list_agents-Sound : (user_id : ℕ) → Preserves Sound (list_agents user_id)
unfolding list_agents
list_agents-Sound user_id = record { holds = λ s h. h }

get_default-Sound : (user_id : ℕ) → Preserves Sound (get_default user_id)
unfolding get_default
get_default-Sound user_id = record { holds = λ s h. h }

get_many-Sound : (ids : List ℕ) → Preserves Sound (get_many ids)
unfolding get_many
get_many-Sound ids = record { holds = λ s h. h }

get_subagent-Sound : (id : ℕ) → Preserves Sound (get_subagent id)
unfolding get_subagent
get_subagent-Sound id = record { holds = λ s h. h }

get_server-Sound : (id : ℕ) → Preserves Sound (get_server id)
unfolding get_server
get_server-Sound id = record { holds = λ s h. h }

count_tasks-Sound : (id : ℕ) → Preserves Sound (count_tasks id)
unfolding count_tasks
count_tasks-Sound id = record { holds = λ s h. h }

list_active-Sound :
    (name_le : String → String → Bool) → Preserves Sound (list_active_subagents name_le)
unfolding list_active_subagents
list_active-Sound name_le = record { holds = λ s h. h }

-- Writing to the links and the catalogs leaves the agents alone.
same_agents :
    (rows rows' : Rows)
    → rows'.agents ≡ rows.agents
    → rows'.next_id ≡ rows.next_id
    → SoundRows rows
    → SoundRows rows'
same_agents rows rows' e n h = record { apart = rw e h.apart; old = rw (e, n) h.old }

-- A fresh row of another table.
module _ {ℓ} {A : Type ℓ} (e : Error) (breaks : Rows → Rows → Bool) (write : Rows → Rows → Rows)
    (row : Rows → A) where
  flush_then-Sound :
      ((seen rows : Rows) → SoundRows rows → SoundRows (write seen rows))
      → Preserves Sound (do
        seen ← gets (λ (s : Session). s.current)
        flush e (breaks seen) (write seen)
        pure (row seen))
  flush_then-Sound h = bind-Preserves _ _ (gets-Preserves (λ (s : Session). s.current)) (λ seen.
      bind-Preserves _ _ (flush-Sound e (breaks seen) (write seen) (λ rows free. h seen rows))
        (λ u. pure-Preserves (row seen)))

later : (rows : Rows) → SoundRows rows → All (λ (a : Agent). a.id < suc rows.next_id) rows.agents
later rows h = older rows.next_id (suc rows.next_id) rows.agents (omega arith) h.old

link_subagent-Sound : (a b n : ℕ) → Preserves Sound (link_subagent a b n)
unfolding link_subagent
link_subagent-Sound a b n =
    flush_then-Sound _ _ _ _ (λ seen rows h. record { apart = h.apart; old = later rows h })

create_subagent-Sound :
    (name display_name description system_prompt model : String) (sort_order : ℕ) (is_active : Bool)
    → Preserves Sound
        (create_subagent name display_name description system_prompt model sort_order is_active)
unfolding create_subagent
create_subagent-Sound name display_name description system_prompt model sort_order is_active =
    flush_then-Sound _ _ _ _ (λ seen rows h. record { apart = h.apart; old = later rows h })

copy_defaults-Sound : (a b : ℕ) → Preserves Sound (copy_default_mcps_for_link a b)
unfolding copy_default_mcps_for_link ◌>>=◌
copy_defaults-Sound a b = record {
  holds = λ s h. record {
    committed = h.committed;
    current = record { apart = h.current.apart; old = h.current.old };
  };
}

unlink-Sound : (a b : ℕ) → Preserves Sound (unlink_subagent a b)
unfolding unlink_subagent ◌>>=◌
unlink-Sound a b = record {
  holds = λ s h. record {
    committed = h.committed;
    current = record { apart = h.current.apart; old = h.current.old };
  };
}

remove_mcp_from_link-Sound : (a b : ℕ) → Preserves Sound (remove_mcp_from_link a b)
unfolding remove_mcp_from_link ◌>>=◌
remove_mcp_from_link-Sound a b = record {
  holds = λ s h. record {
    committed = h.committed;
    current = record { apart = h.current.apart; old = h.current.old };
  };
}

add_mcp_to_link-Sound : (a b : ℕ) → Preserves Sound (add_mcp_to_link a b)
unfolding add_mcp_to_link
add_mcp_to_link-Sound a b =
    bind-Preserves _ _ (flush-Sound _ _ _ (λ rows free h. record { apart = h.apart; old = h.old }))
      (λ u. pure-Preserves _)

removed-Sound :
    (id : ℕ)
    → Preserves Sound (modify (λ (s : Session). with_current (remove_agent id s.current) s))
removed-Sound id = modify-Sound (remove_agent id) (λ rows h. record {
  apart = keep-Pairwise (λ (x : Agent). not (x.id == id)) rows.agents h.apart;
  old = keep-keeps (Old rows) (λ (x : Agent). not (x.id == id)) rows.agents h.old;
})

delete_agent-Sound : (a : Agent) → Preserves Sound (delete_agent a)
unfolding delete_agent
delete_agent-Sound a =
    bind-Preserves _ _ (count_tasks-Sound a.id)
      (λ n. bind-Preserves _ _ (guard-Preserves _ _) (λ u. removed-Sound a.id))

ruleset agent_rules = (
  preserves_rules, get_agent-Sound, get_link-Sound, list_agents-Sound, get_default-Sound,
  get_many-Sound, get_subagent-Sound, get_server-Sound, list_active-Sound, create_agent-Sound,
  link_subagent-Sound, copy_defaults-Sound, unlink-Sound, remove_mcp_from_link-Sound,
  add_mcp_to_link-Sound, delete_agent-Sound,
)

link_all-Sound : (id n : ℕ) (ids : List ℕ) → Preserves Sound (link_all id n ids)
unfolding link_all
link_all-Sound id n [] = search agent_rules
link_all-Sound id n (x ∷ xs) =
    bind-Preserves _ _ (link_subagent-Sound id x n)
      (λ l. bind-Preserves _ _ (copy_defaults-Sound l.id x) (λ u. link_all-Sound id (suc n) xs))

undefault_listed-Demotes : (existing : List Agent) → Demotes (undefault_listed existing)
undefault_listed-Demotes existing = record {
  id = λ a. ground arith;
  user_id = λ a. ground arith;
  name = λ a. ground arith;
  is_default = λ a e. ground arith;
}

clear_listed-Sound :
    (existing : List Agent)
    → Preserves Sound (modify (λ (s : Session). with_current (clear_listed existing s.current) s))
clear_listed-Sound existing = modify-Sound (clear_listed existing) (λ rows h. record {
  apart =
      map-Pairwise (undefault_listed existing) rows.agents (undefault_listed-Demotes existing)
        h.apart;
  old =
      map-Old (undefault_listed existing) rows.next_id rows.agents
        (undefault_listed-Demotes existing) h.old;
})

create_with-Sound :
    (user_id : ℕ) (name display_name : String) (ids : List ℕ) (description : Option String)
    (is_default : Bool)
    → Preserves Sound (create_with user_id name display_name ids description is_default)
unfolding create_with
create_with-Sound user_id name display_name ids description is_default =
    search (agent_rules, clear_listed-Sound, link_all-Sound) depth 20

update_with-Sound :
    (user_id agent_id : ℕ) (name display_name description : Option String) (is_default : Bool)
    → Preserves Sound (update_with user_id agent_id name display_name description is_default)
unfolding update_with ◌>>=◌
update_with-Sound user_id agent_id name display_name description is_default = record {
  holds = λ s sound.
      HeldBy-continue (get_agent user_id agent_id s) _ (get_agent-HeldBy user_id agent_id s sound)
        (λ a t h held.
          HeldBy-continue (cond is_default (set_default user_id agent_id) (pure a) t) _
            (go is_default a t h held) (λ b u k. update_agent-Sound b _ u k));
}
  where
    go :
        (b : Bool) (a : Agent) (t : Session)
        → Sound t
        → Held a t
        → HeldBy (cond b (set_default user_id agent_id) (pure a) t)
    go true a t h held = set_default-HeldBy user_id agent_id t h
    go false a t h held = (h, held)

or_raise-Sound :
    (name_le : String → String → Bool) (e : Error) (a : Option Agent)
    → Preserves Sound (or_raise_error name_le e a)
or_raise-Sound name_le e none = raise-Preserves e
or_raise-Sound name_le e (some a) = pure-Preserves a

obtain-Sound :
    (name_le : String → String → Bool) (user_id : ℕ) → Preserves Sound (obtain name_le user_id)
obtain-Sound name_le user_id = search (agent_rules, or_raise-Sound) depth 14

auto_provision_default-Sound :
    (name_le : String → String → Bool) (user_id : ℕ)
    → Preserves Sound (auto_provision_default name_le user_id)
unfolding auto_provision_default
auto_provision_default-Sound name_le user_id =
    search (agent_rules, obtain-Sound, link_all-Sound) depth 14

resolve_agent_for_task-Sound :
    (name_le : String → String → Bool) (user_id : ℕ) (agent_id : Option ℕ)
    → Preserves Sound (resolve_agent_for_task name_le user_id agent_id)
unfolding resolve_agent_for_task
resolve_agent_for_task-Sound name_le user_id none =
    bind-Preserves _ _ (get_default-Sound user_id) (λ default. provisioned default)
  where
    provisioned : (a : Option Agent) → Preserves Sound (or_provision name_le user_id a)
    provisioned (some a) = pure-Preserves a
    provisioned none = auto_provision_default-Sound name_le user_id
resolve_agent_for_task-Sound name_le user_id (some id) = search agent_rules

pub data AgentOperation : Type 0 where
  to_create : ℕ → String → String → List ℕ → Option String → Bool → AgentOperation
  to_update : ℕ → ℕ → Option String → Option String → Option String → Bool → AgentOperation
  to_delete : ℕ → ℕ → AgentOperation
  to_attach to_detach : ℕ → ℕ → ℕ → AgentOperation
  to_add_mcp to_remove_mcp : ℕ → ℕ → ℕ → ℕ → AgentOperation
  to_resolve : ℕ → Option ℕ → AgentOperation
  to_create_subagent : String → String → String → String → String → ℕ → Bool → AgentOperation

abbrev ignoring {ℓ} : {A : Type ℓ} → Exec Session A → Exec Session (Unit {0})
ignoring m = m >>= λ a. pure tt

module _ (name_le : String → String → Bool) where
  abbrev pub operate : AgentOperation → Exec Session (Unit {0})
  operate (to_create user_id name display_name ids description is_default) =
      ignoring (create_with user_id name display_name ids description is_default)
  operate (to_update user_id id name display_name description is_default) =
      ignoring (update_with user_id id name display_name description is_default)
  operate (to_delete user_id id) = delete_with user_id id
  operate (to_attach user_id id subagent_id) = ignoring (attach_subagent user_id id subagent_id)
  operate (to_detach user_id id subagent_id) = detach_subagent user_id id subagent_id
  operate (to_add_mcp user_id id subagent_id mcp_id) = add_mcp user_id id subagent_id mcp_id
  operate (to_remove_mcp user_id id subagent_id mcp_id) = remove_mcp user_id id subagent_id mcp_id
  operate (to_resolve user_id id) = ignoring (resolve_agent_for_task name_le user_id id)
  operate
        (to_create_subagent name display_name description system_prompt model sort_order
          is_active) =
      ignoring
        (create_subagent name display_name description system_prompt model sort_order is_active)

  -- `get_session`: commit after a return, roll back after an exception.
  abbrev request_end : Result (Unit {0}) × Session → Rows
  request_end (ok tt, s) = s.current
  request_end (err e, s) = s.committed

  unfoldable pub after_requests : List AgentOperation → Rows → Rows
  after_requests [] rows = rows
  after_requests (o ∷ os) rows =
      after_requests os (request_end (operate o (record { committed = rows; current = rows })))

  operate-Sound : (o : AgentOperation) → Preserves Sound (operate o)
  unfolding delete_with attach_subagent detach_subagent add_mcp remove_mcp
  operate-Sound (to_create user_id name display_name ids description is_default) =
      search (agent_rules, create_with-Sound) depth 9
  operate-Sound (to_update user_id id name display_name description is_default) =
      search (agent_rules, update_with-Sound) depth 9
  operate-Sound (to_delete user_id id) = search agent_rules depth 9
  operate-Sound (to_attach user_id id subagent_id) = search agent_rules depth 16
  operate-Sound (to_detach user_id id subagent_id) = search agent_rules depth 9
  operate-Sound (to_add_mcp user_id id subagent_id mcp_id) = search agent_rules depth 14
  operate-Sound (to_remove_mcp user_id id subagent_id mcp_id) = search agent_rules depth 14
  operate-Sound (to_resolve user_id id) = search (agent_rules, resolve_agent_for_task-Sound) depth 9
  operate-Sound
        (to_create_subagent name display_name description system_prompt model sort_order
          is_active) =
      search (agent_rules, create_subagent-Sound) depth 9

  request_end-SoundRows : (r : Result (Unit {0}) × Session) → Sound r.1 → SoundRows (request_end r)
  request_end-SoundRows (ok tt, s) h = h.current
  request_end-SoundRows (err e, s) h = h.committed

  -- Whatever requests follow on each other, no user has two default agents or two agents of one
  -- name, ids stay distinct and below the next one, if it was so before.
  pub after_requests-SoundRows :
      (os : List AgentOperation) (rows : Rows) → SoundRows rows → SoundRows (after_requests os rows)
  unfolding after_requests
  after_requests-SoundRows [] rows h = h
  after_requests-SoundRows (o ∷ os) rows h = after_requests-SoundRows os _ (
      request_end-SoundRows _ (
        (operate-Sound o).holds (record { committed = rows; current = rows })
          (record { committed = h; current = h })))
