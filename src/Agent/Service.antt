-- ===== src/Agent/Service.antt =====
-- The agent service (src/services/agent_service.py). An agent that is read is the same object to every
-- later step of the session, so that a step which writes to it hands the object on.
use saas_ai_agents_long_term.Prelude.{
  ℕ, suc, String, Bool, true, false, not, Option, none, some, List, [], ◌∷◌, map, ◌==◌, nat_eq,
  if◌then◌else◌, exists,
}
use saas_ai_agents_long_term.Effect.{
  Error, already_exists, validation, Exec, pure, raise, lift, modify, guard, cond, catch, ◌>>=◌,
  ◌>>◌,
}
use saas_ai_agents_long_term.Task.{or_not_found}
use saas_ai_agents_long_term.Agent.{
  Agent, AgentSubagent, Subagent, Session, Rows, with_current, get_agent, list_agents, get_default,
  get_link, create_agent, update_agent, delete_agent, set_default, AgentPatch,
}
use saas_ai_agents_long_term.Agent.Links.{
  link_subagent, unlink_subagent, add_mcp_to_link, remove_mcp_from_link, copy_default_mcps_for_link,
}
use saas_ai_agents_long_term.Agent.Catalog.{
  get_subagent, get_many, get_server, list_active_subagents, repeats,
}

abbrev is_empty {ℓ} : {A : Type ℓ} → List A → Bool
is_empty [] = true
is_empty (a ∷ rest) = false

-- A name that the loaded subagents lack.
abbrev pub missing : List Subagent → ℕ → Bool
missing loaded id = not (exists (λ (x : Subagent). x.id == id) loaded)

-- The links in the order of the list, each with the tools that its subagent has by default.
unfoldable pub link_all : ℕ → ℕ → List ℕ → Exec Session (Unit {0})
link_all agent_id index [] = pure tt
link_all agent_id index (id ∷ ids) = do
  link ← link_subagent agent_id id index
  copy_default_mcps_for_link link.id id
  link_all agent_id (suc index) ids

-- The defaults among the agents that were listed are cleared.
abbrev pub undefault_listed : List Agent → Agent → Agent
undefault_listed existing a =
    if exists (λ (x : Agent). x.id == a.id) existing then record a { is_default = false } else a

abbrev pub clear_listed : List Agent → Rows → Rows
clear_listed existing rows = record rows { agents = map (undefault_listed existing) rows.agents }

unfoldable pub create_with :
    ℕ → String → String → List ℕ → Option String → Bool → Exec Session Agent
unfolding link_all
create_with user_id name display_name subagent_ids description is_default = do
  guard (not (is_empty subagent_ids)) validation
  guard (not (repeats subagent_ids)) validation
  loaded ← get_many subagent_ids
  guard (not (exists (missing loaded) subagent_ids)) validation
  guard (not (exists (λ (x : Subagent). not x.is_active) loaded)) validation
  existing ← list_agents user_id
  let default = if is_empty existing then true else is_default
  cond default (modify (λ (s : Session). with_current (clear_listed existing s.current) s))
      (pure tt)
  agent ← create_agent user_id name display_name description none none default
  link_all agent.id 0 subagent_ids
  get_agent user_id agent.id

abbrev pub service_patch : Option String → Option String → Option String → AgentPatch
service_patch name display_name description = record {
  name = name;
  display_name = display_name;
  description = description;
  system_prompt = none;
  model = none;
  is_active = none;
}

-- Only `True` makes the agent the default.
unfoldable pub update_with :
    ℕ → ℕ → Option String → Option String → Option String → Bool → Exec Session Agent
update_with user_id agent_id name display_name description is_default = do
  agent ← get_agent user_id agent_id
  current ← cond is_default (set_default user_id agent_id) (pure agent)
  update_agent current (service_patch name display_name description)

unfoldable pub delete_with : ℕ → ℕ → Exec Session (Unit {0})
delete_with user_id agent_id = do agent ← get_agent user_id agent_id; delete_agent agent

unfoldable pub attach_subagent : ℕ → ℕ → ℕ → Exec Session AgentSubagent
attach_subagent user_id agent_id subagent_id = do
  agent ← get_agent user_id agent_id
  sub ← get_subagent subagent_id
  guard sub.is_active validation
  link ← link_subagent agent.id subagent_id 0
  copy_default_mcps_for_link link.id subagent_id
  loaded ← get_link agent.id subagent_id
  lift (or_not_found loaded)

unfoldable pub detach_subagent : ℕ → ℕ → ℕ → Exec Session (Unit {0})
detach_subagent user_id agent_id subagent_id = do
  get_agent user_id agent_id
  unlink_subagent agent_id subagent_id

unfoldable pub add_mcp : ℕ → ℕ → ℕ → ℕ → Exec Session (Unit {0})
add_mcp user_id agent_id subagent_id mcp_id = do
  get_agent user_id agent_id
  found ← get_link agent_id subagent_id
  link ← lift (or_not_found found)
  get_server mcp_id
  add_mcp_to_link link.id mcp_id
  pure tt

unfoldable pub remove_mcp : ℕ → ℕ → ℕ → ℕ → Exec Session (Unit {0})
remove_mcp user_id agent_id subagent_id mcp_id = do
  get_agent user_id agent_id
  found ← get_link agent_id subagent_id
  link ← lift (or_not_found found)
  remove_mcp_from_link link.id mcp_id

module _ (name_le : String → String → Bool) where
  abbrev already : Error → Bool
  already already_exists = true
  already _ = false

  abbrev pub or_raise_error : Error → Option Agent → Exec Session Agent
  or_raise_error e none = raise e
  or_raise_error e (some a) = pure a

  -- Another request made the default agent: read it.
  abbrev pub winner : ℕ → Error → Exec Session Agent
  winner user_id e = do existing ← get_default user_id; or_raise_error e existing

  -- The agent, and whether this request made it.
  abbrev pub obtain : ℕ → Exec Session (Agent × Bool)
  obtain user_id =
      catch
        (do
          agent ←
              create_agent user_id "default-orchestrator" "Default Orchestrator"
                (some "Auto-created on first task submission. Bundles every available subagent.")
                none none true
          pure (agent, true))
        (λ e. cond (already e) (do existing ← winner user_id e; pure (existing, false)) (raise e))

  abbrev pub bundle : ℕ → List Subagent → Agent → Exec Session Agent
  bundle user_id active_subs agent = do
    link_all agent.id 0 (map (λ (x : Subagent). x.id) active_subs)
    get_agent user_id agent.id

  unfoldable pub auto_provision_default : ℕ → Exec Session Agent
  auto_provision_default user_id = do
    active_subs ← list_active_subagents name_le
    guard (not (is_empty active_subs)) validation
    made ← obtain user_id
    cond made.1 (bundle user_id active_subs made.0) (pure made.0)

  abbrev pub or_provision : ℕ → Option Agent → Exec Session Agent
  or_provision user_id none = auto_provision_default user_id
  or_provision user_id (some a) = pure a

  unfoldable pub resolve_agent_for_task : ℕ → Option ℕ → Exec Session Agent
  resolve_agent_for_task user_id none = do
    default ← get_default user_id
    or_provision user_id default
  resolve_agent_for_task user_id (some agent_id) = get_agent user_id agent_id
