-- ===== src/Agent.antt =====
-- The agents of a user (src/db/models/agent.py, agent_config.py, src/db/queries/agent_query.py). A
-- database session has the rows as they were last committed and as it has written them: `rollback`
-- goes back to the former. A flush that breaks a unique index raises.
pub mod Links
pub mod Catalog
pub mod Service
pub mod Apart
pub mod Sound
pub mod Runs
pub mod Owned
mod Tests
use saas_ai_agents_long_term.Prelude.{
  ℕ, suc, String, Bool, true, false, not, ◌&&◌, ◌||◌, Option, none, some, List, ◌∷◌, ◌++◌, map,
  reverse, ◌==◌, nat_eq, string_eq, if◌then◌else◌, find_first, keep, exists, length, ltb,
}
use saas_ai_agents_long_term.Prelude.Table.{save, newest_first}
use saas_ai_agents_long_term.Effect.{
  Error, already_exists, validation, ok, Exec, pure, raise, gets, modify, guard, cond, ◌>>=◌, ◌>>◌,
}
use saas_ai_agents_long_term.Task.{or_not_found}

pub record Agent : Type 0 where
  pub id : ℕ
  pub user_id : ℕ
  pub name : String
  pub display_name : String
  pub description : Option String
  pub system_prompt : Option String
  pub model : Option String
  pub is_default : Bool
  pub is_active : Bool
  pub created_at : ℕ

pub record AgentSubagent : Type 0 where
  pub id : ℕ
  pub agent_id : ℕ
  pub subagent_id : ℕ
  pub sort_order : ℕ
  pub is_active : Bool

pub record AgentSubagentMcp : Type 0 where
  pub agent_subagent_id : ℕ
  pub mcp_server_config_id : ℕ
  pub is_active : Bool

pub record Subagent : Type 0 where
  pub id : ℕ
  pub name : String
  pub display_name : String
  pub description : String
  pub system_prompt : String
  pub model : String
  pub sort_order : ℕ
  pub is_active : Bool

pub record SubagentTool : Type 0 where
  pub subagent_id : ℕ
  pub mcp_server_config_id : ℕ
  pub is_active : Bool

pub record SubagentSystemTool : Type 0 where
  pub subagent_id : ℕ
  pub system_tool_id : ℕ
  pub is_active : Bool

pub record SystemTool : Type 0 where
  pub id : ℕ
  pub name : String
  pub sort_order : ℕ
  pub is_active : Bool

pub record McpServerConfig : Type 0 where
  pub id : ℕ
  pub provider_name : String
  pub is_active : Bool

-- `task_agents` is the column `agent_id` of the tasks.
pub record Rows : Type 0 where
  pub agents : List Agent
  pub links : List AgentSubagent
  pub link_mcps : List AgentSubagentMcp
  pub subagents : List Subagent
  pub subagent_tools : List SubagentTool
  pub subagent_system_tools : List SubagentSystemTool
  pub system_tools : List SystemTool
  pub mcp_servers : List McpServerConfig
  pub task_agents : List ℕ
  pub next_id : ℕ

pub record Session : Type 0 where
  pub committed : Rows
  pub current : Rows

abbrev pub with_current : Rows → Session → Session
with_current rows s = record s { current = rows }

-- `session.rollback()`
unfoldable pub rollback : Exec Session (Unit {0})
rollback = modify (λ (s : Session). record s { current = s.committed })

-- `flush`, where the rows that are written break a unique index or do not.
unfoldable pub flush : Error → (Rows → Bool) → (Rows → Rows) → Exec Session (Unit {0})
unfolding rollback
flush e breaks write = do
  rows ← gets (λ (s : Session). s.current)
  cond (breaks rows) (do rollback; raise e) (modify (with_current (write rows)))

abbrev pub mine : ℕ → Agent → Bool
mine user_id a = a.user_id == user_id

abbrev pub owned : ℕ → ℕ → Agent → Bool
owned user_id agent_id a = a.id == agent_id && a.user_id == user_id

abbrev pub default_of : ℕ → Agent → Bool
default_of user_id a = a.user_id == user_id && a.is_default

unfoldable pub list_agents : ℕ → Exec Session (List Agent)
list_agents user_id s =
    let rows = reverse (
      newest_first (λ a. a.created_at)
        (keep (λ (a : Agent). a.user_id == user_id && a.is_active) s.current.agents)) in
    (ok (keep (λ a. a.is_default) rows ++ keep (λ a. not a.is_default) rows), s)

unfoldable pub get_agent : ℕ → ℕ → Exec Session Agent
get_agent user_id agent_id s =
    (or_not_found (find_first (owned user_id agent_id) s.current.agents), s)

abbrev pub active_default : ℕ → Agent → Bool
active_default user_id a = a.user_id == user_id && a.is_default && a.is_active

unfoldable pub get_default : ℕ → Exec Session (Option Agent)
get_default user_id s = (ok (find_first (active_default user_id) s.current.agents), s)

abbrev pub linked : ℕ → ℕ → AgentSubagent → Bool
linked agent_id subagent_id l = l.agent_id == agent_id && l.subagent_id == subagent_id

unfoldable pub get_link : ℕ → ℕ → Exec Session (Option AgentSubagent)
get_link agent_id subagent_id s = (ok (find_first (linked agent_id subagent_id) s.current.links), s)

abbrev pub clashes : Agent → Agent → Bool
clashes a b = a.user_id == b.user_id && (a.name == b.name || a.is_default && b.is_default)

abbrev pub new_agent :
    ℕ → ℕ → String → String → Option String → Option String → Option String → Bool → Agent
new_agent id user_id name display_name description system_prompt model is_default = record {
  id = id;
  user_id = user_id;
  name = name;
  display_name = display_name;
  description = description;
  system_prompt = system_prompt;
  model = model;
  is_default = is_default;
  is_active = true;
  created_at = id;
}

abbrev pub insert_agent : Agent → Rows → Rows
insert_agent a rows = record rows { agents = a ∷ rows.agents; next_id = suc rows.next_id }

unfoldable pub create_agent :
    ℕ → String → String → Option String → Option String → Option String → Bool → Exec Session Agent
unfolding flush
create_agent user_id name display_name description system_prompt model is_default = do
  rows ← gets (λ (s : Session). s.current)
  let a =
      new_agent rows.next_id user_id name display_name description system_prompt model is_default
  flush already_exists (λ rows. exists (clashes a) rows.agents) (insert_agent a)
  pure a

abbrev pub given {ℓ} : {A : Type ℓ} → Option A → A → A
given none old = old
given (some new) old = new

abbrev pub given_text : Option String → Option String → Option String
given_text none old = old
given_text (some new) old = some new

-- What `update` is passed.
pub record AgentPatch : Type 0 where
  pub name : Option String
  pub display_name : Option String
  pub description : Option String
  pub system_prompt : Option String
  pub model : Option String
  pub is_active : Option Bool

abbrev pub patched_agent : AgentPatch → Agent → Agent
patched_agent p a = record a {
  name = given p.name a.name;
  display_name = given p.display_name a.display_name;
  description = given_text p.description a.description;
  system_prompt = given_text p.system_prompt a.system_prompt;
  model = given_text p.model a.model;
  is_active = given p.is_active a.is_active;
}

unfoldable pub save_agent : Agent → Rows → Rows
unfolding save
save_agent a rows = record rows { agents = save (λ (x : Agent). x.id) a rows.agents }

-- Another agent of the user has the name.
abbrev pub name_taken : Agent → Agent → Bool
name_taken a b = not (b.id == a.id) && a.user_id == b.user_id && a.name == b.name

-- The object that was read: what it holds is the row as it stands.
unfoldable pub update_agent : Agent → AgentPatch → Exec Session Agent
unfolding flush save_agent
update_agent a p = do
  flush already_exists (λ rows. exists (name_taken (patched_agent p a)) rows.agents)
      (save_agent (patched_agent p a))
  pure (patched_agent p a)

unfoldable pub count_tasks : ℕ → Exec Session ℕ
count_tasks agent_id s = (ok (length (keep (λ id. id == agent_id) s.current.task_agents)), s)

-- The links of an agent go with it, and their tools with them.
abbrev pub of_links : List AgentSubagent → AgentSubagentMcp → Bool
of_links links m = exists (λ (l : AgentSubagent). l.id == m.agent_subagent_id) links

abbrev pub drop_links : (AgentSubagent → Bool) → Rows → Rows
drop_links p rows = record rows {
  links = keep (λ l. not (p l)) rows.links;
  link_mcps = keep (λ m. not (of_links (keep p rows.links) m)) rows.link_mcps;
}

abbrev pub remove_agent : ℕ → Rows → Rows
remove_agent id rows =
    let rest = drop_links (λ (l : AgentSubagent). l.agent_id == id) rows in
    record rest { agents = keep (λ (x : Agent). not (x.id == id)) rest.agents }

unfoldable pub delete_agent : Agent → Exec Session (Unit {0})
unfolding count_tasks
delete_agent a = do
  task_count ← count_tasks a.id
  guard (not (ltb 0 task_count)) validation
  modify (λ (s : Session). with_current (remove_agent a.id s.current) s)

abbrev pub undefault : ℕ → Agent → Agent
undefault user_id a = if default_of user_id a then record a { is_default = false } else a

abbrev pub clear_defaults : ℕ → Rows → Rows
clear_defaults user_id rows = record rows { agents = map (undefault user_id) rows.agents }

unfoldable pub set_default : ℕ → ℕ → Exec Session Agent
unfolding get_agent save_agent
set_default user_id agent_id = do
  modify (λ (s : Session). with_current (clear_defaults user_id s.current) s)
  target ← get_agent user_id agent_id
  modify
      (λ (s : Session). with_current (save_agent (record target { is_default = true }) s.current) s)
  pure (record target { is_default = true })
