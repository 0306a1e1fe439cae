-- ===== src/Agent/Catalog.antt =====
-- The catalogs that administrators keep (src/db/queries/agent_query.py: SystemToolRepository,
-- SubagentAdminRepository, MCPServerRepository). `name_le` is the database's order of names.
use saas_ai_agents_long_term.Prelude.{
  ℕ, suc, String, Bool, true, false, not, ◌&&◌, ◌||◌, Option, List, [], ◌∷◌, ◌++◌, map, ◌==◌,
  nat_eq, string_eq, if◌then◌else◌, contains, find_first, keep, exists, ltb,
}
use saas_ai_agents_long_term.Prelude.Table.{save}
use saas_ai_agents_long_term.Effect.{
  foreign, already_exists, Exec, ok, pure, gets, modify, ◌>>=◌, ◌>>◌,
}
use saas_ai_agents_long_term.Task.{or_not_found}
use saas_ai_agents_long_term.Agent.{
  AgentSubagent, Subagent, SubagentTool, SubagentSystemTool, SystemTool, McpServerConfig, Rows,
  Session, with_current, flush, drop_links, given,
}

module _ {ℓ} {A : Type ℓ} (before : A → A → Bool) where
  abbrev insert_by : A → List A → List A
  insert_by a [] = a ∷ []
  insert_by a (b ∷ bs) = if before a b then a ∷ b ∷ bs else b ∷ insert_by a bs

  -- `ORDER BY`
  abbrev pub sorted_by : List A → List A
  sorted_by [] = []
  sorted_by (a ∷ bs) = insert_by a (sorted_by bs)

module _ (name_le : String → String → Bool) where
  abbrev ranked : ℕ → String → ℕ → String → Bool
  ranked m s n t = ltb m n || m == n && name_le s t

  abbrev subagent_before : Subagent → Subagent → Bool
  subagent_before x y = ranked x.sort_order x.name y.sort_order y.name

  unfoldable pub list_all_subagents : Exec Session (List Subagent)
  list_all_subagents s = (ok (sorted_by subagent_before s.current.subagents), s)

  unfoldable pub list_active_subagents : Exec Session (List Subagent)
  list_active_subagents s =
      (ok (sorted_by subagent_before (keep (λ (x : Subagent). x.is_active) s.current.subagents)), s)

  unfoldable pub list_active_tools : Exec Session (List SystemTool)
  list_active_tools s = (
    ok (
        sorted_by (λ (x y : SystemTool). ranked x.sort_order x.name y.sort_order y.name)
          (keep (λ (x : SystemTool). x.is_active) s.current.system_tools)),
    s,
  )

  unfoldable pub list_active_servers : Exec Session (List McpServerConfig)
  list_active_servers s = (
    ok (
        sorted_by (λ (x y : McpServerConfig). name_le x.provider_name y.provider_name)
          (keep (λ (x : McpServerConfig). x.is_active) s.current.mcp_servers)),
    s,
  )

unfoldable pub get_tool_by_name : String → Exec Session (Option SystemTool)
get_tool_by_name name s =
    (ok (find_first (λ (x : SystemTool). x.name == name) s.current.system_tools), s)

unfoldable pub get_server : ℕ → Exec Session McpServerConfig
get_server id s =
    (or_not_found (find_first (λ (x : McpServerConfig). x.id == id) s.current.mcp_servers), s)

unfoldable pub get_subagent : ℕ → Exec Session Subagent
get_subagent id s =
    (or_not_found (find_first (λ (x : Subagent). x.id == id) s.current.subagents), s)

unfoldable pub get_subagent_by_name : String → Exec Session (Option Subagent)
get_subagent_by_name name s =
    (ok (find_first (λ (x : Subagent). x.name == name) s.current.subagents), s)

unfoldable pub get_many : List ℕ → Exec Session (List Subagent)
get_many ids s = (ok (keep (λ (x : Subagent). contains ids x.id) s.current.subagents), s)

abbrev new_subagent : ℕ → String → String → String → String → String → ℕ → Bool → Subagent
new_subagent id name display_name description system_prompt model sort_order is_active = record {
  id = id;
  name = name;
  display_name = display_name;
  description = description;
  system_prompt = system_prompt;
  model = model;
  sort_order = sort_order;
  is_active = is_active;
}

unfoldable pub create_subagent :
    String → String → String → String → String → ℕ → Bool → Exec Session Subagent
unfolding flush
create_subagent name display_name description system_prompt model sort_order is_active = do
  rows ← gets (λ (s : Session). s.current)
  let x =
      new_subagent rows.next_id name display_name description system_prompt model sort_order
        is_active
  flush already_exists (λ rows. exists (λ (y : Subagent). y.name == name) rows.subagents)
      (λ rows. record rows { subagents = x ∷ rows.subagents; next_id = suc rows.next_id })
  pure x

pub record SubagentPatch : Type 0 where
  pub display_name : Option String
  pub description : Option String
  pub system_prompt : Option String
  pub model : Option String
  pub sort_order : Option ℕ
  pub is_active : Option Bool

abbrev patched_subagent : SubagentPatch → Subagent → Subagent
patched_subagent p x = record x {
  display_name = given p.display_name x.display_name;
  description = given p.description x.description;
  system_prompt = given p.system_prompt x.system_prompt;
  model = given p.model x.model;
  sort_order = given p.sort_order x.sort_order;
  is_active = given p.is_active x.is_active;
}

unfoldable pub update_subagent : Subagent → SubagentPatch → Exec Session Subagent
unfolding save
update_subagent x p = do
  modify (λ (s : Session).
      with_current
        (record s.current {
          subagents = save (λ (y : Subagent). y.id) (patched_subagent p x) s.current.subagents;
        })
        s)
  pure (patched_subagent p x)

-- The rows that refer to the subagent go with it.
abbrev remove_subagent : ℕ → Rows → Rows
remove_subagent id rows =
    let rest = drop_links (λ (l : AgentSubagent). l.subagent_id == id) rows in
    record rest {
      subagents = keep (λ (x : Subagent). not (x.id == id)) rest.subagents;
      subagent_tools = keep (λ (t : SubagentTool). not (t.subagent_id == id)) rest.subagent_tools;
      subagent_system_tools =
          keep (λ (t : SubagentSystemTool). not (t.subagent_id == id)) rest.subagent_system_tools;
    }

unfoldable pub delete_subagent : Subagent → Exec Session (Unit {0})
delete_subagent x = modify (λ (s : Session). with_current (remove_subagent x.id s.current) s)

abbrev system_tool_row : ℕ → ℕ → SubagentSystemTool
system_tool_row subagent_id tool_id = record {
  subagent_id = subagent_id;
  system_tool_id = tool_id;
  is_active = true;
}

abbrev default_row : ℕ → ℕ → SubagentTool
default_row subagent_id mcp_id = record {
  subagent_id = subagent_id;
  mcp_server_config_id = mcp_id;
  is_active = true;
}

abbrev pub repeats : List ℕ → Bool
repeats [] = false
repeats (n ∷ ns) = contains ns n || repeats ns

-- A list that names a tool twice breaks the unique index; nothing turns that into an error of the
-- program.
unfoldable pub set_system_tools : ℕ → List ℕ → Exec Session (List SubagentSystemTool)
unfolding flush
set_system_tools subagent_id ids = do
  flush (foreign "IntegrityError") (λ rows. repeats ids)
      (λ rows. record rows {
        subagent_system_tools =
            map (system_tool_row subagent_id) ids
            ++ keep (λ (t : SubagentSystemTool). not (t.subagent_id == subagent_id))
                rows.subagent_system_tools;
      })
  pure (map (system_tool_row subagent_id) ids)

unfoldable pub set_mcp_defaults : ℕ → List ℕ → Exec Session (List SubagentTool)
unfolding flush
set_mcp_defaults subagent_id ids = do
  flush (foreign "IntegrityError") (λ rows. repeats ids)
      (λ rows. record rows {
        subagent_tools =
            map (default_row subagent_id) ids
            ++ keep (λ (t : SubagentTool). not (t.subagent_id == subagent_id)) rows.subagent_tools;
      })
  pure (map (default_row subagent_id) ids)
