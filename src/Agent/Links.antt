-- ===== src/Agent/Links.antt =====
-- The subagents of an agent, and the tools of a link (src/db/queries/agent_query.py).
use saas_ai_agents_long_term.Prelude.{
  ℕ, suc, Bool, true, not, ◌&&◌, List, [], ◌∷◌, leb, ◌++◌, map, ◌==◌, nat_eq, exists, keep, ◌||◌,
  if◌then◌else◌,
}
use saas_ai_agents_long_term.Effect.{already_exists, Exec, ok, pure, gets, modify, ◌>>=◌, ◌>>◌}
use saas_ai_agents_long_term.Agent.{
  AgentSubagent, AgentSubagentMcp, Subagent, SubagentTool, Session, with_current, flush, linked,
  drop_links,
}

abbrev new_link : ℕ → ℕ → ℕ → ℕ → AgentSubagent
new_link id agent_id subagent_id sort_order = record {
  id = id;
  agent_id = agent_id;
  subagent_id = subagent_id;
  sort_order = sort_order;
  is_active = true;
}

unfoldable pub link_subagent : ℕ → ℕ → ℕ → Exec Session AgentSubagent
unfolding flush
link_subagent agent_id subagent_id sort_order = do
  rows ← gets (λ (s : Session). s.current)
  let link = new_link rows.next_id agent_id subagent_id sort_order
  flush already_exists (λ rows. exists (linked agent_id subagent_id) rows.links)
      (λ rows. record rows { links = link ∷ rows.links; next_id = suc rows.next_id })
  pure link

unfoldable pub unlink_subagent : ℕ → ℕ → Exec Session (Unit {0})
unlink_subagent agent_id subagent_id =
    modify (λ (s : Session). with_current (drop_links (linked agent_id subagent_id) s.current) s)

abbrev pub attached : ℕ → ℕ → AgentSubagentMcp → Bool
attached link_id mcp_id m = m.agent_subagent_id == link_id && m.mcp_server_config_id == mcp_id

abbrev new_link_mcp : ℕ → ℕ → AgentSubagentMcp
new_link_mcp link_id mcp_id = record {
  agent_subagent_id = link_id;
  mcp_server_config_id = mcp_id;
  is_active = true;
}

unfoldable pub add_mcp_to_link : ℕ → ℕ → Exec Session AgentSubagentMcp
unfolding flush
add_mcp_to_link link_id mcp_id = do
  flush already_exists (λ rows. exists (attached link_id mcp_id) rows.link_mcps)
      (λ rows. record rows { link_mcps = new_link_mcp link_id mcp_id ∷ rows.link_mcps })
  pure (new_link_mcp link_id mcp_id)

unfoldable pub remove_mcp_from_link : ℕ → ℕ → Exec Session (Unit {0})
remove_mcp_from_link link_id mcp_id = modify (λ (s : Session).
    with_current
      (record s.current {
        link_mcps = keep (λ m. not (attached link_id mcp_id m)) s.current.link_mcps;
      })
      s)

abbrev pub copied : ℕ → SubagentTool → AgentSubagentMcp
copied link_id t = record {
  agent_subagent_id = link_id;
  mcp_server_config_id = t.mcp_server_config_id;
  is_active = t.is_active;
}

unfoldable pub copy_default_mcps_for_link : ℕ → ℕ → Exec Session (Unit {0})
copy_default_mcps_for_link link_id subagent_id = modify (λ (s : Session).
    with_current
      (record s.current {
        link_mcps =
            map (copied link_id)
              (keep (λ (t : SubagentTool). t.subagent_id == subagent_id) s.current.subagent_tools)
            ++ s.current.link_mcps;
      })
      s)

abbrev insert_ordered : AgentSubagent → List AgentSubagent → List AgentSubagent
insert_ordered l [] = l ∷ []
insert_ordered l (k ∷ ks) =
    if leb l.sort_order k.sort_order then l ∷ k ∷ ks else k ∷ insert_ordered l ks

abbrev by_sort_order : List AgentSubagent → List AgentSubagent
by_sort_order [] = []
by_sort_order (l ∷ ls) = insert_ordered l (by_sort_order ls)

-- The subagent of the link is in the catalog and active.
abbrev enabled : List Subagent → AgentSubagent → Bool
enabled subagents l =
    exists (λ (x : Subagent). x.id == l.subagent_id && x.is_active) subagents && l.is_active

unfoldable pub list_subagents_for_agent : ℕ → Bool → Exec Session (List AgentSubagent)
list_subagents_for_agent agent_id only_active s = (
  ok (
      by_sort_order (
        keep
          (λ (l : AgentSubagent).
            l.agent_id == agent_id && (not only_active || enabled s.current.subagents l))
          s.current.links)),
  s,
)
