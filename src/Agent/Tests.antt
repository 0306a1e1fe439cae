-- ===== src/Agent/Tests.antt =====
-- Tests of the agents: a user with two agents, one subagent, and a task that runs on the first agent.
use saas_ai_agents_long_term.Prelude.{
  ◌≢◌, String, Bool, true, false, none, List, [], ◌∷◌, ◌≡◌, refl, arith, string_eq, nat_eq,
}
use saas_ai_agents_long_term.Effect.{ok, ◌>>=◌}
use saas_ai_agents_long_term.Agent.{Agent, Subagent, Rows, Session, new_agent, get_default}
use saas_ai_agents_long_term.Agent.Service.{resolve_agent_for_task}
use saas_ai_agents_long_term.Agent.Sound.{SoundRows}
use saas_ai_agents_long_term.Agent.Runs.{
  AgentOperation, to_create, to_update, to_delete, to_resolve, after_requests,
  after_requests-SoundRows,
}
use saas_ai_agents_long_term.Agent.Owned.{resolve_agent_for_task-user}

abbrev first_agent : Agent
first_agent = new_agent 3 1 "main" "Main" none none none true

abbrev second_agent : Agent
second_agent = new_agent 2 1 "other" "Other" none none none false

abbrev a_subagent : Subagent
a_subagent = record {
  id = 1;
  name = "coder";
  display_name = "Coder";
  description = "";
  system_prompt = "";
  model = "sonnet";
  sort_order = 0;
  is_active = true;
}

abbrev some_rows : Rows
some_rows = record {
  agents = first_agent ∷ second_agent ∷ [];
  links = [];
  link_mcps = [];
  subagents = a_subagent ∷ [];
  subagent_tools = [];
  subagent_system_tools = [];
  system_tools = [];
  mcp_servers = [];
  task_agents = 3 ∷ [];
  next_id = 4;
}

abbrev a_session : Session
a_session = record { committed = some_rows; current = some_rows }

abbrev any_order : String → String → Bool
any_order s t = true

names_differ : first_agent.name ≢ second_agent.name
names_differ = λ e. cc

some_rows-SoundRows : SoundRows some_rows
some_rows-SoundRows = record {
  apart = (
    (record { ids = omega arith; names = λ u. names_differ; defaults = λ u e. refl }, tt),
    (tt, tt),
  );
  old = (omega arith, (omega arith, tt));
}

abbrev some_requests : List AgentOperation
some_requests =
    to_create 1 "third" "Third" (1 ∷ []) none true
    ∷ to_update 1 2 none none none true
    ∷ to_delete 1 3
    ∷ to_resolve 1 none
    ∷ []

after_requests-SoundRows_example : SoundRows (after_requests any_order some_requests some_rows)
after_requests-SoundRows_example =
    after_requests-SoundRows any_order some_requests some_rows some_rows-SoundRows

the_default : resolve_agent_for_task any_order 1 none a_session ≡ (ok first_agent, a_session)
unfolding resolve_agent_for_task get_default ◌>>=◌
the_default = ground arith

resolve_agent_for_task-user_example : first_agent.user_id ≡ 1
resolve_agent_for_task-user_example =
    resolve_agent_for_task-user any_order 1 none a_session a_session first_agent the_default
