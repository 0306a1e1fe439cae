-- ===== src/Samples.antt =====
-- Concrete states for the tests: one project, one task, and the approvals of it.
use saas_ai_agents_long_term.Prelude.{ℕ, String, [], ◌∷◌}
use saas_ai_agents_long_term.Prelude.Text.{Text, codes}
use saas_ai_agents_long_term.Effect.{Error}
use saas_ai_agents_long_term.World.{World, Task, TaskStatus, Project, TaskApproval}
use saas_ai_agents_long_term.Task.{new_task}
use saas_ai_agents_long_term.Approval.{new_approval}

abbrev pub a_project : Project
a_project = record { id = 5; user_id = 1; repos = [] }

abbrev pub a_task : TaskStatus → Task
a_task status = new_task 7 1 5 3 "Add a login page" status

abbrev pub an_approval : TaskApproval
an_approval = new_approval 9 1 7 "Write" []

abbrev pub a_world : TaskStatus → World
a_world status = record {
  db = record {
    tasks = a_task status ∷ [];
    projects = a_project ∷ [];
    approvals = an_approval ∷ [];
    messages = [];
    next_id = 20;
  };
  events = [];
  jobs = [];
  active_sessions = [];
  decisions = [];
  wakes = [];
  listening = [];
}

-- The ids of the samples begin with these digits.
abbrev pub an_id_text : ℕ → Text
an_id_text id = codes "0a1b2c3d-0000"

abbrev pub an_id_string : ℕ → String
an_id_string id = "0a1b2c3d-0000"

abbrev pub an_error_text : Error → String
an_error_text e = "boom"

abbrev pub a_prompt : ℕ → String → ℕ → String → String
a_prompt run repo attempt description = description
