-- ===== src/Approval/Hook.antt =====
-- The PreToolUse hook (`_build_pre_tool_use_hook` of src/agents/sdk_agent.py): which tools run at
-- once, and which ask the user. `fnmatch` and `str` are arguments.
use saas_ai_agents_long_term.Prelude.{
  ℕ, String, Bool, true, false, ◌||◌, Option, none, some, List, [], ◌∷◌, if◌then◌else◌, ◌==◌,
  nat_eq, string_eq,
}
use saas_ai_agents_long_term.Prelude.Dict.{Dict, lookup}
use saas_ai_agents_long_term.Prelude.Text.{Text, codes, strip_prefix, prefix_of}
use saas_ai_agents_long_term.Effect.{foreign, Result, ok, err, Exec, pure, lift, cond, ◌>>=◌}
use saas_ai_agents_long_term.Json.{Json, str, truthy}
use saas_ai_agents_long_term.World.{World}
use saas_ai_agents_long_term.Approval.Gate.{Decision}
use saas_ai_agents_long_term.Approval.Request.{Asker, request, await_decision}

pub data Permission : Type 0 where
  allow : Permission
  deny : String → Permission

-- The text before a final `)`.
abbrev pub without_close : Text → Option Text
without_close [] = none
without_close (c ∷ []) = if c == b')' then some [] else none
without_close (c ∷ d ∷ t) = put (without_close (d ∷ t))
  where
    put : Option Text → Option Text
    put none = none
    put (some u) = some (c ∷ u)

abbrev or_empty : Option Text → Text
or_empty none = []
or_empty (some t) = t

abbrev body_of : Option Text → Option Text
body_of none = none
body_of (some rest) = without_close rest

-- The glob inside a pattern `Bash(glob)`, the empty text for any other pattern.
unfoldable pub inner_glob : Text → Text
unfolding strip_prefix
inner_glob pattern = or_empty (body_of (strip_prefix (codes "Bash(") pattern))

-- A `command` that is no text makes `fnmatch` raise.
abbrev pub command_text : Option Json → Option Text
command_text none = some []
command_text (some (str s)) = some (codes s)
command_text (some _) = none

module _ (fnmatch : Text → Text → Bool) where
  abbrev pub matches_glob : Option Text → Text → Result Bool
  matches_glob command [] = ok false
  matches_glob none (c ∷ glob) = err (foreign "expected str, bytes or os.PathLike object")
  matches_glob (some t) (c ∷ glob) = ok (fnmatch t (c ∷ glob))

  abbrev pub or_later : Result Bool → Result Bool → Result Bool
  or_later (ok true) later = ok true
  or_later (ok false) later = later
  or_later (err e) later = err e

  unfoldable pub bash_approved : Option Text → List Text → Result Bool
  unfolding inner_glob
  bash_approved command [] = ok false
  bash_approved command (pattern ∷ patterns) =
      or_later (matches_glob command (inner_glob pattern)) (bash_approved command patterns)

  unfoldable pub tool_approved : String → List Text → Bool
  tool_approved tool_name [] = false
  tool_approved tool_name (pattern ∷ patterns) =
      fnmatch (codes tool_name) pattern || tool_approved tool_name patterns

  unfoldable pub auto_approved : List Text → List Text → String → Dict String Json → Result Bool
  unfolding lookup bash_approved tool_approved
  auto_approved allowed_tools bash_patterns tool_name tool_input =
      if tool_name == "Bash"
      then bash_approved (command_text (lookup "command" tool_input)) bash_patterns
      else ok (tool_approved tool_name allowed_tools)

module _ (to_text : Json → String) where
  abbrev reason_of : Option Json → String
  reason_of none = "Tool use denied by user."
  reason_of (some j) = if truthy j then to_text j else "Tool use denied by user."

  unfoldable pub permission_of : Decision → Permission
  unfolding lookup
  permission_of d =
      if d.approved then allow else deny (prefix_of 500 (reason_of (lookup "text" d.payload)))

  unfoldable pub ask_permission :
      (ℕ → Exec World Decision) → Asker → String → Dict String Json → String → Exec World Permission
  ask_permission wait a tool_name tool_input content = do
    approval_id ← request a tool_name tool_input content
    d ← await_decision wait a approval_id
    pure (permission_of d)

  unfoldable pub ask_user_of :
      (ℕ → Exec World Decision)
      → ℕ
      → String
      → Option ℕ
      → String
      → Dict String Json
      → String
      → Exec World Permission
  ask_user_of wait task_id name none tool_name tool_input content =
      pure (deny "Cannot request approval: no user context.")
  ask_user_of wait task_id name (some user_id) tool_name tool_input content =
      ask_permission wait (record { task_id = task_id; user_id = user_id; agent_name = name })
        tool_name tool_input content

  -- `content` is the chat message that names the agent and the tool.
  unfoldable pub hook :
      (Text → Text → Bool)
      → (ℕ → Exec World Decision)
      → List Text
      → List Text
      → ℕ
      → String
      → Option ℕ
      → String
      → Dict String Json
      → String
      → Exec World Permission
  hook fnmatch wait allowed_tools bash_patterns task_id name user_id tool_name tool_input content =
      do
        at_once ← lift (auto_approved fnmatch allowed_tools bash_patterns tool_name tool_input)
        cond at_once (pure allow)
            (ask_user_of wait task_id name user_id tool_name tool_input content)
