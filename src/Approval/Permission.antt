-- ===== src/Approval/Permission.antt =====
-- Which tools may run, and what the user is asked: the laws of the PreToolUse hook and of `ask_user`.
use saas_ai_agents_long_term.Prelude.{
  ℕ, String, Bool, true, false, Option, none, some, List, [], ◌∷◌, ◌++◌, ◌≡◌, ◌≢◌, refl, sym, ap,
  ◌∙◌, arith, ◌⊎◌, inl, inr, nat_eq, string_eq, subst, Option-cases,
}
use saas_ai_agents_long_term.Prelude.Dict.{Dict, lookup}
use saas_ai_agents_long_term.Prelude.Text.{Text, codes, strip_prefix, strip_prefix-eq_some}
use saas_ai_agents_long_term.Effect.{Result, ok, err, Exec, lift, cond, pure, ◌>>=◌}
use saas_ai_agents_long_term.Effect.Inversion.{middle, pure-ok, lift-ok, lift-state}
use saas_ai_agents_long_term.Json.{Json}
use saas_ai_agents_long_term.World.{World}
use saas_ai_agents_long_term.Approval.Gate.{Decision}
use saas_ai_agents_long_term.Approval.Request.{Asker, request, await_decision}
use saas_ai_agents_long_term.Approval.Hook.{
  allow, without_close, inner_glob, bash_approved, matches_glob, or_later, auto_approved, hook,
  ask_permission, ask_user_of, permission_of, command_text,
}

pub data Among {ℓ} {A : Type ℓ} (a : A) : List A → Type ℓ where
  first : (rest : List A) → Among a (a ∷ rest)
  later : (b : A) (rest : List A) → Among a rest → Among a (b ∷ rest)

without_close-eq_some : (t u : Text) → without_close t ≡ some u → t ≡ u ++ (codes ")")
without_close-eq_some [] u h = cc
without_close-eq_some (c ∷ []) u h = ground arith
without_close-eq_some (c ∷ d ∷ t) u h = elim (Option-cases (without_close (d ∷ t))) [
  | inl missing ↦ ground arith
  | inr (v, found) ↦ ground (arith, without_close-eq_some (d ∷ t) v found)
]

inner_glob-eq :
    (pattern : Text) (c : ℕ) (glob : Text)
    → inner_glob pattern ≡ c ∷ glob
    → pattern ≡ codes "Bash(" ++ (c ∷ glob) ++ codes ")"
unfolding inner_glob
inner_glob-eq pattern c glob h = elim (Option-cases (strip_prefix (codes "Bash(") pattern)) [
  | inl missing ↦ ground arith
  | inr (rest, found) ↦ elim (Option-cases (without_close rest)) [
    | inl open' ↦ ground arith
    | inr (u, closed') ↦ ground (
      arith,
      strip_prefix-eq_some (codes "Bash(") pattern rest found,
      without_close-eq_some rest u closed',
    )
  ]
]

module _ (fnmatch : Text → Text → Bool) where
  -- A pattern of the form `Bash(glob)` whose glob matches the command.
  pub record BashMatch (command : Text) (patterns : List Text) : Type 0 where
    pub glob : Text
    pub listed : Among (codes "Bash(" ++ glob ++ codes ")") patterns
    pub nonempty : glob ≢ []
    pub matches : fnmatch command glob ≡ true

  bash_approved_sound :
      (command : Text) (patterns : List Text)
      → bash_approved fnmatch (some command) patterns ≡ ok true
      → BashMatch command patterns
  unfolding bash_approved
  bash_approved_sound command [] h = cc
  bash_approved_sound command (pattern ∷ patterns) h =
      by_glob (inner_glob pattern) refl (matches_glob fnmatch (some command) (inner_glob pattern))
        refl (bash_approved_sound command patterns) h
    where
      more : BashMatch command patterns → BashMatch command (pattern ∷ patterns)
      more m = record {
        glob = m.glob;
        listed = later pattern patterns m.listed;
        nonempty = m.nonempty;
        matches = m.matches;
      }

      by_glob :
          (g : Text)
          → inner_glob pattern ≡ g
          → (b : Result Bool) → matches_glob fnmatch (some command) (inner_glob pattern) ≡ b
          → (bash_approved fnmatch (some command) patterns ≡ ok true → BashMatch command patterns)
          → or_later fnmatch b (bash_approved fnmatch (some command) patterns) ≡ ok true
          → BashMatch command (pattern ∷ patterns)
      by_glob g e (err x) m ih k = cc
      by_glob g e (ok false) m ih k = more (ih k)
      by_glob [] e (ok true) m ih k = ground arith
      by_glob (c ∷ g) e (ok true) m ih k = record {
        glob = c ∷ g;
        listed =
            subst (λ p. Among p (pattern ∷ patterns)) (inner_glob-eq pattern c g e)
              (first patterns);
        nonempty = λ z. cc;
        matches = ground arith;
      }

  -- A Bash command, given as a text, that the hook lets run without asking matches the glob of one
  -- of the agent's Bash patterns: the list of allowed tools plays no part.
  pub bash-auto_approved :
      (allowed_tools bash_patterns : List Text) (tool_input : Dict String Json) (command : Text)
      → command_text (lookup "command" tool_input) ≡ some command
      → auto_approved fnmatch allowed_tools bash_patterns "Bash" tool_input ≡ ok true
      → BashMatch command bash_patterns
  unfolding auto_approved
  bash-auto_approved allowed_tools bash_patterns tool_input command text h =
      bash_approved_sound command bash_patterns (ground arith)

-- In `w` the user of the task was asked about this tool with this input, and the waiting for the
-- answer to that request ended in an approval.
pub record Approved (wait : ℕ → Exec World Decision) (task_id : ℕ) (name : String)
    (user_id : Option ℕ) (tool_name : String) (tool_input : Dict String Json) (content : String)
    (w : World) : Type 0 where
  pub user : ℕ
  pub known : user_id ≡ some user
  pub approval_id : ℕ
  pub asked : World
  pub opened :
      request
        (record { task_id = task_id; user_id = user; agent_name = name })
        tool_name
        tool_input
        content
        w
      ≡ (ok approval_id, asked)
  pub resumed : World
  pub decision : Decision
  pub answered : wait approval_id asked ≡ (ok decision, resumed)
  pub granted : decision.approved ≡ true

module _ (to_text : Json → String) (wait : ℕ → Exec World Decision) where
  await_decision-ok :
      (a : Asker) (approval_id : ℕ) (w w' : World) (d : Decision)
      → await_decision wait a approval_id w ≡ (ok d, w')
      → (v : World) × (wait approval_id w ≡ (ok d, v))
  unfolding await_decision
  await_decision-ok a approval_id w w' d h =
      let answered = middle (wait approval_id) _ w w' d h in
      let cleaned = middle _ _ _ _ _ answered.second in
      let restored = middle _ _ _ _ _ cleaned.second in
      let told = middle _ _ _ _ _ restored.second in
      (
        answered.state,
        answered.first ∙ ap (λ x. (ok x, answered.state)) (pure-ok _ _ _ _ told.second).0,
      )

  permission_of-allow : (d : Decision) → permission_of to_text d ≡ allow → d.approved ≡ true
  unfolding permission_of
  permission_of-allow d h = ground arith

  ask_permission-allow :
      (task_id : ℕ) (name : String) (user : ℕ) (tool_name : String) (tool_input : Dict String Json)
      (content : String) (w w' : World)
      → let a : Asker = record { task_id = task_id; user_id = user; agent_name = name } in
        ask_permission to_text wait a tool_name tool_input content w ≡ (ok allow, w')
        → Approved wait task_id name (some user) tool_name tool_input content w
  unfolding ask_permission
  ask_permission-allow task_id name user tool_name tool_input content w w' h =
      let a : Asker = record { task_id = task_id; user_id = user; agent_name = name } in
      let asked = middle (request a tool_name tool_input content) _ w w' allow h in
      let decided =
        middle (await_decision wait a asked.value) _ asked.state w' allow asked.second in
      let answer =
        await_decision-ok a asked.value asked.state decided.state decided.value decided.first in
      record {
        user = user;
        known = refl;
        approval_id = asked.value;
        asked = asked.state;
        opened = asked.first;
        resumed = answer.0;
        decision = decided.value;
        answered = answer.1;
        granted = permission_of-allow decided.value (pure-ok _ _ _ _ decided.second).0;
      }

  ask_user_of-allow :
      (task_id : ℕ) (name : String) (user_id : Option ℕ) (tool_name : String)
      (tool_input : Dict String Json) (content : String) (w w' : World)
      → ask_user_of to_text wait task_id name user_id tool_name tool_input content w
        ≡ (ok allow, w')
      → Approved wait task_id name user_id tool_name tool_input content w
  unfolding ask_user_of ◌>>=◌
  ask_user_of-allow task_id name none tool_name tool_input content w w' h = cc
  ask_user_of-allow task_id name (some u) tool_name tool_input content w w' h =
      ask_permission-allow task_id name u tool_name tool_input content w w' h

  -- The hook lets a tool run only if a pattern approves it at once, or a request for this tool with
  -- this input was opened for the known user of the task, and waiting for the answer to that
  -- request ended in an approval.
  pub hook-allow :
      (fnmatch : Text → Text → Bool) (allowed_tools bash_patterns : List Text) (task_id : ℕ)
      (name : String) (user_id : Option ℕ) (tool_name : String) (tool_input : Dict String Json)
      (content : String) (w w' : World)
      → hook to_text fnmatch wait allowed_tools bash_patterns task_id name user_id tool_name
          tool_input content w
        ≡ (ok allow, w')
      → (auto_approved fnmatch allowed_tools bash_patterns tool_name tool_input ≡ ok true)
        ⊎ Approved wait task_id name user_id tool_name tool_input content w
  unfolding hook
  hook-allow fnmatch allowed_tools bash_patterns task_id name user_id tool_name tool_input content w
        w' h =
      let tested =
        middle (lift (auto_approved fnmatch allowed_tools bash_patterns tool_name tool_input)) _ w
          w' allow h in
      by_test tested.value tested.state tested.first tested.second
    where
      by_test :
          (b : Bool) (v : World)
          → lift (auto_approved fnmatch allowed_tools bash_patterns tool_name tool_input) w
            ≡ (ok b, v)
          → cond b
              (pure allow)
              (ask_user_of to_text wait task_id name user_id tool_name tool_input content)
              v
            ≡ (ok allow, w')
          → (auto_approved fnmatch allowed_tools bash_patterns tool_name tool_input ≡ ok true)
            ⊎ Approved wait task_id name user_id tool_name tool_input content w
      by_test true v e k = inl (lift-ok _ _ _ _ e)
      by_test false v e k = inr (
          ask_user_of-allow task_id name user_id tool_name tool_input content w w' (
            unfold ◌>>=◌ in
            subst
              (λ t.
                ask_user_of to_text wait task_id name user_id tool_name tool_input content t
                ≡ (ok allow, w'))
              (sym (lift-state _ _ _ _ e)) k))
