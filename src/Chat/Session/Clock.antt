-- ===== src/Chat/Session/Clock.antt =====
-- What each part of a session does to the clock: no part sets it back, and a turn moves it.
use saas_ai_agents_long_term.Prelude.{
  ℕ, suc, ◌+◌, ◌≤◌, String, Bool, Option, none, some, List, ◌∷◌, ◌⊎◌, ◌≡◌, refl, ◌∙◌, arith, ◌==◌,
  string_eq, nat_eq,
}
use saas_ai_agents_long_term.Prelude.Text.{Text}
use saas_ai_agents_long_term.Effect.{Result, ok, err, Exec, modify}
use saas_ai_agents_long_term.Effect.Preserves.{
  Preserves, bind-ends, preserves_rules, modify-Preserves, bind-Preserves, pure-Preserves,
  cond-Preserves, catch-Preserves,
}
use saas_ai_agents_long_term.Json.{Json}
use saas_ai_agents_long_term.World.{World, TaskStatus, running}
use saas_ai_agents_long_term.Chat.Session.{
  Chat, on_world, set_status, persist_user_message, persist_agent_message, run_one_turn,
}

-- The hard clock is where it was, and time has not gone back.
pub record Since (started limit earliest : ℕ) (c : Chat) : Type 0 where
  pub same_start : c.lifecycle.started_at ≡ started
  pub same_limit : c.lifecycle.hard_timeout ≡ limit
  pub not_before : earliest ≤ c.now

abbrev pub Forward {ℓ} : {A : Type ℓ} → Exec Chat A → Type ℓ
Forward m = (s l n : ℕ) → Preserves (Since s l n) m

pub on_world-Forward {ℓ} :
    {A : Type ℓ} (m : Chat → Exec World A) (s l n : ℕ) → Preserves (Since s l n) (on_world m)
unfolding on_world
on_world-Forward m s l n = record {
  holds = λ c h. record {
    same_start = h.same_start;
    same_limit = h.same_limit;
    not_before = h.not_before;
  };
}

set_status-Forward :
    (status : TaskStatus) (message : Option String) (s l n : ℕ)
    → Preserves (Since s l n) (set_status status message)
unfolding set_status
set_status-Forward status message s l n = on_world-Forward _ s l n

persist_user-Forward :
    (content : String) (s l n : ℕ) → Preserves (Since s l n) (persist_user_message content)
unfolding persist_user_message
persist_user-Forward content s l n = on_world-Forward _ s l n

persist_agent-Forward :
    (content : String) (s l n : ℕ) → Preserves (Since s l n) (persist_agent_message content)
unfolding persist_agent_message
persist_agent-Forward content s l n = on_world-Forward _ s l n

-- An update that leaves the hard clock and the time alone.
pub update-Forward :
    (f : Chat → Chat)
    → ((c : Chat) → (f c).lifecycle.started_at ≡ c.lifecycle.started_at)
    → ((c : Chat) → (f c).lifecycle.hard_timeout ≡ c.lifecycle.hard_timeout)
    → ((c : Chat) → (f c).now ≡ c.now)
    → (s l n : ℕ) → Preserves (Since s l n) (modify f)
update-Forward f hs hl hn s l n = modify-Preserves f (λ c h. record {
  same_start = hs c ∙ h.same_start;
  same_limit = hl c ∙ h.same_limit;
  not_before = omega (arith, h.not_before, hn c);
})

ruleset forward_rules = (
  preserves_rules, on_world-Forward, set_status-Forward, persist_user-Forward,
  persist_agent-Forward,
)

module _ (ask : String → Exec Chat (List String)) (joined : List String → String)
    (post_turn : Exec Chat (Unit {0})) (block : ℕ → Exec Chat (Unit {0}))
    (loads : Text → Option Json) (to_text : Json → String) where
  -- An answer of the agent takes a tick.
  abbrev pub AskTakesTime : Type 0
  AskTakesTime =
      (text : String) (s l n : ℕ) (c : Chat) → Since s l n c → Since s l (suc n) (ask text c).1

  -- The queue has a message that is JSON in front.
  pub record HasMessage (q : List Text) : Type 0 where
    pub raw : Text
    pub rest : List Text
    pub first : q ≡ raw ∷ rest
    pub json : Json
    pub readable : loads raw ≡ some json

  -- BLPOP has waited, or it has found a message.
  pub record Blocked (s l n : ℕ) (c : Chat) : Type 0 where
    pub since : Since s l n c
    pub waited_or_found : (suc n ≤ c.now) ⊎ HasMessage c.queue

  abbrev pub BlocksOrFinds : Type 0
  BlocksOrFinds =
      (timeout s l n : ℕ) (c : Chat)
      → 1 ≤ timeout
      → Since s l n c
      → Blocked s l n (block timeout c).1

  -- An action that returns has moved the clock.
  abbrev pub Advanced : ℕ → ℕ → ℕ → Result (Unit {0}) × Chat → Type 0
  Advanced s l n (ok a, c) = Since s l (suc n) c
  Advanced s l n (err e, c) = Unit

  pub returned-Advanced :
      (s l n : ℕ) (r : Result (Unit {0}) × Chat) → Since s l (suc n) r.1 → Advanced s l n r
  returned-Advanced s l n (ok a, c) h = h
  returned-Advanced s l n (err e, c) h = tt

  pub run_one_turn-Advanced :
      AskTakesTime
      → Forward post_turn
      → (text : String) (is_initial : Bool) (s l n : ℕ) (c : Chat) → Since s l n c
      → Advanced s l n (run_one_turn ask joined post_turn block loads to_text text is_initial c)
  unfolding run_one_turn
  run_one_turn-Advanced ha hp text is_initial s l n c h =
      bind-ends (Since s l n) (Advanced s l n) _ _ c
        ((set_status-Forward running none s l n).holds c h)
        (λ a t ht.
          bind-ends (Since s l n) (Advanced s l n) _ _ t ((on_world-Forward _ s l n).holds t ht)
            (λ a t ht.
              bind-ends (Since s l n) (Advanced s l n) _ _ t
                ((cond-Preserves is_initial _ _ (λ _. pure-Preserves tt)
                    (λ _. persist_user-Forward text s l n)).holds
                  t ht)
                (λ a t ht.
                  bind-ends (Since s l (suc n)) (Advanced s l n) (ask text) _ t (ha text s l n t ht)
                    (λ chunks t ht. returned-Advanced s l n _ (
                      (bind-Preserves _ _
                          (update-Forward (λ (c : Chat). record c { turn_count = c.turn_count + 1 })
                            (λ c. refl) (λ c. refl) (λ c. refl) s l (suc n))
                          (λ _.
                            bind-Preserves _ _
                              (cond-Preserves (joined chunks == "") _ _ (λ _. pure-Preserves tt)
                                (λ _. persist_agent-Forward (joined chunks) s l (suc n)))
                              (λ _.
                                catch-Preserves post_turn _ (hp s l (suc n))
                                  (λ e. pure-Preserves tt)))).holds
                        t ht))
                    (λ e t ht. tt))
                (λ e t ht. tt))
            (λ e t ht. tt))
        (λ e t ht. tt)
