-- ===== src/Chat/Session/Teardown.antt =====
-- Every way out of a session cleans up.
use saas_ai_agents_long_term.Prelude.{ℕ, false, List, [], ◌∷◌, ◌≡◌, ◌⊎◌}
use saas_ai_agents_long_term.Prelude.Text.{Text}
use saas_ai_agents_long_term.Effect.{Error, Result, err}
use saas_ai_agents_long_term.Json.{Json}
use saas_ai_agents_long_term.World.{Event, closed}
use saas_ai_agents_long_term.Chat.Session.{Chat}

-- The client is gone, the queue was emptied unless Redis failed, and the last event ended the
-- subscribers' streams.
pub record TornDown (cleared : Result (Unit {0})) (c : Chat) : Type 0 where
  pub no_client : c.has_client ≡ false
  pub emptied : (c.queue ≡ []) ⊎ ((e : Error) × (cleared ≡ err e))
  pub earlier : List (ℕ × Event)
  pub streams_ended : c.world.events ≡ (c.task_id, closed) ∷ earlier
