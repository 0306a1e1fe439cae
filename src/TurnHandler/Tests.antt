-- ===== src/TurnHandler/Tests.antt =====
-- Tests of the turn handler: a publisher that opens a pull request.
use saas_ai_agents_long_term.Prelude.{true, some, refl, string_eq}
use saas_ai_agents_long_term.Prelude.Dict.{lookup}
use saas_ai_agents_long_term.Effect.{Result, ok}
use saas_ai_agents_long_term.World.{running}
use saas_ai_agents_long_term.TurnHandler.{
  PublishRequest, PublishResult, TurnResult, on_turn_finished,
}
use saas_ai_agents_long_term.TurnHandler.Prior.{AllNoPrior, on_turn_finished-AllNoPrior}
use saas_ai_agents_long_term.Samples.{a_world, an_error_text}

abbrev a_publisher : PublishRequest → Result PublishResult
a_publisher request =
    ok (record { did_publish = true; branch_name = some "clyde/x"; pr_url = some "https://pr" })

abbrev a_turn : TurnResult
a_turn = record { turn_index = 1; assistant_text = "Done" }

a_world-AllNoPrior : AllNoPrior (a_world running)
unfolding lookup
a_world-AllNoPrior = (refl, tt)

on_turn_finished-AllNoPrior_example :
    AllNoPrior (on_turn_finished a_publisher an_error_text 7 1 a_turn (a_world running)).1
on_turn_finished-AllNoPrior_example =
    on_turn_finished-AllNoPrior a_publisher an_error_text 7 1 a_turn (a_world running)
      a_world-AllNoPrior
