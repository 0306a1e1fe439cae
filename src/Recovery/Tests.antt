-- ===== src/Recovery/Tests.antt =====
-- Tests of the recovery: a reader that takes the two characters of `{}` for the empty object, and
-- refuses longer texts.
use saas_ai_agents_long_term.Prelude.{none, some, Option, [], ◌∷◌, ◌≡◌, refl, arith}
use saas_ai_agents_long_term.Prelude.Text.{Text, codes, strip_prefix}
use saas_ai_agents_long_term.Effect.{ok}
use saas_ai_agents_long_term.Json.{Json, obj, end}
use saas_ai_agents_long_term.Transcript.{trim}
use saas_ai_agents_long_term.Recovery.{find, rfind, parse}
use saas_ai_agents_long_term.Recovery.Prose.{parse-in_prose}
use saas_ai_agents_long_term.Recovery.Fences.{parse-fenced}

abbrev a_loads : Text → Option Json
a_loads (c ∷ d ∷ []) = some (obj end)
a_loads _ = none

find_example : find 123 (codes "Here: ") ≡ none
unfolding find
find_example = ground arith

rfind_example : rfind 125 (codes " (done)") ≡ none
unfolding rfind
rfind_example = ground arith

parse-in_prose_example : parse a_loads (codes " Here: {} (done)\n") ≡ ok end
unfolding trim strip_prefix
parse-in_prose_example =
    parse-in_prose a_loads (codes " Here: {} (done)\n") (codes "Here: ") [] (codes " (done)") end
      refl (ground arith) refl find_example rfind_example refl

parse-fenced_example : parse a_loads (codes "```json\n{}\n```") ≡ ok end
unfolding trim
parse-fenced_example =
    parse-fenced a_loads (codes "```json\n{}\n```") (codes "json") (codes "{}") end refl
      (ground arith, (ground arith, (ground arith, (ground arith, tt)))) refl
