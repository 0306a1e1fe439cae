-- ===== src/Approval/Gate/Encoding.antt =====
-- The decision that an answer stores is the one that the waiter reads.
use saas_ai_agents_long_term.Prelude.{some, Option, [], ◌∷◌, ◌≡◌, refl, string_eq}
use saas_ai_agents_long_term.Prelude.Dict.{lookup}
use saas_ai_agents_long_term.Prelude.Text.{Text}
use saas_ai_agents_long_term.Effect.{ok}
use saas_ai_agents_long_term.Json.{Json, bool, object, entries, truthy, entries-fields}
use saas_ai_agents_long_term.Approval.Gate.{Decision, write_decision, parse_decision}

abbrev pub decision_json : Decision → Json
unfolding object
decision_json d = object (("approved", bool d.approved) ∷ ("payload", object d.payload) ∷ [])

-- A waiter that reads what an answer stored gets its verdict and its payload. (`json.loads` reads
-- back what `json.dumps` wrote for it.)
pub parse_decision-write_decision :
    (dumps : Json → Text) (loads : Text → Option Json) (d : Decision)
    → loads (dumps (decision_json d)) ≡ some (decision_json d)
    → parse_decision loads (write_decision dumps d) ≡ ok d
unfolding parse_decision write_decision object lookup entries truthy string_eq
parse_decision-write_decision dumps loads d round = rw (round, entries-fields d.payload) refl
