-- ===== src/Approval/Gate.antt =====
-- The permission gate (src/agent_tools/permission_gate.py) for one approval, cut at each `await`:
-- Redis is shared with any number of answers that interleave with the one waiter. The time to live
-- of the decision (24 hours) and a waiter's own timeout, which no caller sets, are left out.
pub mod Wake
pub mod Encoding
use saas_ai_agents_long_term.Prelude.{
  ℕ, suc, String, Bool, true, false, Option, none, some, List, [], ◌∷◌, ◌≡◌, string_eq,
}
use saas_ai_agents_long_term.Prelude.Dict.{Dict, lookup}
use saas_ai_agents_long_term.Prelude.Text.{Text}
use saas_ai_agents_long_term.Effect.{Error, value_error, runtime, Result, ok, err}
use saas_ai_agents_long_term.Json.{Json, bool, obj, truthy, entries, object}

pub record Decision : Type 0 where
  pub approved : Bool
  pub payload : Dict String Json

abbrev pub approved_of : Option Json → Bool
approved_of none = false
approved_of (some j) = truthy j

-- `dict(data.get("payload") or {})`
abbrev pub payload_of : Option Json → Result (Dict String Json)
payload_of none = ok []
payload_of (some (obj fs)) = ok (entries fs)
payload_of (some j) = if_falsy (truthy j)
  where
    if_falsy : Bool → Result (Dict String Json)
    if_falsy true = err value_error
    if_falsy false = ok []

-- What `resolve` stores; `dumps` is the `json` module's.
unfoldable pub write_decision : (Json → Text) → Decision → Text
unfolding object
write_decision dumps d =
    dumps (object (("approved", bool d.approved) ∷ ("payload", object d.payload) ∷ []))

abbrev with_payload : Option Json → Result (Dict String Json) → Result Decision
with_payload j (ok p) = ok (record { approved = approved_of j; payload = p })
with_payload j (err e) = err e

abbrev decision_of : Option Json → Result Decision
decision_of (some (obj fs)) =
    with_payload (lookup "approved" (entries fs)) (payload_of (lookup "payload" (entries fs)))
decision_of _ = err value_error

-- `_parse_decision`; `loads` is the `json` module's, `none` where it raises.
unfoldable pub parse_decision : (Text → Option Json) → Text → Result Decision
unfolding lookup entries truthy
parse_decision loads raw = decision_of (loads raw)

-- Where the pipeline's coroutine is. `checking` and `rechecking` are the two reads of the decision,
-- `sleeping` is the wait for a wake message.
pub data Phase : Type 0 where
  start registered checking sleeping rechecking : Phase
  returned : Text → Phase
  raised : Error → Phase

-- `pending` is the entry of `_pending`; `inbox` counts the wake messages that the subscription holds.
-- `stored` (every decision that was ever set) and `in_flight` (answers between their SET and their
-- PUBLISH) are what the answers did.
pub record Gate : Type 0 where
  pub decision : Option Text
  pub subscribed : Bool
  pub inbox : ℕ
  pub pending : Bool
  pub phase : Phase
  pub stored : List Text
  pub in_flight : ℕ

abbrev pub no_gate : Gate
no_gate = record {
  decision = none;
  subscribed = false;
  inbox = 0;
  pending = false;
  phase = start;
  stored = [];
  in_flight = 0;
}

unfoldable pub register : Gate → Gate
register g = record g { subscribed = true; pending = true; phase = registered }

-- `resolve` up to its first `await`, and the rest. A message reaches whoever is subscribed.
unfoldable pub resolve_set : Text → Gate → Gate
resolve_set raw g = record g {
  decision = some raw;
  stored = raw ∷ g.stored;
  in_flight = suc g.in_flight;
}

abbrev delivered : Bool → ℕ → ℕ
delivered true n = suc n
delivered false n = n

unfoldable pub resolve_publish : ℕ → Gate → Gate
resolve_publish others g = record g { inbox = delivered g.subscribed g.inbox; in_flight = others }

abbrev leave : Phase → Gate → Gate
leave p g = record g { subscribed = false; inbox = 0; phase = p }

-- `_pending.pop(approval_id, None)`
unfoldable pub wait_for_decision : Gate → Gate
wait_for_decision g = enter g.pending
  where
    enter : Bool → Gate
    enter true = record g { pending = false; phase = checking }
    enter false = record g { phase = raised runtime }

unfoldable pub check : Gate → Gate
check g = read g.decision
  where
    read : Option Text → Gate
    read (some raw) = leave (returned raw) g
    read none = record g { phase = sleeping }

-- `get_message` returns once the subscription holds a message.
unfoldable pub wake : Gate → Gate
wake g = take_message g.inbox
  where
    take_message : ℕ → Gate
    take_message ℕ.zero = g
    take_message (ℕ.suc n) = record g { inbox = n; phase = rechecking }

unfoldable pub recheck : Gate → Gate
recheck g = read g.decision
  where
    read : Option Text → Gate
    read (some raw) = leave (returned raw) g
    read none = leave (raised runtime) g

-- What the waiter does when it is scheduled. Its callers register, publish the request, then wait.
unfoldable pub scheduled : Phase → Gate → Gate
unfolding register wait_for_decision check wake recheck
scheduled start g = register g
scheduled registered g = wait_for_decision g
scheduled checking g = check g
scheduled sleeping g = wake g
scheduled rechecking g = recheck g
scheduled (returned raw) g = g
scheduled (raised e) g = g

abbrev pub advance : Gate → Gate
advance g = scheduled g.phase g

-- `cleanup`
unfoldable pub cleanup : Gate → Gate
cleanup g = record g { decision = none }

-- Any interleaving of the waiter with the answers. The callers clean up after they got a decision.
pub data Step : Gate → Gate → Type 0 where
  waiter : (g : Gate) → Step g (advance g)
  answer_set : (raw : Text) (g : Gate) → Step g (resolve_set raw g)
  answer_publish : (n : ℕ) (g : Gate) → g.in_flight ≡ suc n → Step g (resolve_publish n g)
  clean : (raw : Text) (g : Gate) → g.phase ≡ returned raw → Step g (cleanup g)

pub data Reachable : Gate → Type 0 where
  initially : Reachable no_gate
  and_then : (g g' : Gate) → Reachable g → Step g g' → Reachable g'
