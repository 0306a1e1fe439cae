-- ===== src/Chat/Tests.antt =====
-- Tests of the chat session, its clocks and its queue.
use saas_ai_agents_long_term.Prelude.{
  All, ℕ, suc, ◌+◌, String, true, false, Option, none, some, List, [], ◌∷◌, ◌≡◌, ◌≢◌, inl, inr, ◌↔◌,
  refl, ◌≤◌, arith, string_eq, nat_eq, if◌then◌else◌, length,
}
use saas_ai_agents_long_term.Prelude.Text.{Text, codes, same_text}
use saas_ai_agents_long_term.Effect.{runtime, err, ok, Exec, pure, modify, ◌>>=◌, ◌>>◌}
use saas_ai_agents_long_term.Effect.Preserves.{pure-Preserves}
use saas_ai_agents_long_term.Json.{object, Json, str, obj, field, end, Fields}
use saas_ai_agents_long_term.World.{publish, running, SessionEndReason, user_closed}
use saas_ai_agents_long_term.Task.{get, update_status}
use saas_ai_agents_long_term.Chat.Lifecycle.{Lifecycle, remaining, expired, remaining-expired}
use saas_ai_agents_long_term.Chat.InputQueue.{
  message, Shared, initially, and_then, read_depth, append, max_queue_depth,
}
use saas_ai_agents_long_term.Chat.InputQueue.Order.{
  push_all, pop_all, pop_all-push_all, Reachable-depth, ReadBack,
}
use saas_ai_agents_long_term.Chat.Session.{
  Chat, run, session_body, loop, why_end, end_session, on_world, set_status, write_status,
}
use saas_ai_agents_long_term.Chat.Session.Ending.{HasStatus, final_status, run-HasStatus}
use saas_ai_agents_long_term.Chat.Session.Clock.{AskTakesTime, BlocksOrFinds, Blocked}
use saas_ai_agents_long_term.Chat.Session.Fuel.{run-ends}
use saas_ai_agents_long_term.Chat.Registry.{
  Registry, empty, register_and_run, is_active, Reachable, initially, and_then, registers,
}
use saas_ai_agents_long_term.Chat.Registry.Pairing.{
  Paired, Reachable-Paired, register_and_run-is_active,
}
use saas_ai_agents_long_term.Prelude.Dict.{lookup, insert}
use saas_ai_agents_long_term.Samples.{a_world, an_error_text}

abbrev clocks : Lifecycle
clocks = record { idle_timeout = 3; hard_timeout = 10; started_at = 0; last_user_input_at = 0 }

remaining_example : (remaining clocks 3 ≡ 0) ↔ (expired clocks 3 ≢ none)
remaining_example = remaining-expired clocks 3

abbrev content_codes : Fields → Text
content_codes (field k (str s) end) = codes s
content_codes fs = []

abbrev written : Json → Text
written (obj fs) = content_codes fs
written j = []

abbrev read : Text → Option Json
read t = some (obj (field "content" (str (if same_text t (codes "hi") then "hi" else "bye")) end))

abbrev text_of : Json → String
text_of (str s) = s
text_of j = ""

read_back : All (ReadBack written read) ("hi" ∷ "bye" ∷ [])
unfolding message object same_text
read_back = (ground arith, (ground arith, tt))

queue_example : pop_all read text_of 2 (push_all written ("hi" ∷ "bye" ∷ []) []) ≡ "hi" ∷ "bye" ∷ []
queue_example =
    pop_all-push_all written read text_of (λ s. refl) ("hi" ∷ "bye" ∷ []) read_back (omega arith)

abbrev nobody : Shared
nobody = record { queue = []; pushing = 0 }

abbrev pushing_one : Shared
pushing_one = record { queue = []; pushing = 1 }

abbrev pushed_one : Shared
pushed_one = record { queue = codes "hi" ∷ []; pushing = 0 }

depth_example : length pushed_one.queue + pushed_one.pushing ≤ max_queue_depth + 1
depth_example = Reachable-depth 1 pushed_one (
    and_then pushing_one pushed_one
      (and_then nobody pushing_one initially (read_depth nobody (omega arith) (omega arith)))
      (append (codes "hi") 0 pushing_one refl))

abbrev says_nothing : String → Exec Chat (List String)
says_nothing text = pure []

abbrev nothing : Exec Chat (Unit {0})
nothing = pure tt

abbrev one_tick : ℕ → Exec Chat (Unit {0})
one_tick budget = modify (λ c. record c { now = suc c.now })

abbrev no_text : List String → String
no_text chunks = ""

abbrev a_chat : Chat
a_chat = record {
  task_id = 7;
  user_id = 1;
  agent_name = "developer";
  turn_count = 0;
  close_requested = some user_closed;
  lifecycle = clocks;
  has_client = false;
  queue = [];
  now = 0;
  world = a_world running;
}

abbrev run_sample : ℕ → Exec Chat (Option SessionEndReason)
run_sample fuel =
    run says_nothing no_text nothing one_tick read text_of nothing nothing (ok tt) an_error_text
      fuel true ""

abbrev answers_in_a_tick : String → Exec Chat (List String)
answers_in_a_tick text = do modify (λ c. record c { now = suc c.now }); pure ("Done" ∷ [])

abbrev after_block : List Text → ℕ → ℕ → ℕ
after_block [] timeout now = now + timeout
after_block (raw ∷ q) timeout now = now

-- At once where there is a message, and otherwise when the time is over.
abbrev blpop : ℕ → Exec Chat (Unit {0})
blpop timeout = modify (λ c. record c { now = after_block c.queue timeout c.now })

answers_in_a_tick-AskTakesTime : AskTakesTime answers_in_a_tick no_text nothing blpop read text_of
unfolding ◌>>=◌
answers_in_a_tick-AskTakesTime text s l n c h = record {
  same_start = h.same_start;
  same_limit = h.same_limit;
  not_before = omega (arith, h.not_before);
}

blpop-BlocksOrFinds : BlocksOrFinds answers_in_a_tick no_text nothing blpop read text_of
unfolding ◌>>=◌
blpop-BlocksOrFinds timeout s l n c positive h = go c.queue refl
  where
    go :
        (q : List Text)
        → c.queue ≡ q
        → Blocked answers_in_a_tick no_text nothing blpop read text_of s l n (blpop timeout c).1
    go [] e = record {
      since = record {
        same_start = h.same_start;
        same_limit = h.same_limit;
        not_before = rw e (omega (arith, h.not_before));
      };
      waited_or_found = inl (rw e (omega (arith, h.not_before, positive)));
    }
    go (raw ∷ q) e = record {
      since = record {
        same_start = h.same_start;
        same_limit = h.same_limit;
        not_before = rw e h.not_before;
      };
      waited_or_found = inr (record { raw = raw; rest = q; first = e; json = _; readable = refl });
    }

-- A session that is open, with a message in its queue.
abbrev busy_chat : Chat
busy_chat = record a_chat { close_requested = none; queue = codes "hi" ∷ [] }

abbrev run_busy : ℕ → Exec Chat (Option SessionEndReason)
run_busy fuel =
    run answers_in_a_tick no_text nothing blpop read text_of nothing nothing (ok tt) an_error_text
      fuel false "Fix it"

connects_busy :
    nothing (record busy_chat { has_client = true })
    ≡ (ok tt, record busy_chat { has_client = true })
unfolding ◌>>=◌
connects_busy = refl

run_ends_example : (run_busy 11 busy_chat).0 ≢ ok none
run_ends_example =
    run-ends answers_in_a_tick no_text nothing blpop read text_of nothing nothing (ok tt)
      an_error_text answers_in_a_tick-AskTakesTime (λ s l n. pure-Preserves tt) blpop-BlocksOrFinds
      false "Fix it" busy_chat (record busy_chat { has_client = true }) connects_busy (omega arith)

abbrev ended_chat : Chat
ended_chat = (run_sample 3 a_chat).1

closes : run_sample 3 a_chat ≡ (ok (some user_closed), ended_chat)
unfolding run session_body loop why_end end_session on_world set_status write_status get
    update_status publish ◌>>=◌
closes = ground arith

status_example : HasStatus (final_status user_closed) ended_chat
status_example =
    run-HasStatus says_nothing no_text nothing one_tick read text_of nothing nothing (ok tt)
      an_error_text (λ status. pure-Preserves tt) 3 true "" user_closed a_chat ended_chat closes

abbrev registered : Registry
registered = (register_and_run 7 1 empty).1

registered_reachable : Reachable registered
registered_reachable = and_then empty registered initially (registers 7 1 empty)

pairing_example : Paired registered
pairing_example = Reachable-Paired registered registered_reachable

second_session_example :
    let result = register_and_run 7 2 registered in
    (result ≡ (if is_active 7 registered then (err runtime, registered) else (ok 2, result.1)))
    × (is_active 7 result.1 ≡ true)
second_session_example = register_and_run-is_active 7 2 registered registered_reachable

has_session : registered.sessions ≢ []
unfolding register_and_run lookup insert
has_session e = cc
