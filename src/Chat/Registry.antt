-- ===== src/Chat/Registry.antt =====
-- The registry of chat sessions (src/services/chat_session_service.py). A session is named by its
-- task; of the session object only the reason of a requested close is kept, of the asyncio task a
-- number. Each method runs without an `await` between its reads and its writes, or under the lock.
pub mod Pairing
use saas_ai_agents_long_term.Prelude.{
  ℕ, Bool, true, false, Option, none, some, List, [], ◌∷◌, nat_eq,
}
use saas_ai_agents_long_term.Prelude.Dict.{Dict, lookup, insert, erase}
use saas_ai_agents_long_term.Effect.{runtime, Result, ok, err}
use saas_ai_agents_long_term.World.{SessionEndReason, user_closed}

pub record Registry : Type 0 where
  pub sessions : Dict ℕ (Option SessionEndReason)
  pub tasks : Dict ℕ ℕ
  pub cancelled : List ℕ

abbrev pub empty : Registry
empty = record { sessions = []; tasks = []; cancelled = [] }

abbrev pub given {ℓ} : {A : Type ℓ} → Option A → Bool
given none = false
given (some a) = true

unfoldable pub register_and_run : ℕ → ℕ → Registry → Result ℕ × Registry
register_and_run task_id handle r = unless (lookup task_id r.tasks)
  where
    unless : Option ℕ → Result ℕ × Registry
    unless (some running) = (err runtime, r)
    unless none = (
      ok handle,
      record r { sessions = insert task_id none r.sessions; tasks = insert task_id handle r.tasks },
    )

-- The `finally` of `_run_and_unregister`.
unfoldable pub unregister : ℕ → Registry → Registry
unregister task_id r = record r {
  sessions = erase task_id r.sessions;
  tasks = erase task_id r.tasks;
}

unfoldable pub is_active : ℕ → Registry → Bool
is_active task_id r = given (lookup task_id r.sessions)

unfoldable pub request_close : ℕ → SessionEndReason → Registry → Bool × Registry
request_close task_id reason r = of_session (lookup task_id r.sessions)
  where
    of_session : Option (Option SessionEndReason) → Bool × Registry
    of_session none = (false, r)
    of_session (some session) =
        (true, record r { sessions = insert task_id (some reason) r.sessions })

abbrev pub close_all : Dict ℕ (Option SessionEndReason) → Dict ℕ (Option SessionEndReason)
close_all [] = []
close_all ((k, session) ∷ d) = (k, some user_closed) ∷ close_all d

abbrev pub values : Dict ℕ ℕ → List ℕ
values [] = []
values ((k, handle) ∷ d) = handle ∷ values d

unfoldable pub unregister_all : List ℕ → Registry → Registry
unfolding unregister
unregister_all [] r = r
unregister_all (k ∷ ks) r = unregister_all ks (unregister k r)

-- `shutdown_all`: `ended` are the sessions that end within the grace period; the tasks that are left
-- then are cancelled.
unfoldable pub shutdown_all : List ℕ → Registry → Registry
shutdown_all ended r = from_sessions r.sessions
  where
    cancel : Registry → Registry
    cancel r = record r { cancelled = values r.tasks }

    from_sessions : Dict ℕ (Option SessionEndReason) → Registry
    from_sessions [] = r
    from_sessions (s ∷ d) =
        cancel (unregister_all ended (record r { sessions = close_all (s ∷ d) }))

pub data Step : Registry → Registry → Type 0 where
  registers : (task_id handle : ℕ) (r : Registry) → Step r (register_and_run task_id handle r).1
  ends : (task_id : ℕ) (r : Registry) → Step r (unregister task_id r)
  closes :
      (task_id : ℕ) (reason : SessionEndReason) (r : Registry)
      → Step r (request_close task_id reason r).1

pub data Reachable : Registry → Type 0 where
  initially : Reachable empty
  and_then : (r r' : Registry) → Reachable r → Step r r' → Reachable r'
