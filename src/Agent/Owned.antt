-- ===== src/Agent/Owned.antt =====
-- Whose agent a task gets, and which agents can be deleted (src/services/agent_service.py).
use saas_ai_agents_long_term.Prelude.{
  ℕ, ◌<◌, String, Bool, true, false, Option, none, some, ◌≡◌, refl, ap, ◌∙◌, arith, ◌==◌, nat_eq,
  find_first, find_first-holds, keep, length, subst, lt→ltb,
}
use saas_ai_agents_long_term.Effect.{
  Error, validation, Result, ok, err, Exec, recover, pure, raise, cond, catch, ◌>>=◌,
}
use saas_ai_agents_long_term.Effect.Inversion.{middle, pure-ok}
use saas_ai_agents_long_term.Agent.{
  Agent, Session, owned, active_default, get_agent, get_default, delete_agent, count_tasks,
}
use saas_ai_agents_long_term.Agent.Service.{
  obtain, winner, or_raise_error, auto_provision_default, or_provision, resolve_agent_for_task,
  delete_with,
}

-- What an action returns.
record Returns {ℓ} {A : Type ℓ} (P : A → Type 0) (m : Exec Session A) : Type ℓ where
  holds : (s s' : Session) (a : A) → m s ≡ (ok a, s') → P a

module _ {ℓ κ} {A : Type ℓ} {B : Type κ} (Q : A → Type 0) (P : B → Type 0) where
  bind-Returns :
      (m : Exec Session A) (f : A → Exec Session B)
      → Returns Q m
      → ((a : A) → Q a → Returns P (f a))
      → Returns P (m >>= f)
  bind-Returns m f hm hf = record {
    holds = λ s s' b h.
        let k = middle m f s s' b h in
        (hf k.value (hm.holds s k.state k.value k.first)).holds k.state s' b k.second;
  }

module _ {ℓ} {A : Type ℓ} (P : A → Type 0) where
  pure-Returns : (a : A) → P a → Returns P (pure a)
  unfolding ◌>>=◌
  pure-Returns a h = record { holds = λ s s' b e. subst P (pure-ok a b s s' e).0 h }

  raise-Returns : (e : Error) → Returns P (raise e)
  unfolding ◌>>=◌
  raise-Returns e = record { holds = λ s s' b h. cc }

  cond-Returns :
      (b : Bool) (m n : Exec Session A)
      → (b ≡ true → Returns P m)
      → (b ≡ false → Returns P n)
      → Returns P (cond b m n)
  unfolding ◌>>=◌
  cond-Returns true m n hm hn = hm refl
  cond-Returns false m n hm hn = hn refl

  catch-Returns :
      (m : Exec Session A) (handler : Error → Exec Session A)
      → Returns P m
      → ((e : Error) → Returns P (handler e))
      → Returns P (catch m handler)
  unfolding ◌>>=◌
  catch-Returns m handler hm hh = record { holds = λ s s' a h. go s s' a (m s) refl h }
    where
      go :
          (s s' : Session) (a : A) (r : Result A × Session)
          → m s ≡ r
          → recover r handler ≡ (ok a, s')
          → P a
      go s s' a (ok b, t) e h = hm.holds s s' a (e ∙ h)
      go s s' a (err x, t) e h = (hh x).holds t s' a h

abbrev Anything {ℓ} : {A : Type ℓ} → A → Type 0
Anything a = Unit

anything {ℓ} : {A : Type ℓ} (m : Exec Session A) → Returns Anything m
anything m = record { holds = λ s s' a h. tt }

abbrev Of : ℕ → Agent → Type 0
Of user_id a = a.user_id ≡ user_id

get_agent-Of : (user_id id : ℕ) → Returns (Of user_id) (get_agent user_id id)
unfolding get_agent
get_agent-Of user_id id = record {
  holds = λ s s' a h. ground (arith, find_first-holds (owned user_id id) s.current.agents a);
}

abbrev OfSome : ℕ → Option Agent → Type 0
OfSome user_id none = Unit
OfSome user_id (some a) = Of user_id a

get_default-Of : (user_id : ℕ) → Returns (OfSome user_id) (get_default user_id)
unfolding get_default
get_default-Of user_id = record { holds = λ s s' o h. go s o (ap (λ r. r.0) h) }
  where
    go :
        (s : Session) (o : Option Agent)
        → ok (find_first (active_default user_id) s.current.agents) ≡ ok o
        → OfSome user_id o
    go s none h = tt
    go s (some a) h = ground (arith, find_first-holds (active_default user_id) s.current.agents a)

module _ (name_le : String → String → Bool) (user_id : ℕ) where
  or_raise-Of :
      (e : Error) (o : Option Agent)
      → OfSome user_id o
      → Returns (Of user_id) (or_raise_error name_le e o)
  or_raise-Of e none h = raise-Returns (Of user_id) e
  or_raise-Of e (some a) h = pure-Returns (Of user_id) a h

  -- An agent that was not made here is the user's.
  abbrev Found : Agent × Bool → Type 0
  Found made = made.1 ≡ false → Of user_id made.0

  obtain-Found : Returns Found (obtain name_le user_id)
  obtain-Found =
      catch-Returns Found _ _
        (bind-Returns Anything Found _ _ (anything _)
          (λ a h. pure-Returns Found (a, true) (λ e. cc)))
        (λ e.
          cond-Returns Found _ _ _
            (λ y.
              bind-Returns (Of user_id) Found (winner name_le user_id e) _
                (bind-Returns (OfSome user_id) (Of user_id) _ _ (get_default-Of user_id)
                  (or_raise-Of e))
                (λ a h. pure-Returns Found (a, false) (λ e. h)))
            (λ n. raise-Returns Found e))

  or_provision-Of :
      (o : Option Agent) → OfSome user_id o → Returns (Of user_id) (or_provision name_le user_id o)
  unfolding auto_provision_default
  or_provision-Of (some a) h = pure-Returns (Of user_id) a h
  or_provision-Of none h = bind-Returns Anything (Of user_id) _ _ (anything _) (λ subs u.
      bind-Returns Anything (Of user_id) _ _ (anything _) (λ t u.
        bind-Returns Found (Of user_id) _ _ obtain-Found (λ made found.
          cond-Returns (Of user_id) made.1 _ _
            (λ new.
              bind-Returns Anything (Of user_id) _ _ (anything _) (λ t u. get_agent-Of user_id _))
            (λ old. pure-Returns (Of user_id) made.0 (found old)))))

  -- The agent that a task gets belongs to the user, be it named, the default, another request's, or
  -- made for the occasion.
  pub resolve_agent_for_task-user :
      (agent_id : Option ℕ) (s s' : Session) (a : Agent)
      → resolve_agent_for_task name_le user_id agent_id s ≡ (ok a, s')
      → a.user_id ≡ user_id
  unfolding resolve_agent_for_task
  resolve_agent_for_task-user none s s' a h =
      (bind-Returns (OfSome user_id) (Of user_id) _ _ (get_default-Of user_id)
          or_provision-Of).holds
        s s' a h
  resolve_agent_for_task-user (some id) s s' a h = (get_agent-Of user_id id).holds s s' a h

-- An agent that a task refers to cannot be deleted, and nothing changes.
pub delete_with-in_use :
    (user_id agent_id : ℕ) (s : Session) (a : Agent)
    → get_agent user_id agent_id s ≡ (ok a, s)
    → 0 < length (keep (λ id. id == a.id) s.current.task_agents)
    → delete_with user_id agent_id s ≡ (err validation, s)
unfolding delete_with delete_agent count_tasks ◌>>=◌
delete_with-in_use user_id agent_id s a found used =
    rw (found, lt→ltb 0 (length (keep (λ id. id == a.id) s.current.task_agents)) used) refl
