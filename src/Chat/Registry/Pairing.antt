-- ===== src/Chat/Registry/Pairing.antt =====
-- A session is registered exactly while its task runs, so that a task has one session at a time.
use saas_ai_agents_long_term.Prelude.{
  ℕ, true, Option, none, some, List, [], ◌∷◌, ◌≡◌, ◌≢◌, ◌⊎◌, Bool-cases, refl, arith, ◌==◌, nat_eq,
  inl, inr, Option-cases, if◌then◌else◌,
}
use saas_ai_agents_long_term.Prelude.Dict.{Dict, lookup, lookup-insert, lookup-erase}
use saas_ai_agents_long_term.Effect.{runtime, ok, err}
use saas_ai_agents_long_term.World.{SessionEndReason, user_closed}
use saas_ai_agents_long_term.Chat.Registry.{
  Registry, close_all, values, unregister_all, shutdown_all, given, register_and_run, unregister,
  is_active, request_close, Step, registers, ends, closes, Reachable, initially, and_then,
}

pub record Paired (r : Registry) : Type 0 where
  pub together : (k : ℕ) → given (lookup k r.sessions) ≡ given (lookup k r.tasks)

register-Paired :
    (task_id handle : ℕ) (r : Registry) → Paired r → Paired (register_and_run task_id handle r).1
unfolding register_and_run
register-Paired task_id handle r h = elim (Option-cases (lookup task_id r.tasks)) [
  | inl free ↦ rw free (record {
    together = λ k. ground (
      arith,
      lookup-insert k task_id none r.sessions,
      lookup-insert k task_id handle r.tasks,
      h.together k,
    );
  })
  | inr (running, taken) ↦ rw taken h
]

unregister-Paired : (task_id : ℕ) (r : Registry) → Paired r → Paired (unregister task_id r)
unfolding unregister
unregister-Paired task_id r h = record {
  together = λ k.
      ground
        (arith, lookup-erase k task_id r.sessions, lookup-erase k task_id r.tasks, h.together k);
}

close-Paired :
    (task_id : ℕ) (reason : SessionEndReason) (r : Registry)
    → Paired r
    → Paired (request_close task_id reason r).1
unfolding request_close
close-Paired task_id reason r h = elim (Option-cases (lookup task_id r.sessions)) [
  | inl absent ↦ rw absent h
  | inr (session, present) ↦ rw present (record {
    together = λ k.
        ground (
          arith,
          lookup-insert k task_id (some reason) r.sessions,
          h.together k,
          h.together task_id,
        );
  })
]

-- In every reachable state a session is registered exactly when its coroutine is.
pub Reachable-Paired : (r : Registry) → Reachable r → Paired r
unfolding lookup
Reachable-Paired _ initially = record { together = λ k. refl }
Reachable-Paired _ (and_then r r' h step) = kept r r' step (Reachable-Paired r h)
  where
    kept : (r r' : Registry) → Step r r' → Paired r → Paired r'
    kept _ _ (registers task_id handle r) h = register-Paired task_id handle r h
    kept _ _ (ends task_id r) h = unregister-Paired task_id r h
    kept _ _ (closes task_id reason r) h = close-Paired task_id reason r h

-- A second session for a task that has one is refused and changes nothing; for any other task it is
-- registered and then active.
pub register_and_run-is_active :
    (task_id handle : ℕ) (r : Registry)
    → Reachable r
    → let result = register_and_run task_id handle r in
      (result ≡ (if is_active task_id r then (err runtime, r) else (ok handle, result.1)))
      × (is_active task_id result.1 ≡ true)
unfolding register_and_run is_active
register_and_run-is_active task_id handle r h = elim (Option-cases (lookup task_id r.tasks)) [
  | inl free ↦ rw free (
    ground (arith, (Reachable-Paired r h).together task_id),
    ground (arith, lookup-insert task_id task_id none r.sessions),
  )
  | inr (running, taken) ↦ rw taken (
    ground (arith, (Reachable-Paired r h).together task_id),
    ground (arith, (Reachable-Paired r h).together task_id),
  )
]

-- No session is left that was not asked to close.
pub record AllClosing (r : Registry) : Type 0 where
  pub closing :
      (k : ℕ) → (lookup k r.sessions ≡ none) ⊎ (lookup k r.sessions ≡ some (some user_closed))

close_all-lookup :
    (k : ℕ) (d : Dict ℕ (Option SessionEndReason))
    → (lookup k (close_all d) ≡ none) ⊎ (lookup k (close_all d) ≡ some (some user_closed))
unfolding lookup
close_all-lookup k [] = inl refl
close_all-lookup k ((j, s) ∷ d) = elim (Bool-cases (k == j)) [
  | inl same ↦ inr (rw same refl)
  | inr other ↦ rw other (close_all-lookup k d)
]

unregister-AllClosing :
    (task_id : ℕ) (r : Registry) → AllClosing r → AllClosing (unregister task_id r)
unfolding unregister
unregister-AllClosing task_id r h = record {
  closing = λ k. ground (arith, lookup-erase k task_id r.sessions, h.closing k);
}

unregister_all-AllClosing :
    (ended : List ℕ) (r : Registry) → AllClosing r → AllClosing (unregister_all ended r)
unfolding unregister_all
unregister_all-AllClosing [] r h = h
unregister_all-AllClosing (k ∷ ks) r h =
    unregister_all-AllClosing ks (unregister k r) (unregister-AllClosing k r h)

-- At shutdown every session that does not end in time was asked to close, and its coroutine, being
-- registered as well, is cancelled.
pub shutdown_all-AllClosing :
    (ended : List ℕ) (r : Registry)
    → r.sessions ≢ []
    → AllClosing (shutdown_all ended r)
      × ((shutdown_all ended r).cancelled ≡ values (shutdown_all ended r).tasks)
unfolding shutdown_all
shutdown_all-AllClosing ended r some_session = by_sessions r.sessions refl
  where
    by_sessions :
        (d : Dict ℕ (Option SessionEndReason))
        → r.sessions ≡ d
        → AllClosing (shutdown_all ended r)
          × ((shutdown_all ended r).cancelled ≡ values (shutdown_all ended r).tasks)
    by_sessions [] e = elim (some_session e) [ ]
    by_sessions (s ∷ d) e = rw e (
      record {
        closing =
            (unregister_all-AllClosing ended (record r { sessions = close_all (s ∷ d) })
              (record { closing = λ k. close_all-lookup k (s ∷ d) })).closing;
      },
      refl,
    )
