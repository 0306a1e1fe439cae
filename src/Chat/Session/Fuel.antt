-- ===== src/Chat/Session/Fuel.antt =====
-- The loop of a session ends: its hard timeout bounds the rounds.
use saas_ai_agents_long_term.Prelude.{
  ℕ, zero, suc, ◌+◌, ◌-◌, ◌<◌, ◌≤◌, String, Bool, true, false, Option, none, some, List, ◌≡◌, ◌≢◌,
  refl, subst, sym, arith, string_eq, nat_eq,
}
use saas_ai_agents_long_term.Prelude.Text.{Text}
use saas_ai_agents_long_term.Effect.{
  Error, Result, ok, err, Exec, continue, recover, cond, pure, ◌>>=◌,
}
use saas_ai_agents_long_term.Effect.Preserves.{bind-ends, pure-Preserves}
use saas_ai_agents_long_term.Effect.Inversion.{gets-bind, cond-true, cond-false}
use saas_ai_agents_long_term.Json.{Json}
use saas_ai_agents_long_term.World.{SessionEndReason, error}
use saas_ai_agents_long_term.Chat.Lifecycle.{Lifecycle, expired}
use saas_ai_agents_long_term.Chat.Session.{
  Chat, run_one_turn, round, why_end, loop, end_session, session_body, run,
}
use saas_ai_agents_long_term.Chat.Session.Clock.{
  Since, Forward, AskTakesTime, BlocksOrFinds, Advanced, run_one_turn-Advanced,
}
use saas_ai_agents_long_term.Chat.Session.Round.{round-Advanced}

module _ (ask : String → Exec Chat (List String)) (joined : List String → String)
    (post_turn : Exec Chat (Unit {0})) (block : ℕ → Exec Chat (Unit {0}))
    (loads : Text → Option Json) (to_text : Json → String) where
  abbrev Finishes : Result (Option SessionEndReason) × Chat → Type 0
  Finishes r = r.0 ≢ ok none

  some-Finishes :
      (m : Exec Chat SessionEndReason) (c : Chat) → Finishes ((m >>= λ r. pure (some r)) c)
  unfolding ◌>>=◌
  some-Finishes m c = go (m c)
    where
      go : (r : Result SessionEndReason × Chat) → Finishes (continue r (λ r. pure (some r)))
      go (ok r, t) k = cc
      go (err e, t) k = cc

  after_round :
      (s l n : ℕ) (m : Exec Chat (Unit {0})) (rest : Exec Chat (Option SessionEndReason)) (c : Chat)
      → Advanced ask joined post_turn block loads to_text s l n (m c)
      → ((t : Chat) → Since s l (suc n) t → Finishes (rest t))
      → Finishes ((m >>= λ _. rest) c)
  unfolding ◌>>=◌
  after_round s l n m rest c h hr = go (m c) h
    where
      go :
          (r : Result (Unit {0}) × Chat)
          → Advanced ask joined post_turn block loads to_text s l n r
          → Finishes (continue r (λ _. rest))
      go (ok a, t) k = hr t k
      go (err e, t) k = λ z. cc

  why_end-none :
      (c : Chat)
      → why_end ask joined post_turn block loads to_text c ≡ none
      → expired c.lifecycle c.now ≡ none
  unfolding why_end
  why_end-none c h = ground arith

  expired-none :
      (l : Lifecycle) (now : ℕ) → expired l now ≡ none → now - l.started_at < l.hard_timeout
  unfolding expired
  expired-none l now h = ground arith

  out_of_time :
      (s l n : ℕ) (c : Chat)
      → s ≤ n
      → l < n - s + 1
      → Since s l n c
      → c.now - c.lifecycle.started_at < c.lifecycle.hard_timeout
      → ⊥
  out_of_time s l n c le enough h u = omega (arith, h.same_start, h.same_limit, h.not_before)

  step-Finishes :
      (fuel : ℕ) (c : Chat)
      → (expired c.lifecycle c.now ≡ none
          → Finishes (
              (round ask joined post_turn block loads to_text >>= λ _.
              loop ask joined post_turn block loads to_text fuel)
                c))
      → Finishes (loop ask joined post_turn block loads to_text (suc fuel) c)
  unfolding loop
  step-Finishes fuel c h =
      subst Finishes (sym (gets-bind (why_end ask joined post_turn block loads to_text) _ c))
        (by_why (why_end ask joined post_turn block loads to_text c) refl)
    where
      by_why :
          (w : Option SessionEndReason)
          → why_end ask joined post_turn block loads to_text c ≡ w
          → Finishes (
              elim w as (λ _. Exec Chat (Option SessionEndReason)) [
                | none ↦ round ask joined post_turn block loads to_text >>= λ _.
                    loop ask joined post_turn block loads to_text fuel
                | some reason ↦ end_session reason none >>= λ r. pure (some r)
              ]
                c)
      by_why none e = h (why_end-none c e)
      by_why (some reason) e = some-Finishes (end_session reason none) c

  loop-Finishes :
      AskTakesTime ask joined post_turn block loads to_text
      → Forward post_turn
      → BlocksOrFinds ask joined post_turn block loads to_text
      → (fuel s l n : ℕ) (c : Chat) → s ≤ n
      → l < n - s + suc fuel
      → Since s l n c
      → Finishes (loop ask joined post_turn block loads to_text (suc fuel) c)
  loop-Finishes ha hp hb zero s l n c le enough h =
      step-Finishes zero c
        (λ u. elim (out_of_time s l n c le enough h (expired-none c.lifecycle c.now u)) [ ])
  loop-Finishes ha hp hb (suc fuel) s l n c le enough h = step-Finishes (suc fuel) c (λ u.
      after_round s l n (round ask joined post_turn block loads to_text) _ c
        (round-Advanced ask joined post_turn block loads to_text ha hp hb s l n c
          (record { since = h; unexpired = u }))
        (λ t ht.
          loop-Finishes ha hp hb fuel s l (suc n) t (omega (arith, le)) (omega (arith, enough, le))
            ht))

  module _ (connect disconnect : Exec Chat (Unit {0})) (cleared : Result (Unit {0}))
      (error_text : Error → String) where
    body-Finishes :
        AskTakesTime ask joined post_turn block loads to_text
        → Forward post_turn
        → BlocksOrFinds ask joined post_turn block loads to_text
        → (is_resumed : Bool) (initial_prompt : String) (c : Chat) → c.lifecycle.started_at ≤ c.now
        → Finishes (
            session_body ask joined post_turn block loads to_text connect disconnect cleared
              error_text
              (suc c.lifecycle.hard_timeout)
              is_resumed
              initial_prompt
              c)
    unfolding session_body
    body-Finishes ha hp hb true initial_prompt c le =
        bind-ends (Since c.lifecycle.started_at c.lifecycle.hard_timeout c.now) Finishes
          (cond true (pure tt)
            (run_one_turn ask joined post_turn block loads to_text initial_prompt true))
          _ c
          (subst
            (λ (r : Result (Unit {0}) × Chat).
              Since c.lifecycle.started_at c.lifecycle.hard_timeout c.now r.1)
            (sym (cond-true _ _ c))
            ((pure-Preserves {P = Since c.lifecycle.started_at c.lifecycle.hard_timeout c.now}
                (tt {0})).holds
              c (record { same_start = refl; same_limit = refl; not_before = omega arith })))
          (λ a t ht. loop-Finishes ha hp hb _ _ _ _ t le (omega arith) ht) (λ e t ht. λ z. cc)
    body-Finishes ha hp hb false initial_prompt c le =
        after_round c.lifecycle.started_at c.lifecycle.hard_timeout c.now
          (cond false (pure tt)
            (run_one_turn ask joined post_turn block loads to_text initial_prompt true))
          _ c
          (subst
            (Advanced ask joined post_turn block loads to_text c.lifecycle.started_at
              c.lifecycle.hard_timeout c.now)
            (sym (cond-false _ _ c))
            (run_one_turn-Advanced ask joined post_turn block loads to_text ha hp initial_prompt
              true _ _ _ c
              (record { same_start = refl; same_limit = refl; not_before = omega arith })))
          (λ t ht. loop-Finishes ha hp hb _ _ _ _ t (omega (arith, le)) (omega (arith, le)) ht)

    finished-anyway :
        (r : Result (Option SessionEndReason) × Chat) (handler : Error → Exec Chat SessionEndReason)
        → Finishes r
        → Finishes (recover r (λ e. handler e >>= λ reason. pure (some reason)))
    finished-anyway (ok a, t) handler h = h
    finished-anyway (err e, t) handler h = some-Finishes (handler e) t

    -- A session ends. If an answer of the agent takes a tick of the clock, and blocking on the
    -- queue with a timeout of one tick at least either takes a tick or finds a message that is
    -- JSON, and none of them nor the callback moves the hard clock or sets time back, then one
    -- round for each tick of the hard timeout, and one more, are enough: `run` does not run out of
    -- fuel.
    pub run-ends :
        AskTakesTime ask joined post_turn block loads to_text
        → Forward post_turn
        → BlocksOrFinds ask joined post_turn block loads to_text
        → (is_resumed : Bool) (initial_prompt : String) (c c₁ : Chat)
        → connect (record c { has_client = true }) ≡ (ok tt, c₁)
        → c₁.lifecycle.started_at ≤ c₁.now
        → (run ask joined post_turn block loads to_text connect disconnect cleared error_text
            (suc c₁.lifecycle.hard_timeout)
            is_resumed
            initial_prompt
            c).0
          ≢ ok none
    unfolding run ◌>>=◌
    run-ends ha hp hb is_resumed initial_prompt c c₁ e le = rw e (
        finished-anyway _ (λ x. end_session error (some (error_text x)))
          (body-Finishes ha hp hb is_resumed initial_prompt c₁ le))
