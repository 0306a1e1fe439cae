-- ===== src/Chat/Session/Round.antt =====
-- A round of a session blocks on the queue or has an answer of the agent, so that the clock moves.
use saas_ai_agents_long_term.Prelude.{
  ℕ, suc, ◌≤◌, String, Bool, true, false, Option, none, some, List, ◌∷◌, inl, inr, ◌≡◌, refl, subst,
  sym, arith, ◌==◌, string_eq, nat_eq,
}
use saas_ai_agents_long_term.Prelude.Text.{Text}
use saas_ai_agents_long_term.Effect.{Result, ok, err, Exec, continue, gets, cond, pure, ◌>>=◌}
use saas_ai_agents_long_term.Effect.Preserves.{Preserves, bind-ends, pure-Preserves}
use saas_ai_agents_long_term.Effect.Inversion.{gets-bind, bind-continue, cond-false}
use saas_ai_agents_long_term.Json.{Json, null, bool, num, str, arr, obj}
use saas_ai_agents_long_term.World.{World}
use saas_ai_agents_long_term.Chat.Lifecycle.{remaining-expired, remaining, expired, mark_user_input}
use saas_ai_agents_long_term.Chat.InputQueue.{blpop_timeout, wait_for_message, read_message}
use saas_ai_agents_long_term.Chat.Session.{
  Chat, on_world, set_status, wait, take_message, round, popped,
}
use saas_ai_agents_long_term.Chat.Session.Clock.{
  Since, Forward, on_world-Forward, update-Forward, AskTakesTime, BlocksOrFinds, Blocked, Advanced,
  returned-Advanced, run_one_turn-Advanced,
}

module _ (ask : String → Exec Chat (List String)) (joined : List String → String)
    (post_turn : Exec Chat (Unit {0})) (block : ℕ → Exec Chat (Unit {0}))
    (loads : Text → Option Json) (to_text : Json → String) where
  -- A message was taken, or the clock has moved.
  abbrev Taken : ℕ → ℕ → ℕ → Result (Option String) × Chat → Type 0
  Taken s l n (ok (some text), c) = Since s l n c
  Taken s l n (ok none, c) = Since s l (suc n) c
  Taken s l n (err e, c) = Unit

  with_queue-Since :
      (s l n : ℕ) (c : Chat) (q : List Text) → Since s l n c → Since s l n (record c { queue = q })
  with_queue-Since s l n c q h = record {
    same_start = h.same_start;
    same_limit = h.same_limit;
    not_before = h.not_before;
  }

  popped_late :
      (s l n : ℕ) (c : Chat) (r : Result (Option String) × List Text)
      → Since s l n c
      → suc n ≤ c.now
      → Taken s l n (popped ask joined post_turn block loads to_text c r)
  popped_late s l n c (ok (some text), q) h later = with_queue-Since s l n c q h
  popped_late s l n c (ok none, q) h later = record {
    same_start = h.same_start;
    same_limit = h.same_limit;
    not_before = later;
  }
  popped_late s l n c (err e, q) h later = tt

  popped_message :
      (s l n : ℕ) (c : Chat) (raw : Text) (q : List Text) (j : Json)
      → loads raw ≡ some j
      → Since s l n c
      → Taken s l n (
          popped ask joined post_turn block loads to_text c
            (wait_for_message loads to_text (raw ∷ q)))
  unfolding wait_for_message
  popped_message s l n c raw q j e h = rw e (go j)
    where
      go :
          (j : Json)
          → Taken s l n (
              popped ask joined post_turn block loads to_text c
                (read_message loads to_text (some j), q))
      go null = tt
      go (bool b) = tt
      go (num n') = tt
      go (str t) = tt
      go (arr js) = tt
      go (obj fs) = with_queue-Since s l n c q h

  popped-Taken :
      (s l n : ℕ) (c : Chat)
      → Blocked ask joined post_turn block loads to_text s l n c
      → Taken s l n (
          popped ask joined post_turn block loads to_text c
            (wait_for_message loads to_text c.queue))
  popped-Taken s l n c h = elim h.waited_or_found [
    | inl later ↦ popped_late s l n c (wait_for_message loads to_text c.queue) h.since later
    | inr m ↦
        subst
          (λ q.
            Taken s l n (
              popped ask joined post_turn block loads to_text c (wait_for_message loads to_text q)))
          (sym m.first) (popped_message s l n c m.raw m.rest m.json m.readable h.since)
  ]

  blpop_timeout-positive : (budget : ℕ) → 1 ≤ blpop_timeout budget
  unfolding blpop_timeout
  blpop_timeout-positive ℕ.zero = omega arith
  blpop_timeout-positive (ℕ.suc n) = omega arith

  wait-Taken :
      BlocksOrFinds ask joined post_turn block loads to_text
      → (budget s l n : ℕ) (c : Chat) → Since s l n c
      → Taken s l n (wait ask joined post_turn block loads to_text budget c)
  unfolding wait
  wait-Taken hb budget s l n c h =
      bind-ends (Blocked ask joined post_turn block loads to_text s l n) (Taken s l n) (block _) _ c
        (hb _ s l n c (blpop_timeout-positive budget) h) (λ a t ht. popped-Taken s l n t ht)
        (λ e t ht. tt)

  take_message-Advanced :
      AskTakesTime ask joined post_turn block loads to_text
      → Forward post_turn
      → (s l n : ℕ) (r : Result (Option String) × Chat) → Taken s l n r
      → Advanced ask joined post_turn block loads to_text s l n
          (continue r (take_message ask joined post_turn block loads to_text))
  unfolding take_message mark_user_input
  take_message-Advanced ha hp s l n (ok none, c) h =
      returned-Advanced ask joined post_turn block loads to_text s l n _
        ((pure-Preserves {P = Since s l (suc n)} (tt {0})).holds c h)
  take_message-Advanced ha hp s l n (ok (some text), c) h =
      bind-ends (Since s l n) (Advanced ask joined post_turn block loads to_text s l n) _ _ c
        ((update-Forward (λ (c : Chat). record c { lifecycle = mark_user_input c.now c.lifecycle })
            (λ c. refl) (λ c. refl) (λ c. refl) s l n).holds
          c h)
        (λ a t ht.
          run_one_turn-Advanced ask joined post_turn block loads to_text ha hp text false s l n t
            ht)
        (λ e t ht. tt)
  take_message-Advanced ha hp s l n (err e, c) h = tt

  wait_and_take :
      AskTakesTime ask joined post_turn block loads to_text
      → Forward post_turn
      → BlocksOrFinds ask joined post_turn block loads to_text
      → (budget s l n : ℕ) (c : Chat) → Since s l n c
      → Advanced ask joined post_turn block loads to_text s l n (
          (wait ask joined post_turn block loads to_text budget
              >>= take_message ask joined post_turn block loads to_text)
            c)
  wait_and_take ha hp hb budget s l n c h =
      subst (Advanced ask joined post_turn block loads to_text s l n)
        (sym (
          bind-continue (wait ask joined post_turn block loads to_text budget)
            (take_message ask joined post_turn block loads to_text) c))
        (take_message-Advanced ha hp s l n (wait ask joined post_turn block loads to_text budget c)
          (wait-Taken hb budget s l n c h))

  pub record Waiting (s l n : ℕ) (c : Chat) : Type 0 where
    pub since : Since s l n c
    pub unexpired : expired c.lifecycle c.now ≡ none

  on_world-Waiting {ℓ} :
      {A : Type ℓ} (m : Chat → Exec World A) (s l n : ℕ) → Preserves (Waiting s l n) (on_world m)
  unfolding on_world
  on_world-Waiting m s l n = record {
    holds = λ c h. record {
      since = (on_world-Forward m s l n).holds c h.since;
      unexpired = h.unexpired;
    };
  }

  pub round-Advanced :
      AskTakesTime ask joined post_turn block loads to_text
      → Forward post_turn
      → BlocksOrFinds ask joined post_turn block loads to_text
      → (s l n : ℕ) (c : Chat) → Waiting s l n c
      → Advanced ask joined post_turn block loads to_text s l n
          (round ask joined post_turn block loads to_text c)
  unfolding round set_status
  round-Advanced ha hp hb s l n c h =
      bind-ends (Waiting s l n) (Advanced ask joined post_turn block loads to_text s l n) _ _ c
        ((on_world-Waiting _ s l n).holds c h)
        (λ a c₁ h₁.
          bind-ends (Waiting s l n) (Advanced ask joined post_turn block loads to_text s l n) _ _ c₁
            ((on_world-Waiting _ s l n).holds c₁ h₁) (λ a c₂ h₂. by_budget c₂ h₂) (λ e c₂ h₂. tt))
        (λ e c₁ h₁. tt)
    where
      by_zero :
          (t : Chat)
          → Waiting s l n t
          → (b : Bool) → (remaining t.lifecycle t.now == 0) ≡ b
          → Advanced ask joined post_turn block loads to_text s l n (
              cond b
                (pure tt)
                (wait ask joined post_turn block loads to_text (remaining t.lifecycle t.now)
                  >>= take_message ask joined post_turn block loads to_text)
                t)
      by_zero t ht true e =
          elim ((remaining-expired t.lifecycle t.now).0 (ground arith) ht.unexpired) [ ]
      by_zero t ht false e =
          subst (Advanced ask joined post_turn block loads to_text s l n) (sym (cond-false _ _ t))
            (wait_and_take ha hp hb (remaining t.lifecycle t.now) s l n t ht.since)

      by_budget :
          (t : Chat)
          → Waiting s l n t
          → Advanced ask joined post_turn block loads to_text s l n (
              (gets (λ c. remaining c.lifecycle c.now) >>= λ budget. cond (budget == 0) (pure tt) (
                  wait ask joined post_turn block loads to_text budget
                  >>= take_message ask joined post_turn block loads to_text))
                t)
      by_budget t ht =
          subst (Advanced ask joined post_turn block loads to_text s l n)
            (sym (gets-bind (λ (c : Chat). remaining c.lifecycle c.now) _ t))
            (by_zero t ht (remaining t.lifecycle t.now == 0) refl)
