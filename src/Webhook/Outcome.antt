-- ===== src/Webhook/Outcome.antt =====
-- How a background fix ends: `run_devops_fix` returns whatever the agents do, and leaves the task,
-- if it is still there, in one of three statuses with the attempt counted.
use saas_ai_agents_long_term.Prelude.{
  ℕ, ◌+◌, String, Bool, true, false, none, some, [], ◌∷◌, ◌≡◌, ◌⊎◌, inl, inr, Option-cases, refl,
  sym, arith, find_first, find_first-holds,
}
use saas_ai_agents_long_term.Prelude.Dict.{Dict}
use saas_ai_agents_long_term.Prelude.Table.{find_first-save_self}
use saas_ai_agents_long_term.Effect.{Error, Result, ok, err, Exec, recover, ◌>>=◌}
use saas_ai_agents_long_term.Effect.Preserves.{bind-ends}
use saas_ai_agents_long_term.Json.{Json}
use saas_ai_agents_long_term.World.{
  TaskStatus, awaiting_ci, needs_human, failed, Task, World, FixJob, publish, close_task,
}
use saas_ai_agents_long_term.Task.{get, owned_by, update_status, patched, store, Patch}
use saas_ai_agents_long_term.Task.Service.{record_failure}
use saas_ai_agents_long_term.Webhook.{
  run_devops_fix, report_fix_failure, attempt_fix, finish_fix, record_fix, fix_outcome, fix_patch,
}

-- Where a fix may leave the task.
abbrev pub is_fix_end : TaskStatus → Bool
is_fix_end awaiting_ci = true
is_fix_end needs_human = true
is_fix_end failed = true
is_fix_end _ = false

fix_outcome-ends : (urls : Dict String Json) → is_fix_end (fix_outcome urls) ≡ true
fix_outcome-ends [] = refl
fix_outcome-ends (_ ∷ _) = refl

module _ (user_id task_id : ℕ) where
  pub record Ended (attempt : ℕ) (w : World) : Type 0 where
    pub row : Task
    pub found : find_first (owned_by user_id task_id) w.db.tasks ≡ some row
    pub counted : row.attempt ≡ attempt
    pub ended : is_fix_end row.status ≡ true

  -- The fix has ended the task, or the task is gone.
  abbrev pub EndedOrGone : ℕ → World → Type 0
  EndedOrGone attempt w =
      Ended attempt w ⊎ (find_first (owned_by user_id task_id) w.db.tasks ≡ none)

  -- A write to the row that was found is found again.
  store-found :
      (w : World) (t t' : Task)
      → find_first (owned_by user_id task_id) w.db.tasks ≡ some t
      → t'.id ≡ t.id
      → t'.user_id ≡ t.user_id
      → find_first (owned_by user_id task_id) (store t' w).db.tasks ≡ some t'
  unfolding store
  store-found w t t' h e u =
      find_first-save_self (λ (t : Task). t.id) (owned_by user_id task_id) t t' w.db.tasks h (sym e)
        (ground (arith, find_first-holds (owned_by user_id task_id) w.db.tasks t h))

  record_failure-EndedOrGone :
      (w : World) (p : Patch) (n : ℕ)
      → p.attempt ≡ some n
      → EndedOrGone n (record_failure user_id task_id p w).1
  unfolding record_failure get update_status ◌>>=◌
  record_failure-EndedOrGone w p n e =
      elim (Option-cases (find_first (owned_by user_id task_id) w.db.tasks)) [
        | inl gone ↦ rw (gone, get) (inr gone)
        | inr (t, found) ↦
            rw (found, get)
              (inl (record {
                row = patched t failed p;
                found = store-found w t _ found (unfold patched in refl) (unfold patched in refl);
                counted = unfold patched in rw e refl;
                ended = unfold patched in refl;
              }))
      ]

module _ (job : FixJob) where
  -- A fix that returns has ended.
  abbrev EndedIfReturns : Result (Unit {0}) × World → Type 0
  EndedIfReturns (ok a, w) = EndedOrGone job.user_id job.task_id (job.attempt + 1) w
  EndedIfReturns (err e, w) = Unit

  finish_fix-ends : (urls : Dict String Json) (w : World) → EndedIfReturns (finish_fix job urls w)
  unfolding finish_fix record_fix get update_status publish close_task ◌>>=◌
  finish_fix-ends urls w =
      elim (Option-cases (find_first (owned_by job.user_id job.task_id) w.db.tasks)) [
        | inl gone ↦ rw (gone, get) tt
        | inr (t, found) ↦
            rw (found, get)
              (inl (record {
                row = patched t (fix_outcome urls) (fix_patch job urls);
                found =
                    store-found job.user_id job.task_id w t _ found (unfold patched in refl)
                      (unfold patched in refl);
                counted = unfold patched in refl;
                ended = unfold patched in fix_outcome-ends urls;
              }))
      ]

  record_failure-ok :
      (w : World) (p : Patch) → (record_failure job.user_id job.task_id p w).0 ≡ ok tt
  unfolding record_failure get update_status ◌>>=◌
  record_failure-ok w p = ground arith

  report_fix_failure_lem :
      (error_text : Error → String) (e : Error) (w : World)
      → let r = report_fix_failure error_text job e w in
        (r.0 ≡ ok tt) × EndedOrGone job.user_id job.task_id (job.attempt + 1) r.1
  unfolding report_fix_failure ◌>>=◌ publish close_task
  report_fix_failure_lem error_text e w =
      (record_failure-ok _ _, record_failure-EndedOrGone job.user_id job.task_id _ _ _ refl)

-- A sequence that ends in a fix that returned.
bind-EndedIfReturns {κ} :
    {A : Type κ} (job : FixJob) (m : Exec World A) (f : A → Exec World (Unit {0}))
    → ((a : A) (w : World) → EndedIfReturns job (f a w))
    → (w : World) → EndedIfReturns job ((m >>= f) w)
bind-EndedIfReturns job m f h w =
    bind-ends (λ v. Unit {0}) (EndedIfReturns job) m f w tt (λ a t u. h a t) (λ e t u. tt)

module _ (uuid_text : ℕ → String) (error_text : Error → String)
    (ci_failure_prompt : ℕ → String → ℕ → String → String)
    (orchestrator publisher : Dict String Json → Exec World (Dict String Json)) (job : FixJob) where
  attempt_fix-ends :
      (w : World)
      → EndedIfReturns job
          (attempt_fix uuid_text error_text ci_failure_prompt orchestrator publisher job w)
  unfolding attempt_fix
  attempt_fix-ends = bind-EndedIfReturns job _ _ (λ task.
      bind-EndedIfReturns job (orchestrator _) _ (λ planned.
        bind-EndedIfReturns job (publisher _) _
          (λ published. bind-EndedIfReturns job _ _ (λ urls. finish_fix-ends job urls))))

  -- A background fix returns and never raises, whatever the agents do. At its end the task is in
  -- `awaiting_ci`, `needs_human` or `failed`, with this attempt counted, or it is not there any
  -- more for its owner.
  pub run_devops_fix_lem :
      (w : World)
      → let r =
          run_devops_fix uuid_text error_text ci_failure_prompt orchestrator publisher job w in
        (r.0 ≡ ok tt) × EndedOrGone job.user_id job.task_id (job.attempt + 1) r.1
  unfolding run_devops_fix ◌>>=◌
  run_devops_fix_lem w =
      go (attempt_fix uuid_text error_text ci_failure_prompt orchestrator publisher job w)
        (attempt_fix-ends w)
    where
      go :
          (r : Result (Unit {0}) × World)
          → EndedIfReturns job r
          → let r' = recover r (report_fix_failure error_text job) in
            (r'.0 ≡ ok tt) × EndedOrGone job.user_id job.task_id (job.attempt + 1) r'.1
      go (ok a, w') h = (refl, h)
      go (err e, w') h = report_fix_failure_lem job error_text e w'
