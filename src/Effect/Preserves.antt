-- ===== src/Effect/Preserves.antt =====
-- Invariants of actions: one rule for each way to build an action. An invariant is kept whether the
-- action returns or raises.
use saas_ai_agents_long_term.Prelude.{◌≡◌, refl, Bool, true, false}
use saas_ai_agents_long_term.Effect.{
  recover, continue, settle, Error, Result, ok, err, Exec, pure, raise, lift, gets, catch, cond,
  modify, guard, transaction, ◌>>=◌,
}

pub record Preserves {ℓ κ μ} {S : Type ℓ} {A : Type κ} (P : S → Type μ) (m : Exec S A)
    : Type (ℓ ⊔ κ ⊔ μ) where
  pub holds : (s : S) → P s → P (m s).1

module _ {ℓ κ μ} {S : Type ℓ} {A : Type κ} {P : S → Type μ} where
  pub pure-Preserves : (a : A) → Preserves P (pure a)
  unfolding ◌>>=◌
  pure-Preserves a = record { holds = λ s h. h }

  pub raise-Preserves : (e : Error) → Preserves P (raise {A = A} e)
  unfolding ◌>>=◌
  raise-Preserves e = record { holds = λ s h. h }

  pub lift-Preserves : (r : Result A) → Preserves P (lift r)
  unfolding ◌>>=◌
  lift-Preserves r = record { holds = λ s h. h }

  pub gets-Preserves : (f : S → A) → Preserves P (gets f)
  unfolding ◌>>=◌
  gets-Preserves f = record { holds = λ s h. h }

  pub catch-Preserves :
      (m : Exec S A) (handler : Error → Exec S A)
      → Preserves P m
      → ((e : Error) → Preserves P (handler e))
      → Preserves P (catch m handler)
  unfolding ◌>>=◌
  catch-Preserves m handler hm hh = record { holds = λ s h. go (m s) (hm.holds s h) }
    where
      go : (r : Result A × S) → P r.1 → P (recover r handler).1
      go (ok a, s) h = h
      go (err e, s) h = (hh e).holds s h

  pub cond-Preserves :
      (b : Bool) (m n : Exec S A)
      → (b ≡ true → Preserves P m)
      → (b ≡ false → Preserves P n)
      → Preserves P (cond b m n)
  unfolding ◌>>=◌
  cond-Preserves true m n hm hn = hm refl
  cond-Preserves false m n hm hn = hn refl

module _ {ℓ μ} {S : Type ℓ} {P : S → Type μ} where
  pub guard-Preserves : (b : Bool) (e : Error) → Preserves P (guard b e)
  unfolding ◌>>=◌
  guard-Preserves true e = record { holds = λ s h. h }
  guard-Preserves false e = record { holds = λ s h. h }

  pub modify-Preserves : (f : S → S) → ((s : S) → P s → P (f s)) → Preserves P (modify f)
  unfolding ◌>>=◌
  modify-Preserves f h = record { holds = h }

module _ {ℓ κ λ' μ} {S : Type ℓ} {A : Type κ} {B : Type λ'} {P : S → Type μ} where
  pub bind-Preserves :
      (m : Exec S A) (f : A → Exec S B)
      → Preserves P m
      → ((a : A) → Preserves P (f a))
      → Preserves P (m >>= f)
  unfolding ◌>>=◌
  bind-Preserves m f hm hf = record { holds = λ s h. go (m s) (hm.holds s h) }
    where
      go : (r : Result A × S) → P r.1 → P (continue r f).1
      go (ok a, s) h = (hf a).holds s h
      go (err e, s) h = h

module _ {ℓ κ λ' μ} {S : Type ℓ} {D : Type κ} {A : Type λ'} {P : S → Type μ} (db : S → D)
    (with_db : D → S → S) where
  -- A roll-back keeps what holds of the old database beside the new rest.
  pub transaction-Preserves :
      (m : Exec S A)
      → ((s₀ s : S) → P s₀ → P s → P (with_db (db s₀) s))
      → Preserves P m
      → Preserves P (transaction db with_db m)
  unfolding ◌>>=◌
  transaction-Preserves m mixed hm = record { holds = λ s h. go s h (m s) (hm.holds s h) }
    where
      go : (s₀ : S) → P s₀ → (r : Result A × S) → P r.1 → P (settle db with_db s₀ r).1
      go s₀ h₀ (ok a, s) h = h
      go s₀ h₀ (err e, s) h = mixed s₀ s h₀ h

pub ruleset preserves_rules = (
  pure-Preserves, raise-Preserves, lift-Preserves, gets-Preserves, catch-Preserves, cond-Preserves,
  guard-Preserves, bind-Preserves,
)

module _ {ℓ κ λ' μ ν} {S : Type ℓ} {A : Type κ} {B : Type λ'} (P : S → Type μ)
    (R : Result B × S → Type ν) where
  -- What holds at the end of a sequence: the first action keeps `P`, and from `P` both the rest and an
  -- early exit end in `R`.
  pub bind-ends :
      (m : Exec S A) (f : A → Exec S B) (s : S)
      → P (m s).1
      → ((a : A) (t : S) → P t → R (f a t))
      → ((e : Error) (t : S) → P t → R (err e, t))
      → R ((m >>= f) s)
  unfolding ◌>>=◌
  bind-ends m f s h rest exit = go (m s) h
    where
      go : (r : Result A × S) → P r.1 → R (continue r f)
      go (ok a, t) h = rest a t h
      go (err e, t) h = exit e t h

-- A handler that returns makes the whole return.
pub catch-returns {ℓ κ} :
    {S : Type ℓ} {A : Type κ} (m : Exec S A) (handler : Error → Exec S A) (s : S)
    → ((e : Error) (t : S) → (a : A) × ((handler e t).0 ≡ ok a))
    → (a : A) × ((catch m handler s).0 ≡ ok a)
unfolding ◌>>=◌
catch-returns {S = S} {A = A} m handler s h = go (m s)
  where
    go : (r : Result A × S) → (a : A) × ((recover r handler).0 ≡ ok a)
    go (ok a, t) = (a, refl)
    go (err e, t) = h e t
