-- ===== src/Effect.antt =====
-- Exceptions and effects. A coroutine that runs without being interleaved is an action on a state:
-- what it wrote before it raised stays written, unless a transaction rolls it back
-- (src/utils/exceptions.py, src/integrations/_shared/exceptions.py, src/db/session.py).
pub mod Preserves
pub mod Inversion
use saas_ai_agents_long_term.Prelude.{String, Bool, true, false}

-- The exception classes. `foreign` is any other exception, with what `str` gives for it.
pub data Error : Type 0 where
  not_found already_exists authentication authorization conflict external_service : Error
  webhook_retry_later pipeline validation : Error
  credential_kind_not_supported invalid_credential_payload crypto_decrypt : Error
  provider_auth provider_refresh provider_api provider_rate_limit provider_config : Error
  runtime value_error not_implemented : Error
  foreign : String → Error

pub data Result {ℓ} (A : Type ℓ) : Type ℓ where
  ok : A → Result A
  err : Error → Result A

abbrev pub Exec {ℓ κ} : Type ℓ → Type κ → Type (ℓ ⊔ κ)
Exec S A = S → Result A × S

module _ {ℓ κ} {S : Type ℓ} {A : Type κ} where
  pub pure : A → Exec S A
  pure a s = (ok a, s)

  pub raise : Error → Exec S A
  raise e s = (err e, s)

  pub lift : Result A → Exec S A
  lift r s = (r, s)

  pub gets : (S → A) → Exec S A
  gets f s = (ok (f s), s)

  abbrev pub recover : Result A × S → (Error → Exec S A) → Result A × S
  recover (ok a, s) handler = (ok a, s)
  recover (err e, s) handler = handler e s

  -- `try: m except Exception as e: handler(e)`
  pub catch : Exec S A → (Error → Exec S A) → Exec S A
  catch m handler s = recover (m s) handler

  abbrev and_then : Result A × S → (S → S) → Result A × S
  and_then (r, s) f = (r, f s)

  -- `try: m finally: f`, where `f` does not raise
  pub finally : Exec S A → (S → S) → Exec S A
  finally m f s = and_then (m s) f

  pub cond : Bool → Exec S A → Exec S A → Exec S A
  cond true m n = m
  cond false m n = n

pub modify {ℓ} : {S : Type ℓ} → (S → S) → Exec S (Unit {0})
modify f s = (ok tt, f s)

pub guard {ℓ} : {S : Type ℓ} → Bool → Error → Exec S (Unit {0})
unfolding pure raise
guard true e = pure tt
guard false e = raise e

-- `session_scope` and `get_session`: the database part of the state is committed when the body
-- returns, and is as it was before when the body raises.
module _ {ℓ κ μ} {S : Type ℓ} {D : Type κ} {A : Type μ} (db : S → D) (with_db : D → S → S) where
  abbrev pub settle : S → Result A × S → Result A × S
  settle s₀ (ok a, s) = (ok a, s)
  settle s₀ (err e, s) = (err e, with_db (db s₀) s)

  pub transaction : Exec S A → Exec S A
  transaction m s = settle s (m s)

module _ {ℓ κ μ} {S : Type ℓ} {A : Type κ} {B : Type μ} where
  abbrev pub continue : Result A × S → (A → Exec S B) → Result B × S
  continue (ok a, s) f = f a s
  continue (err e, s) f = (err e, s)

  infixl 10 ◌>>=◌ ◌>>◌
  -- To unfold this is to unfold every other action of this module.
  unfoldable pub ◌>>=◌ : Exec S A → (A → Exec S B) → Exec S B
  unfolding pure raise lift gets modify guard catch finally cond transaction
  ◌>>=◌ m f s = continue (m s) f

  abbrev pub ◌>>◌ : Exec S A → Exec S B → Exec S B
  m >> n = m >>= λ _. n
