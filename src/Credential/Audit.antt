-- ===== src/Credential/Audit.antt =====
-- The audit log (src/credentials/audit.py): what each operation adds to it.
use Prim.Native.String.{◌++◌ as ◌<>◌}
use saas_ai_agents_long_term.Prelude.{
  ℕ, String, Bool, true, false, Option, none, some, ◌∷◌, ◌≡◌, refl, ap, sym, ◌∙◌, arith,
}
use saas_ai_agents_long_term.Prelude.Dict.{Dict}
use saas_ai_agents_long_term.Json.{Json}
use saas_ai_agents_long_term.Effect.{
  Error, Result, ok, err, Exec, settle, pure, raise, lift, cond, catch, modify, guard, ◌>>=◌,
}
use saas_ai_agents_long_term.Effect.Inversion.{middle}
use saas_ai_agents_long_term.Credential.{
  Vault, Credential, CredentialKind, CredentialEvent, CredentialEventType, created, read, resolved,
  deleted, create, get, record_event, save_credential, list_for_user, scope,
}
use saas_ai_agents_long_term.Credential.Payload.{Payload}
use saas_ai_agents_long_term.Credential.Adapter.{Adapter}
use saas_ai_agents_long_term.Credential.Operations.{
  Operation, to_create, to_list, to_get, to_delete, to_revoke, to_resolve, to_access, to_connect,
}

-- The type of the event that an operation leaves; listing leaves none.
abbrev pub event_type_of : Operation → Option CredentialEventType
event_type_of (to_list user_id offset limit kind) = none
event_type_of (to_create user_id kind label payload metadata) = some created
event_type_of (to_connect kind code state) = some created
event_type_of (to_get user_id key) = some read
event_type_of (to_resolve user_id key purpose) = some resolved
event_type_of (to_access user_id provider) = some resolved
event_type_of (to_delete user_id key) = some deleted
event_type_of (to_revoke user_id key) = some deleted

-- What stands in the log afterwards: as before, or one event more, of this type.
abbrev pub Logged : Option CredentialEventType → Vault → Vault → Type 0
Logged none v v' = v'.events ≡ v.events
Logged (some type) v v' = (e : CredentialEvent) × (v'.events ≡ e ∷ v.events) × (e.event_type ≡ type)

record Logs {ℓ} {A : Type ℓ} (t : Option CredentialEventType) (m : Exec Vault A) : Type ℓ where
  holds : (v v' : Vault) (a : A) → m v ≡ (ok a, v') → Logged t v v'

Logged-before :
    (t : Option CredentialEventType) (u v w : Vault) → Logged none u v → Logged t v w → Logged t u w
Logged-before none u v w h k = k ∙ h
Logged-before (some type) u v w h (e, k, same) = (e, k ∙ ap (λ es. e ∷ es) h, same)

Logged-then :
    (t : Option CredentialEventType) (u v w : Vault) → Logged t u v → Logged none v w → Logged t u w
Logged-then none u v w h k = k ∙ h
Logged-then (some type) u v w (e, h, same) k = (e, k ∙ h, same)

module _ {ℓ} {A : Type ℓ} where
  pure-Logs : (a : A) → Logs none (pure a)
  unfolding ◌>>=◌
  pure-Logs a = record { holds = λ v v' b h. ground arith }

  raise-Logs : (t : Option CredentialEventType) (e : Error) → Logs t (raise {A = A} e)
  unfolding ◌>>=◌
  raise-Logs t e = record { holds = λ v v' b h. ground arith }

  lift-Logs : (r : Result A) → Logs none (lift r)
  unfolding ◌>>=◌
  lift-Logs r = record { holds = λ v v' b h. ground arith }

  cond-Logs :
      (t : Option CredentialEventType) (b : Bool) (m n : Exec Vault A)
      → Logs t m
      → Logs t n
      → Logs t (cond b m n)
  unfolding ◌>>=◌
  cond-Logs t true m n hm hn = hm
  cond-Logs t false m n hm hn = hn

  scope-Logs : (t : Option CredentialEventType) (m : Exec Vault A) → Logs t m → Logs t (scope m)
  unfolding ◌>>=◌
  scope-Logs t m hm = record { holds = λ v v' a h. go v v' a (m v) refl h }
    where
      go :
          (v v' : Vault) (a : A) (r : Result A × Vault)
          → m v ≡ r
          → settle (λ (x : Vault). x) (λ d x. d) v r ≡ (ok a, v')
          → Logged t v v'
      go v v' a (ok b, w) e h = hm.holds v v' a (e ∙ h)
      go v v' a (err x, w) e h = cc

  -- The handlers of the program raise again, or leave the log alone.
  catch-Logs :
      (r : Result A) (handler : Error → Exec Vault A)
      → Logs none (lift r)
      → ((e : Error) → Logs none (handler e))
      → Logs none (catch (lift r) handler)
  unfolding ◌>>=◌
  catch-Logs (ok a) handler hm hh = hm
  catch-Logs (err e) handler hm hh = hh e

module _ {ℓ κ} {A : Type ℓ} {B : Type κ} (t : Option CredentialEventType) (m : Exec Vault A)
    (f : A → Exec Vault B) where
  bind-then_Logs : Logs none m → ((a : A) → Logs t (f a)) → Logs t (m >>= f)
  bind-then_Logs hm hf = record {
    holds = λ v v' b h.
        let k = middle m f v v' b h in
        Logged-before t v k.state v' (hm.holds v k.state k.value k.first)
          ((hf k.value).holds k.state v' b k.second);
  }

  bind-first_Logs : Logs t m → ((a : A) → Logs none (f a)) → Logs t (m >>= f)
  bind-first_Logs hm hf = record {
    holds = λ v v' b h.
        let k = middle m f v v' b h in
        Logged-then t v k.state v' (hm.holds v k.state k.value k.first)
          ((hf k.value).holds k.state v' b k.second);
  }

guard-Logs : (b : Bool) (e : Error) → Logs none (guard b e)
unfolding ◌>>=◌
guard-Logs true e = record { holds = λ v v' a h. ground arith }
guard-Logs false e = record { holds = λ v v' a h. ground arith }

save-Logs : (c : Credential) → Logs none (modify (save_credential c))
unfolding ◌>>=◌ save_credential
save-Logs c = record { holds = λ v v' a h. ap (λ o. o.1.events) (sym h) }

create-Logs :
    (user_id : ℕ) (kind : CredentialKind) (label payload preview : String)
    (metadata : Dict String Json)
    → Logs none (create user_id kind label payload preview metadata)
unfolding create
create-Logs user_id kind label payload preview metadata = record {
  holds = λ v v' a h. ap (λ o. o.1.events) (sym h);
}

get-Logs : (user_id key : ℕ) → Logs none (get user_id key false)
unfolding get
get-Logs user_id key = record { holds = λ v v' a h. ap (λ o. o.1.events) (sym h) }

list-Logs :
    (user_id offset limit : ℕ) (kind : Option CredentialKind)
    → Logs none (list_for_user user_id offset limit kind)
unfolding list_for_user
list-Logs user_id offset limit kind = record { holds = λ v v' a h. ap (λ o. o.1.events) (sym h) }

record_event-Logs :
    (user_id key : ℕ) (type : CredentialEventType) (details : Dict String Json)
    → Logs (some type) (record_event user_id key type details)
unfolding record_event
record_event-Logs user_id key type details = record {
  holds = λ v v' a h. (_, ap (λ o. o.1.events) (sym h), refl);
}

ruleset log_rules = (
  pure-Logs, raise-Logs, lift-Logs, cond-Logs, scope-Logs, catch-Logs, bind-then_Logs,
  bind-first_Logs, guard-Logs, save-Logs, create-Logs, get-Logs, list-Logs, record_event-Logs,
)

-- The outcome of an operation, with what it did to the log.
abbrev pub Audited : Operation → Vault → Result (Unit {0}) × Vault → Type 0
Audited o v (ok tt, v') = Logged (event_type_of o) v v'
Audited o v (err e, v') = v' ≡ v

-- An operation that raises in its scope leaves the vault as it was.
record RollsBack {ℓ} {A : Type ℓ} (m : Exec Vault A) : Type ℓ where
  holds : (v v' : Vault) (e : Error) → m v ≡ (err e, v') → v' ≡ v
