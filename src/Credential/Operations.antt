-- ===== src/Credential/Operations.antt =====
-- Everything that the program does to the vault, as one operation, and runs of operations. Each runs
-- in a request or a scope of its own (src/credentials/, src/db/session.py).
use saas_ai_agents_long_term.Prelude.{ℕ, String, Option, List, [], ◌∷◌}
use saas_ai_agents_long_term.Prelude.Dict.{Dict}
use saas_ai_agents_long_term.Effect.{Exec, pure, ◌>>=◌}
use saas_ai_agents_long_term.Json.{Json}
use saas_ai_agents_long_term.Credential.{Vault, CredentialKind, scope}
use saas_ai_agents_long_term.Credential.Service.{
  create_credential, get_credential, delete_credential, list_credentials,
}
use saas_ai_agents_long_term.Credential.Refresh.{Refresher, resolve, get_access_token}
use saas_ai_agents_long_term.Credential.Adapter.{Adapter}
use saas_ai_agents_long_term.Credential.Flow.{connect, revoke}

pub data Operation : Type 0 where
  to_create : ℕ → CredentialKind → String → Dict String Json → Option (Dict String Json) → Operation
  to_list : ℕ → ℕ → ℕ → Option CredentialKind → Operation
  to_get to_delete to_revoke : ℕ → ℕ → Operation
  to_resolve : ℕ → ℕ → Option String → Operation
  to_access : ℕ → String → Operation
  to_connect : String → String → String → Operation

abbrev pub ignoring {ℓ} : {A : Type ℓ} → Exec Vault A → Exec Vault (Unit {0})
ignoring m = m >>= λ a. pure tt

module _ (r : Refresher) (adapter : Adapter) where
  unfoldable pub perform : Operation → Exec Vault (Unit {0})
  perform (to_create user_id kind label payload metadata) =
      scope (ignoring (create_credential r.lib user_id kind label payload metadata))
  perform (to_list user_id offset limit kind) =
      scope (ignoring (list_credentials user_id offset limit kind))
  perform (to_get user_id id) = scope (ignoring (get_credential user_id id))
  perform (to_delete user_id id) = scope (delete_credential r.now user_id id)
  perform (to_revoke user_id id) = scope (revoke r adapter r.now user_id id)
  perform (to_resolve user_id id purpose) = scope (ignoring (resolve r user_id id purpose))
  perform (to_access user_id provider) = ignoring (get_access_token r user_id provider)
  perform (to_connect kind code state) = scope (ignoring (connect r adapter kind code state))

-- The clock, the library and the providers may differ from one operation to the next.
pub record Turn : Type 0 where
  pub refresher : Refresher
  pub adapter : Adapter
  pub operation : Operation

abbrev pub after_all : List Turn → Vault → Vault
after_all [] v = v
after_all (t ∷ ts) v = after_all ts (perform t.refresher t.adapter t.operation v).1
