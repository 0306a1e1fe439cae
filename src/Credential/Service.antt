-- ===== src/Credential/Service.antt =====
-- The operations behind the API (src/credentials/service.py). The clock is an argument; the registry
-- has a handler for every kind.
use saas_ai_agents_long_term.Prelude.{ℕ, String, false, Option, List, [], ◌∷◌}
use saas_ai_agents_long_term.Prelude.Dict.{Dict}
use saas_ai_agents_long_term.Prelude.Strings.{strip}
use saas_ai_agents_long_term.Effect.{Exec, lift, pure, ◌>>=◌, ◌>>◌}
use saas_ai_agents_long_term.Json.{Json, str}
use saas_ai_agents_long_term.Credential.{
  Library, Vault, Credential, CredentialKind, kind_value, created, read, deleted, record_event,
  create, get, soft_delete, list_for_user,
}
use saas_ai_agents_long_term.Credential.Payload.{
  parse_payload, parse_metadata, serialise_payload, serialise_metadata, build_preview,
}

module _ (lib : Library) where
  unfoldable pub create_credential :
      ℕ
      → CredentialKind
      → String
      → Dict String Json
      → Option (Dict String Json)
      → Exec Vault Credential
  create_credential user_id kind label payload_raw metadata_raw = do
    payload ← lift (parse_payload kind payload_raw)
    metadata ← lift (parse_metadata lib kind metadata_raw)
    credential ←
        create user_id kind (strip label) (lib.encrypt (serialise_payload lib payload))
          (build_preview payload) (serialise_metadata lib metadata)
    record_event user_id credential.id created
        (("kind", str (kind_value kind)) ∷ ("label", str credential.label) ∷ [])
    pure credential

unfoldable pub list_credentials :
    ℕ → ℕ → ℕ → Option CredentialKind → Exec Vault (List Credential × ℕ)
list_credentials = list_for_user

unfoldable pub get_credential : ℕ → ℕ → Exec Vault Credential
get_credential user_id credential_id = do
  credential ← get user_id credential_id false
  record_event user_id credential.id read []
  pure credential

unfoldable pub delete_credential : ℕ → ℕ → ℕ → Exec Vault (Unit {0})
delete_credential now user_id credential_id = do
  credential ← soft_delete now user_id credential_id
  record_event user_id credential.id deleted (("kind", str (kind_value credential.kind)) ∷ [])
