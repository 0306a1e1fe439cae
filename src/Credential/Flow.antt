-- ===== src/Credential/Flow.antt =====
-- Connecting and revoking an OAuth provider (src/credentials/oauth/service.py).
use Prim.Native.String.{◌++◌ as ◌<>◌}
use saas_ai_agents_long_term.Prelude.{
  ℕ, String, Bool, true, false, Option, none, some, [], ◌∷◌, if◌then◌else◌, string_eq,
}
use saas_ai_agents_long_term.Prelude.Dict.{Dict, lookup, merge}
use saas_ai_agents_long_term.Effect.{
  Result, ok, err, Error, authentication, provider_auth, provider_api, provider_rate_limit,
  value_error, Exec, pure, raise, lift, catch, cond, ◌>>=◌, ◌>>◌,
}
use saas_ai_agents_long_term.Json.{Json, str}
use saas_ai_agents_long_term.Credential.{
  Vault, Credential, oauth, kind_value, created, deleted, record_event, create, get, soft_delete,
}
use saas_ai_agents_long_term.Credential.Payload.{
  Payload, bearer_payload, oauth_payload, oauth_metadata, serialise_payload, deserialise_payload,
  serialise_metadata,
}
use saas_ai_agents_long_term.Credential.Refresh.{
  TokenBundle, Refresher, oauth_preview, is_provider, or_undecipherable,
}
use saas_ai_agents_long_term.Credential.Adapter.{
  Adapter, CallbackResult, handle_callback, revoke_token, config_of,
}

module _ (r : Refresher) (adapter : Adapter) where
  abbrev auth_failed : Error → Error
  auth_failed provider_auth = authentication
  auth_failed e = e

  abbrev pub as_authentication : Result CallbackResult → Result CallbackResult
  as_authentication (ok c) = ok c
  as_authentication (err e) = err (auth_failed e)

  -- The hook's entries win; a hook that raises is only logged.
  abbrev with_extra : Dict String Json → Result (Dict String Json) → Dict String Json
  with_extra raw (ok extra) = merge raw extra
  with_extra raw (err e) = raw

  abbrev hooked : Option (String → Result (Dict String Json)) → TokenBundle → Dict String Json
  hooked none bundle = bundle.raw
  hooked (some hook) bundle = with_extra bundle.raw (hook bundle.access_token)

  abbrev connection_details : String → Dict String Json
  connection_details kind = ("kind", str (kind_value oauth)) ∷ ("provider", str kind) ∷ []

  -- `OAuthCredentialService.handle_callback`
  unfoldable pub connect : String → String → String → Exec Vault Credential
  connect kind code state = do
    result ← lift (as_authentication (handle_callback adapter kind code state))
    config ← lift (config_of adapter kind)
    let payload = oauth_payload (record {
      access_token = result.token.access_token;
      refresh_token = result.token.refresh_token;
    })
    let metadata = oauth_metadata (record {
      provider = kind;
      scopes = result.token.scopes;
      expires_at = result.token.expires_at;
      needs_reauth = false;
      raw = hooked config.post_callback_hook result.token;
    })
    credential ←
        create result.user_id oauth
          (config.display_name <> (" (" <> (r.decimal result.user_id <> ")")))
          (r.lib.encrypt (serialise_payload r.lib payload))
          (oauth_preview r.decimal kind result.token.scopes) (serialise_metadata r.lib metadata)
    record_event result.user_id credential.id created (connection_details kind)
    pure credential

  abbrev api_failed : Error → Bool
  api_failed provider_api = true
  api_failed provider_rate_limit = true
  api_failed _ = false

  -- A provider that refuses does not keep the row alive.
  abbrev revoke_remote : String → String → Exec Vault (Unit {0})
  revoke_remote kind token =
      catch (lift (revoke_token adapter kind token)) (λ e. cond (api_failed e) (pure tt) (raise e))

  abbrev provider_text : Option Json → Result String
  provider_text (some (str s)) = if is_provider s then ok s else err value_error
  provider_text _ = err value_error

  abbrev access_token : Payload → Result String
  access_token (oauth_payload p) = ok p.access_token
  access_token (bearer_payload token) = err value_error

  -- `OAuthCredentialService.revoke`
  unfoldable pub revoke : ℕ → ℕ → ℕ → Exec Vault (Unit {0})
  revoke now user_id credential_id = do
    credential ← get user_id credential_id false
    provider ← lift (provider_text (lookup "provider" credential.metadata_json))
    plaintext ← lift (or_undecipherable r (r.lib.decrypt credential.encrypted_payload))
    payload ← lift (deserialise_payload r.lib oauth plaintext)
    token ← lift (access_token payload)
    revoke_remote provider token
    soft_delete now user_id credential_id
    record_event user_id credential.id deleted (connection_details provider)
