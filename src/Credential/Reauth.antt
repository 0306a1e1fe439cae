-- ===== src/Credential/Reauth.antt =====
-- A refresh that the provider refuses (src/credentials/oauth/refresher.py, token_provider.py).
use Prim.Native.String.{◌++◌ as ◌<>◌}
use saas_ai_agents_long_term.Prelude.{ℕ, String, true, false, Option, none, some, ◌≡◌, refl}
use saas_ai_agents_long_term.Effect.{ok, err, provider_refresh, ◌>>=◌}
use saas_ai_agents_long_term.Credential.{
  Vault, Credential, get, find_active_oauth_for_provider, save_credential,
}
use saas_ai_agents_long_term.Credential.Payload.{
  OauthPayload, OauthMetadata, oauth_payload, oauth_metadata, deserialise_payload,
  deserialise_metadata, serialise_metadata,
}
use saas_ai_agents_long_term.Credential.Refresh.{
  Refresher, refresh, needs_refresh, is_provider, flagged, mark_needs_reauth, resolve,
  resolve_oauth_for_provider, get_access_token,
}

module _ (r : Refresher) (user_id : ℕ) (v : Vault) (c : Credential) (plaintext token : String)
    (p : OauthPayload) (m : OauthMetadata) where
  -- The newest OAuth credential of a user for a provider is about to expire, and the provider refuses
  -- its refresh token.
  pub record Refused (provider : String) : Type 0 where
    pub newest : find_active_oauth_for_provider r.lib user_id provider v ≡ (ok (some c), v)
    pub readable : get user_id c.id false v ≡ (ok c, v)
    pub decrypted : r.lib.decrypt c.encrypted_payload ≡ some plaintext
    pub payload : deserialise_payload r.lib c.kind plaintext ≡ ok (oauth_payload p)
    pub metadata : deserialise_metadata r.lib c.kind c.metadata_json ≡ ok (oauth_metadata m)
    pub expiring : needs_refresh r.now m ≡ true
    pub has_token : p.refresh_token ≡ some token
    pub known : is_provider m.provider ≡ true
    pub refused : r.exchange m.provider token ≡ err provider_refresh

  refresh-Refused :
      (provider : String) (h : Refused provider)
      → refresh r c p m v ≡ (
        err provider_refresh,
        save_credential
            (record c { metadata_json = serialise_metadata r.lib (oauth_metadata (flagged m)) })
            v,
      )
  unfolding refresh mark_needs_reauth ◌>>=◌
  refresh-Refused provider h = rw (h.has_token, h.known, h.refused) refl

  resolve-Refused :
      (provider : String) (purpose : Option String) (h : Refused provider)
      → resolve r user_id c.id purpose v ≡ (
        err provider_refresh,
        save_credential
            (record c { metadata_json = serialise_metadata r.lib (oauth_metadata (flagged m)) })
            v,
      )
  unfolding resolve ◌>>=◌
  resolve-Refused provider purpose h =
      rw (h.readable, h.decrypted, h.payload, h.metadata, h.expiring, refresh-Refused provider h)
        refl

  -- When the provider refuses the refresh token of the newest credential of a user for it,
  -- `resolve` marks the row as needing a new login and raises; `get_access_token` raises as well,
  -- and its scope takes the mark back, so that the vault is as before.
  pub reauth_flag_lost :
      (provider : String)
      → Refused provider
      → ((resolve r user_id c.id none v).1
          ≡ save_credential
              (record c { metadata_json = serialise_metadata r.lib (oauth_metadata (flagged m)) })
              v)
        × (get_access_token r user_id provider v ≡ (err provider_refresh, v))
  unfolding get_access_token resolve_oauth_for_provider ◌>>=◌
  reauth_flag_lost provider h = (
    rw (resolve-Refused provider none h) refl,
    rw (h.newest, resolve-Refused provider (some ("api_call:" <> provider)) h) refl,
  )
