-- ===== src/Credential/Refresh.antt =====
-- Reading a secret, with the refresh of an OAuth token that is about to expire (src/credentials/
-- resolver.py, src/credentials/oauth/refresher.py, token_provider.py). What the provider answers to a
-- refresh is an argument, and so is the clock, in seconds.
use Prim.Native.String.{◌++◌ as ◌<>◌}
use saas_ai_agents_long_term.Prelude.{
  ℕ, ◌+◌, String, Bool, true, false, not, Option, none, some, List, [], ◌∷◌, ◌==◌, leb, string_eq,
  if◌then◌else◌, contains, length, take, ◌-◌, nat_eq,
}
use saas_ai_agents_long_term.Prelude.Dict.{Dict, merge}
use saas_ai_agents_long_term.Effect.{
  Result, ok, err, Error, value_error, crypto_decrypt, provider_refresh, not_found, Exec, pure,
  raise, lift, modify, guard, catch, cond, ◌>>=◌, ◌>>◌,
}
use saas_ai_agents_long_term.Json.{Json, str}
use saas_ai_agents_long_term.Credential.{
  Library, Vault, Credential, CredentialKind, resolved, record_event, get, save_credential,
  find_active_oauth_for_provider, scope,
}
use saas_ai_agents_long_term.Credential.Payload.{
  Payload, bearer_payload, oauth_payload, Metadata, oauth_metadata, OauthPayload, OauthMetadata,
  serialise_payload, deserialise_payload, serialise_metadata, deserialise_metadata,
}

-- `src/integrations/_shared/tokens.py`
pub record TokenBundle : Type 0 where
  pub access_token : String
  pub refresh_token : Option String
  pub expires_at : Option ℕ
  pub scopes : List String
  pub raw : Dict String Json

-- The values of `ProviderKind`.
abbrev pub is_provider : String → Bool
is_provider provider =
    contains ("github" ∷ "jira" ∷ "google" ∷ "slack" ∷ "aws" ∷ "azure" ∷ []) provider

abbrev joined : List String → String
joined [] = ""
joined (s ∷ []) = s
joined (s ∷ t ∷ ss) = s <> (", " <> joined (t ∷ ss))

module _ (decimal : ℕ → String) where
  -- `decimal` is `str` of a number.
  unfoldable pub oauth_preview : String → List String → String
  oauth_preview provider [] = "oauth:" <> provider
  oauth_preview provider (s ∷ ss) =
      let suffix = if leb (length (s ∷ ss)) 3 then "" else " +" <> decimal (length (s ∷ ss) - 3) in
      "oauth:" <> (provider <> (" [" <> (joined (take 3 (s ∷ ss)) <> (suffix <> "]"))))

-- What a refresh depends on beside the database.
pub record Refresher : Type 0 where
  pub lib : Library
  pub decimal : ℕ → String
  pub now : ℕ
  -- `OAuthAdapter.refresh`, for a provider and a refresh token
  pub exchange : String → String → Result TokenBundle

pub record ResolvedCredential : Type 0 where
  pub id : ℕ
  pub kind : CredentialKind
  pub label : String
  pub payload : Payload
  pub metadata : Metadata

unfoldable pub needs_refresh : ℕ → OauthMetadata → Bool
needs_refresh now m =
    if m.needs_reauth
    then false
    else elim m.expires_at [ none ↦ false | some expires_at ↦ leb expires_at (now + 60) ]

abbrev pub flagged : OauthMetadata → OauthMetadata
flagged m = record m { needs_reauth = true }

-- `a or b`
abbrev pub text_or : Option String → Option String → Option String
text_or none old = old
text_or (some new) old = if new == "" then old else some new

abbrev scopes_or : List String → List String → List String
scopes_or [] old = old
scopes_or (s ∷ ss) old = s ∷ ss

unfoldable pub rotated_payload : OauthPayload → TokenBundle → OauthPayload
rotated_payload p bundle = record {
  access_token = bundle.access_token;
  refresh_token = text_or bundle.refresh_token p.refresh_token;
}

unfoldable pub rotated_metadata : OauthMetadata → TokenBundle → OauthMetadata
rotated_metadata m bundle = record {
  provider = m.provider;
  scopes = scopes_or bundle.scopes m.scopes;
  expires_at = bundle.expires_at;
  needs_reauth = false;
  raw = merge m.raw bundle.raw;
}

abbrev refresh_failed : Error → Bool
refresh_failed provider_refresh = true
refresh_failed _ = false

module _ (r : Refresher) where
  unfoldable pub mark_needs_reauth : Credential → OauthMetadata → Exec Vault (Unit {0})
  mark_needs_reauth c m = modify (
      save_credential
        (record c { metadata_json = serialise_metadata r.lib (oauth_metadata (flagged m)) }))

  unfoldable pub rotated : Credential → OauthPayload → OauthMetadata → Credential
  unfolding oauth_preview
  rotated c p m = record c {
    encrypted_payload = r.lib.encrypt (serialise_payload r.lib (oauth_payload p));
    metadata_json = serialise_metadata r.lib (oauth_metadata m);
    preview = oauth_preview r.decimal m.provider m.scopes;
  }

  -- Only `ProviderRefreshError` is caught, and raised again.
  abbrev pub ask_provider : Credential → OauthMetadata → String → Exec Vault TokenBundle
  ask_provider c m refresh_token =
      catch (lift (r.exchange m.provider refresh_token))
        (λ e. do cond (refresh_failed e) (mark_needs_reauth c m) (pure tt); raise e)

  abbrev pub refresh_with :
      Credential → OauthPayload → OauthMetadata → Option String → Exec Vault (Payload × Metadata)
  refresh_with c p m none = do mark_needs_reauth c m; pure (oauth_payload p, oauth_metadata m)
  refresh_with c p m (some refresh_token) = do
    guard (is_provider m.provider) value_error
    bundle ← ask_provider c m refresh_token
    guard (not (bundle.access_token == "")) value_error
    modify (save_credential (rotated c (rotated_payload p bundle) (rotated_metadata m bundle)))
    pure (oauth_payload (rotated_payload p bundle), oauth_metadata (rotated_metadata m bundle))

  unfoldable pub refresh :
      Credential → OauthPayload → OauthMetadata → Exec Vault (Payload × Metadata)
  refresh c p m = refresh_with c p m p.refresh_token

  abbrev pub up_to_date : Credential → Payload → Metadata → Exec Vault (Payload × Metadata)
  up_to_date c (oauth_payload p) (oauth_metadata m) =
      cond (needs_refresh r.now m) (refresh c p m) (pure (oauth_payload p, oauth_metadata m))
  up_to_date c p m = pure (p, m)

  abbrev pub or_undecipherable : Option String → Result String
  or_undecipherable none = err crypto_decrypt
  or_undecipherable (some s) = ok s

  abbrev purpose_details : Option String → Dict String Json
  purpose_details none = []
  purpose_details (some p) = if p == "" then [] else ("purpose", str p) ∷ []

  unfoldable pub resolve : ℕ → ℕ → Option String → Exec Vault ResolvedCredential
  resolve user_id credential_id purpose = do
    credential ← get user_id credential_id false
    plaintext ← lift (or_undecipherable (r.lib.decrypt credential.encrypted_payload))
    payload ← lift (deserialise_payload r.lib credential.kind plaintext)
    metadata ← lift (deserialise_metadata r.lib credential.kind credential.metadata_json)
    current ← up_to_date credential payload metadata
    record_event user_id credential.id resolved (purpose_details purpose)
    pure (record {
      id = credential.id;
      kind = credential.kind;
      label = credential.label;
      payload = current.0;
      metadata = current.1;
    })

  abbrev pub resolve_found :
      ℕ → Option String → Option Credential → Exec Vault (Option ResolvedCredential)
  resolve_found user_id purpose none = pure none
  resolve_found user_id purpose (some c) = do
    found ← resolve user_id c.id purpose
    pure (some found)

  unfoldable pub resolve_oauth_for_provider :
      ℕ → String → Option String → Exec Vault (Option ResolvedCredential)
  resolve_oauth_for_provider user_id provider purpose = do
    credential ← find_active_oauth_for_provider r.lib user_id provider
    resolve_found user_id purpose credential

  abbrev pub access_token_of : Option ResolvedCredential → Result String
  access_token_of none = err not_found
  access_token_of (some found) = elim found.payload [
    | oauth_payload p ↦ ok p.access_token
    | bearer_payload token ↦ err value_error
  ]

  -- `OAuthTokenProvider.get_access_token`, in a scope of its own.
  unfoldable pub get_access_token : ℕ → String → Exec Vault String
  get_access_token user_id provider = scope (do
    found ← resolve_oauth_for_provider user_id provider (some ("api_call:" <> provider))
    lift (access_token_of found))
