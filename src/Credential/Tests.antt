-- ===== src/Credential/Tests.antt =====
-- Tests of the credentials: a library that stores one payload as it is, and one provider.
use saas_ai_agents_long_term.Prelude.{
  String, true, false, none, some, List, [], ◌∷◌, ◌≡◌, refl, arith, string_eq, nat_eq,
}
use saas_ai_agents_long_term.Prelude.Dict.{Dict, lookup, erase}
use saas_ai_agents_long_term.Prelude.Strings.{string_length, suffix_of, strip, is_space}
use saas_ai_agents_long_term.Prelude.Table.{save}
use saas_ai_agents_long_term.Prelude.Text.{prefix_of}
use saas_ai_agents_long_term.Json.{Json, str, num, object, entries}
use saas_ai_agents_long_term.Effect.{ok, err, not_found, provider_refresh, ◌>>=◌}
use saas_ai_agents_long_term.Credential.{
  Library, created, deleted, kind_eq, Vault, Credential, bearer, oauth, get, find,
  find_active_oauth_for_provider, save_credential, record_event, soft_delete, create,
}
use saas_ai_agents_long_term.Credential.Payload.{
  bearer_payload, bearer_metadata, oauth_payload, oauth_metadata, OauthPayload, OauthMetadata,
  header, BearerMetadata, payload_json, bearer_metadata_json, oauth_metadata_json,
  serialise_payload, validate_bearer_payload, validate_bearer_metadata, bearer_preview, text_within,
  deserialise_payload, deserialise_metadata, serialise_metadata, validate_metadata,
  validate_oauth_payload, validate_oauth_metadata, from_json, parse_payload, parse_metadata,
  build_preview,
}
use saas_ai_agents_long_term.Credential.Service.{create_credential, delete_credential}
use saas_ai_agents_long_term.Credential.Refresh.{
  Refresher, resolve, needs_refresh, get_access_token, flagged, oauth_preview,
}
use saas_ai_agents_long_term.Credential.Adapter.{
  Adapter, Provider, handle_callback, verify_state, verified_claims, and_then, translate, config_of,
  exchange_code, from_authlib,
}
use saas_ai_agents_long_term.Credential.Flow.{connect}
use saas_ai_agents_long_term.Credential.Operations.{Turn, to_get, to_resolve, after_all}
use saas_ai_agents_long_term.Credential.Gone.{deleted_forever}
use saas_ai_agents_long_term.Credential.Preview.{bearer_preview_hides}
use saas_ai_agents_long_term.Credential.Stored.{create-resolve, ReadsBack}
use saas_ai_agents_long_term.Credential.Reauth.{reauth_flag_lost, Refused}
use saas_ai_agents_long_term.Credential.Connected.{connect-SignedFor, SignedFor}

abbrev a_library : Library
a_library = record {
  dumps = λ j. "payload";
  loads = λ s. some (payload_json (bearer_payload "a-token"));
  jsonb_text = λ j. "";
  datetime_json = num;
  as_datetime = λ j. none;
  as_bool = λ j. none;
  encrypt = λ s. s;
  decrypt = λ s. some s;
}

abbrev a_refresher : Refresher
a_refresher = record {
  lib = a_library;
  decimal = λ n. "1";
  now = 100;
  exchange = λ provider token. err provider_refresh;
}

abbrev a_vault : Vault
a_vault = record { credentials = []; events = []; next_id = 4 }

abbrev a_credential : Credential
a_credential = record {
  id = 3;
  user_id = 1;
  kind = bearer;
  label = "Postmark";
  encrypted_payload = "payload";
  preview = "***";
  metadata_json = [];
  deleted_at = none;
  created_at = 3;
}

abbrev a_full_vault : Vault
a_full_vault = record { credentials = a_credential ∷ []; events = []; next_id = 4 }

abbrev a_payload : Dict String Json
a_payload = ("token", str " a-token ") ∷ []

abbrev a_metadata : BearerMetadata
a_metadata = record {
  placement = header;
  header_name = "Authorization";
  prefix = "Bearer ";
  param_name = none;
  extra = [];
}

a_payload-validated : validate_bearer_payload a_payload ≡ some "a-token"
unfolding validate_bearer_payload lookup string_eq is_space
a_payload-validated = refl

a_metadata-validated : validate_bearer_metadata [] ≡ some a_metadata
unfolding validate_bearer_metadata text_within lookup erase
a_metadata-validated = refl

a_token-ReadsBack : ReadsBack a_library (bearer_payload "a-token")
a_token-ReadsBack = record { decrypted = refl; loaded = refl }

abbrev the_row : Credential
the_row = record {
  id = 4;
  user_id = 1;
  kind = bearer;
  label = "Postmark";
  encrypted_payload = "payload";
  preview = "***";
  metadata_json = bearer_metadata_json a_metadata;
  deleted_at = none;
  created_at = 4;
}

abbrev the_vault : Vault
the_vault = record {
  credentials = the_row ∷ [];
  events =
      record {
        user_id = 1;
        credential_id = 4;
        event_type = created;
        details = ("kind", str "bearer") ∷ ("label", str "Postmark") ∷ [];
      }
      ∷ [];
  next_id = 5;
}

a_creation :
    create_credential a_library 1 bearer "Postmark" a_payload none a_vault ≡ (ok the_row, the_vault)
unfolding create_credential create record_event parse_payload parse_metadata validate_metadata
    validate_bearer_payload validate_bearer_metadata text_within serialise_metadata
    serialise_payload build_preview bearer_preview strip is_space lookup erase string_eq ◌>>=◌
a_creation = refl

create-resolve_example :
    (resolve a_refresher 1 4 none the_vault).0
    ≡ ok (record {
      id = 4;
      kind = bearer;
      label = strip "Postmark";
      payload = bearer_payload "a-token";
      metadata = bearer_metadata a_metadata;
    })
create-resolve_example =
    create-resolve a_refresher 1 "Postmark" a_payload none none a_vault the_vault the_row "a-token"
      a_metadata a_payload-validated a_metadata-validated a_token-ReadsBack a_creation

abbrev a_deleted_vault : Vault
a_deleted_vault = record {
  credentials = record a_credential { deleted_at = some 100 } ∷ [];
  events =
      record {
        user_id = 1;
        credential_id = 3;
        event_type = deleted;
        details = ("kind", str "bearer") ∷ [];
      }
      ∷ [];
  next_id = 4;
}

a_deletion : delete_credential 100 1 3 a_full_vault ≡ (ok tt, a_deleted_vault)
unfolding delete_credential soft_delete get find save_credential save record_event ◌>>=◌
a_deletion = ground arith

abbrev a_provider : Provider
a_provider = record {
  display_name = "GitHub";
  is_oauth_provider = true;
  refresh_supported = false;
  default_scopes = "repo" ∷ [];
  scope_separator = 44;
  revoke_url = none;
  custom_revoker = none;
  post_callback_hook = none;
  fetch_token = λ code verifier. ok (("access_token", str "gho") ∷ []);
  refresh_token = λ token. err provider_refresh;
  revoke_token = λ url token. ok tt;
}

abbrev an_adapter : Adapter
an_adapter = record {
  now = 100;
  provider = λ kind. some a_provider;
  jwt_decode = λ state.
      some (("type", str "oauth_state") ∷ ("provider", str "github") ∷ ("user_id", num 1) ∷ []);
}

abbrev some_turns : List Turn
some_turns =
    record { refresher = a_refresher; adapter = an_adapter; operation = to_get 1 3 }
    ∷ record { refresher = a_refresher; adapter = an_adapter; operation = to_resolve 1 3 none }
    ∷ []

deleted_forever_example :
    let w = after_all some_turns a_deleted_vault in
    (get 2 3 false w ≡ (err not_found, w)) × (resolve a_refresher 2 3 none w ≡ (err not_found, w))
deleted_forever_example =
    deleted_forever 100 1 3 a_full_vault a_deleted_vault some_turns (omega arith) a_deletion
      a_refresher 2 none

bearer_preview_hides_example :
    (bearer_preview "ghp_aAAAAzzzz" ≡ bearer_preview "ghp_aBBBBBBzzzz")
    × (string_length (bearer_preview "ghp_aAAAAzzzz") ≡ 12)
unfolding string_length prefix_of suffix_of
bearer_preview_hides_example =
    bearer_preview_hides "ghp_aAAAAzzzz" "ghp_aBBBBBBzzzz" (omega arith) (omega arith) (refl, refl)

abbrev an_oauth_metadata : OauthMetadata
an_oauth_metadata = record {
  provider = "github";
  scopes = [];
  expires_at = some 150;
  needs_reauth = false;
  raw = [];
}

abbrev an_oauth_payload : OauthPayload
an_oauth_payload = record { access_token = "gho"; refresh_token = some "ghr" }

abbrev an_oauth_library : Library
an_oauth_library = record a_library {
  loads = λ s. some (payload_json (oauth_payload an_oauth_payload));
  as_datetime = λ j. some 150;
  as_bool = λ j. some false;
}

abbrev an_oauth_refresher : Refresher
an_oauth_refresher = record a_refresher { lib = an_oauth_library }

abbrev an_oauth_credential : Credential
an_oauth_credential = record a_credential {
  kind = oauth;
  metadata_json = oauth_metadata_json an_oauth_library an_oauth_metadata;
}

abbrev an_oauth_vault : Vault
an_oauth_vault = record { credentials = an_oauth_credential ∷ []; events = []; next_id = 4 }

a_refusal :
    Refused an_oauth_refresher 1 an_oauth_vault an_oauth_credential "payload" "ghr" an_oauth_payload
      an_oauth_metadata "github"
unfolding find_active_oauth_for_provider get find deserialise_payload from_json payload_json object
    entries validate_oauth_payload deserialise_metadata validate_metadata validate_oauth_metadata
    oauth_metadata_json text_within needs_refresh lookup string_eq kind_eq
a_refusal = record {
  newest = ground arith;
  readable = ground arith;
  decrypted = refl;
  payload = refl;
  metadata = refl;
  expiring = refl;
  has_token = refl;
  known = refl;
  refused = refl;
}

reauth_flag_lost_example :
    ((resolve an_oauth_refresher 1 3 none an_oauth_vault).1
      ≡ save_credential
          (record an_oauth_credential {
            metadata_json =
                serialise_metadata an_oauth_library (oauth_metadata (flagged an_oauth_metadata));
          })
          an_oauth_vault)
    × (get_access_token an_oauth_refresher 1 "github" an_oauth_vault
        ≡ (err provider_refresh, an_oauth_vault))
reauth_flag_lost_example =
    reauth_flag_lost an_oauth_refresher 1 an_oauth_vault an_oauth_credential "payload" "ghr"
      an_oauth_payload an_oauth_metadata "github" a_refusal

abbrev connected_metadata : OauthMetadata
connected_metadata = record {
  provider = "github";
  scopes = "repo" ∷ [];
  expires_at = none;
  needs_reauth = false;
  raw = ("access_token", str "gho") ∷ [];
}

abbrev connected_row : Credential
connected_row = record {
  id = 4;
  user_id = 1;
  kind = oauth;
  label = "GitHub (1)";
  encrypted_payload = "payload";
  preview = "oauth:github [repo]";
  metadata_json = oauth_metadata_json a_library connected_metadata;
  deleted_at = none;
  created_at = 4;
}

abbrev connected_vault : Vault
connected_vault = record {
  credentials = connected_row ∷ [];
  events =
      record {
        user_id = 1;
        credential_id = 4;
        event_type = created;
        details = ("kind", str "oauth") ∷ ("provider", str "github") ∷ [];
      }
      ∷ [];
  next_id = 5;
}

a_connection :
    connect a_refresher an_adapter "github" "code" "state" a_vault
    ≡ (ok connected_row, connected_vault)
unfolding connect handle_callback verify_state verified_claims and_then translate exchange_code
    config_of from_authlib create record_event serialise_payload serialise_metadata oauth_preview
    lookup string_eq ◌>>=◌
a_connection = refl

connect-SignedFor_example :
    (connected_vault.credentials ≡ connected_row ∷ a_vault.credentials)
    × SignedFor an_adapter "github" "state" 1
connect-SignedFor_example =
    connect-SignedFor a_refresher an_adapter "github" "code" "state" a_vault connected_vault
      connected_row a_connection
