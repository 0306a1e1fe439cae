-- ===== src/Credential.antt =====
-- The credentials table and its audit log (src/db/models/credential.py, credential_event.py,
-- src/db/queries/credential_query.py, credential_event_query.py, src/credentials/audit.py). The
-- database of the vault is the whole state; an ORM object is the row it was read from.
pub mod Payload
pub mod Service
pub mod Refresh
pub mod Adapter
pub mod Flow
pub mod Operations
pub mod Gone
pub mod Audit
pub mod Preview
pub mod Stored
pub mod Reauth
pub mod Connected
mod Tests
use saas_ai_agents_long_term.Prelude.{
  ℕ, suc, String, Bool, true, false, ◌&&◌, Option, none, some, List, [], ◌∷◌, ◌==◌, nat_eq,
  string_eq, find_first, keep, length, take, drop, Eq,
}
use saas_ai_agents_long_term.Prelude.Dict.{Dict, lookup}
use saas_ai_agents_long_term.Prelude.Table.{save, newest_first}
use saas_ai_agents_long_term.Effect.{ok, Exec, modify, pure, ◌>>=◌, ◌>>◌, transaction}
use saas_ai_agents_long_term.Json.{Json, null, str}
use saas_ai_agents_long_term.Task.{or_not_found}

pub data CredentialKind : Type 0 where
  bearer oauth : CredentialKind

CredentialKind-discrete : Discrete CredentialKind
CredentialKind-discrete = hlevel

instance unfoldable pub kind_eq : Eq CredentialKind
unfolding CredentialKind-discrete
kind_eq = record { dec = CredentialKind-discrete }

abbrev pub kind_value : CredentialKind → String
kind_value bearer = "bearer"
kind_value oauth = "oauth"

pub record Credential : Type 0 where
  pub id : ℕ
  pub user_id : ℕ
  pub kind : CredentialKind
  pub label : String
  pub encrypted_payload : String
  pub preview : String
  pub metadata_json : Dict String Json
  pub deleted_at : Option ℕ
  pub created_at : ℕ

pub data CredentialEventType : Type 0 where
  created read resolved deleted : CredentialEventType

pub record CredentialEvent : Type 0 where
  pub user_id : ℕ
  pub credential_id : ℕ
  pub event_type : CredentialEventType
  pub details : Dict String Json

-- The tables have the newest row first.
pub record Vault : Type 0 where
  pub credentials : List Credential
  pub events : List CredentialEvent
  pub next_id : ℕ

-- The request or the scope that an operation runs in: what it wrote is lost if it raises.
abbrev pub scope {ℓ} : {A : Type ℓ} → Exec Vault A → Exec Vault A
scope = transaction (λ (v : Vault). v) (λ d v. d)

-- What the code calls in `json`, Pydantic, Postgres and Fernet.
pub record Library : Type 0 where
  pub dumps : Json → String
  pub loads : String → Option Json
  pub jsonb_text : Json → String
  pub datetime_json : ℕ → Json
  pub as_datetime : Json → Option ℕ
  pub as_bool : Json → Option Bool
  pub encrypt : String → String
  pub decrypt : String → Option String

unfoldable pub record_event : ℕ → ℕ → CredentialEventType → Dict String Json → Exec Vault (Unit {0})
record_event user_id credential_id event_type details v = (
  ok tt,
  record v {
    events =
        record {
          user_id = user_id;
          credential_id = credential_id;
          event_type = event_type;
          details = details;
        }
        ∷ v.events;
  },
)

unfoldable pub create :
    ℕ → CredentialKind → String → String → String → Dict String Json → Exec Vault Credential
create user_id kind label encrypted_payload preview metadata v =
    (ok row, record v { credentials = row ∷ v.credentials; next_id = suc v.next_id })
  where
    row : Credential
    row = record {
      id = v.next_id;
      user_id = user_id;
      kind = kind;
      label = label;
      encrypted_payload = encrypted_payload;
      preview = preview;
      metadata_json = metadata;
      deleted_at = none;
      created_at = v.next_id;
    }

-- `deleted_at IS NULL`
abbrev pub live : Credential → Bool
live c = elim c.deleted_at [ none ↦ true | some t ↦ false ]

abbrev pub found : ℕ → ℕ → Bool → Credential → Bool
found user_id credential_id true c = c.id == credential_id && c.user_id == user_id
found user_id credential_id false c = c.id == credential_id && c.user_id == user_id && live c

unfoldable pub find : ℕ → ℕ → Bool → Vault → Option Credential
find user_id credential_id include_deleted v =
    find_first (found user_id credential_id include_deleted) v.credentials

unfoldable pub get : ℕ → ℕ → Bool → Exec Vault Credential
unfolding find
get user_id credential_id include_deleted v =
    (or_not_found (find user_id credential_id include_deleted v), v)

abbrev of_kind : Option CredentialKind → Credential → Bool
of_kind none c = true
of_kind (some kind) c = c.kind == kind

abbrev pub listed : ℕ → Option CredentialKind → Credential → Bool
listed user_id kind c = c.user_id == user_id && live c && of_kind kind c

unfoldable pub list_for_user : ℕ → ℕ → ℕ → Option CredentialKind → Exec Vault (List Credential × ℕ)
list_for_user user_id offset limit kind v =
    let rows = keep (listed user_id kind) v.credentials in
    (ok (take limit (drop offset (newest_first (λ c. c.created_at) rows)), length rows), v)

unfoldable pub save_credential : Credential → Vault → Vault
unfolding save
save_credential c v = record v { credentials = save (λ (x : Credential). x.id) c v.credentials }

unfoldable pub soft_delete : ℕ → ℕ → ℕ → Exec Vault Credential
unfolding get save_credential
soft_delete now user_id credential_id = do
  credential ← get user_id credential_id false
  modify (save_credential (record credential { deleted_at = some now }))
  pure (record credential { deleted_at = some now })

module _ (lib : Library) where
  -- `->>`: the text of the value, NULL where there is none.
  abbrev astext : Option Json → Option String
  astext none = none
  astext (some null) = none
  astext (some (str s)) = some s
  astext (some j) = some (lib.jsonb_text j)

  abbrev pub provider_of : Credential → Option String
  provider_of c = astext (lookup "provider" c.metadata_json)

  abbrev names : String → Option String → Bool
  names provider none = false
  names provider (some p) = p == provider

  abbrev pub active_oauth : ℕ → Credential → Bool
  active_oauth user_id c = c.user_id == user_id && c.kind == oauth && live c

  abbrev pub bound_to : ℕ → String → Credential → Bool
  bound_to user_id provider c = active_oauth user_id c && names provider (provider_of c)

  abbrev head : List Credential → Option Credential
  head [] = none
  head (c ∷ cs) = some c

  unfoldable pub find_active_oauth_for_provider : ℕ → String → Exec Vault (Option Credential)
  find_active_oauth_for_provider user_id provider v = (
    ok (head (newest_first (λ c. c.created_at) (keep (bound_to user_id provider) v.credentials))),
    v,
  )

  unfoldable pub list_active_oauth_for_user : ℕ → Exec Vault (List Credential)
  list_active_oauth_for_user user_id v =
      (ok (newest_first (λ c. c.created_at) (keep (active_oauth user_id) v.credentials)), v)

  abbrev given : Option String → Bool
  given none = false
  given (some p) = true

  unfoldable pub list_active_bearer_with_provider : ℕ → Exec Vault (List Credential)
  list_active_bearer_with_provider user_id v = (
    ok (
        newest_first (λ c. c.created_at)
          (keep (λ c. c.user_id == user_id && c.kind == bearer && live c && given (provider_of c))
            v.credentials)),
    v,
  )
