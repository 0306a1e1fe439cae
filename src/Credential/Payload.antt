-- ===== src/Credential/Payload.antt =====
-- The kinds of credentials: payloads, metadata, their JSON, and previews (src/credentials/payloads/
-- bearer.py, oauth.py, src/credentials/kinds/registry.py). Pydantic's conversions of JSON values to
-- times and Booleans are fields of the library that is passed in.
use Prim.Native.String.{◌++◌ as ◌<>◌}
use saas_ai_agents_long_term.Prelude.{
  ℕ, ◌-◌, String, Bool, true, false, not, ◌&&◌, Option, none, some, List, [], ◌∷◌, ◌==◌, nat_eq,
  string_eq, if◌then◌else◌, ltb, leb,
}
use saas_ai_agents_long_term.Prelude.Dict.{Dict, lookup, erase}
use saas_ai_agents_long_term.Prelude.Text.{prefix_of}
use saas_ai_agents_long_term.Prelude.Strings.{string_length, suffix_of, strip}
use saas_ai_agents_long_term.Effect.{
  Result, ok, err, Error, invalid_credential_payload, value_error,
}
use saas_ai_agents_long_term.Json.{
  Json, null, bool, str, arr, obj, Items, nil, item, object, entries,
}
use saas_ai_agents_long_term.Credential.{Library, CredentialKind, bearer, oauth}

pub data Placement : Type 0 where
  header query : Placement

pub record BearerMetadata : Type 0 where
  pub placement : Placement
  pub header_name : String
  pub prefix : String
  pub param_name : Option String
  pub extra : Dict String Json

pub record OauthPayload : Type 0 where
  pub access_token : String
  pub refresh_token : Option String

pub record OauthMetadata : Type 0 where
  pub provider : String
  pub scopes : List String
  pub expires_at : Option ℕ
  pub needs_reauth : Bool
  pub raw : Dict String Json

pub data Payload : Type 0 where
  bearer_payload : String → Payload
  oauth_payload : OauthPayload → Payload

pub data Metadata : Type 0 where
  bearer_metadata : BearerMetadata → Metadata
  oauth_metadata : OauthMetadata → Metadata

-- A field that must be a text with a length between the bounds; `none` is a validation error.
unfoldable pub text_within : ℕ → ℕ → Json → Option String
unfolding string_length
text_within low high (str s) =
    if leb low (string_length s) && leb (string_length s) high then some s else none
text_within low high j = none

abbrev pub defaulted {ℓ κ} : {A : Type ℓ} {B : Type κ} → B → (A → Option B) → Option A → Option B
defaulted b f none = some b
defaulted b f (some a) = f a

abbrev pub nullable {ℓ} : {A : Type ℓ} → (Json → Option A) → Json → Option (Option A)
nullable f null = some none
nullable f j = elim (f j) [ none ↦ none | some a ↦ some (some a) ]

-- `_strip_token`, after the test of the field for one character at least.
unfoldable pub strip_token : String → Option String
unfolding strip
strip_token value = let stripped = strip value in if stripped == "" then none else some stripped

abbrev pub nonempty_text : Json → Option String
nonempty_text (str s) = if s == "" then none else some s
nonempty_text j = none

abbrev any_text : Json → Option String
any_text (str s) = some s
any_text j = none

abbrev pub and_also {ℓ κ} : {A : Type ℓ} {B : Type κ} → (A → Option B) → Option A → Option B
and_also f none = none
and_also f (some a) = f a

-- `BearerPayload(**raw)`: the token is there, has a character, and is not blank.
unfoldable pub validate_bearer_payload : Dict String Json → Option String
unfolding text_within strip_token
validate_bearer_payload raw = and_also strip_token (and_also nonempty_text (lookup "token" raw))

abbrev pub as_placement : Json → Option Placement
as_placement (str s) =
    if s == "header" then some header else if s == "query" then some query else none
as_placement j = none

-- `_validate_param_name`
abbrev pub param_named : BearerMetadata → Bool
param_named m = elim m.placement [
  | header ↦ true
  | query ↦ elim m.param_name [ none ↦ false | some s ↦ not (s == "") ]
]

abbrev pub checked : BearerMetadata → Option BearerMetadata
checked m = if param_named m then some m else none

abbrev pub own_keys : Dict String Json → Dict String Json
own_keys raw = erase "placement" (erase "header_name" (erase "prefix" (erase "param_name" raw)))

abbrev pub bearer_fields :
    Option Placement
    → Option String
    → Option String
    → Option (Option String)
    → Dict String Json
    → Option BearerMetadata
bearer_fields (some placement) (some header_name) (some prefix) (some param_name) extra =
    checked (record {
      placement = placement;
      header_name = header_name;
      prefix = prefix;
      param_name = param_name;
      extra = extra;
    })
bearer_fields _ _ _ _ extra = none

-- `BearerMetadata(**raw)`
unfoldable pub validate_bearer_metadata : Dict String Json → Option BearerMetadata
unfolding text_within
validate_bearer_metadata raw =
    bearer_fields (defaulted header as_placement (lookup "placement" raw))
      (defaulted "Authorization" (text_within 1 128) (lookup "header_name" raw))
      (defaulted "Bearer " (text_within 0 32) (lookup "prefix" raw))
      (defaulted none (nullable (text_within 0 64)) (lookup "param_name" raw)) (own_keys raw)

abbrev pub placement_value : Placement → String
placement_value header = "header"
placement_value query = "query"

abbrev pub optional_text : Option String → Json
optional_text none = null
optional_text (some s) = str s

-- `model_dump()`
unfoldable pub bearer_metadata_json : BearerMetadata → Dict String Json
bearer_metadata_json m =
    ("placement", str (placement_value m.placement))
    ∷ ("header_name", str m.header_name)
    ∷ ("prefix", str m.prefix)
    ∷ ("param_name", optional_text m.param_name)
    ∷ m.extra

abbrev payload_fields : Option String → Option (Option String) → Option OauthPayload
payload_fields (some access) (some refresh) =
    some (record { access_token = access; refresh_token = refresh })
payload_fields _ _ = none

-- `OAuthPayload(**raw)`
unfoldable pub validate_oauth_payload : Dict String Json → Option OauthPayload
validate_oauth_payload raw =
    payload_fields (and_also nonempty_text (lookup "access_token" raw))
      (defaulted none (nullable any_text) (lookup "refresh_token" raw))

abbrev cons_text : Option String → Option (List String) → Option (List String)
cons_text (some s) (some ss) = some (s ∷ ss)
cons_text _ _ = none

abbrev texts : Items → Option (List String)
texts nil = some []
texts (item j js) = cons_text (any_text j) (texts js)

abbrev as_texts : Json → Option (List String)
as_texts (arr js) = texts js
as_texts j = none

abbrev as_dict : Json → Option (Dict String Json)
as_dict (obj fs) = some (entries fs)
as_dict j = none

abbrev metadata_fields :
    Option String
    → Option (List String)
    → Option (Option ℕ)
    → Option Bool
    → Option (Dict String Json)
    → Option OauthMetadata
metadata_fields (some provider) (some scopes) (some expires_at) (some needs_reauth) (some raw) =
    some (record {
      provider = provider;
      scopes = scopes;
      expires_at = expires_at;
      needs_reauth = needs_reauth;
      raw = raw;
    })
metadata_fields _ _ _ _ _ = none

abbrev items : List String → Items
items [] = nil
items (s ∷ ss) = item (str s) (items ss)

module _ (lib : Library) where
  -- `OAuthMetadata(**raw)`
  unfoldable pub validate_oauth_metadata : Dict String Json → Option OauthMetadata
  unfolding text_within
  validate_oauth_metadata raw =
      metadata_fields (and_also (text_within 1 64) (lookup "provider" raw))
        (defaulted [] as_texts (lookup "scopes" raw))
        (defaulted none (nullable lib.as_datetime) (lookup "expires_at" raw))
        (defaulted false lib.as_bool (lookup "needs_reauth" raw))
        (defaulted [] as_dict (lookup "raw" raw))

  abbrev optional_datetime : Option ℕ → Json
  optional_datetime none = null
  optional_datetime (some t) = lib.datetime_json t

  -- `model_dump(mode="json")`
  unfoldable pub oauth_metadata_json : OauthMetadata → Dict String Json
  unfolding object
  oauth_metadata_json m =
      ("provider", str m.provider)
      ∷ ("scopes", arr (items m.scopes))
      ∷ ("expires_at", optional_datetime m.expires_at)
      ∷ ("needs_reauth", bool m.needs_reauth)
      ∷ ("raw", object m.raw)
      ∷ []

abbrev pub or_raise {ℓ κ} : {A : Type ℓ} {B : Type κ} → Error → (A → B) → Option A → Result B
or_raise e f none = err e
or_raise e f (some a) = ok (f a)

-- The handler that the registry has for a kind.
unfoldable pub parse_payload : CredentialKind → Dict String Json → Result Payload
unfolding validate_bearer_payload validate_oauth_payload
parse_payload bearer raw =
    or_raise invalid_credential_payload bearer_payload (validate_bearer_payload raw)
parse_payload oauth raw =
    or_raise invalid_credential_payload oauth_payload (validate_oauth_payload raw)

abbrev pub or_empty : Option (Dict String Json) → Dict String Json
or_empty none = []
or_empty (some d) = d

unfoldable pub payload_json : Payload → Json
unfolding object
payload_json (bearer_payload token) = object (("token", str token) ∷ [])
payload_json (oauth_payload p) =
    object
      (("access_token", str p.access_token) ∷ ("refresh_token", optional_text p.refresh_token) ∷ [])

-- `build_preview`; the OAuth flows build their own.
unfoldable pub bearer_preview : String → String
unfolding string_length prefix_of suffix_of
bearer_preview token =
    if ltb (string_length token) 12
    then "***"
    else prefix_of 5 token <> ("***" <> suffix_of (string_length token - 4) token)

unfoldable pub build_preview : Payload → String
unfolding bearer_preview
build_preview (bearer_payload token) = bearer_preview token
build_preview (oauth_payload p) = "oauth:***"

module _ (lib : Library) where
  -- A failure to load or to validate what was stored is not turned into an error of the program.
  unfoldable pub from_json : CredentialKind → Option Json → Result Payload
  unfolding validate_bearer_payload validate_oauth_payload
  from_json bearer (some (obj fs)) =
      or_raise value_error bearer_payload (validate_bearer_payload (entries fs))
  from_json oauth (some (obj fs)) =
      or_raise value_error oauth_payload (validate_oauth_payload (entries fs))
  from_json kind j = err value_error

  unfoldable pub serialise_payload : Payload → String
  unfolding payload_json
  serialise_payload p = lib.dumps (payload_json p)

  unfoldable pub deserialise_payload : CredentialKind → String → Result Payload
  unfolding from_json
  deserialise_payload kind raw = from_json kind (lib.loads raw)

  unfoldable pub validate_metadata : Error → CredentialKind → Dict String Json → Result Metadata
  unfolding validate_bearer_metadata validate_oauth_metadata
  validate_metadata e bearer raw = or_raise e bearer_metadata (validate_bearer_metadata raw)
  validate_metadata e oauth raw = or_raise e oauth_metadata (validate_oauth_metadata lib raw)

  unfoldable pub parse_metadata : CredentialKind → Option (Dict String Json) → Result Metadata
  unfolding validate_metadata
  parse_metadata kind raw = validate_metadata invalid_credential_payload kind (or_empty raw)

  unfoldable pub deserialise_metadata : CredentialKind → Dict String Json → Result Metadata
  unfolding validate_metadata
  deserialise_metadata kind raw = validate_metadata value_error kind raw

  unfoldable pub serialise_metadata : Metadata → Dict String Json
  unfolding bearer_metadata_json oauth_metadata_json
  serialise_metadata (bearer_metadata m) = bearer_metadata_json m
  serialise_metadata (oauth_metadata m) = oauth_metadata_json lib m
