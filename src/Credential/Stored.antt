-- ===== src/Credential/Stored.antt =====
-- What is stored for a bearer credential is what is read back (src/credentials/service.py, resolver.py,
-- kinds/registry.py, payloads/bearer.py).
use saas_ai_agents_long_term.Prelude.{
  ℕ, String, true, false, Option, none, some, List, [], ◌∷◌, ◌≡◌, refl, sym, ap, ◌∙◌, arith,
  string_eq, ◌==◌, ==_refl, nat_eq, Option-cases, inl, inr,
}
use saas_ai_agents_long_term.Prelude.Dict.{
  Dict, lookup, erase, erase-absent, lookup-erase_self, lookup-erase_absent, lookup_self,
}
use saas_ai_agents_long_term.Prelude.Strings.{strip, strip_idem}
use saas_ai_agents_long_term.Json.{Json, str, null, bool, num, arr, obj, object, entries}
use saas_ai_agents_long_term.Effect.{ok, ◌>>=◌}
use saas_ai_agents_long_term.Credential.{
  Library, Vault, Credential, bearer, create, get, find, record_event,
}
use saas_ai_agents_long_term.Credential.Service.{create_credential}
use saas_ai_agents_long_term.Credential.Refresh.{Refresher, resolve}
use saas_ai_agents_long_term.Credential.Payload.{
  or_empty, Payload, bearer_payload, bearer_metadata, BearerMetadata, Placement, header, query,
  text_within, strip_token, placement_value, as_placement, defaulted, validate_bearer_payload,
  validate_bearer_metadata, own_keys, param_named, nonempty_text, and_also, bearer_fields,
  optional_text, nullable, bearer_metadata_json, parse_payload, parse_metadata, payload_json,
  serialise_payload, deserialise_payload, serialise_metadata, deserialise_metadata,
  validate_metadata, bearer_preview, build_preview,
}

strip_token-again : (value t : String) → strip_token value ≡ some t → strip_token t ≡ some t
unfolding strip_token
strip_token-again value t h = ground (arith, strip_idem value)

strip_token-nonempty : (value t : String) → strip_token value ≡ some t → (t == "") ≡ false
unfolding strip_token
strip_token-nonempty value t h = ground arith

nonempty_text-token :
    (o : Option Json) (t : String)
    → and_also strip_token (and_also nonempty_text o) ≡ some t
    → (value : String) × (strip_token value ≡ some t)
nonempty_text-token none t h = cc
nonempty_text-token (some j) t h = elim (Option-cases (nonempty_text j)) [
  | inl empty ↦ ground arith
  | inr (value, e) ↦ (value, ground arith)
]

validate_bearer_payload-again :
    (raw : Dict String Json) (t : String)
    → validate_bearer_payload raw ≡ some t
    → validate_bearer_payload (("token", str t) ∷ []) ≡ some t
unfolding validate_bearer_payload
validate_bearer_payload-again raw t h =
    let (value, e) = nonempty_text-token (lookup "token" raw) t h in
    rw (lookup_self {K = String} "token" (str t) [], strip_token-nonempty value t e)
      (strip_token-again value t e)

-- The metadata that a validation lets pass.
record Valid (m : BearerMetadata) : Type 0 where
  header_name : text_within 1 128 (str m.header_name) ≡ some m.header_name
  prefix : text_within 0 32 (str m.prefix) ≡ some m.prefix
  param_name : nullable (text_within 0 64) (optional_text m.param_name) ≡ some m.param_name
  named : param_named m ≡ true
  own : own_keys m.extra ≡ m.extra

own_keys_idem : (d : Dict String Json) → own_keys (own_keys d) ≡ own_keys d
own_keys_idem d =
    rw
      (
        erase-absent "param_name" (own_keys d) (
            lookup-erase_absent "param_name" "placement" _ (
              lookup-erase_absent "param_name" "header_name" _
                (lookup-erase_absent "param_name" "prefix" _ (lookup-erase_self "param_name" _)))),
        erase-absent "prefix" (own_keys d) (
            lookup-erase_absent "prefix" "placement" _
              (lookup-erase_absent "prefix" "header_name" _ (lookup-erase_self "prefix" _))),
        erase-absent "header_name" (own_keys d)
            (lookup-erase_absent "header_name" "placement" _ (lookup-erase_self "header_name" _)),
      )
      (erase-absent "placement" (own_keys d) (lookup-erase_self "placement" _))

lookup-placement :
    (m : BearerMetadata)
    → lookup "placement" (bearer_metadata_json m) ≡ some (str (placement_value m.placement))
unfolding lookup bearer_metadata_json string_eq
lookup-placement m = refl

lookup-header_name :
    (m : BearerMetadata) → lookup "header_name" (bearer_metadata_json m) ≡ some (str m.header_name)
unfolding lookup bearer_metadata_json string_eq
lookup-header_name m = refl

lookup-prefix :
    (m : BearerMetadata) → lookup "prefix" (bearer_metadata_json m) ≡ some (str m.prefix)
unfolding lookup bearer_metadata_json string_eq
lookup-prefix m = refl

lookup-param_name :
    (m : BearerMetadata)
    → lookup "param_name" (bearer_metadata_json m) ≡ some (optional_text m.param_name)
unfolding lookup bearer_metadata_json string_eq
lookup-param_name m = refl

own_keys-bearer_metadata_json :
    (m : BearerMetadata) → own_keys (bearer_metadata_json m) ≡ own_keys m.extra
unfolding erase bearer_metadata_json string_eq
own_keys-bearer_metadata_json m = refl

as_placement-placement_value : (p : Placement) → as_placement (str (placement_value p)) ≡ some p
unfolding string_eq
as_placement-placement_value header = refl
as_placement-placement_value query = refl

Valid-again :
    (m : BearerMetadata) → Valid m → validate_bearer_metadata (bearer_metadata_json m) ≡ some m
unfolding validate_bearer_metadata
Valid-again m h =
    rw
      (
        lookup-placement m,
        as_placement-placement_value m.placement,
        lookup-header_name m,
        h.header_name,
        lookup-prefix m,
        h.prefix,
        lookup-param_name m,
        h.param_name,
        own_keys-bearer_metadata_json m,
        h.own,
        h.named,
      )
      refl

fields-checked :
    (a : Option Placement) (b c : Option String) (d : Option (Option String)) (e : Dict String Json)
    (m : BearerMetadata)
    → bearer_fields a b c d e ≡ some m
    → (b ≡ some m.header_name)
      × (c ≡ some m.prefix)
      × (d ≡ some m.param_name)
      × (m.extra ≡ e)
      × (param_named m ≡ true)
fields-checked a b c d e m h = ground arith

text_within-again :
    (low high : ℕ) (j : Json) (s : String)
    → text_within low high j ≡ some s
    → text_within low high (str s) ≡ some s
unfolding text_within
text_within-again low high j s h = ground arith

defaulted-again :
    (low high : ℕ) (default s : String) (o : Option Json)
    → text_within low high (str default) ≡ some default
    → defaulted default (text_within low high) o ≡ some s
    → text_within low high (str s) ≡ some s
defaulted-again low high default s none fits h = ground arith
defaulted-again low high default s (some j) fits h = text_within-again low high j s h

nullable-again :
    (low high : ℕ) (j : Json) (s : Option String)
    → nullable (text_within low high) j ≡ some s
    → nullable (text_within low high) (optional_text s) ≡ some s
unfolding text_within
nullable-again low high j none h = refl
nullable-again low high null (some s) h = cc
nullable-again low high (bool b) (some s) h = cc
nullable-again low high (num n) (some s) h = cc
nullable-again low high (arr js) (some s) h = cc
nullable-again low high (obj fs) (some s) h = cc
nullable-again low high (str x) (some s) h = ground arith

defaulted-nullable :
    (low high : ℕ) (s : Option String) (o : Option Json)
    → defaulted none (nullable (text_within low high)) o ≡ some s
    → nullable (text_within low high) (optional_text s) ≡ some s
defaulted-nullable low high none o h = refl
defaulted-nullable low high (some s) none h = cc
defaulted-nullable low high (some s) (some j) h = nullable-again low high j (some s) h

authorization-fits : text_within 1 128 (str "Authorization") ≡ some "Authorization"
unfolding text_within
authorization-fits = refl

bearer-fits : text_within 0 32 (str "Bearer ") ≡ some "Bearer "
unfolding text_within
bearer-fits = refl

validated :
    (raw : Dict String Json) (m : BearerMetadata) → validate_bearer_metadata raw ≡ some m → Valid m
unfolding validate_bearer_metadata
validated raw m h =
    let f = fields-checked _ _ _ _ (own_keys raw) m h in
    record {
      header_name =
          defaulted-again 1 128 "Authorization" m.header_name (lookup "header_name" raw)
            authorization-fits f.0;
      prefix = defaulted-again 0 32 "Bearer " m.prefix (lookup "prefix" raw) bearer-fits f.1;
      param_name = defaulted-nullable 0 64 m.param_name (lookup "param_name" raw) f.2;
      named = f.4;
      own = ap own_keys f.3 ∙ own_keys_idem raw ∙ sym f.3;
    }

-- What the theorem below needs of Fernet and of `json`: this one payload is read back as it was
-- written.
pub record ReadsBack (lib : Library) (p : Payload) : Type 0 where
  pub decrypted :
      lib.decrypt (lib.encrypt (serialise_payload lib p)) ≡ some (serialise_payload lib p)
  pub loaded : lib.loads (serialise_payload lib p) ≡ some (payload_json p)

deserialise_payload-bearer :
    (lib : Library) (raw : Dict String Json) (t : String)
    → validate_bearer_payload raw ≡ some t
    → ReadsBack lib (bearer_payload t)
    → deserialise_payload lib bearer (serialise_payload lib (bearer_payload t))
      ≡ ok (bearer_payload t)
unfolding deserialise_payload payload_json object lookup entries
deserialise_payload-bearer lib raw t h back =
    rw (back.loaded, validate_bearer_payload-again raw t h) refl

-- The row that a bearer credential is stored as.
abbrev stored_row : Library → ℕ → String → String → BearerMetadata → ℕ → Credential
stored_row lib user_id label t m id = record {
  id = id;
  user_id = user_id;
  kind = bearer;
  label = strip label;
  encrypted_payload = lib.encrypt (serialise_payload lib (bearer_payload t));
  preview = bearer_preview t;
  metadata_json = bearer_metadata_json m;
  deleted_at = none;
  created_at = id;
}

resolve-stored_row :
    (r : Refresher) (user_id : ℕ) (label t : String) (m : BearerMetadata) (purpose : Option String)
    (v : Vault) (rest : List Credential) (id : ℕ) (raw raw_metadata : Dict String Json)
    → v.credentials ≡ stored_row r.lib user_id label t m id ∷ rest
    → validate_bearer_payload raw ≡ some t
    → validate_bearer_metadata raw_metadata ≡ some m
    → ReadsBack r.lib (bearer_payload t)
    → (resolve r user_id id purpose v).0
      ≡ ok (record {
        id = id;
        kind = bearer;
        label = strip label;
        payload = bearer_payload t;
        metadata = bearer_metadata m;
      })
unfolding resolve get find record_event deserialise_metadata validate_metadata ◌>>=◌
resolve-stored_row r user_id label t m purpose v rest id raw raw_metadata head ht hm back =
    rw
      (
        head,
        ==_refl id,
        ==_refl user_id,
        back.decrypted,
        deserialise_payload-bearer r.lib raw t ht back,
        Valid-again m (validated raw_metadata m hm),
      )
      refl

-- A bearer credential that was created can be resolved, with the validated token, the validated
-- metadata and the stripped label it was created with. (Fernet decrypts what it encrypted for this
-- payload, and `json.loads` reads it back.)
pub create-resolve :
    (r : Refresher) (user_id : ℕ) (label : String) (payload : Dict String Json)
    (metadata : Option (Dict String Json)) (purpose : Option String) (v v' : Vault) (c : Credential)
    (t : String) (m : BearerMetadata)
    → validate_bearer_payload payload ≡ some t
    → validate_bearer_metadata (or_empty metadata) ≡ some m
    → ReadsBack r.lib (bearer_payload t)
    → create_credential r.lib user_id bearer label payload metadata v ≡ (ok c, v')
    → (resolve r user_id c.id purpose v').0
      ≡ ok (record {
        id = c.id;
        kind = bearer;
        label = strip label;
        payload = bearer_payload t;
        metadata = bearer_metadata m;
      })
unfolding create_credential create record_event parse_payload parse_metadata validate_metadata
    serialise_metadata build_preview ◌>>=◌
create-resolve r user_id label payload metadata purpose v v' c t m ht hm back h =
    let made : (c ≡ stored_row r.lib user_id label t m v.next_id)
        × (v'.credentials ≡ stored_row r.lib user_id label t m v.next_id ∷ v.credentials) =
      ground arith in
    rw made.0 (
      resolve-stored_row r user_id label t m purpose v' v.credentials v.next_id payload
        (or_empty metadata) made.1 ht hm back)
