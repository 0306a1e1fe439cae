-- ===== src/Credential/Adapter.antt =====
-- The OAuth protocol (src/integrations/_shared/adapter.py, state.py, tokens.py). A provider's
-- configuration and the Authlib client made for it are one record: what the client answers is a
-- function of what it is sent. Times are in seconds.
use Prim.Native.Char.{Char, code}
use saas_ai_agents_long_term.Prelude.{
  ℕ, ◌+◌, String, Bool, true, false, Option, none, some, List, [], ◌∷◌, ◌==◌, nat_eq, string_eq,
  if◌then◌else◌,
}
use saas_ai_agents_long_term.Prelude.Dict.{Dict, lookup}
use saas_ai_agents_long_term.Effect.{
  Result, ok, err, Error, authentication, provider_auth, provider_refresh, provider_api,
  provider_config, value_error,
}
use saas_ai_agents_long_term.Json.{Json, str, num}
use saas_ai_agents_long_term.Credential.Refresh.{TokenBundle}

pub record Provider : Type 0 where
  pub display_name : String
  pub is_oauth_provider : Bool
  pub refresh_supported : Bool
  pub default_scopes : List String
  -- the code point of the separator
  pub scope_separator : ℕ
  pub revoke_url : Option String
  pub custom_revoker : Option (String → Result (Unit {0}))
  pub post_callback_hook : Option (String → Result (Dict String Json))
  -- Authlib's client: a code and the PKCE verifier, a refresh token, a URL and a token
  pub fetch_token : String → Option Json → Result (Dict String Json)
  pub refresh_token : String → Result (Dict String Json)
  pub revoke_token : String → String → Result (Unit {0})

pub record Adapter : Type 0 where
  pub now : ℕ
  pub provider : String → Option Provider
  -- `jwt.decode` with the key of the application: the claims, or none if it raises
  pub jwt_decode : String → Option (Dict String Json)

unfoldable pub and_then {ℓ κ} : {A : Type ℓ} {B : Type κ} → Result A → (A → Result B) → Result B
and_then (ok a) f = f a
and_then (err e) f = err e

-- `except Exception as exc: raise E from exc`
unfoldable pub translate {ℓ} : {A : Type ℓ} → Error → Result A → Result A
translate e (ok a) = ok a
translate e (err x) = err e

abbrev pub is_number : Option Json → Bool
is_number (some (num n)) = true
is_number _ = false

abbrev pub is_text : String → Option Json → Bool
is_text s (some (str t)) = s == t
is_text s _ = false

-- A boolean, which `isinstance` would take for an `int` and the signer never writes, is refused.
unfoldable pub verified_claims : Dict String Json → Result (Dict String Json)
verified_claims claims =
    if is_text "oauth_state" (lookup "type" claims)
    then if is_number (lookup "user_id" claims) then ok claims else err authentication
    else err authentication

abbrev pub decoded : Option (Dict String Json) → Result (Dict String Json)
decoded none = err authentication
decoded (some claims) = verified_claims claims

-- `OAuthStateSigner.verify`
unfoldable pub verify_state : Adapter → String → Result (Dict String Json)
unfolding verified_claims
verify_state adapter state = decoded (adapter.jwt_decode state)

-- `tuple(s for s in text.split(separator) if s)`
abbrev add_char : Bool → Char → List String → List String
add_char true c parts = String.[] ∷ parts
add_char false c [] = []
add_char false c (p ∷ parts) = String.◌∷◌ c p ∷ parts

unfoldable pub split : ℕ → String → List String
split sep String.[] = String.[] ∷ []
split sep (String.◌∷◌ c s) = add_char (code c == sep) c (split sep s)

abbrev nonempty : List String → List String
nonempty [] = []
nonempty (s ∷ ss) = let rest = nonempty ss in if s == "" then rest else s ∷ rest

abbrev scopes_of : Provider → Option Json → List String
unfolding split
scopes_of p (some (str s)) =
    if s == "" then p.default_scopes else nonempty (split p.scope_separator s)
scopes_of p _ = p.default_scopes

abbrev text_field : Option Json → Option String
text_field (some (str s)) = some s
text_field _ = none

-- The provider sends both times as numbers; anything else is not modelled and raises.
abbrev expiry : ℕ → Option Json → Option Json → Result (Option ℕ)
expiry now (some (num t)) lifetime = ok (some t)
expiry now (some j) lifetime = err value_error
expiry now none (some (num n)) = ok (some (now + n))
expiry now none (some j) = err value_error
expiry now none none = ok none

abbrev access_text : Option Json → Result String
access_text (some (str s)) = if s == "" then err value_error else ok s
access_text _ = err value_error

-- `TokenBundle.from_authlib`
unfoldable pub from_authlib : ℕ → Provider → Dict String Json → Result TokenBundle
unfolding and_then scopes_of
from_authlib now p token = and_then (access_text (lookup "access_token" token)) (λ access.
    and_then (expiry now (lookup "expires_at" token) (lookup "expires_in" token)) (λ expires_at.
      ok (record {
        access_token = access;
        refresh_token = text_field (lookup "refresh_token" token);
        expires_at = expires_at;
        scopes = scopes_of p (lookup "scope" token);
        raw = token;
      })))

pub record CallbackResult : Type 0 where
  pub user_id : ℕ
  pub token : TokenBundle

module _ (adapter : Adapter) where
  abbrev pub or_unknown : Option Provider → Result Provider
  or_unknown none = err provider_config
  or_unknown (some p) = ok p

  -- `ProviderCatalog.get`
  unfoldable pub config_of : String → Result Provider
  config_of kind = or_unknown (adapter.provider kind)

  abbrev pub claimed_user : Option Json → Result ℕ
  claimed_user (some (num n)) = ok n
  claimed_user _ = err value_error

  unfoldable pub exchange_code : String → String → Dict String Json → Result CallbackResult
  unfolding config_of and_then translate from_authlib
  exchange_code kind code claims = and_then (config_of kind) (λ p.
      and_then (translate provider_auth (p.fetch_token code (lookup "pkce_verifier" claims)))
        (λ token_data. and_then (from_authlib adapter.now p token_data) (λ bundle.
          and_then (claimed_user (lookup "user_id" claims))
            (λ user_id. ok (record { user_id = user_id; token = bundle })))))

  unfoldable pub handle_callback : String → String → String → Result CallbackResult
  unfolding verify_state and_then exchange_code
  handle_callback kind code state = and_then (verify_state adapter state) (λ claims.
      if is_text kind (lookup "provider" claims)
      then exchange_code kind code claims
      else err provider_auth)

  unfoldable pub refresh_bundle : String → String → Result TokenBundle
  unfolding config_of and_then translate from_authlib
  refresh_bundle kind token = and_then (config_of kind) (λ p.
      if p.refresh_supported
      then and_then (translate provider_refresh (p.refresh_token token))
          (from_authlib adapter.now p)
      else err provider_refresh)

  abbrev revoke_by_url : Provider → String → Option String → Result (Unit {0})
  unfolding translate
  revoke_by_url p token none = ok tt
  revoke_by_url p token (some url) =
      if url == "" then ok tt else translate provider_api (p.revoke_token url token)

  abbrev revoke_by : Provider → String → Option (String → Result (Unit {0})) → Result (Unit {0})
  unfolding translate
  revoke_by p token (some revoker) = translate provider_api (revoker token)
  revoke_by p token none = revoke_by_url p token p.revoke_url

  unfoldable pub revoke_token : String → String → Result (Unit {0})
  unfolding config_of and_then revoke_by
  revoke_token kind token = and_then (config_of kind) (λ p. revoke_by p token p.custom_revoker)
