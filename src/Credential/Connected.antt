-- ===== src/Credential/Connected.antt =====
-- Who an OAuth credential is given to (src/credentials/oauth/service.py, src/integrations/_shared/
-- adapter.py, state.py).
use saas_ai_agents_long_term.Prelude.{
  ℕ, String, string_eq, true, Option, some, ◌∷◌, ◌≡◌, refl, sym, ap, subst, ◌∙◌, arith,
  if◌then◌else◌, Bool-cases, inl, inr,
}
use saas_ai_agents_long_term.Prelude.Dict.{Dict, lookup}
use saas_ai_agents_long_term.Json.{Json, str, num}
use saas_ai_agents_long_term.Effect.{Result, ok, err, provider_auth}
use saas_ai_agents_long_term.Effect.Inversion.{middle, lift-ok, lift-state, pure-ok}
use saas_ai_agents_long_term.Credential.{
  Vault, Credential, CredentialKind, CredentialEventType, create, record_event,
}
use saas_ai_agents_long_term.Credential.Refresh.{Refresher}
use saas_ai_agents_long_term.Credential.Adapter.{
  Adapter, CallbackResult, verify_state, verified_claims, handle_callback, exchange_code, is_text,
  claimed_user, and_then,
}
use saas_ai_agents_long_term.Credential.Flow.{connect, as_authentication}

-- The state that came back was signed by the application for this provider and this user.
pub record SignedFor (adapter : Adapter) (kind state : String) (user_id : ℕ) : Type 0 where
  pub claims : Dict String Json
  pub authentic : adapter.jwt_decode state ≡ some claims
  pub type : lookup "type" claims ≡ some (str "oauth_state")
  pub provider : lookup "provider" claims ≡ some (str kind)
  pub user : lookup "user_id" claims ≡ some (num user_id)

and_then-ok {ℓ κ} :
    {A : Type ℓ} {B : Type κ} (r : Result A) (f : A → Result B) (b : B)
    → and_then r f ≡ ok b
    → (a : A) × (r ≡ ok a) × (f a ≡ ok b)
unfolding and_then
and_then-ok (ok a) f b h = (a, refl, h)
and_then-ok (err e) f b h = cc

is_text-eq : (s : String) (o : Option Json) → is_text s o ≡ true → o ≡ some (str s)
is_text-eq s o h = ground arith

claimed_user-eq :
    (adapter : Adapter) (o : Option Json) (n : ℕ) → claimed_user adapter o ≡ ok n → o ≡ some (num n)
claimed_user-eq adapter o n h = ground arith

-- A state that is verified holds the claims of a state token.
verify_state-ok :
    (adapter : Adapter) (state : String) (claims : Dict String Json)
    → verify_state adapter state ≡ ok claims
    → (adapter.jwt_decode state ≡ some claims) × (lookup "type" claims ≡ some (str "oauth_state"))
unfolding verify_state verified_claims
verify_state-ok adapter state claims h = ground arith

exchange_code-user :
    (adapter : Adapter) (kind code : String) (claims : Dict String Json) (c : CallbackResult)
    → exchange_code adapter kind code claims ≡ ok c
    → lookup "user_id" claims ≡ some (num c.user_id)
unfolding exchange_code and_then
exchange_code-user adapter kind code claims c h =
    ground (arith, claimed_user-eq adapter (lookup "user_id" claims) c.user_id)

handle_callback-SignedFor :
    (adapter : Adapter) (kind code state : String) (c : CallbackResult)
    → handle_callback adapter kind code state ≡ ok c
    → SignedFor adapter kind state c.user_id
unfolding handle_callback
handle_callback-SignedFor adapter kind code state c h =
    let (claims, verified, k) =
      and_then-ok (verify_state adapter state)
        (λ claims.
          if is_text kind (lookup "provider" claims)
          then exchange_code adapter kind code claims
          else err provider_auth)
        c h in
    elim (Bool-cases (is_text kind (lookup "provider" claims))) [
      | inl same ↦ record {
        claims = claims;
        authentic = (verify_state-ok adapter state claims verified).0;
        type = (verify_state-ok adapter state claims verified).1;
        provider = is_text-eq kind (lookup "provider" claims) same;
        user = exchange_code-user adapter kind code claims c (ground arith);
      }
      | inr other ↦ ground arith
    ]

create-stored :
    (user_id : ℕ) (kind : CredentialKind) (label payload preview : String)
    (metadata : Dict String Json) (v v' : Vault) (c : Credential)
    → create user_id kind label payload preview metadata v ≡ (ok c, v')
    → (c.user_id ≡ user_id) × (v'.credentials ≡ c ∷ v.credentials)
unfolding create
create-stored user_id kind label payload preview metadata v v' c h = ground arith

record_event-credentials :
    (user_id id : ℕ) (type : CredentialEventType) (details : Dict String Json) (v v' : Vault)
    (u : Unit {0})
    → record_event user_id id type details v ≡ (ok u, v')
    → v'.credentials ≡ v.credentials
unfolding record_event
record_event-credentials user_id id type details v v' u h = ap (λ x. x.1.credentials) (sym h)

as_authentication-ok :
    (r : Refresher) (adapter : Adapter) (x : Result CallbackResult) (c : CallbackResult)
    → as_authentication r adapter x ≡ ok c
    → x ≡ ok c
as_authentication-ok r adapter x c h = ground arith

-- Connecting a provider, when it returns, adds exactly the credential that it returns to the vault,
-- and that belongs to the user in the claims of the state that came back, which the application
-- signed, as a state token, for the same provider.
pub connect-SignedFor :
    (r : Refresher) (adapter : Adapter) (kind code state : String) (v v' : Vault) (c : Credential)
    → connect r adapter kind code state v ≡ (ok c, v')
    → (v'.credentials ≡ c ∷ v.credentials) × SignedFor adapter kind state c.user_id
unfolding connect
connect-SignedFor r adapter kind code state v v' c h =
    let k = middle _ _ v v' c h in
    let k₂ = middle _ _ k.state v' c k.second in
    let k₃ = middle _ _ k₂.state v' c k₂.second in
    let k₄ = middle _ _ k₃.state v' c k₃.second in
    let stored = create-stored _ _ _ _ _ _ k₂.state k₃.state k₃.value k₃.first in
    let same = pure-ok k₃.value c k₄.state v' k₄.second in
    let found = as_authentication-ok r adapter _ k.value (lift-ok _ k.value v k.state k.first) in
    (
      ap (λ (x : Vault). x.credentials) (sym same.1)
          ∙ record_event-credentials _ _ _ _ k₃.state k₄.state k₄.value k₄.first
          ∙ stored.1
          ∙ ap (λ (x : Credential). x ∷ k₂.state.credentials) same.0
          ∙ ap (λ (x : Vault). c ∷ x.credentials)
              (sym (lift-state _ _ v k.state k.first ∙ lift-state _ _ k.state k₂.state k₂.first)),
      subst (SignedFor adapter kind state)
          (sym stored.0 ∙ ap (λ (x : Credential). x.user_id) same.0)
          (handle_callback-SignedFor adapter kind code state k.value found),
    )
