-- ===== src/Credential/Gone.antt =====
-- A credential that was deleted stays deleted, whatever is done to the vault (src/credentials/).
use saas_ai_agents_long_term.Prelude.{
  ℕ, ◌<◌, String, false, Option, none, some, List, [], ◌∷◌, ◌≡◌, refl, ◌≢◌, arith, ap, subst,
  nat_eq, find_first-holds, find_first-All, All, find_first, inl, inr, Option-cases,
}
use saas_ai_agents_long_term.Prelude.Dict.{Dict}
use saas_ai_agents_long_term.Json.{Json}
use saas_ai_agents_long_term.Prelude.Table.{save-All, save}
use saas_ai_agents_long_term.Effect.{Result, ok, err, not_found, Exec, continue, modify, ◌>>=◌}
use saas_ai_agents_long_term.Effect.Preserves.{
  Preserves, preserves_rules, modify-Preserves, bind-Preserves, transaction-Preserves,
}
use saas_ai_agents_long_term.Credential.{
  Vault, Credential, CredentialKind, CredentialEventType, live, found, find, get, create,
  record_event, save_credential, soft_delete, list_for_user, find_active_oauth_for_provider, scope,
}
use saas_ai_agents_long_term.Credential.Payload.{
  OauthPayload, OauthMetadata, Payload, bearer_payload, oauth_payload, Metadata, bearer_metadata,
  oauth_metadata,
}
use saas_ai_agents_long_term.Credential.Service.{
  create_credential, get_credential, delete_credential, list_credentials,
}
use saas_ai_agents_long_term.Credential.Refresh.{
  Refresher, refresh, refresh_with, mark_needs_reauth, rotated, up_to_date, resolve, resolve_found,
  resolve_oauth_for_provider, get_access_token,
}
use saas_ai_agents_long_term.Credential.Adapter.{Adapter}
use saas_ai_agents_long_term.Credential.Flow.{connect, revoke}
use saas_ai_agents_long_term.Credential.Operations.{
  perform, Turn, Operation, after_all, to_create, to_list, to_get, to_delete, to_revoke, to_resolve,
  to_access, to_connect,
}

abbrev pub Dead : ℕ → Credential → Type 0
Dead id c = c.id ≡ id → live c ≡ false

-- The id was given out, and no row that is not deleted has it.
abbrev pub Gone : ℕ → Vault → Type 0
Gone id v = (id < v.next_id) × All (Dead id) v.credentials

module _ (id : ℕ) where
  -- A row that is read is another row.
  get-found :
      (user_id key : ℕ) (v v' : Vault) (c : Credential)
      → Gone id v
      → get user_id key false v ≡ (ok c, v')
      → c.id ≢ id
  unfolding get find
  get-found user_id key v v' c gone h same = ground (
    arith,
    find_first-All (found user_id key false) (Dead id) v.credentials c gone.1,
    find_first-holds (found user_id key false) v.credentials c,
  )

  get-state :
      (user_id key : ℕ) (v v' : Vault) (r : Result Credential)
      → get user_id key false v ≡ (r, v')
      → Gone id v
      → Gone id v'
  unfolding get
  get-state user_id key v v' r e gone = subst (Gone id) (ap (λ o. o.1) e) gone

  get_then-Preserves {κ} :
      {A : Type κ} (user_id key : ℕ) (f : Credential → Exec Vault A)
      → ((c : Credential) → c.id ≢ id → Preserves (Gone id) (f c))
      → Preserves (Gone id) (get user_id key false >>= f)
  unfolding ◌>>=◌
  get_then-Preserves user_id key f h = record {
    holds = λ v gone. go v gone (get user_id key false v) refl;
  }
    where
      go :
          (v : Vault)
          → Gone id v
          → (r : Result Credential × Vault) → get user_id key false v ≡ r
          → Gone id (continue r f).1
      go v gone (ok c, v') e =
          (h c (get-found user_id key v v' c gone e)).holds v'
            (get-state user_id key v v' (ok c) e gone)
      go v gone (err x, v') e = get-state user_id key v v' (err x) e gone

  save_credential-Preserves :
      (c : Credential) → c.id ≢ id → Preserves (Gone id) (modify (save_credential c))
  unfolding save_credential
  save_credential-Preserves c other = modify-Preserves (save_credential c) (λ v gone.
      (gone.0, save-All (λ x. x.id) (Dead id) c v.credentials (λ same. absurd (other same)) gone.1))

  record_event-Preserves :
      (user_id key : ℕ) (type : CredentialEventType) (details : Dict String Json)
      → Preserves (Gone id) (record_event user_id key type details)
  unfolding record_event
  record_event-Preserves user_id key type details = record { holds = λ v gone. gone }

  create-Preserves :
      (user_id : ℕ) (kind : CredentialKind) (label payload preview : String)
      (metadata : Dict String Json)
      → Preserves (Gone id) (create user_id kind label payload preview metadata)
  unfolding create
  create-Preserves user_id kind label payload preview metadata = record {
    holds = λ v gone. (omega arith, ((λ same. ground arith), gone.1));
  }

  ruleset vault_rules = (
    preserves_rules, save_credential-Preserves, record_event-Preserves, create-Preserves,
    get_then-Preserves,
  )

  scope-Preserves {κ} :
      {A : Type κ} (m : Exec Vault A) → Preserves (Gone id) m → Preserves (Gone id) (scope m)
  scope-Preserves m = transaction-Preserves (λ (v : Vault). v) (λ d v. d) m (λ s₀ s h₀ h. h₀)

  list-Preserves :
      (user_id offset limit : ℕ) (kind : Option CredentialKind)
      → Preserves (Gone id) (list_for_user user_id offset limit kind)
  unfolding list_for_user
  list-Preserves user_id offset limit kind = record { holds = λ v gone. gone }

  ruleset operation_rules = (vault_rules, scope-Preserves, list-Preserves)

  soft_delete-Preserves : (now user_id key : ℕ) → Preserves (Gone id) (soft_delete now user_id key)
  unfolding soft_delete
  soft_delete-Preserves now user_id key = get_then-Preserves user_id key _ (λ c other.
      bind-Preserves _ _ (save_credential-Preserves (record c { deleted_at = some now }) other)
        (λ a. search (vault_rules) depth 9))

  module _ (r : Refresher) where
    mark_needs_reauth-Preserves :
        (c : Credential) (m : OauthMetadata)
        → c.id ≢ id
        → Preserves (Gone id) (mark_needs_reauth r c m)
    unfolding mark_needs_reauth
    mark_needs_reauth-Preserves c m other = save_credential-Preserves _ other

    rotated-Preserves :
        (c : Credential) (p : OauthPayload) (m : OauthMetadata)
        → c.id ≢ id
        → Preserves (Gone id) (modify (save_credential (rotated r c p m)))
    unfolding rotated
    rotated-Preserves c p m other = save_credential-Preserves _ other

    refresh_with-Preserves :
        (c : Credential) (p : OauthPayload) (m : OauthMetadata) (token : Option String)
        → c.id ≢ id
        → Preserves (Gone id) (refresh_with r c p m token)
    refresh_with-Preserves c p m none other =
        search (vault_rules, mark_needs_reauth-Preserves, other) depth 9
    refresh_with-Preserves c p m (some token) other =
        search (vault_rules, mark_needs_reauth-Preserves, rotated-Preserves, other) depth 12

    up_to_date-Preserves :
        (c : Credential) (p : Payload) (m : Metadata)
        → c.id ≢ id
        → Preserves (Gone id) (up_to_date r c p m)
    unfolding refresh
    up_to_date-Preserves c (oauth_payload p) (oauth_metadata m) other =
        search (vault_rules, refresh_with-Preserves, other) depth 9
    up_to_date-Preserves c (oauth_payload p) (bearer_metadata m) other = search vault_rules
    up_to_date-Preserves c (bearer_payload p) m other = search vault_rules

    resolve-Preserves :
        (user_id key : ℕ) (purpose : Option String)
        → Preserves (Gone id) (resolve r user_id key purpose)
    unfolding resolve
    resolve-Preserves user_id key purpose = search (vault_rules, up_to_date-Preserves) depth 14

    find_active-Preserves :
        (user_id : ℕ) (provider : String)
        → Preserves (Gone id) (find_active_oauth_for_provider r.lib user_id provider)
    unfolding find_active_oauth_for_provider
    find_active-Preserves user_id provider = record { holds = λ v gone. gone }

    resolve_found-Preserves :
        (user_id : ℕ) (purpose : Option String) (c : Option Credential)
        → Preserves (Gone id) (resolve_found r user_id purpose c)
    resolve_found-Preserves user_id purpose none = search vault_rules
    resolve_found-Preserves user_id purpose (some c) =
        search (vault_rules, resolve-Preserves) depth 9

    get_access_token-Preserves :
        (user_id : ℕ) (provider : String)
        → Preserves (Gone id) (get_access_token r user_id provider)
    unfolding get_access_token resolve_oauth_for_provider
    get_access_token-Preserves user_id provider =
        search (vault_rules, scope-Preserves, find_active-Preserves, resolve_found-Preserves) depth
          12

    module _ (adapter : Adapter) where
      connect-Preserves :
          (kind code state : String) → Preserves (Gone id) (connect r adapter kind code state)
      unfolding connect
      connect-Preserves kind code state = search vault_rules depth 12

      revoke-Preserves :
          (now user_id key : ℕ) → Preserves (Gone id) (revoke r adapter now user_id key)
      unfolding revoke
      revoke-Preserves now user_id key = search (vault_rules, soft_delete-Preserves) depth 16

      perform-Preserves : (o : Operation) → Preserves (Gone id) (perform r adapter o)
      unfolding perform create_credential get_credential delete_credential list_credentials
          list_for_user
      perform-Preserves (to_create user_id kind label payload metadata) =
          search operation_rules depth 14
      perform-Preserves (to_list user_id offset limit kind) = search operation_rules depth 9
      perform-Preserves (to_get user_id key) = search operation_rules depth 12
      perform-Preserves (to_delete user_id key) =
          search (operation_rules, soft_delete-Preserves) depth 12
      perform-Preserves (to_revoke user_id key) = search (operation_rules, revoke-Preserves) depth 9
      perform-Preserves (to_resolve user_id key purpose) =
          search (operation_rules, resolve-Preserves) depth 9
      perform-Preserves (to_access user_id provider) =
          search (operation_rules, get_access_token-Preserves) depth 9
      perform-Preserves (to_connect kind code state) =
          search (operation_rules, connect-Preserves) depth 9

  after_all-Gone : (ts : List Turn) (v : Vault) → Gone id v → Gone id (after_all ts v)
  after_all-Gone [] v gone = gone
  after_all-Gone (t ∷ ts) v gone =
      after_all-Gone ts _ ((perform-Preserves t.refresher t.adapter t.operation).holds v gone)

save-Dead :
    (b : Credential) (xs : List Credential)
    → live b ≡ false
    → All (Dead b.id) (save (λ (x : Credential). x.id) b xs)
unfolding save
save-Dead b [] h = tt
save-Dead b (x ∷ xs) h = (λ same. ground arith, save-Dead b xs h)

delete_credential-Gone :
    (now user_id id : ℕ) (v v' : Vault)
    → id < v.next_id
    → delete_credential now user_id id v ≡ (ok tt, v')
    → Gone id v'
unfolding delete_credential soft_delete get find record_event save_credential ◌>>=◌
delete_credential-Gone now user_id id v v' old h =
    elim (Option-cases (find_first (found user_id id false) v.credentials)) [
      | inl missing ↦ ground arith
      | inr (c, there) ↦ subst (Gone id) (ap (λ o. o.1) h) (
          rw there (
            old,
            subst
                (λ key. All (Dead key) (
                  save (λ (x : Credential). x.id) (record c { deleted_at = some now })
                    v.credentials))
                (ground (arith, find_first-holds (found user_id id false) v.credentials c))
                (save-Dead (record c { deleted_at = some now }) v.credentials refl),
          ))
    ]

get-Gone : (user_id id : ℕ) (v : Vault) → Gone id v → get user_id id false v ≡ (err not_found, v)
unfolding get find
get-Gone user_id id v gone =
    elim (Option-cases (find_first (found user_id id false) v.credentials)) [
      | inl missing ↦ rw missing refl
      | inr (c, there) ↦ ground (
        arith,
        find_first-All (found user_id id false) (Dead id) v.credentials c gone.1,
        find_first-holds (found user_id id false) v.credentials c,
      )
    ]

resolve-Gone :
    (r : Refresher) (user_id id : ℕ) (purpose : Option String) (v : Vault)
    → Gone id v
    → resolve r user_id id purpose v ≡ (err not_found, v)
unfolding resolve ◌>>=◌
resolve-Gone r user_id id purpose v gone = rw (get-Gone user_id id v gone) refl

-- A credential that was deleted, under an id that was given out, is never found or resolved again
-- by any user, whatever sequence of operations on the vault follows, refreshes and new connections
-- included.
pub deleted_forever :
    (now user_id id : ℕ) (v v' : Vault) (ts : List Turn)
    → id < v.next_id
    → delete_credential now user_id id v ≡ (ok tt, v')
    → (r : Refresher) (user : ℕ) (purpose : Option String)
    → let w = after_all ts v' in
      (get user id false w ≡ (err not_found, w))
      × (resolve r user id purpose w ≡ (err not_found, w))
deleted_forever now user_id id v v' ts old h r user purpose =
    let gone = after_all-Gone id ts v' (delete_credential-Gone now user_id id v v' old h) in
    (get-Gone user id (after_all ts v') gone, resolve-Gone r user id purpose (after_all ts v') gone)
