-- ===== src/Gateway/Agents/Renewal/Rotation.antt =====
-- What a renewal does to the old credential and to the new one.
use warp_insight.Prelude.{
  ℕ, ◌+◌, ◌*◌, ◌<◌, ◌≡◌, refl, sym, ap, ◌∙◌, true, Option, some, List, arith, inl, inr,
  Option-cases,
}
use warp_insight.Prelude.Text.{Text, text_eq, text_eq_iff}
use warp_insight.Prelude.Assoc.{get, get-insert_self}
use warp_insight.Prelude.Chrono.{Chrono, RoundTrips}
use warp_insight.Prelude.Results.{ok}
use warp_insight.Secret.{Headers, bearer_token, sha256_hex}
use warp_insight.Gateway.Config.{AdminConfig}
use warp_insight.Gateway.Store.{
  StoredAgentRegistration, AdminStoreSnapshot, Disk, works, load_fails, save_fails, sync_fails,
  load, update, credential_is_active,
}
use warp_insight.Gateway.Agents.{authenticate_agent, put_agent}
use warp_insight.Gateway.Agents.Authentication.{is_active-eq}
use warp_insight.Gateway.Agents.Credential.{HasCredential, credential-accepts, credential-refuses}
use warp_insight.Gateway.Agents.Renewal.{
  CredentialRenewal, CredentialBundle, renewed, replace_credential, prepare, renew_agent_credential,
}

-- What a renewal that succeeds has stored.
abbrev Stored : (List ℕ → List ℕ) → CredentialBundle → AdminStoreSnapshot → Type 0
Stored digest bundle s =
    HasCredential digest bundle.agent_id bundle.instance_id bundle.bearer_token bundle.not_after s

prepare-inv :
    (digest : List ℕ → List ℕ) (chrono : Chrono) (config : AdminConfig) (kind : Text)
    (auth_now now : ℕ) (disk : Disk) (token_bytes id_bytes : Option (List ℕ)) (headers : Headers)
    (input : CredentialRenewal) (s : AdminStoreSnapshot) (hash : Text)
    (agent : StoredAgentRegistration) (bundle : CredentialBundle)
    → prepare digest chrono config kind auth_now now disk token_bytes id_bytes headers input s
      ≡ ok (hash, agent, bundle)
    → (bundle.agent_id ≡ agent.agent_id)
      × (bundle.instance_id ≡ agent.instance_id)
      × (bundle.not_after ≡ chrono.to_rfc3339 (now + config.credential_ttl_seconds * 1_000_000_000))
unfolding prepare
prepare-inv digest chrono config kind auth_now now disk token_bytes id_bytes headers input s hash
      agent bundle h =
    ground arith

replace-inv :
    (digest : List ℕ → List ℕ) (hash : Text) (agent : StoredAgentRegistration)
    (bundle : CredentialBundle) (s s' : AdminStoreSnapshot)
    → replace_credential digest hash agent bundle s ≡ (s', true)
    → (stored : StoredAgentRegistration) × (text_eq stored.instance_id agent.instance_id ≡ true)
      × (credential_is_active stored.credential_status ≡ true)
      × (s'
          ≡ put_agent
              (renewed (sha256_hex digest bundle.bearer_token) bundle stored)
              agent.agent_id
              s)
unfolding replace_credential
replace-inv digest hash agent bundle s s' h = elim (Option-cases (get agent.agent_id s.agents)) [
  | inl e ↦ absurd (ground arith)
  | inr (stored, e) ↦ (stored, ground arith, ground arith, ground arith)
]

replace-Stored :
    (digest : List ℕ → List ℕ) (hash : Text) (agent : StoredAgentRegistration)
    (bundle : CredentialBundle) (s s' : AdminStoreSnapshot)
    → bundle.agent_id ≡ agent.agent_id
    → bundle.instance_id ≡ agent.instance_id
    → replace_credential digest hash agent bundle s ≡ (s', true)
    → Stored digest bundle s'
unfolding renewed
replace-Stored digest hash agent bundle s s' e i h =
    let (stored, same, active, s_eq) = replace-inv digest hash agent bundle s s' h in
    let new = renewed (sha256_hex digest bundle.bearer_token) bundle stored in
    record {
      agent = new;
      registered = rw (s_eq, e) (get-insert_self agent.agent_id new s.agents);
      instance_matches = (text_eq_iff stored.instance_id agent.instance_id).0 same ∙ sym i;
      hash_matches = refl;
      active = is_active-eq stored.credential_status active;
      expiry = refl;
    }

update-ok :
    {T : Type 0} (disk : Disk) (mutate : AdminStoreSnapshot → AdminStoreSnapshot × T)
    (s s' : AdminStoreSnapshot) (output : T)
    → update disk mutate s ≡ (s', ok output)
    → mutate s ≡ (s', output)
unfolding update
update-ok works mutate s s' output h = ground arith
update-ok (load_fails e) mutate s s' output h = absurd (ground arith)
update-ok (save_fails e) mutate s s' output h = absurd (ground arith)
update-ok (sync_fails e) mutate s s' output h = absurd (ground arith)

renew-inv :
    (digest : List ℕ → List ℕ) (chrono : Chrono) (config : AdminConfig) (kind : Text)
    (auth_now now : ℕ) (loading writing : Disk) (token_bytes id_bytes : Option (List ℕ))
    (headers : Headers) (input : CredentialRenewal) (s s' : AdminStoreSnapshot)
    (bundle : CredentialBundle)
    → renew_agent_credential digest chrono config kind auth_now now loading writing token_bytes
        id_bytes headers input s
      ≡ (s', ok bundle)
    → (hash : Text) × (agent : StoredAgentRegistration) × (prepare digest chrono config kind
          auth_now now loading token_bytes id_bytes headers input s
        ≡ ok (hash, agent, bundle))
      × (update writing (replace_credential digest hash agent bundle) s ≡ (s', ok true))
unfolding renew_agent_credential
renew-inv digest chrono config kind auth_now now loading writing token_bytes id_bytes headers input
      s s' bundle h =
    ground arith

renew-Stored :
    (digest : List ℕ → List ℕ) (chrono : Chrono) (config : AdminConfig) (kind : Text)
    (auth_now now : ℕ) (loading writing : Disk) (token_bytes id_bytes : Option (List ℕ))
    (headers : Headers) (input : CredentialRenewal) (s s' : AdminStoreSnapshot)
    (bundle : CredentialBundle)
    → renew_agent_credential digest chrono config kind auth_now now loading writing token_bytes
        id_bytes headers input s
      ≡ (s', ok bundle)
    → Stored digest bundle s'
      × (bundle.not_after ≡ chrono.to_rfc3339 (now + config.credential_ttl_seconds * 1_000_000_000))
renew-Stored digest chrono config kind auth_now now loading writing token_bytes id_bytes headers
      input s s' bundle h =
    let (hash, agent, p, u) =
      renew-inv digest chrono config kind auth_now now loading writing token_bytes id_bytes headers
        input s s' bundle h in
    let (e, i, n) =
      prepare-inv digest chrono config kind auth_now now loading token_bytes id_bytes headers input
        s hash agent bundle p in
    (replace-Stored digest hash agent bundle s s' e i (update-ok writing _ s s' true u), n)

module _ (digest : List ℕ → List ℕ) (chrono : Chrono) (config : AdminConfig) (kind : Text)
    (auth_now now : ℕ) (loading writing : Disk) (token_bytes id_bytes : Option (List ℕ))
    (headers : Headers) (input : CredentialRenewal) (s s' : AdminStoreSnapshot)
    (bundle : CredentialBundle)
    (success : renew_agent_credential digest chrono config kind auth_now now loading writing
        token_bytes id_bytes headers input s
      ≡ (s', ok bundle))
    (later : ℕ) (disk : Disk) (readable : load disk s' ≡ ok s') (next : Headers) where
  stored :
      Stored digest bundle s'
      × (bundle.not_after ≡ chrono.to_rfc3339 (now + config.credential_ttl_seconds * 1_000_000_000))
  stored =
      renew-Stored digest chrono config kind auth_now now loading writing token_bytes id_bytes
        headers input s s' bundle success

  -- After a renewal that answered with a bundle, while the store can be read and is not changed again:
  -- a request with the new token passes as the agent until the time to live of credentials is over.
  pub renew_agent_credential-accepts :
      RoundTrips chrono
      → later < now + config.credential_ttl_seconds * 1_000_000_000
      → bearer_token next ≡ some bundle.bearer_token
      → (agent : StoredAgentRegistration) × (authenticate_agent digest chrono later disk s' next
            bundle.agent_id bundle.instance_id
          ≡ ok agent)
  renew_agent_credential-accepts trips t b = (
    stored.0.agent,
    credential-accepts digest chrono bundle.agent_id bundle.instance_id bundle.bearer_token
        bundle.not_after s' stored.0 later disk readable next _
        (ap (λ x. chrono.parse_from_rfc3339 x) stored.1 ∙ trips _) t b,
  )

  -- After a renewal that answered with a bundle, while the store can be read and is not changed again:
  -- a request passes as the agent only with a token that has the hash of the new token.
  pub renew_agent_credential-refuses :
      (agent : StoredAgentRegistration) (token : Text)
      → bearer_token next ≡ some token
      → authenticate_agent digest chrono later disk s' next bundle.agent_id bundle.instance_id
        ≡ ok agent
      → sha256_hex digest token ≡ sha256_hex digest bundle.bearer_token
  renew_agent_credential-refuses agent token b h =
      credential-refuses digest chrono bundle.agent_id bundle.instance_id bundle.bearer_token
        bundle.not_after s' stored.0 later disk readable next agent token b h
