-- ===== src/Center/Provisioning/Onboarding.antt =====
-- A gateway that was created gets its configuration, and with it registers.
use warp_insight.Prelude.{
  ℕ, ◌+◌, ◌*◌, ◌≤◌, ◌≡◌, ◌∙◌, refl, false, none, some, List, ◌++◌, arith, length,
}
use warp_insight.Prelude.Text.{Text, text, is_empty}
use warp_insight.Prelude.Assoc.{get}
use warp_insight.Prelude.Chrono.{Chrono}
use warp_insight.Prelude.Results.{ok}
use warp_insight.Secret.{Headers, bearer_token, trimmed, sha256_hex, hex_lower, new_secret_token}
use warp_insight.Snapshots.{works, load, update}
use warp_insight.Gateway.RateLimit.{Buckets, rate_limit_key, check_rate_limit}
use warp_insight.Center.Access.{get_gateway, GatewayCredentialBundle, issue_runtime_credential}
use warp_insight.Center.Provisioning.{
  derive_regist_token, lacks_trust_root, InitialConfigReturned, get_gateway_initial_config,
}
use warp_insight.Center.Registration
use warp_insight.Center.Registration.{RegisterGateway, register_gateway, complete_registration}
use warp_insight.Center.Config.{CenterConfig}
use warp_insight.Center.Store.{
  GatewayInstanceLifecycleState, StoredGateway, StoredEnrollmentToken, CenterStoreSnapshot,
}
use warp_insight.Center.Tokens.{create_enrollment_token, consume_in, consume_enrollment_token}
use warp_insight.Center.Gateways.{update_gateway_credential}
use warp_insight.Center.Gateways.{new_gateway}
use warp_insight.Center.Provisioning.Steps.{
  Unused, hex_lower-nonempty, provisioning, regist_token_of, issue_of, after_provisioning,
  created-keeps, provisions, new_token-consumes, consume-keeps, mark-keeps, initializing_of,
}

abbrev pub registering :
    (checked_at now : ℕ) → (token_bytes id_bytes : List ℕ) → Registration.Surroundings
registering checked_at now token_bytes id_bytes = record {
  at = record { checked_at = checked_at; recorded_at = checked_at; now = now; loading = works };
  consumed_at = now;
  issued_at = now;
  marked_at = now;
  consuming = works;
  storing = works;
  marking = works;
  recording = works;
  token_bytes = some token_bytes;
  id_bytes = some id_bytes;
}

registers :
    (digest : List ℕ → List ℕ) (chrono : Chrono) (config : CenterConfig) (checked_at now : ℕ)
    (token_bytes id_bytes : List ℕ) (client_key : Text) (input : RegisterGateway)
    (g : StoredGateway) (used : StoredEnrollmentToken) (m : Buckets) (s : CenterStoreSnapshot)
    → (consume_in now (sha256_hex digest input.enrollment_token) s.enrollment_tokens).1 ≡ ok used
    → get used.gateway_id s.gateways ≡ some g
    → (check_rate_limit checked_at (rate_limit_key client_key (text "gateway-register")) m).1 ≡ none
    → (bundle : GatewayCredentialBundle) × ((register_gateway digest chrono config
          (registering checked_at now token_bytes id_bytes)
          client_key
          input
          (m, s)).1
        ≡ ok bundle)
      × (bundle.gateway_id ≡ used.gateway_id)
unfolding register_gateway complete_registration get_gateway load update consume_enrollment_token
    update_gateway_credential issue_runtime_credential new_secret_token
registers digest chrono config checked_at now token_bytes id_bytes client_key input g used m s c e
      limit =
    (
      record {
        credential_id = text "cred" ++ (text "_" ++ hex_lower id_bytes);
        gateway_id = used.gateway_id;
        instance_id = input.instance_id;
        bearer_token = text "wic" ++ (text "_" ++ hex_lower token_bytes);
        issued_at = chrono.to_rfc3339 now;
        expires_at = chrono.to_rfc3339 (now + config.credential_ttl_seconds * 1_000_000_000);
      },
      ground (arith, c, e, limit),
      refl,
    )

-- The gateway and the tokens after the configuration was given.
provisioned-keeps :
    (digest : List ℕ → List ℕ) (config : CenterConfig) (issued_at marked_at : ℕ)
    (instance_id bootstrap_token regist_token : Text) (g : StoredGateway) (s : CenterStoreSnapshot)
    → get instance_id s.gateways ≡ some g
    → g.lifecycle_state ≡ some GatewayInstanceLifecycleState.provisioned
    → g.bootstrap_token_hash ≡ sha256_hex digest bootstrap_token
    → is_empty g.bootstrap_token_hash ≡ false
    → ((after_provisioning digest config issued_at marked_at instance_id bootstrap_token
          regist_token s).enrollment_tokens
        ≡ (create_enrollment_token digest issued_at instance_id
            (issue_of config regist_token)
            s).0.enrollment_tokens)
      × (get instance_id
            (after_provisioning digest config issued_at marked_at instance_id bootstrap_token
              regist_token s).gateways
          ≡ some (initializing_of (record g { bootstrap_token_hash = text "" })))
provisioned-keeps digest config issued_at marked_at instance_id bootstrap_token regist_token g s e p
      b n =
    let issue = issue_of config regist_token in
    let created = create_enrollment_token digest issued_at instance_id issue s in
    let e1 : get instance_id created.0.gateways ≡ some g =
      rw (created-keeps digest issued_at instance_id issue s) e in
    let (spent, kept, still) =
      consume-keeps digest instance_id bootstrap_token g created.0 e1 p b n in
    let (kept', still') = mark-keeps marked_at instance_id _ _ still p in (kept' ∙ kept, still')

-- A gateway as it was created, whose installer gives its bootstrap token and a token of its identity,
-- is answered its configuration with a registration token. If the store is not changed in between,
-- that token is then, within thirty days and from a client that is not blocked, accepted for a
-- registration, and the credential answered is the gateway's. The store works, the center has a trust
-- root if it asks for TLS, the random source works, the digest and the MAC give 32 bytes, and no
-- token in the store has the new one's hash.
pub provisioned-registers :
    (digest : List ℕ → List ℕ) (hmac : List ℕ → List ℕ → List ℕ) (chrono : Chrono)
    (config : CenterConfig) (created_at checked_at issued_at marked_at : ℕ) (headers : Headers)
    (client_key instance_id bootstrap_token identity_token : Text) (m : Buckets)
    (s : CenterStoreSnapshot) (later_checked now : ℕ) (token_bytes id_bytes : List ℕ)
    (later_key new_instance : Text) (later : Buckets)
    → ((bytes : List ℕ) → length (digest bytes) ≡ 32)
    → ((key bytes : List ℕ) → length (hmac key bytes) ≡ 32)
    → get instance_id s.gateways ≡ some (new_gateway digest created_at instance_id bootstrap_token)
    → is_empty bootstrap_token ≡ false
    → bearer_token headers ≡ some bootstrap_token
    → trimmed headers.identity_token ≡ some identity_token
    → lacks_trust_root config instance_id ≡ false
    → Unused
        (sha256_hex digest (regist_token_of hmac config instance_id identity_token))
        s.enrollment_tokens
    → now ≤ issued_at + 30 * 86_400_000_000_000
    → (check_rate_limit later_checked (rate_limit_key later_key (text "gateway-register")) later).1
      ≡ none
    → (answer : InitialConfigReturned) × (regist_token : Text) × (bundle : GatewayCredentialBundle)
      × ((get_gateway_initial_config digest hmac chrono config
            (provisioning checked_at issued_at marked_at)
            headers
            client_key
            (some instance_id)
            (m, s)).1
          ≡ ok answer)
      × (answer.regist_token ≡ some regist_token)
      × ((register_gateway digest chrono config
            (registering later_checked now token_bytes id_bytes)
            later_key
            (record { enrollment_token = regist_token; instance_id = new_instance })
            (
              later,
              (get_gateway_initial_config digest hmac chrono config
                  (provisioning checked_at issued_at marked_at)
                  headers
                  client_key
                  (some instance_id)
                  (m, s)).0.1,
            )).1
          ≡ ok bundle)
      × (bundle.gateway_id ≡ instance_id)
unfolding new_gateway sha256_hex derive_regist_token is_empty
provisioned-registers digest hmac chrono config created_at checked_at issued_at marked_at headers
      client_key instance_id bootstrap_token identity_token m s later_checked now token_bytes
      id_bytes later_key new_instance later digest_length hmac_length e given sent identity trust
      unused in_time limit =
    let g = new_gateway digest created_at instance_id bootstrap_token in
    let regist_token = regist_token_of hmac config instance_id identity_token in
    let hashed = λ (t : Text). hex_lower-nonempty (digest t) (digest_length t) in
    let b : g.bootstrap_token_hash ≡ sha256_hex digest bootstrap_token = rw given refl in
    let n : is_empty g.bootstrap_token_hash ≡ false = rw given (hashed bootstrap_token) in
    let (answer, answered, with_token, left) =
      provisions digest hmac chrono config checked_at issued_at marked_at headers client_key
        instance_id bootstrap_token identity_token g m s e refl refl b n sent identity trust in
    let (kept, still) =
      provisioned-keeps digest config issued_at marked_at instance_id bootstrap_token regist_token g
        s e refl b n in
    let (used, of_gateway, consumed) =
      new_token-consumes digest issued_at now instance_id (issue_of config regist_token) s
        (hex_lower-nonempty (hmac config.hmac_secret _) (hmac_length config.hmac_secret _))
        (hashed regist_token) unused in_time in
    let (bundle, registered, names) =
      registers digest chrono config later_checked now token_bytes id_bytes later_key
        (record { enrollment_token = regist_token; instance_id = new_instance })
        (initializing_of (record g { bootstrap_token_hash = text "" })) used later
        (after_provisioning digest config issued_at marked_at instance_id bootstrap_token
          regist_token s)
        (rw kept consumed) (rw of_gateway still) limit in
    (answer, regist_token, bundle, answered, with_token, rw left registered, names ∙ of_gateway)
