-- ===== src/Center/Provisioning.antt =====
-- crates/wist-center/src/api/gateway_ops.rs, `get_gateway_initial_config`: a gateway's first
-- configuration, given once for its bootstrap token and later for its credential.
pub mod Steps
pub mod Onboarding
pub mod FailClosed
use warp_insight.Prelude.{
  ℕ, Bool, true, false, not, ◌&&◌, Option, none, some, List, [], ◌∷◌, ◌++◌, ltb, if◌then◌else◌,
}
use warp_insight.Prelude.Text.{Text, text, text_eq, is_empty}
use warp_insight.Prelude.Assoc.{Assoc}
use warp_insight.Prelude.Chrono.{Chrono}
use warp_insight.Prelude.Results.{Result, ok, err}
use warp_insight.Secret.{Headers, bearer_token, sha256_hex, hex_lower, trimmed}
use warp_insight.Snapshots.{Disk, load, update}
use warp_insight.Gateway.RateLimit.{
  Buckets, rate_limit_key, record_auth_failure, clear_auth_failures,
}
use warp_insight.Center.Config.{
  CenterConfig, ControlCenterTrustBundle, control_center_tls_required, without_end_slashes,
  build_control_center_trust_bundle,
}
use warp_insight.Center.Store.{StoredGateway, StoredEnrollmentToken, CenterStoreSnapshot}
use warp_insight.Center.Tokens.{create_enrollment_token}
use warp_insight.Center.Gateways.{consume_bootstrap_token, mark_gateway_initializing}
use warp_insight.Center.Access.{
  Refusal, refused, unauthorized, internal, Moment, get_gateway, gateway_auth_scope,
  authenticate_gateway,
}

-- `derive_regist_token` of secret.rs, with `ring`'s HMAC of a key and a message.
unfoldable pub derive_regist_token :
    (List ℕ → List ℕ → List ℕ) → (secret gateway_id identity_token : Text) → Text
unfolding hex_lower
derive_regist_token hmac secret gateway_id identity_token =
    hex_lower (hmac secret (text "gateway-reg:" ++ (gateway_id ++ (text ":" ++ identity_token))))

-- The latest of the tokens, and of equally late ones the last.
abbrev later_token :
    StoredEnrollmentToken → Option StoredEnrollmentToken → Option StoredEnrollmentToken
later_token token none = some token
later_token token (some other) =
    if ltb other.issued_at token.issued_at then some token else some other

-- `filter(…).max_by(…)`.
unfoldable pub latest_token : Text → Assoc StoredEnrollmentToken → Option StoredEnrollmentToken
latest_token gateway_id [] = none
latest_token gateway_id ((id, token) ∷ tokens) =
    let rest = latest_token gateway_id tokens in
    if text_eq token.gateway_id gateway_id then later_token token rest else rest

-- The identifier, or nothing where the store cannot be read.
abbrev id_or_empty : Option StoredEnrollmentToken → Text
id_or_empty none = text ""
id_or_empty (some token) = token.token_id

abbrev id_in : Text → Result Text CenterStoreSnapshot → Text
id_in gateway_id (err e) = text ""
id_in gateway_id (ok s) = id_or_empty (latest_token gateway_id s.enrollment_tokens)

-- `get_enrollment_token_for_gateway`, as its callers read it.
unfoldable pub enrollment_token_id : Disk → Text → CenterStoreSnapshot → Text
unfolding load latest_token
enrollment_token_id disk gateway_id s = id_in gateway_id (load disk s)

pub record GatewayInitialConfig : Type 0 where
  pub gateway_id : Text
  pub control_center_endpoint : Text
  pub trust_bundle : Option ControlCenterTrustBundle
  pub server_tls_required : Bool
  pub protocol_version : Text
  pub enrollment_token_id : Text

unfoldable pub build_initial_config_json :
    CenterConfig → StoredGateway → (instance_id enrollment_token_id : Text) → GatewayInitialConfig
unfolding without_end_slashes build_control_center_trust_bundle control_center_tls_required
build_initial_config_json config gateway instance_id enrollment_token_id = record {
  gateway_id = gateway.gateway_id;
  control_center_endpoint = without_end_slashes config.public_url;
  trust_bundle = build_control_center_trust_bundle config instance_id;
  server_tls_required = control_center_tls_required config;
  protocol_version = config.protocol_version;
  enrollment_token_id = enrollment_token_id;
}

pub record InitialConfigReturned : Type 0 where
  pub config : GatewayInitialConfig
  pub regist_token : Option Text

-- The accesses of the store in their order, after those of the admission.
pub record Surroundings : Type 0 where
  pub at : Moment
  pub issued_at : ℕ
  pub marked_at : ℕ
  pub authenticating : Disk
  pub issuing : Disk
  pub consuming : Disk
  pub marking : Disk
  pub recording : Disk

-- From the token of the identity on: the registration token is stored before the bootstrap token is
-- spent. The failure of marking the gateway is only logged.
unfoldable pub issue_regist_token :
    (List ℕ → List ℕ)
    → (hmac : List ℕ → List ℕ → List ℕ) → CenterConfig
    → Surroundings
    → (key instance_id bootstrap_token identity_token : Text) → StoredGateway
    → Buckets × CenterStoreSnapshot
    → (Buckets × CenterStoreSnapshot) × Result Refusal InitialConfigReturned
unfolding derive_regist_token update create_enrollment_token consume_bootstrap_token
    mark_gateway_initializing clear_auth_failures build_initial_config_json
issue_regist_token digest hmac config around key instance_id bootstrap_token identity_token gateway
      (m, s) =
    let regist_token = derive_regist_token hmac config.hmac_secret instance_id identity_token in
    let (s1, enrollment) =
      update around.issuing
        (create_enrollment_token digest around.issued_at instance_id (record {
          token = regist_token;
          issued_by = text "provision";
          control_center_trust_bundle = config.ca_cert;
        }))
        s in
    elim enrollment [
      | err e ↦ ((m, s1), err (internal (text "failed to issue regist token: " ++ e)))
      | ok token ↦
          let (s2, consumed) =
            update around.consuming (consume_bootstrap_token digest instance_id bootstrap_token)
              s1 in
          elim consumed [
            | err e ↦ ((m, s2), err (internal (text "failed to consume bootstrap token: " ++ e)))
            | ok false ↦ (
              (m, s2),
              err (refused 409 (text "bootstrap token already consumed or gateway initialized")),
            )
            | ok true ↦
                let (s3, marked) =
                  mark_gateway_initializing around.marked_at around.marking around.recording
                    instance_id s2 in
                (
                  (clear_auth_failures key m, s3),
                  ok (record {
                    config = build_initial_config_json config gateway instance_id token.token_id;
                    regist_token = some regist_token;
                  }),
                )
          ]
    ]

unfoldable pub provision_gateway_initial_config :
    (List ℕ → List ℕ)
    → (hmac : List ℕ → List ℕ → List ℕ) → CenterConfig
    → Surroundings
    → Headers
    → (key instance_id : Text) → StoredGateway
    → Buckets × CenterStoreSnapshot
    → (Buckets × CenterStoreSnapshot) × Result Refusal InitialConfigReturned
unfolding bearer_token sha256_hex record_auth_failure issue_regist_token
provision_gateway_initial_config digest hmac config around headers key instance_id gateway (m, s) =
    elim (bearer_token headers) [
      | none ↦ ((m, s), err (unauthorized (text "missing bearer credential")))
      | some bootstrap_token ↦
          if not (text_eq (sha256_hex digest bootstrap_token) gateway.bootstrap_token_hash)
          then (
            (record_auth_failure around.at.recorded_at key m, s),
            err (unauthorized (text "invalid bootstrap token")),
          )
          else elim (trimmed headers.identity_token) [
            | none ↦ ((m, s), err (refused 400 (text "missing X-Gateway-Identity-Token")))
            | some identity_token ↦
                issue_regist_token digest hmac config around key instance_id bootstrap_token
                  identity_token gateway (m, s)
          ]
    ]

abbrev pub is_none : {A : Type 0} → Option A → Bool
is_none none = true
is_none (some a) = false

-- TLS is asked of the gateway, and it gets nothing to check the certificate with.
unfoldable pub lacks_trust_root : CenterConfig → Text → Bool
unfolding control_center_tls_required build_control_center_trust_bundle
lacks_trust_root config instance_id =
    control_center_tls_required config
    && is_none (build_control_center_trust_bundle config instance_id)

-- A gateway that already has its credential.
unfoldable pub initial_config_again :
    (List ℕ → List ℕ)
    → Chrono
    → CenterConfig
    → Surroundings
    → Headers
    → (client_key instance_id : Text) → Buckets × CenterStoreSnapshot
    → (Buckets × CenterStoreSnapshot) × Result Refusal InitialConfigReturned
unfolding authenticate_gateway enrollment_token_id build_initial_config_json
initial_config_again digest chrono config around headers client_key instance_id (m, s) =
    let (m', passed) =
      authenticate_gateway digest chrono (record around.at { loading = around.authenticating })
        headers instance_id client_key (m, s) in
    elim passed [
      | err refusal ↦ ((m', s), err refusal)
      | ok gateway ↦ (
        (m', s),
        ok (record {
          config =
              build_initial_config_json config gateway instance_id
                (enrollment_token_id around.issuing instance_id s);
          regist_token = none;
        }),
      )
    ]

unfoldable pub get_gateway_initial_config :
    (List ℕ → List ℕ)
    → (hmac : List ℕ → List ℕ → List ℕ) → Chrono
    → CenterConfig
    → Surroundings
    → Headers
    → (client_key : Text) → Option Text
    → Buckets × CenterStoreSnapshot
    → (Buckets × CenterStoreSnapshot) × Result Refusal InitialConfigReturned
unfolding lacks_trust_root get_gateway rate_limit_key record_auth_failure is_empty
    provision_gateway_initial_config initial_config_again
get_gateway_initial_config digest hmac chrono config around headers client_key instance_id (m, s) =
    elim instance_id [
      | none ↦ ((m, s), err (refused 400 (text "missing instance_id")))
      | some instance_id ↦
          let key = rate_limit_key client_key gateway_auth_scope in
          if lacks_trust_root config instance_id
          then (
            (m, s),
            err (
                refused 503
                  (text "TLS is required but the control center trust root is not configured")),
          )
          else elim (get_gateway around.at.loading instance_id s) [
            | err e ↦ ((m, s), err (internal (text "failed to load gateway store: " ++ e)))
            | ok none ↦ (
              (record_auth_failure around.at.recorded_at key m, s),
              err (unauthorized (text "unknown gateway")),
            )
            | ok (some gateway) ↦
                if is_empty gateway.credential_token_hash
                  && not (is_empty gateway.bootstrap_token_hash)
                then provision_gateway_initial_config digest hmac config around headers key
                    instance_id gateway (m, s)
                else initial_config_again digest chrono config around headers client_key instance_id
                    (m, s)
          ]
    ]
