-- ===== src/Center/Access.antt =====
-- crates/wist-center/src/api: who may call. api/rate_limit.rs is the gateway's, copied.
-- A handler's state is the buckets of the rate limit and the store.
pub mod Authentication
pub mod Issue
use warp_insight.Prelude.{
  ℕ, ◌+◌, ◌*◌, Bool, true, false, not, Option, none, some, List, ◌++◌, leb, if◌then◌else◌,
}
use warp_insight.Prelude.Text.{Text, text}
use warp_insight.Prelude.Assoc.{get}
use warp_insight.Prelude.Chrono.{Chrono}
use warp_insight.Prelude.Results.{Result, ok, err}
use warp_insight.Secret.{Headers, bearer_token, sha256_hex, constant_time_eq, new_secret_token}
use warp_insight.Snapshots.{Disk, load}
use warp_insight.Gateway.RateLimit.{
  Buckets, rate_limit_key, check_rate_limit, record_auth_failure, clear_auth_failures,
}
use warp_insight.Center.Config.{CenterConfig}
use warp_insight.Center.Store.{StoredGateway, StoredGatewayCredentialStatus, CenterStoreSnapshot}

-- A refusal: 429 with the seconds to wait, or a status code with a text.
pub data Refusal : Type 0 where
  too_many_requests : ℕ → Refusal
  refused : ℕ → Text → Refusal

abbrev pub unauthorized : Text → Refusal
unauthorized reason = refused 401 reason

abbrev pub internal : Text → Refusal
internal reason = refused 500 reason

-- The readings of the monotonic clock by the rate limit, that of the wall clock, and the reading of
-- the store's file.
pub record Moment : Type 0 where
  pub checked_at : ℕ
  pub recorded_at : ℕ
  pub now : ℕ
  pub loading : Disk

abbrev found_in :
    {A E : Type 0} → (CenterStoreSnapshot → A) → Result E CenterStoreSnapshot → Result E A
found_in look (ok s) = ok (look s)
found_in look (err e) = err e

unfoldable pub get_gateway : Disk → Text → CenterStoreSnapshot → Result Text (Option StoredGateway)
unfolding load
get_gateway disk gateway_id s = found_in (λ s. get gateway_id s.gateways) (load disk s)

abbrev pub gateway_auth_scope : Text
gateway_auth_scope = text "gateway"

abbrev pub is_active : StoredGatewayCredentialStatus → Bool
is_active StoredGatewayCredentialStatus.active = true
is_active StoredGatewayCredentialStatus.expired = false
is_active StoredGatewayCredentialStatus.revoked = false

abbrev past : ℕ → Option ℕ → Bool
past now none = true
past now (some expires_at) = leb expires_at now

unfoldable pub credential_is_expired : Chrono → ℕ → Text → Bool
credential_is_expired chrono now expires_at = past now (chrono.parse_from_rfc3339 expires_at)

-- A credential without an expiry does not expire.
abbrev pub has_expired : Chrono → ℕ → Option Text → Bool
has_expired chrono now none = false
has_expired chrono now (some expires_at) = credential_is_expired chrono now expires_at

-- The tests of the credential that was found.
unfoldable pub check_credential :
    (List ℕ → List ℕ)
    → Chrono
    → Moment
    → (key token : Text) → StoredGateway
    → Buckets
    → Buckets × Result Refusal StoredGateway
unfolding constant_time_eq sha256_hex record_auth_failure clear_auth_failures credential_is_expired
check_credential digest chrono at key token gateway m =
    if not (constant_time_eq gateway.credential_token_hash (sha256_hex digest token))
    then (
      record_auth_failure at.recorded_at key m,
      err (unauthorized (text "invalid gateway credential")),
    )
    else if not (is_active gateway.credential_status)
    then (m, err (unauthorized (text "gateway credential is not active")))
    else if has_expired chrono at.now gateway.credential_expires_at
    then (m, err (unauthorized (text "gateway credential is expired")))
    else (clear_auth_failures key m, ok gateway)

unfoldable pub authenticate_gateway :
    (List ℕ → List ℕ)
    → Chrono
    → Moment
    → Headers
    → (gateway_id client_key : Text) → Buckets × CenterStoreSnapshot
    → Buckets × Result Refusal StoredGateway
unfolding rate_limit_key check_rate_limit bearer_token get_gateway record_auth_failure
    check_credential
authenticate_gateway digest chrono at headers gateway_id client_key (m, s) =
    let key = rate_limit_key client_key gateway_auth_scope in
    let (m', limited) = check_rate_limit at.checked_at key m in
    elim limited [
      | some retry_after ↦ (m', err (too_many_requests retry_after))
      | none ↦ elim (bearer_token headers) [
        | none ↦ (m', err (unauthorized (text "missing bearer credential")))
        | some token ↦ elim (get_gateway at.loading gateway_id s) [
          | err e ↦ (m', err (internal (text "failed to load gateway credential store: " ++ e)))
          | ok none ↦ (
            record_auth_failure at.recorded_at key m',
            err (unauthorized (text "unknown gateway credential")),
          )
          | ok (some gateway) ↦ check_credential digest chrono at key token gateway m'
        ]
      ]
    ]

-- Without a configured token every request passes, and the failures are left as they are.
unfoldable pub require_admin_bearer :
    (List ℕ → List ℕ)
    → CenterConfig
    → Moment
    → Headers
    → (client_key : Text) → Buckets
    → Buckets × Result Refusal (Unit {0})
unfolding rate_limit_key check_rate_limit bearer_token sha256_hex constant_time_eq
    record_auth_failure clear_auth_failures
require_admin_bearer digest config at headers client_key m =
    let key = rate_limit_key client_key (text "admin") in
    let (m', limited) = check_rate_limit at.checked_at key m in
    elim limited [
      | some retry_after ↦ (m', err (too_many_requests retry_after))
      | none ↦ elim config.admin_token_hash [
        | none ↦ (m', ok tt)
        | some expected_hash ↦ elim (bearer_token headers) [
          | none ↦ (m', err (unauthorized (text "missing admin bearer token")))
          | some token ↦
              if constant_time_eq (sha256_hex digest token) expected_hash
              then (clear_auth_failures key m', ok tt)
              else (
                record_auth_failure at.recorded_at key m',
                err (unauthorized (text "invalid admin bearer token")),
              )
        ]
      ]
    ]

-- `GatewayCredentialBundle`, with its two dates as the texts that they are parsed from.
pub record GatewayCredentialBundle : Type 0 where
  pub credential_id : Text
  pub gateway_id : Text
  pub instance_id : Text
  pub bearer_token : Text
  pub issued_at : Text
  pub expires_at : Text

-- The bundle, the hash of its token and its expiry, unless the random source fails.
unfoldable pub issue_runtime_credential :
    (List ℕ → List ℕ)
    → Chrono
    → CenterConfig
    → (now : ℕ) → (token_bytes id_bytes : Option (List ℕ)) → (gateway_id instance_id : Text)
    → Option (GatewayCredentialBundle × Text × Text)
unfolding new_secret_token sha256_hex
issue_runtime_credential digest chrono config now token_bytes id_bytes gateway_id instance_id =
    elim (new_secret_token (text "wic") token_bytes) [
      | none ↦ none
      | some bearer_token ↦ elim (new_secret_token (text "cred") id_bytes) [
        | none ↦ none
        | some credential_id ↦
            let expires_at =
              chrono.to_rfc3339 (now + config.credential_ttl_seconds * 1_000_000_000) in
            let bundle : GatewayCredentialBundle = record {
              credential_id = credential_id;
              gateway_id = gateway_id;
              instance_id = instance_id;
              bearer_token = bearer_token;
              issued_at = chrono.to_rfc3339 now;
              expires_at = expires_at;
            } in
            some (bundle, sha256_hex digest bearer_token, expires_at)
      ]
    ]
