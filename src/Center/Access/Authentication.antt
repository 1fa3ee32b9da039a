-- ===== src/Center/Access/Authentication.antt =====
-- Who passes `authenticate_gateway`.
use warp_insight.Prelude.{ℕ, ◌<◌, ◌≡◌, refl, ◌↔◌, true, false, Option, none, some, List, arith}
use warp_insight.Prelude.Text.{Text}
use warp_insight.Prelude.Assoc.{get}
use warp_insight.Prelude.Chrono.{Chrono}
use warp_insight.Prelude.Results.{ok}
use warp_insight.Secret.{Headers, bearer_token, sha256_hex, constant_time_eq, constant_time_eq_iff}
use warp_insight.Snapshots.{load}
use warp_insight.Gateway.RateLimit.{Buckets, rate_limit_key, check_rate_limit}
use warp_insight.Center.Store.{StoredGateway, StoredGatewayCredentialStatus, CenterStoreSnapshot}
use warp_insight.Center.Access.{
  Moment, gateway_auth_scope, get_gateway, authenticate_gateway, check_credential,
  credential_is_expired, is_active, has_expired,
}

-- Without an expiry, or with one that is a time not reached.
pub data Unexpired (chrono : Chrono) (now : ℕ) : Option Text → Type 0 where
  never : Unexpired chrono now none
  not_yet :
      (expires_at : Text) (t : ℕ)
      → chrono.parse_from_rfc3339 expires_at ≡ some t
      → now < t
      → Unexpired chrono now (some expires_at)

-- What is asked of a request for the gateway.
pub record Authentic (digest : List ℕ → List ℕ) (chrono : Chrono) (at : Moment) (headers : Headers)
    (gateway_id client_key : Text) (m : Buckets) (s : CenterStoreSnapshot) (gateway : StoredGateway)
    : Type 0 where
  pub token : Text
  pub not_limited :
      (check_rate_limit at.checked_at (rate_limit_key client_key gateway_auth_scope) m).1 ≡ none
  pub sent : bearer_token headers ≡ some token
  pub known : get gateway_id s.gateways ≡ some gateway
  pub hash_matches : gateway.credential_token_hash ≡ sha256_hex digest token
  pub active : gateway.credential_status ≡ StoredGatewayCredentialStatus.active
  pub unexpired : Unexpired chrono at.now gateway.credential_expires_at

is_active-eq :
    (status : StoredGatewayCredentialStatus)
    → is_active status ≡ true
    → status ≡ StoredGatewayCredentialStatus.active
is_active-eq StoredGatewayCredentialStatus.active h = refl
is_active-eq StoredGatewayCredentialStatus.expired h = cc
is_active-eq StoredGatewayCredentialStatus.revoked h = cc

parsed :
    (chrono : Chrono) (now : ℕ) (expires_at : Text)
    → credential_is_expired chrono now expires_at ≡ false
    → (t : ℕ) × (chrono.parse_from_rfc3339 expires_at ≡ some t) × (now < t)
unfolding credential_is_expired
parsed chrono now expires_at h = ground arith

has_expired_sound :
    (chrono : Chrono) (now : ℕ) (expires_at : Option Text)
    → has_expired chrono now expires_at ≡ false
    → Unexpired chrono now expires_at
has_expired_sound chrono now none h = Unexpired.never
has_expired_sound chrono now (some expires_at) h =
    let (t, e, later) = parsed chrono now expires_at h in Unexpired.not_yet expires_at t e later

has_expired_complete :
    (chrono : Chrono) (now : ℕ) (expires_at : Option Text)
    → Unexpired chrono now expires_at
    → has_expired chrono now expires_at ≡ false
unfolding credential_is_expired
has_expired_complete chrono now none Unexpired.never = refl
has_expired_complete chrono now (some expires_at) (Unexpired.not_yet _ t e later) = ground arith

authenticate-inv :
    (digest : List ℕ → List ℕ) (chrono : Chrono) (at : Moment) (headers : Headers)
    (gateway_id client_key : Text) (m : Buckets) (s : CenterStoreSnapshot) (gateway : StoredGateway)
    → load at.loading s ≡ ok s
    → (authenticate_gateway digest chrono at headers gateway_id client_key (m, s)).1 ≡ ok gateway
    → (token : Text) × ((check_rate_limit at.checked_at
          (rate_limit_key client_key gateway_auth_scope)
          m).1
        ≡ none)
      × (bearer_token headers ≡ some token)
      × (get gateway_id s.gateways ≡ some gateway)
      × (constant_time_eq gateway.credential_token_hash (sha256_hex digest token) ≡ true)
      × (is_active gateway.credential_status ≡ true)
      × (has_expired chrono at.now gateway.credential_expires_at ≡ false)
unfolding authenticate_gateway get_gateway check_credential
authenticate-inv digest chrono at headers gateway_id client_key m s gateway d h = ground arith

pub authenticate_complete :
    (digest : List ℕ → List ℕ) (chrono : Chrono) (at : Moment) (headers : Headers)
    (gateway_id client_key : Text) (m : Buckets) (s : CenterStoreSnapshot) (gateway : StoredGateway)
    → load at.loading s ≡ ok s
    → Authentic digest chrono at headers gateway_id client_key m s gateway
    → (authenticate_gateway digest chrono at headers gateway_id client_key (m, s)).1 ≡ ok gateway
unfolding authenticate_gateway get_gateway check_credential
authenticate_complete digest chrono at headers gateway_id client_key m s gateway d a =
    let same_hash =
      (constant_time_eq_iff gateway.credential_token_hash (sha256_hex digest a.token)).1
        a.hash_matches in
    let active : is_active gateway.credential_status ≡ true = rw a.active refl in
    let unexpired = has_expired_complete chrono at.now gateway.credential_expires_at a.unexpired in
    ground (arith, d, a.not_limited, a.sent, a.known, same_hash, active, unexpired)

-- When the store can be read, a request passes as a gateway exactly if its client is not blocked, it
-- carries a bearer token, the gateway it names is known, the gateway's record holds the hash of the
-- token and is active, and its expiry, if it has one, is a time that is not reached.
pub authenticate_gateway_iff :
    (digest : List ℕ → List ℕ) (chrono : Chrono) (at : Moment) (headers : Headers)
    (gateway_id client_key : Text) (m : Buckets) (s : CenterStoreSnapshot) (gateway : StoredGateway)
    → load at.loading s ≡ ok s
    → ((authenticate_gateway digest chrono at headers gateway_id client_key (m, s)).1 ≡ ok gateway)
      ↔ Authentic digest chrono at headers gateway_id client_key m s gateway
authenticate_gateway_iff digest chrono at headers gateway_id client_key m s gateway d =
    (sound, authenticate_complete digest chrono at headers gateway_id client_key m s gateway d)
  where
    sound :
        (authenticate_gateway digest chrono at headers gateway_id client_key (m, s)).1 ≡ ok gateway
        → Authentic digest chrono at headers gateway_id client_key m s gateway
    sound h =
        let (token, limit, sent, known, c, a, e) =
          authenticate-inv digest chrono at headers gateway_id client_key m s gateway d h in
        record {
          token = token;
          not_limited = limit;
          sent = sent;
          known = known;
          hash_matches =
              (constant_time_eq_iff gateway.credential_token_hash (sha256_hex digest token)).0 c;
          active = is_active-eq gateway.credential_status a;
          unexpired = has_expired_sound chrono at.now gateway.credential_expires_at e;
        }
