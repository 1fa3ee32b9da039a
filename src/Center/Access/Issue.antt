-- ===== src/Center/Access/Issue.antt =====
-- A credential that was issued and stored is accepted.
use warp_insight.Prelude.{ℕ, ◌+◌, ◌*◌, ◌<◌, ◌≡◌, ◌∙◌, sym, subst, Option, none, some, List, arith}
use warp_insight.Prelude.Text.{Text}
use warp_insight.Prelude.Chrono.{Chrono, RoundTrips}
use warp_insight.Prelude.Results.{ok}
use warp_insight.Secret.{Headers, bearer_token, sha256_hex}
use warp_insight.Snapshots.{load}
use warp_insight.Gateway.RateLimit.{Buckets, rate_limit_key, check_rate_limit}
use warp_insight.Center.Config.{CenterConfig}
use warp_insight.Center.Store.{StoredGateway, CenterStoreSnapshot}
use warp_insight.Center.Access.{
  Moment, gateway_auth_scope, authenticate_gateway, GatewayCredentialBundle,
  issue_runtime_credential,
}
use warp_insight.Center.Access.Authentication.{
  Unexpired, authenticate_complete, authenticate_gateway_iff,
}
use warp_insight.Center.Gateways.Credential.{Holds}

-- A new credential is made of these parts.
pub record Issued (digest : List ℕ → List ℕ) (chrono : Chrono) (config : CenterConfig) (now : ℕ)
    (gateway_id instance_id : Text) (bundle : GatewayCredentialBundle) (hash expires_at : Text)
    : Type 0 where
  pub names_gateway : bundle.gateway_id ≡ gateway_id
  pub names_instance : bundle.instance_id ≡ instance_id
  pub hash_of_token : hash ≡ sha256_hex digest bundle.bearer_token
  pub expiry : expires_at ≡ chrono.to_rfc3339 (now + config.credential_ttl_seconds * 1_000_000_000)

pub issue-Issued :
    (digest : List ℕ → List ℕ) (chrono : Chrono) (config : CenterConfig) (now : ℕ)
    (token_bytes id_bytes : Option (List ℕ)) (gateway_id instance_id : Text)
    (bundle : GatewayCredentialBundle) (hash expires_at : Text)
    → issue_runtime_credential digest chrono config now token_bytes id_bytes gateway_id instance_id
      ≡ some (bundle, hash, expires_at)
    → Issued digest chrono config now gateway_id instance_id bundle hash expires_at
unfolding issue_runtime_credential
issue-Issued digest chrono config now token_bytes id_bytes gateway_id instance_id bundle hash
      expires_at h =
    record {
      names_gateway = ground arith;
      names_instance = ground arith;
      hash_of_token = ground arith;
      expiry = ground arith;
    }

-- A token of another hash is refused.
pub Holds-refuses :
    (digest : List ℕ → List ℕ) (chrono : Chrono) (at : Moment) (headers : Headers)
    (gateway_id client_key : Text) (m : Buckets) (s : CenterStoreSnapshot)
    (hash expires_at other : Text) (passed : StoredGateway)
    → Holds hash expires_at gateway_id s
    → load at.loading s ≡ ok s
    → bearer_token headers ≡ some other
    → (authenticate_gateway digest chrono at headers gateway_id client_key (m, s)).1 ≡ ok passed
    → sha256_hex digest other ≡ hash
Holds-refuses digest chrono at headers gateway_id client_key m s hash expires_at other passed held d
      sent h =
    let a =
      (authenticate_gateway_iff digest chrono at headers gateway_id client_key m s passed d).0 h in
    let same_token : a.token ≡ other = ground (arith, a.sent, sent) in
    let same_gateway : passed ≡ held.gateway = ground (arith, a.known, held.present) in
    let found : held.gateway.credential_token_hash ≡ sha256_hex digest other =
      subst (λ t. held.gateway.credential_token_hash ≡ sha256_hex digest t) same_token
        (subst (λ g. g.credential_token_hash ≡ sha256_hex digest a.token) same_gateway
          a.hash_matches) in
    sym found ∙ held.hash_stored

-- A request with the bearer token passes until the credential expires.
pub Holds-passes :
    (digest : List ℕ → List ℕ) (chrono : Chrono) (expires_at : ℕ) (at : Moment) (headers : Headers)
    (gateway_id client_key token : Text) (m : Buckets) (s : CenterStoreSnapshot)
    → RoundTrips chrono
    → (held : Holds (sha256_hex digest token) (chrono.to_rfc3339 expires_at) gateway_id s)
    → load at.loading s ≡ ok s
    → (check_rate_limit at.checked_at (rate_limit_key client_key gateway_auth_scope) m).1 ≡ none
    → bearer_token headers ≡ some token
    → at.now < expires_at
    → (authenticate_gateway digest chrono at headers gateway_id client_key (m, s)).1
      ≡ ok held.gateway
Holds-passes digest chrono expires_at at headers gateway_id client_key token m s round held d limit
      sent later =
    authenticate_complete digest chrono at headers gateway_id client_key m s held.gateway d
      (record {
        token = token;
        not_limited = limit;
        sent = sent;
        known = held.present;
        hash_matches = held.hash_stored;
        active = held.active;
        unexpired =
            subst (Unexpired chrono at.now) (sym held.expiry_stored) (
              Unexpired.not_yet (chrono.to_rfc3339 expires_at) expires_at (round expires_at) later);
      })
