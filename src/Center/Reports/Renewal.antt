-- ===== src/Center/Reports/Renewal.antt =====
-- What a renewed credential replaces.
use warp_insight.Prelude.{
  ℕ, ◌+◌, ◌*◌, ◌≡◌, ◌≢◌, true, Option, some, List, arith, Option-cases, inl, inr,
}
use warp_insight.Prelude.Text.{Text}
use warp_insight.Prelude.Chrono.{Chrono}
use warp_insight.Prelude.Results.{ok}
use warp_insight.Secret.{Headers, bearer_token, sha256_hex}
use warp_insight.Snapshots.{Disk, load, update}
use warp_insight.Gateway.RateLimit.{Buckets}
use warp_insight.Center.Config.{CenterConfig}
use warp_insight.Center.Store.{StoredGateway, CenterStoreSnapshot}
use warp_insight.Center.Gateways.{update_gateway_credential}
use warp_insight.Center.Gateways.Credential.{Holds, stores-Holds}
use warp_insight.Center.Access.{
  Moment, authenticate_gateway, GatewayCredentialBundle, issue_runtime_credential,
}
use warp_insight.Center.Access.Issue.{issue-Issued, Holds-refuses}
use warp_insight.Center.Reports.{renew_gateway_credential}

-- What a renewal that is accepted went through.
record Renewed (digest : List ℕ → List ℕ) (chrono : Chrono) (config : CenterConfig) (issued_at : ℕ)
    (writing : Disk) (token_bytes id_bytes : Option (List ℕ)) (gateway_id instance_id : Text)
    (s s' : CenterStoreSnapshot) (bundle : GatewayCredentialBundle) : Type 0 where
  hash : Text
  expires_at : Text
  issued :
      issue_runtime_credential digest chrono config issued_at token_bytes id_bytes gateway_id
        instance_id
      ≡ some (bundle, hash, expires_at)
  updated :
      (update writing (update_gateway_credential gateway_id hash (some expires_at)) s).1 ≡ ok true
  left : s' ≡ (update writing (update_gateway_credential gateway_id hash (some expires_at)) s).0

renew-Renewed :
    (digest : List ℕ → List ℕ) (chrono : Chrono) (config : CenterConfig) (at : Moment)
    (issued_at : ℕ) (writing : Disk) (token_bytes id_bytes : Option (List ℕ)) (headers : Headers)
    (client_key gateway_id instance_id : Text) (m : Buckets) (s : CenterStoreSnapshot)
    (bundle : GatewayCredentialBundle)
    → (renew_gateway_credential digest chrono config at issued_at writing token_bytes id_bytes
        headers client_key gateway_id instance_id
        (m, s)).1
      ≡ ok bundle
    → Renewed digest chrono config issued_at writing token_bytes id_bytes gateway_id instance_id s
        (renew_gateway_credential digest chrono config at issued_at writing token_bytes id_bytes
          headers client_key gateway_id instance_id
          (m, s)).0.1
        bundle
unfolding renew_gateway_credential
renew-Renewed digest chrono config at issued_at writing token_bytes id_bytes headers client_key
      gateway_id instance_id m s bundle h =
    elim (Option-cases (
      issue_runtime_credential digest chrono config issued_at token_bytes id_bytes gateway_id
        instance_id)) [
          | inl e ↦ absurd (ground arith)
          | inr ((b, hash, expires_at), e) ↦ record {
            hash = hash;
            expires_at = expires_at;
            issued = ground arith;
            updated = ground arith;
            left = ground arith;
          }
        ]

renew-Holds :
    (digest : List ℕ → List ℕ) (chrono : Chrono) (config : CenterConfig) (at : Moment)
    (issued_at : ℕ) (writing : Disk) (token_bytes id_bytes : Option (List ℕ)) (headers : Headers)
    (client_key gateway_id instance_id : Text) (m : Buckets) (s : CenterStoreSnapshot)
    (bundle : GatewayCredentialBundle)
    → (renew_gateway_credential digest chrono config at issued_at writing token_bytes id_bytes
        headers client_key gateway_id instance_id
        (m, s)).1
      ≡ ok bundle
    → Holds
        (sha256_hex digest bundle.bearer_token)
        (chrono.to_rfc3339 (issued_at + config.credential_ttl_seconds * 1_000_000_000))
        gateway_id
        (renew_gateway_credential digest chrono config at issued_at writing token_bytes id_bytes
          headers client_key gateway_id instance_id
          (m, s)).0.1
renew-Holds digest chrono config at issued_at writing token_bytes id_bytes headers client_key
      gateway_id instance_id m s bundle h =
    let p =
      renew-Renewed digest chrono config at issued_at writing token_bytes id_bytes headers
        client_key gateway_id instance_id m s bundle h in
    let issued =
      issue-Issued digest chrono config issued_at token_bytes id_bytes gateway_id instance_id bundle
        p.hash p.expires_at p.issued in
    rw (p.left, ← issued.hash_of_token, ← issued.expiry)
      (stores-Holds p.hash p.expires_at gateway_id writing s p.updated)

-- Once a gateway's credential is renewed, and as long as the store is not changed again, no request
-- for the gateway passes that carries a bearer token whose hash is not that of the new one. The store
-- can be read.
pub renew_gateway_credential-revokes :
    (digest : List ℕ → List ℕ) (chrono : Chrono) (config : CenterConfig) (at : Moment)
    (issued_at : ℕ) (writing : Disk) (token_bytes id_bytes : Option (List ℕ)) (headers : Headers)
    (client_key gateway_id instance_id : Text) (m : Buckets) (s : CenterStoreSnapshot)
    (bundle : GatewayCredentialBundle) (later_at : Moment) (later_headers : Headers)
    (later_key other : Text) (later : Buckets) (passed : StoredGateway)
    → (renew_gateway_credential digest chrono config at issued_at writing token_bytes id_bytes
        headers client_key gateway_id instance_id
        (m, s)).1
      ≡ ok bundle
    → load later_at.loading
        (renew_gateway_credential digest chrono config at issued_at writing token_bytes id_bytes
          headers client_key gateway_id instance_id
          (m, s)).0.1
      ≡ ok
          (renew_gateway_credential digest chrono config at issued_at writing token_bytes id_bytes
            headers client_key gateway_id instance_id
            (m, s)).0.1
    → bearer_token later_headers ≡ some other
    → sha256_hex digest other ≢ sha256_hex digest bundle.bearer_token
    → (authenticate_gateway digest chrono later_at later_headers gateway_id later_key (
      later,
      (renew_gateway_credential digest chrono config at issued_at writing token_bytes id_bytes
          headers client_key gateway_id instance_id
          (m, s)).0.1,
    )).1
      ≢ ok passed
renew_gateway_credential-revokes digest chrono config at issued_at writing token_bytes id_bytes
      headers client_key gateway_id instance_id m s bundle later_at later_headers later_key other
      later passed h d sent differs p =
    differs (
      Holds-refuses digest chrono later_at later_headers gateway_id later_key later _ _ _ other
        passed
        (renew-Holds digest chrono config at issued_at writing token_bytes id_bytes headers
          client_key gateway_id instance_id m s bundle h)
        d sent p)
