-- ===== src/Center/Registration/Accepted.antt =====
-- What an accepted registration leaves in the store.
use warp_insight.Prelude.{
  ℕ, ◌+◌, ◌*◌, ◌<◌, ◌≡◌, ap, sym, ◌∙◌, true, none, some, List, arith, Option-cases, inl, inr,
}
use warp_insight.Prelude.Text.{Text, text}
use warp_insight.Prelude.Chrono.{Chrono, RoundTrips}
use warp_insight.Prelude.Results.{Result-cases, ok}
use warp_insight.Secret.{Headers, bearer_token, sha256_hex}
use warp_insight.Snapshots.{load, update}
use warp_insight.Gateway.RateLimit.{Buckets, rate_limit_key, check_rate_limit}
use warp_insight.Center.Config.{CenterConfig}
use warp_insight.Center.Store.{StoredGateway, StoredEnrollmentToken, CenterStoreSnapshot}
use warp_insight.Center.Tokens.{consume_enrollment_token}
use warp_insight.Center.Gateways.{mark_gateway_initializing, update_gateway_credential}
use warp_insight.Center.Access.{
  Moment, gateway_auth_scope, authenticate_gateway, GatewayCredentialBundle,
  issue_runtime_credential,
}
use warp_insight.Center.Registration.{
  RegisterGateway, Surroundings, complete_registration, register_gateway,
}
use warp_insight.Center.Gateways.Credential.{Holds, mark-Holds, stores-Holds}
use warp_insight.Center.Access.Issue.{issue-Issued, Holds-passes}

-- What an accepted registration went through, for the token that was consumed.
record Passed (digest : List ℕ → List ℕ) (chrono : Chrono) (config : CenterConfig)
    (around : Surroundings) (instance_id gateway_id : Text) (s : CenterStoreSnapshot)
    (s' : CenterStoreSnapshot) (bundle : GatewayCredentialBundle) : Type 0 where
  hash : Text
  expires_at : Text
  issued :
      issue_runtime_credential digest chrono config around.issued_at around.token_bytes
        around.id_bytes gateway_id instance_id
      ≡ some (bundle, hash, expires_at)
  updated :
      (update around.storing (update_gateway_credential gateway_id hash (some expires_at)) s).1
      ≡ ok true
  left :
      s'
      ≡ (mark_gateway_initializing around.marked_at around.marking around.recording gateway_id
          (update around.storing
            (update_gateway_credential gateway_id hash (some expires_at))
            s).0).0

complete-Passed :
    (digest : List ℕ → List ℕ) (chrono : Chrono) (config : CenterConfig) (around : Surroundings)
    (key instance_id gateway_id : Text) (m : Buckets) (s : CenterStoreSnapshot)
    (bundle : GatewayCredentialBundle)
    → (complete_registration digest chrono config around key instance_id gateway_id (m, s)).1
      ≡ ok bundle
    → Passed digest chrono config around instance_id gateway_id s
        (complete_registration digest chrono config around key instance_id gateway_id (m, s)).0.1
        bundle
unfolding complete_registration
complete-Passed digest chrono config around key instance_id gateway_id m s bundle h =
    elim (Option-cases (
      issue_runtime_credential digest chrono config around.issued_at around.token_bytes
        around.id_bytes gateway_id instance_id)) [
          | inl e ↦ absurd (ground arith)
          | inr ((b, hash, expires_at), e) ↦ record {
            hash = hash;
            expires_at = expires_at;
            issued = ground arith;
            updated = ground arith;
            left = ground arith;
          }
        ]

-- The end of the life of a credential.
abbrev pub end_of_life : CenterConfig → (issued_at : ℕ) → ℕ
end_of_life config issued_at = issued_at + config.credential_ttl_seconds * 1_000_000_000

-- The registration token was good, and the answer's credential is in the store.
pub record Registered (digest : List ℕ → List ℕ) (chrono : Chrono) (config : CenterConfig)
    (around : Surroundings) (input : RegisterGateway) (s s' : CenterStoreSnapshot)
    (bundle : GatewayCredentialBundle) : Type 0 where
  pub token : StoredEnrollmentToken
  pub consumed :
      (consume_enrollment_token digest around.consumed_at input.enrollment_token s).1 ≡ ok token
  pub names_gateway : bundle.gateway_id ≡ token.gateway_id
  pub names_instance : bundle.instance_id ≡ input.instance_id
  pub held :
      Holds
        (sha256_hex digest bundle.bearer_token)
        (chrono.to_rfc3339 (end_of_life config around.issued_at))
        bundle.gateway_id
        s'

register-inv :
    (digest : List ℕ → List ℕ) (chrono : Chrono) (config : CenterConfig) (around : Surroundings)
    (client_key : Text) (input : RegisterGateway) (m : Buckets) (s : CenterStoreSnapshot)
    (bundle : GatewayCredentialBundle)
    → (register_gateway digest chrono config around client_key input (m, s)).1 ≡ ok bundle
    → (token : StoredEnrollmentToken) × (m' : Buckets) × ((consume_enrollment_token digest
          around.consumed_at input.enrollment_token s).1
        ≡ ok token)
      × (register_gateway digest chrono config around client_key input (m, s)
          ≡ complete_registration digest chrono config around
              (rate_limit_key client_key (text "gateway-register"))
              input.instance_id
              token.gateway_id
              (m', (consume_enrollment_token digest around.consumed_at input.enrollment_token s).0))
unfolding register_gateway update
register-inv digest chrono config around client_key input m s bundle h =
    elim (Result-cases
      (consume_enrollment_token digest around.consumed_at input.enrollment_token s).1) [
        | inl (e, c) ↦ absurd (ground arith)
        | inr (token, c) ↦ (
          token,
          (check_rate_limit around.at.checked_at
              (rate_limit_key client_key (text "gateway-register")) m).0,
          c,
          ground arith,
        )
      ]

register-Registered :
    (digest : List ℕ → List ℕ) (chrono : Chrono) (config : CenterConfig) (around : Surroundings)
    (client_key : Text) (input : RegisterGateway) (m : Buckets) (s : CenterStoreSnapshot)
    (bundle : GatewayCredentialBundle)
    → (register_gateway digest chrono config around client_key input (m, s)).1 ≡ ok bundle
    → Registered digest chrono config around input s
        (register_gateway digest chrono config around client_key input (m, s)).0.1
        bundle
register-Registered digest chrono config around client_key input m s bundle h =
    let (token, m', consumed, e) =
      register-inv digest chrono config around client_key input m s bundle h in
    let key = rate_limit_key client_key (text "gateway-register") in
    let s1 = (consume_enrollment_token digest around.consumed_at input.enrollment_token s).0 in
    let p =
      complete-Passed digest chrono config around key input.instance_id token.gateway_id m' s1
        bundle (ap (λ r. r.1) (sym e) ∙ h) in
    let issued =
      issue-Issued digest chrono config around.issued_at around.token_bytes around.id_bytes
        token.gateway_id input.instance_id bundle p.hash p.expires_at p.issued in
    let stored = stores-Holds p.hash p.expires_at token.gateway_id around.storing s1 p.updated in
    let held =
      mark-Holds p.hash p.expires_at token.gateway_id around.marked_at around.marking
        around.recording _ stored in
    record {
      token = token;
      consumed = consumed;
      names_gateway = issued.names_gateway;
      names_instance = issued.names_instance;
      held = rw (e, p.left, issued.names_gateway, ← issued.hash_of_token, ← issued.expiry) held;
    }

-- When a registration is accepted, the request's registration token could be consumed, the answer
-- names that token's gateway and the request's instance, and a request for this gateway that carries
-- the answer's bearer token then passes, if the store is not changed after the registration and can
-- be read, the request's client is not blocked, and the time since the credential was issued is less
-- than the configured one. Instants survive being written and parsed.
pub register_gateway-accepts :
    (digest : List ℕ → List ℕ) (chrono : Chrono) (config : CenterConfig) (around : Surroundings)
    (client_key : Text) (input : RegisterGateway) (m : Buckets) (s : CenterStoreSnapshot)
    (bundle : GatewayCredentialBundle) (at : Moment) (headers : Headers) (later_key : Text)
    (later : Buckets)
    → RoundTrips chrono
    → (register_gateway digest chrono config around client_key input (m, s)).1 ≡ ok bundle
    → load at.loading (register_gateway digest chrono config around client_key input (m, s)).0.1
      ≡ ok (register_gateway digest chrono config around client_key input (m, s)).0.1
    → (check_rate_limit at.checked_at (rate_limit_key later_key gateway_auth_scope) later).1 ≡ none
    → bearer_token headers ≡ some bundle.bearer_token
    → at.now < end_of_life config around.issued_at
    → (token : StoredEnrollmentToken) × (gateway : StoredGateway) × ((consume_enrollment_token
          digest around.consumed_at input.enrollment_token s).1
        ≡ ok token)
      × (bundle.gateway_id ≡ token.gateway_id)
      × (bundle.instance_id ≡ input.instance_id)
      × ((authenticate_gateway digest chrono at headers bundle.gateway_id later_key
            (later, (register_gateway digest chrono config around client_key input (m, s)).0.1)).1
          ≡ ok gateway)
register_gateway-accepts digest chrono config around client_key input m s bundle at headers
      later_key later round h d limit sent in_time =
    let r = register-Registered digest chrono config around client_key input m s bundle h in
    (
      r.token,
      r.held.gateway,
      r.consumed,
      r.names_gateway,
      r.names_instance,
      Holds-passes digest chrono (end_of_life config around.issued_at) at headers bundle.gateway_id
          later_key bundle.bearer_token later _ round r.held d limit sent in_time,
    )
