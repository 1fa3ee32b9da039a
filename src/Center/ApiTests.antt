-- ===== src/Center/ApiTests.antt =====
-- Requests to the control center on concrete data.
use warp_insight.Prelude.{
  ◌++◌, ℕ, zero, suc, ◌+◌, ◌≡◌, ◌≢◌, ◌↔◌, refl, true, false, List, [], ◌∷◌, Option, none, some,
  arith, length, if◌then◌else◌,
}
use warp_insight.Prelude.Text.{Text, text, text_eq, text_eq_iff, is_empty}
use warp_insight.Prelude.Assoc.{get}
use warp_insight.Prelude.Chrono.{Chrono, RoundTrips}
use warp_insight.Prelude.Results.{ok}
use warp_insight.Secret.{Headers, bearer_token, trimmed, sha256_hex}
use warp_insight.Snapshots.{works, load}
use warp_insight.Gateway.RateLimit.{Buckets}
use warp_insight.Center.Config.{CenterConfig, ControlCenterTrustBundle}
use warp_insight.Center.Store.{
  StoredGateway, StoredEnrollmentToken, GatewayCustomerBindingRecord, ReleaseRecord,
  CenterStoreSnapshot,
}
use warp_insight.Center.Gateways.{new_gateway, or_default}
use warp_insight.Center.Tokens.{consume_enrollment_token}
use warp_insight.Center.Catalog.{list_releases, bind_gateway_customer, list_customer_bindings}
use warp_insight.Center.Catalog.Listed.{
  Published, publish_all, releases_of, NewestFirst, list_releases-publish_all,
}
use warp_insight.Center.Catalog.Bindings.{customers_of, bind_gateway_customer-lists}
use warp_insight.Center.Access.{Moment, Refusal, authenticate_gateway, GatewayCredentialBundle}
use warp_insight.Center.Access.Authentication.{Authentic, authenticate_gateway_iff}
use warp_insight.Center.Reports.{renew_gateway_credential}
use warp_insight.Center.Reports.Renewal.{renew_gateway_credential-revokes}
use warp_insight.Center.Registration.{RegisterGateway, register_gateway}
use warp_insight.Center.Registration.Accepted.{register_gateway-accepts}
use warp_insight.Center.Provisioning.{InitialConfigReturned, get_gateway_initial_config}
use warp_insight.Center.Provisioning.Steps.{Unused, provisioning, regist_token_of}
use warp_insight.Center.Provisioning.Onboarding.{registering, provisioned-registers}
use warp_insight.Center.Provisioning.FailClosed.{get_gateway_initial_config-fail_closed}
use warp_insight.Center.Admin.Admission.{lists_plans, serve, serve-refuses}
use mathlib.Core.List.{Perm}

abbrev repeat : ℕ → ℕ → List ℕ
repeat zero byte = []
repeat (suc n) byte = byte ∷ repeat n byte

-- A digest and a MAC of 32 bytes.
abbrev digest : List ℕ → List ℕ
digest bytes = repeat 32 (length bytes)

abbrev hmac : List ℕ → List ℕ → List ℕ
hmac key bytes = repeat 32 (length key + length bytes)

-- An instant as a text of one number.
abbrev number_in : Text → Option ℕ
number_in [] = none
number_in (n ∷ t) = some n

abbrev chrono : Chrono
chrono = record { parse_from_rfc3339 = number_in; to_rfc3339 = λ n. n ∷ [] }

round_trips : RoundTrips chrono
round_trips t = refl

abbrev config : CenterConfig
config = record {
  admin_token_hash = some (text "secret");
  public_url = text "https://c:3100";
  gateway_image = text "warp-gateway:latest";
  ca_cert = some (text "PEM");
  protocol_version = text "v1";
  hmac_secret = text "k";
  credential_ttl_seconds = 3600;
}

abbrev at : Moment
at = record { checked_at = 0; recorded_at = 0; now = 5; loading = works }

abbrev bearer : Text → Headers
bearer token = record { authorization = some token; identity_token = some (text "me") }

abbrev fresh : StoredGateway
fresh = new_gateway digest 0 (text "g") (text "boot")

abbrev store : CenterStoreSnapshot
store = record {
  gateways = (text "g", fresh) ∷ [];
  agents = [];
  lifecycle_events = [];
  releases = [];
  upgrade_plans = [];
  customer_bindings = [];
  enrollment_tokens = [];
}

provisioned-registers_example :
    (answer : InitialConfigReturned) × (regist_token : Text) × (bundle : GatewayCredentialBundle)
    × ((get_gateway_initial_config digest hmac chrono config
          (provisioning 0 1 2)
          (bearer (text "Bearer boot"))
          (text "ip")
          (some (text "g"))
          ([], store)).1
        ≡ ok answer)
    × (answer.regist_token ≡ some regist_token)
    × ((register_gateway digest chrono config
          (registering 0 3 (1 ∷ []) (2 ∷ []))
          (text "ip")
          (record { enrollment_token = regist_token; instance_id = text "i" })
          (
            [],
            (get_gateway_initial_config digest hmac chrono config
                (provisioning 0 1 2)
                (bearer (text "Bearer boot"))
                (text "ip")
                (some (text "g"))
                ([], store)).0.1,
          )).1
        ≡ ok bundle)
    × (bundle.gateway_id ≡ text "g")
unfolding get text_eq is_empty bearer_token warp_insight.Center.Provisioning.lacks_trust_root
    warp_insight.Gateway.RateLimit.check_rate_limit
provisioned-registers_example =
    provisioned-registers digest hmac chrono config 0 0 1 2 (bearer (text "Bearer boot"))
      (text "ip") (text "g") (text "boot") (text "me") [] store 0 3 (1 ∷ []) (2 ∷ []) (text "ip")
      (text "i") [] (λ bytes. refl) (λ key bytes. refl) refl refl refl refl refl Unused.nil
      (omega arith) refl

-- A gateway whose token has the hash of "tok1", and one registration token.
abbrev known : StoredGateway
known = record fresh { credential_token_hash = sha256_hex digest (text "tok1") }

abbrev known_store : CenterStoreSnapshot
known_store = record store { gateways = (text "g", known) ∷ [] }

authenticate_gateway_iff_example :
    ((authenticate_gateway digest chrono at
        (bearer (text "Bearer tok1"))
        (text "g")
        (text "ip")
        ([], known_store)).1
      ≡ ok known)
    ↔ Authentic digest chrono at
        (bearer (text "Bearer tok1"))
        (text "g")
        (text "ip")
        []
        known_store
        known
unfolding load
authenticate_gateway_iff_example =
    authenticate_gateway_iff digest chrono at (bearer (text "Bearer tok1")) (text "g") (text "ip")
      [] known_store known refl

abbrev token : StoredEnrollmentToken
token = record {
  token_id = text "t";
  token_hash = sha256_hex digest (text "reg");
  gateway_id = text "g";
  tenant_id = text "";
  environment_id = text "";
  issued_by = text "";
  control_center_trust_bundle = none;
  max_uses = 1;
  used_count = 0;
  status = text "Active";
  issued_at = 0;
  expires_at = none;
  revoked_at = none;
}

abbrev token_store : CenterStoreSnapshot
token_store = record store { enrollment_tokens = (text "t", token) ∷ [] }

abbrev request : RegisterGateway
request = record { enrollment_token = text "reg"; instance_id = text "i" }

abbrev bundle : GatewayCredentialBundle
bundle = record {
  credential_id = text "cred_02";
  gateway_id = text "g";
  instance_id = text "i";
  bearer_token = text "wic_01";
  issued_at = 3 ∷ [];
  expires_at = 3_600_000_000_003 ∷ [];
}

abbrev registered_store : CenterStoreSnapshot
registered_store =
    (register_gateway digest chrono config (registering 0 3 (1 ∷ []) (2 ∷ [])) (text "ip") request
      ([], token_store)).0.1

register_gateway-accepts_example :
    (token : StoredEnrollmentToken) × (gateway : StoredGateway) × ((consume_enrollment_token digest
        3
        (text "reg")
        token_store).1
      ≡ ok token)
    × (text "g" ≡ token.gateway_id)
    × (text "i" ≡ text "i")
    × ((authenticate_gateway digest chrono at
          (bearer (text "Bearer wic_01"))
          (text "g")
          (text "ip")
          ([], registered_store)).1
        ≡ ok gateway)
unfolding register_gateway get text_eq bearer_token
register_gateway-accepts_example =
    register_gateway-accepts digest chrono config (registering 0 3 (1 ∷ []) (2 ∷ [])) (text "ip")
      request [] token_store bundle at (bearer (text "Bearer wic_01")) (text "ip") [] round_trips
      refl refl refl refl (omega arith)

abbrev renewed_store : CenterStoreSnapshot
renewed_store =
    (renew_gateway_credential digest chrono config at 3 works (some (1 ∷ [])) (some (2 ∷ []))
      (bearer (text "Bearer tok1")) (text "ip") (text "g") (text "i") ([], known_store)).0.1

hashes_differ : sha256_hex digest (text "tok1") ≢ sha256_hex digest (text "wic_01")
unfolding sha256_hex text_eq warp_insight.Secret.hex_lower warp_insight.Secret.hex_digit
hashes_differ h =
    let same : false ≡ true =
      (text_eq_iff (sha256_hex digest (text "tok1")) (sha256_hex digest (text "wic_01"))).1 h in
    cc

renew_gateway_credential-revokes_example :
    (authenticate_gateway digest chrono at
      (bearer (text "Bearer tok1"))
      (text "g")
      (text "ip")
      ([], renewed_store)).1
    ≢ ok known
unfolding renew_gateway_credential get text_eq new_gateway
renew_gateway_credential-revokes_example =
    renew_gateway_credential-revokes digest chrono config at 3 works (some (1 ∷ [])) (some (2 ∷ []))
      (bearer (text "Bearer tok1")) (text "ip") (text "g") (text "i") [] known_store bundle at
      (bearer (text "Bearer tok1")) (text "ip") (text "tok1") [] known refl refl refl hashes_differ

abbrev given : InitialConfigReturned
given = record {
  config = record {
    gateway_id = text "g";
    control_center_endpoint = text "https://c:3100";
    trust_bundle = some (record {
      trust_bundle_id = text "trust-g-1";
      control_endpoint = text "https://c:3100";
      ca_bundle = text "PEM";
      server_name = text "c";
      expected_san = text "c";
    });
    server_tls_required = true;
    protocol_version = text "v1";
    enrollment_token_id = text "enroll-g-1";
  };
  regist_token = some (regist_token_of hmac config (text "g") (text "me"));
}

get_gateway_initial_config-fail_closed_example :
    (bundle : ControlCenterTrustBundle) × (given.config.trust_bundle ≡ some bundle)
unfolding get_gateway_initial_config get text_eq new_gateway
get_gateway_initial_config-fail_closed_example =
    get_gateway_initial_config-fail_closed digest hmac chrono config (provisioning 0 1 2)
      (bearer (text "Bearer boot")) (text "ip") (some (text "g")) [] store given refl refl

serve-refuses_example :
    (m' : Buckets) × (refusal : Refusal) × (serve digest config at
        (bearer (text "Basic x"))
        (text "ip")
        lists_plans
        ([], store)
      ≡ ((m', store), some refusal))
unfolding bearer_token
serve-refuses_example =
    serve-refuses digest config at (bearer (text "Basic x")) (text "ip") (text "secret") lists_plans
      [] store refl (λ token h. absurd cc)

-- Two releases of one component and one of another, the clock stepping back once.
abbrev publications : List Published
publications =
    record { now = 7; component = text "agent"; version = text "1"; artifact_url = text "u" }
    ∷ record { now = 8; component = text "other"; version = text "1"; artifact_url = text "v" }
    ∷ record { now = 9; component = text "agent"; version = text "3"; artifact_url = text "w" }
    ∷ record { now = 8; component = text "agent"; version = text "2"; artifact_url = text "x" }
    ∷ []

list_releases-publish_all_example :
    (listed : List ReleaseRecord) × (list_releases works
        (text "agent")
        (publish_all publications store)
      ≡ ok listed)
    × Perm listed
        (or_default (get (text "agent") store.releases) ++ releases_of (text "agent") publications)
    × NewestFirst listed
list_releases-publish_all_example = list_releases-publish_all (text "agent") publications store

bind_gateway_customer-lists_example :
    (listed : List GatewayCustomerBindingRecord) × (list_customer_bindings works
        (bind_gateway_customer 7 works (text "g") (text "c") store).0
      ≡ ok listed)
    × (customers_of (text "h") listed ≡ (
        if text_eq (text "g") (text "h")
        then text "c" ∷ []
        else customers_of (text "h") store.customer_bindings))
unfolding customers_of
bind_gateway_customer-lists_example =
    bind_gateway_customer-lists 7 (text "g") (text "c") (text "h") store (omega arith)
