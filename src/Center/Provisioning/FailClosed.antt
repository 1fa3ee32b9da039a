-- ===== src/Center/Provisioning/FailClosed.antt =====
-- No configuration asks for TLS without a trust root.
use warp_insight.Prelude.{
  ℕ, ◌≡◌, ◌∙◌, refl, subst, true, false, Bool-cases, Option-cases, not, ◌&&◌, Option, none, some,
  List, arith, inl, inr,
}
use warp_insight.Prelude.Text.{Text, text, text_eq, is_empty}
use warp_insight.Prelude.Chrono.{Chrono}
use warp_insight.Prelude.Results.{Result, Result-cases, ok, err}
use warp_insight.Secret.{Headers, bearer_token, sha256_hex, trimmed}
use warp_insight.Snapshots.{update}
use warp_insight.Gateway.RateLimit.{Buckets, rate_limit_key}
use warp_insight.Center.Config.{
  CenterConfig, ControlCenterTrustBundle, build_control_center_trust_bundle,
  control_center_tls_required,
}
use warp_insight.Center.Store.{StoredGateway, EnrollmentTokenIssue, CenterStoreSnapshot}
use warp_insight.Center.Tokens.{create_enrollment_token}
use warp_insight.Center.Gateways.{consume_bootstrap_token}
use warp_insight.Center.Access.{Refusal, gateway_auth_scope, get_gateway, authenticate_gateway}
use warp_insight.Center.Provisioning.{
  InitialConfigReturned, Surroundings, derive_regist_token, enrollment_token_id, lacks_trust_root,
  build_initial_config_json, issue_regist_token, provision_gateway_initial_config,
  initial_config_again, get_gateway_initial_config,
}

-- What is built says whether TLS is required, and carries the bundle.
record Built (config : CenterConfig) (instance_id : Text) (answer : InitialConfigReturned)
    : Type 0 where
  required : answer.config.server_tls_required ≡ control_center_tls_required config
  bundle : answer.config.trust_bundle ≡ build_control_center_trust_bundle config instance_id

-- An answer, if there is one, is built.
abbrev Gives : CenterConfig → Text → Result Refusal InitialConfigReturned → Type 0
Gives config instance_id (ok answer) = Built config instance_id answer
Gives config instance_id (err refusal) = Unit {0}

built :
    (config : CenterConfig) (gateway : StoredGateway) (instance_id token_id : Text)
    (regist_token : Option Text)
    → Built config instance_id (record {
      config = build_initial_config_json config gateway instance_id token_id;
      regist_token = regist_token;
    })
unfolding build_initial_config_json
built config gateway instance_id token_id regist_token = record { required = refl; bundle = refl }

issue-Gives :
    (digest : List ℕ → List ℕ) (hmac : List ℕ → List ℕ → List ℕ) (config : CenterConfig)
    (around : Surroundings) (key instance_id bootstrap_token identity_token : Text)
    (gateway : StoredGateway) (m : Buckets) (s : CenterStoreSnapshot)
    → Gives config instance_id
        (issue_regist_token digest hmac config around key instance_id bootstrap_token identity_token
          gateway
          (m, s)).1
unfolding issue_regist_token
issue-Gives digest hmac config around key instance_id bootstrap_token identity_token gateway m s =
    let issue : EnrollmentTokenIssue = record {
      token = derive_regist_token hmac config.hmac_secret instance_id identity_token;
      issued_by = text "provision";
      control_center_trust_bundle = config.ca_cert;
    } in
    let created =
      update around.issuing (create_enrollment_token digest around.issued_at instance_id issue) s in
    elim (Result-cases created.1) [
      | inl (e, c) ↦ rw (issue_regist_token, c) tt
      | inr (token, c) ↦
          elim (Result-cases
            (update around.consuming (consume_bootstrap_token digest instance_id bootstrap_token)
              created.0).1) [
                | inl (e, d) ↦ rw (issue_regist_token, c, d) tt
                | inr (false, d) ↦ rw (issue_regist_token, c, d) tt
                | inr (true, d) ↦
                    rw (issue_regist_token, c, d)
                      (built config gateway instance_id token.token_id (some issue.token))
              ]
    ]

provision-Gives :
    (digest : List ℕ → List ℕ) (hmac : List ℕ → List ℕ → List ℕ) (config : CenterConfig)
    (around : Surroundings) (headers : Headers) (key instance_id : Text) (gateway : StoredGateway)
    (m : Buckets) (s : CenterStoreSnapshot)
    → Gives config instance_id
        (provision_gateway_initial_config digest hmac config around headers key instance_id gateway
          (m, s)).1
unfolding provision_gateway_initial_config
provision-Gives digest hmac config around headers key instance_id gateway m s =
    elim (Option-cases (bearer_token headers)) [
      | inl e ↦ rw (provision_gateway_initial_config, e) tt
      | inr (bootstrap_token, e) ↦
          elim (Bool-cases
            (text_eq (sha256_hex digest bootstrap_token) gateway.bootstrap_token_hash)) [
              | inr n ↦ rw (provision_gateway_initial_config, e, n) tt
              | inl y ↦ elim (Option-cases (trimmed headers.identity_token)) [
                | inl f ↦ rw (provision_gateway_initial_config, e, y, f) tt
                | inr (identity_token, f) ↦
                    rw (provision_gateway_initial_config, e, y, f)
                      (issue-Gives digest hmac config around key instance_id bootstrap_token
                        identity_token gateway m s)
              ]
            ]
    ]

again-Gives :
    (digest : List ℕ → List ℕ) (chrono : Chrono) (config : CenterConfig) (around : Surroundings)
    (headers : Headers) (client_key instance_id : Text) (m : Buckets) (s : CenterStoreSnapshot)
    → Gives config instance_id
        (initial_config_again digest chrono config around headers client_key instance_id (m, s)).1
unfolding initial_config_again
again-Gives digest chrono config around headers client_key instance_id m s =
    elim (Result-cases
      (authenticate_gateway digest chrono (record around.at { loading = around.authenticating })
        headers instance_id client_key (m, s)).1) [
          | inl (e, c) ↦ rw (initial_config_again, c) tt
          | inr (gateway, c) ↦
              rw (initial_config_again, c)
                (built config gateway instance_id (enrollment_token_id around.issuing instance_id s)
                  none)
        ]

-- The configuration is given where TLS is not required or there is a trust bundle.
abbrev Trusted : CenterConfig → Text → Result Refusal InitialConfigReturned → Type 0
Trusted config instance_id (ok answer) =
    (lacks_trust_root config instance_id ≡ false) × Built config instance_id answer
Trusted config instance_id (err refusal) = Unit {0}

Gives-Trusted :
    (config : CenterConfig) (instance_id : Text) (r : Result Refusal InitialConfigReturned)
    → lacks_trust_root config instance_id ≡ false
    → Gives config instance_id r
    → Trusted config instance_id r
Gives-Trusted config instance_id (ok answer) n g = (n, g)
Gives-Trusted config instance_id (err refusal) n g = tt

get-Trusted :
    (digest : List ℕ → List ℕ) (hmac : List ℕ → List ℕ → List ℕ) (chrono : Chrono)
    (config : CenterConfig) (around : Surroundings) (headers : Headers)
    (client_key instance_id : Text) (m : Buckets) (s : CenterStoreSnapshot)
    → Trusted config instance_id
        (get_gateway_initial_config digest hmac chrono config around headers client_key
          (some instance_id)
          (m, s)).1
unfolding get_gateway_initial_config
get-Trusted digest hmac chrono config around headers client_key instance_id m s =
    let key = rate_limit_key client_key gateway_auth_scope in
    elim (Bool-cases (lacks_trust_root config instance_id)) [
      | inl y ↦ rw (get_gateway_initial_config, y) tt
      | inr n ↦ elim (Result-cases (get_gateway around.at.loading instance_id s)) [
        | inl (e, c) ↦ rw (get_gateway_initial_config, n, c) tt
        | inr (none, c) ↦ rw (get_gateway_initial_config, n, c) tt
        | inr (some g, c) ↦
            elim (Bool-cases
              (is_empty g.credential_token_hash && not (is_empty g.bootstrap_token_hash))) [
                | inl y ↦
                    rw (get_gateway_initial_config, n, c, y)
                      (Gives-Trusted config instance_id _ n
                        (provision-Gives digest hmac config around headers key instance_id g m s))
                | inr k ↦
                    rw (get_gateway_initial_config, n, c, k)
                      (Gives-Trusted config instance_id _ n (
                        again-Gives digest chrono config around headers client_key instance_id m s))
              ]
      ]
    ]

-- Every configuration that is given to a gateway and says that TLS is required carries a trust
-- bundle.
pub get_gateway_initial_config-fail_closed :
    (digest : List ℕ → List ℕ) (hmac : List ℕ → List ℕ → List ℕ) (chrono : Chrono)
    (config : CenterConfig) (around : Surroundings) (headers : Headers) (client_key : Text)
    (instance_id : Option Text) (m : Buckets) (s : CenterStoreSnapshot)
    (answer : InitialConfigReturned)
    → (get_gateway_initial_config digest hmac chrono config around headers client_key instance_id
        (m, s)).1
      ≡ ok answer
    → answer.config.server_tls_required ≡ true
    → (bundle : ControlCenterTrustBundle) × (answer.config.trust_bundle ≡ some bundle)
unfolding get_gateway_initial_config lacks_trust_root
get_gateway_initial_config-fail_closed digest hmac chrono config around headers client_key none m s
      answer h required =
    cc
get_gateway_initial_config-fail_closed digest hmac chrono config around headers client_key
      (some instance_id) m s answer h required =
    let (trusted, built) =
      subst (Trusted config instance_id) h
        (get-Trusted digest hmac chrono config around headers client_key instance_id m s) in
    elim (Option-cases (build_control_center_trust_bundle config instance_id)) [
      | inl e ↦ absurd (ground (arith, built.required, trusted, e))
      | inr (bundle, e) ↦ (bundle, built.bundle ∙ e)
    ]
