-- ===== src/Center/Provisioning/Steps.antt =====
-- The steps of a gateway from its creation to its first credential.
use warp_insight.Prelude.{
  ℕ, ◌+◌, ◌*◌, ◌≤◌, ◌≡◌, ◌∙◌, refl, sym, subst, Bool, true, false, some, List, [], ◌∷◌, arith,
  length,
}
use warp_insight.Prelude.Text.{Text, text, text_eq, text_eq_refl, text_eq_iff, is_empty}
use warp_insight.Prelude.Assoc.{Assoc, get, insert, get-insert_self}
use warp_insight.Prelude.Chrono.{Chrono}
use warp_insight.Prelude.Results.{Result, ok}
use warp_insight.Secret.{Headers, bearer_token, trimmed, sha256_hex, hex_lower}
use warp_insight.Snapshots.{works, load, update}
use warp_insight.Gateway.RateLimit.{Buckets}
use warp_insight.Center.Access.{get_gateway}
use warp_insight.Center.Provisioning
use warp_insight.Center.Provisioning.{
  derive_regist_token, lacks_trust_root, InitialConfigReturned, build_initial_config_json,
  get_gateway_initial_config, provision_gateway_initial_config, issue_regist_token,
}
use warp_insight.Center.Config.{CenterConfig}
use warp_insight.Center.Store.{
  GatewayInstanceLifecycleState, StoredGateway, StoredEnrollmentToken, EnrollmentTokenIssue,
  CenterStoreSnapshot,
}
use warp_insight.Center.Tokens.{create_enrollment_token, consume_token, consume_in}
use warp_insight.Center.Gateways.{
  put_gateway, then_record, consume_bootstrap_token, mark_gateway_initializing, set_initializing,
  record_lifecycle_event,
}

-- No token has the hash.
pub data Unused (hash : Text) : Assoc StoredEnrollmentToken → Type 0 where
  nil : Unused hash []
  cons :
      (id : Text) (token : StoredEnrollmentToken) (tokens : Assoc StoredEnrollmentToken)
      → text_eq token.token_hash hash ≡ false
      → Unused hash tokens
      → Unused hash ((id, token) ∷ tokens)

consume_in-insert :
    (now : ℕ) (hash id : Text) (token : StoredEnrollmentToken)
    (tokens : Assoc StoredEnrollmentToken)
    → Unused hash tokens
    → token.token_hash ≡ hash
    → is_empty hash ≡ false
    → (consume_in now hash (insert id token tokens)).1 ≡ (consume_token now token).1
unfolding consume_in insert
consume_in-insert now hash id token [] u e n = ground (arith, text_eq_refl hash)
consume_in-insert now hash id token ((j, other) ∷ tokens) (Unused.cons _ _ _ differs u) e n =
    ground (arith, text_eq_refl hash, differs, consume_in-insert now hash id token tokens u e n)

abbrev pub initializing_of : StoredGateway → StoredGateway
initializing_of g = record g { lifecycle_state = some GatewayInstanceLifecycleState.initializing }

set_initializing-eq :
    (gateway_id : Text) (g : StoredGateway) (s : CenterStoreSnapshot)
    → get gateway_id s.gateways ≡ some g
    → g.lifecycle_state ≡ some GatewayInstanceLifecycleState.provisioned
    → set_initializing gateway_id s ≡ (put_gateway (initializing_of g) gateway_id s, true)
unfolding set_initializing
set_initializing-eq gateway_id g s e p = rw (set_initializing, e, p) refl

-- What marking does after its first update.
abbrev marked : ℕ → Text → CenterStoreSnapshot × Bool → CenterStoreSnapshot × Result Text (Unit {0})
marked now gateway_id r = elim r.1 [
  | false ↦ (r.0, ok tt)
  | true ↦
      then_record works now gateway_id (some GatewayInstanceLifecycleState.provisioned)
        GatewayInstanceLifecycleState.initializing tt r.0
]

pub mark-keeps :
    (now : ℕ) (gateway_id : Text) (g : StoredGateway) (s : CenterStoreSnapshot)
    → get gateway_id s.gateways ≡ some g
    → g.lifecycle_state ≡ some GatewayInstanceLifecycleState.provisioned
    → ((mark_gateway_initializing now works works gateway_id s).0.enrollment_tokens
        ≡ s.enrollment_tokens)
      × (get gateway_id (mark_gateway_initializing now works works gateway_id s).0.gateways
          ≡ some (initializing_of g))
unfolding mark_gateway_initializing update record_lifecycle_event
mark-keeps now gateway_id g s e p =
    subst
      (λ r.
        ((marked now gateway_id r).0.enrollment_tokens ≡ s.enrollment_tokens)
        × (get gateway_id (marked now gateway_id r).0.gateways ≡ some (initializing_of g)))
      (sym (set_initializing-eq gateway_id g s e p))
      (refl, get-insert_self gateway_id (initializing_of g) s.gateways)

pub consume-keeps :
    (digest : List ℕ → List ℕ) (gateway_id bootstrap_token : Text) (g : StoredGateway)
    (s : CenterStoreSnapshot)
    → get gateway_id s.gateways ≡ some g
    → g.lifecycle_state ≡ some GatewayInstanceLifecycleState.provisioned
    → g.bootstrap_token_hash ≡ sha256_hex digest bootstrap_token
    → is_empty g.bootstrap_token_hash ≡ false
    → ((consume_bootstrap_token digest gateway_id bootstrap_token s).1 ≡ true)
      × ((consume_bootstrap_token digest gateway_id bootstrap_token s).0.enrollment_tokens
          ≡ s.enrollment_tokens)
      × (get gateway_id (consume_bootstrap_token digest gateway_id bootstrap_token s).0.gateways
          ≡ some (record g { bootstrap_token_hash = text "" }))
unfolding consume_bootstrap_token
consume-keeps digest gateway_id bootstrap_token g s e p b n =
    let same = (text_eq_iff g.bootstrap_token_hash (sha256_hex digest bootstrap_token)).1 b in
    rw (consume_bootstrap_token, e, p, n, same)
      (refl, refl, get-insert_self gateway_id _ s.gateways)

pub hex_lower-nonempty : (bytes : List ℕ) → length bytes ≡ 32 → is_empty (hex_lower bytes) ≡ false
unfolding hex_lower is_empty
hex_lower-nonempty [] h = absurd (omega arith)
hex_lower-nonempty (byte ∷ bytes) h = refl

-- Here the store works throughout.
abbrev pub provisioning : (checked_at issued_at marked_at : ℕ) → Provisioning.Surroundings
provisioning checked_at issued_at marked_at = record {
  at = record {
    checked_at = checked_at;
    recorded_at = checked_at;
    now = issued_at;
    loading = works;
  };
  issued_at = issued_at;
  marked_at = marked_at;
  authenticating = works;
  issuing = works;
  consuming = works;
  marking = works;
  recording = works;
}

abbrev pub regist_token_of :
    (List ℕ → List ℕ → List ℕ) → CenterConfig → (instance_id identity_token : Text) → Text
regist_token_of hmac config instance_id identity_token =
    derive_regist_token hmac config.hmac_secret instance_id identity_token

abbrev pub issue_of : CenterConfig → Text → EnrollmentTokenIssue
issue_of config regist_token = record {
  token = regist_token;
  issued_by = text "provision";
  control_center_trust_bundle = config.ca_cert;
}

-- The store after the configuration was given.
abbrev pub after_provisioning :
    (List ℕ → List ℕ)
    → CenterConfig
    → (issued_at marked_at : ℕ) → (instance_id bootstrap_token regist_token : Text)
    → CenterStoreSnapshot
    → CenterStoreSnapshot
after_provisioning digest config issued_at marked_at instance_id bootstrap_token regist_token s =
    (mark_gateway_initializing marked_at works works instance_id
      (consume_bootstrap_token digest instance_id bootstrap_token
        (create_enrollment_token digest issued_at instance_id (issue_of config regist_token)
          s).0).0).0

pub created-keeps :
    (digest : List ℕ → List ℕ) (now : ℕ) (gateway_id : Text) (issue : EnrollmentTokenIssue)
    (s : CenterStoreSnapshot)
    → (create_enrollment_token digest now gateway_id issue s).0.gateways ≡ s.gateways
unfolding create_enrollment_token
created-keeps digest now gateway_id issue s = refl

pub provisions :
    (digest : List ℕ → List ℕ) (hmac : List ℕ → List ℕ → List ℕ) (chrono : Chrono)
    (config : CenterConfig) (checked_at issued_at marked_at : ℕ) (headers : Headers)
    (client_key instance_id bootstrap_token identity_token : Text) (g : StoredGateway) (m : Buckets)
    (s : CenterStoreSnapshot)
    → get instance_id s.gateways ≡ some g
    → is_empty g.credential_token_hash ≡ true
    → g.lifecycle_state ≡ some GatewayInstanceLifecycleState.provisioned
    → g.bootstrap_token_hash ≡ sha256_hex digest bootstrap_token
    → is_empty g.bootstrap_token_hash ≡ false
    → bearer_token headers ≡ some bootstrap_token
    → trimmed headers.identity_token ≡ some identity_token
    → lacks_trust_root config instance_id ≡ false
    → (answer : InitialConfigReturned) × ((get_gateway_initial_config digest hmac chrono config
          (provisioning checked_at issued_at marked_at)
          headers
          client_key
          (some instance_id)
          (m, s)).1
        ≡ ok answer)
      × (answer.regist_token ≡ some (regist_token_of hmac config instance_id identity_token))
      × ((get_gateway_initial_config digest hmac chrono config
            (provisioning checked_at issued_at marked_at)
            headers
            client_key
            (some instance_id)
            (m, s)).0.1
          ≡ after_provisioning digest config issued_at marked_at instance_id bootstrap_token
              (regist_token_of hmac config instance_id identity_token)
              s)
unfolding get_gateway_initial_config get_gateway load update provision_gateway_initial_config
    issue_regist_token
provisions digest hmac chrono config checked_at issued_at marked_at headers client_key instance_id
      bootstrap_token identity_token g m s e c p b n sent identity trust =
    let regist_token = regist_token_of hmac config instance_id identity_token in
    let created =
      create_enrollment_token digest issued_at instance_id (issue_of config regist_token) s in
    let same = (text_eq_iff (sha256_hex digest bootstrap_token) g.bootstrap_token_hash).1 (sym b) in
    let e1 : get instance_id created.0.gateways ≡ some g =
      rw (created-keeps digest issued_at instance_id (issue_of config regist_token) s) e in
    let (spent, kept, still) =
      consume-keeps digest instance_id bootstrap_token g created.0 e1 p b n in
    (
      record {
        config = build_initial_config_json config g instance_id created.1.token_id;
        regist_token = some regist_token;
      },
      ground (arith, e, c, n, sent, identity, trust, same, spent),
      refl,
      ground (arith, e, c, n, sent, identity, trust, same, spent),
    )

-- What the new token lets through.
pub new_token-consumes :
    (digest : List ℕ → List ℕ) (issued_at now : ℕ) (gateway_id : Text)
    (issue : EnrollmentTokenIssue) (s : CenterStoreSnapshot)
    → is_empty issue.token ≡ false
    → is_empty (sha256_hex digest issue.token) ≡ false
    → Unused (sha256_hex digest issue.token) s.enrollment_tokens
    → now ≤ issued_at + 30 * 86_400_000_000_000
    → (used : StoredEnrollmentToken) × (used.gateway_id ≡ gateway_id)
      × ((consume_in now
            (sha256_hex digest issue.token)
            (create_enrollment_token digest issued_at gateway_id issue s).0.enrollment_tokens).1
          ≡ ok used)
unfolding create_enrollment_token consume_token text_eq
new_token-consumes digest issued_at now gateway_id issue s given hashed u in_time =
    let (s', token) = create_enrollment_token digest issued_at gateway_id issue s in
    let hash : token.token_hash ≡ sha256_hex digest issue.token = ground (arith, given) in
    (
      record token { used_count = 1; status = text "Exhausted" },
      refl,
      consume_in-insert now (sha256_hex digest issue.token) token.token_id token s.enrollment_tokens
            u hash hashed
          ∙ ground (arith, in_time),
    )
