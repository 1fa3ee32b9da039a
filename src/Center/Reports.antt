-- ===== src/Center/Reports.antt =====
-- crates/wist-center/src/api/gateway_ops.rs: the reports and the queries of a gateway. The pushes to
-- the time-series database, which only warn when they fail, are left out.
pub mod Renewal
use warp_insight.Prelude.{
  ℕ, Bool, false, not, Option, none, some, List, map, ◌++◌, length, if◌then◌else◌,
}
use warp_insight.Prelude.Text.{Text, text}
use warp_insight.Prelude.Chrono.{Chrono}
use warp_insight.Prelude.Results.{Result, ok, err}
use warp_insight.Secret.{Headers}
use warp_insight.Snapshots.{Disk, update}
use warp_insight.Gateway.RateLimit.{Buckets, rate_limit_key, clear_auth_failures}
use warp_insight.Center.Config.{CenterConfig}
use warp_insight.Center.Store.{
  GatewayInstanceLifecycleState, StoredAgent, GatewayStatusUpdate, CenterStoreSnapshot, is_state,
}
use warp_insight.Center.Gateways.{
  upsert_agent_status, upsert_gateway_status, update_gateway_credential,
}
use warp_insight.Center.Access.{
  Refusal, refused, unauthorized, internal, Moment, get_gateway, gateway_auth_scope,
  authenticate_gateway, GatewayCredentialBundle, issue_runtime_credential,
}

pub record AgentStatusEntry : Type 0 where
  pub agent_id : Text
  pub instance_id : Text
  pub version : Text
  pub status : Text
  pub health : Text
  pub memory_bytes : Option ℕ
  pub cpu_percent : Option ℕ
  pub admin_latency_ms : Option ℕ
  pub last_seen_at : ℕ

unfoldable pub stored_agent : Text → AgentStatusEntry → StoredAgent
stored_agent gateway_id agent = record {
  agent_id = agent.agent_id;
  gateway_id = gateway_id;
  instance_id = agent.instance_id;
  version = agent.version;
  status = agent.status;
  health = agent.health;
  memory_bytes = agent.memory_bytes;
  cpu_percent = agent.cpu_percent;
  admin_latency_ms = agent.admin_latency_ms;
  last_seen_at = agent.last_seen_at;
}

abbrev pub answered :
    {A B : Type 0}
    → Buckets
    → Text
    → B
    → CenterStoreSnapshot × Result Text A
    → (Buckets × CenterStoreSnapshot) × Result Refusal B
answered m prefix answer (s, ok a) = ((m, s), ok answer)
answered m prefix answer (s, err e) = ((m, s), err (internal (prefix ++ e)))

-- The answer's `agents_accepted`.
unfoldable pub submit_agent_status :
    (List ℕ → List ℕ)
    → Chrono
    → Moment
    → (writing : Disk) → Headers
    → (client_key gateway_id : Text) → List AgentStatusEntry
    → Buckets × CenterStoreSnapshot
    → (Buckets × CenterStoreSnapshot) × Result Refusal ℕ
unfolding authenticate_gateway update upsert_agent_status stored_agent
submit_agent_status digest chrono at writing headers client_key gateway_id agents (m, s) =
    let (m', passed) = authenticate_gateway digest chrono at headers gateway_id client_key (m, s) in
    elim passed [
      | err refusal ↦ ((m', s), err refusal)
      | ok gateway ↦
          let stored = map (stored_agent gateway_id) agents in
          answered m' (text "failed to update agent status: ") (length stored)
            (update writing (upsert_agent_status gateway_id stored) s)
    ]

-- The receipt: the gateway, the instance and the time reported.
unfoldable pub submit_gateway_status :
    (List ℕ → List ℕ)
    → Chrono
    → Moment
    → (initialized_at later : ℕ) → (writing recording : Disk) → Headers
    → (client_key : Text) → GatewayStatusUpdate
    → Buckets × CenterStoreSnapshot
    → (Buckets × CenterStoreSnapshot) × Result Refusal (Text × Text × ℕ)
unfolding authenticate_gateway upsert_gateway_status
submit_gateway_status digest chrono at initialized_at later writing recording headers client_key
      input (m, s) =
    let (m', passed) =
      authenticate_gateway digest chrono at headers input.gateway_id client_key (m, s) in
    elim passed [
      | err refusal ↦ ((m', s), err refusal)
      | ok gateway ↦
          answered m' (text "failed to update gateway status: ")
            (input.gateway_id, input.instance_id, input.last_seen_at)
            (upsert_gateway_status initialized_at later writing recording input s)
    ]

-- `unwrap_or(false)`.
abbrev pub or_false : Result Text Bool → Bool
or_false (ok b) = b
or_false (err e) = false

-- A failed write is answered like a gateway that is gone.
unfoldable pub renew_gateway_credential :
    (List ℕ → List ℕ)
    → Chrono
    → CenterConfig
    → Moment
    → (issued_at : ℕ) → (writing : Disk) → (token_bytes id_bytes : Option (List ℕ)) → Headers
    → (client_key gateway_id instance_id : Text) → Buckets × CenterStoreSnapshot
    → (Buckets × CenterStoreSnapshot) × Result Refusal GatewayCredentialBundle
unfolding authenticate_gateway issue_runtime_credential update update_gateway_credential
    rate_limit_key clear_auth_failures
renew_gateway_credential digest chrono config at issued_at writing token_bytes id_bytes headers
      client_key gateway_id instance_id (m, s) =
    let (m', passed) = authenticate_gateway digest chrono at headers gateway_id client_key (m, s) in
    elim passed [
      | err refusal ↦ ((m', s), err refusal)
      | ok gateway ↦
          elim (issue_runtime_credential digest chrono config issued_at token_bytes id_bytes
            gateway_id instance_id) [
              | none ↦ ((m', s), err (internal (text "failed to read system random source")))
              | some (bundle, credential_hash, expires_at) ↦
                  let (s', updated) =
                    update writing
                      (update_gateway_credential gateway_id credential_hash (some expires_at)) s in
                  if not (or_false updated)
                  then ((m', s'), err (unauthorized (text "invalid gateway credential")))
                  else (
                    (clear_auth_failures (rate_limit_key client_key gateway_auth_scope) m', s'),
                    ok bundle,
                  )
            ]
    ]

-- The answer repeats the gateway and the credential named in the request, with the status.
unfoldable pub verify_gateway_credential :
    (List ℕ → List ℕ)
    → Chrono
    → Moment
    → Headers
    → (client_key gateway_id credential_id : Text) → Buckets × CenterStoreSnapshot
    → Buckets × Result Refusal (Text × Text × Text)
unfolding authenticate_gateway
verify_gateway_credential digest chrono at headers client_key gateway_id credential_id (m, s) =
    let (m', passed) = authenticate_gateway digest chrono at headers gateway_id client_key (m, s) in
    elim passed [
      | err refusal ↦ (m', err refusal)
      | ok gateway ↦ (m', ok (gateway_id, credential_id, text "valid"))
    ]

pub record GatewayInitializationStatus : Type 0 where
  pub gateway_id : Text
  pub instance_id : Option Text
  pub lifecycle_state : GatewayInstanceLifecycleState
  pub initialized : Bool

abbrev pub or_provisioned : Option GatewayInstanceLifecycleState → GatewayInstanceLifecycleState
or_provisioned none = GatewayInstanceLifecycleState.provisioned
or_provisioned (some state) = state

-- This query asks for no credential.
unfoldable pub query_gateway_initialization_status :
    Disk → Option Text → CenterStoreSnapshot → Result Refusal GatewayInitializationStatus
unfolding get_gateway
query_gateway_initialization_status loading instance_id s = elim instance_id [
  | none ↦ err (refused 400 (text "missing instance_id"))
  | some gateway_id ↦ elim (get_gateway loading gateway_id s) [
    | err e ↦ err (internal (text "failed to load gateway store: " ++ e))
    | ok none ↦ err (refused 404 (text "unknown gateway `" ++ (gateway_id ++ text "`")))
    | ok (some gateway) ↦
        let lifecycle_state = or_provisioned gateway.lifecycle_state in
        ok (record {
          gateway_id = gateway.gateway_id;
          instance_id = some gateway.instance_id;
          lifecycle_state = lifecycle_state;
          initialized =
              not (is_state GatewayInstanceLifecycleState.provisioned (some lifecycle_state));
        })
  ]
]
