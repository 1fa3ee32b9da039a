-- ===== src/Center/Store.antt =====
-- crates/wist-center/src/infra/store.rs: what the control center keeps of gateways and their tokens.
-- A `DateTime` is an instant in nanoseconds, an f64 its bits.
use warp_insight.Prelude.{ℕ, Bool, true, false, List, Option, none, some}
use warp_insight.Prelude.Text.{Text, text}
use warp_insight.Prelude.Assoc.{Assoc}

pub data GatewayInstanceLifecycleState : Type 0 where
  provisioned initializing running failed : GatewayInstanceLifecycleState

pub data StoredGatewayCredentialStatus : Type 0 where
  active expired revoked : StoredGatewayCredentialStatus

pub record StoredGateway : Type 0 where
  pub gateway_id : Text
  pub instance_id : Text
  pub credential_token_hash : Text
  pub credential_status : StoredGatewayCredentialStatus
  pub credential_expires_at : Option Text
  pub bootstrap_token_hash : Text
  pub version : Option Text
  pub status : Option Text
  pub health : Option Text
  pub memory_bytes : Option ℕ
  pub cpu_percent : Option ℕ
  pub lifecycle_state : Option GatewayInstanceLifecycleState
  pub initialized_at : Option ℕ
  pub created_at : Option ℕ
  pub last_seen_at : Option ℕ

-- `StoredGateway::provisioned`.
unfoldable pub provisioned_gateway : Text → Text → Text → Option Text → StoredGateway
provisioned_gateway gateway_id instance_id credential_token_hash expires_at = record {
  gateway_id = gateway_id;
  instance_id = instance_id;
  credential_token_hash = credential_token_hash;
  credential_status = StoredGatewayCredentialStatus.active;
  credential_expires_at = expires_at;
  bootstrap_token_hash = text "";
  version = none;
  status = none;
  health = none;
  memory_bytes = none;
  cpu_percent = none;
  lifecycle_state = none;
  initialized_at = none;
  created_at = none;
  last_seen_at = none;
}

-- Counts and limits are `i64` and never negative here.
pub record StoredEnrollmentToken : Type 0 where
  pub token_id : Text
  pub token_hash : Text
  pub gateway_id : Text
  pub tenant_id : Text
  pub environment_id : Text
  pub issued_by : Text
  pub control_center_trust_bundle : Option Text
  pub max_uses : ℕ
  pub used_count : ℕ
  pub status : Text
  pub issued_at : ℕ
  pub expires_at : Option ℕ
  pub revoked_at : Option ℕ

pub record EnrollmentTokenIssue : Type 0 where
  pub token : Text
  pub issued_by : Text
  pub control_center_trust_bundle : Option Text

pub record LifecycleEvent : Type 0 where
  pub gateway_id : Text
  pub from_state : Option GatewayInstanceLifecycleState
  pub to_state : GatewayInstanceLifecycleState
  pub at : ℕ

pub record StoredAgent : Type 0 where
  pub agent_id : Text
  pub gateway_id : Text
  pub instance_id : Text
  pub version : Text
  pub status : Text
  pub health : Text
  pub memory_bytes : Option ℕ
  pub cpu_percent : Option ℕ
  pub admin_latency_ms : Option ℕ
  pub last_seen_at : ℕ

pub record GatewayStatusUpdate : Type 0 where
  pub gateway_id : Text
  pub instance_id : Text
  pub version : Text
  pub status : Text
  pub health : Text
  pub memory_bytes : Option ℕ
  pub cpu_percent : Option ℕ
  pub last_seen_at : ℕ

pub record ReleaseRecord : Type 0 where
  pub version : Text
  pub artifact_url : Text
  pub status : Text
  pub published_at : ℕ

pub record UpgradeTarget : Type 0 where
  pub component : Text
  pub target_version : Text

pub record UpgradeStep : Type 0 where
  pub step_index : ℕ
  pub gateway_ids : List Text
  pub status : Text

pub record UpgradePlanRecord : Type 0 where
  pub plan_id : Text
  pub targets : List UpgradeTarget
  pub target_count : ℕ
  pub status : Text
  pub created_at : ℕ
  pub steps : List UpgradeStep
  pub approved_by : Option Text
  pub approved_at : Option ℕ

pub record GatewayCustomerBindingRecord : Type 0 where
  pub gateway_id : Text
  pub customer_id : Text
  pub status : Text
  pub bound_at : ℕ

pub record CenterStoreSnapshot : Type 0 where
  pub gateways : Assoc StoredGateway
  pub agents : Assoc StoredAgent
  pub lifecycle_events : Assoc (List LifecycleEvent)
  pub releases : Assoc (List ReleaseRecord)
  pub upgrade_plans : List UpgradePlanRecord
  pub customer_bindings : List GatewayCustomerBindingRecord
  pub enrollment_tokens : Assoc StoredEnrollmentToken

pub record GatewayCredentialSeed : Type 0 where
  pub gateway_id : Text
  pub token : Text
  pub expires_at : Option Text

abbrev pub is_state : GatewayInstanceLifecycleState → Option GatewayInstanceLifecycleState → Bool
is_state GatewayInstanceLifecycleState.provisioned
      (some GatewayInstanceLifecycleState.provisioned) =
    true
is_state GatewayInstanceLifecycleState.running (some GatewayInstanceLifecycleState.running) = true
is_state _ _ = false
