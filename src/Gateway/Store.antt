-- ===== src/Gateway/Store.antt =====
-- crates/warp-gateway/src/infra/store.rs: the admin store, a JSON file that every update reads and
-- writes back whole under a lock, so that the updates of all requests form one sequence.
use warp_insight.Prelude.{ℕ, Bool, true, false, List, Option}
use warp_insight.Prelude.Text.{Text}
use warp_insight.Prelude.Assoc.{Assoc}
pub use warp_insight.Snapshots.{Disk, works, load_fails, save_fails, sync_fails, save_result}
unfoldable pub use warp_insight.Snapshots.{load, update, update_result}

pub data StoredEnrollmentTokenStatus : Type 0 where
  active reserved used expired revoked : StoredEnrollmentTokenStatus

pub data StoredCredentialStatus : Type 0 where
  active expired revoked : StoredCredentialStatus

pub record StoredEnrollmentToken : Type 0 where
  pub token_hash : Text
  pub tenant_id : Text
  pub environment_id : Text
  pub max_uses : ℕ  -- u32
  pub used_count : ℕ  -- u32
  pub issued_at : Text
  pub expires_at : Text
  pub reserved_at : Option Text
  pub status : StoredEnrollmentTokenStatus

-- Of `AgentWorkState` only the name is kept; an f64 is kept by its bits.
pub record AgentWorkStateChange : Type 0 where
  pub input_id : Text
  pub state : Text
  pub reason : Text
  pub at : Text

pub record StoredAgentRegistration : Type 0 where
  pub agent_id : Text
  pub instance_id : Text
  pub tenant_id : Text
  pub environment_id : Text
  pub node_id : Text
  pub hostname : Text
  pub machine_id : Text
  pub version : Text
  pub credential_id : Text
  pub credential_token_hash : Text
  pub credential_issued_at : Text
  pub credential_expires_at : Text
  pub credential_status : StoredCredentialStatus
  pub registered_at : Text
  pub last_seen_at : Text
  pub last_memory_bytes : Option ℕ
  pub last_cpu_percent : Option ℕ
  pub last_admin_latency_ms : Option ℕ
  pub work_state_changes : Option (List AgentWorkStateChange)

pub record AdminStoreSnapshot : Type 0 where
  pub enrollment_tokens : Assoc StoredEnrollmentToken
  pub agents : Assoc StoredAgentRegistration

abbrev pub is_active : StoredEnrollmentTokenStatus → Bool
is_active StoredEnrollmentTokenStatus.active = true
is_active _ = false

abbrev pub is_reserved : StoredEnrollmentTokenStatus → Bool
is_reserved StoredEnrollmentTokenStatus.reserved = true
is_reserved _ = false

abbrev pub credential_is_active : StoredCredentialStatus → Bool
credential_is_active StoredCredentialStatus.active = true
credential_is_active _ = false
