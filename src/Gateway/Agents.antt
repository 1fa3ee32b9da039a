-- ===== src/Gateway/Agents.antt =====
-- crates/warp-gateway/src/api/agent_ops.rs: what a registered agent calls with its bearer credential.
-- The sending of metrics to the time-series store, which a handler only logs, is left out.
pub mod Renewal
pub mod Authentication
pub mod Credential
use warp_insight.Prelude.{
  ℕ, ◌+◌, ◌*◌, Bool, true, false, not, ◌&&◌, ◌||◌, Option, none, some, List, ◌++◌, leb, refl,
  if◌then◌else◌,
}
use warp_insight.Prelude.Text.{Text, text, text_eq}
use warp_insight.Prelude.Assoc.{get, insert}
use warp_insight.Prelude.Chrono.{Chrono}
use warp_insight.Prelude.Results.{Result, ok, err, guard, ◌>>=◌, ◌>>◌}
use warp_insight.Secret.{Headers, bearer_token, sha256_hex, constant_time_eq, new_secret_token}
use warp_insight.Gateway.Config.{AdminConfig}
use warp_insight.Gateway.Store.{
  StoredAgentRegistration, AdminStoreSnapshot, AgentWorkStateChange, credential_is_active, Disk,
  load, update,
}

-- A refusal: the status code and the text.
pub record Refusal : Type 0 where
  pub status : ℕ
  pub reason : Text

abbrev pub unauthorized : Text → Refusal
unauthorized reason = record { status = 401; reason = reason }

abbrev pub bad_request : Text → Refusal
bad_request reason = record { status = 400; reason = reason }

abbrev pub internal : Text → Refusal
internal reason = record { status = 500; reason = reason }

abbrev pub or_refuse : {A : Type 0} → Refusal → Option A → Result Refusal A
or_refuse r none = err r
or_refuse r (some a) = ok a

abbrev pub or_internal : {A : Type 0} → Text → Result Text A → Result Refusal A
or_internal prefix (ok a) = ok a
or_internal prefix (err e) = err (internal (prefix ++ e))

abbrev past : ℕ → Option ℕ → Bool
past now none = true
past now (some expires_at) = leb expires_at now

unfoldable pub credential_is_expired : Chrono → ℕ → Text → Bool
credential_is_expired chrono now expires_at = past now (chrono.parse_from_rfc3339 expires_at)

unfoldable pub authenticate_agent :
    (List ℕ → List ℕ)
    → Chrono
    → ℕ
    → Disk
    → AdminStoreSnapshot
    → Headers
    → Text
    → Text
    → Result Refusal StoredAgentRegistration
unfolding bearer_token sha256_hex load credential_is_expired constant_time_eq
authenticate_agent digest chrono now disk s headers agent_id instance_id = do
  token ← or_refuse (unauthorized (text "missing bearer credential")) (bearer_token headers)
  snapshot ← or_internal (text "failed to load agent credential store: ") (load disk s)
  agent ← or_refuse (unauthorized (text "unknown agent credential")) (get agent_id snapshot.agents)
  guard
      (text_eq agent.instance_id instance_id
        && constant_time_eq agent.credential_token_hash (sha256_hex digest token))
      (unauthorized (text "invalid agent credential"))
  guard (credential_is_active agent.credential_status)
      (unauthorized (text "agent credential is not active"))
  guard (not (credential_is_expired chrono now agent.credential_expires_at))
      (unauthorized (text "agent credential is expired"))
  ok agent

-- The messages, with the fields that are read; an i64 by its 64 bits, which `as u64` keeps.
pub record AgentHello : Type 0 where
  pub agent_id : Text
  pub instance_id : Text
  pub version : Text
  pub memory_bytes : Option ℕ
  pub cpu_percent : Option ℕ
  pub admin_latency_ms : Option ℕ
  pub work_state_changes : Option (List AgentWorkStateChange)

unfoldable pub report_status : Text → AgentHello → StoredAgentRegistration → StoredAgentRegistration
report_status last_seen_at input stored = record stored {
  version = input.version;
  last_seen_at = last_seen_at;
  last_memory_bytes = input.memory_bytes;
  last_cpu_percent = input.cpu_percent;
  last_admin_latency_ms = input.admin_latency_ms;
  work_state_changes = input.work_state_changes;
}

abbrev pub put_agent : StoredAgentRegistration → Text → AdminStoreSnapshot → AdminStoreSnapshot
put_agent agent key s = record s { agents = insert key agent s.agents }

-- `if let Some(stored) = snapshot.agents.get_mut(&agent.agent_id)`.
unfoldable pub store_status :
    Text → AgentHello → Text → AdminStoreSnapshot → AdminStoreSnapshot × Unit {0}
unfolding report_status
store_status last_seen_at input key s = elim (get key s.agents) [
  | none ↦ (s, tt)
  | some stored ↦ (put_agent (report_status last_seen_at input stored) key s, tt)
]

abbrev after_update :
    {A B : Type 0}
    → Text
    → (A → Result Refusal B)
    → AdminStoreSnapshot × Result Text A
    → AdminStoreSnapshot × Result Refusal B
after_update prefix answer (s, ok a) = (s, answer a)
after_update prefix answer (s, err e) = (s, err (internal (prefix ++ e)))

-- A handler answers a refusal or what it accepted; its clock is read by each argument in turn.
unfoldable pub submit_agent_status :
    (List ℕ → List ℕ)
    → Chrono
    → (auth_now now : ℕ) → (loading writing : Disk) → Headers
    → AgentHello
    → AdminStoreSnapshot
    → AdminStoreSnapshot × Result Refusal (Unit {0})
unfolding authenticate_agent update store_status
submit_agent_status digest chrono auth_now now loading writing headers input s =
    elim (authenticate_agent digest chrono auth_now loading s headers input.agent_id
      input.instance_id) [
        | err refusal ↦ (s, err refusal)
        | ok agent ↦
            after_update (text "failed to update agent status: ") (λ u. ok u)
              (update writing (store_status (chrono.to_rfc3339 now) input agent.agent_id) s)
      ]

pub record PollControlCommands : Type 0 where
  pub agent_id : Text
  pub instance_id : Text
  pub last_seen_sequence : ℕ

-- The answer's `next_sequence`; its list of messages is empty.
unfoldable pub poll_control_commands :
    (List ℕ → List ℕ)
    → Chrono
    → ℕ
    → Disk
    → Headers
    → PollControlCommands
    → AdminStoreSnapshot
    → Result Refusal ℕ
unfolding authenticate_agent
poll_control_commands digest chrono now disk headers input s = do
  agent ← authenticate_agent digest chrono now disk s headers input.agent_id input.instance_id
  ok input.last_seen_sequence

pub record ReportActionResult : Type 0 where
  pub agent_id : Text
  pub instance_id : Text
  pub report_id : Text

-- The receipt, without the time.
unfoldable pub report_action_result :
    (List ℕ → List ℕ)
    → Chrono
    → ℕ
    → Disk
    → Headers
    → ReportActionResult
    → AdminStoreSnapshot
    → Result Refusal (Text × Text)
unfolding authenticate_agent
report_action_result digest chrono now disk headers input s = do
  agent ← authenticate_agent digest chrono now disk s headers input.agent_id input.instance_id
  ok (input.agent_id, input.report_id)
