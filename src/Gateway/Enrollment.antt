-- ===== src/Gateway/Enrollment.antt =====
-- crates/warp-gateway/src/api/enrollment.rs: an agent's enrollment, in three updates of the store.
pub mod Accepted
pub mod Rejected
use warp_insight.Prelude.{
  ℕ, ◌+◌, ◌*◌, Bool, true, false, not, ◌&&◌, Option, none, some, List, [], ◌∷◌, ◌++◌, if◌then◌else◌,
}
use warp_insight.Prelude.Text.{Text, text, text_eq}
use warp_insight.Prelude.Chrono.{Chrono}
use warp_insight.Prelude.Results.{Result, ok, err, guard, ◌>>=◌, ◌>>◌}
use warp_insight.Secret.{sha256_hex, new_secret_token}
use warp_insight.Gateway.Config.{AdminConfig}
use warp_insight.Gateway.RateLimit.{
  Buckets, rate_limit_key, check_rate_limit, record_auth_failure, clear_auth_failures,
}
use warp_insight.Gateway.Store.{
  StoredAgentRegistration, StoredCredentialStatus, AdminStoreSnapshot, Disk, update, update_result,
}
use warp_insight.Gateway.Tokens.{
  reserve_enrollment_token, commit_reserved_registration, rollback_enrollment_token_reservation,
}
use warp_insight.Gateway.Identifiers.{first_meaningful_identifier, stable_identifier}

-- The message, with the fields that are read.
pub record EnrollmentRequest : Type 0 where
  pub api_version : Text
  pub kind : Text
  pub token : Text
  pub requested_at : Text
  pub node_id : Text
  pub hostname : Text
  pub machine_id : Text
  pub capability_summary : Text

-- An accepted outcome; a rejected one is the text of its reason.
pub record Enrolled : Type 0 where
  pub agent_id : Text
  pub instance_id : Text
  pub credential_id : Text
  pub bearer_token : Text
  pub issued_at : Text
  pub not_after : Text

-- What the world answers while one request runs: the clock at each reading, the disk at each
-- update, and the random bytes.
pub record Surroundings : Type 0 where
  pub reserve_now : ℕ
  pub reserve_later : ℕ
  pub issue_now : ℕ
  pub commit_now : ℕ
  pub reserve_disk : Disk
  pub commit_disk : Disk
  pub rollback_disk : Disk
  pub random : Option (List ℕ)

unfoldable pub validate_enrollment_message : EnrollmentRequest → Result Text (Unit {0})
validate_enrollment_message input = do
  guard (text_eq input.api_version (text "v1")) (text "unsupported_api_version")
  guard (text_eq input.kind (text "submit_enrollment_request")) (text "invalid_request_kind")
  ok tt

abbrev or_instance : Option Text → Text
or_instance none = text "agent-instance"
or_instance (some value) = value

unfoldable pub instance_id_of : EnrollmentRequest → Text
unfolding first_meaningful_identifier
instance_id_of input =
    or_instance
      (first_meaningful_identifier (input.node_id ∷ input.hostname ∷ input.machine_id ∷ []))

unfoldable pub agent_id_of : EnrollmentRequest → Text
unfolding instance_id_of stable_identifier
agent_id_of input = text "agent-" ++ stable_identifier (instance_id_of input)

abbrev written : Chrono → Text → Option ℕ → Text
written chrono now none = now
written chrono now (some t) = chrono.to_rfc3339 t

unfoldable pub registration :
    (List ℕ → List ℕ)
    → Chrono
    → AdminConfig
    → ℕ
    → EnrollmentRequest
    → Text
    → Enrolled
    → StoredAgentRegistration
unfolding sha256_hex
registration digest chrono config now input version result = record {
  agent_id = result.agent_id;
  instance_id = result.instance_id;
  tenant_id = config.tenant_id;
  environment_id = config.environment_id;
  node_id = input.node_id;
  hostname = input.hostname;
  machine_id = input.machine_id;
  version = version;
  credential_id = result.credential_id;
  credential_token_hash = sha256_hex digest result.bearer_token;
  credential_issued_at = result.issued_at;
  credential_expires_at = result.not_after;
  credential_status = StoredCredentialStatus.active;
  registered_at =
      written chrono (chrono.to_rfc3339 now) (chrono.parse_from_rfc3339 input.requested_at);
  last_seen_at = chrono.to_rfc3339 now;
  last_memory_bytes = none;
  last_cpu_percent = none;
  last_admin_latency_ms = none;
  work_state_changes = none;
}

abbrev pub flatten : {T : Type 0} → Result Text (Result Text T) → Result Text T
flatten (ok r) = r
flatten (err e) = err e

unfoldable pub enrolled : Chrono → AdminConfig → ℕ → EnrollmentRequest → Text → Enrolled
unfolding agent_id_of instance_id_of stable_identifier
enrolled chrono config now input bearer_token = record {
  agent_id = agent_id_of input;
  instance_id = instance_id_of input;
  credential_id = text "cred-" ++ stable_identifier (agent_id_of input);
  bearer_token = bearer_token;
  issued_at = chrono.to_rfc3339 now;
  not_after = chrono.to_rfc3339 (now + config.credential_ttl_seconds * 1_000_000_000);
}

-- The last update, and the rollback when it fails.
unfoldable pub commit :
    (List ℕ → List ℕ)
    → Chrono
    → AdminConfig
    → Surroundings
    → EnrollmentRequest
    → Text
    → Enrolled
    → AdminStoreSnapshot
    → AdminStoreSnapshot × Result Text Enrolled
unfolding sha256_hex registration update_result update commit_reserved_registration
    rollback_enrollment_token_reservation
commit digest chrono config around input version result s =
    let hash = sha256_hex digest input.token in
    let (s', answer) =
      update_result around.commit_disk
        (commit_reserved_registration hash
          (registration digest chrono config around.commit_now input version result))
        s in
    elim (flatten answer) [
      | ok u ↦ (s', ok result)
      | err reason ↦ (
        (update around.rollback_disk (rollback_enrollment_token_reservation hash) s').0,
        err reason,
      )
    ]

-- The text that `new_secret_token` fails with.
abbrev no_random : Text
no_random = text "failed to read system random source"

-- The first update.
unfoldable pub reserve :
    (List ℕ → List ℕ)
    → Chrono
    → AdminConfig
    → Surroundings
    → EnrollmentRequest
    → AdminStoreSnapshot
    → AdminStoreSnapshot × Result Text (Result Text Text)
unfolding sha256_hex agent_id_of update_result reserve_enrollment_token
reserve digest chrono config around input s =
    update_result around.reserve_disk
      (reserve_enrollment_token chrono config around.reserve_now around.reserve_later
        (sha256_hex digest input.token) (agent_id_of input))
      s

unfoldable pub agent_enrollment_result :
    (List ℕ → List ℕ)
    → Chrono
    → AdminConfig
    → Surroundings
    → EnrollmentRequest
    → Text
    → AdminStoreSnapshot
    → AdminStoreSnapshot × Result Text Enrolled
unfolding validate_enrollment_message reserve new_secret_token update
    rollback_enrollment_token_reservation enrolled commit
agent_enrollment_result digest chrono config around input version s =
    elim (validate_enrollment_message input) [
      | err reason ↦ (s, err reason)
      | ok u ↦
          let (s', reservation) = reserve digest chrono config around input s in
          elim (flatten reservation) [
            | err reason ↦ (s', err reason)
            | ok reserved_hash ↦ elim (new_secret_token (text "wic") around.random) [
              | none ↦ (
                (update around.rollback_disk (rollback_enrollment_token_reservation reserved_hash)
                    s').0,
                err no_random,
              )
              | some token ↦
                  commit digest chrono config around input version
                    (enrolled chrono config around.issue_now input token) s'
            ]
          ]
    ]
