-- ===== src/Gateway/Admission.antt =====
-- crates/warp-gateway/src/api/admin_auth.rs, and the handlers of enrollment.rs and install.rs that
-- count failed attempts by client. The audit lines and the list of recent agents are left out.
pub mod AdminBearer
use warp_insight.Prelude.{ℕ, Option, none, some, List}
use warp_insight.Prelude.Text.{Text, text}
use warp_insight.Prelude.Chrono.{Chrono}
use warp_insight.Prelude.Results.{Result, ok, err}
use warp_insight.Prelude.{Bool, true, false, if◌then◌else◌}
use warp_insight.Secret.{Headers, bearer_token, sha256_hex, constant_time_eq}
use warp_insight.Gateway.Config.{AdminConfig}
use warp_insight.Gateway.RateLimit.{
  Buckets, rate_limit_key, check_rate_limit, record_auth_failure, clear_auth_failures,
}
use warp_insight.Gateway.Identifiers.{agent_version_from_capability_summary}
use warp_insight.Gateway.Store.{AdminStoreSnapshot, Disk, update}
use warp_insight.Gateway.Tokens.{validate_bootstrap_token_for_config}
use warp_insight.Gateway.Enrollment.{
  EnrollmentRequest, Enrolled, Surroundings, agent_enrollment_result,
}

-- Why a request is turned away before its handler's own work.
pub data Denial : Type 0 where
  too_many_requests : ℕ → Denial
  missing_token : Denial
  invalid_token : Denial
  refused : Text → Denial

unfoldable pub require_admin_bearer :
    (List ℕ → List ℕ)
    → AdminConfig
    → (checked_at recorded_at : ℕ) → Headers
    → (client_key : Text) → Buckets
    → Buckets × Result Denial (Unit {0})
unfolding rate_limit_key check_rate_limit bearer_token sha256_hex constant_time_eq
    record_auth_failure clear_auth_failures
require_admin_bearer digest config checked_at recorded_at headers client_key m =
    let key = rate_limit_key client_key (text "admin") in
    let (m', limited) = check_rate_limit checked_at key m in
    elim limited [
      | some retry_after ↦ (m', err (too_many_requests retry_after))
      | none ↦ elim (bearer_token headers) [
        | none ↦ (m', err missing_token)
        | some token ↦
            if constant_time_eq (sha256_hex digest token) config.admin_api_token_hash
            then (clear_auth_failures key m', ok tt)
            else (record_auth_failure recorded_at key m', err invalid_token)
      ]
    ]

-- The answer is 201 with the outcome, accepted or rejected.
unfoldable pub enroll_agent :
    (List ℕ → List ℕ)
    → Chrono
    → AdminConfig
    → (checked_at recorded_at : ℕ) → Surroundings
    → EnrollmentRequest
    → (package_version client_key : Text) → Buckets × AdminStoreSnapshot
    → (Buckets × AdminStoreSnapshot) × Result Denial (Result Text Enrolled)
unfolding rate_limit_key check_rate_limit agent_enrollment_result record_auth_failure
    clear_auth_failures agent_version_from_capability_summary
enroll_agent digest chrono config checked_at recorded_at around input package_version client_key
      (m, s) =
    let version = agent_version_from_capability_summary package_version input.capability_summary in
    let key = rate_limit_key client_key (text "enrollment") in
    let (m', limited) = check_rate_limit checked_at key m in
    elim limited [
      | some retry_after ↦ ((m', s), err (too_many_requests retry_after))
      | none ↦
          let (s', result) = agent_enrollment_result digest chrono config around input version s in
          elim result [
            | ok enrolled ↦ ((clear_auth_failures key m', s'), ok (ok enrolled))
            | err reason ↦ ((record_auth_failure recorded_at key m', s'), ok (err reason))
          ]
    ]

abbrev flatten : {T : Type 0} → Result Text (Result Text T) → Result Text T
flatten (ok r) = r
flatten (err e) = err e

-- The guard of `get_agent_initial_config_with_token` and `download_agent_package`: here a missing
-- token counts as a failure.
unfoldable pub require_bootstrap_token :
    (List ℕ → List ℕ)
    → Chrono
    → AdminConfig
    → (checked_at recorded_at now : ℕ) → Disk
    → Headers
    → (client_key : Text) → Buckets × AdminStoreSnapshot
    → (Buckets × AdminStoreSnapshot) × Result Denial Text
unfolding rate_limit_key check_rate_limit bearer_token sha256_hex record_auth_failure
    clear_auth_failures update validate_bootstrap_token_for_config
require_bootstrap_token digest chrono config checked_at recorded_at now disk headers client_key
      (m, s) =
    let key = rate_limit_key client_key (text "bootstrap") in
    let (m', limited) = check_rate_limit checked_at key m in
    elim limited [
      | some retry_after ↦ ((m', s), err (too_many_requests retry_after))
      | none ↦ elim (bearer_token headers) [
        | none ↦ ((record_auth_failure recorded_at key m', s), err missing_token)
        | some token ↦
            let (s', answer) =
              update disk
                (validate_bootstrap_token_for_config chrono config now (sha256_hex digest token))
                s in
            elim (flatten answer) [
              | ok u ↦ ((clear_auth_failures key m', s'), ok token)
              | err reason ↦ ((record_auth_failure recorded_at key m', s'), err (refused reason))
            ]
      ]
    ]
