-- ===== src/Center/Registration.antt =====
-- crates/wist-center/src/api/gateway_ops.rs, `register_gateway`: a registration token is spent, and the
-- gateway gets its credential.
pub mod Accepted
use warp_insight.Prelude.{ℕ, not, Option, none, some, List, ◌++◌, if◌then◌else◌}
use warp_insight.Prelude.Text.{Text, text}
use warp_insight.Prelude.Chrono.{Chrono}
use warp_insight.Prelude.Results.{Result, ok, err}
use warp_insight.Snapshots.{Disk, update}
use warp_insight.Gateway.RateLimit.{
  Buckets, rate_limit_key, check_rate_limit, record_auth_failure, clear_auth_failures,
}
use warp_insight.Center.Config.{CenterConfig}
use warp_insight.Center.Store.{CenterStoreSnapshot}
use warp_insight.Center.Tokens.{consume_enrollment_token}
use warp_insight.Center.Gateways.{update_gateway_credential, mark_gateway_initializing}
use warp_insight.Center.Access.{
  Refusal, too_many_requests, unauthorized, internal, Moment, get_gateway, GatewayCredentialBundle,
  issue_runtime_credential,
}
use warp_insight.Center.Reports.{or_false}

pub record RegisterGateway : Type 0 where
  pub enrollment_token : Text
  pub instance_id : Text

-- What surrounds the requests: after the moment of its admission, the clock for the token and for the
-- credential, the accesses of the store in their order, and the random bytes.
pub record Surroundings : Type 0 where
  pub at : Moment
  pub consumed_at : ℕ
  pub issued_at : ℕ
  pub marked_at : ℕ
  pub consuming : Disk
  pub storing : Disk
  pub marking : Disk
  pub recording : Disk
  pub token_bytes : Option (List ℕ)
  pub id_bytes : Option (List ℕ)

-- From the check that the token's gateway exists. The failure of marking it is only logged.
unfoldable pub complete_registration :
    (List ℕ → List ℕ)
    → Chrono
    → CenterConfig
    → Surroundings
    → (key instance_id gateway_id : Text) → Buckets × CenterStoreSnapshot
    → (Buckets × CenterStoreSnapshot) × Result Refusal GatewayCredentialBundle
unfolding get_gateway issue_runtime_credential update update_gateway_credential
    mark_gateway_initializing record_auth_failure clear_auth_failures
complete_registration digest chrono config around key instance_id gateway_id (m, s) =
    elim (get_gateway around.at.loading gateway_id s) [
      | err e ↦ ((m, s), err (internal (text "failed to load gateway store: " ++ e)))
      | ok none ↦ (
        (record_auth_failure around.at.recorded_at key m, s),
        err (unauthorized (text "enrollment token bound to unknown gateway")),
      )
      | ok (some gateway) ↦
          elim (issue_runtime_credential digest chrono config around.issued_at around.token_bytes
            around.id_bytes gateway_id instance_id) [
              | none ↦ ((m, s), err (internal (text "failed to read system random source")))
              | some (bundle, credential_hash, expires_at) ↦
                  let (s', updated) =
                    update around.storing
                      (update_gateway_credential gateway_id credential_hash (some expires_at)) s in
                  let (marked, answer) =
                    mark_gateway_initializing around.marked_at around.marking around.recording
                      gateway_id s' in
                  if not (or_false updated)
                  then (
                    (m, s'),
                    err (internal (text "failed to persist gateway runtime credential")),
                  )
                  else ((clear_auth_failures key m, marked), ok bundle)
            ]
    ]

-- The answer's bundle carries the gateway, the instance and the credential of the result.
unfoldable pub register_gateway :
    (List ℕ → List ℕ)
    → Chrono
    → CenterConfig
    → Surroundings
    → (client_key : Text) → RegisterGateway
    → Buckets × CenterStoreSnapshot
    → (Buckets × CenterStoreSnapshot) × Result Refusal GatewayCredentialBundle
unfolding rate_limit_key check_rate_limit update consume_enrollment_token record_auth_failure
    complete_registration
register_gateway digest chrono config around client_key input (m, s) =
    let key = rate_limit_key client_key (text "gateway-register") in
    let (m', limited) = check_rate_limit around.at.checked_at key m in
    elim limited [
      | some retry_after ↦ ((m', s), err (too_many_requests retry_after))
      | none ↦
          let (s', consumed) =
            update around.consuming
              (consume_enrollment_token digest around.consumed_at input.enrollment_token) s in
          elim consumed [
            | err e ↦ ((m', s'), err (internal (text "failed to consume enrollment token: " ++ e)))
            | ok (err reason) ↦ (
              (record_auth_failure around.at.recorded_at key m', s'),
              err (unauthorized (text "enrollment token rejected: " ++ reason)),
            )
            | ok (ok token) ↦
                complete_registration digest chrono config around key input.instance_id
                  token.gateway_id (m', s')
          ]
    ]
