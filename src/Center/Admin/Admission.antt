-- ===== src/Center/Admin/Admission.antt =====
-- No request of an administrator is served without the token.
use warp_insight.Prelude.{ℕ, ◌≡◌, ◌≢◌, Option, none, some, List, arith, Option-cases, inl, inr}
use warp_insight.Prelude.Text.{Text}
use warp_insight.Prelude.Results.{Result, Result-cases, ok, err}
use warp_insight.Secret.{Headers, bearer_token, sha256_hex, constant_time_eq_iff}
use warp_insight.Snapshots.{Disk}
use warp_insight.Gateway.RateLimit.{Buckets}
use warp_insight.Center.Config.{CenterConfig}
use warp_insight.Center.Store.{CenterStoreSnapshot}
use warp_insight.Center.Access.{Refusal, Moment, require_admin_bearer}
use warp_insight.Center.Admin.{as_admin}
use warp_insight.Center.Admin.Instances.{
  AdminCreateGatewayInstanceRequest, BindGatewayCustomerRequest, admin_create_gateway_instance,
  admin_list_gateway_instances, admin_bind_gateway_customer, admin_get_gateway_initial_config,
}
use warp_insight.Center.TimeSeries.{GatewayMetricSample, AgentMetricSample}
use warp_insight.Center.Admin.History.{
  admin_get_gateway_uptime, admin_get_gateway_history, admin_get_agent_history,
}
use warp_insight.Center.Admin.Listings.{
  admin_list_gateway_lifecycle, admin_list_gateway_agents, admin_view_gateway_list,
  admin_list_gateway_status, admin_show_gateway_status,
}
use warp_insight.Center.Admin.Platform.{
  Publication, PublishReleaseRequest, CreateUpgradePlanRequest, admin_publish_release,
  admin_list_releases, admin_create_upgrade_plan, admin_list_upgrade_plans,
  admin_approve_upgrade_plan, admin_dispatch_global_policy, admin_dispatch_agent_fleet_command,
}

pub data Request : Type 0 where
  creates_instance :
      (now later : ℕ)
      → (writing recording : Disk) → (bytes : Option (List ℕ)) → AdminCreateGatewayInstanceRequest
      → Request
  lists_instances : Request
  binds_customer : (writing : Disk) → BindGatewayCustomerRequest → Request
  reads_config : (instance_id : Text) → Request
  lists_lifecycle : (gateway_id : Text) → Request
  lists_agents : (gateway_id : Text) → Request
  views_list : Request
  lists_status : Request
  shows_status : (gateway_id : Text) → Request
  publishes_release : (around : Publication) → (component : Text) → PublishReleaseRequest → Request
  lists_releases : (component : Text) → Request
  creates_plan : (writing : Disk) → CreateUpgradePlanRequest → Request
  lists_plans : Request
  approves_plan : (writing : Disk) → (plan_id approved_by : Text) → Request
  dispatches_policy : (policy_version : Text) → (gateway_ids : List Text) → Request
  dispatches_command : (command_kind : Text) → (agent_ids : List Text) → Request
  reads_uptime :
      (vm : Option (Text → Text → Result Text (Option ℕ)))
      → (gateway_id : Text) → (window : Option Text) → Request
  reads_gateway_history :
      (now : ℕ)
      → (vm : Option (Text → ℕ → ℕ → ℕ → Result Text (List GatewayMetricSample)))
      → (gateway_id : Text) → (window : Option Text) → Request
  reads_agent_history :
      (now : ℕ)
      → (vm : Option (Text → Text → ℕ → ℕ → ℕ → Result Text (List AgentMetricSample)))
      → (gateway_id agent_id : Text) → (window : Option Text) → Request

abbrev refusal_of : {A : Type 0} → Result Refusal A → Option Refusal
refusal_of (ok a) = none
refusal_of (err refusal) = some refusal

abbrev without_answer :
    {A : Type 0}
    → (Buckets × CenterStoreSnapshot) × Result Refusal A
    → (Buckets × CenterStoreSnapshot) × Option Refusal
without_answer (state, answer) = (state, refusal_of answer)

-- The routes of the administrator: the state after a request, and the refusal if it is refused.
unfoldable pub serve :
    (List ℕ → List ℕ)
    → CenterConfig
    → Moment
    → Headers
    → (client_key : Text) → Request
    → Buckets × CenterStoreSnapshot
    → (Buckets × CenterStoreSnapshot) × Option Refusal
unfolding admin_create_gateway_instance admin_list_gateway_instances admin_bind_gateway_customer
    admin_get_gateway_initial_config admin_list_gateway_lifecycle admin_list_gateway_agents
    admin_view_gateway_list admin_list_gateway_status admin_show_gateway_status
    admin_publish_release admin_list_releases admin_create_upgrade_plan admin_list_upgrade_plans
    admin_approve_upgrade_plan admin_dispatch_global_policy admin_dispatch_agent_fleet_command
    admin_get_gateway_uptime admin_get_gateway_history admin_get_agent_history
serve digest config at headers client_key
      (creates_instance now later writing recording bytes request) (m, s) =
    without_answer (
      admin_create_gateway_instance digest config at now later writing recording bytes headers
        client_key request (m, s))
serve digest config at headers client_key lists_instances (m, s) =
    without_answer (admin_list_gateway_instances digest config at headers client_key (m, s))
serve digest config at headers client_key (binds_customer writing request) (m, s) =
    without_answer
      (admin_bind_gateway_customer digest config at writing headers client_key request (m, s))
serve digest config at headers client_key (reads_config instance_id) (m, s) =
    without_answer
      (admin_get_gateway_initial_config digest config at headers client_key instance_id (m, s))
serve digest config at headers client_key (lists_lifecycle gateway_id) (m, s) =
    without_answer
      (admin_list_gateway_lifecycle digest config at headers client_key gateway_id (m, s))
serve digest config at headers client_key (lists_agents gateway_id) (m, s) =
    without_answer (admin_list_gateway_agents digest config at headers client_key gateway_id (m, s))
serve digest config at headers client_key views_list (m, s) =
    without_answer (admin_view_gateway_list digest config at headers client_key (m, s))
serve digest config at headers client_key lists_status (m, s) =
    without_answer (admin_list_gateway_status digest config at headers client_key (m, s))
serve digest config at headers client_key (shows_status gateway_id) (m, s) =
    without_answer (admin_show_gateway_status digest config at headers client_key gateway_id (m, s))
serve digest config at headers client_key (publishes_release around component request) (m, s) =
    without_answer
      (admin_publish_release digest config at around headers client_key component request (m, s))
serve digest config at headers client_key (lists_releases component) (m, s) =
    without_answer (admin_list_releases digest config at headers client_key component (m, s))
serve digest config at headers client_key (creates_plan writing request) (m, s) =
    without_answer
      (admin_create_upgrade_plan digest config at writing headers client_key request (m, s))
serve digest config at headers client_key lists_plans (m, s) =
    without_answer (admin_list_upgrade_plans digest config at headers client_key (m, s))
serve digest config at headers client_key (approves_plan writing plan_id approved_by) (m, s) =
    without_answer (
      admin_approve_upgrade_plan digest config at writing headers client_key plan_id approved_by
        (m, s))
serve digest config at headers client_key (dispatches_policy policy_version gateway_ids) (m, s) =
    without_answer (
      admin_dispatch_global_policy digest config at headers client_key policy_version gateway_ids
        (m, s))
serve digest config at headers client_key (dispatches_command command_kind agent_ids) (m, s) =
    without_answer (
      admin_dispatch_agent_fleet_command digest config at headers client_key command_kind agent_ids
        (m, s))
serve digest config at headers client_key (reads_uptime vm gateway_id window) (m, s) =
    without_answer
      (admin_get_gateway_uptime digest config at vm headers client_key gateway_id window (m, s))
serve digest config at headers client_key (reads_gateway_history now vm gateway_id window) (m, s) =
    without_answer (
      admin_get_gateway_history digest config at now vm headers client_key gateway_id window (m, s))
serve digest config at headers client_key (reads_agent_history now vm gateway_id agent_id window)
      (m, s) =
    without_answer (
      admin_get_agent_history digest config at now vm headers client_key gateway_id agent_id window
        (m, s))

as_admin-refused :
    {A : Type 0} (s : CenterStoreSnapshot) (work : CenterStoreSnapshot × Result Refusal A)
    (passed : Buckets × Result Refusal (Unit {0})) (refusal : Refusal)
    → passed.1 ≡ err refusal
    → without_answer (as_admin s work passed) ≡ ((passed.0, s), some refusal)
as_admin-refused s work (m, err r) refusal h = ground arith
as_admin-refused s work (m, ok u) refusal h = cc

serve-refused :
    (digest : List ℕ → List ℕ) (config : CenterConfig) (at : Moment) (headers : Headers)
    (client_key : Text) (request : Request) (m : Buckets) (s : CenterStoreSnapshot)
    (refusal : Refusal)
    → (require_admin_bearer digest config at headers client_key m).1 ≡ err refusal
    → serve digest config at headers client_key request (m, s)
      ≡ (((require_admin_bearer digest config at headers client_key m).0, s), some refusal)
unfolding serve
serve-refused digest config at headers client_key
      (creates_instance now later writing recording bytes request) m s refusal h =
    as_admin-refused _ _ _ refusal h
serve-refused digest config at headers client_key lists_instances m s refusal h =
    as_admin-refused _ _ _ refusal h
serve-refused digest config at headers client_key (binds_customer writing request) m s refusal h =
    as_admin-refused _ _ _ refusal h
serve-refused digest config at headers client_key (reads_config instance_id) m s refusal h =
    as_admin-refused _ _ _ refusal h
serve-refused digest config at headers client_key (lists_lifecycle gateway_id) m s refusal h =
    as_admin-refused _ _ _ refusal h
serve-refused digest config at headers client_key (lists_agents gateway_id) m s refusal h =
    as_admin-refused _ _ _ refusal h
serve-refused digest config at headers client_key views_list m s refusal h =
    as_admin-refused _ _ _ refusal h
serve-refused digest config at headers client_key lists_status m s refusal h =
    as_admin-refused _ _ _ refusal h
serve-refused digest config at headers client_key (shows_status gateway_id) m s refusal h =
    as_admin-refused _ _ _ refusal h
serve-refused digest config at headers client_key (publishes_release around component request) m s
      refusal h =
    as_admin-refused _ _ _ refusal h
serve-refused digest config at headers client_key (lists_releases component) m s refusal h =
    as_admin-refused _ _ _ refusal h
serve-refused digest config at headers client_key (creates_plan writing request) m s refusal h =
    as_admin-refused _ _ _ refusal h
serve-refused digest config at headers client_key lists_plans m s refusal h =
    as_admin-refused _ _ _ refusal h
serve-refused digest config at headers client_key (approves_plan writing plan_id approved_by) m s
      refusal h =
    as_admin-refused _ _ _ refusal h
serve-refused digest config at headers client_key (dispatches_policy policy_version gateway_ids) m s
      refusal h =
    as_admin-refused _ _ _ refusal h
serve-refused digest config at headers client_key (dispatches_command command_kind agent_ids) m s
      refusal h =
    as_admin-refused _ _ _ refusal h
serve-refused digest config at headers client_key (reads_uptime vm gateway_id window) m s refusal
      h =
    as_admin-refused _ _ _ refusal h
serve-refused digest config at headers client_key (reads_gateway_history now vm gateway_id window) m
      s refusal h =
    as_admin-refused _ _ _ refusal h
serve-refused digest config at headers client_key
      (reads_agent_history now vm gateway_id agent_id window) m s refusal h =
    as_admin-refused _ _ _ refusal h

require_admin_bearer-refuses :
    (digest : List ℕ → List ℕ) (config : CenterConfig) (at : Moment) (headers : Headers)
    (client_key expected : Text) (m : Buckets)
    → config.admin_token_hash ≡ some expected
    → ((token : Text) → bearer_token headers ≡ some token → sha256_hex digest token ≢ expected)
    → (refusal : Refusal) × ((require_admin_bearer digest config at headers client_key m).1
        ≡ err refusal)
unfolding require_admin_bearer
require_admin_bearer-refuses digest config at headers client_key expected m e wrong =
    elim (Result-cases (require_admin_bearer digest config at headers client_key m).1) [
      | inl (refusal, h) ↦ (refusal, h)
      | inr (u, h) ↦ elim (Option-cases (bearer_token headers)) [
        | inl b ↦ absurd (ground (arith, b, e))
        | inr (token, b) ↦ absurd (
            wrong token b
              ((constant_time_eq_iff (sha256_hex digest token) expected).0 (ground (arith, b, e))))
      ]
    ]

-- Where a token is configured, a request to any of the nineteen handlers of the administrator that
-- carries no bearer token, or one whose hash is not the configured one, is refused and leaves the
-- store as it is.
pub serve-refuses :
    (digest : List ℕ → List ℕ) (config : CenterConfig) (at : Moment) (headers : Headers)
    (client_key expected : Text) (request : Request) (m : Buckets) (s : CenterStoreSnapshot)
    → config.admin_token_hash ≡ some expected
    → ((token : Text) → bearer_token headers ≡ some token → sha256_hex digest token ≢ expected)
    → (m' : Buckets) × (refusal : Refusal) × (serve digest config at headers client_key request
          (m, s)
        ≡ ((m', s), some refusal))
serve-refuses digest config at headers client_key expected request m s e wrong =
    let (refusal, h) =
      require_admin_bearer-refuses digest config at headers client_key expected m e wrong in
    (
      (require_admin_bearer digest config at headers client_key m).0,
      refusal,
      serve-refused digest config at headers client_key request m s refusal h,
    )
