-- ===== src/Center/Admin/Platform.antt =====
-- crates/wist-center/src/api/admin_ops.rs: releases, upgrade plans, policies and commands.
use warp_insight.Prelude.{
  ℕ, ◌==◌, Bool, true, false, not, ◌||◌, Option, none, some, List, [], ◌∷◌, reverse, ◌++◌, length,
  if◌then◌else◌,
}
use warp_insight.Prelude.Text.{Text, text, trim, is_empty}
use warp_insight.Prelude.Results.{Result, ok, err}
use warp_insight.Secret.{Headers}
use warp_insight.Snapshots.{Disk}
use warp_insight.Gateway.RateLimit.{Buckets}
use warp_insight.Center.Config.{CenterConfig}
use warp_insight.Center.Store.{
  ReleaseRecord, UpgradeTarget, UpgradeStep, UpgradePlanRecord, CenterStoreSnapshot,
}
use warp_insight.Center.Tokens.{digits}
use warp_insight.Center.Artifacts.{ArtifactStore, store_artifact}
use warp_insight.Center.Catalog.{
  publish_release, list_releases, create_upgrade_plan, list_upgrade_plans, approve_upgrade_plan,
}
use warp_insight.Center.Access.{Refusal, refused, internal, Moment, require_admin_bearer}
use warp_insight.Center.Admin.{as_admin, or_internal, stored_or_internal}

pub record PublishReleaseRequest : Type 0 where
  pub version : Text
  pub artifact_url : Text
  pub requested_by : Text

unfoldable pub before_slash : Text → Text
before_slash [] = []
before_slash (c ∷ url) = if c == 47 then [] else c ∷ before_slash url

-- What follows the last slash, or a name of its own.
unfoldable pub artifact_filename : (url component version : Text) → Text
unfolding before_slash is_empty
artifact_filename url component version =
    let segment = reverse (before_slash (reverse url)) in
    if not (is_empty segment) then segment else component ++ (text "-" ++ (version ++ text ".bin"))

-- What surrounds a publication: the download, which gives the bytes or an error, the writing of the
-- artifact and that of the store.
pub record Publication : Type 0 where
  pub download : Text → Result Text (List ℕ)
  pub artifacts : ArtifactStore
  pub artifact_failure : Option Text
  pub published_at : ℕ
  pub recording : Disk

unfoldable pub publish :
    Publication
    → (component : Text) → PublishReleaseRequest
    → CenterStoreSnapshot
    → CenterStoreSnapshot × Result Refusal ReleaseRecord
unfolding trim is_empty artifact_filename store_artifact publish_release
publish around component request s =
    if is_empty (trim request.version)
      || is_empty (trim request.artifact_url)
      || is_empty (trim request.requested_by)
    then (s, err (refused 400 (text "version, artifact_url and requested_by must not be empty")))
    else elim (around.download request.artifact_url) [
      | err e ↦ (s, err (refused 502 (text "failed to fetch artifact: " ++ e)))
      | ok bytes ↦
          elim (store_artifact around.artifact_failure around.artifacts component request.version
            (artifact_filename request.artifact_url component request.version)) [
              | err e ↦ (s, err (internal (text "failed to store artifact: " ++ e)))
              | ok mirrored_url ↦ stored_or_internal (text "failed to record release: ") (
                  publish_release around.published_at around.recording component request.version
                    mirrored_url s)
            ]
    ]

unfoldable pub admin_publish_release :
    (List ℕ → List ℕ)
    → CenterConfig
    → Moment
    → Publication
    → Headers
    → (client_key component : Text) → PublishReleaseRequest
    → Buckets × CenterStoreSnapshot
    → (Buckets × CenterStoreSnapshot) × Result Refusal ReleaseRecord
unfolding require_admin_bearer publish
admin_publish_release digest config at around headers client_key component request (m, s) =
    as_admin s (publish around component request s)
      (require_admin_bearer digest config at headers client_key m)

unfoldable pub admin_list_releases :
    (List ℕ → List ℕ)
    → CenterConfig
    → Moment
    → Headers
    → (client_key component : Text) → Buckets × CenterStoreSnapshot
    → (Buckets × CenterStoreSnapshot) × Result Refusal (List ReleaseRecord)
unfolding require_admin_bearer list_releases
admin_list_releases digest config at headers client_key component (m, s) =
    as_admin s
      (s, or_internal (text "failed to load releases: ") (list_releases at.loading component s))
      (require_admin_bearer digest config at headers client_key m)

pub record CreateUpgradePlanRequest : Type 0 where
  pub targets : List UpgradeTarget
  pub gateway_ids : List Text
  pub steps : List UpgradeStep
  pub requested_by : Text

abbrev pub none_of : {A : Type 0} → List A → Bool
none_of [] = true
none_of (x ∷ xs) = false

-- The plan is named by the nanoseconds of the clock, which is read once here.
unfoldable pub create_plan :
    (now : ℕ)
    → Disk
    → CreateUpgradePlanRequest
    → CenterStoreSnapshot
    → CenterStoreSnapshot × Result Refusal UpgradePlanRecord
unfolding trim is_empty digits create_upgrade_plan
create_plan now writing request s =
    let plan : UpgradePlanRecord = record {
      plan_id = text "plan-" ++ digits now now;
      targets = request.targets;
      target_count = length request.gateway_ids;
      status = text "pending";
      created_at = now;
      steps = request.steps;
      approved_by = none;
      approved_at = none;
    } in
    if none_of request.targets
      || none_of request.gateway_ids
      || is_empty (trim request.requested_by)
    then (s, err (refused 400 (text "targets, gateway_ids and requested_by must not be empty")))
    else stored_or_internal (text "failed to create upgrade plan: ")
        (create_upgrade_plan writing plan s)

unfoldable pub admin_create_upgrade_plan :
    (List ℕ → List ℕ)
    → CenterConfig
    → Moment
    → (writing : Disk) → Headers
    → (client_key : Text) → CreateUpgradePlanRequest
    → Buckets × CenterStoreSnapshot
    → (Buckets × CenterStoreSnapshot) × Result Refusal UpgradePlanRecord
unfolding require_admin_bearer create_plan
admin_create_upgrade_plan digest config at writing headers client_key request (m, s) =
    as_admin s (create_plan at.now writing request s)
      (require_admin_bearer digest config at headers client_key m)

unfoldable pub admin_list_upgrade_plans :
    (List ℕ → List ℕ)
    → CenterConfig
    → Moment
    → Headers
    → (client_key : Text) → Buckets × CenterStoreSnapshot
    → (Buckets × CenterStoreSnapshot) × Result Refusal (List UpgradePlanRecord)
unfolding require_admin_bearer list_upgrade_plans
admin_list_upgrade_plans digest config at headers client_key (m, s) =
    as_admin s
      (s, or_internal (text "failed to load upgrade plans: ") (list_upgrade_plans at.loading s))
      (require_admin_bearer digest config at headers client_key m)

abbrev approval :
    Text
    → CenterStoreSnapshot × Result Text (Option UpgradePlanRecord)
    → CenterStoreSnapshot × Result Refusal UpgradePlanRecord
approval plan_id (s, ok (some plan)) = (s, ok plan)
approval plan_id (s, ok none) =
    (s, err (refused 404 (text "upgrade plan " ++ (plan_id ++ text " not found"))))
approval plan_id (s, err e) = (s, err (internal (text "failed to approve upgrade plan: " ++ e)))

unfoldable pub admin_approve_upgrade_plan :
    (List ℕ → List ℕ)
    → CenterConfig
    → Moment
    → (writing : Disk) → Headers
    → (client_key plan_id approved_by : Text) → Buckets × CenterStoreSnapshot
    → (Buckets × CenterStoreSnapshot) × Result Refusal UpgradePlanRecord
unfolding require_admin_bearer approve_upgrade_plan
admin_approve_upgrade_plan digest config at writing headers client_key plan_id approved_by (m, s) =
    as_admin s (approval plan_id (approve_upgrade_plan at.now writing plan_id approved_by s))
      (require_admin_bearer digest config at headers client_key m)

-- `GlobalPolicyDispatch` and `AgentFleetDispatchReceipt`, whose statuses are fixed: the dispatch, the
-- version of the policy or the kind of the command, the number of targets and the time. The clock is
-- read once here.
pub record Dispatch : Type 0 where
  pub dispatch_id : Text
  pub subject : Text
  pub target_count : ℕ
  pub dispatched_at : ℕ

unfoldable pub admin_dispatch_global_policy :
    (List ℕ → List ℕ)
    → CenterConfig
    → Moment
    → Headers
    → (client_key policy_version : Text) → (gateway_ids : List Text) → Buckets × CenterStoreSnapshot
    → (Buckets × CenterStoreSnapshot) × Result Refusal Dispatch
unfolding require_admin_bearer digits
admin_dispatch_global_policy digest config at headers client_key policy_version gateway_ids (m, s) =
    as_admin s
      (
        s,
        ok (record {
          dispatch_id = text "policy-" ++ digits at.now at.now;
          subject = policy_version;
          target_count = length gateway_ids;
          dispatched_at = at.now;
        }),
      )
      (require_admin_bearer digest config at headers client_key m)

unfoldable pub admin_dispatch_agent_fleet_command :
    (List ℕ → List ℕ)
    → CenterConfig
    → Moment
    → Headers
    → (client_key command_kind : Text) → (agent_ids : List Text) → Buckets × CenterStoreSnapshot
    → (Buckets × CenterStoreSnapshot) × Result Refusal Dispatch
unfolding require_admin_bearer digits
admin_dispatch_agent_fleet_command digest config at headers client_key command_kind agent_ids
      (m, s) =
    as_admin s
      (
        s,
        ok (record {
          dispatch_id = text "fleet-" ++ digits at.now at.now;
          subject = command_kind;
          target_count = length agent_ids;
          dispatched_at = at.now;
        }),
      )
      (require_admin_bearer digest config at headers client_key m)
