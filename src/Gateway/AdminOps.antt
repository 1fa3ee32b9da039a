-- ===== src/Gateway/AdminOps.antt =====
-- crates/warp-gateway/src/api/admin_ops.rs: what an operator asks about one agent.
use warp_insight.Prelude.{ℕ, Option, none, some, List, ◌++◌, true, false, ◌≡◌, arith}
use warp_insight.Prelude.Text.{Text, text}
use warp_insight.Prelude.Assoc.{get, contains_key}
use warp_insight.Prelude.Results.{Result, ok, err}
use warp_insight.Secret.{Headers}
use warp_insight.Gateway.Config.{AdminConfig}
use warp_insight.Gateway.RateLimit.{Buckets}
use warp_insight.Gateway.Store.{StoredAgentRegistration, AdminStoreSnapshot, Disk, load}
use warp_insight.Gateway.Admission.{require_admin_bearer, Denial}
use warp_insight.Gateway.Admission.AdminBearer.{Passes, require_admin_bearer_iff}

-- Why the question is not answered.
pub data Failure : Type 0 where
  denied : Denial → Failure
  unknown_agent : Text → Failure
  store_failed : Text → Failure

abbrev or_unknown : Text → Option StoredAgentRegistration → Result Failure StoredAgentRegistration
or_unknown agent_id none = err (unknown_agent agent_id)
or_unknown agent_id (some agent) = ok agent

-- The answer is the registration, from which the status is written out; "online" and "healthy" are
-- what it always says.
unfoldable pub get_agent_runtime_status :
    (List ℕ → List ℕ)
    → AdminConfig
    → (checked_at recorded_at : ℕ) → Disk
    → Headers
    → (client_key agent_id : Text) → AdminStoreSnapshot
    → Buckets
    → Buckets × Result Failure StoredAgentRegistration
unfolding require_admin_bearer load
get_agent_runtime_status digest config checked_at recorded_at disk headers client_key agent_id s m =
    let (m', admitted) =
      require_admin_bearer digest config checked_at recorded_at headers client_key m in
    elim admitted [
      | err denial ↦ (m', err (denied denial))
      | ok u ↦ elim (load disk s) [
        | err e ↦ (m', err (store_failed e))
        | ok snapshot ↦ (m', or_unknown agent_id (get agent_id snapshot.agents))
      ]
    ]

unfoldable pub agent_not_found_response : Disk → Text → AdminStoreSnapshot → Option Failure
unfolding load contains_key
agent_not_found_response disk agent_id s = elim (load disk s) [
  | err e ↦ some (store_failed e)
  | ok snapshot ↦ elim (contains_key agent_id snapshot.agents) [
    | true ↦ none
    | false ↦ some (unknown_agent agent_id)
  ]
]

pub record DispatchReceipt : Type 0 where
  pub agent_id : Text
  pub command_id : Text
  pub dispatch_id : Text
  pub status : Text

-- Without the time of its creation.
unfoldable pub dispatch_receipt : Text → Text → Text → DispatchReceipt
dispatch_receipt agent_id kind requested_by = record {
  agent_id = agent_id;
  command_id = text "admin-" ++ (kind ++ (text "-command-" ++ requested_by));
  dispatch_id = text "admin-" ++ (kind ++ text "-dispatch");
  status = text "accepted";
}

abbrev or_else : Text → Option Text → Text
or_else value none = value
or_else value (some given) = given

-- What `pause_agent` and `upgrade_agent` share.
unfoldable pub dispatch :
    (List ℕ → List ℕ)
    → AdminConfig
    → (checked_at recorded_at : ℕ) → Disk
    → Headers
    → (client_key agent_id kind : Text) → Option Text
    → AdminStoreSnapshot
    → Buckets
    → Buckets × Result Failure DispatchReceipt
unfolding require_admin_bearer agent_not_found_response dispatch_receipt
dispatch digest config checked_at recorded_at disk headers client_key agent_id kind requested_by s
      m =
    let (m', admitted) =
      require_admin_bearer digest config checked_at recorded_at headers client_key m in
    elim admitted [
      | err denial ↦ (m', err (denied denial))
      | ok u ↦ elim (agent_not_found_response disk agent_id s) [
        | some failure ↦ (m', err failure)
        | none ↦
            (m', ok (dispatch_receipt agent_id kind (or_else (text "admin-operator") requested_by)))
      ]
    ]

unfoldable pub pause_agent :
    (List ℕ → List ℕ)
    → AdminConfig
    → (checked_at recorded_at : ℕ) → Disk
    → Headers
    → (client_key agent_id : Text) → Option Text
    → AdminStoreSnapshot
    → Buckets
    → Buckets × Result Failure DispatchReceipt
unfolding dispatch
pause_agent digest config checked_at recorded_at disk headers client_key agent_id requested_by s m =
    dispatch digest config checked_at recorded_at disk headers client_key agent_id (text "pause")
      requested_by s m

unfoldable pub upgrade_agent :
    (List ℕ → List ℕ)
    → AdminConfig
    → (checked_at recorded_at : ℕ) → Disk
    → Headers
    → (client_key agent_id : Text) → (requested_by target_version : Option Text)
    → AdminStoreSnapshot
    → Buckets
    → Buckets × Result Failure DispatchReceipt
unfolding dispatch
upgrade_agent digest config checked_at recorded_at disk headers client_key agent_id requested_by
      target_version s m =
    dispatch digest config checked_at recorded_at disk headers client_key agent_id
      (text "upgrade-" ++ or_else (text "v0.3.2") target_version) requested_by s m

dispatch-inv :
    (digest : List ℕ → List ℕ) (config : AdminConfig) (checked_at recorded_at : ℕ) (disk : Disk)
    (headers : Headers) (client_key agent_id kind : Text) (requested_by : Option Text)
    (s : AdminStoreSnapshot) (m m' : Buckets) (receipt : DispatchReceipt)
    → load disk s ≡ ok s
    → dispatch digest config checked_at recorded_at disk headers client_key agent_id kind
        requested_by s m
      ≡ (m', ok receipt)
    → (require_admin_bearer digest config checked_at recorded_at headers client_key m ≡ (m', ok tt))
      × (contains_key agent_id s.agents ≡ true)
      × (receipt.agent_id ≡ agent_id)
unfolding dispatch agent_not_found_response dispatch_receipt
dispatch-inv digest config checked_at recorded_at disk headers client_key agent_id kind requested_by
      s m m' receipt d h =
    ground arith

-- When the store can be read, an upgrade is dispatched only for an attempt that passes as the
-- operator, and to an agent that is registered, which is the one the receipt names.
pub upgrade_agent-admits :
    (digest : List ℕ → List ℕ) (config : AdminConfig) (checked_at recorded_at : ℕ) (disk : Disk)
    (headers : Headers) (client_key agent_id : Text) (requested_by target_version : Option Text)
    (s : AdminStoreSnapshot) (m m' : Buckets) (receipt : DispatchReceipt)
    → load disk s ≡ ok s
    → upgrade_agent digest config checked_at recorded_at disk headers client_key agent_id
        requested_by target_version s m
      ≡ (m', ok receipt)
    → Passes digest config checked_at headers client_key m m'
      × (contains_key agent_id s.agents ≡ true)
      × (receipt.agent_id ≡ agent_id)
unfolding upgrade_agent
upgrade_agent-admits digest config checked_at recorded_at disk headers client_key agent_id
      requested_by target_version s m m' receipt d h =
    let (admitted, known, same) =
      dispatch-inv digest config checked_at recorded_at disk headers client_key agent_id
        (text "upgrade-" ++ or_else (text "v0.3.2") target_version) requested_by s m m' receipt d
        h in
    (
      (require_admin_bearer_iff digest config checked_at recorded_at headers client_key m m').0
          admitted,
      known,
      same,
    )
