-- ===== src/Center/Gateways.antt =====
-- crates/wist-center/src/infra/store.rs: the operations of `FileStore` on gateways and agents. Each
-- closure of an update is a function of the snapshot; the clock's reading is an argument.
pub mod Lifecycle
pub mod Events
pub mod Credential
use warp_insight.Prelude.{
  ℕ, ◌-◌, Bool, true, false, not, ◌&&◌, ◌||◌, Option, none, some, List, [], ◌∷◌, ◌++◌, ltb, length,
  drop, if◌then◌else◌,
}
use warp_insight.Prelude.Text.{Text, text, text_eq, is_empty}
use warp_insight.Prelude.Assoc.{get, insert, contains_key}
use warp_insight.Prelude.Results.{Result, ok, err}
use warp_insight.Secret.{sha256_hex}
use warp_insight.Snapshots.{Disk, update}
use warp_insight.Center.Store.{
  GatewayInstanceLifecycleState, StoredGatewayCredentialStatus, StoredGateway, provisioned_gateway,
  LifecycleEvent, StoredAgent, GatewayStatusUpdate, CenterStoreSnapshot, GatewayCredentialSeed,
  is_state,
}

abbrev pub put_gateway : StoredGateway → Text → CenterStoreSnapshot → CenterStoreSnapshot
put_gateway gateway key s = record s { gateways = insert key gateway s.gateways }

abbrev pub max_events : ℕ
max_events = 100

abbrev pub or_default : {A : Type 0} → Option (List A) → List A
or_default none = []
or_default (some events) = events

unfoldable pub keep_last : List LifecycleEvent → List LifecycleEvent
keep_last events =
    if ltb max_events (length events) then drop (length events - max_events) events else events

unfoldable pub record_lifecycle_event :
    ℕ
    → Text
    → Option GatewayInstanceLifecycleState
    → GatewayInstanceLifecycleState
    → CenterStoreSnapshot
    → CenterStoreSnapshot × Unit {0}
unfolding keep_last
record_lifecycle_event now gateway_id from to s =
    let event : LifecycleEvent = record {
      gateway_id = gateway_id;
      from_state = from;
      to_state = to;
      at = now;
    } in
    let events = or_default (get gateway_id s.lifecycle_events) ++ (event ∷ []) in
    (record s { lifecycle_events = insert gateway_id (keep_last events) s.lifecycle_events }, tt)

unfoldable pub seed :
    (List ℕ → List ℕ)
    → List GatewayCredentialSeed
    → CenterStoreSnapshot
    → CenterStoreSnapshot × Bool
unfolding contains_key provisioned_gateway sha256_hex
seed digest [] s = (s, false)
seed digest (given ∷ seeds) s =
    let gateway =
      provisioned_gateway given.gateway_id (text "") (sha256_hex digest given.token)
        given.expires_at in
    let (s1, added) =
      if contains_key given.gateway_id s.gateways
      then (s, false)
      else (put_gateway gateway given.gateway_id s, true) in
    let (s2, added_later) = seed digest seeds s1 in (s2, added || added_later)

unfoldable pub new_gateway : (List ℕ → List ℕ) → ℕ → Text → Text → StoredGateway
unfolding provisioned_gateway is_empty sha256_hex
new_gateway digest now gateway_id token =
    record (provisioned_gateway gateway_id (text "") (text "") none) {
      bootstrap_token_hash = if is_empty token then text "" else sha256_hex digest token;
      lifecycle_state = some GatewayInstanceLifecycleState.provisioned;
      created_at = some now;
    }

-- The error is the conflict, with its detail.
unfoldable pub insert_gateway :
    (List ℕ → List ℕ)
    → ℕ
    → Text
    → Text
    → CenterStoreSnapshot
    → CenterStoreSnapshot × Result Text StoredGateway
unfolding contains_key new_gateway
insert_gateway digest now gateway_id token s =
    if contains_key gateway_id s.gateways
    then (s, err gateway_id)
    else let stored = new_gateway digest now gateway_id token in
      (put_gateway stored gateway_id s, ok stored)

abbrev pub then_record :
    {T : Type 0}
    → Disk
    → ℕ
    → Text
    → Option GatewayInstanceLifecycleState
    → GatewayInstanceLifecycleState
    → T
    → CenterStoreSnapshot
    → CenterStoreSnapshot × Result Text T
then_record disk now gateway_id from to answer s =
    let (s', recorded) = update disk (record_lifecycle_event now gateway_id from to) s in
    elim recorded [ ok u ↦ (s', ok answer) | err e ↦ (s', err e) ]

-- A `StoreError` by its reason: the gateway that is there already, or the text of another error.
pub data StoreError : Type 0 where
  conflict failed : Text → StoreError

abbrev failing :
    {A : Type 0} → CenterStoreSnapshot × Result Text A → CenterStoreSnapshot × Result StoreError A
failing (s, ok a) = (s, ok a)
failing (s, err e) = (s, err (failed e))

unfoldable pub create_gateway :
    (List ℕ → List ℕ)
    → (now later : ℕ) → (writing recording : Disk) → Text
    → Text
    → CenterStoreSnapshot
    → CenterStoreSnapshot × Result StoreError StoredGateway
unfolding update insert_gateway record_lifecycle_event
create_gateway digest now later writing recording gateway_id token s =
    let (s', answer) = update writing (insert_gateway digest now gateway_id token) s in
    elim answer [
      | err e ↦ (s', err (failed e))
      | ok (err e) ↦ (s', err (conflict e))
      | ok (ok stored) ↦ failing (
          then_record recording later gateway_id none GatewayInstanceLifecycleState.provisioned
            stored s')
    ]

unfoldable pub consume_bootstrap_token :
    (List ℕ → List ℕ) → Text → Text → CenterStoreSnapshot → CenterStoreSnapshot × Bool
unfolding sha256_hex is_empty
consume_bootstrap_token digest gateway_id bootstrap_token s = elim (get gateway_id s.gateways) [
  | none ↦ (s, false)
  | some gateway ↦
      if is_empty gateway.bootstrap_token_hash
        || not (text_eq gateway.bootstrap_token_hash (sha256_hex digest bootstrap_token))
        || not (is_state GatewayInstanceLifecycleState.provisioned gateway.lifecycle_state)
      then (s, false)
      else (put_gateway (record gateway { bootstrap_token_hash = text "" }) gateway_id s, true)
]

unfoldable pub update_gateway_credential :
    Text → Text → Option Text → CenterStoreSnapshot → CenterStoreSnapshot × Bool
update_gateway_credential gateway_id token_hash expires_at s = elim (get gateway_id s.gateways) [
  | none ↦ (s, false)
  | some gateway ↦ (
    put_gateway
        (record gateway {
          credential_token_hash = token_hash;
          credential_status = StoredGatewayCredentialStatus.active;
          credential_expires_at = expires_at;
        })
        gateway_id s,
    true,
  )
]

unfoldable pub upsert_agent_status :
    Text → List StoredAgent → CenterStoreSnapshot → CenterStoreSnapshot × Unit {0}
upsert_agent_status gateway_id [] s = (s, tt)
upsert_agent_status gateway_id (agent ∷ agents) s =
    upsert_agent_status gateway_id agents (record s {
      agents = insert agent.agent_id (record agent { gateway_id = gateway_id }) s.agents;
    })

-- The first update of `mark_gateway_initializing`, and whether it changed the state.
unfoldable pub set_initializing : Text → CenterStoreSnapshot → CenterStoreSnapshot × Bool
set_initializing gateway_id s = elim (get gateway_id s.gateways) [
  | none ↦ (s, false)
  | some stored ↦
      if is_state GatewayInstanceLifecycleState.provisioned stored.lifecycle_state
      then (
        put_gateway
            (record stored { lifecycle_state = some GatewayInstanceLifecycleState.initializing })
            gateway_id s,
        true,
      )
      else (s, false)
]

unfoldable pub mark_gateway_initializing :
    ℕ
    → (writing recording : Disk) → Text
    → CenterStoreSnapshot
    → CenterStoreSnapshot × Result Text (Unit {0})
unfolding update set_initializing record_lifecycle_event
mark_gateway_initializing now writing recording gateway_id s =
    let (s', answer) = update writing (set_initializing gateway_id) s in
    elim answer [
      | err e ↦ (s', err e)
      | ok false ↦ (s', ok tt)
      | ok true ↦
          then_record recording now gateway_id (some GatewayInstanceLifecycleState.provisioned)
            GatewayInstanceLifecycleState.initializing tt s'
    ]

unfoldable pub report_gateway : ℕ → GatewayStatusUpdate → StoredGateway → StoredGateway
report_gateway now given stored =
    let reported : StoredGateway = record stored {
      instance_id = given.instance_id;
      version = some given.version;
      status = some given.status;
      health = some given.health;
      memory_bytes = given.memory_bytes;
      cpu_percent = given.cpu_percent;
      last_seen_at = some given.last_seen_at;
    } in
    if is_state GatewayInstanceLifecycleState.running stored.lifecycle_state
    then reported
    else record reported {
      lifecycle_state = some GatewayInstanceLifecycleState.running;
      initialized_at = some now;
    }

-- The first update of `upsert_gateway_status`: whether the state changed, and from which.
unfoldable pub store_gateway_status :
    ℕ
    → GatewayStatusUpdate
    → CenterStoreSnapshot
    → CenterStoreSnapshot × (Bool × Option GatewayInstanceLifecycleState)
unfolding report_gateway
store_gateway_status now given s = elim (get given.gateway_id s.gateways) [
  | none ↦ (s, (false, none))
  | some stored ↦ (
    put_gateway (report_gateway now given stored) given.gateway_id s,
    if is_state GatewayInstanceLifecycleState.running stored.lifecycle_state
        then (false, none)
        else (true, stored.lifecycle_state),
  )
]

unfoldable pub upsert_gateway_status :
    (now later : ℕ)
    → (writing recording : Disk) → GatewayStatusUpdate
    → CenterStoreSnapshot
    → CenterStoreSnapshot × Result Text (Unit {0})
unfolding update store_gateway_status record_lifecycle_event
upsert_gateway_status now later writing recording given s =
    let (s', answer) = update writing (store_gateway_status now given) s in
    elim answer [
      | err e ↦ (s', err e)
      | ok (false, from) ↦ (s', ok tt)
      | ok (true, from) ↦
          then_record recording later given.gateway_id from GatewayInstanceLifecycleState.running tt
            s'
    ]
