-- ===== src/Center/Catalog.antt =====
-- crates/wist-center/src/infra/store.rs: the releases, the upgrade plans, the bindings of customers,
-- and the listings.
pub mod Listed
pub mod Bindings
use warp_insight.Prelude.{ℕ, Bool, Option, none, some, List, [], ◌∷◌, ◌++◌, leb, if◌then◌else◌}
use warp_insight.Prelude.Text.{Text, text, text_eq}
use warp_insight.Prelude.Assoc.{Assoc, get, insert}
use warp_insight.Prelude.Results.{Result, ok, err}
use warp_insight.Prelude.Sorting.{sort, text_le}
use warp_insight.Snapshots.{Disk, load, update}
use warp_insight.Center.Store.{
  StoredGateway, StoredAgent, LifecycleEvent, ReleaseRecord, UpgradePlanRecord,
  GatewayCustomerBindingRecord, CenterStoreSnapshot,
}
use warp_insight.Center.Gateways.{or_default}

abbrev look :
    {A : Type 0} → (CenterStoreSnapshot → A) → Result Text CenterStoreSnapshot → Result Text A
look read (ok s) = ok (read s)
look read (err e) = err e

abbrev pub values : {V : Type 0} → Assoc V → List V
values [] = []
values ((k, v) ∷ m) = v ∷ values m

abbrev pub id_le : StoredGateway → StoredGateway → Bool
id_le left right = text_le left.gateway_id right.gateway_id

unfoldable pub sorted_gateways : CenterStoreSnapshot → List StoredGateway
unfolding sort
sorted_gateways s = sort id_le (values s.gateways)

unfoldable pub list_gateways : Disk → CenterStoreSnapshot → Result Text (List StoredGateway)
unfolding load sorted_gateways
list_gateways disk s = look sorted_gateways (load disk s)

abbrev pub agents_of : Text → List StoredAgent → List StoredAgent
agents_of gateway_id [] = []
agents_of gateway_id (agent ∷ agents) =
    let rest = agents_of gateway_id agents in
    if text_eq agent.gateway_id gateway_id then agent ∷ rest else rest

abbrev pub agent_le : StoredAgent → StoredAgent → Bool
agent_le left right = text_le left.agent_id right.agent_id

unfoldable pub list_agents_by_gateway :
    Disk → Text → CenterStoreSnapshot → Result Text (List StoredAgent)
unfolding load sort
list_agents_by_gateway disk gateway_id s =
    look (λ s. sort agent_le (agents_of gateway_id (values s.agents))) (load disk s)

unfoldable pub list_lifecycle_events :
    Disk → Text → CenterStoreSnapshot → Result Text (List LifecycleEvent)
unfolding load
list_lifecycle_events disk gateway_id s =
    look (λ s. or_default (get gateway_id s.lifecycle_events)) (load disk s)

abbrev returned :
    {A : Type 0}
    → A
    → CenterStoreSnapshot × Result Text (Unit {0})
    → CenterStoreSnapshot × Result Text A
returned answer (s, ok u) = (s, ok answer)
returned answer (s, err e) = (s, err e)

unfoldable pub publish_release :
    ℕ
    → Disk
    → (component version artifact_url : Text) → CenterStoreSnapshot
    → CenterStoreSnapshot × Result Text ReleaseRecord
unfolding update
publish_release now disk component version artifact_url s =
    let release : ReleaseRecord = record {
      version = version;
      artifact_url = artifact_url;
      status = text "published";
      published_at = now;
    } in
    returned release (
      update disk
        (λ s. (
          record s {
            releases =
                insert component (or_default (get component s.releases) ++ (release ∷ []))
                  s.releases;
          },
          tt,
        ))
        s)

-- From the newest to the oldest.
abbrev pub release_le : ReleaseRecord → ReleaseRecord → Bool
release_le left right = leb right.published_at left.published_at

unfoldable pub list_releases : Disk → Text → CenterStoreSnapshot → Result Text (List ReleaseRecord)
unfolding load sort
list_releases disk component s =
    look (λ s. sort release_le (or_default (get component s.releases))) (load disk s)

unfoldable pub create_upgrade_plan :
    Disk
    → UpgradePlanRecord
    → CenterStoreSnapshot
    → CenterStoreSnapshot × Result Text UpgradePlanRecord
unfolding update
create_upgrade_plan disk plan s =
    returned plan (update disk (λ s. (record s { upgrade_plans = plan ∷ s.upgrade_plans }, tt)) s)

unfoldable pub list_upgrade_plans :
    Disk → CenterStoreSnapshot → Result Text (List UpgradePlanRecord)
unfolding load
list_upgrade_plans disk s = look (λ s. s.upgrade_plans) (load disk s)

unfoldable pub approved : ℕ → Text → UpgradePlanRecord → UpgradePlanRecord
approved now approved_by plan = record plan {
  status = text "approved";
  approved_by = some approved_by;
  approved_at = some now;
}

-- `iter_mut().find(…)` and the change of the plan that is found, if one is.
unfoldable pub approve_in :
    ℕ
    → (plan_id approved_by : Text) → List UpgradePlanRecord
    → List UpgradePlanRecord × Option UpgradePlanRecord
unfolding approved
approve_in now plan_id approved_by [] = ([], none)
approve_in now plan_id approved_by (plan ∷ plans) =
    let (rest, found) = approve_in now plan_id approved_by plans in
    if text_eq plan.plan_id plan_id
    then (approved now approved_by plan ∷ plans, some (approved now approved_by plan))
    else (plan ∷ rest, found)

-- `ok none` is the conflict, of a plan that is not there.
unfoldable pub approve_upgrade_plan :
    ℕ
    → Disk
    → (plan_id approved_by : Text) → CenterStoreSnapshot
    → CenterStoreSnapshot × Result Text (Option UpgradePlanRecord)
unfolding update approve_in
approve_upgrade_plan now disk plan_id approved_by s =
    update disk
      (λ s.
        let (plans, found) = approve_in now plan_id approved_by s.upgrade_plans in
        (record s { upgrade_plans = plans }, found))
      s

-- The binding that is found is changed, a new one put at the end.
unfoldable pub bind_in :
    ℕ
    → (gateway_id customer_id : Text) → List GatewayCustomerBindingRecord
    → List GatewayCustomerBindingRecord × GatewayCustomerBindingRecord
bind_in now gateway_id customer_id [] =
    let binding : GatewayCustomerBindingRecord = record {
      gateway_id = gateway_id;
      customer_id = customer_id;
      status = text "bound";
      bound_at = now;
    } in
    (binding ∷ [], binding)
bind_in now gateway_id customer_id (existing ∷ bindings) =
    let (rest, binding) = bind_in now gateway_id customer_id bindings in
    let changed : GatewayCustomerBindingRecord = record existing {
      customer_id = customer_id;
      status = text "bound";
      bound_at = now;
    } in
    if text_eq existing.gateway_id gateway_id
    then (changed ∷ bindings, changed)
    else (existing ∷ rest, binding)

unfoldable pub bind_gateway_customer :
    ℕ
    → Disk
    → (gateway_id customer_id : Text) → CenterStoreSnapshot
    → CenterStoreSnapshot × Result Text GatewayCustomerBindingRecord
unfolding update bind_in
bind_gateway_customer now disk gateway_id customer_id s =
    update disk
      (λ s.
        let (bindings, binding) = bind_in now gateway_id customer_id s.customer_bindings in
        (record s { customer_bindings = bindings }, binding))
      s

unfoldable pub list_customer_bindings :
    Disk → CenterStoreSnapshot → Result Text (List GatewayCustomerBindingRecord)
unfolding load
list_customer_bindings disk s = look (λ s. s.customer_bindings) (load disk s)
